-- ===== src/Recovery/Accepted.antt =====
-- What a token that `verify_unlock` accepts has passed, and what a second use of it meets.
use desktop_mdm.Prelude.{
  sym, ◌∙◌, ap, ◌≢◌, ◌≤◌, subst, ℕ, ◌<◌, ◌≡◌, refl, inl, inr, true, some, none, Option, List,
  length, arith, length-take, All-take, ==_iff, ℕ_eq, List_eq, Option-cases, take, drop, Bool-cases,
  ◌==◌,
}
use desktop_mdm.Prelude.Result.{ok, ensure, Result-cases, ensure-bind-eq-ok, ◌>>◌, Result}
use desktop_mdm.Text.{Text, strip_prefix}
use desktop_mdm.Text.Trim.{trim}
use desktop_mdm.Extern.{Ed25519, Base64, IsBase64, IsBytes}
use desktop_mdm.Recovery.Token.{
  Uuid, UnlockToken, token_prefix, token_of_payload, payload, IsToken, token_of_payload-IsToken,
  payload-token_of_payload,
}
use desktop_mdm.Recovery.Verify.{
  Time, FromTimestamp, is_after, check_token, decode_code, split_raw, bad_signature, verify_unlock,
  UnlockError,
}

-- What `check_token` demands of the token that it returns.
pub record Fresh (f : FromTimestamp) (t : UnlockToken) (device : Uuid) (now : Time) (last : ℕ)
    : Type 0 where
  pub same_device : t.device_id ≡ device
  pub newer : last < t.counter
  pub expiry : Time
  pub expires : f t.expires_unix ≡ some expiry
  pub in_time : now < expiry

is_after-some :
    (o : Option Time) (now : Time) → is_after o now ≡ true → (x : Time) × (o ≡ some x) × (now < x)
unfolding is_after
is_after-some none now h = absurd (ground arith)
is_after-some (some x) now h = (x, refl, ground arith)

check_token_ok :
    (f : FromTimestamp) (s t : UnlockToken) (device : Uuid) (now : Time) (last : ℕ)
    → check_token f s device now last ≡ ok t
    → (s ≡ t)
      × (is_after (f t.expires_unix) now ≡ true)
      × (t.device_id ≡ device)
      × (last < t.counter)
unfolding check_token
check_token_ok f s t device now last h = ground (arith, ==_iff s.device_id device)

pub check_token-Fresh :
    (f : FromTimestamp) (s t : UnlockToken) (device : Uuid) (now : Time) (last : ℕ)
    → check_token f s device now last ≡ ok t
    → Fresh f t device now last
check_token-Fresh f s t device now last h =
    let (e, after, same, newer) = check_token_ok f s t device now last h in
    let (x, ex, lt) = is_after-some (f t.expires_unix) now after in
    record { same_device = same; newer = newer; expiry = x; expires = ex; in_time = lt }

module _ (e : Ed25519) (b : Base64) (c : IsBase64 b) where
  decode_code-some :
      (code : Text) (raw : List ℕ)
      → decode_code e b code ≡ some raw
      → (encoded : Text) × (strip_prefix token_prefix (trim code) ≡ some encoded)
        × (b.decode encoded ≡ some raw)
  unfolding decode_code
  decode_code-some code raw h = elim (Option-cases (strip_prefix token_prefix (trim code))) [
    | inl e1 ↦ cc (rw (e1, decode_code) at h)
    | inr (encoded, e1) ↦ (encoded, e1, rw (e1, decode_code) at h)
  ]

  decode_code-IsBytes : (code : Text) (raw : List ℕ) → decode_code e b code ≡ some raw → IsBytes raw
  unfolding decode_code
  decode_code-IsBytes code raw h = elim (Option-cases (strip_prefix token_prefix (trim code))) [
    | inl e1 ↦ cc (rw (e1, decode_code) at h)
    | inr (encoded, e1) ↦ c.decode-IsBytes encoded raw (rw (e1, decode_code) at h)
  ]

  split_raw_ok :
      (raw : List ℕ) (parts : List ℕ × e.Signature)
      → IsBytes raw
      → split_raw e b raw ≡ ok parts
      → (length parts.0 ≡ 32) × IsBytes parts.0
  unfolding split_raw
  split_raw_ok raw parts bytes h = ground (
    arith,
    length-take 32 raw,
    All-take (λ (x : ℕ). x < 256) 32 raw bytes,
    ==_iff (length raw) 96,
  )

  parts-Accepted :
      (f : FromTimestamp) (key : e.VerifyingKey) (device : Uuid) (now last : ℕ) (t : UnlockToken)
      (parts : List ℕ × e.Signature)
      → (length parts.0 ≡ 32) × IsBytes parts.0
      → (ensure (e.verify_strict key parts.0 parts.1) bad_signature
          >> check_token f (token_of_payload parts.0) device now last)
        ≡ ok t
      → IsToken t
        × (payload t ≡ parts.0)
        × (e.verify_strict key (payload t) parts.1 ≡ true)
        × Fresh f t device now last
  parts-Accepted f key device now last t (p, s) (l, bytes) h =
      let (signed, h3) = ensure-bind-eq-ok (e.verify_strict key p s) bad_signature _ h in
      let same = (check_token_ok f (token_of_payload p) t device now last h3).0 in
      let same_payload : payload t ≡ p =
        ap payload (sym same) ∙ payload-token_of_payload p l bytes in
      (
        subst IsToken same (token_of_payload-IsToken p l bytes),
        same_payload,
        rw same_payload signed,
        check_token-Fresh f (token_of_payload p) t device now last h3,
      )

  -- The code is the prefix and base64 of 96 bytes: the payload of the token, and then a signature
  -- that is valid over it under the key.
  pub record IsSigned (code : Text) (key : e.VerifyingKey) (t : UnlockToken) : Type 0 where
    pub encoded : Text
    pub prefixed : strip_prefix token_prefix (trim code) ≡ some encoded
    pub raw : List ℕ
    pub decoded : b.decode encoded ≡ some raw
    pub sized : length raw ≡ 96
    pub same_payload : take 32 raw ≡ payload t
    pub signature : e.Signature
    pub parsed : e.signature_from_slice (drop 32 raw) ≡ some signature
    pub signed : e.verify_strict key (payload t) signature ≡ true

  split_raw-parts :
      (raw : List ℕ) (parts : List ℕ × e.Signature)
      → split_raw e b raw ≡ ok parts
      → (length raw ≡ 96)
        × (take 32 raw ≡ parts.0)
        × (e.signature_from_slice (drop 32 raw) ≡ some parts.1)
  unfolding split_raw
  split_raw-parts raw parts h = elim (Bool-cases (length raw == 96)) [
    | inr bad ↦ cc (rw (bad, split_raw) at h)
    | inl good ↦ elim (Option-cases (e.signature_from_slice (drop 32 raw))) [
      | inl e1 ↦ cc (rw (good, e1, split_raw) at h)
      | inr (s, e1) ↦
          let same : (take 32 raw, s) ≡ parts =
            parts_of (take 32 raw, s) parts (rw (good, e1, split_raw) at h) in
          (
            (==_iff (length raw) 96).0 good,
            ap (λ (x : List ℕ × e.Signature). x.0) same,
            e1 ∙ ap (λ (x : List ℕ × e.Signature). some x.1) same,
          )
    ]
  ]
    where
      parts_of :
          (x y : List ℕ × e.Signature)
          → ◌≡◌ {A = Result UnlockError (List ℕ × e.Signature)} (ok x) (ok y)
          → x ≡ y
      parts_of x y k = cc

  -- An accepted code is the prefix and base64 of exactly the payload of the returned token and a
  -- signature over it that is valid under the trusted key; the token's fields are in range, it is
  -- for this device, its expiry is representable and lies after `now`, and its counter is above the
  -- last one.
  pub verify_unlock-accepted :
      (f : FromTimestamp) (code : Text) (key : e.VerifyingKey) (device : Uuid) (now last : ℕ)
      (t : UnlockToken)
      → verify_unlock e b f code key device now last ≡ ok t
      → IsToken t × IsSigned code key t × Fresh f t device now last
  unfolding verify_unlock
  verify_unlock-accepted f code key device now last t h =
      elim (Option-cases (decode_code e b code)) [
        | inl e1 ↦ cc (rw (e1, verify_unlock) at h)
        | inr (raw, e1) ↦ elim (Result-cases (split_raw e b raw)) [
          | inl (parts, e2) ↦
              let (token, same, signed, fresh) =
                parts-Accepted f key device now last t parts
                  (split_raw_ok raw parts (decode_code-IsBytes code raw e1) e2)
                  (rw (e1, e2, verify_unlock) at h) in
              let (sized, taken, parsed) = split_raw-parts raw parts e2 in
              let (encoded, prefixed, decoded) = decode_code-some code raw e1 in
              (
                token,
                record {
                  encoded = encoded;
                  prefixed = prefixed;
                  raw = raw;
                  decoded = decoded;
                  sized = sized;
                  same_payload = taken ∙ sym same;
                  signature = parts.1;
                  parsed = parsed;
                  signed = signed;
                },
                fresh,
              )
          | inr (x, e2) ↦ cc (rw (e1, e2, verify_unlock) at h)
        ]
      ]

  -- The token that an accepted code yields is a function of the code alone.
  token_of_code :
      (f f' : FromTimestamp) (code : Text) (key key' : e.VerifyingKey) (device device' : Uuid)
      (now last later stored : ℕ) (t t' : UnlockToken)
      → verify_unlock e b f code key device now last ≡ ok t
      → verify_unlock e b f' code key' device' later stored ≡ ok t'
      → (t ≡ t') × (stored < t'.counter)
  unfolding verify_unlock
  token_of_code f f' code key key' device device' now last later stored t t' h h' =
      elim (Option-cases (decode_code e b code)) [
        | inl e1 ↦ cc (rw (e1, verify_unlock) at h)
        | inr (raw, e1) ↦ elim (Result-cases (split_raw e b raw)) [
          | inl ((p, s), e2) ↦
              let g =
                ensure-bind-eq-ok (e.verify_strict key p s) bad_signature _
                  (rw (e1, e2, verify_unlock) at h) in
              let g' =
                ensure-bind-eq-ok (e.verify_strict key' p s) bad_signature _
                  (rw (e1, e2, verify_unlock) at h') in
              let r = check_token_ok f (token_of_payload p) t device now last g.1 in
              let r' = check_token_ok f' (token_of_payload p) t' device' later stored g'.1 in
              (sym r.0 ∙ r'.0, r'.3)
          | inr (x, e2) ↦ cc (rw (e1, e2, verify_unlock) at h)
        ]
      ]

  -- A code that was accepted once is never accepted again, under any key, for any device and at any
  -- instant, against a stored counter that is at least the accepted token's.
  pub verify_unlock_once :
      (f f' : FromTimestamp) (code : Text) (key key' : e.VerifyingKey) (device device' : Uuid)
      (now last later stored : ℕ) (t t' : UnlockToken)
      → verify_unlock e b f code key device now last ≡ ok t
      → t.counter ≤ stored
      → verify_unlock e b f' code key' device' later stored ≢ ok t'
  verify_unlock_once f f' code key key' device device' now last later stored t t' h old h' =
      let r = token_of_code f f' code key key' device device' now last later stored t t' h h' in
      omega (arith, r.1, ap (λ (u : UnlockToken). u.counter) r.0)
