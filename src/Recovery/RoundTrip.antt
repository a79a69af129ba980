-- ===== src/Recovery/RoundTrip.antt =====
-- What the device answers to a code that the owner's tool minted.
use desktop_mdm.Prelude.{
  ℕ, ◌<◌, ◌≡◌, refl, false, some, List, ◌++◌, length, arith, ltb, ◌==◌, ==_iff, ℕ_eq, List_eq,
  if◌then◌else◌, length-append, take-append, drop-append, All-append,
}
use desktop_mdm.Prelude.Result.{Result, ok, err}
use desktop_mdm.Text.{Text, strip_prefix-append}
use desktop_mdm.Text.Trim.{NoSpace, AllSpace, trim-padded, is_whitespace}
use desktop_mdm.Extern.{Ed25519, IsEd25519, Base64, IsBase64, IsBytes}
use desktop_mdm.Recovery.Token.{
  Uuid, UnlockToken, IsToken, token_prefix, payload, sign_to_string, payload-IsBytes,
  length-payload, token_of_payload-payload,
}
use desktop_mdm.Recovery.Verify.{
  UnlockError, wrong_device, bad_signature, expired, replayed, Time, FromTimestamp, is_after,
  check_token, split_raw, decode_code, verify_unlock,
}

-- The answer on a well-formed token.
abbrev pub answer : FromTimestamp → UnlockToken → Uuid → Time → ℕ → Result UnlockError UnlockToken
answer f t device now last =
    if t.device_id == device
    then if is_after (f t.expires_unix) now
      then if ltb last t.counter then ok t else err replayed
      else err expired
    else err wrong_device

check_token-eq-answer :
    (f : FromTimestamp) (t : UnlockToken) (device : Uuid) (now last : ℕ)
    → check_token f t device now last ≡ answer f t device now last
unfolding check_token
check_token-eq-answer f t device now last = ground arith

module _ (e : Ed25519) (b : Base64) (le : IsEd25519 e) (lb : IsBase64 b) where
  raw_of : UnlockToken → e.SigningKey → List ℕ
  raw_of t k = payload t ++ e.signature_to_bytes (e.sign k (payload t))

  raw_of-IsBytes : (t : UnlockToken) (k : e.SigningKey) → IsToken t → IsBytes (raw_of t k)
  unfolding raw_of
  raw_of-IsBytes t k v =
      All-append (λ (x : ℕ). x < 256) (payload t) _ (payload-IsBytes t v) (le.to_bytes-IsBytes _)

  split_raw-raw_of :
      (t : UnlockToken) (k : e.SigningKey)
      → IsToken t
      → split_raw e b (raw_of t k) ≡ ok (payload t, e.sign k (payload t))
  unfolding split_raw raw_of
  split_raw-raw_of t k v =
      let s = e.sign k (payload t) in
      let sb = e.signature_to_bytes s in
      let l : length (payload t ++ sb) ≡ 96 =
        omega (arith, length-append (payload t) sb, length-payload t v, le.length-to_bytes s) in
      rw ((==_iff (length (payload t ++ sb)) 96).1 l) (
        rw
          (
            take-append 32 (payload t) sb (length-payload t v),
            drop-append 32 (payload t) sb (length-payload t v),
            le.from_slice-to_bytes s,
          )
          refl)

  prefix-NoSpace : NoSpace token_prefix
  unfolding is_whitespace
  prefix-NoSpace = ground arith

  decode_code-padded :
      (v w : Text) (t : UnlockToken) (k : e.SigningKey)
      → AllSpace v
      → AllSpace w
      → IsToken t
      → decode_code e b (v ++ (sign_to_string e b t k ++ w)) ≡ some (raw_of t k)
  unfolding decode_code sign_to_string raw_of
  decode_code-padded v w t k hv hw ht =
      let body = b.encode (raw_of t k) in
      rw
        (
          trim-padded v (token_prefix ++ body) w hv (λ h. cc)
              (All-append (λ (x : ℕ). is_whitespace x ≡ false) token_prefix body prefix-NoSpace
                (lb.encode-NoSpace (raw_of t k)))
              hw,
          strip_prefix-append token_prefix body,
          decode_code,
        )
        (lb.decode-encode (raw_of t k) (raw_of-IsBytes t k ht))

  -- The answer to a minted code, padded with whitespace or not, under any trusted key: a signature
  -- that does not verify is refused first; then a token for another device, an expiry that is not
  -- after `now` or not representable, and a counter that is not above the last one; otherwise the
  -- minted token itself comes back.
  pub verify_unlock-sign_to_string :
      (f : FromTimestamp) (v w : Text) (t : UnlockToken) (k : e.SigningKey)
      (trusted : e.VerifyingKey) (device : Uuid) (now last : ℕ)
      → AllSpace v
      → AllSpace w
      → IsToken t
      → verify_unlock e b f (v ++ (sign_to_string e b t k ++ w)) trusted device now last ≡ (
          if e.verify_strict trusted (payload t) (e.sign k (payload t))
          then answer f t device now last
          else err bad_signature)
  unfolding verify_unlock
  verify_unlock-sign_to_string f v w t k trusted device now last hv hw ht =
      rw
        (
          decode_code-padded v w t k hv hw ht,
          split_raw-raw_of t k ht,
          token_of_payload-payload t ht,
          check_token-eq-answer f t device now last,
        )
        (ground arith)
