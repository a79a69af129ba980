-- ===== src/Recovery/Token.antt =====
-- crates/emi-core/src/recovery.rs: `UnlockToken`, its payload, and minting.
use desktop_mdm.Prelude.{
  ℕ, ◌^◌, ◌<◌, ◌≡◌, List, ◌++◌, length, take, drop, take-append-drop, drop-drop, take-all, All-take,
  All-drop, All-append, length-take, length-drop, take-append, drop-append, length-append, arith,
  refl,
}
use desktop_mdm.Prelude.Int.{ℤ}
use desktop_mdm.Text.{Text, chars}
use desktop_mdm.Extern.{Ed25519, Base64, IsBytes}
use desktop_mdm.Recovery.Bytes.{
  be_bytes, from_be_bytes, i64_bits, i64_of_bits, InI64, from_be_bytes-lt, be_bytes-from_be_bytes,
  i64_bits-i64_of_bits, i64_of_bits-InI64, length-be_bytes, from_be_bytes-be_bytes,
  i64_of_bits-i64_bits, i64_bits-lt, be_bytes-IsBytes,
}

-- A UUID is its sixteen bytes, `Uuid::as_bytes`.
abbrev pub Uuid : Type 0
Uuid = List ℕ

abbrev pub IsUuid : Uuid → Type 0
IsUuid u = (length u ≡ 16) × IsBytes u

abbrev pub token_prefix : Text
token_prefix = chars "EMIU1-"

abbrev pub payload_len : ℕ
payload_len = 32

abbrev pub sig_len : ℕ
sig_len = 64

pub record UnlockToken : Type 0 where
  pub device_id : Uuid
  pub counter : ℕ
  pub expires_unix : ℤ

-- The ranges of the fields' Rust types.
pub record IsToken (t : UnlockToken) : Type 0 where
  pub id : IsUuid t.device_id
  pub counter_u64 : t.counter < 256 ^ 8
  pub expires_i64 : InI64 t.expires_unix

unfoldable pub payload : UnlockToken → List ℕ
payload t = t.device_id ++ (be_bytes 8 t.counter ++ be_bytes 8 (i64_bits t.expires_unix))

-- The fields that `verify_unlock` reads at fixed offsets of the payload.
unfoldable pub token_of_payload : List ℕ → UnlockToken
token_of_payload p = record {
  device_id = take 16 p;
  counter = from_be_bytes (take 8 (drop 16 p));
  expires_unix = i64_of_bits (from_be_bytes (take 8 (drop 24 p)));
}

length_middle : (p : List ℕ) → length p ≡ 32 → length (take 8 (drop 16 p)) ≡ 8
length_middle p l = omega (arith, length-take 8 (drop 16 p), length-drop 16 p)

length_last : (p : List ℕ) → length p ≡ 32 → length (take 8 (drop 24 p)) ≡ 8
length_last p l = omega (arith, length-take 8 (drop 24 p), length-drop 24 p)

pub token_of_payload-IsToken :
    (p : List ℕ) → length p ≡ 32 → IsBytes p → IsToken (token_of_payload p)
unfolding token_of_payload
token_of_payload-IsToken p l h = record {
  id = (omega (arith, length-take 16 p), All-take _ 16 p h);
  counter_u64 = from_be_bytes-lt 8 _ (length_middle p l) (All-take _ 8 _ (All-drop _ 16 p h));
  expires_i64 =
      i64_of_bits-InI64 _
        (from_be_bytes-lt 8 _ (length_last p l) (All-take _ 8 _ (All-drop _ 24 p h)));
}

-- Reading a payload's fields and writing them again gives the payload.
pub payload-token_of_payload :
    (p : List ℕ) → length p ≡ 32 → IsBytes p → payload (token_of_payload p) ≡ p
unfolding payload token_of_payload
payload-token_of_payload p l h =
    rw
      (
        be_bytes-from_be_bytes 8 _ (length_middle p l) (All-take _ 8 _ (All-drop _ 16 p h)),
        i64_bits-i64_of_bits _
            (from_be_bytes-lt 8 _ (length_last p l) (All-take _ 8 _ (All-drop _ 24 p h))),
        be_bytes-from_be_bytes 8 _ (length_last p l) (All-take _ 8 _ (All-drop _ 24 p h)),
        take-all 8 (drop 24 p) (omega (arith, length-drop 24 p)),
        ← drop-drop 8 16 p,
        take-append-drop 8 (drop 16 p),
      )
      (take-append-drop 16 p)

pub payload-IsBytes : (t : UnlockToken) → IsToken t → IsBytes (payload t)
unfolding payload
payload-IsBytes t v =
    All-append _ t.device_id _ v.id.1
      (All-append _ (be_bytes 8 t.counter) _ (be_bytes-IsBytes 8 _) (be_bytes-IsBytes 8 _))

pub length-payload : (t : UnlockToken) → IsToken t → length (payload t) ≡ 32
unfolding payload
length-payload t v = omega (
  arith,
  v.id.0,
  length-append t.device_id (be_bytes 8 t.counter ++ be_bytes 8 (i64_bits t.expires_unix)),
  length-append (be_bytes 8 t.counter) (be_bytes 8 (i64_bits t.expires_unix)),
  length-be_bytes 8 t.counter,
  length-be_bytes 8 (i64_bits t.expires_unix),
)

-- The fields of a token's payload are the token's.
pub token_of_payload-payload : (t : UnlockToken) → IsToken t → token_of_payload (payload t) ≡ t
unfolding payload token_of_payload
token_of_payload-payload t v =
    let c = be_bytes 8 t.counter in
    let x = be_bytes 8 (i64_bits t.expires_unix) in
    rw
      (
        take-append 16 t.device_id (c ++ x) v.id.0,
        drop-append 16 t.device_id (c ++ x) v.id.0,
        ← drop-drop 8 16 (t.device_id ++ (c ++ x)),
        drop-append 16 t.device_id (c ++ x) v.id.0,
        take-append 8 c x (length-be_bytes 8 _),
        drop-append 8 c x (length-be_bytes 8 _),
        take-all 8 x (omega (arith, length-be_bytes 8 (i64_bits t.expires_unix))),
        from_be_bytes-be_bytes 8 t.counter v.counter_u64,
        from_be_bytes-be_bytes 8 (i64_bits t.expires_unix) (i64_bits-lt _ v.expires_i64),
        i64_of_bits-i64_bits t.expires_unix v.expires_i64,
      )
      refl

module _ (e : Ed25519) (b : Base64) where
  unfoldable pub sign_to_string : UnlockToken → e.SigningKey → Text
  sign_to_string t key =
      token_prefix ++ b.encode (payload t ++ e.signature_to_bytes (e.sign key (payload t)))
