-- ===== src/Recovery/Verify.antt =====
-- crates/emi-core/src/recovery.rs: `verify_unlock`, the device's side.
use desktop_mdm.Prelude.{
  ℕ, ◌+◌, Bool, false, Option, none, some, List, take, drop, length, ltb, ◌==◌, ℕ_eq, List_eq,
}
use desktop_mdm.Prelude.Int.{ℤ}
use desktop_mdm.Prelude.Result.{Result, ok, ok_or, ensure, ◌>>=◌, ◌>>◌}
use desktop_mdm.Text.{Text, strip_prefix}
use desktop_mdm.Text.Trim.{trim}
use desktop_mdm.Extern.{Ed25519, Base64}
use desktop_mdm.Recovery.Token.{
  Uuid, UnlockToken, token_prefix, payload_len, sig_len, token_of_payload,
}

pub data UnlockError : Type 0 where
  malformed bad_signature wrong_device expired replayed : UnlockError

-- Instants are numbers, in the order of `DateTime<Utc>`; `from_timestamp` is chrono's, `none` for
-- a second that it cannot represent.
abbrev pub Time : Type 0
Time = ℕ

abbrev pub FromTimestamp : Type 0
FromTimestamp = ℤ → Option Time

-- `Some(expiry) if expiry > now`
unfoldable pub is_after : Option Time → Time → Bool
is_after none now = false
is_after (some expiry) now = ltb now expiry

-- The tests on the decoded token, in their order.
unfoldable pub check_token :
    FromTimestamp → UnlockToken → Uuid → Time → ℕ → Result UnlockError UnlockToken
check_token from_timestamp token this_device now last_counter = do
  ensure (token.device_id == this_device) wrong_device
  ensure (is_after (from_timestamp token.expires_unix) now) expired
  ensure (ltb last_counter token.counter) replayed
  ok token

module _ (e : Ed25519) (b : Base64) where
  -- The length test, and the payload and the signature.
  unfoldable pub split_raw : List ℕ → Result UnlockError (List ℕ × e.Signature)
  split_raw raw = do
    ensure (length raw == payload_len + sig_len) malformed
    signature ← ok_or (e.signature_from_slice (drop payload_len raw)) malformed
    ok (take payload_len raw, signature)

  -- Prefix and base64.
  unfoldable pub decode_code : Text → Option (List ℕ)
  decode_code code = elim (strip_prefix token_prefix (trim code)) [
    | none ↦ none
    | some encoded ↦ b.decode encoded
  ]

  unfoldable pub verify_unlock :
      FromTimestamp → Text → e.VerifyingKey → Uuid → Time → ℕ → Result UnlockError UnlockToken
  verify_unlock from_timestamp code trusted this_device now last_counter = do
    raw ← ok_or (decode_code code) malformed
    parts ← split_raw raw
    ensure (e.verify_strict trusted parts.0 parts.1) bad_signature
    check_token from_timestamp (token_of_payload parts.0) this_device now last_counter
