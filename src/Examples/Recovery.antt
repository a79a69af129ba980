-- ===== src/Examples/Recovery.antt =====
-- Unlock tokens at concrete inputs.
use desktop_mdm.Prelude.{◌≡◌, ◌≢◌, refl, true, some, none, [], ◌∷◌, ◌++◌, arith, list_beq}
use desktop_mdm.Prelude.Int.{pos}
use desktop_mdm.Prelude.Result.{ok, err}
use desktop_mdm.Text.{Text, chars, strip_prefix}
use desktop_mdm.Text.Trim.{trim, is_whitespace}
use desktop_mdm.Recovery.Bytes.{be_bytes, from_be_bytes, i64_bits, i64_of_bits}
use desktop_mdm.Recovery.Token.{
  Uuid, UnlockToken, IsToken, payload, token_of_payload, sign_to_string,
}
use desktop_mdm.Recovery.Verify.{
  malformed, replayed, is_after, check_token, split_raw, decode_code, verify_unlock,
}
use desktop_mdm.Recovery.Accepted.{Fresh, IsSigned, verify_unlock-accepted, verify_unlock_once}
use desktop_mdm.Recovery.RoundTrip.{verify_unlock-sign_to_string}
use desktop_mdm.Recovery.Key.{hex, parse_public_key_hex, parse_public_key_hex-hex}
use desktop_mdm.Recovery.Counter.{
  CounterIo, read_counter, record_counter, read_counter-record_counter,
}
use desktop_mdm.Examples.Toy.{
  toy_ed, toy_ed-IsEd25519, toy_base64, toy_base64-IsBase64, toy_timestamp, zeros,
}

abbrev device : Uuid
device = 7 ∷ zeros 15

abbrev token : UnlockToken
token = record { device_id = device; counter = 5; expires_unix = pos 100 }

token-IsToken : IsToken token
token-IsToken = record {
  id = (refl, omega arith);
  counter_u64 = omega arith;
  expires_i64 = omega arith;
}

abbrev code : Text
code = sign_to_string toy_ed toy_base64 token 1

-- A fresh token is accepted, and the answer is the minted token.
accepted : verify_unlock toy_ed toy_base64 toy_timestamp code 1 device 50 4 ≡ ok token
unfolding verify_unlock decode_code split_raw check_token is_after sign_to_string payload
    token_of_payload be_bytes from_be_bytes i64_bits i64_of_bits trim strip_prefix list_beq
accepted = refl

garbage :
    verify_unlock toy_ed toy_base64 toy_timestamp (chars "EMIU2-abcd") 1 device 50 0 ≡ err malformed
unfolding verify_unlock decode_code split_raw trim strip_prefix
garbage = refl

verify_unlock-accepted_example :
    IsToken token
    × IsSigned toy_ed toy_base64 toy_base64-IsBase64 code 1 token
    × Fresh toy_timestamp token device 50 4
verify_unlock-accepted_example =
    verify_unlock-accepted toy_ed toy_base64 toy_base64-IsBase64 toy_timestamp code 1 device 50 4
      token accepted

verify_unlock_once_example :
    verify_unlock toy_ed toy_base64 toy_timestamp code 2 device 60 5 ≢ ok token
verify_unlock_once_example =
    verify_unlock_once toy_ed toy_base64 toy_base64-IsBase64 toy_timestamp toy_timestamp code 1 2
      device device 50 4 60 5 token token accepted (omega arith)

verify_unlock-sign_to_string_example :
    verify_unlock toy_ed toy_base64 toy_timestamp ((32 ∷ 10 ∷ []) ++ (code ++ 9 ∷ [])) 1 device 50 5
    ≡ err replayed
unfolding is_whitespace is_after list_beq
verify_unlock-sign_to_string_example =
    verify_unlock-sign_to_string toy_ed toy_base64 toy_ed-IsEd25519 toy_base64-IsBase64
      toy_timestamp (32 ∷ 10 ∷ []) (9 ∷ []) token 1 1 device 50 5 (refl, (refl, tt)) (refl, tt)
      token-IsToken

parse_public_key_hex-hex_example : parse_public_key_hex toy_ed (hex (171 ∷ zeros 31)) ≡ some 32
parse_public_key_hex-hex_example =
    parse_public_key_hex-hex toy_ed (171 ∷ zeros 31) (omega arith) refl

abbrev quiet_io : CounterIo
quiet_io = record { dir_created = true; written = true; left_over = none }

read_counter-record_counter_example : read_counter (record_counter quiet_io none 905).1 ≡ 905
unfolding record_counter
read_counter-record_counter_example =
    read_counter-record_counter quiet_io none 905 (omega arith) refl
