-- ===== src/Examples/Service.antt =====
-- The recovery service at concrete inputs: one token is submitted twice, with a rotation between.
use desktop_mdm.Text.Number.{parse_unsigned}
use desktop_mdm.Prelude.{
  ℕ, ◌≡◌, ◌≢◌, ◌⊎◌, refl, true, false, some, none, List, [], ◌∷◌, ◌++◌, arith, list_beq, ap, Bool,
  sym, ◌∙◌,
}
use desktop_mdm.Prelude.Int.{pos}
use desktop_mdm.Prelude.Result.{ok, err, Result}
use desktop_mdm.Text.{Text, chars, strip_prefix, utf8}
use desktop_mdm.Text.Ascii.{eq_ignore_ascii_case}
use desktop_mdm.Text.Trim.{trim}
use desktop_mdm.Recovery.Bytes.{be_bytes, from_be_bytes, i64_bits, i64_of_bits}
use desktop_mdm.Recovery.Token.{Uuid, UnlockToken, payload, token_of_payload, sign_to_string}
use desktop_mdm.Recovery.Verify.{is_after, check_token, split_raw, decode_code, verify_unlock}
use desktop_mdm.Recovery.Key.{parse_public_key_hex, key_bytes, hex_pair}
use desktop_mdm.StateStore.{
  File, missing, content, WriteIo, LockIo, write_json, StoreError, write_json_atomic, lock, publish,
  fill_temporary,
}
use desktop_mdm.RecoveryService.{
  RecoveryRequest, RecoveryState, save, process, answered, read_mailbox, commit, transaction,
  read_state, answer_request, commit_token, save, ServiceError,
}
use desktop_mdm.RecoveryService.Answers.{Answered, process-Answered, receipt_for, decoded}
use desktop_mdm.RecoveryService.History.{
  provisions, processes, AtLeast, run, run-AtLeast, token_opens_once,
}
use desktop_mdm.Examples.Toy.{
  toy_ed, toy_base64, toy_base64-IsBase64, toy_timestamp, zeros, state_json, state_json-IsJson,
  request_json,
}

abbrev pub device : Uuid
device = 7 ∷ zeros 15

abbrev pub key_hex : Text
key_hex = chars "abababababababababababababababababababababababababababababababab"

abbrev token : UnlockToken
token = record { device_id = device; counter = 5; expires_unix = pos 100 }

abbrev pub request : RecoveryRequest
request = record { request_id = 1 ∷ zeros 15; token = sign_to_string toy_ed toy_base64 token 1 }

abbrev second : RecoveryRequest
second = record { request_id = 2 ∷ zeros 15; token = sign_to_string toy_ed toy_base64 token 1 }

abbrev request_bytes : RecoveryRequest → List ℕ
request_bytes r = 16 ∷ (r.request_id ++ r.token)

abbrev old_state : RecoveryState
old_state = record { public_key_hex = key_hex; counter = 4; receipt = none }

abbrev pub new_state : RecoveryState
new_state = record {
  public_key_hex = key_hex;
  counter = 5;
  receipt = some (receipt_for request true 50);
}

abbrev refused_state : RecoveryState
refused_state = record {
  public_key_hex = key_hex;
  counter = 5;
  receipt = some (receipt_for second false 60);
}

abbrev pub file_of : RecoveryState → File
file_of s = elim (state_json.to_vec s) [ none ↦ missing | some bytes ↦ content bytes ]

abbrev good_lock : LockIo
good_lock = record { lock_dir_created = true; lock_opened = true; lock_taken = true }

abbrev good_write : WriteIo
good_write = record {
  windows = true;
  dir_created = true;
  temp_created = true;
  acl_set = true;
  temp_written = true;
  temp_synced = true;
  persisted = true;
  dir_synced = true;
}

-- The first submission moves the counter to 5 and leaves an accepting receipt.
first_run :
    process toy_ed toy_base64 toy_timestamp request_json state_json good_lock good_write device 50
      (content (request_bytes request))
      (file_of old_state)
    ≡ (ok tt, file_of new_state)
unfolding process read_mailbox commit transaction lock read_state answer_request answered
    commit_token save write_json publish fill_temporary parse_public_key_hex key_bytes hex_pair
    parse_unsigned verify_unlock decode_code split_raw check_token is_after sign_to_string payload
    token_of_payload be_bytes from_be_bytes i64_bits i64_of_bits trim strip_prefix list_beq utf8
    eq_ignore_ascii_case
first_run = refl

key_parses : parse_public_key_hex toy_ed key_hex ≡ some 32
unfolding parse_public_key_hex key_bytes hex_pair parse_unsigned strip_prefix list_beq utf8 trim
key_parses = refl

process-Answered_example :
    let after =
      (process toy_ed toy_base64 toy_timestamp request_json state_json good_lock good_write device
        50
        (content (request_bytes request))
        (file_of old_state)).1 in
    (after ≡ file_of old_state)
    ⊎ Answered toy_ed toy_base64 toy_timestamp request_json state_json device 50
        (content (request_bytes request))
        (file_of old_state)
        after
process-Answered_example =
    process-Answered toy_ed toy_base64 toy_timestamp request_json state_json state_json-IsJson
      good_lock good_write device 50 (content (request_bytes request)) (file_of old_state)

run-AtLeast_example : AtLeast state_json 4 (
    run toy_ed toy_base64 toy_timestamp request_json state_json (file_of old_state) (
      provisions good_lock good_write key_hex
      ∷ processes good_lock good_write device 50 (content (request_bytes request))
      ∷ []))
run-AtLeast_example =
    run-AtLeast toy_ed toy_base64 toy_base64-IsBase64 toy_timestamp request_json state_json
      state_json-IsJson (file_of old_state)
      (provisions good_lock good_write key_hex
        ∷ processes good_lock good_write device 50 (content (request_bytes request))
        ∷ [])
      4 (old_state, refl, omega arith)

-- The second submission is of the same token, and is refused.
second_run :
    process toy_ed toy_base64 toy_timestamp request_json state_json good_lock good_write device 60
      (content (request_bytes second))
      (file_of new_state)
    ≡ (ok tt, file_of refused_state)
unfolding process read_mailbox commit transaction lock read_state answer_request answered
    commit_token save write_json publish fill_temporary parse_public_key_hex key_bytes hex_pair
    parse_unsigned verify_unlock decode_code split_raw check_token is_after sign_to_string payload
    token_of_payload be_bytes from_be_bytes i64_bits i64_of_bits trim strip_prefix list_beq utf8
    eq_ignore_ascii_case
second_run = refl

abbrev after_first : File
after_first =
    (process toy_ed toy_base64 toy_timestamp request_json state_json good_lock good_write device 50
      (content (request_bytes request)) (file_of old_state)).1

abbrev later : File
later = run toy_ed toy_base64 toy_timestamp request_json state_json after_first []

abbrev after_second : File
after_second =
    (process toy_ed toy_base64 toy_timestamp request_json state_json good_lock good_write device 60
      (content (request_bytes second)) later).1

after_first-new : after_first ≡ file_of new_state
after_first-new = ap (λ (r : Result ServiceError (Unit {0}) × File). r.1) first_run

later-new : later ≡ file_of new_state
unfolding run
later-new = after_first-new

after_second-refused : after_second ≡ file_of refused_state
after_second-refused =
    ap
      (λ (f : File).
        (process toy_ed toy_base64 toy_timestamp request_json state_json good_lock good_write device
          60 (content (request_bytes second)) f).1)
      later-new
    ∙ ap (λ (r : Result ServiceError (Unit {0}) × File). r.1) second_run

abbrev accepts : File → Bool
accepts file = elim (decoded state_json file) [
  | none ↦ false
  | some state ↦ elim state.receipt [ none ↦ false | some receipt ↦ receipt.accepted ]
]

first_moved : after_first ≢ file_of old_state
first_moved h = let differs : true ≡ false = ap accepts (sym after_first-new ∙ h) in cc

second_moved : after_second ≢ later
second_moved h =
    let differs : false ≡ true = ap accepts (sym after_second-refused ∙ h ∙ later-new) in cc

token_opens_once_example : false ≢ true
token_opens_once_example =
    token_opens_once toy_ed toy_base64 toy_base64-IsBase64 toy_timestamp request_json state_json
      state_json-IsJson good_lock good_lock good_write good_write device device 50 60
      (request_bytes request) (request_bytes second) request second (file_of old_state) [] new_state
      refused_state (receipt_for request true 50) (receipt_for second false 60) refl first_moved
      (ap (decoded state_json) after_first-new) refl refl refl refl second_moved
      (ap (decoded state_json) after_second-refused) refl

write_json_atomic_example :
    let r = write_json state_json good_write (file_of old_state) new_state true in
    ((r.1 ≡ file_of old_state)
      ⊎ ((bytes : List ℕ) × (state_json.to_vec new_state ≡ some bytes) × (r.1 ≡ content bytes)))
    × (r.0 ≡ ok tt
        → (bytes : List ℕ) × (state_json.to_vec new_state ≡ some bytes) × (r.1 ≡ content bytes))
    × ((x : StoreError) → true ≡ true → r.0 ≡ err x → r.1 ≡ file_of old_state)
write_json_atomic_example =
    write_json_atomic state_json good_write (file_of old_state) new_state true
