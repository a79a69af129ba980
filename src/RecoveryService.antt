-- ===== src/RecoveryService.antt =====
-- apps/windows-agent/src/recovery_service.rs: the service's offline recovery.
pub mod Answers
pub mod History
use desktop_mdm.Prelude.{
  ℕ, ◌+◌, ◌≡◌, Bool, true, false, not, ◌&&◌, Option, none, some, List, ltb, if◌then◌else◌, take,
  length, ◌==◌, ℕ_eq, List_eq,
}
use desktop_mdm.Prelude.Result.{Result, ok, err, ok_or, ensure, is_ok, ◌>>=◌, ◌>>◌}
use desktop_mdm.Text.{Text, chars}
use desktop_mdm.Text.Trim.{trim}
use desktop_mdm.Text.Ascii.{to_ascii_lowercase, eq_ignore_ascii_case}
use desktop_mdm.Extern.{Ed25519, Base64, Json}
use desktop_mdm.Recovery.Token.{Uuid, UnlockToken}
use desktop_mdm.Recovery.Verify.{Time, FromTimestamp, UnlockError, verify_unlock}
use desktop_mdm.Recovery.Key.{parse_public_key_hex}
use desktop_mdm.StateStore.{
  File, missing, unreadable, content, StoreError, WriteIo, LockIo, lock, write_json,
}

abbrev pub lab_key : Text
lab_key = chars "ac1473ba71d2cd322163ccc8a8f64e1226cfcb815bfc270cbe7417f16d8ae7ba"

pub record RecoveryRequest : Type 0 where
  pub request_id : Uuid
  pub token : Text

pub record RecoveryReceipt : Type 0 where
  pub request_id : Uuid
  pub accepted : Bool
  pub expires_at : Time

pub record RecoveryState : Type 0 where
  pub public_key_hex : Text
  pub counter : ℕ
  pub receipt : Option RecoveryReceipt

pub data ServiceError : Type 0 where
  invalid_key refused_key read_mailbox_failed read_state_failed decode_state not_provisioned :
      ServiceError
  store : StoreError → ServiceError

-- `chrono::Duration::seconds(30)`: an instant counts nanoseconds.
abbrev pub receipt_lifetime : ℕ
receipt_lifetime = 30_000_000_000

abbrev pub lift_store : Result StoreError (Unit {0}) → Result ServiceError (Unit {0})
lift_store (ok u) = ok u
lift_store (err x) = err (store x)

module _ (e : Ed25519) where
  unfoldable pub validate_public_key : Text → Result ServiceError Text
  validate_public_key key_hex = do
    let normalized = to_ascii_lowercase (trim key_hex)
    key ← ok_or (parse_public_key_hex e normalized) invalid_key
    ensure (not (e.is_weak key) && not (normalized == lab_key)) refused_key
    ok normalized

-- The counter that `provision` keeps.
unfoldable pub kept_counter : Json RecoveryState → File → Result ServiceError ℕ
kept_counter j missing = ok 0
kept_counter j unreadable = err read_state_failed
kept_counter j (content bytes) = elim (j.from_slice bytes) [
  | none ↦ err decode_state
  | some state ↦ ok state.counter
]

unfoldable pub save :
    Json RecoveryState → WriteIo → File → RecoveryState → Result ServiceError (Unit {0}) × File
save j io file state = let r = write_json j io file state false in (lift_store r.0, r.1)

-- `provision` on the file recovery-state.json.
unfoldable pub provision :
    Ed25519
    → Json RecoveryState
    → LockIo
    → WriteIo
    → Text
    → File
    → Result ServiceError (Unit {0}) × File
provision e j guard io key_hex file =
    elim (do
      normalized ← validate_public_key e key_hex
      lift_store (lock guard)
      counter ← kept_counter j file
      ok (record { public_key_hex = normalized; counter = counter; receipt = none })) [
        | ok state ↦ save j io file state
        | err x ↦ (err x, file)
      ]

-- `File::open`, `take(1025)` and the length test on the mailbox; `none` ends the call.
unfoldable pub read_mailbox : File → Result ServiceError (Option (List ℕ))
read_mailbox missing = ok none
read_mailbox unreadable = err read_mailbox_failed
read_mailbox (content bytes) =
    let read = take 1025 bytes in if ltb 1024 (length read) then ok none else ok (some read)

unfoldable pub read_state : Json RecoveryState → File → Result ServiceError RecoveryState
read_state j missing = err not_provisioned
read_state j unreadable = err not_provisioned
read_state j (content bytes) = ok_or (j.from_slice bytes) decode_state

-- The receipt of this request is there already.
unfoldable pub answered : RecoveryState → RecoveryRequest → Bool
answered state request = elim state.receipt [
  | none ↦ false
  | some receipt ↦ receipt.request_id == request.request_id
]

unfoldable pub commit_token : RecoveryState → Result UnlockError UnlockToken → RecoveryState
commit_token state (ok token) = record state { counter = token.counter }
commit_token state (err x) = state

module _ (e : Ed25519) (b : Base64) (f : FromTimestamp) where
  -- The new state, or `none` where the request was answered before.
  unfoldable pub answer_request :
      Uuid → Time → RecoveryState → RecoveryRequest → Result ServiceError (Option RecoveryState)
  unfolding answered commit_token
  answer_request device now state request = if answered state request then ok none else do
    key ← ok_or (parse_public_key_hex e state.public_key_hex) invalid_key
    ensure (not (e.is_weak key) && not (eq_ignore_ascii_case state.public_key_hex lab_key))
        refused_key
    let result = verify_unlock e b f request.token key device now state.counter
    ok (
        some (record (commit_token state result) {
          receipt = some (record {
            request_id = request.request_id;
            accepted = is_ok result;
            expires_at = now + receipt_lifetime;
          });
        }))

  -- From the lock on: the state after the call, or `none` where nothing is written.
  unfoldable pub transaction :
      Json RecoveryState
      → LockIo
      → Uuid
      → Time
      → RecoveryRequest
      → File
      → Result ServiceError (Option RecoveryState)
  transaction j guard device now request file = do
    lift_store (lock guard)
    state ← read_state j file
    answer_request device now state request

  unfoldable pub commit :
      Json RecoveryState
      → WriteIo
      → File
      → Result ServiceError (Option RecoveryState)
      → Result ServiceError (Unit {0}) × File
  commit j io file (ok none) = (ok tt, file)
  commit j io file (ok (some state)) = save j io file state
  commit j io file (err x) = (err x, file)

  -- `process`, on the files recovery-request.json and recovery-state.json.
  unfoldable pub process :
      Json RecoveryRequest
      → Json RecoveryState
      → LockIo
      → WriteIo
      → Uuid
      → Time
      → File
      → File
      → Result ServiceError (Unit {0}) × File
  process jr j guard io device now mailbox file = elim (read_mailbox mailbox) [
    | err x ↦ (err x, file)
    | ok none ↦ (ok tt, file)
    | ok (some bytes) ↦ elim (jr.from_slice bytes) [
      | none ↦ (ok tt, file)
      | some request ↦ commit j io file (transaction j guard device now request file)
    ]
  ]
