-- ===== src/Command/Accepted.antt =====
-- What a command patch that `verify_command_patch` accepts has passed.
use desktop_mdm.Prelude.{
  ℕ, ◌≤◌, ◌<◌, ◌≡◌, ◌≢◌, ◌⊎◌, inl, inr, true, false, some, List, [], arith, ℕ_eq, List_eq,
  Option_eq, ==_iff, Bool-cases, Option-cases,
}
use desktop_mdm.Prelude.Result.{ok, Result-cases, ensure-bind-eq-ok}
use desktop_mdm.Text.{Text, utf8}
use desktop_mdm.Text.Trim.{trim}
use desktop_mdm.Recovery.Token.{Uuid}
use desktop_mdm.Recovery.Verify.{Time}
use desktop_mdm.Api.{PendingCommand, PatchFile, CommandAction_eq, action_beq_iff}
use desktop_mdm.Command.{
  Crypto, CommandSecurityState, verify_patch_binding, canonical_patch_message, nonce_digest,
  message_digest, exact_retry, check_replay, check_signature, verify_command_patch, contains,
  trusted_key, decode_fixed,
}

-- The patch is for the pending command, and neither has run out.
pub record IsBound (command : PendingCommand) (patch : PatchFile) (now : Time) : Type 0 where
  pub command_current : now < command.expires_at
  pub patch_current : now < patch.expires_at
  pub has_nonce : trim command.nonce ≢ []
  pub same_command : patch.lock_command_uuid ≡ command.uuid
  pub same_action : patch.action ≡ command.action
  pub versioned : 1 ≤ patch.version

-- The binding test succeeds exactly on a bound patch.
pub verify_patch_binding_iff :
    (command : PendingCommand) (patch : PatchFile) (now : Time)
    → (verify_patch_binding command patch now ≡ ok tt → IsBound command patch now)
      × (IsBound command patch now → verify_patch_binding command patch now ≡ ok tt)
unfolding verify_patch_binding
verify_patch_binding_iff command patch now = (
  λ h. record {
    command_current = ground arith;
    patch_current = ground arith;
    has_nonce = ground (arith, ==_iff (trim command.nonce) []);
    same_command = ground (arith, ==_iff patch.lock_command_uuid command.uuid);
    same_action = ground (arith, action_beq_iff patch.action command.action);
    versioned = ground arith;
  },
  λ v. ground (
    arith,
    ==_iff (trim command.nonce) [],
    ==_iff patch.lock_command_uuid command.uuid,
    action_beq_iff patch.action command.action,
  ),
)

module _ (c : Crypto) where
  -- The message is the one that was applied last.
  pub record IsRetry (message : Text) (command : PendingCommand) (patch : PatchFile)
      (state : CommandSecurityState) : Type 0 where
    pub same_message : state.last_message_sha256 ≡ some (message_digest c message)
    pub same_patch : state.last_patch_uuid ≡ some patch.uuid
    pub same_command : state.last_command_uuid ≡ some command.uuid
    pub consumed : contains state.consumed_nonce_sha256 (nonce_digest c command.nonce) ≡ true
    pub same_version : state.highest_patch_version ≡ patch.version

  -- The message is newer than all that were applied, under a nonce that none of them used.
  pub record IsNew (command : PendingCommand) (patch : PatchFile) (state : CommandSecurityState)
      : Type 0 where
    pub higher : state.highest_patch_version < patch.version
    pub unused : contains state.consumed_nonce_sha256 (nonce_digest c command.nonce) ≡ false

  pub exact_retry_iff :
      (message : Text) (command : PendingCommand) (patch : PatchFile) (state : CommandSecurityState)
      → (exact_retry c message command patch state ≡ true → IsRetry message command patch state)
        × (IsRetry message command patch state → exact_retry c message command patch state ≡ true)
  unfolding exact_retry
  exact_retry_iff message command patch state =
      let f1 = ==_iff state.last_message_sha256 (some (message_digest c message)) in
      let f2 = ==_iff state.last_patch_uuid (some patch.uuid) in
      let f3 = ==_iff state.last_command_uuid (some command.uuid) in
      let f4 = ==_iff state.highest_patch_version patch.version in
      (λ h. ground arith, λ v. ground arith)

  pub check_replay_ok :
      (message : Text) (command : PendingCommand) (patch : PatchFile) (state : CommandSecurityState)
      → check_replay c message command patch state ≡ ok tt
      → IsRetry message command patch state ⊎ IsNew command patch state
  unfolding check_replay
  check_replay_ok message command patch state h =
      elim (Bool-cases (exact_retry c message command patch state)) [
        | inl retry ↦ inl ((exact_retry_iff message command patch state).0 retry)
        | inr first ↦ inr (record { higher = ground arith; unused = ground arith })
      ]

  pub check_replay-IsRetry :
      (message : Text) (command : PendingCommand) (patch : PatchFile) (state : CommandSecurityState)
      → IsRetry message command patch state
      → check_replay c message command patch state ≡ ok tt
  unfolding check_replay
  check_replay-IsRetry message command patch state v =
      ground (arith, (exact_retry_iff message command patch state).1 v)

  -- A signature that verifies under the trusted key of the patch's key id.
  pub record IsSigned (message : Text) (patch : PatchFile) (keys : List (ℕ × Text)) : Type 0 where
    pub encoded_key : Text
    pub trusted : trusted_key patch.signing_key_id keys ≡ some encoded_key
    pub key_bytes : List ℕ
    pub key_decoded : decode_fixed c 32 encoded_key ≡ ok key_bytes
    pub key : c.ed.VerifyingKey
    pub key_parsed : c.ed.key_from_bytes key_bytes ≡ some key
    pub signature_bytes : List ℕ
    pub signature_decoded : decode_fixed c 64 patch.signed_payload ≡ ok signature_bytes
    pub verified :
        c.ed.verify_strict key (utf8 message) (c.ed.signature_from_bytes signature_bytes) ≡ true

  check_signature_ok :
      (message : Text) (patch : PatchFile) (keys : List (ℕ × Text))
      → check_signature c message patch keys ≡ ok tt
      → IsSigned message patch keys
  unfolding check_signature
  check_signature_ok message patch keys h =
      elim (Option-cases (trusted_key patch.signing_key_id keys)) [
        | inl e1 ↦ cc (rw (e1, check_signature) at h)
        | inr (encoded, e1) ↦ elim (Result-cases (decode_fixed c 32 encoded)) [
          | inr (x, e2) ↦ cc (rw (e1, e2, check_signature) at h)
          | inl (bytes, e2) ↦ elim (Option-cases (c.ed.key_from_bytes bytes)) [
            | inl e3 ↦ cc (rw (e1, e2, e3, check_signature) at h)
            | inr (key, e3) ↦ elim (Result-cases (decode_fixed c 64 patch.signed_payload)) [
              | inr (x, e4) ↦ cc (rw (e1, e2, e3, e4, check_signature) at h)
              | inl (sig, e4) ↦ record {
                encoded_key = encoded;
                trusted = e1;
                key_bytes = bytes;
                key_decoded = e2;
                key = key;
                key_parsed = e3;
                signature_bytes = sig;
                signature_decoded = e4;
                verified =
                    (ensure-bind-eq-ok _ _ (ok tt) (rw (e1, e2, e3, e4, check_signature) at h)).0;
              }
            ]
          ]
        ]
      ]

  -- The four tests that an accepted patch has passed.
  pub verify_command_patch_stages :
      (device_uuid : Uuid) (command : PendingCommand) (patch : PatchFile) (now : Time)
      (keys : List (ℕ × Text)) (state : CommandSecurityState)
      → verify_command_patch c device_uuid command patch now keys state ≡ ok tt
      → (message : Text) × (verify_patch_binding command patch now ≡ ok tt)
        × (canonical_patch_message c device_uuid command patch ≡ ok message)
        × (check_replay c message command patch state ≡ ok tt)
        × (check_signature c message patch keys ≡ ok tt)
  unfolding verify_command_patch
  verify_command_patch_stages device_uuid command patch now keys state h =
      elim (Result-cases (verify_patch_binding command patch now)) [
        | inr (x, e1) ↦ cc (rw (e1, verify_command_patch) at h)
        | inl (tt, e1) ↦ elim (Result-cases (canonical_patch_message c device_uuid command patch)) [
          | inr (x, e2) ↦ cc (rw (e1, e2, verify_command_patch) at h)
          | inl (message, e2) ↦ elim (Result-cases (check_replay c message command patch state)) [
            | inr (x, e3) ↦ cc (rw (e1, e2, e3, verify_command_patch) at h)
            | inl (tt, e3) ↦ (message, e1, e2, e3, rw (e1, e2, e3, verify_command_patch) at h)
          ]
        ]
      ]

  -- An accepted patch is bound to the pending command and current, its canonical message is a retry
  -- of the last one applied or newer than all of them under an unused nonce, and the message is
  -- signed by the trusted key that the patch names.
  pub record IsAccepted (device_uuid : Uuid) (command : PendingCommand) (patch : PatchFile)
      (now : Time) (keys : List (ℕ × Text)) (state : CommandSecurityState) : Type 0 where
    pub bound : IsBound command patch now
    pub message : Text
    pub canonical : canonical_patch_message c device_uuid command patch ≡ ok message
    pub order : IsRetry message command patch state ⊎ IsNew command patch state
    pub signed : IsSigned message patch keys

  -- A patch that `verify_command_patch` accepts is bound to the pending command and current, its
  -- canonical message is the last one applied or is newer than all of them under an unused nonce,
  -- and the message verifies under the trusted key that the patch names.
  pub verify_command_patch-IsAccepted :
      (device_uuid : Uuid) (command : PendingCommand) (patch : PatchFile) (now : Time)
      (keys : List (ℕ × Text)) (state : CommandSecurityState)
      → verify_command_patch c device_uuid command patch now keys state ≡ ok tt
      → IsAccepted device_uuid command patch now keys state
  verify_command_patch-IsAccepted device_uuid command patch now keys state h =
      let (message, e1, e2, e3, e4) =
        verify_command_patch_stages device_uuid command patch now keys state h in
      record {
        bound = (verify_patch_binding_iff command patch now).0 e1;
        message = message;
        canonical = e2;
        order = check_replay_ok message command patch state e3;
        signed = check_signature_ok message patch keys e4;
      }
