-- ===== src/Command.antt =====
-- apps/windows-agent/src/command_security.rs: verification and replay protection of the remote
-- lock commands.
pub mod Accepted
pub mod History
use desktop_mdm.Prelude.{
  ℕ, ◌≡◌, Bool, true, false, not, ◌&&◌, ◌||◌, Option, none, some, List, [], ◌∷◌, ltb, leb, any,
  if◌then◌else◌, length, ◌==◌, ℕ_eq, List_eq, Option_eq,
}
use desktop_mdm.Prelude.Result.{Result, ok, err, ok_or, ensure, ◌>>=◌, ◌>>◌}
use desktop_mdm.Text.{Text, chars, utf8}
use desktop_mdm.Text.Trim.{trim}
use desktop_mdm.Text.Ascii.{to_ascii_lowercase}
use desktop_mdm.Extern.{Ed25519, Base64}
use desktop_mdm.Recovery.Token.{Uuid}
use desktop_mdm.Recovery.Verify.{Time}
use desktop_mdm.Api.{
  CommandAction, lock, unlock, warn, release, uninstall, CommandAction_eq, PendingCommand,
  PatchFile,
}

abbrev pub signing_domain : Text
signing_domain = chars "emi-command-patch-v1"

pub record CanonicalPatchMessage : Type 0 where
  pub domain : Text
  pub device_uuid : Uuid
  pub patch_uuid : Uuid
  pub command_uuid : Uuid
  pub version : ℕ
  pub action : Text
  pub reason : Text
  pub nonce : Text
  pub command_expires_at : Text
  pub patch_expires_at : Text
  pub checksum : Text
  pub size_bytes : ℕ

-- `consumed_nonce_sha256` is a `BTreeSet`: the order of the list means nothing.
pub record CommandSecurityState : Type 0 where
  pub highest_patch_version : ℕ
  pub last_patch_uuid : Option Uuid
  pub last_command_uuid : Option Uuid
  pub last_message_sha256 : Option Text
  pub consumed_nonce_sha256 : List Text

-- `CommandSecurityState::default()`.
abbrev pub default_state : CommandSecurityState
default_state = record {
  highest_patch_version = 0;
  last_patch_uuid = none;
  last_command_uuid = none;
  last_message_sha256 = none;
  consumed_nonce_sha256 = [];
}

pub data SecurityError : Type 0 where
  expired no_nonce mismatch version_zero serialize rollback nonce_reused untrusted_key :
      SecurityError
  not_base64 wrong_length invalid_key weak_key bad_signature : SecurityError

-- What the crates provide: serde_json on the message, SHA-256 printed in hex, chrono's timestamp
-- text, the two base64 engines, and Ed25519.
pub record Crypto : Type 1 where
  pub ed : Ed25519
  pub standard : Base64
  pub url_safe_no_pad : Base64
  pub sha256_hex : List ℕ → Text
  pub message_json : CanonicalPatchMessage → Option Text
  pub rfc3339_micros : Time → Text

unfoldable pub verify_patch_binding :
    PendingCommand → PatchFile → Time → Result SecurityError (Unit {0})
verify_patch_binding command patch server_time = do
  ensure (not (leb command.expires_at server_time || leb patch.expires_at server_time)) expired
  ensure (not (trim command.nonce == [])) no_nonce
  ensure (patch.lock_command_uuid == command.uuid && patch.action == command.action) mismatch
  ensure (not (patch.version == 0)) version_zero
  ok tt

unfoldable pub action_name : CommandAction → Text
action_name lock = chars "LOCK"
action_name unlock = chars "UNLOCK"
action_name warn = chars "WARN"
action_name release = chars "RELEASE"
action_name uninstall = chars "UNINSTALL"

-- `BTreeSet::contains` and `insert`.
unfoldable pub contains : List Text → Text → Bool
contains set x = any (λ y. y == x) set

unfoldable pub insert : Text → List Text → List Text
unfolding contains
insert x set = if contains set x then set else x ∷ set

-- `BTreeMap::get`.
unfoldable pub trusted_key : ℕ → List (ℕ × Text) → Option Text
trusted_key id [] = none
trusted_key id ((k, v) ∷ keys) = if k == id then some v else trusted_key id keys

module _ (c : Crypto) where
  unfoldable pub canonical_patch_message :
      Uuid → PendingCommand → PatchFile → Result SecurityError Text
  canonical_patch_message device_uuid command patch =
      ok_or
        (c.message_json (record {
          domain = signing_domain;
          device_uuid = device_uuid;
          patch_uuid = patch.uuid;
          command_uuid = command.uuid;
          version = patch.version;
          action = action_name patch.action;
          reason = command.reason;
          nonce = command.nonce;
          command_expires_at = c.rfc3339_micros command.expires_at;
          patch_expires_at = c.rfc3339_micros patch.expires_at;
          checksum = to_ascii_lowercase (trim patch.checksum);
          size_bytes = patch.size_bytes;
        }))
        serialize

  unfoldable pub nonce_digest : Text → Text
  nonce_digest nonce = c.sha256_hex (utf8 nonce)

  unfoldable pub message_digest : Text → Text
  message_digest message = c.sha256_hex (utf8 message)

  -- `decode_fixed::<N>`
  unfoldable pub decode_fixed : ℕ → Text → Result SecurityError (List ℕ)
  decode_fixed n input =
      let value = trim input in
      let decoded = elim (c.standard.decode value) as (λ _. Option (List ℕ)) [
        | some bytes ↦ some bytes
        | none ↦ c.url_safe_no_pad.decode value
      ] in
      do bytes ← ok_or decoded not_base64; ensure (length bytes == n) wrong_length; ok bytes

  unfoldable pub normalize_public_key : Text → Result SecurityError Text
  unfolding decode_fixed
  normalize_public_key encoded = do
    bytes ← decode_fixed 32 encoded
    key ← ok_or (c.ed.key_from_bytes bytes) invalid_key
    ensure (not (c.ed.is_weak key)) weak_key
    ok (c.standard.encode bytes)

  -- The command that was applied last, delivered again.
  unfoldable pub exact_retry : Text → PendingCommand → PatchFile → CommandSecurityState → Bool
  exact_retry message command patch state =
      state.last_message_sha256 == some (message_digest message)
      && state.last_patch_uuid == some patch.uuid
      && state.last_command_uuid == some command.uuid
      && contains state.consumed_nonce_sha256 (nonce_digest command.nonce)
      && state.highest_patch_version == patch.version

  -- The replay tests.
  unfoldable pub check_replay :
      Text → PendingCommand → PatchFile → CommandSecurityState → Result SecurityError (Unit {0})
  check_replay message command patch state =
      let retry = exact_retry message command patch state in
      do
        ensure
            (not (
              ltb patch.version state.highest_patch_version
              || (patch.version == state.highest_patch_version && not retry)))
            rollback
        ensure
            (not (not retry && contains state.consumed_nonce_sha256 (nonce_digest command.nonce)))
            nonce_reused
        ok tt

  -- The signature test.
  unfoldable pub check_signature :
      Text → PatchFile → List (ℕ × Text) → Result SecurityError (Unit {0})
  check_signature message patch trusted_keys = do
    encoded_key ← ok_or (trusted_key patch.signing_key_id trusted_keys) untrusted_key
    key_bytes ← decode_fixed 32 encoded_key
    key ← ok_or (c.ed.key_from_bytes key_bytes) invalid_key
    signature_bytes ← decode_fixed 64 patch.signed_payload
    ensure (c.ed.verify_strict key (utf8 message) (c.ed.signature_from_bytes signature_bytes))
        bad_signature
    ok tt

  unfoldable pub verify_command_patch :
      Uuid
      → PendingCommand
      → PatchFile
      → Time
      → List (ℕ × Text)
      → CommandSecurityState
      → Result SecurityError (Unit {0})
  verify_command_patch device_uuid command patch server_time trusted_keys state = do
    verify_patch_binding command patch server_time
    message ← canonical_patch_message device_uuid command patch
    check_replay message command patch state
    check_signature message patch trusted_keys

  unfoldable pub applied_security_state :
      Uuid
      → CommandSecurityState
      → PendingCommand
      → PatchFile
      → Result SecurityError CommandSecurityState
  applied_security_state device_uuid previous command patch = do
    message ← canonical_patch_message device_uuid command patch
    ok (record {
      highest_patch_version = patch.version;
      last_patch_uuid = some patch.uuid;
      last_command_uuid = some command.uuid;
      last_message_sha256 = some (message_digest message);
      consumed_nonce_sha256 = insert (nonce_digest command.nonce) previous.consumed_nonce_sha256;
    })
