-- ===== src/Examples/Command.antt =====
-- Command patches at concrete inputs: one is applied, delivered again, and followed by a newer one.
use desktop_mdm.Prelude.{
  ℕ, ◌≡◌, ◌≢◌, ◌⊎◌, ◌<◌, ◌≤◌, refl, some, List, [], ◌∷◌, list_beq, option_beq, ◌+◌, true,
}
use desktop_mdm.Prelude.Result.{ok}
use desktop_mdm.Text.{Text, chars, utf8}
use desktop_mdm.Text.Trim.{trim}
use desktop_mdm.Api.{PendingCommand, PatchFile, lock, action_beq}
use desktop_mdm.Command.{
  Crypto, CommandSecurityState, default_state, verify_patch_binding, contains, insert, trusted_key,
  canonical_patch_message, nonce_digest, message_digest, decode_fixed, exact_retry, check_replay,
  check_signature, verify_command_patch, applied_security_state,
}
use desktop_mdm.Command.Accepted.{IsRetry, IsAccepted, verify_command_patch-IsAccepted}
use desktop_mdm.Command.History.{History, start, applies, retry_accepted, History-grows, no_replay}
use desktop_mdm.Examples.Toy.{toy_ed, toy_base64, zeros}

abbrev pub toy : Crypto
toy = record {
  ed = toy_ed;
  standard = toy_base64;
  url_safe_no_pad = toy_base64;
  sha256_hex = λ bytes. bytes;
  message_json = λ m. some (m.version ∷ m.nonce);
  rfc3339_micros = λ t. t ∷ [];
}

abbrev pub keys : List (ℕ × Text)
keys = (3, toy_base64.encode (zeros 32)) ∷ []

abbrev pub command : ℕ → PendingCommand
command n = record {
  uuid = zeros 16;
  action = lock;
  reason = chars "overdue";
  nonce = (65 + n) ∷ [];
  expires_at = 100;
}

abbrev pub patch : ℕ → PatchFile
patch version = record {
  uuid = version ∷ zeros 15;
  lock_command_uuid = zeros 16;
  version = version;
  action = lock;
  checksum = chars "ab";
  size_bytes = 1;
  signed_payload = toy_base64.encode (toy_ed.signature_to_bytes true);
  signing_key_id = 3;
  expires_at = 100;
  download_url = [];
}

abbrev pub applied : CommandSecurityState
applied = record {
  highest_patch_version = 1;
  last_patch_uuid = some (1 ∷ zeros 15);
  last_command_uuid = some (zeros 16);
  last_message_sha256 = some (1 ∷ 65 ∷ []);
  consumed_nonce_sha256 = (65 ∷ []) ∷ [];
}

accepted : verify_command_patch toy (zeros 16) (command 0) (patch 1) 50 keys default_state ≡ ok tt
unfolding verify_command_patch verify_patch_binding canonical_patch_message check_replay
    check_signature exact_retry contains trusted_key decode_fixed nonce_digest message_digest trim
    list_beq option_beq utf8 action_beq
accepted = refl

moved : applied_security_state toy (zeros 16) default_state (command 0) (patch 1) ≡ ok applied
unfolding applied_security_state canonical_patch_message message_digest nonce_digest insert contains
    utf8
moved = refl

newer : verify_command_patch toy (zeros 16) (command 1) (patch 2) 50 keys applied ≡ ok tt
unfolding verify_command_patch verify_patch_binding canonical_patch_message check_replay
    check_signature exact_retry contains trusted_key decode_fixed nonce_digest message_digest trim
    list_beq option_beq utf8 action_beq
newer = refl

verify_command_patch-IsAccepted_example :
    IsAccepted toy (zeros 16) (command 0) (patch 1) 50 keys default_state
verify_command_patch-IsAccepted_example =
    verify_command_patch-IsAccepted toy (zeros 16) (command 0) (patch 1) 50 keys default_state
      accepted

retry_accepted_example :
    verify_command_patch toy (zeros 16) (command 0) (patch 1) 50 keys applied ≡ ok tt
retry_accepted_example =
    retry_accepted toy (zeros 16) (command 0) (patch 1) 50 keys default_state applied accepted moved

history : History toy default_state applied
history = applies start (zeros 16) (command 0) (patch 1) 50 keys accepted moved

History-grows_example :
    (default_state.highest_patch_version ≤ applied.highest_patch_version)
    × ((x : Text)
        → contains default_state.consumed_nonce_sha256 x ≡ true
        → contains applied.consumed_nonce_sha256 x ≡ true)
History-grows_example = History-grows toy history

no_replay_example :
    (1 ≤ 2)
    × (((message : Text) × (canonical_patch_message toy (zeros 16) (command 1) (patch 2)
            ≡ ok message)
          × IsRetry toy message (command 1) (patch 2) applied)
        ⊎ ((1 < 2) × (nonce_digest toy (command 1).nonce ≢ nonce_digest toy (command 0).nonce)))
no_replay_example =
    no_replay toy (zeros 16) (command 0) (patch 1) default_state applied applied (zeros 16)
      (command 1) (patch 2) 50 keys moved start newer
