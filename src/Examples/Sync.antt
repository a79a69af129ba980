-- ===== src/Examples/Sync.antt =====
-- Synchronizations at concrete inputs: a first signed command, then a newer one.
use desktop_mdm.StateStore.Stored.{stored}
use desktop_mdm.Prelude.{
  none, ap, sym, ◌++◌, ◌∙◌, ℕ, ◌≡◌, ◌≢◌, ◌⊎◌, ◌<◌, refl, true, false, some, [], ◌∷◌, list_beq,
  option_beq, ◌+◌,
}
use desktop_mdm.Prelude.Result.{ok, Result}
use desktop_mdm.Text.{Text, chars, utf8}
use desktop_mdm.Text.Trim.{trim}
use desktop_mdm.StateStore.{
  lock, write_json, fill_temporary, publish, File, missing, content, WriteIo,
}
use desktop_mdm.Storage.{record_api_activity, ActivityIo}
use desktop_mdm.Api.{CheckInResponse, locked, unlocked, action_beq}
use desktop_mdm.Command.{
  CommandSecurityState, default_state, verify_patch_binding, contains, insert, trusted_key,
  canonical_patch_message, nonce_digest, message_digest, decode_fixed, exact_retry, check_replay,
  check_signature, verify_command_patch, applied_security_state,
}
use desktop_mdm.Command.Accepted.{IsRetry}
use desktop_mdm.RemoteSync.{
  apply_check_in, persist_remote_state, apply_pending_command, acknowledge_patch, apply_patch,
  ack_of, reported_state, SyncError, Ack, SecuredRemoteState, Machine, Server, Display, Files,
  command_state, next_command_security, command_target_state, later, load_command_security_state,
  synchronize_remote_state,
}
use desktop_mdm.RemoteSync.Outcome.{Outcome}
use desktop_mdm.RemoteSync.Trace.{Round}
use desktop_mdm.RemoteSync.Ledger.{Continues, rounds, rounds-History, command_not_replayed, Applies}
use desktop_mdm.Examples.Toy.{zeros}
use desktop_mdm.Examples.Command.{toy, keys, command, patch, applied}
use desktop_mdm.Examples.SyncToy.{
  secured_json, secured_json-IsJson, activity_json, encode, put, get, put_option, get_option,
  put_all, get_all, kind_code, kind_of,
}

abbrev pub good_write : WriteIo
good_write = record {
  windows = true;
  dir_created = true;
  temp_created = true;
  acl_set = true;
  temp_written = true;
  temp_synced = true;
  persisted = true;
  dir_synced = true;
}

abbrev quiet : ActivityIo
quiet = record { found = false; now = 0; write = good_write }

abbrev pub machine : Machine
machine = record {
  lock = record { lock_dir_created = true; lock_opened = true; lock_taken = true };
  persisted_at = 40;
  persist_write = good_write;
  verified_at = 41;
  downloaded_at = 42;
  rechecked_at = 42;
  applied_at = 43;
  applied_write = good_write;
  check_in_activity = quiet;
  command_activity = quiet;
}

abbrev pub display : Display
display = record {
  agent_version = chars "0.1.0";
  error = λ e. [];
  error_chain = λ e. chars "refused";
  uuid = λ u. u;
}

abbrev pub check_in : ℕ → CheckInResponse
check_in n = record {
  server_time = 50;
  lock_state = record { state = unlocked; reason = []; changed_at = 30 };
  pending_command = some (command n);
}

abbrev pub server : ℕ → Server
server n = record {
  check_in = ok (check_in n);
  current_patch = ok (some (patch (n + 1)));
  verify_patch_download = λ p. ok tt;
  acknowledge = λ a. ok tt;
}

abbrev round : ℕ → Round
round n = record { device_uuid = zeros 16; keys = keys; machine = machine; server = server n }

abbrev commanded_state : CommandSecurityState → SecuredRemoteState
commanded_state ledger = record {
  remote = record {
    device_uuid = zeros 16;
    lock_state = record { state = locked; reason = chars "overdue"; changed_at = 50 };
    checked_at = 43;
    server_time = 50;
  };
  command_security = ledger;
}

abbrev applied_again : CommandSecurityState
applied_again = record {
  highest_patch_version = 2;
  last_patch_uuid = some (2 ∷ zeros 15);
  last_command_uuid = some (zeros 16);
  last_message_sha256 = some (2 ∷ 66 ∷ []);
  consumed_nonce_sha256 = (66 ∷ []) ∷ (65 ∷ []) ∷ [];
}

first_state :
    command_state toy machine
      (server 0)
      (zeros 16)
      (check_in 0)
      (command 0)
      (patch 1)
      keys
      default_state
    ≡ ok (commanded_state applied)
unfolding command_state next_command_security command_target_state later verify_command_patch
    verify_patch_binding canonical_patch_message check_replay check_signature exact_retry contains
    trusted_key decode_fixed nonce_digest message_digest trim list_beq option_beq utf8 action_beq
    applied_security_state insert
first_state = refl

second_state :
    command_state toy machine (server 1) (zeros 16) (check_in 1) (command 1) (patch 2) keys applied
    ≡ ok (commanded_state applied_again)
unfolding command_state next_command_security command_target_state later verify_command_patch
    verify_patch_binding canonical_patch_message check_replay check_signature exact_retry contains
    trusted_key decode_fixed nonce_digest message_digest trim list_beq option_beq utf8 action_beq
    applied_security_state insert
second_state = refl

abbrev file_of : SecuredRemoteState → File
file_of s = content (encode s)

abbrev pub files_of : File → Files
files_of f = record { remote_state = f; api_activity = missing; acks = [] }

abbrev ack_of_patch : ℕ → Ack
ack_of_patch n = record { patch_uuid = (patch n).uuid; applied = true; failure_reason = none }

abbrev synced : ℕ → Files → Result SyncError (Unit {0}) × Files
synced n files =
    synchronize_remote_state toy display secured_json activity_json machine (server n) (zeros 16)
      keys files

abbrev first_files : Files
first_files = record {
  remote_state = file_of (commanded_state applied);
  api_activity = missing;
  acks = ack_of_patch 1 ∷ [];
}

abbrev second_files : Files
second_files = record {
  remote_state = file_of (commanded_state applied_again);
  api_activity = missing;
  acks = ack_of_patch 1 ∷ ack_of_patch 2 ∷ [];
}

first_synced : synced 0 (files_of missing) ≡ (ok tt, first_files)
unfolding synchronize_remote_state lock apply_check_in load_command_security_state
    persist_remote_state write_json fill_temporary publish apply_pending_command acknowledge_patch
    apply_patch ack_of reported_state command_state next_command_security command_target_state later
    verify_command_patch verify_patch_binding canonical_patch_message check_replay check_signature
    exact_retry contains trusted_key decode_fixed nonce_digest message_digest trim list_beq
    option_beq utf8 action_beq applied_security_state insert record_api_activity put get put_option
    get_option put_all get_all kind_code kind_of
first_synced = refl

second_synced : synced 1 first_files ≡ (ok tt, second_files)
unfolding synchronize_remote_state lock apply_check_in load_command_security_state
    persist_remote_state write_json fill_temporary publish apply_pending_command acknowledge_patch
    apply_patch ack_of reported_state command_state next_command_security command_target_state later
    verify_command_patch verify_patch_binding canonical_patch_message check_replay check_signature
    exact_retry contains trusted_key decode_fixed nonce_digest message_digest trim list_beq
    option_beq utf8 action_beq applied_security_state insert record_api_activity put get put_option
    get_option put_all get_all kind_code kind_of
second_synced = refl

abbrev later_files : Files
later_files =
    rounds toy display secured_json secured_json-IsJson activity_json
      (synced 0 (files_of missing)).1 []

later_files-first : later_files ≡ first_files
unfolding rounds
later_files-first = ap (λ (r : Result SyncError (Unit {0}) × Files). r.1) first_synced

first-Applies :
    Applies toy display secured_json secured_json-IsJson activity_json
      (round 0)
      (files_of missing)
      (command 0)
      (patch 1)
first-Applies = record {
  check_in = check_in 0;
  answered = refl;
  pending = refl;
  fetched = refl;
  ack = ack_of_patch 1;
  sent = ap (λ (r : Result SyncError (Unit {0}) × Files). r.1.acks) first_synced;
  applied_ack = refl;
}

second-Applies :
    Applies toy display secured_json secured_json-IsJson activity_json
      (round 1)
      later_files
      (command 1)
      (patch 2)
second-Applies = record {
  check_in = check_in 1;
  answered = refl;
  pending = refl;
  fetched = refl;
  ack = ack_of_patch 2;
  sent =
      ap (λ (f : Files). (synced 1 f).1.acks) later_files-first
      ∙ ap (λ (r : Result SyncError (Unit {0}) × Files). r.1.acks) second_synced
      ∙ sym (ap (λ (f : Files). f.acks ++ ack_of_patch 2 ∷ []) later_files-first);
  applied_ack = refl;
}

stored_state :
    stored secured_json (file_of (commanded_state applied)) ≡ some (commanded_state applied)
unfolding put get put_option get_option put_all get_all kind_code kind_of
stored_state = refl

rounds-History_example :
    Continues toy display secured_json secured_json-IsJson activity_json applied
      (round 0 ∷ round 1 ∷ [])
      (rounds toy display secured_json secured_json-IsJson activity_json
        (files_of (file_of (commanded_state applied)))
        (round 0 ∷ round 1 ∷ [])).remote_state
rounds-History_example =
    rounds-History toy display secured_json secured_json-IsJson activity_json
      (files_of (file_of (commanded_state applied))) (round 0 ∷ round 1 ∷ [])
      (commanded_state applied) stored_state

some_key : keys ≢ []
some_key h = cc

command_not_replayed_example :
    ((ledger : CommandSecurityState) × (message : Text) × (load_command_security_state secured_json
          later_files.remote_state
        ≡ ok ledger)
      × (canonical_patch_message toy (zeros 16) (command 1) (patch 2) ≡ ok message)
      × IsRetry toy message (command 1) (patch 2) ledger)
    ⊎ ((1 < 2) × (nonce_digest toy (command 1).nonce ≢ nonce_digest toy (command 0).nonce))
command_not_replayed_example =
    command_not_replayed toy display secured_json secured_json-IsJson activity_json (round 0)
      (round 1) (files_of missing) [] (command 0) (command 1) (patch 1) (patch 2) first-Applies
      some_key second-Applies some_key
