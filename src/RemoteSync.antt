-- ===== src/RemoteSync.antt =====
-- apps/windows-agent/src/agent/remote_sync.rs: the check-in with the admin API, the state that it
-- applies, and the acknowledgement of a command.
pub mod Verified
pub mod Outcome
pub mod Trace
pub mod Ledger
use desktop_mdm.Prelude.{
  ℕ, ◌≡◌, Bool, true, false, not, ◌||◌, Option, none, some, List, [], ◌∷◌, ◌++◌, leb, if◌then◌else◌,
}
use desktop_mdm.Prelude.Result.{Result, ok, err, ensure, is_ok, ◌>>=◌, ◌>>◌}
use desktop_mdm.Text.{Text, chars}
use desktop_mdm.Recovery.Token.{Uuid}
use desktop_mdm.Recovery.Verify.{Time}
use desktop_mdm.Extern.{Json}
use desktop_mdm.StateStore.{
  File, missing, unreadable, content, StoreError, WriteIo, LockIo, lock, write_json,
}
use desktop_mdm.StateStore.Stored.{stored}
use desktop_mdm.Storage.{ApiActivity, ApiActivityEvent, ActivityIo, record_api_activity}
use desktop_mdm.Api.{
  LockStateKind, unlocked, warning, locked, permanently_released, is_locked, LockState,
  PersistedRemoteState, CommandAction, unlock, warn, release, uninstall, PendingCommand,
  CheckInResponse, PatchFile,
}
use desktop_mdm.Api as Api
use desktop_mdm.Command.{
  Crypto, CommandSecurityState, SecurityError, default_state, verify_patch_binding,
  verify_command_patch, applied_security_state,
}

pub record SecuredRemoteState : Type 0 where
  pub remote : PersistedRemoteState
  pub command_security : CommandSecurityState

pub data SyncError : Type 0 where
  decode_replay_state read_replay_state expired_while_downloading uninstall_disabled : SyncError
  security : SecurityError → SyncError
  store : StoreError → SyncError
  api : Text → SyncError

abbrev pub lift_security : {A : Type 0} → Result SecurityError A → Result SyncError A
lift_security (ok a) = ok a
lift_security (err x) = err (security x)

abbrev pub lift_store : Result StoreError (Unit {0}) → Result SyncError (Unit {0})
lift_store (ok u) = ok u
lift_store (err x) = err (store x)

-- What `acknowledge` is called with.
pub record Ack : Type 0 where
  pub patch_uuid : Uuid
  pub applied : Bool
  pub failure_reason : Option Text

-- The answers of the server, in one synchronization.
pub record Server : Type 0 where
  pub check_in : Result SyncError CheckInResponse
  pub current_patch : Result SyncError (Option PatchFile)
  pub verify_patch_download : PatchFile → Result SyncError (Unit {0})
  pub acknowledge : Ack → Result SyncError (Unit {0})

-- The machine in one synchronization: the outcome of each input and output, and each reading of
-- the clock. Where `data_dir` fails, the lock, the read or the write that follows it does.
pub record Machine : Type 0 where
  pub lock : LockIo
  pub persisted_at : Time
  pub persist_write : WriteIo
  pub verified_at : Time
  pub downloaded_at : Time
  pub rechecked_at : Time
  pub applied_at : Time
  pub applied_write : WriteIo
  pub check_in_activity : ActivityIo
  pub command_activity : ActivityIo

-- How Rust's formatting prints a value of the program.
pub record Display : Type 0 where
  pub agent_version : Text
  pub error : SyncError → Text
  pub error_chain : SyncError → Text
  pub uuid : Uuid → Text

-- The two files that a synchronization writes, and the acknowledgements sent so far.
pub record Files : Type 0 where
  pub remote_state : File
  pub api_activity : File
  pub acks : List Ack

unfoldable pub bool_name : Bool → Text
bool_name true = chars "true"
bool_name false = chars "false"

unfoldable pub lock_state_name : LockStateKind → Text
lock_state_name unlocked = chars "Unlocked"
lock_state_name warning = chars "Warning"
lock_state_name locked = chars "Locked"
lock_state_name permanently_released = chars "PermanentlyReleased"

unfoldable pub action_debug : CommandAction → Text
action_debug Api.lock = chars "Lock"
action_debug unlock = chars "Unlock"
action_debug warn = chars "Warn"
action_debug release = chars "Release"
action_debug uninstall = chars "Uninstall"

unfoldable pub command_target_state : CommandAction → Result SyncError LockStateKind
command_target_state Api.lock = ok locked
command_target_state unlock = ok unlocked
command_target_state warn = ok warning
command_target_state release = ok permanently_released
command_target_state uninstall = err uninstall_disabled

module _ (j : Json SecuredRemoteState) where
  unfoldable pub load_command_security_state : File → Result SyncError CommandSecurityState
  load_command_security_state missing = ok default_state
  load_command_security_state unreadable = err read_replay_state
  load_command_security_state (content bytes) = elim (j.from_slice bytes) [
    | none ↦ err decode_replay_state
    | some state ↦ ok state.command_security
  ]

  -- `device_locked`, which the session UI asks.
  unfoldable pub device_locked : File → Bool
  device_locked file = elim (stored j file) [
    | none ↦ false
    | some state ↦ is_locked state.remote.lock_state.state
  ]

  unfoldable pub persist_remote_state :
      WriteIo → File → SecuredRemoteState → Result SyncError (Unit {0}) × File
  persist_remote_state io file state =
      let r = write_json j io file state false in (lift_store r.0, r.1)

-- `Ord::max`.
unfoldable pub later : Time → Time → Time
later a b = if leb a b then b else a

module _ (c : Crypto) (m : Machine) (s : Server) where
  -- The replay state to commit with a command: verified under the trusted keys, or only bound to
  -- the pending command where there is none.
  unfoldable pub next_command_security :
      Uuid
      → CheckInResponse
      → PendingCommand
      → PatchFile
      → List (ℕ × Text)
      → CommandSecurityState
      → Result SyncError CommandSecurityState
  next_command_security device_uuid check_in command patch [] security_state = do
    lift_security (verify_patch_binding command patch (later check_in.server_time m.verified_at))
    ok security_state
  next_command_security device_uuid check_in command patch (key ∷ keys) security_state = do
    lift_security (
        verify_command_patch c device_uuid command patch (later check_in.server_time m.verified_at)
          (key ∷ keys) security_state)
    lift_security (applied_security_state c device_uuid security_state command patch)

  -- The state that a command leads to, after every test.
  unfoldable pub command_state :
      Uuid
      → CheckInResponse
      → PendingCommand
      → PatchFile
      → List (ℕ × Text)
      → CommandSecurityState
      → Result SyncError SecuredRemoteState
  command_state device_uuid check_in command patch keys security_state = do
    command_security ← next_command_security device_uuid check_in command patch keys security_state
    s.verify_patch_download patch
    ensure (not (leb command.expires_at m.downloaded_at || leb patch.expires_at m.rechecked_at))
        expired_while_downloading
    state ← command_target_state command.action
    ok (record {
      remote = record {
        device_uuid = device_uuid;
        lock_state = record {
          state = state;
          reason = command.reason;
          changed_at = check_in.server_time;
        };
        checked_at = m.applied_at;
        server_time = check_in.server_time;
      };
      command_security = command_security;
    })

module _ (c : Crypto) (d : Display) (j : Json SecuredRemoteState) (ja : Json ApiActivity)
    (m : Machine) (s : Server) where
  -- The closure in `apply_pending_command`.
  unfoldable pub apply_patch :
      Uuid
      → CheckInResponse
      → PendingCommand
      → PatchFile
      → List (ℕ × Text)
      → CommandSecurityState
      → File
      → Result SyncError (Unit {0}) × File
  apply_patch device_uuid check_in command patch keys security_state file =
      elim (command_state c m s device_uuid check_in command patch keys security_state) [
        | ok state ↦ persist_remote_state j m.applied_write file state
        | err x ↦ (err x, file)
      ]

  unfoldable pub response_text : Result SyncError (Unit {0}) → Text
  response_text (ok u) = chars "success"
  response_text (err x) = chars "error: " ++ d.error x

  unfoldable pub ack_of : PatchFile → Result SyncError (Unit {0}) → Ack
  ack_of patch (ok u) = record { patch_uuid = patch.uuid; applied = true; failure_reason = none }
  ack_of patch (err x) = record {
    patch_uuid = patch.uuid;
    applied = false;
    failure_reason = some (d.error_chain x);
  }

  -- From the result of the closure on: the acknowledgement, the activity, and the result.
  unfoldable pub acknowledge_patch :
      PendingCommand
      → PatchFile
      → Result SyncError (Unit {0}) × File
      → Files
      → Result SyncError (Unit {0}) × Files
  acknowledge_patch command patch result files =
      let ack = ack_of patch result.0 in
      let answer = s.acknowledge ack in
      (
        result.0 >> answer,
        record {
          remote_state = result.1;
          api_activity = record_api_activity ja m.command_activity files.api_activity (record {
            endpoint = chars "/api/agent/patch-files/" ++ (d.uuid patch.uuid ++ chars "/ack/");
            request =
                chars "action="
                ++ (action_debug command.action ++ (chars "; applied=" ++ bool_name ack.applied));
            response = response_text answer;
          });
          acks = files.acks ++ ack ∷ [];
        },
      )

  unfoldable pub apply_pending_command :
      Uuid
      → CheckInResponse
      → PendingCommand
      → List (ℕ × Text)
      → CommandSecurityState
      → Files
      → Result SyncError (Unit {0}) × Files
  apply_pending_command device_uuid check_in command keys security_state files =
      elim s.current_patch [
        | ok none ↦ (ok tt, files)
        | ok (some patch) ↦
            acknowledge_patch command patch
              (apply_patch device_uuid check_in command patch keys security_state
                files.remote_state)
              files
        | err x ↦ (
          err x,
          record files {
            api_activity = record_api_activity ja m.command_activity files.api_activity (record {
              endpoint = chars "/api/agent/patch-files/current/";
              request = chars "command=" ++ d.uuid command.uuid;
              response = chars "error: " ++ d.error x;
            });
          },
        )
      ]

  unfoldable pub check_in_event : Text → ApiActivityEvent
  check_in_event response = record {
    endpoint = chars "/api/agent/check-in/";
    request = chars "agent_version=" ++ d.agent_version;
    response = response;
  }

  unfoldable pub check_in_response : CheckInResponse → Text
  check_in_response check_in =
      chars "success; lock_state="
      ++ (lock_state_name check_in.lock_state.state
          ++ (chars "; pending_command="
              ++ bool_name (elim check_in.pending_command [ none ↦ false | some command ↦ true ])))

  -- The state that a check-in reports, with the replay state kept.
  unfoldable pub reported_state : Uuid → CheckInResponse → CommandSecurityState → SecuredRemoteState
  reported_state device_uuid check_in security_state = record {
    remote = record {
      device_uuid = device_uuid;
      lock_state = check_in.lock_state;
      checked_at = m.persisted_at;
      server_time = check_in.server_time;
    };
    command_security = security_state;
  }

  -- After the check-in succeeded.
  unfoldable pub apply_check_in :
      Uuid → CheckInResponse → List (ℕ × Text) → Files → Result SyncError (Unit {0}) × Files
  apply_check_in device_uuid check_in keys files =
      elim (load_command_security_state j files.remote_state) [
        | err x ↦ (err x, files)
        | ok security_state ↦
            let r =
              persist_remote_state j m.persist_write files.remote_state
                (reported_state device_uuid check_in security_state) in
            let after = record files { remote_state = r.1 } in
            elim r.0 [
              | err x ↦ (err x, after)
              | ok u ↦ elim check_in.pending_command [
                | none ↦ (ok tt, after)
                | some command ↦
                    apply_pending_command device_uuid check_in command keys security_state after
              ]
            ]
      ]

  unfoldable pub synchronize_remote_state :
      Uuid → List (ℕ × Text) → Files → Result SyncError (Unit {0}) × Files
  synchronize_remote_state device_uuid keys files = elim (lock m.lock) [
    | err x ↦ (err (store x), files)
    | ok u ↦ elim s.check_in [
      | err x ↦ (
        err x,
        record files {
          api_activity =
              record_api_activity ja m.check_in_activity files.api_activity
                (check_in_event (chars "error: " ++ d.error x));
        },
      )
      | ok check_in ↦ apply_check_in device_uuid check_in keys (record files {
        api_activity =
            record_api_activity ja m.check_in_activity files.api_activity
              (check_in_event (check_in_response check_in));
      })
    ]
  ]
