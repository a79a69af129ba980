-- ===== src/Runner/Service.antt =====
-- The start of `run` and its loop over the rounds, with the controls of Windows between them; the
-- worker of the offline recovery; and `service_main` of agent/service.rs.
use desktop_mdm.Storage.{EnrollmentStatus, ApiActivity}
use desktop_mdm.Runner.{client}
use desktop_mdm.Command.{Crypto}
use desktop_mdm.Health.{DeviceHealth}
use desktop_mdm.RemoteSync.{SecuredRemoteState, Display}
use desktop_mdm.LockScreen.{Instant}
use desktop_mdm.Recovery.Token.{Uuid}
use desktop_mdm.RecoveryService.{RecoveryRequest, RecoveryState, process}
use desktop_mdm.Storage.{EnrollmentStatus, ApiActivity}
use desktop_mdm.StateStore.{LockIo, WriteIo, File}
use desktop_mdm.Config.{AgentConfig, UiConfig, ConfigIo, ConfigFiles, initialize}
use desktop_mdm.Recovery.Verify.{Time, FromTimestamp}
use desktop_mdm.Runner.{
  ServiceControl, Flags, RunError, RoundIo, Runner, RunFiles, initialize_failed, round,
  handle_control, api_of,
}
use desktop_mdm.Api.Client.{Urls}
use desktop_mdm.Config.{ConfigFiles}
use desktop_mdm.Command.{Crypto}
use desktop_mdm.Prelude.{
  ℕ, Bool, false, ◌||◌, not, Option, none, some, List, [], ◌∷◌, if◌then◌else◌, ℕ_eq, Bool_eq,
  List_eq, Option_eq,
}
use desktop_mdm.Prelude.Result.{Result, ok, err}
use desktop_mdm.Extern.{Json, Ed25519, Base64}

-- The variables at the start of `run`, and the configuration files after `initialize`.
unfoldable pub start_runner :
    Urls
    → Json AgentConfig
    → Json UiConfig
    → Bool
    → ConfigIo
    → Uuid
    → Instant
    → RunFiles
    → Result RunError Runner × ConfigFiles
start_runner u j ju built io new_id now files =
    let r = initialize j ju io new_id files.enroll.configs in
    elim r.0 [
      | err x ↦ (err (initialize_failed x), r.1)
      | ok config ↦ elim (api_of u built config) [
        | err x ↦ (err (client x), r.1)
        | ok api ↦ (
          ok (record {
            config = config;
            api = api;
            next_health = now;
            next_check_in = now;
            next_enrollment = now;
            next_lock_screen_check = now;
            files = record files { enroll = record files.enroll { configs = r.1 } };
            check_ins = [];
            screens = 0;
          }),
          r.1,
        )
      ]
    ]

-- What happens to the program: a control of Windows, or a round of the loop.
pub data Event : Type 0 where
  control : ServiceControl → Event
  tick : RoundIo → Event

pub data Progress : Type 0 where
  running : Flags → Runner → Progress
  ended : Result RunError (Unit {0}) → Runner → Progress

module _ (u : Urls) (j : Json AgentConfig) (ju : Json UiConfig) (js : Json EnrollmentStatus)
    (ja : Json ApiActivity) (jr : Json SecuredRemoteState) (jh : Json DeviceHealth) (c : Crypto)
    (d : Display) (once : Bool) (auto_enroll : Bool) where
  -- One turn of the loop: the stop flag is read first, and the resume flag is taken.
  unfoldable pub turn : RoundIo → Flags → Runner → Progress
  turn io flags s =
      if flags.stop_requested
      then ended (ok tt) s
      else (let r = round u j ju js ja jr jh c d once auto_enroll io flags.resume_requested s in
          elim r.0 as (λ _. Progress) [
            | err x ↦ ended (err x) r.1
            | ok v ↦
                if once
                then ended (ok tt) r.1
                else running (record flags { resume_requested = false }) r.1
          ])

  unfoldable pub run_events : List Event → Flags → Runner → Progress
  unfolding turn
  run_events [] flags s = running flags s
  run_events (control x ∷ events) flags s = run_events events (handle_control x flags).1 s
  run_events (tick io ∷ events) flags s = elim (turn io flags s) [
    | ended r t ↦ ended r t
    | running f t ↦ run_events events f t
  ]

-- `service_main`: whether the handler was registered and the status set, and the exit code that is
-- reported, where the loop ran.
unfoldable pub service_main : Bool → Bool → Result RunError (Unit {0}) → Option ℕ
service_main registered status_set result =
    if not registered || not status_set
    then none
    else elim result [ ok u ↦ some 0 | err x ↦ some 1 ]

-- One round of the recovery worker.
pub record RecoveryTurn : Type 0 where
  pub stop_requested : Bool
  pub now : Time
  pub guard : LockIo
  pub write : WriteIo
  pub mailbox : File

-- `spawn_recovery_worker`: the state file after these rounds. An error only makes it wait.
unfoldable pub recovery_worker :
    Ed25519
    → Base64
    → FromTimestamp
    → Json RecoveryRequest
    → Json RecoveryState
    → Uuid
    → List RecoveryTurn
    → File
    → File
recovery_worker e b f jq js device [] file = file
recovery_worker e b f jq js device (t ∷ turns) file =
    let rest =
      recovery_worker e b f jq js device turns
        (process e b f jq js t.guard t.write device t.now t.mailbox file).1 in
    if t.stop_requested then file else rest
