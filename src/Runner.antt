-- ===== src/Runner.antt =====
-- apps/windows-agent/src/agent/runner.rs: the main loop of the agent, one round at a time, over the
-- files that it shares with the desktop; and the control handler of agent/service.rs.
pub mod Service
pub mod Round
pub mod Spacing
pub mod Made
pub mod CheckIns
use desktop_mdm.Prelude.{
  ℕ, zero, suc, ◌+◌, ◌-◌, ◌*◌, ◌/◌, ◌%◌, ◌^◌, ◌≤◌, ◌<◌, min, ◌≡◌, refl, sym, ap, ◌∙◌, subst, ◌≢◌,
  ◌↔◌, ◌⊎◌, inl, inr, Bool, true, false, ◌&&◌, ◌||◌, not, Option, none, some, List, [], ◌∷◌, ◌++◌,
  map, reverse, arith, ltb, leb, nat_eq, if◌then◌else◌, Bool-cases, Option-cases, is_some, ◌==◌,
  ℕ_eq, Bool_eq, List_eq, Option_eq, ==_iff, length, take, drop, all, any, All,
}
use desktop_mdm.Prelude.Result.{Result, ok, err, is_ok, Result-cases}
use desktop_mdm.Text.{Text, chars, concat}
use desktop_mdm.LockScreen.{Instant, seconds}
use desktop_mdm.Recovery.Token.{Uuid}
use desktop_mdm.Extern.{Json}
use desktop_mdm.StateStore.{File, StoreError, LockIo, lock}
use desktop_mdm.Api.Client.{Urls, AgentApi, ApiError, new}
use desktop_mdm.Config.{AgentConfig, UiConfig, ConfigError}
use desktop_mdm.Storage.{EnrollmentStatus, ApiActivity}
use desktop_mdm.Enrollment.{EnrollFiles, EnrollIo, EnrollError, read_config, check_or_enroll_config}
use desktop_mdm.RemoteSync.{
  SecuredRemoteState, SyncError, Server, Machine, Display, Files, synchronize_remote_state,
  device_locked,
}
use desktop_mdm.Command.{Crypto}
use desktop_mdm.Health.{DeviceHealth, HealthIo, HealthError, write_health_snapshot}
use desktop_mdm.SessionUi.{Console, starts_ui}

-- STOP_REQUESTED and RESUME_REQUESTED, which the control handler sets.
pub record Flags : Type 0 where
  pub stop_requested : Bool
  pub resume_requested : Bool

-- The controls of Windows that the handler tells apart.
pub data ServiceControl : Type 0 where
  stop resume_automatic resume_suspend resume_critical other_power_event interrogate other :
      ServiceControl

pub data HandlerResult : Type 0 where
  no_error not_implemented : HandlerResult

unfoldable pub handle_control : ServiceControl → Flags → HandlerResult × Flags
handle_control stop flags = (no_error, record flags { stop_requested = true })
handle_control resume_automatic flags = (no_error, record flags { resume_requested = true })
handle_control resume_suspend flags = (no_error, record flags { resume_requested = true })
handle_control resume_critical flags = (no_error, record flags { resume_requested = true })
handle_control interrogate flags = (no_error, flags)
handle_control other_power_event flags = (no_error, flags)
handle_control other flags = (not_implemented, flags)

pub data RunError : Type 0 where
  no_data_dir read_config_failed : RunError
  initialize_failed : ConfigError → RunError
  client : ApiError → RunError
  health : HealthError → RunError
  guard : StoreError → RunError
  enrollment : EnrollError → RunError
  check_in : SyncError → RunError

-- The files of the agent. The two records below share api-activity.json, which `remote_files` and
-- `with_remote` see to.
pub record RunFiles : Type 0 where
  pub enroll : EnrollFiles
  pub remote : Files
  pub health : File

unfoldable pub remote_files : RunFiles → Files
remote_files files = record files.remote { api_activity = files.enroll.activity }

unfoldable pub with_remote : RunFiles → Files → RunFiles
with_remote files remote = record files {
  enroll = record files.enroll { activity = remote.api_activity };
  remote = remote;
}

-- A check-in that was sent: the server, the token and the device, when it was sent, and whether the
-- synchronization that it began succeeded.
pub record CheckIn : Type 0 where
  pub base_url : Text
  pub token : Text
  pub device_uuid : Uuid
  pub at : Instant
  pub succeeded : Bool

-- The variables of `run`. `check_ins` are those sent so far, the latest first, and `screens`
-- counts the starts of the lock screen.
pub record Runner : Type 0 where
  pub config : AgentConfig
  pub api : Option AgentApi
  pub next_health : Instant
  pub next_check_in : Instant
  pub next_enrollment : Instant
  pub next_lock_screen_check : Instant
  pub files : RunFiles
  pub check_ins : List CheckIn
  pub screens : ℕ

-- What one round finds: the readings of the monotonic clock in their order, with the instant at which
-- a check-in is sent, and the outcome of each call.
pub record RoundIo : Type 0 where
  pub health_at : Instant
  pub health_io : HealthIo
  pub health_done_at : Instant
  pub enrollment_at : Instant
  pub check_in_at : Instant
  pub data_dir_found : Bool
  pub guard : LockIo
  pub client_built : Bool
  pub enroll_io : EnrollIo
  pub enrollment_done_at : Instant
  pub machine : Machine
  pub server : Server
  pub called_at : Instant
  pub check_in_done_at : Instant
  pub screen_at : Instant
  pub console : Console
  pub screen_done_at : Instant

-- A step that may end the program with an error.
abbrev pub Step : Type 0
Step = Result RunError (Unit {0}) × Runner

unfoldable pub and_then : Step → (Runner → Step) → Step
and_then (ok u, s) next = next s
and_then (err x, s) next = (err x, s)

module _ (u : Urls) where
  -- `agent_token.as_ref().map(|_| AgentApi::new(..)).transpose()`.
  unfoldable pub api_of : Bool → AgentConfig → Result ApiError (Option AgentApi)
  api_of built config = elim config.agent_token as (λ _. Result ApiError (Option AgentApi)) [
    | none ↦ ok none
    | some token ↦ elim (new u built config.api_base) as (λ _. Result ApiError (Option AgentApi)) [
      | ok api ↦ ok (some api)
      | err x ↦ err x
    ]
  ]

  module _ (j : Json AgentConfig) (ju : Json UiConfig) (js : Json EnrollmentStatus)
      (ja : Json ApiActivity) (jr : Json SecuredRemoteState) (jh : Json DeviceHealth) (c : Crypto)
      (d : Display) (once : Bool) (auto_enroll : Bool) where
    unfoldable pub health_step : RoundIo → Bool → Runner → Step
    health_step io resumed s =
        if not (leb s.next_health io.health_at || resumed)
        then (ok tt, s)
        else (let r = write_health_snapshot jh io.health_io s.config.device_id s.files.health in
            let after : Runner = record s { files = record s.files { health = r.1 } } in
            elim r.0 as (λ _. Step) [
              | err x ↦ (err (health x), after)
              | ok v ↦ (ok tt, record after { next_health = io.health_done_at + seconds 300 })
            ])

    unfoldable pub enrollment_due : RoundIo → Bool → Runner → Bool
    enrollment_due io resumed s = auto_enroll && (leb s.next_enrollment io.enrollment_at || resumed)

    unfoldable pub check_in_due : RoundIo → Bool → Runner → Bool
    check_in_due io resumed s = leb s.next_check_in io.check_in_at || resumed

    -- The lock on api.lock, where a call of the API is due.
    unfoldable pub guard_step : RoundIo → Bool → Runner → Step
    guard_step io due s =
        if not due
        then (ok tt, s)
        else if not io.data_dir_found
        then (err no_data_dir, s)
        else elim (lock io.guard) as (λ _. Step) [ ok v ↦ (ok tt, s) | err x ↦ (err (guard x), s) ]

    unfoldable pub same_credentials : AgentConfig → AgentConfig → Bool
    same_credentials config disk =
        config.agent_token == disk.agent_token
        && config.remote_device_id == disk.remote_device_id
        && config.api_base == disk.api_base

    -- The configuration on disk replaces the one in memory where its credentials differ.
    unfoldable pub reload_step : RoundIo → Runner → Step
    unfolding api_of same_credentials
    reload_step io s = elim (read_config j ju js ja s.files.enroll.configs.config) as (λ _. Step) [
      | none ↦ (err read_config_failed, s)
      | some disk ↦
          if same_credentials s.config disk
          then (ok tt, s)
          else elim (api_of io.client_built disk) as (λ _. Step) [
            | err x ↦ (err (client x), record s { config = disk })
            | ok api ↦ (ok tt, record s { config = disk; api = api })
          ]
    ]

    unfoldable pub enrollment_step : RoundIo → Bool → Runner → Step
    enrollment_step io due s =
        if not due
        then (ok tt, s)
        else (let r = check_or_enroll_config j ju js ja io.enroll_io none s.config s.files.enroll in
            let after : Runner = record s {
              config = r.0;
              files = record s.files { enroll = r.1.1 };
            } in
            elim r.1.0 as (λ _. Step) [
              | ok v ↦ elim (new u io.client_built r.0.api_base) as (λ _. Step) [
                | err x ↦ (err (client x), after)
                | ok api ↦ (
                  ok tt,
                  record after {
                    api = some api;
                    next_enrollment = io.enrollment_done_at + seconds 300;
                  },
                )
              ]
              | err x ↦ if once then (err (enrollment x), record after { api = none }) else (
                ok tt,
                record after { api = none; next_enrollment = io.enrollment_done_at + seconds 300 },
              )
            ])

    -- `synchronize_remote_state` sends the check-in once it has taken command.lock.
    unfoldable pub is_sent : RoundIo → Bool
    is_sent io = is_ok (lock io.machine.lock)

    -- The synchronization that the client, the token and the device allow.
    unfoldable pub synchronize : RoundIo → AgentApi → Text → Uuid → Runner → Step
    unfolding remote_files with_remote is_sent
    synchronize io api token device_uuid s =
        let r =
          synchronize_remote_state c d jr ja io.machine io.server device_uuid
            s.config.trusted_command_signing_keys (remote_files s.files) in
        let after : Runner = record s {
          files = with_remote s.files r.1;
          check_ins =
              if is_sent io
              then record {
                base_url = api.base_url;
                token = token;
                device_uuid = device_uuid;
                at = io.called_at;
                succeeded = is_ok r.0;
              }
                ∷ s.check_ins
              else s.check_ins;
        } in
        let waited : Runner = record after { next_check_in = io.check_in_done_at + seconds 60 } in
        elim r.0 as (λ _. Step) [
          | ok v ↦ (ok tt, waited)
          | err x ↦ if once then (err (check_in x), after) else (ok tt, waited)
        ]

    unfoldable pub check_in_step : RoundIo → Bool → Runner → Step
    unfolding synchronize
    check_in_step io due s = if not due then (ok tt, s) else elim s.api as (λ _. Step) [
      | none ↦ (ok tt, s)
      | some api ↦ elim s.config.agent_token as (λ _. Step) [
        | none ↦ (ok tt, s)
        | some token ↦ elim s.config.remote_device_id as (λ _. Step) [
          | none ↦ (ok tt, s)
          | some device_uuid ↦ synchronize io api token device_uuid s
        ]
      ]
    ]

    -- `ensure_lock_screen`: the lock screen is started where the device is locked.
    unfoldable pub ensure_lock_screen : Console → Runner → Runner
    ensure_lock_screen console s =
        if device_locked jr s.files.remote.remote_state && starts_ui console
        then record s { screens = s.screens + 1 }
        else s

    unfoldable pub screen_step : RoundIo → Runner → Step
    unfolding ensure_lock_screen
    screen_step io s =
        if not once && leb s.next_lock_screen_check io.screen_at
        then (
          ok tt,
          record (ensure_lock_screen io.console s) {
            next_lock_screen_check = io.screen_done_at + seconds 15;
          },
        )
        else (ok tt, s)

    -- The body of the loop after the flags were read.
    unfoldable pub round : RoundIo → Bool → Runner → Step
    unfolding and_then
    round io resumed s = and_then (health_step io resumed s) λ s1.
        let enroll = enrollment_due io resumed s1 in
        let check = check_in_due io resumed s1 in
        and_then (guard_step io (enroll || check) s1) λ s2. and_then (reload_step io s2) λ s3.
          and_then (enrollment_step io enroll s3)
            λ s4. and_then (check_in_step io check s4) λ s5. screen_step io s5
