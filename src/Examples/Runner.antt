-- ===== src/Examples/Runner.antt =====
-- The main loop at concrete inputs.
use desktop_mdm.RemoteSync.{
  synchronize_remote_state, apply_check_in, load_command_security_state, persist_remote_state,
}
use desktop_mdm.Api.Client.{new, trim_slashes}
use desktop_mdm.Text.Trim.{trim}
use desktop_mdm.Enrollment.{
  read_config, check_or_enroll_config, recently_confirmed, check_current, hardware_serial_number,
  decide,
}
use desktop_mdm.StateStore.{lock, write_json}
use desktop_mdm.Health.{DeviceHealth, write_health_snapshot}
use desktop_mdm.Extern.{Json}
use desktop_mdm.Text.Ascii.{eq_ignore_ascii_case}
use desktop_mdm.Runner.{
  Flags, stop, interrogate, Step, Runner, RoundIo, round, RunFiles, handle_control, health_step,
  guard_step, enrollment_due, reload_step, enrollment_step, check_in_step, check_in_due,
  screen_step,
}
use desktop_mdm.Runner.Service.{Event, control, tick, run_events}
use desktop_mdm.Runner.CheckIns.{round-checks_in, once-checked_in}
use desktop_mdm.Runner.Made.{has_credentials, IsMade, IsAnswered}
use desktop_mdm.Runner.Spacing.{Spaced, variables, run_events-Spaced}
use desktop_mdm.SessionUi.{Console, starts_ui}
use desktop_mdm.Config.{AgentConfig}
use desktop_mdm.StateStore.{missing, content}
use desktop_mdm.Examples.Command.{toy}
use desktop_mdm.Examples.Download.{toy_urls}
use desktop_mdm.Examples.SyncToy.{secured_json, activity_json, put, put_option, get, get_option}
use desktop_mdm.Examples.Sync.{machine, display, server, check_in, files_of}
use desktop_mdm.Examples.Config.{config_json, ui_json, status_json, enroll_io, enroll_files}
use desktop_mdm.Examples.Health.{health_io}
use desktop_mdm.Prelude.{
  ℕ, ◌≡◌, refl, ◌⊎◌, Bool, true, false, ◌&&◌, ◌||◌, none, some, List, [], ◌∷◌, arith, leb, ℕ_eq,
  Bool_eq, List_eq, Option_eq, list_beq, option_beq,
}
use desktop_mdm.Prelude.Result.{ok, is_ok}
use desktop_mdm.Text.{chars}

abbrev console : Console
console = record {
  session = 1;
  processes = record { name = chars "EMI-DEVICE-UI.EXE"; session = some 2 } ∷ [];
  has_token = true;
  executable_found = true;
  environment_built = true;
  process_created = true;
}

-- Another user's desktop does not count.
starts : starts_ui console ≡ true
unfolding starts_ui eq_ignore_ascii_case list_beq option_beq
starts = refl

abbrev credentials : AgentConfig
credentials = record {
  device_id = 7 ∷ [];
  api_base = chars "a";
  agent_token = some (chars "t");
  remote_device_id = some (8 ∷ []);
  trusted_command_signing_keys = [];
}

abbrev run_files : RunFiles
run_files = record {
  enroll = record enroll_files {
    configs = record enroll_files.configs {
      config = content (
          put (7 ∷ [])
            (put (chars "a") (put_option (some (chars "t")) (put_option (some (8 ∷ [])) []))));
    };
  };
  remote = files_of missing;
  health = missing;
}

-- Every snapshot is written as the empty document.
abbrev empty_json : Json DeviceHealth
empty_json = record { to_vec = λ h. some []; from_slice = λ bs. none }

-- A round at this reading of the clock, at which the server confirms the enrolment and reports no
-- command.
abbrev round_at : ℕ → RoundIo
round_at now = record {
  health_at = now;
  health_io = health_io;
  health_done_at = now;
  enrollment_at = now;
  check_in_at = now;
  data_dir_found = true;
  guard = record { lock_dir_created = true; lock_opened = true; lock_taken = true };
  client_built = true;
  enroll_io = record enroll_io {
    check_enrollment = λ serial. ok (record { enrolled = true; status = none });
  };
  enrollment_done_at = now;
  machine = machine;
  server = record (server 0) { check_in = ok (record (check_in 0) { pending_command = none }) };
  called_at = now;
  check_in_done_at = now;
  screen_at = now;
  console = console;
  screen_done_at = now;
}

abbrev started : Runner
started = record {
  config = credentials;
  api = some (record { base_url = chars "a" });
  next_health = 1;
  next_check_in = 1;
  next_enrollment = 1;
  next_lock_screen_check = 1;
  files = run_files;
  check_ins = [];
  screens = 0;
}

abbrev run_round : Bool → Step
run_round once =
    round toy_urls config_json ui_json status_json activity_json secured_json empty_json toy display
      once true (round_at 2) false started

one_shot : run_round true ≡ (ok tt, (run_round true).1)
unfolding round health_step write_health_snapshot guard_step enrollment_due lock reload_step
    read_config get put get_option put_option option_beq list_beq enrollment_step
    check_or_enroll_config recently_confirmed check_current hardware_serial_number trim
    eq_ignore_ascii_case decide new trim_slashes check_in_step check_in_due synchronize_remote_state
    apply_check_in load_command_security_state persist_remote_state write_json screen_step
one_shot = refl

once-checked_in_example :
    (k : IsMade (round_at 2) started (run_round true).1 (run_round true).1) × IsAnswered
      (round_at 2)
      k.made
once-checked_in_example =
    once-checked_in toy_urls config_json ui_json status_json activity_json secured_json empty_json
      toy display (round_at 2) false started (run_round true).1 one_shot (omega arith) (omega arith)

abbrev events : List Event
events =
    tick (round_at 2)
    ∷ control interrogate
    ∷ tick (round_at 3)
    ∷ control stop
    ∷ tick (round_at 4)
    ∷ []

abbrev flags : Flags
flags = record { stop_requested = false; resume_requested = false }

run_events-Spaced_example : Spaced (
    variables (
      run_events toy_urls config_json ui_json status_json activity_json secured_json empty_json toy
        display false true events flags started))
unfolding handle_control
run_events-Spaced_example =
    run_events-Spaced toy_urls config_json ui_json status_json activity_json secured_json empty_json
      toy display true events flags started
      (
        (omega arith, omega arith),
        (
          (λ f. refl),
          ((omega arith, omega arith), ((λ f. refl), ((omega arith, omega arith), tt))),
        ),
      )
      refl tt

round-checks_in_example :
    let sends =
      (leb started.next_check_in 2 || false)
      && has_credentials (run_round true).1
      && is_ok (lock machine.lock) in
    ((sends ≡ true) × IsMade (round_at 2) started (run_round true).1 (run_round true).1)
    ⊎ ((sends ≡ false) × ((run_round true).1.check_ins ≡ started.check_ins))
round-checks_in_example =
    round-checks_in toy_urls config_json ui_json status_json activity_json secured_json empty_json
      toy display true true (round_at 2) false started (run_round true).1 one_shot
