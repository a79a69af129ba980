-- ===== src/Enrollment.antt =====
-- apps/windows-agent/src/agent/enrollment.rs: the check with the backend, the one-time enrolment,
-- and the clearing of credentials, over the configuration files.
pub mod Credentials
use desktop_mdm.Prelude.{
  ℕ, ◌+◌, ◌-◌, ◌≡◌, Bool, true, false, not, ◌&&◌, ◌||◌, Option, none, some, List, [], ◌∷◌, ltb,
  nat_eq, if◌then◌else◌, is_some, ◌==◌, ℕ_eq, List_eq, ◌++◌,
}
use desktop_mdm.Prelude.Result.{Result, ok, err, ensure, ◌>>◌}
use desktop_mdm.Text.{Text, chars}
use desktop_mdm.Text.Trim.{trim}
use desktop_mdm.Text.Ascii.{eq_ignore_ascii_case}
use desktop_mdm.Recovery.Token.{Uuid}
use desktop_mdm.Recovery.Verify.{Time}
use desktop_mdm.Extern.{Json}
use desktop_mdm.StateStore.{
  File, missing, unreadable, content, StoreError, LockIo, WriteIo, lock, write_json,
}
use desktop_mdm.Api.Client.{trim_slashes}
use desktop_mdm.Storage.{
  EnrollmentStatus, ApiActivity, ActivityIo, record_api_activity, record_enrollment_status,
}
use desktop_mdm.StateStore.Stored.{stored}
use desktop_mdm.Config.{AgentConfig, UiConfig, ConfigFiles, ConfigError, write_ui_config}

pub record CheckEnrollResponse : Type 0 where
  pub enrolled : Bool
  pub status : Option Text

pub record EnrollResponse : Type 0 where
  pub token : Text
  pub device_uuid : Uuid

pub data EnrollError : Type 0 where
  no_config no_serial no_client check_failed enroll_failed no_local_credentials : EnrollError
  config : ConfigError → EnrollError
  store : StoreError → EnrollError

-- One call: the lock, the serial that the BIOS reports to the check and to the enrolment (the trimmed
-- output of a command that succeeded), the server's answers or the text of its error, the clock, and the outcomes of the
-- writes.
pub record EnrollIo : Type 0 where
  pub guard : LockIo
  pub serial_output : Option Text
  pub enroll_serial_output : Option Text
  pub client : Text → Bool
  pub check_enrollment : Text → Result Text CheckEnrollResponse
  pub enroll : Text → Result Text EnrollResponse
  pub agent_version : Text
  pub uuid_text : Uuid → Text
  pub now : Time
  pub checked_at : Time
  pub status_io : ActivityIo
  pub check_activity : ActivityIo
  pub enroll_activity : ActivityIo
  pub clear_write : WriteIo
  pub clear_ui_write : WriteIo
  pub enroll_write : WriteIo
  pub enroll_ui_write : WriteIo

-- The files of a call: the configuration, enrollment-status.json and api-activity.json.
pub record EnrollFiles : Type 0 where
  pub configs : ConfigFiles
  pub status : File
  pub activity : File

unfoldable pub status_label : CheckEnrollResponse → Text
status_label answer = elim answer.status as (λ _. Text) [ none ↦ chars "NONE" | some s ↦ s ]

unfoldable pub bool_text : Bool → Text
bool_text true = chars "true"
bool_text false = chars "false"

-- The status that a check records.
unfoldable pub status_of : Time → Text → Result Text CheckEnrollResponse → EnrollmentStatus
status_of now serial (ok answer) = record {
  checked_at = now;
  device_serial_no = serial;
  enrolled = some answer.enrolled;
  status = answer.status;
  error = none;
}
status_of now serial (err error) = record {
  checked_at = now;
  device_serial_no = serial;
  enrolled = none;
  status = none;
  error = some error;
}

unfoldable pub check_response : Result Text CheckEnrollResponse → Text
unfolding status_label bool_text
check_response (ok answer) =
    chars "enrolled=" ++ (bool_text answer.enrolled ++ (chars "; status=" ++ status_label answer))
check_response (err error) = chars "error: " ++ error

unfoldable pub enroll_response : (Uuid → Text) → Result Text EnrollResponse → Text
enroll_response uuid_text (ok r) = chars "success; device_uuid=" ++ uuid_text r.device_uuid
enroll_response uuid_text (err error) = chars "error: " ++ error

-- `hardware_serial_number` on Windows.
unfoldable pub hardware_serial_number : Option Text → Result EnrollError Text
hardware_serial_number none = err no_serial
hardware_serial_number (some output) =
    let serial = trim output in
    if serial == [] || eq_ignore_ascii_case serial (chars "To Be Filled By O.E.M.")
    then err no_serial
    else ok serial

abbrev pub minute : ℕ
minute = 60_000_000_000

-- `status` is the recorded status, where it reads; `now - checked_at` may be negative, which is
-- less than a minute too.
unfoldable pub recently_confirmed : AgentConfig → Option EnrollmentStatus → Time → Bool
recently_confirmed cfg none now = false
recently_confirmed cfg (some status) now =
    is_some cfg.agent_token
    && is_some cfg.remote_device_id
    && (elim status.enrolled as (λ _. Bool) [ none ↦ false | some e ↦ e ])
    && not (is_some status.error)
    && ltb now (status.checked_at + minute)

module _ (j : Json AgentConfig) (ju : Json UiConfig) (js : Json EnrollmentStatus)
    (ja : Json ApiActivity) where
  -- config.json and then ui-config.json.
  unfoldable pub save_config :
      WriteIo → WriteIo → EnrollFiles → AgentConfig → Result EnrollError (Unit {0}) × EnrollFiles
  save_config io ui_io files cfg =
      let r = write_json j io files.configs.config cfg true in
      let after : ConfigFiles = record files.configs { config = r.1 } in
      elim r.0 [
        | err x ↦ (err (store x), record files { configs = after })
        | ok u ↦
            let q = write_ui_config j ju ui_io after cfg in
            let mirrored : EnrollFiles = record files { configs = q.1 } in
            elim q.0 [ ok v ↦ (ok tt, mirrored) | err x ↦ (err (config x), mirrored) ]
      ]

  -- The configuration in memory changes before it is written.
  unfoldable pub clear_enrollment_credentials :
      EnrollIo
      → AgentConfig
      → EnrollFiles
      → AgentConfig × (Result EnrollError (Unit {0}) × EnrollFiles)
  clear_enrollment_credentials io cfg files =
      let cleared : AgentConfig = record cfg { agent_token = none; remote_device_id = none } in
      (cleared, save_config io.clear_write io.clear_ui_write files cleared)

  unfoldable pub note_enroll : EnrollIo → Text → EnrollFiles → EnrollFiles
  note_enroll io serial files = record files {
    activity = record_api_activity ja io.enroll_activity files.activity (record {
      endpoint = chars "/api/agent/enroll/";
      request =
          chars "device_serial_no=" ++ (serial ++ (chars "; agent_version=" ++ io.agent_version));
      response = enroll_response io.uuid_text (io.enroll serial);
    });
  }

  unfoldable pub note_check : EnrollIo → Text → EnrollFiles → EnrollFiles
  note_check io serial files = record files {
    status =
        record_enrollment_status js io.status_io files.status
          (status_of io.checked_at serial (io.check_enrollment serial));
    activity = record_api_activity ja io.check_activity files.activity (record {
      endpoint = chars "/api/agent/check-enroll/";
      request = chars "device_serial_no=" ++ serial;
      response = check_response (io.check_enrollment serial);
    });
  }

  unfoldable pub enroll_config :
      EnrollIo
      → AgentConfig
      → Text
      → EnrollFiles
      → AgentConfig × (Result EnrollError (Unit {0}) × EnrollFiles)
  enroll_config io cfg server files = elim (hardware_serial_number io.enroll_serial_output) [
    | err x ↦ (cfg, (err x, files))
    | ok serial ↦
        if io.client server
        then (let noted = note_enroll io serial files in
            elim (io.enroll serial) [
              | err error ↦ (cfg, (err enroll_failed, noted))
              | ok enrollment ↦
                  let enrolled : AgentConfig = record cfg {
                    api_base = trim_slashes server;
                    agent_token = some enrollment.token;
                    remote_device_id = some enrollment.device_uuid;
                  } in
                  (enrolled, save_config io.enroll_write io.enroll_ui_write noted enrolled)
            ])
        else (cfg, (err no_client, files))
  ]

  -- The server does not know this serial: clear, then enrol.
  unfoldable pub renew :
      EnrollIo
      → AgentConfig
      → EnrollFiles
      → AgentConfig × (Result EnrollError (Unit {0}) × EnrollFiles)
  renew io cfg files =
      let r = clear_enrollment_credentials io cfg files in
      elim r.1.0 [ err x ↦ (r.0, (err x, r.1.1)) | ok u ↦ enroll_config io r.0 r.0.api_base r.1.1 ]

  -- From the server's answer on.
  unfoldable pub decide :
      EnrollIo
      → AgentConfig
      → CheckEnrollResponse
      → EnrollFiles
      → AgentConfig × (Result EnrollError (Unit {0}) × EnrollFiles)
  decide io cfg answer files =
      if answer.enrolled
      then (if is_some cfg.agent_token && is_some cfg.remote_device_id
          then (cfg, (ok tt, files))
          else (cfg, (err no_local_credentials, files)))
      else renew io cfg files

  -- From the configuration read under the lock on.
  unfoldable pub check_current :
      EnrollIo
      → AgentConfig
      → EnrollFiles
      → AgentConfig × (Result EnrollError (Unit {0}) × EnrollFiles)
  check_current io cfg files = elim (hardware_serial_number io.serial_output) [
    | err x ↦ (cfg, (err x, files))
    | ok serial ↦
        if io.client cfg.api_base
        then (let noted = note_check io serial files in
            elim (io.check_enrollment serial) [
              | err error ↦ (cfg, (err check_failed, noted))
              | ok answer ↦ decide io cfg answer noted
            ])
        else (cfg, (err no_client, files))
  ]

  unfoldable pub read_config : File → Option AgentConfig
  read_config missing = none
  read_config unreadable = none
  read_config (content bytes) = j.from_slice bytes

  -- `check_or_enroll_config` with `server_override`, on the configuration in memory.
  unfoldable pub check_or_enroll_config :
      EnrollIo
      → Option Text
      → AgentConfig
      → EnrollFiles
      → AgentConfig × (Result EnrollError (Unit {0}) × EnrollFiles)
  check_or_enroll_config io server_override cfg files = elim (lock io.guard) [
    | err x ↦ (cfg, (err (store x), files))
    | ok u ↦ elim (read_config files.configs.config) [
      | none ↦ (cfg, (err no_config, files))
      | some disk ↦ elim server_override [
        | some server ↦ check_current io (record disk { api_base = trim_slashes server }) files
        | none ↦
            if recently_confirmed disk (stored js files.status) io.now
            then (disk, (ok tt, files))
            else check_current io disk files
      ]
    ]
  ]
