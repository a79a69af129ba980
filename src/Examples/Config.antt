-- ===== src/Examples/Config.antt =====
-- The configuration at a concrete input: a file that does not decode.
use desktop_mdm.Enrollment.Credentials.{Credited, check_or_enroll_config-Credited}
use desktop_mdm.Enrollment.{EnrollIo, EnrollFiles, check_or_enroll_config}
use desktop_mdm.Storage.{EnrollmentStatus, ApiActivity, ActivityIo}
use desktop_mdm.Prelude.{
  ℕ, ◌≡◌, subst, refl, true, false, Bool, Option, some, none, List, [], ◌∷◌, if◌then◌else◌, nat_eq,
}
use mathlib.Core.Option.{some-injective}
use desktop_mdm.Prelude.Result.{ok}
use desktop_mdm.Text.{Text, chars}
use desktop_mdm.Extern.{Json, IsJson}
use desktop_mdm.StateStore.{missing, content, WriteIo}
use desktop_mdm.Config.{AgentConfig, UiConfig, ConfigFiles, ConfigIo, initialize, fresh_config}
use desktop_mdm.Config.Repair.{Survives, IsWritten, initialize-Survives}
use desktop_mdm.Examples.Toy.{zeros}
use desktop_mdm.Examples.SyncToy.{put, get, get-put, put_option, get_option, get-put_option}

-- A format for configurations without trusted keys.
abbrev config_to_vec : AgentConfig → List (ℕ × Text) → Option (List ℕ)
config_to_vec c [] =
    some (
      put c.device_id
        (put c.api_base (put_option c.agent_token (put_option c.remote_device_id []))))
config_to_vec c (k ∷ ks) = none

abbrev config_from_slice : List ℕ → Option AgentConfig
config_from_slice = get (λ device_id r1.
    get
      (λ api_base r2.
        get_option
          (λ agent_token r3.
            get_option
              (λ remote_device_id r4. some (record {
                device_id = device_id;
                api_base = api_base;
                agent_token = agent_token;
                remote_device_id = remote_device_id;
                trusted_command_signing_keys = [];
              }))
              r3)
          r2)
      r1)

config_round :
    (c : AgentConfig) (keys : List (ℕ × Text)) (bs : List ℕ)
    → config_to_vec c keys ≡ some bs
    → config_from_slice bs ≡ some (record c { trusted_command_signing_keys = keys })
config_round c [] bs h =
    subst (λ x. config_from_slice x ≡ some (record c { trusted_command_signing_keys = [] }))
      (some-injective _ _ h) (rw (get-put, get-put, get-put_option, get-put_option) refl)
config_round c (k ∷ ks) bs h = cc

abbrev pub config_json : Json AgentConfig
config_json = record {
  to_vec = λ c. config_to_vec c c.trusted_command_signing_keys;
  from_slice = config_from_slice;
}

config_json-IsJson : IsJson config_json
config_json-IsJson = record {
  from_slice-to_vec = λ c bs h. config_round c c.trusted_command_signing_keys bs h;
}

abbrev ui_to_vec : UiConfig → List ℕ
ui_to_vec c =
    put c.device_id
      (put c.api_base (put_option c.remote_device_id ((if c.enrolled then 1 else 0) ∷ [])))

abbrev last_bit : List ℕ → Bool
last_bit [] = false
last_bit (b ∷ bs) = nat_eq b 1

abbrev ui_from_slice : List ℕ → Option UiConfig
ui_from_slice = get (λ device_id r1.
    get
      (λ api_base r2.
        get_option
          (λ remote_device_id r3. some (record {
            device_id = device_id;
            remote_device_id = remote_device_id;
            enrolled = last_bit r3;
            api_base = api_base;
          }))
          r2)
      r1)

bit_round : (b : Bool) → last_bit ((if b then 1 else 0) ∷ []) ≡ b
bit_round true = refl
bit_round false = refl

abbrev pub ui_json : Json UiConfig
ui_json = record { to_vec = λ c. some (ui_to_vec c); from_slice = ui_from_slice }

ui_json-IsJson : IsJson ui_json
ui_json-IsJson = record {
  from_slice-to_vec = λ c bs h.
      subst (λ x. ui_from_slice x ≡ some c) (some-injective _ _ h)
        (rw (get-put, get-put, get-put_option, bit_round) refl);
}

abbrev good_write : WriteIo
good_write = record {
  windows = true;
  dir_created = true;
  temp_created = true;
  acl_set = true;
  temp_written = true;
  temp_synced = true;
  persisted = true;
  dir_synced = true;
}

abbrev io : ConfigIo
io = record { renamed = true; config_write = good_write; ui_write = good_write }

-- One empty byte string does not decode, and config.invalid.json is taken.
abbrev corrupt : ConfigFiles
corrupt = record {
  config = content [];
  ui_config = missing;
  backup = λ n. if nat_eq n 0 then content (1 ∷ []) else missing;
}

initialize-Survives_example :
    let r = initialize config_json ui_json io (zeros 16) corrupt in
    Survives config_json config_json-IsJson ui_json ui_json-IsJson corrupt r.1
    × ((config : AgentConfig)
        → r.0 ≡ ok config
        → IsWritten config_json config_json-IsJson ui_json ui_json-IsJson config r.1)
initialize-Survives_example =
    initialize-Survives config_json config_json-IsJson ui_json ui_json-IsJson io (zeros 16) corrupt

abbrev pub status_json : Json EnrollmentStatus
status_json = record { to_vec = λ s. none; from_slice = λ bs. none }

abbrev activities : Json ApiActivity
activities = record { to_vec = λ a. none; from_slice = λ bs. none }

abbrev quiet : ActivityIo
quiet = record { found = false; now = 0; write = good_write }

abbrev pub enroll_io : EnrollIo
enroll_io = record {
  guard = record { lock_dir_created = true; lock_opened = true; lock_taken = true };
  serial_output = some (chars "SN-7");
  enroll_serial_output = some (chars "SN-7");
  client = λ base. true;
  check_enrollment = λ serial. ok (record { enrolled = false; status = none });
  enroll = λ serial. ok (record { token = chars "1|t"; device_uuid = zeros 16 });
  agent_version = chars "0.1.0";
  uuid_text = λ u. u;
  now = 5;
  checked_at = 6;
  status_io = quiet;
  check_activity = quiet;
  enroll_activity = quiet;
  clear_write = good_write;
  clear_ui_write = good_write;
  enroll_write = good_write;
  enroll_ui_write = good_write;
}

abbrev pub enroll_files : EnrollFiles
enroll_files = record {
  configs = record corrupt {
    config =
        content (put (zeros 16) (put (chars "https://a") (put_option none (put_option none []))));
  };
  status = missing;
  activity = missing;
}

check_or_enroll_config-Credited_example : Credited (
    check_or_enroll_config config_json ui_json status_json activities enroll_io none
      (fresh_config (zeros 16))
      enroll_files)
check_or_enroll_config-Credited_example =
    check_or_enroll_config-Credited config_json ui_json status_json activities enroll_io none
      (fresh_config (zeros 16)) enroll_files
