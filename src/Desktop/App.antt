-- ===== src/Desktop/App.antt =====
-- apps/windows-agent/src/ui/app.rs: the state of the desktop app and the channels that it polls. A
-- worker thread that runs is a flag, and what it sends is an input of the frame.
use desktop_mdm.Prelude.{
  ℕ, Bool, true, false, ◌&&◌, not, Option, none, some, List, [], if◌then◌else◌, ℕ_eq, Bool_eq,
  List_eq, Option_eq,
}
use desktop_mdm.Text.{Text, chars}
use desktop_mdm.LockScreen.{LockScreen, Instant}
use desktop_mdm.Api.{PersistedRemoteState, is_locked}
use desktop_mdm.Health.{BiosProvider, unsupported, DeviceHealth}
use desktop_mdm.Desktop.Keyboard.{Guard}
use desktop_mdm.Desktop.Password.{BiosPasswordAction, create, Fields}

-- The `f32` of a progress: its type, `clamp(0.0, 1.0)`, and the literal 0.01.
pub record Floats : Type 1 where
  pub Float : Type 0
  pub clamp : Float → Float
  pub one_percent : Float

-- What the elevated script of a password action is given.
pub record BiosRequest : Type 0 where
  pub provider : BiosProvider
  pub action : BiosPasswordAction
  pub current : Text
  pub new : Text

-- The fields of `DeviceApp`: those of the lock are in `lock`, with the status line. The health refreshes,
-- adapter installs and restarts that were started are counted, and the password requests listed.
pub record DeviceApp (fl : Floats) : Type 0 where
  pub lock : LockScreen
  pub health : Option DeviceHealth
  pub service_running : Bool
  pub service_probe : Bool
  pub operation : Bool
  pub operation_progress : Option fl.Float
  pub operation_label : Text
  pub last_refresh : Instant
  pub tab : ℕ
  pub fields : Fields
  pub bios_password_action : BiosPasswordAction
  pub confirm_firmware_restart : Bool
  pub keyboard_disabled : Bool
  pub guard : Guard
  pub requests : List BiosRequest
  pub refreshes : ℕ
  pub installs : ℕ
  pub restarts : ℕ

abbrev pub no_fields : Fields
no_fields = record {
  current_password = [];
  new_password = [];
  confirm_password = [];
  confirm_disable_bios = false;
}

-- What `DeviceApp::load` finds: the two account probes, the remote state, the health and the clock.
unfoldable pub load :
    {fl : Floats}
    → Bool
    → Bool
    → Option PersistedRemoteState
    → Option DeviceHealth
    → Instant
    → Guard
    → DeviceApp fl
load is_admin is_shell remote health now guard =
    let screen : LockScreen = record {
      bluescreen = none;
      qr_shown = false;
      consent = false;
      recovery_input = [];
      recovery_focused = false;
      enforced = not is_admin && is_shell;
      manual_lock = false;
      lock_started = none;
      remote_locked = elim remote [ none ↦ false | some r ↦ is_locked r.lock_state.state ];
      remote_lock_reason = elim remote as (λ _. Text) [ none ↦ [] | some r ↦ r.lock_state.reason ];
      last_remote_refresh = now;
      remote_unlock_override_at = none;
      pending_recovery = none;
      unlock_fail_count = 0;
      unlock_locked_until = none;
      status = chars "Enrollment and check-in are handled by the EMI service.";
      task_manager_disabled = false;
      on_top = false;
      fullscreen = false;
    } in
    record {
      lock = screen;
      health = health;
      service_running = false;
      service_probe = true;
      operation = false;
      operation_progress = none;
      operation_label = [];
      last_refresh = now;
      tab = 0;
      fields = no_fields;
      bios_password_action = create;
      confirm_firmware_restart = false;
      keyboard_disabled = false;
      guard = guard;
      requests = [];
      refreshes = 0;
      installs = 0;
      restarts = 0;
    }

-- What `try_recv` gives on a channel.
pub data Received (A : Type 0) : Type 0 where
  message : A → Received A
  empty disconnected : Received A

pub data OperationEvent (fl : Floats) : Type 0 where
  progress : fl.Float → Text → OperationEvent fl
  finished : Text → OperationEvent fl

module _ {fl : Floats} where
  unfoldable pub with_status : Text → DeviceApp fl → DeviceApp fl
  with_status status s = record s { lock = record s.lock { status = status } }

  unfoldable pub clear_passwords : DeviceApp fl → DeviceApp fl
  clear_passwords s = record s { fields = no_fields }

  unfoldable pub poll_service_probe : Received Bool → DeviceApp fl → DeviceApp fl
  poll_service_probe received s =
      if not s.service_probe then s else elim received as (λ _. DeviceApp fl) [
        | message running ↦ record s { service_running = running; service_probe = false }
        | disconnected ↦ record s { service_probe = false }
        | empty ↦ s
      ]

  unfoldable pub reload : Option DeviceHealth → Instant → DeviceApp fl → DeviceApp fl
  reload health now s = record s { health = health; service_probe = true; last_refresh = now }

  -- The match on the channel of the operation.
  unfoldable pub poll_operation :
      Received (OperationEvent fl) → Option DeviceHealth → Instant → DeviceApp fl → DeviceApp fl
  unfolding with_status reload
  poll_operation received health now s =
      if not s.operation then s else elim received as (λ _. DeviceApp fl) [
        | message (progress fraction label) ↦ record s {
          operation_progress = some (fl.clamp fraction);
          operation_label = label;
        }
        | message (finished result) ↦ reload health now (record (with_status result s) {
          operation = false;
          operation_progress = none;
          operation_label = [];
        })
        | disconnected ↦
            record (with_status (chars "Health refresh worker stopped unexpectedly") s) {
              operation = false;
              operation_progress = none;
              operation_label = [];
            }
        | empty ↦ s
      ]

  unfoldable pub provider_of : DeviceApp fl → BiosProvider
  provider_of s = elim s.health [ none ↦ unsupported | some health ↦ health.bios_provider ]
