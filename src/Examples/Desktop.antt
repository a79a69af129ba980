-- ===== src/Examples/Desktop.antt =====
-- The desktop app at concrete inputs.
use desktop_mdm.Desktop.Password.{can_apply, bios_adapter_status}
use desktop_mdm.LockScreen.Entry.{render_blue_screen}
use desktop_mdm.Prelude.{
  ℕ, ◌≡◌, refl, true, false, none, some, [], ◌∷◌, ℕ_eq, Bool_eq, List_eq, Option_eq, option_beq,
  map, list_beq,
}
use desktop_mdm.Text.{chars}
use desktop_mdm.Desktop.App.{Floats, DeviceApp, BiosRequest, load, empty, message}
use desktop_mdm.Desktop.Frame.{FrameIo, frames, update}
use desktop_mdm.Desktop.Guarded.{IsGuarded, frames-IsGuarded}
use desktop_mdm.Desktop.Keyboard.{Guard, already_running, access_denied}
use desktop_mdm.Desktop.Quote.{powershell_quote}
use desktop_mdm.Desktop.Panels.{edit_new, edit_confirm, apply}
use desktop_mdm.LockScreen.{
  is_active, blue_screen_active, sync_remote_lock_state, poll_recovery_unlock, tick_locked,
}
use desktop_mdm.Api.{PersistedRemoteState, locked, is_locked}
use desktop_mdm.Desktop.Requests.{frames-IsClean}
use desktop_mdm.Desktop.Clean.{IsClean}
use desktop_mdm.Health.{DeviceHealth, dell}
use desktop_mdm.StateStore.{missing}
use desktop_mdm.Examples.Toy.{zeros, state_json, request_json}

-- A quote is doubled.
quoted : powershell_quote (chars "O'Neil") ≡ chars "'O''Neil'"
unfolding powershell_quote
quoted = refl

abbrev percents : Floats
percents = record { Float = ℕ; clamp = λ n. n; one_percent = 1 }

abbrev locked_state : PersistedRemoteState
locked_state = record {
  device_uuid = zeros 16;
  lock_state = record { state = locked; reason = chars "overdue"; changed_at = 1 };
  checked_at = 2;
  server_time = 2;
}

abbrev idle_guard : Guard
idle_guard = record { lock_active = false; installed = true; fired = false }

abbrev dell_health : DeviceHealth
dell_health = record {
  device_id = zeros 16;
  hostname = chars "pc";
  os_version = chars "11";
  manufacturer = chars "Dell Inc.";
  model = chars "Latitude";
  agent_version = chars "1";
  disk_free_bytes = 0;
  battery_percent = none;
  secure_boot = none;
  winget_available = true;
  bios_provider = dell;
  observed_at = 0;
}

abbrev app : DeviceApp percents
app = load false false none (some dell_health) 0 idle_guard

-- The administrator has locked the device since the app was started.
abbrev frame : ℕ → FrameIo percents
frame now = record {
  recovery_state = missing;
  polled_at = now;
  utc_now = now;
  checked_at = some 2;
  synced_at = now;
  remote = some locked_state;
  probed = message true;
  locked_at = now;
  focused = true;
  close_requested = true;
  lock_inputs = [];
  field_focused = false;
  frame_at = now;
  health = none;
  received = empty;
  reloaded = none;
  reloaded_at = now;
  tab = 1;
  adapters = record { dell_cctk = true; hp_cmsl = false; asus_act = false };
  actions = edit_new (chars "secret") ∷ edit_confirm (chars "secret") ∷ apply none ∷ [];
}

locks :
    is_active (update state_json request_json (frame 3_000_000_000) (app, missing)).0.lock ≡ true
unfolding update is_active blue_screen_active load sync_remote_lock_state poll_recovery_unlock
    is_locked option_beq render_blue_screen tick_locked
locks = refl

-- Before that, the password reaches the script.
sends :
    map
      (λ (r : BiosRequest). r.new)
      (update state_json request_json (frame 1) (app, missing)).0.requests
    ≡ chars "secret" ∷ []
unfolding update blue_screen_active load sync_remote_lock_state poll_recovery_unlock can_apply
    bios_adapter_status list_beq
sends = refl

second_instance : already_running access_denied ≡ true
unfolding already_running
second_instance = refl

frames-IsGuarded_example :
    IsGuarded (frames state_json request_json (frame 1 ∷ frame 3_000_000_000 ∷ []) (app, missing)).0
frames-IsGuarded_example =
    frames-IsGuarded state_json request_json false false none (some dell_health) 0 idle_guard
      (frame 1) (frame 3_000_000_000 ∷ []) missing

frames-IsClean_example :
    IsClean (frames state_json request_json (frame 1 ∷ frame 3_000_000_000 ∷ []) (app, missing)).0
frames-IsClean_example =
    frames-IsClean state_json request_json false false none (some dell_health) 0 idle_guard
      (frame 1 ∷ frame 3_000_000_000 ∷ []) missing
