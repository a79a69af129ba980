-- ===== src/Desktop/Frame.antt =====
-- apps/windows-agent/src/ui/app.rs: `update`, one frame of the desktop app.
use desktop_mdm.Desktop.Panels.{select_tab, PanelAction, panel_actions}
use desktop_mdm.Desktop.App.{
  Floats, Received, DeviceApp, poll_operation, poll_service_probe, OperationEvent,
}
use desktop_mdm.Prelude.{
  ℕ, ◌-◌, Bool, ◌||◌, Option, List, [], ◌∷◌, leb, if◌then◌else◌, ℕ_eq, Bool_eq, List_eq, Option_eq,
}
use desktop_mdm.LockScreen.{
  Instant, seconds, poll_recovery_unlock, sync_remote_lock_state, blue_screen_active, tick_locked,
}
use desktop_mdm.LockScreen.Entry.{LockInput, render_blue_screen}
use desktop_mdm.Api.{PersistedRemoteState}
use desktop_mdm.Recovery.Verify.{Time}
use desktop_mdm.RecoveryService.{RecoveryRequest, RecoveryState}
use desktop_mdm.Extern.{Json}
use desktop_mdm.StateStore.{File}
use desktop_mdm.Health.{DeviceHealth}
use desktop_mdm.Desktop.Keyboard.{set_locked}
use desktop_mdm.Desktop.Password.{Adapters}

-- What one frame finds.
pub record FrameIo (fl : Floats) : Type 0 where
  pub recovery_state : File
  pub polled_at : Instant
  pub utc_now : Time
  pub checked_at : Option Time
  pub synced_at : Instant
  pub remote : Option PersistedRemoteState
  pub probed : Received Bool
  pub locked_at : Instant
  pub focused : Bool
  pub close_requested : Bool
  pub lock_inputs : List LockInput
  pub field_focused : Bool
  pub frame_at : Instant
  pub health : Option DeviceHealth
  pub received : Received (OperationEvent fl)
  pub reloaded : Option DeviceHealth
  pub reloaded_at : Instant
  pub tab : ℕ
  pub adapters : Adapters
  pub actions : List PanelAction

module _ {fl : Floats} (js : Json RecoveryState) (jq : Json RecoveryRequest) where
  -- The frame while a lock screen shows.
  unfoldable pub locked_frame : FrameIo fl → DeviceApp fl × File → DeviceApp fl × File
  locked_frame io (s, mailbox) =
      let ticked = tick_locked io.locked_at io.focused io.close_requested s.lock in
      let r = render_blue_screen jq io.lock_inputs io.field_focused (ticked, mailbox) in
      (record s { lock = r.0 }, r.1)

  -- The frame of the panels.
  unfoldable pub open_frame : FrameIo fl → DeviceApp fl → DeviceApp fl
  unfolding poll_operation select_tab panel_actions
  open_frame io s =
      let fresh : DeviceApp fl =
        if leb (seconds 5) (io.frame_at - s.last_refresh)
        then record s { health = io.health; last_refresh = io.frame_at }
        else s in
      panel_actions io.adapters io.actions
        (select_tab io.tab (poll_operation io.received io.reloaded io.reloaded_at fresh))

  -- The part of `update` before the lock is tested, and the test: the keyboard is guarded by it.
  unfoldable pub poll_frame : FrameIo fl → DeviceApp fl → Bool × DeviceApp fl
  unfolding poll_service_probe
  poll_frame io s =
      let polled =
        sync_remote_lock_state io.synced_at io.remote (
          poll_recovery_unlock js io.polled_at io.utc_now io.checked_at io.recovery_state s.lock) in
      let probed = poll_service_probe io.probed (record s { lock = polled }) in
      let r = blue_screen_active probed.lock in
      (
        r.0,
        record probed {
          lock = r.1;
          guard = set_locked (r.0 || probed.keyboard_disabled) probed.guard;
        },
      )

  -- `update`.
  unfoldable pub update : FrameIo fl → DeviceApp fl × File → DeviceApp fl × File
  unfolding poll_frame locked_frame open_frame
  update io (s, mailbox) =
      let r = poll_frame io s in
      if r.0 then locked_frame io (r.1, mailbox) else (open_frame io r.1, mailbox)

  unfoldable pub frames : List (FrameIo fl) → DeviceApp fl × File → DeviceApp fl × File
  unfolding update
  frames [] r = r
  frames (io ∷ ios) r = frames ios (update io r)
