-- ===== src/Desktop/Guarded.antt =====
-- The keyboard and the Task Manager over the frames of the desktop app.
use desktop_mdm.Desktop.App.{
  Floats, DeviceApp, Received, message, empty, disconnected, poll_service_probe, load,
}
use desktop_mdm.Desktop.Keyboard.{Guard, set_locked}
use desktop_mdm.Desktop.Frame.{FrameIo, locked_frame, open_frame, poll_frame, update, frames}
use desktop_mdm.Health.{DeviceHealth}
use desktop_mdm.Desktop.Same.{SameApp, open_frame-SameApp}
use desktop_mdm.Desktop.Keyboard.{hook_proc}
use desktop_mdm.Prelude.{
  if_case, ◌≡◌, refl, sym, ap, ◌∙◌, inl, inr, Bool, true, false, ◌||◌, Option, List, [], ◌∷◌,
  Bool-cases, is_some, ℕ_eq, Bool_eq, List_eq, Option_eq,
}
use desktop_mdm.LockScreen.{
  Instant, is_active, poll_recovery_unlock, sync_remote_lock_state, tick_locked,
}
use desktop_mdm.LockScreen.Entry.{render_blue_screen-SameLock}
use desktop_mdm.RecoveryService.{RecoveryRequest, RecoveryState}
use desktop_mdm.Api.{PersistedRemoteState}
use desktop_mdm.Extern.{Json}
use desktop_mdm.StateStore.{File}
use desktop_mdm.LockScreen.Consistent.{
  IsConsistent, SameLock-IsConsistent, poll_recovery_unlock-IsConsistent,
  sync_remote_lock_state-IsConsistent, tick_locked-IsEntered, blue_screen_active-IsConsistent,
}

-- What the user has after a frame: a lock screen shows exactly while the Task Manager is disabled, and
-- the hook swallows keys exactly while it shows or the keyboard is switched off.
pub record IsGuarded {fl : Floats} (s : DeviceApp fl) : Type 0 where
  pub consistent : IsConsistent s.lock
  pub manager : s.lock.task_manager_disabled ≡ is_active s.lock
  pub swallowed : (hook_proc true s.guard).0 ≡ (is_active s.lock || s.keyboard_disabled)

hook_proc-lock_active : (g : Guard) → (hook_proc true g).0 ≡ g.lock_active
unfolding hook_proc
hook_proc-lock_active g = elim (Bool-cases g.lock_active) [
  | inl e ↦ rw (e, hook_proc) refl
  | inr e ↦ rw (e, hook_proc) refl
]

load-IsConsistent :
    (fl : Floats) (is_admin is_shell : Bool) (remote : Option PersistedRemoteState)
    (health : Option DeviceHealth) (now : Instant) (guard : Guard)
    → IsConsistent (load {fl = fl} is_admin is_shell remote health now guard).lock
unfolding load
load-IsConsistent fl is_admin is_shell remote health now guard = record {
  entered = refl;
  shows = λ e. absurd cc;
  released = λ e. absurd cc;
}

module _ {fl : Floats} (js : Json RecoveryState) (jq : Json RecoveryRequest) where
  -- After the test for a lock screen, which sets the hook.
  record IsPolled (r : Bool × DeviceApp fl) : Type 0 where
    consistent : IsConsistent r.1.lock
    tested : r.0 ≡ is_active r.1.lock
    hooked : r.1.guard.lock_active ≡ (is_active r.1.lock || r.1.keyboard_disabled)

  poll_service_probe-same :
      (probed : Received Bool) (s : DeviceApp fl)
      → ((poll_service_probe probed s).lock ≡ s.lock)
        × ((poll_service_probe probed s).keyboard_disabled ≡ s.keyboard_disabled)
  unfolding poll_service_probe
  poll_service_probe-same probed s = elim (Bool-cases s.service_probe) [
    | inr none_due ↦ rw (none_due, poll_service_probe) (refl, refl)
    | inl due ↦ rw (due, poll_service_probe) (by_received probed)
  ]
    where
      by_received :
          (received : Received Bool)
          → let t = elim received as (λ _. DeviceApp fl) [
            | message running ↦ record s { service_running = running; service_probe = false }
            | disconnected ↦ record s { service_probe = false }
            | empty ↦ s
          ] in
            (t.lock ≡ s.lock) × (t.keyboard_disabled ≡ s.keyboard_disabled)
      by_received (message running) = (refl, refl)
      by_received disconnected = (refl, refl)
      by_received empty = (refl, refl)

  poll_frame-IsPolled :
      (io : FrameIo fl) (s : DeviceApp fl) → IsConsistent s.lock → IsPolled (poll_frame js jq io s)
  unfolding poll_frame set_locked
  poll_frame-IsPolled io s h =
      let polled =
        sync_remote_lock_state io.synced_at io.remote (
          poll_recovery_unlock js io.polled_at io.utc_now io.checked_at io.recovery_state s.lock) in
      let probed = poll_service_probe io.probed (record s { lock = polled }) in
      let (same_lock, same_keyboard) =
        poll_service_probe-same io.probed (record s { lock = polled }) in
      let before : IsConsistent probed.lock = rw same_lock (
        sync_remote_lock_state-IsConsistent io.synced_at io.remote _ (
          poll_recovery_unlock-IsConsistent js io.polled_at io.utc_now io.checked_at
            io.recovery_state s.lock h)) in
      let (consistent, tested) = blue_screen_active-IsConsistent probed.lock before in
      record { consistent = consistent; tested = tested; hooked = rw tested refl }

  open_frame-IsGuarded :
      (q : Bool × DeviceApp fl)
      → IsPolled q
      → q.0 ≡ false
      → (t : DeviceApp fl) → SameApp q.1 t
      → IsGuarded t
  open_frame-IsGuarded q k open_ t same =
      let inactive : is_active q.1.lock ≡ false = sym k.tested ∙ open_ in
      let shown : is_active t.lock ≡ false = same.same_lock.same_active ∙ inactive in
      let not_started : is_some q.1.lock.lock_started ≡ false =
        elim (Bool-cases (is_some q.1.lock.lock_started)) [
          | inl started ↦ absurd (cc (k.consistent.shows started, inactive))
          | inr idle ↦ idle
        ] in
      let hooked = hook_proc-lock_active t.guard in
      let guard = same.same_guard in
      record {
        consistent = SameLock-IsConsistent same.same_lock k.consistent;
        manager = same.same_lock.same_manager ∙ sym k.consistent.entered ∙ not_started ∙ sym shown;
        swallowed =
            hooked
            ∙ ap (λ (g : Guard). g.lock_active) guard
            ∙ k.hooked
            ∙ sym (
                ap (λ b. b || t.keyboard_disabled) same.same_lock.same_active
                ∙ ap (λ b. is_active q.1.lock || b) same.same_keyboard);
      }

  pub update-IsGuarded :
      (io : FrameIo fl) (r : DeviceApp fl × File)
      → IsConsistent r.0.lock
      → IsGuarded (update js jq io r).0
  unfolding update locked_frame hook_proc
  update-IsGuarded io (s, mailbox) h =
      let p = poll_frame js jq io s in
      let k = poll_frame-IsPolled io s h in
      if_case (λ (x : DeviceApp fl × File). IsGuarded x.0) p.0
        (locked_frame js jq io (p.1, mailbox)) (open_frame js jq io p.1, mailbox)
        (λ locked.
          let active : is_active p.1.lock ≡ true = sym k.tested ∙ locked in
          let (c, a, e) =
            tick_locked-IsEntered io.locked_at io.focused io.close_requested p.1.lock active
              k.consistent in
          let same =
            render_blue_screen-SameLock jq io.lock_inputs io.field_focused
              (tick_locked io.locked_at io.focused io.close_requested p.1.lock, mailbox) in
          let hooked = k.hooked in
          let shown = same.same_active ∙ a in
          record {
            consistent = SameLock-IsConsistent same c;
            manager = same.same_manager ∙ sym c.entered ∙ e ∙ sym shown;
            swallowed = rw (hooked, active, shown) refl;
          })
        (λ open_.
          open_frame-IsGuarded p k open_ (open_frame js jq io p.1)
            (open_frame-SameApp js jq io p.1))

  frames_from-IsGuarded :
      (io : FrameIo fl) (ios : List (FrameIo fl)) (s : DeviceApp fl) (mailbox : File)
      → IsConsistent s.lock
      → IsGuarded (frames js jq (io ∷ ios) (s, mailbox)).0
  unfolding frames
  frames_from-IsGuarded io [] s mailbox h = update-IsGuarded io (s, mailbox) h
  frames_from-IsGuarded io (next ∷ ios) s mailbox h =
      let r = update js jq io (s, mailbox) in
      frames_from-IsGuarded next ios r.0 r.1 (update-IsGuarded io (s, mailbox) h).consistent

  -- After every frame from `DeviceApp::load` on, with any inputs, clicks and remote states, a lock
  -- screen shows exactly where the last request of this run about the Task Manager was to disable it,
  -- and the keyboard hook swallows a key exactly while a lock screen shows or the keyboard is
  -- switched off.
  pub frames-IsGuarded :
      (is_admin is_shell : Bool) (remote : Option PersistedRemoteState)
      (health : Option DeviceHealth) (now : Instant) (guard : Guard) (io : FrameIo fl)
      (ios : List (FrameIo fl)) (mailbox : File)
      → IsGuarded
          (frames js jq (io ∷ ios) (load is_admin is_shell remote health now guard, mailbox)).0
  frames-IsGuarded is_admin is_shell remote health now guard io ios mailbox =
      frames_from-IsGuarded io ios (load is_admin is_shell remote health now guard) mailbox
        (load-IsConsistent fl is_admin is_shell remote health now guard)
