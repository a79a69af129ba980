-- ===== src/LockScreen/Consistent.antt =====
-- The fields of the lock screen agree with each other over its operations.
use desktop_mdm.Prelude.{
  if_case, ◌-◌, ◌≡◌, refl, sym, ap, ◌∙◌, subst, inl, inr, Bool, true, false, ◌&&◌, not, Option,
  none, some, arith, ltb, if◌then◌else◌, Bool-cases, Option-cases, is_some, ◌==◌, ℕ_eq, Bool_eq,
  List_eq, Option_eq, ==_iff,
}
use desktop_mdm.Text.{Text, chars}
use desktop_mdm.LockScreen.{
  LockScreen, Instant, is_active, end_blue_screen, unlock_released, current_receipt,
  poll_recovery_unlock, sync_remote_lock_state, blue_screen_active, tick_locked, dismissed, seconds,
}
use desktop_mdm.LockScreen.Entry.{SameLock, recovery_refused-SameLock}
use desktop_mdm.RecoveryService.{RecoveryState}
use desktop_mdm.Api.{PersistedRemoteState, is_locked}
use desktop_mdm.Recovery.Verify.{Time}
use desktop_mdm.Extern.{Json}
use desktop_mdm.StateStore.{File}

-- Between the frames: the Task Manager is disabled where a lock screen was entered, which then shows,
-- and a release by a recovery token stands only while the remote lock is off.
pub record IsConsistent (s : LockScreen) : Type 0 where
  pub entered : is_some s.lock_started ≡ s.task_manager_disabled
  pub shows : is_some s.lock_started ≡ true → is_active s ≡ true
  pub released : is_some s.remote_unlock_override_at ≡ true → s.remote_locked ≡ false

pub SameLock-IsConsistent : {s t : LockScreen} → SameLock s t → IsConsistent s → IsConsistent t
SameLock-IsConsistent same h = record {
  entered = ap is_some same.same_started ∙ h.entered ∙ sym same.same_manager;
  shows = λ e. same.same_active ∙ h.shows (sym (ap is_some same.same_started) ∙ e);
  released = λ e. same.same_remote ∙ h.released (sym (ap is_some same.same_override) ∙ e);
}

end_blue_screen-IsConsistent :
    (s : LockScreen)
    → (is_some s.remote_unlock_override_at ≡ true → s.remote_locked ≡ false)
    → IsConsistent (end_blue_screen s)
unfolding end_blue_screen is_active
end_blue_screen-IsConsistent s released = record {
  entered = refl;
  shows = λ e. cc;
  released = released;
}

pub poll_recovery_unlock-IsConsistent :
    (j : Json RecoveryState) (now : Instant) (utc_now : Time) (checked_at : Option Time)
    (file : File) (s : LockScreen)
    → IsConsistent s
    → IsConsistent (poll_recovery_unlock j now utc_now checked_at file s)
unfolding poll_recovery_unlock unlock_released end_blue_screen is_active
poll_recovery_unlock-IsConsistent j now utc_now checked_at file s h =
    elim (Option-cases s.pending_recovery) [
      | inl e ↦
          let same : poll_recovery_unlock j now utc_now checked_at file s ≡ s =
            simp (e, poll_recovery_unlock) in
          rw same h
      | inr ((id, started), e) ↦ elim (Option-cases (current_receipt j file id utc_now)) [
        | inl e2 ↦ elim (Bool-cases (ltb (seconds 30) (now - started))) [
          | inl late ↦
              rw (e, e2, late, poll_recovery_unlock)
                (record { entered = h.entered; shows = h.shows; released = h.released })
          | inr early ↦
              let same : poll_recovery_unlock j now utc_now checked_at file s ≡ s =
                simp (e, e2, early, poll_recovery_unlock) in
              rw same h
        ]
        | inr (receipt, e2) ↦ elim (Bool-cases receipt.accepted) [
          | inl good ↦
              rw (e, e2, good, poll_recovery_unlock)
                (record { entered = refl; shows = λ x. cc; released = λ x. refl })
          | inr bad ↦
              rw (e, e2, bad, poll_recovery_unlock)
                (SameLock-IsConsistent
                  (recovery_refused-SameLock now (record s { pending_recovery = none }))
                  (record { entered = h.entered; shows = h.shows; released = h.released }))
        ]
      ]
    ]

pub sync_remote_lock_state-IsConsistent :
    (now : Instant) (remote : Option PersistedRemoteState) (s : LockScreen)
    → IsConsistent s
    → IsConsistent (sync_remote_lock_state now remote s)
unfolding sync_remote_lock_state end_blue_screen is_active
sync_remote_lock_state-IsConsistent now remote s h =
    if_case IsConsistent (ltb (now - s.last_remote_refresh) (seconds 2)) s _ (λ e. h)
      (λ e. by_state remote)
  where
    by_state :
        (o : Option PersistedRemoteState)
        → IsConsistent (elim o as (λ _. LockScreen) [
          | none ↦ record s { last_remote_refresh = now }
          | some r ↦
              let is = is_locked r.lock_state.state in
              let read : LockScreen = record s {
                last_remote_refresh = now;
                remote_lock_reason = r.lock_state.reason;
              } in
              if is && s.remote_unlock_override_at == some r.checked_at
              then record read { remote_locked = false }
              else if s.remote_locked && not is
              then record (end_blue_screen
                  (record read { remote_unlock_override_at = none; remote_locked = false })) {
                    status = chars "The administrator released this device.";
                  }
              else if not s.remote_locked && is
              then record read {
                remote_unlock_override_at = none;
                remote_locked = true;
                status = chars "The administrator restricted this device.";
              }
              else record read { remote_unlock_override_at = none }
        ])
    by_state none = record { entered = h.entered; shows = h.shows; released = h.released }
    by_state (some r) =
        let is = is_locked r.lock_state.state in
        let read : LockScreen = record s {
          last_remote_refresh = now;
          remote_lock_reason = r.lock_state.reason;
        } in
        let kept : LockScreen = record read { remote_locked = false } in
        let freed : LockScreen =
          record (end_blue_screen
            (record read { remote_unlock_override_at = none; remote_locked = false })) {
              status = chars "The administrator released this device.";
            } in
        let taken : LockScreen = record read {
          remote_unlock_override_at = none;
          remote_locked = true;
          status = chars "The administrator restricted this device.";
        } in
        let same : LockScreen = record read { remote_unlock_override_at = none } in
        let later : LockScreen = if not s.remote_locked && is then taken else same in
        let other : LockScreen = if s.remote_locked && not is then freed else later in
        if_case IsConsistent (is && s.remote_unlock_override_at == some r.checked_at) kept other
          (λ e.
            let overridden : s.remote_unlock_override_at ≡ some r.checked_at =
              (==_iff s.remote_unlock_override_at (some r.checked_at)).0 (ground arith) in
            let off : s.remote_locked ≡ false = h.released (ap is_some overridden) in
            record {
              entered = h.entered;
              shows = λ x.
                  subst (λ b. is_active (record s { remote_locked = b }) ≡ true) off (h.shows x);
              released = λ x. refl;
            })
          (λ e.
            if_case IsConsistent (s.remote_locked && not is) freed later
              (λ e2. record { entered = refl; shows = λ x. absurd cc; released = λ x. refl })
              (λ e2.
                if_case IsConsistent (not s.remote_locked && is) taken same
                  (λ e3. record {
                    entered = h.entered;
                    shows = λ x. let shown = h.shows x in ground arith;
                    released = λ x. absurd cc;
                  })
                  (λ e3. record {
                    entered = h.entered;
                    shows = h.shows;
                    released = λ x. absurd cc;
                  })))

pub blue_screen_active-IsConsistent :
    (s : LockScreen)
    → IsConsistent s
    → IsConsistent (blue_screen_active s).1
      × ((blue_screen_active s).0 ≡ is_active (blue_screen_active s).1)
unfolding blue_screen_active
blue_screen_active-IsConsistent s h = (
  if_case IsConsistent (not s.enforced && dismissed s.bluescreen) (end_blue_screen s) s
      (λ e. end_blue_screen-IsConsistent s h.released) (λ e. h),
  refl,
)

-- The lock screen shows and was entered.
abbrev pub IsEntered : LockScreen → Type 0
IsEntered s = IsConsistent s × (is_active s ≡ true) × (is_some s.lock_started ≡ true)

pub tick_locked-IsEntered :
    (now : Instant) (focused close_requested : Bool) (s : LockScreen)
    → is_active s ≡ true
    → IsConsistent s
    → IsEntered (tick_locked now focused close_requested s)
unfolding tick_locked is_active
tick_locked-IsEntered now focused close_requested s active h =
    if_case IsEntered close_requested _ _ (λ e. same_entered (focused_case focused))
      (λ e. focused_case focused)
  where
    same_entered :
        {t : LockScreen} {text : Text} → IsEntered t → IsEntered (record t { status = text })
    same_entered (c, a, e) =
        (record { entered = c.entered; shows = c.shows; released = c.released }, a, e)

    entering : LockScreen
    entering = elim s.lock_started as (λ _. LockScreen) [
      | some started ↦ s
      | none ↦ record s {
        lock_started = some now;
        fullscreen = true;
        on_top = true;
        task_manager_disabled = true;
      }
    ]

    by_option :
        (o : Option Instant)
        → is_some o ≡ is_some s.lock_started
        → IsEntered (elim o as (λ _. LockScreen) [
          | some started ↦ s
          | none ↦ record s {
            lock_started = some now;
            fullscreen = true;
            on_top = true;
            task_manager_disabled = true;
          }
        ])
    by_option none e =
        (record { entered = refl; shows = λ x. active; released = h.released }, active, refl)
    by_option (some started) e = (h, active, sym e)

    begun : IsEntered entering
    begun = by_option s.lock_started refl

    focused_case :
        (f : Bool)
        → IsEntered (if f then entering else record entering { on_top = true; fullscreen = true })
    focused_case f =
        if_case IsEntered f entering (record entering { on_top = true; fullscreen = true })
          (λ e. begun)
          (λ e. (
            record {
              entered = begun.0.entered;
              shows = begun.0.shows;
              released = begun.0.released;
            },
            begun.1,
            begun.2,
          ))
