-- ===== src/Examples/Lock.antt =====
-- The lock screen at concrete inputs.
use desktop_mdm.Prelude.{
  ◌≡◌, ◌⊎◌, refl, true, false, Option, some, none, [], ◌∷◌, arith, list_beq, List,
}
use desktop_mdm.Text.{chars}
use desktop_mdm.StateStore.{missing}
use desktop_mdm.Recovery.Token.{Uuid}
use desktop_mdm.RecoveryService.Answers.{receipt_for}
use desktop_mdm.LockScreen.{
  LockScreen, Instant, MailboxIo, is_active, current_receipt, poll_recovery_unlock, unlock_released,
  end_blue_screen, try_recovery_unlock, recovery_refused,
}
use desktop_mdm.LockScreen.Release.{
  IsReleased, poll_recovery_unlock-IsReleased, poll_recovery_unlock-releases,
}
use desktop_mdm.LockScreen.Entry.{LockInput, edited, unlock_clicked, lock_inputs}
use desktop_mdm.LockScreen.Submit.{
  IsAllowed, try_recovery_unlock-IsAllowed, recovery_refused-pauses,
}
use desktop_mdm.Examples.Toy.{zeros, state_json, request_json}
use desktop_mdm.Examples.Service.{request, new_state, file_of}

abbrev screen : LockScreen
screen = record {
  bluescreen = none;
  qr_shown = false;
  consent = false;
  recovery_input = chars "EMIU1-abc";
  recovery_focused = false;
  enforced = true;
  manual_lock = false;
  lock_started = some 1;
  remote_locked = true;
  remote_lock_reason = [];
  last_remote_refresh = 0;
  remote_unlock_override_at = none;
  pending_recovery = some (1 ∷ zeros 15, 2);
  unlock_fail_count = 4;
  unlock_locked_until = none;
  status = [];
  task_manager_disabled = true;
  on_top = true;
  fullscreen = true;
}

abbrev mailbox_io : MailboxIo
mailbox_io = record { directory = true; opened = true; written = true; partial = []; synced = true }

shown : is_active screen ≡ true
unfolding is_active
shown = refl

gone : is_active (poll_recovery_unlock state_json 3 60 (some 9) (file_of new_state) screen) ≡ false
unfolding is_active poll_recovery_unlock current_receipt unlock_released end_blue_screen list_beq
gone = refl

poll_recovery_unlock-IsReleased_example :
    (id : Uuid) × (started : Instant) × (◌≡◌ {A = Option (Uuid × Instant)}
      (some (1 ∷ zeros 15, 2))
      (some (id, started)))
    × IsReleased state_json (file_of new_state) id 60
poll_recovery_unlock-IsReleased_example =
    poll_recovery_unlock-IsReleased state_json 3 60 (some 9) (file_of new_state) screen shown gone

released : IsReleased state_json (file_of new_state) (1 ∷ zeros 15) 60
released = record {
  state = new_state;
  holds = refl;
  receipt = receipt_for request true 50;
  given = refl;
  same_request = refl;
  current = omega arith;
  accepted = refl;
}

poll_recovery_unlock-releases_example :
    let after = poll_recovery_unlock state_json 3 60 (some 9) (file_of new_state) screen in
    (is_active after ≡ false)
    × (after.task_manager_disabled ≡ false)
    × (after.pending_recovery ≡ none)
    × (after.recovery_input ≡ [])
    × (after.remote_unlock_override_at ≡ some 9)
poll_recovery_unlock-releases_example =
    poll_recovery_unlock-releases state_json 3 60 (some 9) (file_of new_state) screen (1 ∷ zeros 15)
      2 refl released

try_recovery_unlock-IsAllowed_example :
    let r = try_recovery_unlock request_json mailbox_io 3 (zeros 16) screen missing in
    (is_active r.0 ≡ is_active screen) × ((r.1 ≡ missing) ⊎ IsAllowed 3 screen)
try_recovery_unlock-IsAllowed_example =
    try_recovery_unlock-IsAllowed request_json mailbox_io 3 (zeros 16) screen missing

-- Two tries and an edit within the pause.
abbrev hasty : List LockInput
hasty =
    unlock_clicked mailbox_io 1000 (zeros 16)
    ∷ edited (chars "EMIU1-other")
    ∷ unlock_clicked mailbox_io 2000 (zeros 16)
    ∷ []

recovery_refused-pauses_example :
    (lock_inputs request_json hasty
      (recovery_refused 3 (record screen { pending_recovery = none }), missing)).1
    ≡ missing
recovery_refused-pauses_example =
    recovery_refused-pauses request_json 3 (record screen { pending_recovery = none }) missing hasty
      (omega arith) (omega arith, (tt, (omega arith, tt)))
