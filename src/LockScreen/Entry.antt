-- ===== src/LockScreen/Entry.antt =====
-- apps/windows-agent/src/ui/lock.rs: what the user does on the lock screen.
use desktop_mdm.LockScreen.{
  LockScreen, Instant, MailboxIo, is_active, is_theft_reason, try_recovery_unlock, submit_token,
  recovery_refused, is_waiting, submit, is_submittable, wait_text,
}
use desktop_mdm.RecoveryService.{RecoveryRequest}
use desktop_mdm.Extern.{Json}
use desktop_mdm.StateStore.{File}
use desktop_mdm.Recovery.Token.{Uuid}
use desktop_mdm.Text.Trim.{trim}
use desktop_mdm.Prelude.{
  ℕ, ◌≡◌, refl, ◌∙◌, inl, inr, Bool, true, false, List, [], ◌∷◌, ◌++◌, arith, ltb, if◌then◌else◌,
  Bool-cases, Option-cases, ℕ_eq, Bool_eq, List_eq, Option_eq, take,
}
use desktop_mdm.Text.{Text, chars, concat, len}

-- The events of the window that `suppress_keyboard` tells apart.
pub data InputEvent : Type 0 where
  key text other : InputEvent

unfoldable pub is_keyboard : InputEvent → Bool
is_keyboard key = true
is_keyboard text = true
is_keyboard other = false

unfoldable pub drop_keyboard : List InputEvent → List InputEvent
unfolding is_keyboard
drop_keyboard [] = []
drop_keyboard (e ∷ es) = let rest = drop_keyboard es in if is_keyboard e then rest else e ∷ rest

unfoldable pub suppress_keyboard : LockScreen → List InputEvent → List InputEvent
unfolding drop_keyboard
suppress_keyboard s events = if s.recovery_focused then events else drop_keyboard events

-- A click on a key of the on-screen keyboard or on Unlock, or an edit of the field, which holds at
-- most 256 characters.
pub data LockInput : Type 0 where
  press : ℕ → LockInput
  backspace clear_input : LockInput
  edited : Text → LockInput
  unlock_clicked : MailboxIo → Instant → Uuid → LockInput

-- `String::pop`
unfoldable pub pop : Text → Text
pop [] = []
pop (c ∷ []) = []
pop (c ∷ d ∷ s) = c ∷ pop (d ∷ s)

unfoldable pub lock_input : Json RecoveryRequest → LockInput → LockScreen × File → LockScreen × File
unfolding pop
lock_input j (press c) (s, mailbox) = (
  (if ltb (len s.recovery_input) 256
      then record s { recovery_input = s.recovery_input ++ c ∷ [] }
      else s),
  mailbox,
)
lock_input j backspace (s, mailbox) = (record s { recovery_input = pop s.recovery_input }, mailbox)
lock_input j clear_input (s, mailbox) = (record s { recovery_input = [] }, mailbox)
lock_input j (edited value) (s, mailbox) = (record s { recovery_input = take 256 value }, mailbox)
lock_input j (unlock_clicked io now id) (s, mailbox) = try_recovery_unlock j io now id s mailbox

unfoldable pub lock_inputs :
    Json RecoveryRequest → List LockInput → LockScreen × File → LockScreen × File
lock_inputs j [] r = r
lock_inputs j (i ∷ inputs) r = lock_inputs j inputs (lock_input j i r)

-- `render_blue_screen`, but for the drawing.
unfoldable pub render_blue_screen :
    Json RecoveryRequest → List LockInput → Bool → LockScreen × File → LockScreen × File
unfolding lock_inputs
render_blue_screen j inputs focused r =
    let after = lock_inputs j inputs r in (record after.0 { recovery_focused = focused }, after.1)

-- The banner, the title and the description.
unfoldable pub lock_screen_copy : Text → Text × Text × Text
lock_screen_copy reason =
    if is_theft_reason reason
    then (
      chars "MANAGED DEVICE · REPORTED LOST OR STOLEN",
      chars "This device has been reported lost or stolen",
      concat (
          chars "Access has been restricted by the device administrator. If you found this device, "
          ∷ chars "return it to its owner or contact the organization identified on the device. "
          ∷ chars "Windows has not crashed and files remain protected."
          ∷ []),
    )
    else (
      chars "EMI DEVICE · ACCESS PAUSED",
      chars "Payment required to continue",
      concat (
          chars "This company-owned device is under an EMI financing agreement. Access is paused "
          ∷ chars "until the outstanding installment is recorded. Windows has not crashed and your "
          ∷ chars "files are safe."
          ∷ []),
    )

-- What the lock screen's own actions leave alone.
pub record SameLock (s after : LockScreen) : Type 0 where
  pub same_active : is_active after ≡ is_active s
  pub same_started : after.lock_started ≡ s.lock_started
  pub same_manager : after.task_manager_disabled ≡ s.task_manager_disabled
  pub same_override : after.remote_unlock_override_at ≡ s.remote_unlock_override_at
  pub same_remote : after.remote_locked ≡ s.remote_locked

pub same_lock : (s : LockScreen) → SameLock s s
same_lock s = record {
  same_active = refl;
  same_started = refl;
  same_manager = refl;
  same_override = refl;
  same_remote = refl;
}

pub SameLock-trans : {a b c : LockScreen} → SameLock a b → SameLock b c → SameLock a c
SameLock-trans f g = record {
  same_active = g.same_active ∙ f.same_active;
  same_started = g.same_started ∙ f.same_started;
  same_manager = g.same_manager ∙ f.same_manager;
  same_override = g.same_override ∙ f.same_override;
  same_remote = g.same_remote ∙ f.same_remote;
}

pub recovery_refused-SameLock :
    (now : Instant) (s : LockScreen) → SameLock s (recovery_refused now s)
unfolding recovery_refused is_active
recovery_refused-SameLock now s = record {
  same_active = ground arith;
  same_started = ground arith;
  same_manager = ground arith;
  same_override = ground arith;
  same_remote = ground arith;
}

submit_token-SameLock :
    (j : Json RecoveryRequest) (io : MailboxIo) (now : Instant) (request : RecoveryRequest)
    (s : LockScreen) (mailbox : File)
    → SameLock s (submit_token j io now request s mailbox).0
unfolding submit_token is_active
submit_token-SameLock j io now request s mailbox =
    elim (Bool-cases (is_submittable request.token)) [
      | inr bad ↦ rw (bad, submit_token) (recovery_refused-SameLock now s)
      | inl good ↦ elim (Bool-cases (submit j io request mailbox).0) [
        | inl sent ↦
            rw (good, sent, submit_token)
              (record {
                same_active = refl;
                same_started = refl;
                same_manager = refl;
                same_override = refl;
                same_remote = refl;
              })
        | inr lost ↦
            rw (good, lost, submit_token)
              (record {
                same_active = refl;
                same_started = refl;
                same_manager = refl;
                same_override = refl;
                same_remote = refl;
              })
      ]
    ]

try_recovery_unlock-SameLock :
    (j : Json RecoveryRequest) (io : MailboxIo) (now : Instant) (id : Uuid) (s : LockScreen)
    (mailbox : File)
    → SameLock s (try_recovery_unlock j io now id s mailbox).0
unfolding try_recovery_unlock is_active
try_recovery_unlock-SameLock j io now id s mailbox = elim (Option-cases s.pending_recovery) [
  | inr (p, e) ↦
      let same : try_recovery_unlock j io now id s mailbox ≡ (s, mailbox) =
        simp (e, try_recovery_unlock) in
      rw same (same_lock s)
  | inl e ↦ elim (Bool-cases (is_waiting now s.unlock_locked_until)) [
    | inl wait ↦
        let same : try_recovery_unlock j io now id s mailbox
            ≡ (record s { status = wait_text now s.unlock_locked_until }, mailbox) =
          simp (e, wait, try_recovery_unlock) in
        rw same (record {
          same_active = refl;
          same_started = refl;
          same_manager = refl;
          same_override = refl;
          same_remote = refl;
        })
    | inr go ↦
        let same : try_recovery_unlock j io now id s mailbox
            ≡ submit_token j io now (record { request_id = id; token = trim s.recovery_input }) s
                mailbox =
          simp (e, go, try_recovery_unlock) in
        rw same (submit_token-SameLock j io now _ s mailbox)
  ]
]

lock_input-SameLock :
    (j : Json RecoveryRequest) (input : LockInput) (r : LockScreen × File)
    → SameLock r.0 (lock_input j input r).0
unfolding lock_input is_active
lock_input-SameLock j (press c) (s, mailbox) = elim (Bool-cases (ltb (len s.recovery_input) 256)) [
  | inl room ↦
      rw (room, lock_input)
        (record {
          same_active = refl;
          same_started = refl;
          same_manager = refl;
          same_override = refl;
          same_remote = refl;
        })
  | inr full ↦ rw (full, lock_input) (same_lock s)
]
lock_input-SameLock j backspace (s, mailbox) = record {
  same_active = refl;
  same_started = refl;
  same_manager = refl;
  same_override = refl;
  same_remote = refl;
}
lock_input-SameLock j clear_input (s, mailbox) = record {
  same_active = refl;
  same_started = refl;
  same_manager = refl;
  same_override = refl;
  same_remote = refl;
}
lock_input-SameLock j (edited value) (s, mailbox) = record {
  same_active = refl;
  same_started = refl;
  same_manager = refl;
  same_override = refl;
  same_remote = refl;
}
lock_input-SameLock j (unlock_clicked io now id) (s, mailbox) =
    try_recovery_unlock-SameLock j io now id s mailbox

lock_inputs-SameLock :
    (j : Json RecoveryRequest) (inputs : List LockInput) (r : LockScreen × File)
    → SameLock r.0 (lock_inputs j inputs r).0
unfolding lock_inputs
lock_inputs-SameLock j [] r = same_lock r.0
lock_inputs-SameLock j (i ∷ inputs) r =
    SameLock-trans (lock_input-SameLock j i r) (lock_inputs-SameLock j inputs (lock_input j i r))

-- Nothing that the user does on the lock screen takes it away, or enables the Task Manager.
pub render_blue_screen-SameLock :
    (j : Json RecoveryRequest) (inputs : List LockInput) (focused : Bool) (r : LockScreen × File)
    → SameLock r.0 (render_blue_screen j inputs focused r).0
unfolding render_blue_screen is_active
render_blue_screen-SameLock j inputs focused r =
    let same = lock_inputs-SameLock j inputs r in
    record {
      same_active = same.same_active;
      same_started = same.same_started;
      same_manager = same.same_manager;
      same_override = same.same_override;
      same_remote = same.same_remote;
    }
