-- ===== src/LockScreen.antt =====
-- apps/windows-agent/src/ui/lock.rs: the state of the lock screen, the submission of recovery
-- tokens, and the release; and `sync_remote_lock_state` of apps/windows-agent/src/ui/app.rs.
pub mod Release
pub mod Submit
pub mod Entry
pub mod Consistent
use desktop_mdm.Prelude.{
  ℕ, ◌+◌, ◌-◌, ◌*◌, ◌/◌, ◌^◌, min, ◌≡◌, Bool, true, false, not, ◌&&◌, ◌||◌, Option, none, some,
  List, [], ◌∷◌, ◌++◌, leb, ltb, if◌then◌else◌, ◌==◌, ℕ_eq, List_eq, Option_eq,
}
use desktop_mdm.Text.{Text, chars, len, starts_with}
use desktop_mdm.Text.Trim.{trim}
use desktop_mdm.Text.Ascii.{eq_ignore_ascii_case}
use desktop_mdm.Text.Number.{to_string}
use desktop_mdm.Recovery.Token.{Uuid, token_prefix}
use desktop_mdm.Recovery.Verify.{Time}
use desktop_mdm.Extern.{Json}
use desktop_mdm.StateStore.{File, content}
use desktop_mdm.StateStore.Stored.{stored}
use desktop_mdm.RecoveryService.{RecoveryRequest, RecoveryReceipt, RecoveryState}
use desktop_mdm.Api.{PersistedRemoteState, is_locked}

-- A reading of the monotonic clock, in nanoseconds.
abbrev pub Instant : Type 0
Instant = ℕ

abbrev pub seconds : ℕ → ℕ
seconds n = n * 1_000_000_000

-- The fields of `DeviceApp` that the lock uses, and the window and the policy that they drive. A
-- session of the simulated blue screen is whether it was dismissed.
pub record LockScreen : Type 0 where
  pub bluescreen : Option Bool
  pub qr_shown : Bool
  pub consent : Bool
  pub recovery_input : Text
  pub recovery_focused : Bool
  pub enforced : Bool
  pub manual_lock : Bool
  pub lock_started : Option Instant
  pub remote_locked : Bool
  pub remote_lock_reason : Text
  pub last_remote_refresh : Instant
  pub remote_unlock_override_at : Option Time
  pub pending_recovery : Option (Uuid × Instant)
  pub unlock_fail_count : ℕ
  pub unlock_locked_until : Option Instant
  pub status : Text
  pub task_manager_disabled : Bool
  pub on_top : Bool
  pub fullscreen : Bool

unfoldable pub end_blue_screen : LockScreen → LockScreen
end_blue_screen s = record s {
  bluescreen = none;
  qr_shown = false;
  consent = false;
  recovery_input = [];
  recovery_focused = false;
  enforced = false;
  manual_lock = false;
  lock_started = none;
  task_manager_disabled = false;
  status = chars "Payment-restriction mode ended. The checkbox is reset.";
  on_top = false;
  fullscreen = false;
}

unfoldable pub dismissed : Option Bool → Bool
dismissed none = false
dismissed (some d) = d

unfoldable pub has_session : Option Bool → Bool
has_session none = false
has_session (some d) = true

-- What `blue_screen_active` returns of the state that it leaves.
unfoldable pub is_active : LockScreen → Bool
unfolding has_session
is_active s = has_session s.bluescreen || s.enforced || s.manual_lock || s.remote_locked

unfoldable pub blue_screen_active : LockScreen → Bool × LockScreen
unfolding dismissed is_active end_blue_screen
blue_screen_active s =
    let after = if not s.enforced && dismissed s.bluescreen then end_blue_screen s else s in
    (is_active after, after)

-- The part of `tick_locked` before the screen is drawn.
unfoldable pub tick_locked : Instant → Bool → Bool → LockScreen → LockScreen
tick_locked now focused close_requested s =
    let entered = elim s.lock_started as (λ _. LockScreen) [
      | some started ↦ s
      | none ↦ record s {
        lock_started = some now;
        fullscreen = true;
        on_top = true;
        task_manager_disabled = true;
      }
    ] in
    let kept = if focused then entered else record entered { on_top = true; fullscreen = true } in
    if close_requested
    then record kept { status = chars "Close is disabled while the device is restricted." }
    else kept

-- `saturating_add(1)` on a u32.
unfoldable pub next_count : ℕ → ℕ
next_count n = min (n + 1) (2 ^ 32 - 1)

-- `5u64 << (count - 5).min(5)`, in seconds.
unfoldable pub backoff : ℕ → ℕ
backoff count = 5 * 2 ^ min (count - 5) 5

unfoldable pub recovery_refused : Instant → LockScreen → LockScreen
unfolding next_count backoff
recovery_refused now s =
    let count = next_count s.unlock_fail_count in
    if leb 5 count
    then record s {
      unlock_fail_count = count;
      unlock_locked_until = some (now + seconds (backoff count));
      status = chars "Recovery token refused. Wait " ++ (to_string (backoff count) ++ chars "s.");
    }
    else record s { unlock_fail_count = count; status = chars "Recovery token refused." }

-- `checked_at` is that of the remote state, where it reads.
unfoldable pub unlock_released : Option Time → Text → LockScreen → LockScreen
unfolding end_blue_screen
unlock_released checked_at message s =
    record (end_blue_screen (record s {
      unlock_fail_count = 0;
      unlock_locked_until = none;
      remote_unlock_override_at = checked_at;
      remote_locked = false;
    })) { status = message }

-- The outcome of opening the mailbox, writing to it and flushing it; a write that fails leaves
-- `partial`.
pub record MailboxIo : Type 0 where
  pub directory : Bool
  pub opened : Bool
  pub written : Bool
  pub partial : List ℕ
  pub synced : Bool

-- Opening truncates the file.
unfoldable pub submit : Json RecoveryRequest → MailboxIo → RecoveryRequest → File → Bool × File
submit j io request mailbox =
    if io.directory && io.opened
    then elim (j.to_vec request) [
      | none ↦ (false, content [])
      | some bytes ↦ if io.written then (io.synced, content bytes) else (false, content io.partial)
    ]
    else (false, mailbox)

unfoldable pub is_submittable : Text → Bool
is_submittable token = not (not (starts_with token_prefix token) || ltb 256 (len token))

unfoldable pub is_waiting : Instant → Option Instant → Bool
is_waiting now none = false
is_waiting now (some until) = leb now until

unfoldable pub wait_text : Instant → Option Instant → Text
wait_text now none = []
wait_text now (some until) =
    chars "Too many attempts. Wait " ++ (to_string ((until - now) / seconds 1 + 1) ++ chars "s.")

-- A token that may be one is submitted; any other is refused.
unfoldable pub submit_token :
    Json RecoveryRequest
    → MailboxIo
    → Instant
    → RecoveryRequest
    → LockScreen
    → File
    → LockScreen × File
unfolding recovery_refused submit is_submittable
submit_token j io now request s mailbox =
    let r = submit j io request mailbox in
    if is_submittable request.token
    then (if r.0
        then (
          record s {
            pending_recovery = some (request.request_id, now);
            recovery_input = [];
            status = chars "Verifying recovery token with the local service…";
          },
          r.1,
        )
        else (
          record s {
            status =
                chars
                  "Recovery service unavailable. Sign in with the administrator recovery account.";
          },
          r.1,
        ))
    else (recovery_refused now s, mailbox)

-- `try_recovery_unlock`, which always returns false.
unfoldable pub try_recovery_unlock :
    Json RecoveryRequest → MailboxIo → Instant → Uuid → LockScreen → File → LockScreen × File
unfolding submit_token is_waiting wait_text
try_recovery_unlock j io now id s mailbox = elim s.pending_recovery as (λ _. LockScreen × File) [
  | some p ↦ (s, mailbox)
  | none ↦
      if is_waiting now s.unlock_locked_until
      then (record s { status = wait_text now s.unlock_locked_until }, mailbox)
      else submit_token j io now (record { request_id = id; token = trim s.recovery_input }) s
          mailbox
]

-- The receipt in the state file that answers the pending request and has not expired.
unfoldable pub current_receipt : Json RecoveryState → File → Uuid → Time → Option RecoveryReceipt
current_receipt j file id utc_now = elim (stored j file) as (λ _. Option RecoveryReceipt) [
  | none ↦ none
  | some state ↦ elim state.receipt as (λ _. Option RecoveryReceipt) [
    | none ↦ none
    | some receipt ↦
        if receipt.request_id == id && ltb utc_now receipt.expires_at then some receipt else none
  ]
]

-- `now` and `utc_now` are the two clocks, and `checked_at` is that of the remote state.
unfoldable pub poll_recovery_unlock :
    Json RecoveryState → Instant → Time → Option Time → File → LockScreen → LockScreen
unfolding unlock_released recovery_refused
poll_recovery_unlock j now utc_now checked_at file s =
    elim s.pending_recovery as (λ _. LockScreen) [
      | none ↦ s
      | some (id, started) ↦ elim (current_receipt j file id utc_now) as (λ _. LockScreen) [
        | some receipt ↦
            let answered : LockScreen = record s { pending_recovery = none } in
            if receipt.accepted
            then unlock_released checked_at (chars "Device unlocked with a valid owner token.")
                answered
            else recovery_refused now answered
        | none ↦
            if ltb (seconds 30) (now - started)
            then record s {
              pending_recovery = none;
              status =
                  chars "Recovery service did not respond. Use the administrator recovery account.";
            }
            else s
      ]
    ]

unfoldable pub is_theft_reason : Text → Bool
is_theft_reason reason = eq_ignore_ascii_case (trim reason) (chars "THEFT")

-- `sync_remote_lock_state`; `remote` is the remote state, where it reads.
unfoldable pub sync_remote_lock_state :
    Instant → Option PersistedRemoteState → LockScreen → LockScreen
unfolding end_blue_screen
sync_remote_lock_state now remote s =
    if ltb (now - s.last_remote_refresh) (seconds 2) then s else elim remote as (λ _. LockScreen) [
      | none ↦ record s { last_remote_refresh = now }
      | some r ↦
          let is = is_locked r.lock_state.state in
          let read : LockScreen = record s {
            last_remote_refresh = now;
            remote_lock_reason = r.lock_state.reason;
          } in
          if is && s.remote_unlock_override_at == some r.checked_at
          then record read { remote_locked = false }
          else if s.remote_locked && not is
          then record (end_blue_screen
              (record read { remote_unlock_override_at = none; remote_locked = false })) {
                status = chars "The administrator released this device.";
              }
          else if not s.remote_locked && is
          then record read {
            remote_unlock_override_at = none;
            remote_locked = true;
            status = chars "The administrator restricted this device.";
          }
          else record read { remote_unlock_override_at = none }
    ]
