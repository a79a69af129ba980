-- ===== src/LockScreen/Submit.antt =====
-- What a submission writes, and the pause after refused ones.
use desktop_mdm.Prelude.{
  [], ◌∷◌, All, List, Option, ℕ, zero, suc, ◌+◌, ◌-◌, ◌^◌, min, ◌≡◌, ◌≤◌, ◌⊎◌, inl, inr, refl, true,
  false, none, arith, leb, Bool-cases, Option-cases, subst, sym, ltb, All, ◌∙◌,
}
use desktop_mdm.Text.{len, starts_with}
use desktop_mdm.Text.Trim.{trim}
use desktop_mdm.Recovery.Token.{Uuid, token_prefix}
use desktop_mdm.Extern.{Json}
use desktop_mdm.StateStore.{File}
use desktop_mdm.RecoveryService.{RecoveryRequest}
use desktop_mdm.LockScreen.{
  LockScreen, Instant, seconds, MailboxIo, backoff, next_count, recovery_refused, is_active,
  is_submittable, is_waiting, submit_token, try_recovery_unlock, wait_text, Option, List, ◌∷◌,
}
use desktop_mdm.LockScreen.Entry.{
  LockInput, press, backspace, clear_input, edited, unlock_clicked, lock_input, lock_inputs,
}
use desktop_mdm.LockScreen.Release.{recovery_refused-is_active}

-- A submission that was allowed.
pub record IsAllowed (now : Instant) (s : LockScreen) : Type 0 where
  pub idle : s.pending_recovery ≡ none
  pub pause_over : is_waiting now s.unlock_locked_until ≡ false
  pub prefixed : starts_with token_prefix (trim s.recovery_input) ≡ true
  pub short : len (trim s.recovery_input) ≤ 256

submit_token-kept :
    (j : Json RecoveryRequest) (io : MailboxIo) (now : Instant) (request : RecoveryRequest)
    (s : LockScreen) (mailbox : File)
    → let r = submit_token j io now request s mailbox in
      (is_active r.0 ≡ is_active s)
      × ((r.1 ≡ mailbox)
          ⊎ ((starts_with token_prefix request.token ≡ true) × (len request.token ≤ 256)))
unfolding submit_token is_submittable is_active
submit_token-kept j io now request s mailbox = elim (Bool-cases (is_submittable request.token)) [
  | inr bad ↦ rw (bad, submit_token) (recovery_refused-is_active now s, inl refl)
  | inl good ↦ rw (good, submit_token) (ground arith, inr (ground arith, ground arith))
]

-- Submitting a token never takes a lock screen away, and it writes to the mailbox only while no
-- request is pending, no pause is running, and the token has the prefix and at most 256 bytes.
pub try_recovery_unlock-IsAllowed :
    (j : Json RecoveryRequest) (io : MailboxIo) (now : Instant) (id : Uuid) (s : LockScreen)
    (mailbox : File)
    → let r = try_recovery_unlock j io now id s mailbox in
      (is_active r.0 ≡ is_active s) × ((r.1 ≡ mailbox) ⊎ IsAllowed now s)
unfolding try_recovery_unlock is_active
try_recovery_unlock-IsAllowed j io now id s mailbox =
    let call = try_recovery_unlock j io now id s mailbox in
    let Fine = λ (r : LockScreen × File).
      (is_active r.0 ≡ is_active s) × ((r.1 ≡ mailbox) ⊎ IsAllowed now s) in
    elim (Option-cases s.pending_recovery) [
      | inr (p, e1) ↦
          subst Fine (sym (the_call call (s, mailbox) (simp (e1, try_recovery_unlock))))
            (refl, inl refl)
      | inl e1 ↦ elim (Bool-cases (is_waiting now s.unlock_locked_until)) [
        | inl waiting ↦
            subst Fine
              (sym (
                the_call call (record s { status = wait_text now s.unlock_locked_until }, mailbox)
                  (simp (e1, waiting, try_recovery_unlock))))
              (refl, inl refl)
        | inr free ↦
            let request : RecoveryRequest = record {
              request_id = id;
              token = trim s.recovery_input;
            } in
            let (active, kept) = submit_token-kept j io now request s mailbox in
            subst Fine
              (sym (
                the_call call (submit_token j io now request s mailbox)
                  (simp (e1, free, try_recovery_unlock))))
              (
                active,
                elim kept [
                  | inl same ↦ inl same
                  | inr (prefixed, short) ↦
                      inr (record {
                        idle = e1;
                        pause_over = free;
                        prefixed = prefixed;
                        short = short;
                      })
                ],
              )
      ]
    ]
  where
    the_call : (a b : LockScreen × File) → a ≡ b → a ≡ b
    the_call a b e = e

-- The pause grows from 5 to 160 seconds.
power_bounds : (k : ℕ) → k ≤ 5 → (1 ≤ 2 ^ k) × (2 ^ k ≤ 32)
power_bounds zero h = omega arith
power_bounds (suc zero) h = omega arith
power_bounds (suc (suc zero)) h = omega arith
power_bounds (suc (suc (suc zero))) h = omega arith
power_bounds (suc (suc (suc (suc zero)))) h = omega arith
power_bounds (suc (suc (suc (suc (suc zero))))) h = omega arith
power_bounds (suc (suc (suc (suc (suc (suc k)))))) h = absurd (omega arith)

backoff_bounds : (count : ℕ) → (5 ≤ backoff count) × (backoff count ≤ 160)
unfolding backoff
backoff_bounds count = ground (arith, power_bounds (min (count - 5) 5) (omega arith))

refused_waits :
    (now now' : Instant) (s : LockScreen)
    → 4 ≤ s.unlock_fail_count
    → now' ≤ now + seconds 5
    → is_waiting now' (recovery_refused now s).unlock_locked_until ≡ true
unfolding recovery_refused is_waiting next_count
refused_waits now now' s many soon =
    let count = min (s.unlock_fail_count + 1) (2 ^ 32 - 1) in
    let five : leb 5 count ≡ true = ground arith in
    rw (five, recovery_refused) (ground (arith, backoff_bounds count))

-- The input is no submission after `limit`.
abbrev pub IsSoon : Instant → LockInput → Type 0
IsSoon limit (unlock_clicked io now id) = now ≤ limit
IsSoon limit _ = Unit

-- A pause goes on over an input within it, and the mailbox stays.
lock_input-paused :
    (j : Json RecoveryRequest) (i : LockInput) (limit : Instant) (s : LockScreen) (mailbox : File)
    (until : Option Instant)
    → s.unlock_locked_until ≡ until
    → ((now : Instant) → now ≤ limit → is_waiting now until ≡ true)
    → IsSoon limit i
    → let r = lock_input j i (s, mailbox) in (r.0.unlock_locked_until ≡ until) × (r.1 ≡ mailbox)
unfolding lock_input try_recovery_unlock wait_text
lock_input-paused j (press x) limit s mailbox until e waits soon =
    elim (Bool-cases (ltb (len s.recovery_input) 256)) [
      | inl room ↦ rw (room, lock_input) (e, refl)
      | inr full ↦ rw (full, lock_input) (e, refl)
    ]
lock_input-paused j backspace limit s mailbox until e waits soon = (e, refl)
lock_input-paused j clear_input limit s mailbox until e waits soon = (e, refl)
lock_input-paused j (edited value) limit s mailbox until e waits soon = (e, refl)
lock_input-paused j (unlock_clicked io now id) limit s mailbox until e waits soon =
    let waiting : is_waiting now s.unlock_locked_until ≡ true = rw e (waits now soon) in
    elim (Option-cases s.pending_recovery) [
      | inr (p, pending) ↦
          let same : try_recovery_unlock j io now id s mailbox ≡ (s, mailbox) =
            simp (pending, try_recovery_unlock) in
          rw same (e, refl)
      | inl idle ↦
          let same : try_recovery_unlock j io now id s mailbox
              ≡ (record s { status = wait_text now s.unlock_locked_until }, mailbox) =
            simp (idle, waiting, try_recovery_unlock) in
          rw same (e, refl)
    ]

lock_inputs-paused :
    (j : Json RecoveryRequest) (inputs : List LockInput) (limit : Instant) (r : LockScreen × File)
    (until : Option Instant)
    → r.0.unlock_locked_until ≡ until
    → ((now : Instant) → now ≤ limit → is_waiting now until ≡ true)
    → All (IsSoon limit) inputs
    → (lock_inputs j inputs r).1 ≡ r.1
unfolding lock_inputs
lock_inputs-paused j [] limit r until e waits soon = refl
lock_inputs-paused j (i ∷ inputs) limit (s, mailbox) until e waits soon =
    let (kept, same) = lock_input-paused j i limit s mailbox until e waits soon.0 in
    lock_inputs-paused j inputs limit (lock_input j i (s, mailbox)) until kept waits soon.1 ∙ same

-- After the fifth refusal in a row, and each one that follows, nothing that the user presses, edits
-- or submits on the lock screen in the next five seconds, in any order and number, writes to the
-- mailbox.
pub recovery_refused-pauses :
    (j : Json RecoveryRequest) (now : Instant) (s : LockScreen) (mailbox : File)
    (inputs : List LockInput)
    → 4 ≤ s.unlock_fail_count
    → All (IsSoon (now + seconds 5)) inputs
    → (lock_inputs j inputs (recovery_refused now s, mailbox)).1 ≡ mailbox
recovery_refused-pauses j now s mailbox inputs many soon =
    lock_inputs-paused j inputs (now + seconds 5) (recovery_refused now s, mailbox)
      (recovery_refused now s).unlock_locked_until refl
      (λ now' le. refused_waits now now' s many le) soon
