-- ===== src/LockScreen/Release.antt =====
-- When the lock screen goes away.
use desktop_mdm.Prelude.{
  ◌≡◌, ◌<◌, refl, true, false, ◌&&◌, Option, none, some, arith, ltb, ◌==◌, ℕ_eq, List_eq, ==_iff,
  Bool-cases, Option-cases, inl, inr,
}
use desktop_mdm.Recovery.Token.{Uuid}
use desktop_mdm.Recovery.Verify.{Time}
use desktop_mdm.Extern.{Json}
use desktop_mdm.StateStore.{File}
use desktop_mdm.StateStore.Stored.{stored}
use desktop_mdm.RecoveryService.{RecoveryReceipt, RecoveryState}
use desktop_mdm.LockScreen.{
  LockScreen, Instant, is_active, current_receipt, poll_recovery_unlock, unlock_released,
  recovery_refused, end_blue_screen, [],
}

-- The state file holds an accepting receipt for the request, not expired at `utc_now`.
pub record IsReleased (j : Json RecoveryState) (file : File) (id : Uuid) (utc_now : Time)
    : Type 0 where
  pub state : RecoveryState
  pub holds : stored j file ≡ some state
  pub receipt : RecoveryReceipt
  pub given : state.receipt ≡ some receipt
  pub same_request : receipt.request_id ≡ id
  pub current : utc_now < receipt.expires_at
  pub accepted : receipt.accepted ≡ true

current_receipt-some :
    (j : Json RecoveryState) (file : File) (id : Uuid) (utc_now : Time) (receipt : RecoveryReceipt)
    → current_receipt j file id utc_now ≡ some receipt
    → receipt.accepted ≡ true
    → IsReleased j file id utc_now
unfolding current_receipt
current_receipt-some j file id utc_now receipt h accepted = elim (Option-cases (stored j file)) [
  | inl e1 ↦ cc (rw (e1, current_receipt) at h)
  | inr (state, e1) ↦ elim (Option-cases state.receipt) [
    | inl e2 ↦ cc (rw (e1, e2, current_receipt) at h)
    | inr (r, e2) ↦ elim (Bool-cases (r.request_id == id && ltb utc_now r.expires_at)) [
      | inr stale ↦ cc (rw (e1, e2, stale, current_receipt) at h)
      | inl good ↦
          let same : r ≡ receipt = some_same r receipt (rw (e1, e2, good, current_receipt) at h) in
          let id_iff = ==_iff r.request_id id in
          record {
            state = state;
            holds = e1;
            receipt = r;
            given = e2;
            same_request = ground arith;
            current = ground arith;
            accepted = rw same accepted;
          }
    ]
  ]
]
  where
    some_same : (a b : RecoveryReceipt) → ◌≡◌ {A = Option RecoveryReceipt} (some a) (some b) → a ≡ b
    some_same a b h = cc

pub recovery_refused-is_active :
    (now : Instant) (s : LockScreen) → is_active (recovery_refused now s) ≡ is_active s
unfolding recovery_refused is_active
recovery_refused-is_active now s = ground arith

-- While a lock screen shows, polling takes it away only where the state file holds an accepting
-- receipt for the pending request that has not expired.
pub poll_recovery_unlock-IsReleased :
    (j : Json RecoveryState) (now : Instant) (utc_now : Time) (checked_at : Option Time)
    (file : File) (s : LockScreen)
    → is_active s ≡ true
    → is_active (poll_recovery_unlock j now utc_now checked_at file s) ≡ false
    → (id : Uuid) × (started : Instant) × (s.pending_recovery ≡ some (id, started))
      × IsReleased j file id utc_now
unfolding poll_recovery_unlock is_active
poll_recovery_unlock-IsReleased j now utc_now checked_at file s shown gone =
    let after = is_active (poll_recovery_unlock j now utc_now checked_at file s) in
    elim (Option-cases s.pending_recovery) [
      | inl e1 ↦
          let same : after ≡ is_active s = rw (e1, poll_recovery_unlock) refl in
          cc (same, gone, shown)
      | inr ((id, started), e1) ↦ elim (Option-cases (current_receipt j file id utc_now)) [
        | inl e2 ↦
            let same : after ≡ is_active s = rw (e1, e2, poll_recovery_unlock) (ground arith) in
            cc (same, gone, shown)
        | inr (receipt, e2) ↦ elim (Bool-cases receipt.accepted) [
          | inl good ↦ (id, started, e1, current_receipt-some j file id utc_now receipt e2 good)
          | inr bad ↦
              let same : after ≡ is_active s =
                rw (e1, e2, bad, poll_recovery_unlock)
                  (recovery_refused-is_active now (record s { pending_recovery = none })) in
              cc (same, gone, shown)
        ]
      ]
    ]

released_receipt :
    (j : Json RecoveryState) (file : File) (id : Uuid) (utc_now : Time)
    (v : IsReleased j file id utc_now)
    → current_receipt j file id utc_now ≡ some v.receipt
unfolding current_receipt
released_receipt j file id utc_now v =
    let good : (v.receipt.request_id == id && ltb utc_now v.receipt.expires_at) ≡ true =
      ground (arith, v.current, (==_iff v.receipt.request_id id).1 v.same_request) in
    rw (v.holds, v.given, good, current_receipt) refl

-- An accepting receipt for the pending request, not expired, does take every lock screen away.
pub poll_recovery_unlock-releases :
    (j : Json RecoveryState) (now : Instant) (utc_now : Time) (checked_at : Option Time)
    (file : File) (s : LockScreen) (id : Uuid) (started : Instant)
    → s.pending_recovery ≡ some (id, started)
    → IsReleased j file id utc_now
    → let after = poll_recovery_unlock j now utc_now checked_at file s in
      (is_active after ≡ false)
      × (after.task_manager_disabled ≡ false)
      × (after.pending_recovery ≡ none)
      × (after.recovery_input ≡ [])
      × (after.remote_unlock_override_at ≡ checked_at)
unfolding poll_recovery_unlock is_active unlock_released end_blue_screen
poll_recovery_unlock-releases j now utc_now checked_at file s id started pending v =
    let found : current_receipt j file id utc_now ≡ some v.receipt =
      released_receipt j file id utc_now v in
    rw (pending, found, v.accepted, poll_recovery_unlock) (refl, refl, refl, refl, refl)
