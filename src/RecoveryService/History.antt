-- ===== src/RecoveryService/History.antt =====
-- The state file over a history of calls: `provision` and `process` in any order, with any inputs,
-- failures, mailbox contents and clock readings.
use desktop_mdm.Prelude.{
  ℕ, ◌≤◌, ◌≡◌, ◌≢◌, refl, sym, ap, ◌∙◌, inl, inr, true, false, Option, some, List, [], ◌∷◌, arith,
  subst,
}
use desktop_mdm.Prelude.Result.{ok, Result-cases}
use desktop_mdm.Text.{Text}
use desktop_mdm.Extern.{Ed25519, Base64, IsBase64, Json, IsJson}
use desktop_mdm.Recovery.Token.{Uuid, UnlockToken}
use desktop_mdm.Recovery.Verify.{Time, FromTimestamp, verify_unlock}
use desktop_mdm.Recovery.Accepted.{verify_unlock-accepted, verify_unlock_once}
use desktop_mdm.StateStore.{File, missing, unreadable, content, WriteIo, LockIo, lock}
use desktop_mdm.RecoveryService.{
  RecoveryRequest, RecoveryReceipt, RecoveryState, provision, process, kept_counter, save,
  validate_public_key, lift_store,
}
use desktop_mdm.RecoveryService.Answers.{
  receipt_for, decoded, Answer, Answered, process-Answered, save-decoded,
}

pub data Call : Type 0 where
  provisions : LockIo → WriteIo → Text → Call
  processes : LockIo → WriteIo → Uuid → Time → File → Call

-- The file holds a state with a counter of at least `c`.
abbrev pub AtLeast : Json RecoveryState → ℕ → File → Type 0
AtLeast j c file = (s : RecoveryState) × (decoded j file ≡ some s) × (c ≤ s.counter)

module _ (e : Ed25519) (b : Base64) (f : FromTimestamp) (jr : Json RecoveryRequest)
    (j : Json RecoveryState) where
  unfoldable pub step : File → Call → File
  step file (provisions guard io key_hex) = (provision e j guard io key_hex file).1
  step file (processes guard io device now mailbox) =
      (process e b f jr j guard io device now mailbox file).1

  unfoldable pub run : File → List Call → File
  run file [] = file
  run file (c ∷ cs) = run (step file c) cs

  kept_counter-decoded :
      (file : File) (s : RecoveryState)
      → decoded j file ≡ some s
      → kept_counter j file ≡ ok s.counter
  unfolding kept_counter
  kept_counter-decoded missing s h = cc
  kept_counter-decoded unreadable s h = cc
  kept_counter-decoded (content bytes) s h = rw (h, kept_counter) refl

module _ (e : Ed25519) (b : Base64) (lb : IsBase64 b) (f : FromTimestamp)
    (jr : Json RecoveryRequest) (j : Json RecoveryState) (law : IsJson j) where
  save-AtLeast :
      (io : WriteIo) (file : File) (s : RecoveryState) (c : ℕ)
      → AtLeast j c file
      → c ≤ s.counter
      → AtLeast j c (save j io file s).1
  save-AtLeast io file s c h le = elim (save-decoded j law io file s) [
    | inl same ↦ subst (AtLeast j c) (sym same) h
    | inr new ↦ (s, new, le)
  ]

  provision-AtLeast :
      (guard : LockIo) (io : WriteIo) (key_hex : Text) (file : File) (c : ℕ)
      → AtLeast j c file
      → AtLeast j c (provision e j guard io key_hex file).1
  unfolding provision
  provision-AtLeast guard io key_hex file c h =
      elim (Result-cases (validate_public_key e key_hex)) [
        | inr (x, e1) ↦ rw (e1, provision) h
        | inl (normalized, e1) ↦ elim (Result-cases (lift_store (lock guard))) [
          | inr (x, e2) ↦ rw (e1, e2, provision) h
          | inl (u, e2) ↦
              rw (e1, e2, kept_counter-decoded e b f jr j file h.0 h.1, provision)
                (save-AtLeast io file _ c h h.2)
        ]
      ]

  Answer-grows :
      (device : Uuid) (now : Time) (request : RecoveryRequest) (old new : RecoveryState)
      → Answer e b f device now request old new
      → old.counter ≤ new.counter
  Answer-grows device now request old new a = elim a.outcome [
    | inl (t, v, n) ↦
        let fresh =
          (verify_unlock-accepted e b lb f request.token a.key device now old.counter t v).2 in
        omega (arith, fresh.newer, ap (λ (s : RecoveryState). s.counter) n)
    | inr (x, v, n) ↦ omega (arith, ap (λ (s : RecoveryState). s.counter) n)
  ]

  same_state : (s t : RecoveryState) (o : Option RecoveryState) → o ≡ some s → o ≡ some t → s ≡ t
  same_state s t o h k = cc

  process-AtLeast :
      (guard : LockIo) (io : WriteIo) (device : Uuid) (now : Time) (mailbox file : File) (c : ℕ)
      → AtLeast j c file
      → AtLeast j c (process e b f jr j guard io device now mailbox file).1
  process-AtLeast guard io device now mailbox file c h =
      elim (process-Answered e b f jr j law guard io device now mailbox file) [
        | inl same ↦ subst (AtLeast j c) (sym same) h
        | inr a ↦ (
          a.new,
          a.after_new,
          omega (
            arith,
            h.2,
            ap (λ (s : RecoveryState). s.counter)
                (same_state h.0 a.old (decoded j file) h.1 a.before_old),
            Answer-grows device now a.request a.old a.new a.answer,
          ),
        )
      ]

  step-AtLeast :
      (file : File) (call : Call) (c : ℕ)
      → AtLeast j c file
      → AtLeast j c (step e b f jr j file call)
  unfolding step
  step-AtLeast file (provisions guard io key_hex) c h = provision-AtLeast guard io key_hex file c h
  step-AtLeast file (processes guard io device now mailbox) c h =
      process-AtLeast guard io device now mailbox file c h

  -- Whatever is called in whatever order, a state file that holds a counter goes on holding a state,
  -- and its counter never falls: neither a refused token, nor a key rotation, nor a failed write
  -- resets it.
  pub run-AtLeast :
      (file : File) (cs : List Call) (c : ℕ)
      → AtLeast j c file
      → AtLeast j c (run e b f jr j file cs)
  unfolding run
  run-AtLeast file [] c h = h
  run-AtLeast file (call ∷ cs) c h =
      run-AtLeast (step e b f jr j file call) cs c (step-AtLeast file call c h)

  accepted_token :
      (device : Uuid) (now : Time) (request : RecoveryRequest) (old new : RecoveryState)
      (receipt : RecoveryReceipt)
      → Answer e b f device now request old new
      → new.receipt ≡ some receipt
      → receipt.accepted ≡ true
      → (key : e.VerifyingKey) × (t : UnlockToken) × (verify_unlock e b f request.token key device
            now old.counter
          ≡ ok t)
        × (t.counter ≤ new.counter)
  accepted_token device now request old new receipt a r acc = elim a.outcome [
    | inl (t, v, n) ↦ (a.key, t, v, omega (arith, ap (λ (s : RecoveryState). s.counter) n))
    | inr (x, v, n) ↦
        absurd (refused receipt request now (sym r ∙ ap (λ (s : RecoveryState). s.receipt) n) acc)
  ]
    where
      refused :
          (r : RecoveryReceipt) (q : RecoveryRequest) (now : Time)
          → ◌≡◌ {A = Option RecoveryReceipt} (some r) (some (receipt_for q false now))
          → r.accepted ≡ true
          → ⊥
      refused r q now h k = ground arith

  -- Two answers of `process`, with any calls between them, do not both accept the same token.
  answers_once :
      (device device' : Uuid) (now now' : Time) (mailbox mailbox' before after after' : File)
      (cs : List Call) (first : Answered e b f jr j device now mailbox before after)
      (again : Answered e b f jr j device' now' mailbox' (run e b f jr j after cs) after')
      (receipt receipt' : RecoveryReceipt)
      → first.new.receipt ≡ some receipt
      → receipt.accepted ≡ true
      → again.request.token ≡ first.request.token
      → again.new.receipt ≡ some receipt'
      → receipt'.accepted ≢ true
  answers_once device device' now now' mailbox mailbox' before after after' cs first again receipt
        receipt' r acc same r' acc' =
      let (key, t, v, le) =
        accepted_token device now first.request first.old first.new receipt first.answer r acc in
      let (key', t', v', le') =
        accepted_token device' now' again.request again.old again.new receipt' again.answer r'
          acc' in
      let (s, d, grown) = run-AtLeast after cs t.counter (first.new, first.after_new, le) in
      verify_unlock_once e b lb f f first.request.token key key' device device' now
        first.old.counter now' again.old.counter t t' v
        (omega (
          arith,
          ap (λ (x : RecoveryState). x.counter)
              (same_state s again.old (decoded j (run e b f jr j after cs)) d again.before_old),
        ))
        (rw (← same) v')

  -- A call that changed the state file answered the request that the mailbox holds, and the file holds
  -- its receipt.
  answer_of :
      (guard : LockIo) (io : WriteIo) (device : Uuid) (now : Time) (bytes : List ℕ) (file : File)
      (request : RecoveryRequest) (state : RecoveryState) (receipt : RecoveryReceipt)
      → jr.from_slice bytes ≡ some request
      → (process e b f jr j guard io device now (content bytes) file).1 ≢ file
      → decoded j (process e b f jr j guard io device now (content bytes) file).1 ≡ some state
      → state.receipt ≡ some receipt
      → (a : Answered e b f jr j device now
          (content bytes)
          file
          (process e b f jr j guard io device now (content bytes) file).1)
        × (a.request ≡ request)
        × (a.new.receipt ≡ some receipt)
  answer_of guard io device now bytes file request state receipt asked moved held r =
      elim (process-Answered e b f jr j law guard io device now (content bytes) file) [
        | inl same ↦ absurd (moved same)
        | inr a ↦ (
          a,
          same_request a.request request (jr.from_slice bytes)
              (ap jr.from_slice (same_bytes bytes a.bytes a.mailbox_bytes) ∙ a.requested) asked,
          ap (λ (x : RecoveryState). x.receipt) (same_state a.new state _ a.after_new held) ∙ r,
        )
      ]
    where
      same_request :
          (q q' : RecoveryRequest) (o : Option RecoveryRequest) → o ≡ some q → o ≡ some q' → q ≡ q'
      same_request q q' o h k = cc

      same_bytes : (x y : List ℕ) → content x ≡ content y → x ≡ y
      same_bytes x y h = cc

  -- A token opens the device once. Let a call of `process` change the state file, in answer to the
  -- request in its mailbox, to a state with an accepting receipt, and let any history of calls
  -- follow. A later call of `process` that changes the state file in answer to a request with the
  -- same token publishes no accepting receipt, whatever key is provisioned by then.
  pub token_opens_once :
      (guard guard' : LockIo) (io io' : WriteIo) (device device' : Uuid) (now now' : Time)
      (bytes bytes' : List ℕ) (request request' : RecoveryRequest) (before : File) (cs : List Call)
      (state state' : RecoveryState) (receipt receipt' : RecoveryReceipt)
      → let after = (process e b f jr j guard io device now (content bytes) before).1 in
        let later = run e b f jr j after cs in
        let after' = (process e b f jr j guard' io' device' now' (content bytes') later).1 in
        jr.from_slice bytes ≡ some request
        → after ≢ before
        → decoded j after ≡ some state
        → state.receipt ≡ some receipt
        → receipt.accepted ≡ true
        → jr.from_slice bytes' ≡ some request'
        → request'.token ≡ request.token
        → after' ≢ later
        → decoded j after' ≡ some state'
        → state'.receipt ≡ some receipt'
        → receipt'.accepted ≢ true
  token_opens_once guard guard' io io' device device' now now' bytes bytes' request request' before
        cs state state' receipt receipt' asked moved held r acc asked' same moved' held' r' =
      let after = (process e b f jr j guard io device now (content bytes) before).1 in
      let later = run e b f jr j after cs in
      let (first, q, n) =
        answer_of guard io device now bytes before request state receipt asked moved held r in
      let (again, q', n') =
        answer_of guard' io' device' now' bytes' later request' state' receipt' asked' moved' held'
          r' in
      answers_once device device' now now' (content bytes) (content bytes') before after
        (process e b f jr j guard' io' device' now' (content bytes') later).1 cs first again receipt
        receipt' n acc
        (ap (λ (x : RecoveryRequest). x.token) q'
          ∙ same
          ∙ sym (ap (λ (x : RecoveryRequest). x.token) q))
        n'
