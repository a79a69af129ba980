-- ===== src/RecoveryService/Answers.antt =====
-- What one call of `process` does to the state file.
use desktop_mdm.Prelude.{
  length, take, length-take, take-all, ◌∙◌, subst, ℕ, ◌+◌, ◌≤◌, ◌≡◌, refl, sym, ap, ◌⊎◌, inl, inr,
  Bool, true, false, not, ◌&&◌, Option, none, some, List, arith, ltb, ℕ_eq, List_eq, Bool-cases,
  Option-cases,
}
use desktop_mdm.Prelude.Result.{Result, ok, err, Result-cases}
use desktop_mdm.Text.Ascii.{eq_ignore_ascii_case}
use desktop_mdm.Extern.{Ed25519, Base64, Json, IsJson}
use desktop_mdm.Recovery.Token.{Uuid, UnlockToken}
use desktop_mdm.Recovery.Verify.{Time, FromTimestamp, UnlockError, verify_unlock}
use desktop_mdm.Recovery.Key.{parse_public_key_hex}
use desktop_mdm.StateStore.{
  File, missing, unreadable, content, WriteIo, LockIo, lock, write_json_atomic,
}
use desktop_mdm.RecoveryService.{
  RecoveryRequest, RecoveryReceipt, RecoveryState, ServiceError, lab_key, receipt_lifetime, save,
  lift_store, read_state, read_mailbox, answered, answer_request, transaction, commit, process,
}

-- The state that a file holds.
abbrev pub decoded : Json RecoveryState → File → Option RecoveryState
decoded j missing = none
decoded j unreadable = none
decoded j (content bytes) = j.from_slice bytes

-- The receipt for a request.
abbrev pub receipt_for : RecoveryRequest → Bool → Time → RecoveryReceipt
receipt_for request accepted now = record {
  request_id = request.request_id;
  accepted = accepted;
  expires_at = now + receipt_lifetime;
}

module _ (e : Ed25519) (b : Base64) (f : FromTimestamp) where
  -- A valid token moves the counter to the token's; a refused one leaves it. Either is recorded in
  -- a receipt, and the key stays.
  pub record Answer (device : Uuid) (now : Time) (request : RecoveryRequest)
      (old new : RecoveryState) : Type 0 where
    pub key : e.VerifyingKey
    pub parsed : parse_public_key_hex e old.public_key_hex ≡ some key
    pub strong : e.is_weak key ≡ false
    pub fresh : answered old request ≡ false
    pub outcome :
        ((t : UnlockToken) × (verify_unlock e b f request.token key device now old.counter ≡ ok t)
          × (new ≡ record {
            public_key_hex = old.public_key_hex;
            counter = t.counter;
            receipt = some (receipt_for request true now);
          }))
        ⊎ ((x : UnlockError) × (verify_unlock e b f request.token key device now old.counter
              ≡ err x)
            × (new ≡ record {
              public_key_hex = old.public_key_hex;
              counter = old.counter;
              receipt = some (receipt_for request false now);
            }))

  guard_passed : (weak lab : Bool) → (not weak && not lab) ≡ true → weak ≡ false
  guard_passed weak lab h = ground arith

  some_of_ok :
      (s t : RecoveryState)
      → ◌≡◌ {A = Result ServiceError (Option RecoveryState)} (ok (some s)) (ok (some t))
      → t ≡ s
  some_of_ok s t h = cc

  answer_request-Answer :
      (device : Uuid) (now : Time) (old new : RecoveryState) (request : RecoveryRequest)
      → answer_request e b f device now old request ≡ ok (some new)
      → Answer device now request old new
  unfolding answer_request
  answer_request-Answer device now old new request h = elim (Bool-cases (answered old request)) [
    | inl seen ↦ cc (rw (seen, answer_request) at h)
    | inr fresh ↦ elim (Option-cases (parse_public_key_hex e old.public_key_hex)) [
      | inl e1 ↦ cc (rw (fresh, e1, answer_request) at h)
      | inr (key, e1) ↦
          elim (Bool-cases
            (not (e.is_weak key) && not (eq_ignore_ascii_case old.public_key_hex lab_key))) [
              | inl g ↦
                  elim (Result-cases
                    (verify_unlock e b f request.token key device now old.counter)) [
                      | inl (t, e2) ↦ record {
                        key = key;
                        parsed = e1;
                        strong = guard_passed _ _ g;
                        fresh = fresh;
                        outcome =
                            inl (
                              t,
                              e2,
                              some_of_ok _ new (rw (fresh, e1, g, e2, answer_request) at h),
                            );
                      }
                      | inr (x, e2) ↦ record {
                        key = key;
                        parsed = e1;
                        strong = guard_passed _ _ g;
                        fresh = fresh;
                        outcome =
                            inr (
                              x,
                              e2,
                              some_of_ok _ new (rw (fresh, e1, g, e2, answer_request) at h),
                            );
                      }
                    ]
              | inr g ↦ cc (rw (fresh, e1, g, answer_request) at h)
            ]
    ]
  ]

  transaction-Answer :
      (j : Json RecoveryState) (guard : LockIo) (device : Uuid) (now : Time)
      (request : RecoveryRequest) (file : File) (new : RecoveryState)
      → transaction e b f j guard device now request file ≡ ok (some new)
      → (old : RecoveryState) × (decoded j file ≡ some old) × Answer device now request old new
  unfolding transaction read_state
  transaction-Answer j guard device now request missing new h =
      elim (Result-cases (lift_store (lock guard))) [
        | inl (u, e1) ↦ cc (rw (e1, transaction) at h)
        | inr (x, e1) ↦ cc (rw (e1, transaction) at h)
      ]
  transaction-Answer j guard device now request unreadable new h =
      elim (Result-cases (lift_store (lock guard))) [
        | inl (u, e1) ↦ cc (rw (e1, transaction) at h)
        | inr (x, e1) ↦ cc (rw (e1, transaction) at h)
      ]
  transaction-Answer j guard device now request (content bytes) new h =
      elim (Result-cases (lift_store (lock guard))) [
        | inr (x, e1) ↦ cc (rw (e1, transaction) at h)
        | inl (u, e1) ↦ elim (Option-cases (j.from_slice bytes)) [
          | inl e2 ↦ cc (rw (e1, e2, transaction) at h)
          | inr (old, e2) ↦ (
            old,
            e2,
            answer_request-Answer device now old new request (rw (e1, e2, transaction) at h),
          )
        ]
      ]

pub save-decoded :
    (j : Json RecoveryState) (law : IsJson j) (io : WriteIo) (file : File) (s : RecoveryState)
    → ((save j io file s).1 ≡ file) ⊎ (decoded j (save j io file s).1 ≡ some s)
unfolding save
save-decoded j law io file s = elim (write_json_atomic j io file s false).0 [
  | inl same ↦ inl same
  | inr (bytes, e1, e2) ↦ inr (rw e2 (law.from_slice-to_vec s bytes e1))
]

-- The mailbox yields bytes only where it holds at most 1024 of them, and then all of them.
read_mailbox-some :
    (mailbox : File) (bytes : List ℕ)
    → read_mailbox mailbox ≡ ok (some bytes)
    → (mailbox ≡ content bytes) × (length bytes ≤ 1024)
unfolding read_mailbox
read_mailbox-some missing bytes h = cc
read_mailbox-some unreadable bytes h = cc
read_mailbox-some (content bs) bytes h = elim (Bool-cases (ltb 1024 (length (take 1025 bs)))) [
  | inl long ↦ cc (rw (long, read_mailbox) at h)
  | inr short ↦
      let le : length bs ≤ 1024 = ground (arith, length-take 1025 bs) in
      let same : bs ≡ bytes =
        sym (take-all 1025 bs (omega arith))
        ∙ option_of_ok _ bytes (rw (short, read_mailbox) at h) in
      (ap content same, subst (λ xs. length xs ≤ 1024) same le)
]
  where
    option_of_ok :
        (x y : List ℕ)
        → ◌≡◌ {A = Result ServiceError (Option (List ℕ))} (ok (some x)) (ok (some y))
        → x ≡ y
    option_of_ok x y h = cc

module _ (e : Ed25519) (b : Base64) (f : FromTimestamp) where
  -- A call that changed the state file: it answered the mailbox's request.
  pub record Answered (jr : Json RecoveryRequest) (j : Json RecoveryState) (device : Uuid)
      (now : Time) (mailbox before after : File) : Type 0 where
    pub bytes : List ℕ
    pub mailbox_bytes : mailbox ≡ content bytes
    pub bounded : length bytes ≤ 1024
    pub request : RecoveryRequest
    pub requested : jr.from_slice bytes ≡ some request
    pub old : RecoveryState
    pub new : RecoveryState
    pub before_old : decoded j before ≡ some old
    pub after_new : decoded j after ≡ some new
    pub answer : Answer e b f device now request old new

  commit-Answered :
      (jr : Json RecoveryRequest) (j : Json RecoveryState) (law : IsJson j) (guard : LockIo)
      (io : WriteIo) (device : Uuid) (now : Time) (mailbox file : File) (bytes : List ℕ)
      (request : RecoveryRequest)
      → jr.from_slice bytes ≡ some request
      → (mailbox ≡ content bytes) × (length bytes ≤ 1024)
      → (r : Result ServiceError (Option RecoveryState))
      → transaction e b f j guard device now request file ≡ r
      → ((commit e b f j io file r).1 ≡ file)
        ⊎ Answered jr j device now mailbox file (commit e b f j io file r).1
  unfolding commit
  commit-Answered jr j law guard io device now mailbox file bytes request e3 m (err x) h = inl refl
  commit-Answered jr j law guard io device now mailbox file bytes request e3 m (ok none) h =
      inl refl
  commit-Answered jr j law guard io device now mailbox file bytes request e3 m (ok (some new)) h =
      let (old, d, a) = transaction-Answer e b f j guard device now request file new h in
      elim (save-decoded j law io file new) [
        | inl same ↦ inl same
        | inr after ↦ inr (record {
          bytes = bytes;
          mailbox_bytes = m.0;
          bounded = m.1;
          request = request;
          requested = e3;
          old = old;
          new = new;
          before_old = d;
          after_new = after;
          answer = a;
        })
      ]

  -- Whatever the mailbox holds and whichever input or output fails, `process` leaves the state file
  -- as it was or answers the one request of at most 1024 bytes that the mailbox holds: it verifies
  -- the token under the provisioned key, which is not weak, and publishes the counter and the
  -- receipt together, the counter moved to the token's if and only if the receipt says accepted.
  pub process-Answered :
      (jr : Json RecoveryRequest) (j : Json RecoveryState) (law : IsJson j) (guard : LockIo)
      (io : WriteIo) (device : Uuid) (now : Time) (mailbox file : File)
      → ((process e b f jr j guard io device now mailbox file).1 ≡ file)
        ⊎ Answered jr j device now mailbox file
            (process e b f jr j guard io device now mailbox file).1
  unfolding process commit
  process-Answered jr j law guard io device now mailbox file =
      elim (Result-cases (read_mailbox mailbox)) [
        | inr (x, e1) ↦ rw (e1, process) (inl refl)
        | inl (o, e1) ↦ elim (Option-cases o) [
          | inl e2 ↦ rw (e1, e2, process) (inl refl)
          | inr (bytes, e2) ↦ elim (Option-cases (jr.from_slice bytes)) [
            | inl e3 ↦ rw (e1, e2, e3, process) (inl refl)
            | inr (request, e3) ↦
                rw (e1, e2, e3, process)
                  (commit-Answered jr j law guard io device now mailbox file bytes request e3
                    (read_mailbox-some mailbox bytes (e1 ∙ ap ok e2))
                    (transaction e b f j guard device now request file) refl)
          ]
        ]
      ]
