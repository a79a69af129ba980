-- ===== src/Command/History.antt =====
-- The replay state over a history of applied commands.
use desktop_mdm.Prelude.{
  subst, sym, ◌∙◌, ℕ, ◌≤◌, ◌<◌, ◌≡◌, ◌≢◌, refl, ap, ◌⊎◌, inl, inr, true, some, List, arith, List_eq,
  ==_refl, Bool-cases,
}
use desktop_mdm.Prelude.Result.{ok, Result-cases, ok-injective}
use desktop_mdm.Text.{Text}
use desktop_mdm.Recovery.Token.{Uuid}
use desktop_mdm.Recovery.Verify.{Time}
use desktop_mdm.Api.{PendingCommand, PatchFile}
use desktop_mdm.Command.{
  Crypto, CommandSecurityState, canonical_patch_message, nonce_digest, message_digest,
  verify_command_patch, applied_security_state, contains, insert,
}
use desktop_mdm.Command.Accepted.{
  IsRetry, IsNew, verify_command_patch-IsAccepted, verify_command_patch_stages,
  check_replay-IsRetry,
}

contains-insert_self : (x : Text) (set : List Text) → contains (insert x set) x ≡ true
unfolding contains insert
contains-insert_self x set = elim (Bool-cases (contains set x)) [
  | inl there ↦ rw (there, insert) there
  | inr missing ↦ rw (missing, insert) (rw (==_refl x) refl)
]

contains-insert :
    (x y : Text) (set : List Text) → contains set y ≡ true → contains (insert x set) y ≡ true
unfolding contains insert
contains-insert x y set h = elim (Bool-cases (contains set x)) [
  | inl there ↦ rw (there, insert) h
  | inr missing ↦ rw (missing, insert) (ground arith)
]

module _ (c : Crypto) where
  -- What `applied_security_state` returns.
  pub record IsApplied (device_uuid : Uuid) (command : PendingCommand) (patch : PatchFile)
      (previous next : CommandSecurityState) : Type 0 where
    pub message : Text
    pub canonical : canonical_patch_message c device_uuid command patch ≡ ok message
    pub result : next ≡ record {
      highest_patch_version = patch.version;
      last_patch_uuid = some patch.uuid;
      last_command_uuid = some command.uuid;
      last_message_sha256 = some (message_digest c message);
      consumed_nonce_sha256 = insert (nonce_digest c command.nonce) previous.consumed_nonce_sha256;
    }

  pub applied_security_state-IsApplied :
      (device_uuid : Uuid) (previous next : CommandSecurityState) (command : PendingCommand)
      (patch : PatchFile)
      → applied_security_state c device_uuid previous command patch ≡ ok next
      → IsApplied device_uuid command patch previous next
  unfolding applied_security_state
  applied_security_state-IsApplied device_uuid previous next command patch h =
      elim (Result-cases (canonical_patch_message c device_uuid command patch)) [
        | inr (x, e1) ↦ cc (rw (e1, applied_security_state) at h)
        | inl (message, e1) ↦ record {
          message = message;
          canonical = e1;
          result = ok-injective _ _ (sym h ∙ (rw (e1, applied_security_state) refl));
        }
      ]

  IsApplied-IsRetry :
      (device_uuid : Uuid) (command : PendingCommand) (patch : PatchFile)
      (previous next : CommandSecurityState) (message : Text)
      → IsApplied device_uuid command patch previous next
      → canonical_patch_message c device_uuid command patch ≡ ok message
      → IsRetry c message command patch next
  IsApplied-IsRetry device_uuid command patch previous next message v e =
      let same = ok-injective _ _ (sym v.canonical ∙ e) in
      subst (IsRetry c message command patch) (sym v.result) (record {
        same_message = ap (λ (m : Text). some (message_digest c m)) same;
        same_patch = refl;
        same_command = refl;
        consumed =
            contains-insert_self (nonce_digest c command.nonce) previous.consumed_nonce_sha256;
        same_version = refl;
      })

  not_older :
      (message : Text) (command : PendingCommand) (patch : PatchFile) (state : CommandSecurityState)
      → IsRetry c message command patch state ⊎ IsNew c command patch state
      → state.highest_patch_version ≤ patch.version
  not_older message command patch state (inl r) = omega (arith, r.same_version)
  not_older message command patch state (inr n) = omega (arith, n.higher)

  -- Delivering the applied command once more is accepted again under the new state.
  pub retry_accepted :
      (device_uuid : Uuid) (command : PendingCommand) (patch : PatchFile) (now : Time)
      (keys : List (ℕ × Text)) (state next : CommandSecurityState)
      → verify_command_patch c device_uuid command patch now keys state ≡ ok tt
      → applied_security_state c device_uuid state command patch ≡ ok next
      → verify_command_patch c device_uuid command patch now keys next ≡ ok tt
  unfolding verify_command_patch
  retry_accepted device_uuid command patch now keys state next h a =
      let (message, e1, e2, e3, e4) =
        verify_command_patch_stages c device_uuid command patch now keys state h in
      let v = applied_security_state-IsApplied device_uuid state next command patch a in
      rw
        (
          e1,
          e2,
          check_replay-IsRetry c message command patch next (IsApplied-IsRetry _ _ _ _ _ _ v e2),
          e4,
        )
        refl

  -- A history of commands, each accepted and then applied.
  pub data History (s : CommandSecurityState) : CommandSecurityState → Type 0 where
    start : History s s
    applies :
        {t u : CommandSecurityState}
        → History s t
        → (device_uuid : Uuid) (command : PendingCommand) (patch : PatchFile) (now : Time)
          (keys : List (ℕ × Text))
        → verify_command_patch c device_uuid command patch now keys t ≡ ok tt
        → applied_security_state c device_uuid t command patch ≡ ok u
        → History s u

  -- What one accepted and applied command does to the ledger.
  applied-grows :
      (device_uuid : Uuid) (command : PendingCommand) (patch : PatchFile) (now : Time)
      (keys : List (ℕ × Text)) (t u : CommandSecurityState)
      → verify_command_patch c device_uuid command patch now keys t ≡ ok tt
      → applied_security_state c device_uuid t command patch ≡ ok u
      → (t.highest_patch_version ≤ u.highest_patch_version)
        × ((x : Text)
            → contains t.consumed_nonce_sha256 x ≡ true
            → contains u.consumed_nonce_sha256 x ≡ true)
  applied-grows device_uuid command patch now keys t u h a =
      let acc = verify_command_patch-IsAccepted c device_uuid command patch now keys t h in
      let v = applied_security_state-IsApplied device_uuid t u command patch a in
      (
        omega (
          arith,
          not_older acc.message command patch t acc.order,
          ap (λ (s : CommandSecurityState). s.highest_patch_version) v.result,
        ),
        λ x seen.
            rw (ap (λ (s : CommandSecurityState). s.consumed_nonce_sha256) v.result)
              (contains-insert (nonce_digest c command.nonce) x t.consumed_nonce_sha256 seen),
      )

  -- Over any history the highest version never falls and no consumed nonce is forgotten.
  pub History-grows :
      {s t : CommandSecurityState}
      → History s t
      → (s.highest_patch_version ≤ t.highest_patch_version)
        × ((x : Text)
            → contains s.consumed_nonce_sha256 x ≡ true
            → contains t.consumed_nonce_sha256 x ≡ true)
  History-grows start = (omega arith, λ x h. h)
  History-grows (applies before device_uuid command patch now keys h a) =
      let g = History-grows before in
      let k = applied-grows device_uuid command patch now keys _ _ h a in
      (omega (arith, g.0, k.0), λ x seen. k.1 x (g.1 x seen))

  -- After a command was applied and any history has followed, a command that is accepted has no
  -- lower version; and it is the retry of the last one applied, or its nonce has another digest and
  -- its version is higher.
  pub no_replay :
      (device_uuid : Uuid) (command : PendingCommand) (patch : PatchFile)
      (previous next later : CommandSecurityState) (device' : Uuid) (command' : PendingCommand)
      (patch' : PatchFile) (now' : Time) (keys' : List (ℕ × Text))
      → applied_security_state c device_uuid previous command patch ≡ ok next
      → History next later
      → verify_command_patch c device' command' patch' now' keys' later ≡ ok tt
      → (patch.version ≤ patch'.version)
        × (((message' : Text) × (canonical_patch_message c device' command' patch' ≡ ok message')
              × IsRetry c message' command' patch' later)
            ⊎ ((patch.version < patch'.version)
                × (nonce_digest c command'.nonce ≢ nonce_digest c command.nonce)))
  no_replay device_uuid command patch previous next later device' command' patch' now' keys' a hist
        h =
      let v = applied_security_state-IsApplied device_uuid previous next command patch a in
      let g = History-grows hist in
      let acc = verify_command_patch-IsAccepted c device' command' patch' now' keys' later h in
      let top = ap (λ (s : CommandSecurityState). s.highest_patch_version) v.result in
      (
        omega (arith, g.0, top, not_older acc.message command' patch' later acc.order),
        elim acc.order [
          | inl retry ↦ inl (acc.message, acc.canonical, retry)
          | inr new ↦ inr (
            omega (arith, g.0, top, new.higher),
            λ same. cc (
              new.unused,
              g.1 (nonce_digest c command.nonce) (
                  rw (ap (λ (s : CommandSecurityState). s.consumed_nonce_sha256) v.result) (
                    contains-insert_self (nonce_digest c command.nonce)
                      previous.consumed_nonce_sha256)),
              same,
            ),
          )
        ],
      )
