-- ===== src/RemoteSync/Verified.antt =====
-- What a command that is applied has passed.
use desktop_mdm.Prelude.{
  ℕ, ◌≡◌, ◌<◌, inl, inr, refl, not, ◌||◌, true, List, [], ◌∷◌, leb, arith, subst, Bool-cases, sym,
  ◌∙◌,
}
use desktop_mdm.Prelude.Result.{Result, ok, err, Result-cases}
use desktop_mdm.Recovery.Token.{Uuid}
use desktop_mdm.Recovery.Verify.{Time}
use desktop_mdm.Api.{PendingCommand, CheckInResponse, PatchFile, LockStateKind}
use desktop_mdm.Text.{Text}
use desktop_mdm.Command.{
  Crypto, CommandSecurityState, SecurityError, verify_patch_binding, verify_command_patch,
  applied_security_state,
}
use desktop_mdm.Command.Accepted.{
  IsBound, verify_patch_binding_iff, verify_command_patch-IsAccepted,
}
use desktop_mdm.RemoteSync.{
  SecuredRemoteState, SyncError, Machine, Server, later, lift_security, command_target_state,
  next_command_security, command_state,
}

-- How the replay state moves: not at all without a trusted key, else by an accepted command.
pub data Moves (c : Crypto) (device_uuid : Uuid) (command : PendingCommand) (patch : PatchFile)
    (now : Time) (keys : List (ℕ × Text)) (old : CommandSecurityState)
    : CommandSecurityState → Type 0 where
  unsigned : keys ≡ [] → Moves c device_uuid command patch now keys old old
  signed :
      (new : CommandSecurityState)
      → verify_command_patch c device_uuid command patch now keys old ≡ ok tt
      → applied_security_state c device_uuid old command patch ≡ ok new
      → Moves c device_uuid command patch now keys old new

lift_security-ok :
    {A : Type 0} (r : Result SecurityError A) (a : A) → lift_security r ≡ ok a → r ≡ ok a
lift_security-ok (ok x) a h = cc
lift_security-ok (err x) a h = cc

module _ (c : Crypto) (m : Machine) (s : Server) where
  next_command_security-Moves :
      (device_uuid : Uuid) (check_in : CheckInResponse) (command : PendingCommand)
      (patch : PatchFile) (keys : List (ℕ × Text)) (old new : CommandSecurityState)
      → next_command_security c m s device_uuid check_in command patch keys old ≡ ok new
      → IsBound command patch (later check_in.server_time m.verified_at)
        × Moves c device_uuid command patch (later check_in.server_time m.verified_at) keys old new
  unfolding next_command_security
  next_command_security-Moves device_uuid check_in command patch [] old new h =
      let now = later check_in.server_time m.verified_at in
      elim (Result-cases (verify_patch_binding command patch now)) [
        | inr (x, e1) ↦ cc (rw (e1, next_command_security) at h)
        | inl (tt, e1) ↦
            let same : old ≡ new = ok_same old new (rw (e1, next_command_security) at h) in
            (
              (verify_patch_binding_iff command patch now).0 e1,
              subst (Moves c device_uuid command patch now [] old) same (unsigned refl),
            )
      ]
    where
      ok_same :
          (a b : CommandSecurityState)
          → ◌≡◌ {A = Result SyncError CommandSecurityState} (ok a) (ok b)
          → a ≡ b
      ok_same a b h = cc
  next_command_security-Moves device_uuid check_in command patch (key ∷ keys) old new h =
      let now = later check_in.server_time m.verified_at in
      elim (Result-cases (verify_command_patch c device_uuid command patch now (key ∷ keys) old)) [
        | inr (x, e1) ↦ cc (rw (e1, next_command_security) at h)
        | inl (tt, e1) ↦ (
          (verify_command_patch-IsAccepted c device_uuid command patch now (key ∷ keys) old
              e1).bound,
          signed new e1 (lift_security-ok _ new (rw (e1, next_command_security) at h)),
        )
      ]

  -- What a command's new state has behind it.
  pub record IsVerified (device_uuid : Uuid) (check_in : CheckInResponse) (command : PendingCommand)
      (patch : PatchFile) (keys : List (ℕ × Text)) (old : CommandSecurityState)
      (new : SecuredRemoteState) : Type 0 where
    pub bound : IsBound command patch (later check_in.server_time m.verified_at)
    pub moves :
        Moves c device_uuid command patch
          (later check_in.server_time m.verified_at)
          keys
          old
          new.command_security
    pub downloaded : s.verify_patch_download patch ≡ ok tt
    pub command_current : m.downloaded_at < command.expires_at
    pub patch_current : m.rechecked_at < patch.expires_at
    pub target : command_target_state command.action ≡ ok new.remote.lock_state.state
    pub reason : new.remote.lock_state.reason ≡ command.reason
    pub device : new.remote.device_uuid ≡ device_uuid

  still_current :
      (a b now then_ : ℕ) → not (leb a now || leb b then_) ≡ true → (now < a) × (then_ < b)
  still_current a b now then_ h = ground arith

  abbrev commanded :
      Uuid
      → CheckInResponse
      → PendingCommand
      → CommandSecurityState
      → LockStateKind
      → SecuredRemoteState
  commanded device_uuid check_in command ledger state = record {
    remote = record {
      device_uuid = device_uuid;
      lock_state = record {
        state = state;
        reason = command.reason;
        changed_at = check_in.server_time;
      };
      checked_at = m.applied_at;
      server_time = check_in.server_time;
    };
    command_security = ledger;
  }

  same_ok :
      (a b : SecuredRemoteState)
      → ◌≡◌ {A = Result SyncError SecuredRemoteState} (ok a) (ok b)
      → a ≡ b
  same_ok a b h = cc

  verified :
      (device_uuid : Uuid) (check_in : CheckInResponse) (command : PendingCommand)
      (patch : PatchFile) (keys : List (ℕ × Text)) (old ledger : CommandSecurityState)
      (state : LockStateKind)
      → next_command_security c m s device_uuid check_in command patch keys old ≡ ok ledger
      → s.verify_patch_download patch ≡ ok tt
      → not (leb command.expires_at m.downloaded_at || leb patch.expires_at m.rechecked_at) ≡ true
      → command_target_state command.action ≡ ok state
      → IsVerified device_uuid check_in command patch keys old
          (commanded device_uuid check_in command ledger state)
  verified device_uuid check_in command patch keys old ledger state e1 e2 current e4 =
      let (bound, moves) =
        next_command_security-Moves device_uuid check_in command patch keys old ledger e1 in
      let (t1, t2) =
        still_current command.expires_at patch.expires_at m.downloaded_at m.rechecked_at current in
      record {
        bound = bound;
        moves = moves;
        downloaded = e2;
        command_current = t1;
        patch_current = t2;
        target = e4;
        reason = refl;
        device = refl;
      }

  pub command_state-IsVerified :
      (device_uuid : Uuid) (check_in : CheckInResponse) (command : PendingCommand)
      (patch : PatchFile) (keys : List (ℕ × Text)) (old : CommandSecurityState)
      (new : SecuredRemoteState)
      → command_state c m s device_uuid check_in command patch keys old ≡ ok new
      → IsVerified device_uuid check_in command patch keys old new
  unfolding command_state
  command_state-IsVerified device_uuid check_in command patch keys old new h =
      elim (Result-cases
        (next_command_security c m s device_uuid check_in command patch keys old)) [
          | inr (x, e1) ↦ cc (rw (e1, command_state) at h)
          | inl (ledger, e1) ↦ elim (Result-cases (s.verify_patch_download patch)) [
            | inr (x, e2) ↦ cc (rw (e1, e2, command_state) at h)
            | inl (tt, e2) ↦
                elim (Bool-cases (
                  not (
                    leb command.expires_at m.downloaded_at
                    || leb patch.expires_at m.rechecked_at))) [
                      | inr late ↦ cc (rw (e1, e2, late, command_state) at h)
                      | inl current ↦ elim (Result-cases (command_target_state command.action)) [
                        | inr (x, e4) ↦ cc (rw (e1, e2, current, e4, command_state) at h)
                        | inl (state, e4) ↦
                            let built : command_state c m s device_uuid check_in command patch keys
                                  old
                                ≡ ok (commanded device_uuid check_in command ledger state) =
                              rw (e1, e2, current, e4, command_state) refl in
                            subst (IsVerified device_uuid check_in command patch keys old)
                              (same_ok _ new (sym built ∙ h))
                              (verified device_uuid check_in command patch keys old ledger state e1
                                e2 current e4)
                      ]
                    ]
          ]
        ]
