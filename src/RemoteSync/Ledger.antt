-- ===== src/RemoteSync/Ledger.antt =====
-- The replay state over a history of synchronizations, with any servers, machines and keys.
use desktop_mdm.Prelude.{
  ap, ◌++◌, ◌∙◌, true, Option, ◌≡◌, ◌≢◌, ◌<◌, ◌⊎◌, inl, inr, sym, subst, some, List, [], ◌∷◌,
}
use desktop_mdm.Prelude.Result.{Result, ok}
use desktop_mdm.Text.{Text}
use desktop_mdm.Extern.{Json, IsJson}
use desktop_mdm.StateStore.{File}
use desktop_mdm.StateStore.Stored.{stored}
use desktop_mdm.Storage.{ApiActivity}
use desktop_mdm.Api.{PendingCommand, PatchFile, CheckInResponse}
use desktop_mdm.Command.{Crypto, CommandSecurityState, canonical_patch_message, nonce_digest}
use desktop_mdm.Command.Accepted.{IsRetry}
use desktop_mdm.Command.History.{History, no_replay}
use desktop_mdm.RemoteSync.{
  SecuredRemoteState, SyncError, Display, Files, load_command_security_state,
  synchronize_remote_state, reported_state, later, Ack,
}
use desktop_mdm.RemoteSync.Verified.{Moves, unsigned, signed}
use desktop_mdm.RemoteSync.Outcome.{Commanded, synchronize_remote_state-Outcome}
use desktop_mdm.RemoteSync.Trace.{
  Round, RoundMoves, kept, applied, Trace, done, next, load_command_security_state-stored,
  same_ledger, Moves-signed, Trace-History, grown, last_ack,
}

module _ (c : Crypto) (d : Display) (j : Json SecuredRemoteState) (law : IsJson j)
    (ja : Json ApiActivity) where
  unfoldable pub rounds : Files → List Round → Files
  rounds files [] = files
  rounds files (r ∷ rs) =
      rounds (synchronize_remote_state c d j ja r.machine r.server r.device_uuid r.keys files).1 rs

  -- The state file after, and the commands that the rounds applied between its ledger and the one
  -- before.
  abbrev pub Continues : CommandSecurityState → List Round → File → Type 0
  Continues old rs after =
      (new : SecuredRemoteState) × (stored j after ≡ some new) × Trace c rs old new.command_security

  Commanded-RoundMoves :
      (r : Round) (before after : File)
      (commanded : Commanded c d j law ja r.machine r.server r.device_uuid r.keys before after)
      → RoundMoves c r commanded.ledger commanded.new.command_security
  Commanded-RoundMoves r before after commanded = by_moves _ commanded.verified.moves
    where
      by_moves :
          (new : CommandSecurityState)
          → Moves c r.device_uuid commanded.command commanded.patch
              (later commanded.check_in.server_time r.machine.verified_at)
              r.keys
              commanded.ledger
              new
          → RoundMoves c r commanded.ledger new
      by_moves _ (unsigned e) = kept
      by_moves _ (signed new v a) =
          applied commanded.check_in commanded.command commanded.patch new commanded.answered
            commanded.pending commanded.fetched v a

  round-Continues :
      (r : Round) (files : Files) (state : SecuredRemoteState)
      → stored j files.remote_state ≡ some state
      → (new : SecuredRemoteState) × (stored j
            (synchronize_remote_state c d j ja r.machine r.server r.device_uuid r.keys
              files).1.remote_state
          ≡ some new)
        × RoundMoves c r state.command_security new.command_security
  unfolding reported_state
  round-Continues r files state h =
      let loaded = load_command_security_state-stored j files.remote_state state h in
      elim (synchronize_remote_state-Outcome c d j law ja r.machine r.server r.device_uuid r.keys
        files).0 [
          | inl same ↦ (state, subst (λ f. stored j f ≡ some state) (sym same) h, kept)
          | inr (inl reported) ↦ (
            _,
            reported.holds,
            subst (λ l. RoundMoves c r l reported.ledger) (same_ledger _ _ _ reported.loaded loaded)
                kept,
          )
          | inr (inr commanded) ↦ (
            commanded.new,
            commanded.holds,
            subst (λ l. RoundMoves c r l commanded.new.command_security)
                (same_ledger _ _ _ commanded.loaded loaded) (Commanded-RoundMoves r _ _ commanded),
          )
        ]

  -- Over any history of synchronizations a remote state that decodes goes on decoding, and each of
  -- them keeps the replay state or moves it by applying the pending command and the patch that the
  -- server then gave, verified for the device and under the trusted keys of that synchronization.
  pub rounds-History :
      (files : Files) (rs : List Round) (state : SecuredRemoteState)
      → stored j files.remote_state ≡ some state
      → Continues state.command_security rs (rounds files rs).remote_state
  unfolding rounds
  rounds-History files [] state h = (state, h, done state.command_security)
  rounds-History files (r ∷ rs) state h =
      let (middle, holds, first) = round-Continues r files state h in
      let (last, held, rest) =
        rounds-History
          (synchronize_remote_state c d j ja r.machine r.server r.device_uuid r.keys files).1 rs
          middle holds in
      (last, held, next r rs _ _ _ first rest)

  -- A synchronization that sent an acknowledgement that says applied.
  pub record Applies (r : Round) (files : Files) (command : PendingCommand) (patch : PatchFile)
      : Type 0 where
    pub check_in : CheckInResponse
    pub answered : r.server.check_in ≡ ok check_in
    pub pending : check_in.pending_command ≡ some command
    pub fetched : r.server.current_patch ≡ ok (some patch)
    pub ack : Ack
    pub sent :
        (synchronize_remote_state c d j ja r.machine r.server r.device_uuid r.keys files).1.acks
        ≡ files.acks ++ ack ∷ []
    pub applied_ack : ack.applied ≡ true

  Applies-Commanded :
      (r : Round) (files : Files) (command : PendingCommand) (patch : PatchFile)
      → Applies r files command patch
      → (commanded : Commanded c d j law ja r.machine r.server r.device_uuid r.keys
          files.remote_state
          (synchronize_remote_state c d j ja r.machine r.server r.device_uuid r.keys
            files).1.remote_state)
        × (commanded.command ≡ command)
        × (commanded.patch ≡ patch)
  Applies-Commanded r files command patch a =
      elim (synchronize_remote_state-Outcome c d j law ja r.machine r.server r.device_uuid r.keys
        files).1 [
          | inl same ↦ absurd (grown files.acks a.ack (sym a.sent ∙ same))
          | inr acknowledged ↦
              let same_ack = last_ack files.acks _ _ (sym acknowledged.sent ∙ a.sent) in
              let commanded =
                acknowledged.truthful (ap (λ (x : Ack). x.applied) same_ack ∙ a.applied_ack) in
              (
                commanded,
                same_command _ _ _
                    (sym commanded.pending
                      ∙ ap (λ (x : CheckInResponse). x.pending_command)
                          (same_check_in _ _ _ commanded.answered a.answered))
                    a.pending,
                same_patch _ _ _ commanded.fetched a.fetched,
              )
        ]
    where
      same_check_in :
          (x y : CheckInResponse) (o : Result SyncError CheckInResponse)
          → o ≡ ok x
          → o ≡ ok y
          → x ≡ y
      same_check_in x y o h k = cc

      same_command :
          (x y : PendingCommand) (o : Option PendingCommand)
          → ◌≡◌ {A = Option PendingCommand} (some x) o
          → o ≡ some y
          → x ≡ y
      same_command x y o h k = cc

      same_patch :
          (x y : PatchFile) (o : Result SyncError (Option PatchFile))
          → o ≡ ok (some x)
          → o ≡ ok (some y)
          → x ≡ y
      same_patch x y o h k = cc

  -- A signed command is not replayed. After a synchronization that had trusted keys and acknowledged
  -- the patch that the server gave as applied, and any history of synchronizations, one that has
  -- trusted keys and acknowledges its patch as applied applies the last applied command again, by
  -- the replay state that it then loads, or one of a higher version whose nonce has another digest
  -- than the first one's.
  pub command_not_replayed :
      (r r' : Round) (before : Files) (rs : List Round) (command command' : PendingCommand)
      (patch patch' : PatchFile)
      → let after =
          (synchronize_remote_state c d j ja r.machine r.server r.device_uuid r.keys before).1 in
        Applies r before command patch
        → r.keys ≢ []
        → Applies r' (rounds after rs) command' patch'
        → r'.keys ≢ []
        → ((ledger : CommandSecurityState) × (message : Text) × (load_command_security_state j
                (rounds after rs).remote_state
              ≡ ok ledger)
            × (canonical_patch_message c r'.device_uuid command' patch' ≡ ok message)
            × IsRetry c message command' patch' ledger)
          ⊎ ((patch.version < patch'.version)
              × (nonce_digest c command'.nonce ≢ nonce_digest c command.nonce))
  command_not_replayed r r' before rs command command' patch patch' first_run k again_run k' =
      let after =
        (synchronize_remote_state c d j ja r.machine r.server r.device_uuid r.keys before).1 in
      let (first, c1, p1) = Applies-Commanded r before command patch first_run in
      let (again, c2, p2) = Applies-Commanded r' (rounds after rs) command' patch' again_run in
      let (v, a) = Moves-signed k first.verified.moves in
      let (v', a') = Moves-signed k' again.verified.moves in
      let (last, held, trace) = rounds-History after rs first.new first.holds in
      let same =
        same_ledger last.command_security again.ledger _
          (load_command_security_state-stored j (rounds after rs).remote_state last held)
          again.loaded in
      let found =
        no_replay c r.device_uuid first.command first.patch first.ledger first.new.command_security
          again.ledger r'.device_uuid again.command again.patch _ r'.keys a
          (subst (History c first.new.command_security) same (Trace-History trace)) v' in
      elim found.1 [
        | inl (message, canonical, retry) ↦ inl (
          again.ledger,
          message,
          again.loaded,
          rw (sym c2, sym p2) canonical,
          rw (sym c2, sym p2) retry,
        )
        | inr (newer, other) ↦ inr (rw (sym p1, sym p2) newer, rw (sym c1, sym c2) other)
      ]
