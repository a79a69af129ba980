-- ===== src/RemoteSync/Outcome.antt =====
-- What one synchronization does to the remote state, and what it acknowledges.
use desktop_mdm.Prelude.{
  ◌≡◌, ◌⊎◌, inl, inr, refl, sym, true, false, some, List, [], ◌∷◌, ◌++◌, ℕ, Option-cases, subst,
  ◌∙◌, ap,
}
use desktop_mdm.Prelude.Result.{Result, ok, err, Result-cases}
use desktop_mdm.Text.{Text}
use desktop_mdm.Recovery.Token.{Uuid}
use desktop_mdm.Extern.{Json, IsJson}
use desktop_mdm.StateStore.{File, WriteIo, lock}
use desktop_mdm.StateStore.Stored.{stored, write_json-stored}
use desktop_mdm.Storage.{ApiActivity}
use desktop_mdm.Api.{PendingCommand, CheckInResponse, PatchFile}
use desktop_mdm.Command.{Crypto, CommandSecurityState}
use desktop_mdm.RemoteSync.{
  SecuredRemoteState, SyncError, Machine, Server, Display, Files, Ack, lift_store,
  load_command_security_state, persist_remote_state, command_state, apply_patch, ack_of,
  acknowledge_patch, apply_pending_command, reported_state, apply_check_in,
  synchronize_remote_state, StoreError, record_api_activity, store, chars, check_in_event,
  check_in_response,
}
use desktop_mdm.RemoteSync.Verified.{IsVerified, command_state-IsVerified}

lift_store-ok : (r : Result StoreError (Unit {0})) → lift_store r ≡ ok tt → r ≡ ok tt
lift_store-ok (ok tt) h = refl
lift_store-ok (err x) h = cc

persist_remote_state-stored :
    (j : Json SecuredRemoteState) (law : IsJson j) (io : WriteIo) (old : File)
    (state : SecuredRemoteState)
    → let r = persist_remote_state j io old state in
      ((r.1 ≡ old) ⊎ (stored j r.1 ≡ some state)) × (r.0 ≡ ok tt → stored j r.1 ≡ some state)
unfolding persist_remote_state
persist_remote_state-stored j law io old state =
    let (kept, done) = write_json-stored j law io old state false in
    (kept, λ h. done (lift_store-ok _ h))

module _ (c : Crypto) (d : Display) (j : Json SecuredRemoteState) (law : IsJson j)
    (ja : Json ApiActivity) (m : Machine) (s : Server) (device_uuid : Uuid)
    (keys : List (ℕ × Text)) where
  -- The file holds the state that the check-in reported, with the replay state that was there.
  pub record Reported (before after : File) : Type 0 where
    pub check_in : CheckInResponse
    pub answered : s.check_in ≡ ok check_in
    pub ledger : CommandSecurityState
    pub loaded : load_command_security_state j before ≡ ok ledger
    pub holds : stored j after ≡ some (reported_state c d j ja m s device_uuid check_in ledger)

  -- The file holds the state of the pending command, whose patch passed every test.
  pub record Commanded (before after : File) : Type 0 where
    pub check_in : CheckInResponse
    pub answered : s.check_in ≡ ok check_in
    pub ledger : CommandSecurityState
    pub loaded : load_command_security_state j before ≡ ok ledger
    pub command : PendingCommand
    pub pending : check_in.pending_command ≡ some command
    pub patch : PatchFile
    pub fetched : s.current_patch ≡ ok (some patch)
    pub new : SecuredRemoteState
    pub verified : IsVerified c m s device_uuid check_in command patch keys ledger new
    pub holds : stored j after ≡ some new

  -- The acknowledgement of a patch says applied only where the file holds its state.
  pub record Acknowledged (before after : Files) : Type 0 where
    pub patch : PatchFile
    pub fetched : s.current_patch ≡ ok (some patch)
    pub ack : Ack
    pub sent : after.acks ≡ before.acks ++ ack ∷ []
    pub about : ack.patch_uuid ≡ patch.uuid
    pub truthful : ack.applied ≡ true → Commanded before.remote_state after.remote_state

  abbrev pub Outcome : Files → Files → Type 0
  Outcome before after =
      ((after.remote_state ≡ before.remote_state)
        ⊎ (Reported before.remote_state after.remote_state
            ⊎ Commanded before.remote_state after.remote_state))
      × ((after.acks ≡ before.acks) ⊎ Acknowledged before after)

  apply_patch-stored :
      (check_in : CheckInResponse) (command : PendingCommand) (patch : PatchFile)
      (ledger : CommandSecurityState) (file : File)
      → let r = apply_patch c d j ja m s device_uuid check_in command patch keys ledger file in
        let Holds = λ (f : File).
          (new : SecuredRemoteState) × IsVerified c m s device_uuid check_in command patch keys
            ledger new
          × (stored j f ≡ some new) in
        ((r.1 ≡ file) ⊎ Holds r.1) × (r.0 ≡ ok tt → Holds r.1)
  unfolding apply_patch
  apply_patch-stored check_in command patch ledger file =
      elim (Result-cases (command_state c m s device_uuid check_in command patch keys ledger)) [
        | inr (x, e) ↦ rw (e, apply_patch) (inl refl, λ h. cc)
        | inl (new, e) ↦
            let v =
              command_state-IsVerified c m s device_uuid check_in command patch keys ledger new e in
            let (kept, done) = persist_remote_state-stored j law m.applied_write file new in
            rw (e, apply_patch)
              (
                elim kept [ inl same ↦ inl same | inr holds ↦ inr (new, v, holds) ],
                λ h. (new, v, done h),
              )
      ]

  ack_of-applied :
      (patch : PatchFile) (r : Result SyncError (Unit {0}))
      → (ack_of c d j ja m s patch r).applied ≡ true
      → r ≡ ok tt
  unfolding ack_of
  ack_of-applied patch (ok tt) h = refl
  ack_of-applied patch (err x) h = cc

  ack_of-uuid :
      (patch : PatchFile) (r : Result SyncError (Unit {0}))
      → (ack_of c d j ja m s patch r).patch_uuid ≡ patch.uuid
  unfolding ack_of
  ack_of-uuid patch (ok tt) = refl
  ack_of-uuid patch (err x) = refl

  Outcome-of :
      (before : Files) (r r' : Result SyncError (Unit {0}) × Files)
      → r ≡ r'
      → Outcome before r'.1
      → Outcome before r.1
  Outcome-of before r r' e h =
      subst (λ (x : Result SyncError (Unit {0}) × Files). Outcome before x.1) (sym e) h

  acknowledge_patch-Outcome :
      (check_in : CheckInResponse) (command : PendingCommand) (patch : PatchFile)
      (ledger : CommandSecurityState) (before files : Files)
      → Reported before.remote_state files.remote_state
      → s.check_in ≡ ok check_in
      → load_command_security_state j before.remote_state ≡ ok ledger
      → check_in.pending_command ≡ some command
      → s.current_patch ≡ ok (some patch)
      → files.acks ≡ before.acks
      → Outcome before
          (acknowledge_patch c d j ja m s command patch
            (apply_patch c d j ja m s device_uuid check_in command patch keys ledger
              files.remote_state)
            files).1
  unfolding acknowledge_patch
  acknowledge_patch-Outcome check_in command patch ledger before files reported answered loaded
        pending fetched acks =
      let r =
        apply_patch c d j ja m s device_uuid check_in command patch keys ledger
          files.remote_state in
      let (kept, done) = apply_patch-stored check_in command patch ledger files.remote_state in
      let commanded : (new : SecuredRemoteState) × IsVerified c m s device_uuid check_in command
              patch keys ledger new
            × (stored j r.1 ≡ some new)
          → Commanded before.remote_state r.1 =
        λ (new, verified, holds). record {
          check_in = check_in;
          answered = answered;
          ledger = ledger;
          loaded = loaded;
          command = command;
          pending = pending;
          patch = patch;
          fetched = fetched;
          new = new;
          verified = verified;
          holds = holds;
        } in
      (
        elim kept [
          | inl same ↦ inr (inl (subst (Reported before.remote_state) (sym same) reported))
          | inr h ↦ inr (inr (commanded h))
        ],
        inr (record {
          patch = patch;
          fetched = fetched;
          ack = ack_of c d j ja m s patch r.0;
          sent = ap (λ xs. xs ++ ack_of c d j ja m s patch r.0 ∷ []) acks;
          about = ack_of-uuid patch r.0;
          truthful = λ h. commanded (done (ack_of-applied patch r.0 h));
        }),
      )

  abbrev failed_fetch : PendingCommand → Files → SyncError → Files
  failed_fetch command files x = record files {
    api_activity = record_api_activity ja m.command_activity files.api_activity (record {
      endpoint = chars "/api/agent/patch-files/current/";
      request = chars "command=" ++ d.uuid command.uuid;
      response = chars "error: " ++ d.error x;
    });
  }

  apply_pending_command-Outcome :
      (check_in : CheckInResponse) (command : PendingCommand) (ledger : CommandSecurityState)
      (before files : Files)
      → Reported before.remote_state files.remote_state
      → s.check_in ≡ ok check_in
      → load_command_security_state j before.remote_state ≡ ok ledger
      → check_in.pending_command ≡ some command
      → files.acks ≡ before.acks
      → Outcome before
          (apply_pending_command c d j ja m s device_uuid check_in command keys ledger files).1
  unfolding apply_pending_command
  apply_pending_command-Outcome check_in command ledger before files reported answered loaded
        pending acks =
      let call =
        apply_pending_command c d j ja m s device_uuid check_in command keys ledger files in
      elim (Result-cases s.current_patch) [
        | inr (x, e1) ↦
            Outcome-of before call (err x, failed_fetch command files x)
              (simp (e1, apply_pending_command)) (inr (inl reported), inl acks)
        | inl (o, e1) ↦ elim (Option-cases o) [
          | inl e2 ↦
              Outcome-of before call (ok tt, files) (simp (e1, e2, apply_pending_command))
                (inr (inl reported), inl acks)
          | inr (patch, e2) ↦
              Outcome-of before call
                (acknowledge_patch c d j ja m s command patch
                  (apply_patch c d j ja m s device_uuid check_in command patch keys ledger
                    files.remote_state)
                  files)
                (simp (e1, e2, apply_pending_command))
                (acknowledge_patch-Outcome check_in command patch ledger before files reported
                  answered loaded pending (e1 ∙ ap ok e2) acks)
        ]
      ]

  apply_check_in-Outcome :
      (check_in : CheckInResponse) (files : Files) (activity : File)
      → s.check_in ≡ ok check_in
      → Outcome files
          (apply_check_in c d j ja m s device_uuid check_in keys
            (record files { api_activity = activity })).1
  unfolding apply_check_in
  apply_check_in-Outcome check_in files activity answered =
      let noted_files : Files = record files { api_activity = activity } in
      let call = apply_check_in c d j ja m s device_uuid check_in keys noted_files in
      elim (Result-cases (load_command_security_state j files.remote_state)) [
        | inr (x, e1) ↦
            Outcome-of files call (err x, noted_files) (simp (e1, apply_check_in))
              (inl refl, inl refl)
        | inl (ledger, e1) ↦
            let state = reported_state c d j ja m s device_uuid check_in ledger in
            let r = persist_remote_state j m.persist_write files.remote_state state in
            let after : Files = record noted_files { remote_state = r.1 } in
            let (kept, done) =
              persist_remote_state-stored j law m.persist_write files.remote_state state in
            let reported : stored j r.1 ≡ some state → Reported files.remote_state r.1 = λ h.
              record {
                check_in = check_in;
                answered = answered;
                ledger = ledger;
                loaded = e1;
                holds = h;
              } in
            elim (Result-cases r.0) [
              | inr (x, e2) ↦
                  Outcome-of files call (err x, after) (simp (e1, e2, apply_check_in))
                    (elim kept [ inl same ↦ inl same | inr h ↦ inr (inl (reported h)) ], inl refl)
              | inl (u, e2) ↦ elim (Option-cases check_in.pending_command) [
                | inl e3 ↦
                    Outcome-of files call (ok tt, after) (simp (e1, e2, e3, apply_check_in))
                      (inr (inl (reported (done e2))), inl refl)
                | inr (command, e3) ↦
                    Outcome-of files call
                      (apply_pending_command c d j ja m s device_uuid check_in command keys ledger
                        after)
                      (simp (e1, e2, e3, apply_check_in))
                      (apply_pending_command-Outcome check_in command ledger files after
                        (reported (done e2)) answered e1 e3 refl)
              ]
            ]
      ]

  abbrev noted : Files → Text → Files
  noted files response = record files {
    api_activity =
        record_api_activity ja m.check_in_activity files.api_activity
          (check_in_event c d j ja m s response);
  }

  pub synchronize_remote_state-Outcome :
      (files : Files)
      → Outcome files (synchronize_remote_state c d j ja m s device_uuid keys files).1
  unfolding synchronize_remote_state
  synchronize_remote_state-Outcome files =
      let call = synchronize_remote_state c d j ja m s device_uuid keys files in
      elim (Result-cases (lock m.lock)) [
        | inr (x, e1) ↦
            Outcome-of files call (err (store x), files) (simp (e1, synchronize_remote_state))
              (inl refl, inl refl)
        | inl (u, e1) ↦ elim (Result-cases s.check_in) [
          | inr (x, e2) ↦
              Outcome-of files call (err x, noted files (chars "error: " ++ d.error x))
                (simp (e1, e2, synchronize_remote_state)) (inl refl, inl refl)
          | inl (check_in, e2) ↦
              let next = noted files (check_in_response c d j ja m s check_in) in
              Outcome-of files call (apply_check_in c d j ja m s device_uuid check_in keys next)
                (simp (e1, e2, synchronize_remote_state))
                (apply_check_in-Outcome check_in files next.api_activity e2)
        ]
      ]
