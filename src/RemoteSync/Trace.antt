-- ===== src/RemoteSync/Trace.antt =====
-- The rounds of a history of synchronizations, and what each does to the replay state.
use desktop_mdm.Prelude.{ap, ◌++◌, drop, ℕ, ◌≡◌, ◌≢◌, refl, some, List, [], ◌∷◌}
use desktop_mdm.Prelude.Result.{Result, ok}
use desktop_mdm.Text.{Text}
use desktop_mdm.Recovery.Token.{Uuid}
use desktop_mdm.Recovery.Verify.{Time}
use desktop_mdm.Extern.{Json}
use desktop_mdm.StateStore.{File, missing, unreadable, content}
use desktop_mdm.StateStore.Stored.{stored}
use desktop_mdm.Api.{PendingCommand, PatchFile, CheckInResponse}
use desktop_mdm.Command.{Crypto, CommandSecurityState, verify_command_patch, applied_security_state}
use desktop_mdm.Command.History.{History, start, applies}
use desktop_mdm.RemoteSync.{
  SecuredRemoteState, SyncError, Machine, Server, load_command_security_state, later, Ack,
}
use desktop_mdm.RemoteSync.Verified.{Moves, unsigned, signed}

-- One synchronization: the device, the trusted keys, the machine and the server.
pub record Round : Type 0 where
  pub device_uuid : Uuid
  pub keys : List (ℕ × Text)
  pub machine : Machine
  pub server : Server

pub load_command_security_state-stored :
    (j : Json SecuredRemoteState) (file : File) (state : SecuredRemoteState)
    → stored j file ≡ some state
    → load_command_security_state j file ≡ ok state.command_security
unfolding load_command_security_state
load_command_security_state-stored j missing state h = cc
load_command_security_state-stored j unreadable state h = cc
load_command_security_state-stored j (content bytes) state h =
    rw (h, load_command_security_state) refl

pub same_ledger :
    (a b : CommandSecurityState) (r : Result SyncError CommandSecurityState)
    → r ≡ ok a
    → r ≡ ok b
    → a ≡ b
same_ledger a b r h k = cc

-- What a synchronization does to the replay state: it keeps it, or it applies the pending command that
-- the server reported with the patch that the server gave, verified for the device of the round and
-- under its trusted keys.
pub data RoundMoves (c : Crypto) (r : Round) (old : CommandSecurityState)
    : CommandSecurityState → Type 0 where
  kept : RoundMoves c r old old
  applied :
      (check_in : CheckInResponse) (command : PendingCommand) (patch : PatchFile)
      (new : CommandSecurityState)
      → r.server.check_in ≡ ok check_in
      → check_in.pending_command ≡ some command
      → r.server.current_patch ≡ ok (some patch)
      → verify_command_patch c r.device_uuid command patch
          (later check_in.server_time r.machine.verified_at)
          r.keys
          old
        ≡ ok tt
      → applied_security_state c r.device_uuid old command patch ≡ ok new
      → RoundMoves c r old new

-- The same for each round in turn.
pub data Trace (c : Crypto)
    : List Round → CommandSecurityState → CommandSecurityState → Type 0 where
  done : (s : CommandSecurityState) → Trace c [] s s
  next :
      (r : Round) (rs : List Round) (s t u : CommandSecurityState)
      → RoundMoves c r s t
      → Trace c rs t u
      → Trace c (r ∷ rs) s u

pub RoundMoves-History :
    {c : Crypto} {r : Round} {s t : CommandSecurityState} → RoundMoves c r s t → History c s t
RoundMoves-History kept = start
RoundMoves-History (applied check_in command patch new a p f v n) = applies start _ _ _ _ _ v n

pub Moves-signed :
    {c : Crypto} {device_uuid : Uuid} {command : PendingCommand} {patch : PatchFile} {now : Time}
    {keys : List (ℕ × Text)} {old new : CommandSecurityState}
    → keys ≢ []
    → Moves c device_uuid command patch now keys old new
    → (verify_command_patch c device_uuid command patch now keys old ≡ ok tt)
      × (applied_security_state c device_uuid old command patch ≡ ok new)
Moves-signed some_key (unsigned e) = absurd (some_key e)
Moves-signed some_key (signed new v a) = (v, a)

pub History-append :
    {c : Crypto} {s t u : CommandSecurityState} → History c s t → History c t u → History c s u
History-append h start = h
History-append h (applies k d p q n ks v a) = applies (History-append h k) d p q n ks v a

pub Trace-History :
    {c : Crypto} {rs : List Round} {s t : CommandSecurityState} → Trace c rs s t → History c s t
Trace-History (done s) = start
Trace-History (next r rs s t u moves rest) =
    History-append (RoundMoves-History moves) (Trace-History rest)

pub grown : (a : List Ack) (x : Ack) → a ++ x ∷ [] ≢ a
grown [] x h = cc
grown (y ∷ ys) x h = grown ys x (ap (drop 1) h)

pub last_ack : (a : List Ack) (x y : Ack) → a ++ x ∷ [] ≡ a ++ y ∷ [] → x ≡ y
last_ack [] x y h = cc
last_ack (z ∷ zs) x y h = last_ack zs x y (ap (drop 1) h)
