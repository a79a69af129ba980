-- ===== src/Api.antt =====
-- apps/windows-agent/src/agent_api.rs: the messages of the agent's API.
pub mod Client
pub mod Download
use desktop_mdm.Prelude.{ℕ, ◌≡◌, ◌↔◌, Bool, true, false, Option, arith, nat_eq, PartialEq}
use desktop_mdm.Text.{Text}
use desktop_mdm.Recovery.Token.{Uuid}
use desktop_mdm.Recovery.Verify.{Time}

pub data LockStateKind : Type 0 where
  unlocked warning locked permanently_released : LockStateKind

unfoldable pub is_locked : LockStateKind → Bool
is_locked locked = true
is_locked _ = false

pub record LockState : Type 0 where
  pub state : LockStateKind
  pub reason : Text
  pub changed_at : Time

pub record PersistedRemoteState : Type 0 where
  pub device_uuid : Uuid
  pub lock_state : LockState
  pub checked_at : Time
  pub server_time : Time

pub data CommandAction : Type 0 where
  lock unlock warn release uninstall : CommandAction

action_index : CommandAction → ℕ
action_index lock = 0
action_index unlock = 1
action_index warn = 2
action_index release = 3
action_index uninstall = 4

-- The derived `==`.
unfoldable pub action_beq : CommandAction → CommandAction → Bool
unfolding action_index
action_beq a b = nat_eq (action_index a) (action_index b)

pub action_beq_iff : (a b : CommandAction) → (action_beq a b ≡ true) ↔ (a ≡ b)
unfolding action_beq
action_beq_iff a b = ground arith

instance abbrev pub CommandAction_eq : PartialEq CommandAction
CommandAction_eq = record { eq = action_beq; eq_iff = action_beq_iff }

pub record PendingCommand : Type 0 where
  pub uuid : Uuid
  pub action : CommandAction
  pub reason : Text
  pub nonce : Text
  pub expires_at : Time

pub record CheckInResponse : Type 0 where
  pub server_time : Time
  pub lock_state : LockState
  pub pending_command : Option PendingCommand

pub record PatchFile : Type 0 where
  pub uuid : Uuid
  pub lock_command_uuid : Uuid
  pub version : ℕ
  pub action : CommandAction
  pub checksum : Text
  pub size_bytes : ℕ
  pub signed_payload : Text
  pub signing_key_id : ℕ
  pub expires_at : Time
  pub download_url : Text
