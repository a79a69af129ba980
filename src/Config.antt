-- ===== src/Config.antt =====
-- apps/windows-agent/src/agent/config.rs: the local configuration, its repair, and the trusted keys.
pub mod Repair
use desktop_mdm.Prelude.{
  ℕ, zero, suc, ◌+◌, ◌≡◌, Bool, true, false, Option, none, some, List, [], ◌∷◌, if◌then◌else◌,
  is_some, ◌==◌, ℕ_eq, Bool_eq, ltb,
}
use desktop_mdm.Prelude.Result.{Result, ok, err}
use desktop_mdm.Text.{Text, chars}
use desktop_mdm.Recovery.Token.{Uuid}
use desktop_mdm.Extern.{Json}
use desktop_mdm.StateStore.{File, missing, unreadable, content, StoreError, WriteIo, write_json}
use desktop_mdm.Command.{Crypto, SecurityError, normalize_public_key}

pub record AgentConfig : Type 0 where
  pub device_id : Uuid
  pub api_base : Text
  pub agent_token : Option Text
  pub remote_device_id : Option Uuid
  pub trusted_command_signing_keys : List (ℕ × Text)

-- The mirror for the unprivileged UI.
pub record UiConfig : Type 0 where
  pub device_id : Uuid
  pub remote_device_id : Option Uuid
  pub enrolled : Bool
  pub api_base : Text

pub data ConfigError : Type 0 where
  read_config no_backup_name preserve key_id_zero : ConfigError
  key : SecurityError → ConfigError
  store : StoreError → ConfigError

-- config.json, ui-config.json, and config.invalid.json with its numbered successors.
pub record ConfigFiles : Type 0 where
  pub config : File
  pub ui_config : File
  pub backup : ℕ → File

pub record ConfigIo : Type 0 where
  pub renamed : Bool
  pub config_write : WriteIo
  pub ui_write : WriteIo

abbrev pub default_api_base : Text
default_api_base = chars "https://emi-api.yajtech.com"

-- A configuration for a machine without one; `device_id` is the new random UUID.
unfoldable pub fresh_config : Uuid → AgentConfig
fresh_config device_id = record {
  device_id = device_id;
  api_base = default_api_base;
  agent_token = none;
  remote_device_id = none;
  trusted_command_signing_keys = [];
}

-- `Path::exists`, where the metadata of the file can be read.
unfoldable pub exists : File → Bool
exists missing = false
exists unreadable = true
exists (content bytes) = true

-- The first suffix from `suffix` on, of so many, whose name is free.
unfoldable pub free_suffix : (ℕ → File) → ℕ → ℕ → Option ℕ
unfolding exists
free_suffix backup zero suffix = none
free_suffix backup (suc n) suffix =
    let rest = free_suffix backup n (suffix + 1) in
    if exists (backup suffix) then rest else some suffix

unfoldable pub set_backup : ℕ → File → (ℕ → File) → ℕ → File
set_backup suffix file backup n = if n == suffix then file else backup n

-- The loop over `0..=u16::MAX`, and the rename.
unfoldable pub backup_invalid_config :
    Bool → ConfigFiles → Result ConfigError (Unit {0}) × ConfigFiles
unfolding set_backup
backup_invalid_config renamed files = elim (free_suffix files.backup 65536 0) [
  | none ↦ (err no_backup_name, files)
  | some suffix ↦
      if renamed
      then (
        ok tt,
        record files { config = missing; backup = set_backup suffix files.config files.backup },
      )
      else (err preserve, files)
]

-- A token without its device UUID, or the reverse, is no enrolment.
unfoldable pub repair : AgentConfig → AgentConfig
repair config =
    if is_some config.agent_token == is_some config.remote_device_id
    then config
    else record config { agent_token = none; remote_device_id = none }

unfoldable pub ui_config_of : AgentConfig → UiConfig
ui_config_of config = record {
  device_id = config.device_id;
  remote_device_id = config.remote_device_id;
  enrolled = is_some config.agent_token;
  api_base = config.api_base;
}

module _ (j : Json AgentConfig) (ju : Json UiConfig) where
  unfoldable pub write_ui_config :
      WriteIo → ConfigFiles → AgentConfig → Result ConfigError (Unit {0}) × ConfigFiles
  write_ui_config io files config =
      let r = write_json ju io files.ui_config (ui_config_of config) false in
      let after : ConfigFiles = record files { ui_config = r.1 } in
      elim r.0 [ ok u ↦ (ok tt, after) | err x ↦ (err (store x), after) ]

  -- Both writes, the second only after the first.
  unfoldable pub write_configs :
      ConfigIo → ConfigFiles → AgentConfig → Result ConfigError AgentConfig × ConfigFiles
  unfolding write_ui_config
  write_configs io files config =
      let r = write_json j io.config_write files.config config true in
      let after : ConfigFiles = record files { config = r.1 } in
      elim r.0 [
        | err x ↦ (err (store x), after)
        | ok u ↦
            let q = write_ui_config io.ui_write after config in
            elim q.0 [ ok v ↦ (ok config, q.1) | err x ↦ (err x, q.1) ]
      ]

  -- The match on `fs::read`.
  unfoldable pub load_config :
      ConfigIo → Uuid → ConfigFiles → File → Result ConfigError AgentConfig × ConfigFiles
  load_config io new_id files missing = (ok (fresh_config new_id), files)
  load_config io new_id files unreadable = (err read_config, files)
  load_config io new_id files (content bytes) = elim (j.from_slice bytes) [
    | some config ↦ (ok config, files)
    | none ↦
        let r = backup_invalid_config io.renamed files in
        elim r.0 [ ok u ↦ (ok (fresh_config new_id), r.1) | err x ↦ (err x, r.1) ]
  ]

  unfoldable pub initialize :
      ConfigIo → Uuid → ConfigFiles → Result ConfigError AgentConfig × ConfigFiles
  initialize io new_id files =
      let r = load_config io new_id files files.config in
      elim r.0 [ err x ↦ (err x, r.1) | ok config ↦ write_configs io r.1 (repair config) ]

-- `BTreeMap::insert`
unfoldable pub insert_key : ℕ → Text → List (ℕ × Text) → List (ℕ × Text)
insert_key id value [] = (id, value) ∷ []
insert_key id value ((k, v) ∷ keys) =
    let rest = insert_key id value keys in
    if k == id
    then (id, value) ∷ keys
    else if ltb id k
    then (id, value) ∷ (k, v) ∷ keys
    else (k, v) ∷ rest

-- `trust_command_key`; `last_write` is its own write, after those of `initialize`.
unfoldable pub trust_command_key :
    Crypto
    → Json AgentConfig
    → Json UiConfig
    → ConfigIo
    → WriteIo
    → Uuid
    → ℕ
    → Text
    → ConfigFiles
    → Result ConfigError (Unit {0}) × ConfigFiles
trust_command_key c j ju io last_write new_id key_id public_key files =
    if key_id == 0 then (err key_id_zero, files) else elim (normalize_public_key c public_key) [
      | err x ↦ (err (key x), files)
      | ok normalized ↦
          let r = initialize j ju io new_id files in
          elim r.0 [
            | err x ↦ (err x, r.1)
            | ok config ↦
                let keys = insert_key key_id normalized config.trusted_command_signing_keys in
                let q =
                  write_json j last_write r.1.config
                    (record config { trusted_command_signing_keys = keys }) true in
                let after : ConfigFiles = record r.1 { config = q.1 } in
                elim q.0 [ ok u ↦ (ok tt, after) | err x ↦ (err (store x), after) ]
          ]
    ]
