-- ===== src/Config/Repair.antt =====
-- What `initialize` leaves on disk.
use desktop_mdm.Prelude.{
  ℕ, zero, suc, ◌+◌, ◌≡◌, ◌<◌, ◌⊎◌, inl, inr, refl, sym, ◌∙◌, Bool, true, false, Option, none, some,
  List, arith, is_some, ◌==◌, ℕ_eq, Bool_eq, ==_iff, ==_refl, Bool-cases, Option-cases, ap,
}
use desktop_mdm.Prelude.Result.{Result, ok, err, Result-cases}
use desktop_mdm.Recovery.Token.{Uuid}
use desktop_mdm.Extern.{Json, IsJson}
use desktop_mdm.StateStore.{File, missing, unreadable, content, write_json}
use desktop_mdm.StateStore.Stored.{stored, write_json-stored}
use desktop_mdm.Config.{
  AgentConfig, UiConfig, ConfigFiles, ConfigIo, ConfigError, exists, free_suffix, set_backup,
  backup_invalid_config, repair, ui_config_of, write_ui_config, write_configs, load_config,
  initialize, fresh_config, WriteIo,
}

-- The free name that the loop finds is free, and comes after none that is.
free_suffix-free :
    (backup : ℕ → File) (n suffix found : ℕ)
    → free_suffix backup n suffix ≡ some found
    → (exists (backup found) ≡ false) × (found < suffix + n)
unfolding free_suffix
free_suffix-free backup zero suffix found h = cc
free_suffix-free backup (suc n) suffix found h = elim (Bool-cases (exists (backup suffix))) [
  | inl taken ↦
      let (e, lt) = free_suffix-free backup n (suffix + 1) found (rw (taken, free_suffix) at h) in
      (e, omega (arith, lt))
  | inr free ↦
      let same : suffix ≡ found = some_same suffix found (rw (free, free_suffix) at h) in
      (rw (← same) free, omega (arith, same))
]
  where
    some_same : (a b : ℕ) → ◌≡◌ {A = Option ℕ} (some a) (some b) → a ≡ b
    some_same a b h = cc

-- The old configuration file stands under a backup name that was free, the other backups as before.
pub record IsPreserved (before after : ConfigFiles) : Type 0 where
  pub suffix : ℕ
  pub was_free : exists (before.backup suffix) ≡ false
  pub in_range : suffix < 65536
  pub moved : after.backup suffix ≡ before.config
  pub others : (n : ℕ) → (n == suffix) ≡ false → after.backup n ≡ before.backup n

abbrev pub Backed : ConfigFiles → Result ConfigError (Unit {0}) × ConfigFiles → Type 0
Backed files r =
    ((r.0 ≡ ok tt) × IsPreserved files r.1) ⊎ ((x : ConfigError) × (r.0 ≡ err x) × (r.1 ≡ files))

backup_invalid_config-IsPreserved :
    (renamed : Bool) (files : ConfigFiles) → Backed files (backup_invalid_config renamed files)
unfolding backup_invalid_config set_backup
backup_invalid_config-IsPreserved renamed files =
    elim (Option-cases (free_suffix files.backup 65536 0)) [
      | inl e ↦ rw (e, backup_invalid_config) (inr (_, refl, refl))
      | inr (suffix, e) ↦
          let (free, lt) = free_suffix-free files.backup 65536 0 suffix e in
          elim (Bool-cases renamed) [
            | inr failed ↦ rw (e, failed, backup_invalid_config) (inr (_, refl, refl))
            | inl good ↦
                rw (e, good, backup_invalid_config)
                  (inl (
                    refl,
                    record {
                      suffix = suffix;
                      was_free = free;
                      in_range = omega (arith, lt);
                      moved = rw (==_refl suffix) refl;
                      others = λ n other. rw other refl;
                    },
                  ))
          ]
    ]

repair-paired :
    (c : AgentConfig) → is_some (repair c).agent_token ≡ is_some (repair c).remote_device_id
unfolding repair
repair-paired c = elim (Bool-cases (is_some c.agent_token == is_some c.remote_device_id)) [
  | inl paired ↦ rw paired ((==_iff (is_some c.agent_token) (is_some c.remote_device_id)).0 paired)
  | inr other ↦ rw other refl
]

module _ (j : Json AgentConfig) (law : IsJson j) (ju : Json UiConfig) (lawu : IsJson ju) where
  -- Both documents are on disk and agree, and an enrolment is whole.
  pub record IsWritten (config : AgentConfig) (after : ConfigFiles) : Type 0 where
    pub paired : is_some config.agent_token ≡ is_some config.remote_device_id
    pub on_disk : stored j after.config ≡ some config
    pub mirrored : stored ju after.ui_config ≡ some (ui_config_of config)

  Outcome : AgentConfig → ConfigFiles → Result ConfigError AgentConfig × ConfigFiles → Type 0
  Outcome config files r =
      (r.1.backup ≡ files.backup)
      × ((x : AgentConfig)
          → r.0 ≡ ok x
          → (x ≡ config)
            × (stored j r.1.config ≡ some config)
            × (stored ju r.1.ui_config ≡ some (ui_config_of config)))

  config_of_ok :
      (a b : AgentConfig) → ◌≡◌ {A = Result ConfigError AgentConfig} (ok a) (ok b) → b ≡ a
  config_of_ok a b h = cc

  write_ui_config-mirrored :
      (io : WriteIo) (files : ConfigFiles) (config : AgentConfig)
      → let r = write_ui_config j ju io files config in
        (r.1.backup ≡ files.backup)
        × (r.1.config ≡ files.config)
        × (r.0 ≡ ok tt → stored ju r.1.ui_config ≡ some (ui_config_of config))
  unfolding write_ui_config
  write_ui_config-mirrored io files config =
      elim (Result-cases (write_json ju io files.ui_config (ui_config_of config) false).0) [
        | inr (x, e) ↦ rw (e, write_ui_config) (refl, refl, λ h. cc)
        | inl (u, e) ↦
            rw (e, write_ui_config)
              (
                refl,
                refl,
                λ h. (write_json-stored ju lawu io files.ui_config (ui_config_of config) false).1 e,
              )
      ]

  write_configs-Outcome :
      (io : ConfigIo) (files : ConfigFiles) (config : AgentConfig)
      → Outcome config files (write_configs j ju io files config)
  unfolding write_configs Outcome
  write_configs-Outcome io files config =
      let w = write_json j io.config_write files.config config true in
      let after : ConfigFiles = record files { config = w.1 } in
      let q = write_ui_config j ju io.ui_write after config in
      let (backups, kept, mirrored) = write_ui_config-mirrored io.ui_write after config in
      elim (Result-cases w.0) [
        | inr (x, e1) ↦ rw (e1, write_configs) (refl, λ y h. cc)
        | inl (u, e1) ↦ elim (Result-cases q.0) [
          | inr (x, e2) ↦ rw (e1, e2, write_configs) (backups, λ y h. cc)
          | inl (v, e2) ↦
              rw (e1, e2, write_configs)
                (
                  backups,
                  λ y h. (
                    config_of_ok config y h,
                    ap (stored j) kept
                        ∙ (write_json-stored j law io.config_write files.config config true).1 e1,
                    mirrored e2,
                  ),
                )
        ]
      ]

  -- A configuration that does not decode is still there, in place or under a backup name.
  abbrev pub Survives : ConfigFiles → ConfigFiles → Type 0
  Survives before after =
      (bytes : List ℕ)
      → before.config ≡ content bytes
      → j.from_slice bytes ≡ none
      → (after.config ≡ content bytes) ⊎ IsPreserved before after

  Loaded : ConfigFiles → Result ConfigError AgentConfig × ConfigFiles → Type 0
  Loaded files r =
      ((x : ConfigError) × (r.0 ≡ err x) × (r.1 ≡ files))
      ⊎ ((c : AgentConfig) × (r.0 ≡ ok c)
          × (((bytes : List ℕ)
              → files.config ≡ content bytes
              → j.from_slice bytes ≡ none
              → IsPreserved files r.1)))

  missing_not_content : (bytes : List ℕ) → ◌≡◌ {A = File} missing (content bytes) → ⊥
  missing_not_content bytes h = cc

  same_bytes : (a b : List ℕ) → ◌≡◌ {A = File} (content a) (content b) → a ≡ b
  same_bytes a b h = cc

  load_config-Loaded :
      (io : ConfigIo) (new_id : Uuid) (files : ConfigFiles) (file : File)
      → files.config ≡ file
      → Loaded files (load_config j ju io new_id files file)
  unfolding load_config Loaded
  load_config-Loaded io new_id files missing same =
      inr
        (fresh_config new_id, refl, λ bytes h k. absurd (missing_not_content bytes (sym same ∙ h)))
  load_config-Loaded io new_id files unreadable same = inl (_, refl, refl)
  load_config-Loaded io new_id files (content bytes) same =
      elim (Option-cases (j.from_slice bytes)) [
        | inr (config, e) ↦
            rw (e, load_config)
              (inr (
                config,
                refl,
                λ b h k. absurd (not_both b bytes config (same_bytes bytes b (sym same ∙ h)) e k),
              ))
        | inl e ↦ elim (backup_invalid_config-IsPreserved io.renamed files) [
          | inl (done, kept) ↦
              rw (e, done, load_config) (inr (fresh_config new_id, refl, λ b h k. kept))
          | inr (x, failed, left) ↦ rw (e, failed, load_config) (inl (x, refl, left))
        ]
      ]
    where
      not_both :
          (b c : List ℕ) (config : AgentConfig)
          → c ≡ b
          → j.from_slice c ≡ some config
          → j.from_slice b ≡ none
          → ⊥
      not_both b c config same h k = cc

  IsPreserved-still :
      (files middle after : ConfigFiles)
      → after.backup ≡ middle.backup
      → IsPreserved files middle
      → IsPreserved files after
  IsPreserved-still files middle after same v = record {
    suffix = v.suffix;
    was_free = v.was_free;
    in_range = v.in_range;
    moved = ap (λ (b : ℕ → File). b v.suffix) same ∙ v.moved;
    others = λ n other. ap (λ (b : ℕ → File). b n) same ∙ v.others n other;
  }

  Loaded-initialize :
      (io : ConfigIo) (files : ConfigFiles) (load : Result ConfigError AgentConfig × ConfigFiles)
      → Loaded files load
      → let r = elim load.0 as (λ _. Result ConfigError AgentConfig × ConfigFiles) [
        | err x ↦ (err x, load.1)
        | ok config ↦ write_configs j ju io load.1 (repair config)
      ] in
        Survives files r.1 × ((config : AgentConfig) → r.0 ≡ ok config → IsWritten config r.1)
  unfolding Loaded Outcome
  Loaded-initialize io files load (inl (x, e, left)) =
      rw e (λ bytes h k. inl (ap (λ (f : ConfigFiles). f.config) left ∙ h), λ config h. cc)
  Loaded-initialize io files load (inr (c, e, kept)) =
      let (backups, written) = write_configs-Outcome io load.1 (repair c) in
      rw e (
        λ bytes h k. inr (IsPreserved-still files load.1 _ backups (kept bytes h k)),
        λ config h.
            let (same, disk, mirror) = written config h in
            rw same (record { paired = repair-paired c; on_disk = disk; mirrored = mirror }),
      )

  -- Whatever fails, `initialize` never destroys a configuration file that does not decode: the
  -- bytes are still in place, or under a backup name that was free, with the other backups as
  -- before. And where it succeeds, config.json holds the configuration that it returns, with a
  -- token exactly where there is a remote device, and ui-config.json holds its mirror.
  pub initialize-Survives :
      (io : ConfigIo) (new_id : Uuid) (files : ConfigFiles)
      → let r = initialize j ju io new_id files in
        Survives files r.1 × ((config : AgentConfig) → r.0 ≡ ok config → IsWritten config r.1)
  unfolding initialize
  initialize-Survives io new_id files =
      let load = load_config j ju io new_id files files.config in
      Loaded-initialize io files load (load_config-Loaded io new_id files files.config refl)
