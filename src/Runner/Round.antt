-- ===== src/Runner/Round.antt =====
-- What a round of the loop does: which check-ins it makes, and when.
use desktop_mdm.SessionUi.{starts_ui}
use desktop_mdm.Enrollment.{read_config, check_or_enroll_config, EnrollError, EnrollFiles}
use desktop_mdm.Command.{Crypto}
use desktop_mdm.Health.{DeviceHealth, write_health_snapshot}
use desktop_mdm.RemoteSync.{SecuredRemoteState, Display, device_locked, Display, device_locked}
use desktop_mdm.Storage.{EnrollmentStatus, ApiActivity}
use desktop_mdm.Config.{AgentConfig, UiConfig}
use desktop_mdm.Api.Client.{Urls, AgentApi}
use desktop_mdm.Runner.{
  and_then, Step, Runner, RoundIo, health_step, guard_step, reload_step, enrollment_step,
  screen_step, ensure_lock_screen, same_credentials, api_of, RunError,
}
use desktop_mdm.Command.{Crypto}
use desktop_mdm.Storage.{EnrollmentStatus, ApiActivity}
use desktop_mdm.Api.Client.{new}
use desktop_mdm.StateStore.{lock}
use desktop_mdm.Prelude.{
  Option, ◌∙◌, ◌≡◌, refl, sym, ap, ◌≢◌, ◌⊎◌, inl, inr, Bool, true, false, ◌&&◌, ◌||◌, not, none,
  some, leb, Bool-cases, Option-cases, ℕ_eq, Bool_eq, List_eq, Option_eq, Option,
}
use desktop_mdm.Prelude.Result.{Result, ok, err, Result-cases}
use desktop_mdm.Extern.{Json}

-- What holds of the variables after the first step, and what follows from it after the chain.
pub and_then_elim :
    (Q P : Runner → Type 0) (st : Step) (next : Runner → Step)
    → Q st.1
    → ((s : Runner) → Q s → P s)
    → ((s : Runner) → st ≡ (ok tt, s) → Q s → P (next s).1)
    → P (and_then st next).1
unfolding and_then
and_then_elim Q P (ok v, s) next q weak keep = keep s refl q
and_then_elim Q P (err x, s) next q weak keep = weak s q

pub failed : {x : RunError} {a b : Runner} → ◌≢◌ {A = Step} (err x, a) (ok tt, b)
failed {x} {a} {b} e =
    let differs : ◌≡◌ {A = Result RunError (Unit {0})} (err x) (ok tt) = ap (λ (r : Step). r.0) e in
    cc

-- A chain that succeeds has a first step that succeeds.
pub and_then-ok :
    (st : Step) (next : Runner → Step) (t : Runner)
    → and_then st next ≡ (ok tt, t)
    → (s : Runner) × (st ≡ (ok tt, s)) × (next s ≡ (ok tt, t))
unfolding and_then
and_then-ok (ok v, s) next t h = (s, refl, h)
and_then-ok (err x, s) next t h = absurd (failed h)

-- The step makes no check-in.
abbrev pub Keeps : Runner → Step → Type 0
Keeps s st = (st.1.check_ins ≡ s.check_ins) × (st.1.next_check_in ≡ s.next_check_in)

module _ (u : Urls) (j : Json AgentConfig) (ju : Json UiConfig) (js : Json EnrollmentStatus)
    (ja : Json ApiActivity) (jr : Json SecuredRemoteState) (jh : Json DeviceHealth) (c : Crypto)
    (d : Display) (once auto_enroll : Bool) (io : RoundIo) where
  pub health_step-Keeps :
      (resumed : Bool) (s : Runner)
      → Keeps s (health_step u j ju js ja jr jh c d once auto_enroll io resumed s)
  unfolding health_step
  health_step-Keeps resumed s = elim (Bool-cases (leb s.next_health io.health_at || resumed)) [
    | inr early ↦ rw (early, health_step) (refl, refl)
    | inl due ↦
        elim (Result-cases
          (write_health_snapshot jh io.health_io s.config.device_id s.files.health).0) [
            | inl (v, e) ↦ rw (due, e, health_step) (refl, refl)
            | inr (x, e) ↦ rw (due, e, health_step) (refl, refl)
          ]
  ]

  -- The configuration, its files and the client, and when the next enrolment check is due.
  pub health_step-same :
      (resumed : Bool) (s : Runner)
      → let st = health_step u j ju js ja jr jh c d once auto_enroll io resumed s in
        (st.1.files.enroll ≡ s.files.enroll)
        × (st.1.next_enrollment ≡ s.next_enrollment)
        × (st.1.config ≡ s.config)
        × (st.1.api ≡ s.api)
  unfolding health_step
  health_step-same resumed s = elim (Bool-cases (leb s.next_health io.health_at || resumed)) [
    | inr early ↦ rw (early, health_step) (refl, refl, refl, refl)
    | inl due ↦
        elim (Result-cases
          (write_health_snapshot jh io.health_io s.config.device_id s.files.health).0) [
            | inl (v, e) ↦ rw (due, e, health_step) (refl, refl, refl, refl)
            | inr (x, e) ↦ rw (due, e, health_step) (refl, refl, refl, refl)
          ]
  ]

  pub guard_step-same :
      (due : Bool) (s : Runner)
      → (guard_step u j ju js ja jr jh c d once auto_enroll io due s).1 ≡ s
  unfolding guard_step
  guard_step-same false s = refl
  guard_step-same true s = elim (Bool-cases io.data_dir_found) [
    | inr lost ↦ rw (lost, guard_step) refl
    | inl found ↦ elim (Result-cases (lock io.guard)) [
      | inl (v, e) ↦ rw (found, e, guard_step) refl
      | inr (x, e) ↦ rw (found, e, guard_step) refl
    ]
  ]

  pub guard_step-Keeps :
      (due : Bool) (s : Runner)
      → Keeps s (guard_step u j ju js ja jr jh c d once auto_enroll io due s)
  guard_step-Keeps due s = rw (guard_step-same due s) (refl, refl)

  pub reload_step-Keeps :
      (s : Runner) → Keeps s (reload_step u j ju js ja jr jh c d once auto_enroll io s)
  unfolding reload_step
  reload_step-Keeps s = elim (Option-cases (read_config j ju js ja s.files.enroll.configs.config)) [
    | inl e ↦ rw (e, reload_step) (refl, refl)
    | inr (disk, e) ↦
        elim (Bool-cases (same_credentials u j ju js ja jr jh c d once auto_enroll s.config disk)) [
          | inl same ↦ rw (e, same, reload_step) (refl, refl)
          | inr other ↦ elim (Result-cases (api_of u io.client_built disk)) [
            | inl (api, e2) ↦ rw (e, other, e2, reload_step) (refl, refl)
            | inr (x, e2) ↦ rw (e, other, e2, reload_step) (refl, refl)
          ]
        ]
  ]

  pub enrollment_step-Keeps :
      (due : Bool) (s : Runner)
      → Keeps s (enrollment_step u j ju js ja jr jh c d once auto_enroll io due s)
  unfolding enrollment_step
  enrollment_step-Keeps false s = (refl, refl)
  enrollment_step-Keeps true s =
      let r = check_or_enroll_config j ju js ja io.enroll_io none s.config s.files.enroll in
      elim (Result-cases r.1.0) [
        | inl (v, e) ↦ elim (Result-cases (new u io.client_built r.0.api_base)) [
          | inl (api, e2) ↦ rw (e, e2, enrollment_step) (refl, refl)
          | inr (x, e2) ↦ rw (e, e2, enrollment_step) (refl, refl)
        ]
        | inr (x, e) ↦ elim (Bool-cases once) [
          | inl one ↦ rw (e, one, enrollment_step) (refl, refl)
          | inr long ↦ rw (e, long, enrollment_step) (refl, refl)
        ]
      ]

  pub screen_step-Keeps :
      (s : Runner) → Keeps s (screen_step u j ju js ja jr jh c d once auto_enroll io s)
  unfolding screen_step ensure_lock_screen
  screen_step-Keeps s = elim (Bool-cases (not once && leb s.next_lock_screen_check io.screen_at)) [
    | inr early ↦ rw (early, screen_step) (refl, refl)
    | inl due ↦
        elim (Bool-cases (device_locked jr s.files.remote.remote_state && starts_ui io.console)) [
          | inl start ↦ rw (due, start, screen_step, ensure_lock_screen) (refl, refl)
          | inr stay ↦ rw (due, stay, screen_step, ensure_lock_screen) (refl, refl)
        ]
  ]

  -- After the reload: the configuration and the client in memory stay where the file has the same
  -- credentials, and otherwise are the file's configuration and the client that is built for it.
  pub record Reloaded (files : EnrollFiles) (config : AgentConfig) (api : Option AgentApi)
      (disk : AgentConfig) (t : Runner) : Type 0 where
    pub read : read_config j ju js ja files.configs.config ≡ some disk
    pub same_files : t.files.enroll ≡ files
    pub way :
        ((same_credentials u j ju js ja jr jh c d once auto_enroll config disk ≡ true)
          × (t.config ≡ config)
          × (t.api ≡ api))
        ⊎ ((same_credentials u j ju js ja jr jh c d once auto_enroll config disk ≡ false)
            × (t.config ≡ disk)
            × (api_of u io.client_built disk ≡ ok t.api))

  pub reload_step-ok :
      (s t : Runner)
      → reload_step u j ju js ja jr jh c d once auto_enroll io s ≡ (ok tt, t)
      → (disk : AgentConfig) × Reloaded s.files.enroll s.config s.api disk t
  unfolding reload_step
  reload_step-ok s t h =
      elim (Option-cases (read_config j ju js ja s.files.enroll.configs.config)) [
        | inl e ↦ absurd (failed (rw (e, reload_step) at h))
        | inr (disk, e) ↦
            elim (Bool-cases
              (same_credentials u j ju js ja jr jh c d once auto_enroll s.config disk)) [
                | inl same ↦
                    let left : s ≡ t = ap (λ (r : Step). r.1) (rw (e, same, reload_step) at h) in
                    (
                      disk,
                      record {
                        read = e;
                        same_files = ap (λ (r : Runner). r.files.enroll) (sym left);
                        way = inl (
                          same,
                          ap (λ (r : Runner). r.config) (sym left),
                          ap (λ (r : Runner). r.api) (sym left),
                        );
                      },
                    )
                | inr other ↦ elim (Result-cases (api_of u io.client_built disk)) [
                  | inl (api, e2) ↦
                      let left = ap (λ (r : Step). r.1) (rw (e, other, e2, reload_step) at h) in
                      (
                        disk,
                        record {
                          read = e;
                          same_files = ap (λ (r : Runner). r.files.enroll) (sym left);
                          way = inr (
                            other,
                            ap (λ (r : Runner). r.config) (sym left),
                            e2 ∙ ap (λ (r : Runner). ok r.api) left,
                          );
                        },
                      )
                  | inr (x, e2) ↦ absurd (failed (rw (e, other, e2, reload_step) at h))
                ]
              ]
      ]

  -- What the enrolment check of a round returned.
  abbrev pub checked_enrollment :
      Runner → AgentConfig × (Result EnrollError (Unit {0}) × EnrollFiles)
  checked_enrollment s = check_or_enroll_config j ju js ja io.enroll_io none s.config s.files.enroll

  -- The client and the configuration are those of an enrolment check that succeeded.
  pub record IsConfirmed (s t : Runner) : Type 0 where
    pub succeeded : (checked_enrollment s).1.0 ≡ ok tt
    pub same_config : t.config ≡ (checked_enrollment s).0
    pub api : AgentApi
    pub built : new u io.client_built t.config.api_base ≡ ok api
    pub has_api : t.api ≡ some api

  pub enrollment_step-ok :
      (s t : Runner)
      → enrollment_step u j ju js ja jr jh c d once auto_enroll io true s ≡ (ok tt, t)
      → ((t.api ≡ none) × (once ≡ false)) ⊎ IsConfirmed s t
  unfolding enrollment_step
  enrollment_step-ok s t h =
      let r = checked_enrollment s in
      elim (Result-cases r.1.0) [
        | inl (v, e) ↦ elim (Result-cases (new u io.client_built r.0.api_base)) [
          | inl (api, e2) ↦
              let left = ap (λ (x : Step). x.1) (rw (e, e2, enrollment_step) at h) in
              let config : r.0 ≡ t.config = ap (λ (x : Runner). x.config) left in
              inr (record {
                succeeded = e;
                same_config = sym config;
                api = api;
                built = rw (sym config) e2;
                has_api = ap (λ (x : Runner). x.api) (sym left);
              })
          | inr (x, e2) ↦ absurd (failed (rw (e, e2, enrollment_step) at h))
        ]
        | inr (x, e) ↦ elim (Bool-cases once) [
          | inl one ↦ absurd (failed (rw (e, one, enrollment_step) at h))
          | inr long ↦
              let left = ap (λ (x : Step). x.1) (rw (e, long, enrollment_step) at h) in
              inl (ap (λ (x : Runner). x.api) (sym left), long)
        ]
      ]
