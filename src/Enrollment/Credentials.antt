-- ===== src/Enrollment/Credentials.antt =====
-- The credentials that a call leaves in memory and on disk.
use desktop_mdm.Prelude.{
  ◌≡◌, inl, inr, refl, Bool, true, ◌&&◌, Option, none, some, arith, is_some, Bool-cases,
  Option-cases,
}
use desktop_mdm.Prelude.Result.{Result, ok, Result-cases}
use desktop_mdm.Text.{Text}
use desktop_mdm.Recovery.Verify.{Time}
use desktop_mdm.Extern.{Json}
use desktop_mdm.StateStore.{lock}
use desktop_mdm.Storage.{EnrollmentStatus}
use desktop_mdm.Config.{AgentConfig, UiConfig}
use desktop_mdm.Enrollment.{
  EnrollIo, EnrollFiles, EnrollError, CheckEnrollResponse, hardware_serial_number,
  recently_confirmed, clear_enrollment_credentials, enroll_config, renew, decide, check_current,
  read_config, check_or_enroll_config, ApiActivity, stored,
}

abbrev pub Outcome : Type 0
Outcome = AgentConfig × (Result EnrollError (Unit {0}) × EnrollFiles)

-- Success means a token and a remote device.
abbrev pub Credited : Outcome → Type 0
Credited r =
    r.1.0 ≡ ok tt → (is_some r.0.agent_token ≡ true) × (is_some r.0.remote_device_id ≡ true)

module _ (j : Json AgentConfig) (ju : Json UiConfig) (js : Json EnrollmentStatus)
    (ja : Json ApiActivity) (io : EnrollIo) where
  enroll_config-Credited :
      (cfg : AgentConfig) (server : Text) (files : EnrollFiles)
      → Credited (enroll_config j ju js ja io cfg server files)
  unfolding enroll_config
  enroll_config-Credited cfg server files =
      elim (Result-cases (hardware_serial_number io.enroll_serial_output)) [
        | inr (x, e1) ↦ rw (e1, enroll_config) (λ h. cc)
        | inl (serial, e1) ↦ elim (Bool-cases (io.client server)) [
          | inr e2 ↦ rw (e1, e2, enroll_config) (λ h. cc)
          | inl e2 ↦ elim (Result-cases (io.enroll serial)) [
            | inr (x, e3) ↦ rw (e1, e2, e3, enroll_config) (λ h. cc)
            | inl (r, e3) ↦ rw (e1, e2, e3, enroll_config) (λ h. (refl, refl))
          ]
        ]
      ]

  decide-Credited :
      (cfg : AgentConfig) (answer : CheckEnrollResponse) (files : EnrollFiles)
      → Credited (decide j ju js ja io cfg answer files)
  unfolding decide renew
  decide-Credited cfg answer files = elim (Bool-cases answer.enrolled) [
    | inl e1 ↦ elim (Bool-cases (is_some cfg.agent_token && is_some cfg.remote_device_id)) [
      | inl e2 ↦ rw (e1, e2, decide) (λ h. both _ _ e2)
      | inr e2 ↦ rw (e1, e2, decide) (λ h. cc)
    ]
    | inr e1 ↦ elim (Result-cases (clear_enrollment_credentials j ju js ja io cfg files).1.0) [
      | inr (x, e2) ↦ rw (e1, e2, decide, renew) (λ h. cc)
      | inl (u, e2) ↦ rw (e1, e2, decide, renew) (enroll_config-Credited _ _ _)
    ]
  ]
    where
      both : (a b : Bool) → (a && b) ≡ true → (a ≡ true) × (b ≡ true)
      both a b h = ground arith

  check_current-Credited :
      (cfg : AgentConfig) (files : EnrollFiles) → Credited (check_current j ju js ja io cfg files)
  unfolding check_current
  check_current-Credited cfg files = elim (Result-cases (hardware_serial_number io.serial_output)) [
    | inr (x, e1) ↦ rw (e1, check_current) (λ h. cc)
    | inl (serial, e1) ↦ elim (Bool-cases (io.client cfg.api_base)) [
      | inr e2 ↦ rw (e1, e2, check_current) (λ h. cc)
      | inl e2 ↦ elim (Result-cases (io.check_enrollment serial)) [
        | inr (x, e3) ↦ rw (e1, e2, e3, check_current) (λ h. cc)
        | inl (answer, e3) ↦ rw (e1, e2, e3, check_current) (decide-Credited cfg answer _)
      ]
    ]
  ]

  recently_confirmed-credited :
      (cfg : AgentConfig) (status : Option EnrollmentStatus) (now : Time)
      → recently_confirmed cfg status now ≡ true
      → (is_some cfg.agent_token ≡ true) × (is_some cfg.remote_device_id ≡ true)
  unfolding recently_confirmed
  recently_confirmed-credited cfg none now h = cc
  recently_confirmed-credited cfg (some status) now h = (ground arith, ground arith)

  -- Where the check or the enrolment succeeds, the configuration in memory has a token and a remote
  -- device, whichever of the paths was taken: a recent confirmation, a confirmed enrolment, or a
  -- new one after the old credentials were cleared.
  pub check_or_enroll_config-Credited :
      (server_override : Option Text) (cfg : AgentConfig) (files : EnrollFiles)
      → Credited (check_or_enroll_config j ju js ja io server_override cfg files)
  unfolding check_or_enroll_config
  check_or_enroll_config-Credited server_override cfg files = elim (Result-cases (lock io.guard)) [
    | inr (x, e1) ↦ rw (e1, check_or_enroll_config) (λ h. cc)
    | inl (u, e1) ↦ elim (Option-cases (read_config j ju js ja files.configs.config)) [
      | inl e2 ↦ rw (e1, e2, check_or_enroll_config) (λ h. cc)
      | inr (disk, e2) ↦ elim (Option-cases server_override) [
        | inr (server, e3) ↦
            rw (e1, e2, e3, check_or_enroll_config) (check_current-Credited _ files)
        | inl e3 ↦ elim (Bool-cases (recently_confirmed disk (stored js files.status) io.now)) [
          | inl recent ↦
              rw (e1, e2, e3, recent, check_or_enroll_config)
                (λ h. recently_confirmed-credited disk (stored js files.status) io.now recent)
          | inr old ↦
              rw (e1, e2, e3, old, check_or_enroll_config) (check_current-Credited disk files)
        ]
      ]
    ]
  ]
