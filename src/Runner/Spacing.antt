-- ===== src/Runner/Spacing.antt =====
-- How far apart the service makes its check-ins.
use desktop_mdm.Recovery.Token.{Uuid}
use desktop_mdm.Runner.Round.{
  Keeps, and_then_elim, guard_step-Keeps, reload_step-Keeps, enrollment_step-Keeps,
  screen_step-Keeps, health_step-Keeps,
}
use desktop_mdm.Runner.Service.{Event, control, Progress, running, ended, tick}
use desktop_mdm.Command.{Crypto}
use desktop_mdm.Health.{DeviceHealth}
use desktop_mdm.RemoteSync.{SecuredRemoteState, Display, synchronize_remote_state}
use desktop_mdm.Storage.{EnrollmentStatus, ApiActivity}
use desktop_mdm.Config.{AgentConfig, UiConfig}
use desktop_mdm.LockScreen.{Instant, seconds}
use desktop_mdm.Api.Client.{Urls, AgentApi}
use desktop_mdm.Runner.{
  and_then, CheckIn, Step, Runner, RoundIo, health_step, guard_step, reload_step, enrollment_step,
  screen_step, synchronize, check_in_step, Flags, handle_control, remote_files, round, check_in_due,
  enrollment_due,
}
use desktop_mdm.Command.{Crypto}
use desktop_mdm.Storage.{EnrollmentStatus, ApiActivity}
use desktop_mdm.Runner.Service.{Event, control, tick, Progress, running, ended, turn, run_events}
use desktop_mdm.Runner.Round.{screen_step-Keeps}
use desktop_mdm.Prelude.{
  ◌+◌, ◌≤◌, ◌≡◌, refl, ◌∙◌, inl, inr, Bool, true, false, ◌||◌, List, [], ◌∷◌, arith, Bool-cases,
  Option-cases, ℕ_eq, Bool_eq, List_eq, Option_eq, All,
}
use desktop_mdm.Prelude.Result.{Result-cases, is_ok}
use desktop_mdm.StateStore.{lock}
use desktop_mdm.Runner.{is_sent}
use desktop_mdm.Text.{Text}
use desktop_mdm.Extern.{Json}

-- The check-ins are 60 seconds apart, and the next one is due 60 seconds after the last.
abbrev pub Gaps : List CheckIn → Instant → Type 0
Gaps [] limit = Unit
Gaps (made ∷ earlier) limit = (made.at + seconds 60 ≤ limit) × Gaps earlier made.at

abbrev pub Spaced : Runner → Type 0
Spaced s = Gaps s.check_ins s.next_check_in

-- The events hold no resume, and the clock does not go back from the test whether a check-in is due
-- to the call, nor from the call to its end.
abbrev pub IsQuiet : Event → Type 0
IsQuiet (control x) =
    (flags : Flags) → (handle_control x flags).1.resume_requested ≡ flags.resume_requested
IsQuiet (tick io) = (io.check_in_at ≤ io.called_at) × (io.called_at ≤ io.check_in_done_at)

-- The variables that the program has, or ended with.
abbrev pub variables : Progress → Runner
variables (running flags s) = s
variables (ended result s) = s

Gaps-later :
    (made : List CheckIn) (old limit : Instant) → Gaps made old → old ≤ limit → Gaps made limit
Gaps-later [] old limit h le = tt
Gaps-later (m ∷ ms) old limit h le = (omega arith, h.1)

Keeps-Spaced : (s : Runner) (st : Step) → Keeps s st → Spaced s → Spaced st.1
Keeps-Spaced s st (e1, e2) h = rw (e1, e2) h

module _ (u : Urls) (j : Json AgentConfig) (ju : Json UiConfig) (js : Json EnrollmentStatus)
    (ja : Json ApiActivity) (jr : Json SecuredRemoteState) (jh : Json DeviceHealth) (c : Crypto)
    (d : Display) (auto_enroll : Bool) where
  synchronize-Spaced :
      (io : RoundIo) (api : AgentApi) (token : Text) (device_uuid : Uuid) (s : Runner)
      → s.next_check_in ≤ io.check_in_at
      → (io.check_in_at ≤ io.called_at) × (io.called_at ≤ io.check_in_done_at)
      → Spaced s
      → Spaced (synchronize u j ju js ja jr jh c d false auto_enroll io api token device_uuid s).1
  unfolding synchronize is_sent
  synchronize-Spaced io api token device_uuid s due forth h =
      let r =
        synchronize_remote_state c d jr ja io.machine io.server device_uuid
          s.config.trusted_command_signing_keys (remote_files s.files) in
      elim (Bool-cases (is_ok (lock io.machine.lock))) [
        | inl sent ↦
            let spaced =
              Gaps-later s.check_ins s.next_check_in io.called_at h (omega (arith, due, forth.0)) in
            elim (Result-cases r.0) [
              | inl (v, e) ↦ rw (e, sent, synchronize) (omega (arith, forth.1), spaced)
              | inr (x, e) ↦ rw (e, sent, synchronize) (omega (arith, forth.1), spaced)
            ]
        | inr blocked ↦
            let spaced =
              Gaps-later s.check_ins s.next_check_in (io.check_in_done_at + seconds 60) h
                (omega (arith, due, forth.0, forth.1)) in
            elim (Result-cases r.0) [
              | inl (v, e) ↦ rw (e, blocked, synchronize) spaced
              | inr (x, e) ↦ rw (e, blocked, synchronize) spaced
            ]
      ]

  check_in_step-Spaced :
      (io : RoundIo) (due : Bool) (s : Runner)
      → (due ≡ true → s.next_check_in ≤ io.check_in_at)
      → (io.check_in_at ≤ io.called_at) × (io.called_at ≤ io.check_in_done_at)
      → Spaced s
      → Spaced (check_in_step u j ju js ja jr jh c d false auto_enroll io due s).1
  unfolding check_in_step
  check_in_step-Spaced io false s due forth h = h
  check_in_step-Spaced io true s due forth h = elim (Option-cases s.api) [
    | inl e ↦ rw (e, check_in_step) h
    | inr (api, e) ↦ elim (Option-cases s.config.agent_token) [
      | inl e2 ↦ rw (e, e2, check_in_step) h
      | inr (token, e2) ↦ elim (Option-cases s.config.remote_device_id) [
        | inl e3 ↦ rw (e, e2, e3, check_in_step) h
        | inr (device_uuid, e3) ↦
            rw (e, e2, e3, check_in_step)
              (synchronize-Spaced io api token device_uuid s (due refl) forth h)
      ]
    ]
  ]

  round-Spaced :
      (io : RoundIo) (s : Runner)
      → (io.check_in_at ≤ io.called_at) × (io.called_at ≤ io.check_in_done_at)
      → Spaced s
      → Spaced (round u j ju js ja jr jh c d false auto_enroll io false s).1
  unfolding round check_in_due
  round-Spaced io s forth h =
      and_then_elim Spaced Spaced (health_step u j ju js ja jr jh c d false auto_enroll io false s)
        _
        (Keeps-Spaced s (health_step u j ju js ja jr jh c d false auto_enroll io false s)
          (health_step-Keeps u j ju js ja jr jh c d false auto_enroll io false s) h)
        (λ t q. q) (λ s1 e1 h1. from_due s1 h1)
    where
      -- The limit that the test for a check-in read still stands.
      from_due :
          (s1 : Runner)
          → Spaced s1
          → let enroll = enrollment_due u j ju js ja jr jh c d false auto_enroll io false s1 in
            let check = check_in_due u j ju js ja jr jh c d false auto_enroll io false s1 in
            Spaced
              (and_then
                (guard_step u j ju js ja jr jh c d false auto_enroll io (enroll || check) s1)
                λ s2. and_then (reload_step u j ju js ja jr jh c d false auto_enroll io s2) λ s3.
                  and_then
                    (enrollment_step u j ju js ja jr jh c d false auto_enroll io enroll s3)
                    λ s4.
                      and_then
                        (check_in_step u j ju js ja jr jh c d false auto_enroll io check s4)
                        λ s5. screen_step u j ju js ja jr jh c d false auto_enroll io s5).1
      from_due s1 h1 =
          let enroll = enrollment_due u j ju js ja jr jh c d false auto_enroll io false s1 in
          let check = check_in_due u j ju js ja jr jh c d false auto_enroll io false s1 in
          let in_time : check_in_due u j ju js ja jr jh c d false auto_enroll io false s1 ≡ true
              → s1.next_check_in ≤ io.check_in_at =
            λ due. ground arith in
          let At : Runner → Type 0 = λ t. Spaced t × (t.next_check_in ≡ s1.next_check_in) in
          let keeps : (t : Runner) (st : Step) → Keeps t st → At t → At st.1 =
            λ t st k q. (Keeps-Spaced t st k q.0, k.1 ∙ q.1) in
          and_then_elim At Spaced
            (guard_step u j ju js ja jr jh c d false auto_enroll io (enroll || check) s1) _
            (keeps s1 (guard_step u j ju js ja jr jh c d false auto_enroll io (enroll || check) s1)
              (guard_step-Keeps u j ju js ja jr jh c d false auto_enroll io (enroll || check) s1)
              (h1, refl))
            (λ t q. q.0)
            λ s2 e2 q2.
              and_then_elim At Spaced (reload_step u j ju js ja jr jh c d false auto_enroll io s2) _
                (keeps s2 (reload_step u j ju js ja jr jh c d false auto_enroll io s2)
                  (reload_step-Keeps u j ju js ja jr jh c d false auto_enroll io s2) q2)
                (λ t q. q.0)
                λ s3 e3 q3.
                  and_then_elim At Spaced
                    (enrollment_step u j ju js ja jr jh c d false auto_enroll io enroll s3) _
                    (keeps s3
                      (enrollment_step u j ju js ja jr jh c d false auto_enroll io enroll s3)
                      (enrollment_step-Keeps u j ju js ja jr jh c d false auto_enroll io enroll s3)
                      q3)
                    (λ t q. q.0)
                    λ s4 e4 q4.
                      and_then_elim Spaced Spaced
                        (check_in_step u j ju js ja jr jh c d false auto_enroll io check s4) _
                        (check_in_step-Spaced io check s4 (λ due. rw q4.1 (in_time due)) forth q4.0)
                        (λ t q. q)
                        λ s5 e5 q5.
                          Keeps-Spaced s5
                            (screen_step u j ju js ja jr jh c d false auto_enroll io s5)
                            (screen_step-Keeps u j ju js ja jr jh c d false auto_enroll io s5) q5

  -- Over any history of the service without a resume of the machine, with any outcomes, controls and
  -- reloads, two check-ins are sent at least 60 seconds apart.
  pub run_events-Spaced :
      (events : List Event) (flags : Flags) (s : Runner)
      → All IsQuiet events
      → flags.resume_requested ≡ false
      → Spaced s
      → Spaced (variables (run_events u j ju js ja jr jh c d false auto_enroll events flags s))
  unfolding run_events turn
  run_events-Spaced [] flags s quiet still h = h
  run_events-Spaced (control x ∷ events) flags s quiet still h =
      run_events-Spaced events (handle_control x flags).1 s quiet.1 (quiet.0 flags ∙ still) h
  run_events-Spaced (tick io ∷ events) flags s quiet still h =
      elim (Bool-cases flags.stop_requested) [
        | inl stop ↦ rw (stop, run_events, turn) h
        | inr go ↦
            let r = round u j ju js ja jr jh c d false auto_enroll io flags.resume_requested s in
            let spaced : Spaced r.1 = rw still (round-Spaced io s quiet.0 h) in
            elim (Result-cases r.0) [
              | inl (v, e) ↦
                  rw (go, e, run_events, turn)
                    (run_events-Spaced events (record flags { resume_requested = false }) r.1
                      quiet.1 refl spaced)
              | inr (x, e) ↦ rw (go, e, run_events, turn) spaced
            ]
      ]
