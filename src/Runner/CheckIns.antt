-- ===== src/Runner/CheckIns.antt =====
-- Which check-ins a round makes, and with which credentials.
use desktop_mdm.Runner.Round.{reload_step-Keeps, enrollment_step-Keeps, health_step-Keeps}
use desktop_mdm.SessionUi.{starts_ui}
use desktop_mdm.Command.{Crypto}
use desktop_mdm.Health.{DeviceHealth}
use desktop_mdm.RemoteSync.{SecuredRemoteState, Display, device_locked, Display, device_locked}
use desktop_mdm.Storage.{EnrollmentStatus, ApiActivity}
use desktop_mdm.Config.{AgentConfig, UiConfig}
use desktop_mdm.Api.Client.{Urls}
use desktop_mdm.Runner.{
  Runner, RoundIo, health_step, guard_step, reload_step, enrollment_step, screen_step,
  ensure_lock_screen, check_in_step, round, check_in_due, enrollment_due,
}
use desktop_mdm.Command.{Crypto}
use desktop_mdm.Storage.{EnrollmentStatus, ApiActivity}
use desktop_mdm.Runner.Round.{and_then-ok, enrollment_step-ok, health_step-same, guard_step-same}
use desktop_mdm.Enrollment.Credentials.{check_or_enroll_config-Credited}
use desktop_mdm.Prelude.{
  ◌≤◌, ◌≡◌, refl, sym, ap, ◌∙◌, ◌⊎◌, inl, inr, Bool, true, false, ◌&&◌, ◌||◌, not, none, ◌∷◌, arith,
  leb, Bool-cases, ℕ_eq, Bool_eq, List_eq, Option_eq,
}
use desktop_mdm.Prelude.Result.{ok}
use desktop_mdm.Extern.{Json}
use desktop_mdm.Runner.Made.{has_credentials, IsMade, IsAnswered, Sends, check_in_step-Sends}
use desktop_mdm.Runner.{is_sent}
use desktop_mdm.StateStore.{lock}
use desktop_mdm.Prelude.Result.{is_ok}

module _ (u : Urls) (j : Json AgentConfig) (ju : Json UiConfig) (js : Json EnrollmentStatus)
    (ja : Json ApiActivity) (jr : Json SecuredRemoteState) (jh : Json DeviceHealth) (c : Crypto)
    (d : Display) (once auto_enroll : Bool) (io : RoundIo) where
  -- The steps of a round that ends without an error.
  record Steps (resumed : Bool) (s t : Runner) : Type 0 where
    s1 : Runner
    s2 : Runner
    s3 : Runner
    s4 : Runner
    s5 : Runner
    kept : s2 ≡ s1
    limits :
        (s1.next_check_in ≡ s.next_check_in)
        × (s1.next_enrollment ≡ s.next_enrollment)
        × (s1.files.enroll ≡ s.files.enroll)
        × (s1.config ≡ s.config)
        × (s1.api ≡ s.api)
    reloaded : reload_step u j ju js ja jr jh c d once auto_enroll io s2 ≡ (ok tt, s3)
    enrolled :
        enrollment_step u j ju js ja jr jh c d once auto_enroll io
          (enrollment_due u j ju js ja jr jh c d once auto_enroll io resumed s1)
          s3
        ≡ (ok tt, s4)
    checked_in :
        check_in_step u j ju js ja jr jh c d once auto_enroll io
          (check_in_due u j ju js ja jr jh c d once auto_enroll io resumed s1)
          s4
        ≡ (ok tt, s5)
    screened : screen_step u j ju js ja jr jh c d once auto_enroll io s5 ≡ (ok tt, t)
    before : s4.check_ins ≡ s.check_ins

  round-Steps :
      (resumed : Bool) (s t : Runner)
      → round u j ju js ja jr jh c d once auto_enroll io resumed s ≡ (ok tt, t)
      → Steps resumed s t
  unfolding round
  round-Steps resumed s t h =
      let (s1, e1, h1) =
        and_then-ok (health_step u j ju js ja jr jh c d once auto_enroll io resumed s) _ t h in
      let enroll = enrollment_due u j ju js ja jr jh c d once auto_enroll io resumed s1 in
      let check = check_in_due u j ju js ja jr jh c d once auto_enroll io resumed s1 in
      let (s2, e2, h2) =
        and_then-ok (guard_step u j ju js ja jr jh c d once auto_enroll io (enroll || check) s1) _ t
          h1 in
      let (s3, e3, h3) =
        and_then-ok (reload_step u j ju js ja jr jh c d once auto_enroll io s2) _ t h2 in
      let (s4, e4, h4) =
        and_then-ok (enrollment_step u j ju js ja jr jh c d once auto_enroll io enroll s3) _ t h3 in
      let (s5, e5, h5) =
        and_then-ok (check_in_step u j ju js ja jr jh c d once auto_enroll io check s4) _ t h4 in
      let k1 = rw e1 at (health_step-Keeps u j ju js ja jr jh c d once auto_enroll io resumed s) in
      let f1 = rw e1 at (health_step-same u j ju js ja jr jh c d once auto_enroll io resumed s) in
      let k2 : s2 ≡ s1 =
        rw e2 at
          (guard_step-same u j ju js ja jr jh c d once auto_enroll io (enroll || check) s1) in
      let k3 = rw e3 at (reload_step-Keeps u j ju js ja jr jh c d once auto_enroll io s2) in
      let k4 =
        rw e4 at (enrollment_step-Keeps u j ju js ja jr jh c d once auto_enroll io enroll s3) in
      record {
        s1 = s1;
        s2 = s2;
        s3 = s3;
        s4 = s4;
        s5 = s5;
        kept = k2;
        limits = (k1.1, f1.1, f1.0, f1.2, f1.3);
        reloaded = e3;
        enrolled = e4;
        checked_in = e5;
        screened = h5;
        before = k4.0 ∙ k3.0 ∙ ap (λ (r : Runner). r.check_ins) k2 ∙ k1.0;
      }

  screen_step-credentials :
      (s : Runner)
      → let st = screen_step u j ju js ja jr jh c d once auto_enroll io s in
        (st.1.api ≡ s.api) × (st.1.config ≡ s.config) × (st.1.check_ins ≡ s.check_ins)
  unfolding screen_step ensure_lock_screen
  screen_step-credentials s =
      elim (Bool-cases (not once && leb s.next_lock_screen_check io.screen_at)) [
        | inr early ↦ rw (early, screen_step) (refl, refl, refl)
        | inl due ↦
            elim (Bool-cases
              (device_locked jr s.files.remote.remote_state && starts_ui io.console)) [
                | inl start ↦ rw (due, start, screen_step, ensure_lock_screen) (refl, refl, refl)
                | inr stay ↦ rw (due, stay, screen_step, ensure_lock_screen) (refl, refl, refl)
              ]
      ]

  -- What the end of a successful round says of the state in which the check-in was decided.
  abbrev Decided : (resumed : Bool) (s t : Runner) → Steps resumed s t → Type 0
  Decided resumed s t v =
      (t.api ≡ v.s4.api)
      × (t.config ≡ v.s4.config)
      × Sends u j ju js ja jr jh c d once auto_enroll io
          (check_in_due u j ju js ja jr jh c d once auto_enroll io resumed v.s1
            && has_credentials v.s4)
          s v.s4 (ok tt, t)

  Steps-Decided : (resumed : Bool) (s t : Runner) (v : Steps resumed s t) → Decided resumed s t v
  Steps-Decided resumed s t v =
      let (same_config, same_api, way) = rw v.checked_in at (
        check_in_step-Sends u j ju js ja jr jh c d once auto_enroll io
          (check_in_due u j ju js ja jr jh c d once auto_enroll io resumed v.s1) v.s4) in
      let shown : (t.api ≡ v.s5.api) × (t.config ≡ v.s5.config) × (t.check_ins ≡ v.s5.check_ins) =
        rw v.screened at (screen_step-credentials v.s5) in
      (
        shown.0 ∙ same_api,
        shown.1 ∙ same_config,
        elim way [
          | inl (sends, made, answered) ↦ inl (
            sends,
            record {
              made = made.made;
              api = made.api;
              has_api = made.has_api;
              same_base = made.same_base;
              same_token = made.same_token;
              same_device = made.same_device;
              at_call = made.at_call;
              added = shown.2 ∙ made.added ∙ ap (λ l. made.made ∷ l) v.before;
            },
            λ one good. answered one refl,
          )
          | inr (none_sent, kept, told) ↦
              inr (none_sent, shown.2 ∙ kept ∙ v.before, λ one good. told one refl)
        ],
      )

  -- The same in the variables that the round ends with.
  round-Sends :
      (resumed : Bool) (s t : Runner)
      → round u j ju js ja jr jh c d once auto_enroll io resumed s ≡ (ok tt, t)
      → Sends u j ju js ja jr jh c d once auto_enroll io
          ((leb s.next_check_in io.check_in_at || resumed) && has_credentials t)
          s
          t
          (ok tt, t)
  unfolding check_in_due has_credentials
  round-Sends resumed s t h =
      let v = round-Steps resumed s t h in
      let (same_api, same_config, way) = Steps-Decided resumed s t v in
      let same : (check_in_due u j ju js ja jr jh c d once auto_enroll io resumed v.s1
            && has_credentials v.s4)
          ≡ ((leb s.next_check_in io.check_in_at || resumed) && has_credentials t) =
        rw (v.limits.0, same_api, same_config) refl in
      elim way [
        | inl (sends, made, answered) ↦ inl (
          rw same at sends,
          record {
            made = made.made;
            api = made.api;
            has_api = same_api ∙ made.has_api;
            same_base = made.same_base;
            same_token = rw same_config made.same_token;
            same_device = rw same_config made.same_device;
            at_call = made.at_call;
            added = made.added;
          },
          answered,
        )
        | inr (none_sent, kept, told) ↦
            inr (rw same at none_sent, kept, λ one good. sym same ∙ told one good)
      ]

  -- A round that succeeds sends a check-in where one is due, since 60 seconds have passed or the machine
  -- has resumed, where the round ends with a client, a token and a device, and where command.lock is
  -- taken; it sends it with these and no others. In every other case a round that succeeds sends
  -- none.
  pub round-checks_in :
      (resumed : Bool) (s t : Runner)
      → round u j ju js ja jr jh c d once auto_enroll io resumed s ≡ (ok tt, t)
      → let due = leb s.next_check_in io.check_in_at || resumed in
        let sends = due && has_credentials t && is_ok (lock io.machine.lock) in
        ((sends ≡ true) × IsMade io s t t) ⊎ ((sends ≡ false) × (t.check_ins ≡ s.check_ins))
  unfolding is_sent
  round-checks_in resumed s t h = elim (round-Sends resumed s t h) [
    | inl (sends, made, answered) ↦ inl (sends, made)
    | inr (none_sent, kept, told) ↦ inr (none_sent, kept)
  ]

-- The one-shot run that the desktop starts: its success is a check-in.
module _ (u : Urls) (j : Json AgentConfig) (ju : Json UiConfig) (js : Json EnrollmentStatus)
    (ja : Json ApiActivity) (jr : Json SecuredRemoteState) (jh : Json DeviceHealth) (c : Crypto)
    (d : Display) (io : RoundIo) where
  -- A one-shot run with enrolment that reports success has sent a check-in, with the client, the token
  -- and the device that it ends with, the server has answered it, and the synchronization has
  -- succeeded: neither a failed enrolment check nor a failed check-in is reported as success.
  pub once-checked_in :
      (resumed : Bool) (s t : Runner)
      → round u j ju js ja jr jh c d true true io resumed s ≡ (ok tt, t)
      → s.next_enrollment ≤ io.enrollment_at
      → s.next_check_in ≤ io.check_in_at
      → (k : IsMade io s t t) × IsAnswered io k.made
  unfolding has_credentials enrollment_due
  once-checked_in resumed s t h enroll_due check_due =
      let v = round-Steps u j ju js ja jr jh c d true true io resumed s t h in
      let (same_api, same_config, way) =
        Steps-Decided u j ju js ja jr jh c d true true io resumed s t v in
      let due : enrollment_due u j ju js ja jr jh c d true true io resumed v.s1 ≡ true =
        rw v.limits.1 (ground arith) in
      elim (enrollment_step-ok u j ju js ja jr jh c d true true io v.s3 v.s4
        (rw due at v.enrolled)) [
          | inl dropped ↦ cc dropped.1
          | inr k ↦
              let (token, device) =
                check_or_enroll_config-Credited j ju js ja io.enroll_io none v.s3.config
                  v.s3.files.enroll k.succeeded in
              let has : has_credentials t ≡ true =
                rw (same_api ∙ k.has_api, same_config ∙ k.same_config, token, device) refl in
              elim (round-Sends u j ju js ja jr jh c d true true io resumed s t h) [
                | inl (sends, made, answered) ↦ (made, answered refl refl)
                | inr (none_sent, kept, told) ↦
                    let unwanted = told refl refl in absurd (ground arith)
              ]
        ]
