-- ===== src/Runner/Made.antt =====
-- What the step for a check-in does, and what a synchronization that succeeds has behind it.
use desktop_mdm.Recovery.Token.{Uuid}
use desktop_mdm.Command.{Crypto}
use desktop_mdm.Health.{DeviceHealth}
use desktop_mdm.RemoteSync.{SecuredRemoteState, Display, synchronize_remote_state}
use desktop_mdm.Storage.{EnrollmentStatus, ApiActivity}
use desktop_mdm.Config.{AgentConfig, UiConfig}
use desktop_mdm.Api.Client.{Urls, AgentApi}
use desktop_mdm.Runner.{CheckIn, Step, Runner, RoundIo, synchronize, check_in_step, remote_files}
use desktop_mdm.Command.{Crypto}
use desktop_mdm.Storage.{EnrollmentStatus, ApiActivity}
use desktop_mdm.Prelude.{
  ℕ, List, if◌then◌else◌, ◌≡◌, refl, sym, ap, subst, ◌⊎◌, inl, inr, Bool, true, false, ◌&&◌, some,
  ◌∷◌, Bool-cases, Option-cases, is_some, ℕ_eq, Bool_eq, List_eq, Option_eq, List, ℕ,
}
use desktop_mdm.Prelude.Result.{ok, Result-cases}
use desktop_mdm.Text.{Text}
use desktop_mdm.Extern.{Json}
use desktop_mdm.RemoteSync.{Server, Machine, Files}
use desktop_mdm.Api.{CheckInResponse}
use desktop_mdm.StateStore.{lock}
use desktop_mdm.Runner.{is_sent}
use desktop_mdm.Prelude.Result.{is_ok}

-- A client, a token and a device: what a check-in needs.
unfoldable pub has_credentials : Runner → Bool
has_credentials s =
    is_some s.api && is_some s.config.agent_token && is_some s.config.remote_device_id

-- A check-in with the credentials of `s` that was sent in this round, added to those before.
pub record IsMade (io : RoundIo) (before s after : Runner) : Type 0 where
  pub made : CheckIn
  pub api : AgentApi
  pub has_api : s.api ≡ some api
  pub same_base : made.base_url ≡ api.base_url
  pub same_token : s.config.agent_token ≡ some made.token
  pub same_device : s.config.remote_device_id ≡ some made.device_uuid
  pub at_call : made.at ≡ io.called_at
  pub added : after.check_ins ≡ made ∷ before.check_ins

-- The server answered the check-in, and the synchronization succeeded.
abbrev pub IsAnswered : RoundIo → CheckIn → Type 0
IsAnswered io made =
    (made.succeeded ≡ true) × (response : CheckInResponse) × (io.server.check_in ≡ ok response)

module _ (c : Crypto) (d : Display) (jr : Json SecuredRemoteState) (ja : Json ApiActivity)
    (m : Machine) (s : Server) (device_uuid : Uuid) (keys : List (ℕ × Text)) (files : Files) where
  -- A synchronization that succeeds has taken command.lock, and the server has answered its check-in.
  synchronize_remote_state-ok :
      (synchronize_remote_state c d jr ja m s device_uuid keys files).0 ≡ ok tt
      → (is_ok (lock m.lock) ≡ true) × (response : CheckInResponse) × (s.check_in ≡ ok response)
  unfolding synchronize_remote_state
  synchronize_remote_state-ok h = elim (Result-cases (lock m.lock)) [
    | inr (x, e1) ↦ cc (rw (e1, synchronize_remote_state) at h)
    | inl (v, e1) ↦ elim (Result-cases s.check_in) [
      | inr (x, e2) ↦ cc (rw (e1, e2, synchronize_remote_state) at h)
      | inl (response, e2) ↦ (rw e1 refl, response, e2)
    ]
  ]

module _ (u : Urls) (j : Json AgentConfig) (ju : Json UiConfig) (js : Json EnrollmentStatus)
    (ja : Json ApiActivity) (jr : Json SecuredRemoteState) (jh : Json DeviceHealth) (c : Crypto)
    (d : Display) (once auto_enroll : Bool) (io : RoundIo) where
  -- What a step leaves: a check-in that was sent, and in a one-shot run that goes on, answered; or
  -- none, and then a one-shot run that goes on was to send none.
  abbrev pub Sends : (wanted : Bool) (before s : Runner) → Step → Type 0
  Sends wanted before s st =
      (((wanted && is_sent u j ju js ja jr jh c d once auto_enroll io) ≡ true)
        × (k : IsMade io before s st.1) × (once ≡ true → st.0 ≡ ok tt → IsAnswered io k.made))
      ⊎ (((wanted && is_sent u j ju js ja jr jh c d once auto_enroll io) ≡ false)
          × (st.1.check_ins ≡ before.check_ins)
          × (once ≡ true → st.0 ≡ ok tt → wanted ≡ false))

  -- The outcome of a synchronization, and what the round makes of it.
  synchronize-made :
      (api : AgentApi) (token : Text) (device_uuid : Uuid) (s : Runner)
      → let st = synchronize u j ju js ja jr jh c d once auto_enroll io api token device_uuid s in
        let r =
          synchronize_remote_state c d jr ja io.machine io.server device_uuid
            s.config.trusted_command_signing_keys
            (remote_files s.files) in
        (st.1.check_ins ≡ (
          if is_sent u j ju js ja jr jh c d once auto_enroll io
          then record {
            base_url = api.base_url;
            token = token;
            device_uuid = device_uuid;
            at = io.called_at;
            succeeded = is_ok r.0;
          }
            ∷ s.check_ins
          else s.check_ins))
        × (st.1.config ≡ s.config)
        × (st.1.api ≡ s.api)
        × (once ≡ true → st.0 ≡ ok tt → r.0 ≡ ok tt)
  unfolding synchronize
  synchronize-made api token device_uuid s =
      let r =
        synchronize_remote_state c d jr ja io.machine io.server device_uuid
          s.config.trusted_command_signing_keys (remote_files s.files) in
      elim (Result-cases r.0) [
        | inl (tt, e) ↦ rw (e, synchronize) (rw e refl, refl, refl, λ o k. refl)
        | inr (x, e) ↦ elim (Bool-cases once) [
          | inl one ↦ rw (e, one, synchronize) (rw e refl, refl, refl, λ o k. cc)
          | inr long ↦ rw (e, long, synchronize) (rw e refl, refl, refl, λ o k. cc)
        ]
      ]

  synchronize-Sends :
      (api : AgentApi) (token : Text) (device_uuid : Uuid) (s : Runner)
      → s.api ≡ some api
      → s.config.agent_token ≡ some token
      → s.config.remote_device_id ≡ some device_uuid
      → Sends true s s
          (synchronize u j ju js ja jr jh c d once auto_enroll io api token device_uuid s)
  unfolding is_sent
  synchronize-Sends api token device_uuid s e1 e2 e3 =
      let (added, _, _, told) = synchronize-made api token device_uuid s in
      let succeeded =
        synchronize_remote_state-ok c d jr ja io.machine io.server device_uuid
          s.config.trusted_command_signing_keys (remote_files s.files) in
      elim (Bool-cases (is_ok (lock io.machine.lock))) [
        | inl sent ↦ inl (
          sent,
          record {
            made = record {
              base_url = api.base_url;
              token = token;
              device_uuid = device_uuid;
              at = io.called_at;
              succeeded =
                  is_ok
                    (synchronize_remote_state c d jr ja io.machine io.server device_uuid
                      s.config.trusted_command_signing_keys (remote_files s.files)).0;
            };
            api = api;
            has_api = e1;
            same_base = refl;
            same_token = e2;
            same_device = e3;
            at_call = refl;
            added = rw sent at added;
          },
          λ one good. (
            ap is_ok (told one good),
            (succeeded (told one good)).1,
            (succeeded (told one good)).2,
          ),
        )
        | inr blocked ↦ inr (
          blocked,
          rw blocked at added,
          λ one good. absurd (cc (blocked, (succeeded (told one good)).0)),
        )
      ]

  pub check_in_step-Sends :
      (due : Bool) (s : Runner)
      → let st = check_in_step u j ju js ja jr jh c d once auto_enroll io due s in
        (st.1.config ≡ s.config) × (st.1.api ≡ s.api) × Sends (due && has_credentials s) s s st
  unfolding check_in_step has_credentials
  check_in_step-Sends false s = (refl, refl, inr (refl, refl, λ o g. refl))
  check_in_step-Sends true s = elim (Option-cases s.api) [
    | inl e ↦
        let same : check_in_step u j ju js ja jr jh c d once auto_enroll io true s ≡ (ok tt, s) =
          simp (e, check_in_step) in
        skipped same (rw e refl)
    | inr (api, e) ↦ elim (Option-cases s.config.agent_token) [
      | inl e2 ↦
          let same : check_in_step u j ju js ja jr jh c d once auto_enroll io true s ≡ (ok tt, s) =
            simp (e, e2, check_in_step) in
          skipped same (rw (e, e2) refl)
      | inr (token, e2) ↦ elim (Option-cases s.config.remote_device_id) [
        | inl e3 ↦
            let same : check_in_step u j ju js ja jr jh c d once auto_enroll io true s
                ≡ (ok tt, s) =
              simp (e, e2, e3, check_in_step) in
            skipped same (rw (e, e2, e3) refl)
        | inr (device_uuid, e3) ↦
            let same : check_in_step u j ju js ja jr jh c d once auto_enroll io true s
                ≡ synchronize u j ju js ja jr jh c d once auto_enroll io api token device_uuid s =
              simp (e, e2, e3, check_in_step) in
            let (_, same_config, same_api, _) = synchronize-made api token device_uuid s in
            let has : has_credentials s ≡ true = rw (e, e2, e3, has_credentials) refl in
            subst Left (sym same) (
              same_config,
              same_api,
              subst
                  (λ b. Sends b s s (
                    synchronize u j ju js ja jr jh c d once auto_enroll io api token device_uuid s))
                  (sym has) (synchronize-Sends api token device_uuid s e e2 e3),
            )
      ]
    ]
  ]
    where
      Left : Step → Type 0
      Left st = (st.1.config ≡ s.config) × (st.1.api ≡ s.api) × Sends (has_credentials s) s s st

      skipped : {st : Step} → st ≡ (ok tt, s) → has_credentials s ≡ false → Left st
      skipped e none_due =
          subst Left (sym e) (refl, refl, inr (rw none_due refl, refl, λ o g. none_due))
