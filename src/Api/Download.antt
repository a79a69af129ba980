-- ===== src/Api/Download.antt =====
-- What a request for a patch and an accepted download have.
use desktop_mdm.Prelude.{
  ℕ, ◌≡◌, ◌⊎◌, inl, inr, refl, true, not, ◌&&◌, Option, none, some, List, length, arith,
  if◌then◌else◌, ◌==◌, ℕ_eq, List_eq, Option_eq, ==_iff, Bool-cases, Option-cases, subst,
}
use desktop_mdm.Prelude.Result.{Result, ok, Result-cases, ensure-bind-eq-ok}
use desktop_mdm.Text.{Text, chars}
use desktop_mdm.Text.Ascii.{eq_ignore_ascii_case}
use desktop_mdm.Api.{PatchFile}
use desktop_mdm.Api.Client.{
  Urls, AgentApi, ApiError, is_loopback, download_url, same_origin, download_request,
  expected_checksum, check_download, verify_patch_download,
}

module _ (u : Urls) where
  -- The URL is encrypted or on this machine.
  abbrev pub IsSafe : u.Url → Type 0
  IsSafe url = (u.scheme url ≡ chars "https") ⊎ (is_loopback (u.host_str url) ≡ true)

  pub record SameOrigin (a b : u.Url) : Type 0 where
    pub same_scheme : u.scheme a ≡ u.scheme b
    pub same_host : u.host_str a ≡ u.host_str b
    pub same_port : u.port_or_known_default a ≡ u.port_or_known_default b

  same_origin-SameOrigin : (a b : u.Url) → same_origin u a b ≡ true → SameOrigin a b
  unfolding same_origin
  same_origin-SameOrigin a b h =
      let f = ==_iff (u.scheme a) (u.scheme b) in
      let g = ==_iff (u.host_str a) (u.host_str b) in
      let k = ==_iff (u.port_or_known_default a) (u.port_or_known_default b) in
      record { same_scheme = ground arith; same_host = ground arith; same_port = ground arith }

  IsSafe-of :
      (url : u.Url)
      → not (not (u.scheme url == chars "https") && not (is_loopback (u.host_str url))) ≡ true
      → IsSafe url
  IsSafe-of url h = elim (Bool-cases (u.scheme url == chars "https")) [
    | inl https ↦ inl ((==_iff (u.scheme url) (chars "https")).0 https)
    | inr other ↦ inr (ground arith)
  ]

  -- A request that is made for a patch.
  pub record IsRequest (api : AgentApi) (token : Text) (r : u.Url × Option Text) : Type 0 where
    pub safe : IsSafe r.0
    pub api_url : u.Url
    pub parsed : u.parse api.base_url ≡ some api_url
    pub bearer : (r.1 ≡ none) ⊎ ((r.1 ≡ some token) × SameOrigin r.0 api_url)

  bearer_of :
      (token : Text) (url api_url : u.Url)
      → let t = if same_origin u url api_url then some token else none in
        (t ≡ none) ⊎ ((t ≡ some token) × SameOrigin url api_url)
  bearer_of token url api_url = elim (Bool-cases (same_origin u url api_url)) [
    | inl same ↦ rw same (inr (refl, same_origin-SameOrigin url api_url same))
    | inr other ↦ rw other (inl refl)
  ]

  request_of_ok :
      (r s : u.Url × Option Text)
      → ◌≡◌ {A = Result ApiError (u.Url × Option Text)} (ok r) (ok s)
      → r ≡ s
  request_of_ok r s h = cc

  download_request-IsRequest :
      (api : AgentApi) (token : Text) (patch : PatchFile) (r : u.Url × Option Text)
      → download_request u api token patch ≡ ok r
      → IsRequest api token r
  unfolding download_request
  download_request-IsRequest api token patch r h = elim (Result-cases (download_url u api patch)) [
    | inr (x, e1) ↦ cc (rw (e1, download_request) at h)
    | inl (url, e1) ↦
        elim (Bool-cases
          (not (not (u.scheme url == chars "https") && not (is_loopback (u.host_str url))))) [
            | inr plain ↦ cc (rw (e1, plain, download_request) at h)
            | inl safe ↦ elim (Option-cases (u.parse api.base_url)) [
              | inl e3 ↦ cc (rw (e1, safe, e3, download_request) at h)
              | inr (api_url, e3) ↦
                  let same =
                    request_of_ok (url, (if same_origin u url api_url then some token else none)) r
                      (rw (e1, safe, e3, download_request) at h) in
                  subst (IsRequest api token) same (record {
                    safe = IsSafe-of url safe;
                    api_url = api_url;
                    parsed = e3;
                    bearer = bearer_of token url api_url;
                  })
            ]
          ]
  ]

  -- The request for a patch that the agent hands to its HTTP client is for a URL over HTTPS or on this
  -- machine, and it carries the bearer token only to the API's own scheme, host and port; the
  -- redirects that the client then follows are not restricted. A download that is accepted is what
  -- the client returned for that request, with the size of the metadata and its SHA-256 digest, up to
  -- the case of the letters.
  pub verify_patch_download-safe :
      (sha256_hex : List ℕ → Text) (send : u.Url × Option Text → Option (List ℕ)) (api : AgentApi)
      (token : Text) (patch : PatchFile)
      → ((r : u.Url × Option Text)
          → download_request u api token patch ≡ ok r
          → IsRequest api token r)
        × (verify_patch_download u sha256_hex send api token patch ≡ ok tt
            → (r : u.Url × Option Text) × (bytes : List ℕ) × (download_request u api token patch
                ≡ ok r)
              × (send r ≡ some bytes)
              × (length bytes ≡ patch.size_bytes)
              × (eq_ignore_ascii_case (sha256_hex bytes) (expected_checksum u patch) ≡ true))
  unfolding verify_patch_download check_download
  verify_patch_download-safe sha256_hex send api token patch = (
    λ r h. download_request-IsRequest api token patch r h,
    λ h. elim (Result-cases (download_request u api token patch)) [
      | inr (x, e1) ↦ cc (rw (e1, verify_patch_download) at h)
      | inl (r, e1) ↦ elim (Option-cases (send r)) [
        | inl e2 ↦ cc (rw (e1, e2, verify_patch_download) at h)
        | inr (bytes, e2) ↦
            let (size, h1) = ensure-bind-eq-ok _ _ _ (rw (e1, e2, verify_patch_download) at h) in
            (
              r,
              bytes,
              e1,
              e2,
              (==_iff (length bytes) patch.size_bytes).0 size,
              (ensure-bind-eq-ok _ _ _ h1).0,
            )
      ]
    ],
  )
