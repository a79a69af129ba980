-- ===== src/Api/Client.antt =====
-- apps/windows-agent/src/agent_api.rs: `AgentApi`, its base URL, the reading of responses, and the
-- download of a patch.
use desktop_mdm.Prelude.{
  ℕ, Bool, false, not, ◌&&◌, ◌||◌, Option, none, some, List, leb, ltb, nat_eq, take, length,
  if◌then◌else◌, ◌==◌, ℕ_eq, List_eq, Option_eq,
}
use desktop_mdm.Prelude.Result.{Result, ok, err, ok_or, ensure, ◌>>=◌, ◌>>◌}
use desktop_mdm.Text.{Text, chars, strip_prefix}
use desktop_mdm.Text.Trim.{trim, drop_while_end}
use desktop_mdm.Text.Ascii.{eq_ignore_ascii_case}
use desktop_mdm.Api.{PatchFile}

-- The crate url, as reqwest passes it on.
pub record Urls : Type 1 where
  pub Url : Type 0
  pub parse : Text → Option Url
  pub join : Url → Text → Option Url
  pub scheme : Url → Text
  pub host_str : Url → Option Text
  pub port_or_known_default : Url → Option ℕ

pub data ApiError : Type 0 where
  invalid_url not_https no_client invalid_download invalid_base transport http_status bad_json :
      ApiError
  wrong_size wrong_checksum : ApiError

-- The HTTP client is left out: every request goes through a parameter.
pub record AgentApi : Type 0 where
  pub base_url : Text

abbrev pub slash : ℕ
slash = 47

-- `trim_end_matches('/')`
unfoldable pub trim_slashes : Text → Text
trim_slashes = drop_while_end (λ c. nat_eq c slash)

unfoldable pub is_loopback : Option Text → Bool
is_loopback none = false
is_loopback (some host) =
    host == chars "127.0.0.1" || host == chars "localhost" || host == chars "::1"

abbrev pub max_failure_reason_chars : ℕ
max_failure_reason_chars = 500

-- The text up to its character number 500, or all of it where it has no such character.
unfoldable pub truncate_failure_reason : Text → Text
truncate_failure_reason reason = take max_failure_reason_chars reason

pub record AckRequest : Type 0 where
  pub applied : Bool
  pub failure_reason : Option Text

-- The body that `acknowledge` sends.
unfoldable pub ack_request : Bool → Option Text → AckRequest
unfolding truncate_failure_reason
ack_request applied none = record { applied = applied; failure_reason = none }
ack_request applied (some reason) = record {
  applied = applied;
  failure_reason = some (truncate_failure_reason reason);
}

-- A response that arrived: its status code and its body.
pub record Response : Type 0 where
  pub status : ℕ
  pub body : List ℕ

unfoldable pub is_success : ℕ → Bool
is_success status = leb 200 status && ltb status 300

-- `decode`, with the parser of the expected type.
unfoldable pub decode : {A : Type 0} → (List ℕ → Option A) → Response → Result ApiError A
decode parse response =
    if is_success response.status then ok_or (parse response.body) bad_json else err http_status

-- `check_in`, `enroll` and `check_enrollment`, from the response on.
unfoldable pub call : {A : Type 0} → (List ℕ → Option A) → Option Response → Result ApiError A
call parse none = err transport
call parse (some response) = decode parse response

-- `current_patch`
unfoldable pub current_patch :
    (List ℕ → Option PatchFile) → Option Response → Result ApiError (Option PatchFile)
current_patch parse none = err transport
current_patch parse (some response) =
    if response.status == 204 then ok none else do patch ← decode parse response; ok (some patch)

-- `acknowledge`, from the response on.
unfoldable pub acknowledged : Option Response → Result ApiError (Unit {0})
acknowledged none = err transport
acknowledged (some response) =
    if leb 400 response.status && ltb response.status 600 then err http_status else ok tt

module _ (u : Urls) where
  unfoldable pub new : Bool → Text → Result ApiError AgentApi
  new client_built input =
      let base_url = trim_slashes input in
      do
        parsed ← ok_or (u.parse base_url) invalid_url
        let local_http = u.scheme parsed == chars "http" && is_loopback (u.host_str parsed)
        ensure (not (not (u.scheme parsed == chars "https") && not local_http)) not_https
        ensure client_built no_client
        ok (record { base_url = base_url })

  -- The URL of a patch, absolute or relative to the base URL.
  unfoldable pub download_url : AgentApi → PatchFile → Result ApiError u.Url
  download_url api patch = elim (u.parse patch.download_url) [
    | some url ↦ ok url
    | none ↦ elim (u.parse api.base_url) [
      | none ↦ err invalid_download
      | some base ↦ ok_or (u.join base patch.download_url) invalid_download
    ]
  ]

  unfoldable pub same_origin : u.Url → u.Url → Bool
  same_origin a b =
      u.scheme a == u.scheme b
      && u.host_str a == u.host_str b
      && u.port_or_known_default a == u.port_or_known_default b

  -- The request for a patch: its URL, and the bearer token that it carries.
  unfoldable pub download_request :
      AgentApi → Text → PatchFile → Result ApiError (u.Url × Option Text)
  unfolding same_origin
  download_request api token patch = do
    url ← download_url api patch
    ensure (not (not (u.scheme url == chars "https") && not (is_loopback (u.host_str url))))
        not_https
    api_url ← ok_or (u.parse api.base_url) invalid_base
    ok (url, (if same_origin url api_url then some token else none))

  unfoldable pub expected_checksum : PatchFile → Text
  expected_checksum patch =
      elim (strip_prefix (chars "sha256:") (trim patch.checksum)) as (λ _. Text) [
        | some digest ↦ digest
        | none ↦ trim patch.checksum
      ]

  -- The tests on the bytes that arrived.
  unfoldable pub check_download : (List ℕ → Text) → PatchFile → List ℕ → Result ApiError (Unit {0})
  unfolding expected_checksum
  check_download sha256_hex patch bytes = do
    ensure (length bytes == patch.size_bytes) wrong_size
    ensure (eq_ignore_ascii_case (sha256_hex bytes) (expected_checksum patch)) wrong_checksum
    ok tt

  -- `send` is what the HTTP client returns for a request: the bytes of the last response, or nothing
  -- where the transport or the status fails. The client has the default redirect policy, so that it
  -- may make further requests, to other schemes and hosts, before the last response.
  unfoldable pub verify_patch_download :
      (List ℕ → Text)
      → (u.Url × Option Text → Option (List ℕ))
      → AgentApi
      → Text
      → PatchFile
      → Result ApiError (Unit {0})
  verify_patch_download sha256_hex send api token patch = do
    request ← download_request api token patch
    bytes ← ok_or (send request) transport
    check_download sha256_hex patch bytes
