-- ===== src/Examples/Download.antt =====
-- Patch downloads at a concrete input: a URL is its scheme, host and port in one character each.
use desktop_mdm.Prelude.{ℕ, ◌≡◌, Option, some, none, List, [], ◌∷◌, length, true}
use desktop_mdm.Prelude.Result.{ok}
use desktop_mdm.Text.{Text, chars}
use desktop_mdm.Text.Ascii.{eq_ignore_ascii_case}
use desktop_mdm.Api.Client.{
  Urls, AgentApi, download_request, expected_checksum, verify_patch_download,
}
use desktop_mdm.Api.Download.{IsRequest, verify_patch_download-safe}
use desktop_mdm.Examples.Command.{patch}

abbrev pub toy_urls : Urls
toy_urls = record {
  Url = Text;
  parse = some_host;
  join = λ base path. some base;
  scheme = λ url. chars "https";
  host_str = λ url. some url;
  port_or_known_default = λ url. some 443;
}
  where
    some_host : Text → Option Text
    some_host [] = none
    some_host (c ∷ cs) = some (c ∷ cs)

abbrev agent : AgentApi
agent = record { base_url = chars "api" }

verify_patch_download-safe_example :
    ((r : Text × Option Text)
      → download_request toy_urls agent (chars "t") (patch 1) ≡ ok r
      → IsRequest toy_urls agent (chars "t") r)
    × (verify_patch_download toy_urls
            (λ bs. chars "AB")
            (λ r. some (7 ∷ []))
            agent
            (chars "t")
            (patch 1)
          ≡ ok tt
        → (r : Text × Option Text) × (bytes : List ℕ) × (download_request toy_urls agent
              (chars "t")
              (patch 1)
            ≡ ok r)
          × (some (7 ∷ []) ≡ some bytes)
          × (length bytes ≡ 1)
          × (eq_ignore_ascii_case (chars "AB") (expected_checksum toy_urls (patch 1)) ≡ true))
verify_patch_download-safe_example =
    verify_patch_download-safe toy_urls (λ bs. chars "AB") (λ r. some (7 ∷ [])) agent (chars "t")
      (patch 1)
