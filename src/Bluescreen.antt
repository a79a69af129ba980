-- ===== src/Bluescreen.antt =====
-- apps/windows-agent/src/bluescreen.rs: the dismissal page of the simulated blue screen. What a
-- connection, the clock and the sockets do are parameters.
pub mod Page
pub mod Reading
pub mod Allowed
pub mod Worker
pub mod Once
use desktop_mdm.Prelude.{
  ℕ, zero, suc, ◌+◌, ◌-◌, ◌≡◌, Bool, true, false, not, ◌&&◌, ◌||◌, Option, none, some, List, [],
  ◌∷◌, ◌++◌, min, leb, if◌then◌else◌, take, length, ◌==◌, ℕ_eq, List_eq,
}
use desktop_mdm.Prelude.Result.{Result, ok, err}
use desktop_mdm.Text.{Text, chars, concat, len}
use desktop_mdm.Text.Trim.{trim}
use desktop_mdm.Text.Ascii.{eq_ignore_ascii_case}
use desktop_mdm.Text.Number.{to_string}
use desktop_mdm.Text.Split.{split_crlf, split_once, ends_with, from_utf8}
use desktop_mdm.LockScreen.{Instant, seconds}
use desktop_mdm.Bluescreen.Page.{page}

pub record Ipv4Addr : Type 0 where
  pub a : ℕ
  pub b : ℕ
  pub c : ℕ
  pub d : ℕ

pub record SocketAddr : Type 0 where
  pub ip : Ipv4Addr
  pub port : ℕ

-- `is_private`, `is_loopback` and `is_link_local`.
unfoldable pub is_private : Ipv4Addr → Bool
is_private ip =
    ip.a == 10 || (ip.a == 172 && leb 16 ip.b && leb ip.b 31) || (ip.a == 192 && ip.b == 168)

unfoldable pub is_loopback_ip : Ipv4Addr → Bool
is_loopback_ip ip = ip.a == 127

unfoldable pub is_link_local : Ipv4Addr → Bool
is_link_local ip = ip.a == 169 && ip.b == 254

-- `Display` of the address.
unfoldable pub address_to_string : SocketAddr → Text
address_to_string address = concat (
    to_string address.ip.a
    ∷ chars "."
    ∷ to_string address.ip.b
    ∷ chars "."
    ∷ to_string address.ip.c
    ∷ chars "."
    ∷ to_string address.ip.d
    ∷ chars ":"
    ∷ to_string address.port
    ∷ [])

abbrev pub max_duration : Instant
max_duration = seconds 300

pub data IoError : Type 0 where
  invalid_input unavailable timeout_refused read_failed write_failed : IoError

-- The outcome of one `read`: bytes that have arrived, none at the end of the stream.
pub data Read : Type 0 where
  received : List ℕ → Read
  would_block read_error : Read

-- What one round of the reading loop finds.
pub record Turn : Type 0 where
  pub stopping : Bool
  pub now : Instant
  pub read : Read

-- A connection: the rounds that it gives, and the outcomes of the other calls.
pub record Socket : Type 0 where
  pub write_timeout_set : Bool
  pub read_timeout_set : Bool
  pub opened_at : Instant
  pub turns : ℕ → Turn
  pub written : Bool

abbrev pub end_of_headers : List ℕ
end_of_headers = 13 ∷ 10 ∷ 13 ∷ 10 ∷ []

-- The loop, on fuel: `none` is a loop that goes on. A read takes at most 512 bytes, and no more
-- than fill 8192.
unfoldable pub read_loop :
    ℕ → (ℕ → Turn) → ℕ → Instant → List ℕ → Option (Result IoError (Option Text))
read_loop zero turns i deadline bytes = none
read_loop (suc fuel) turns i deadline bytes =
    let turn = turns i in
    elim (ends_with end_of_headers bytes) [
      | true ↦ some (ok (from_utf8 bytes))
      | false ↦ elim (turn.stopping || leb deadline turn.now || leb 8192 (length bytes)) [
        | true ↦ some (ok none)
        | false ↦ elim turn.read [
          | would_block ↦ read_loop fuel turns (i + 1) deadline bytes
          | read_error ↦ some (err read_failed)
          | received chunk ↦ elim (take (min 512 (8192 - length bytes)) chunk) [
            | [] ↦ some (ok none)
            | x ∷ xs ↦ read_loop fuel turns (i + 1) deadline (bytes ++ x ∷ xs)
          ]
        ]
      ]
    ]

unfoldable pub read_headers : ℕ → Socket → Option (Result IoError (Option Text))
unfolding read_loop
read_headers fuel socket =
    if socket.read_timeout_set
    then read_loop fuel socket.turns 0 (socket.opened_at + seconds 1) []
    else some (err timeout_refused)

-- The counters of the loop over the header lines.
pub record HeaderCheck : Type 0 where
  pub host_count : ℕ
  pub valid : Bool

-- One header, with its value trimmed.
unfoldable pub check_header : Text → Text → Text → Text → HeaderCheck → HeaderCheck
check_header expected_host expected_origin key value c =
    let is_host = eq_ignore_ascii_case key (chars "host") in
    record {
      host_count = if is_host then c.host_count + 1 else c.host_count;
      valid =
          c.valid
          && (not is_host || value == expected_host)
          && (not (eq_ignore_ascii_case key (chars "origin")) || value == expected_origin)
          && (not (eq_ignore_ascii_case key (chars "content-length")) || value == chars "0")
          && not (eq_ignore_ascii_case key (chars "transfer-encoding"))
          && (not (eq_ignore_ascii_case key (chars "sec-fetch-site"))
              || not (value == chars "cross-site"));
    }

unfoldable pub check_line : Text → Text → Text → HeaderCheck → HeaderCheck
unfolding check_header
check_line expected_host expected_origin [] c = c
check_line expected_host expected_origin (x ∷ line) c =
    elim (split_once b':' (x ∷ line)) as (λ _. HeaderCheck) [
      | none ↦ record c { valid = false }
      | some (key, value) ↦ check_header expected_host expected_origin key (trim value) c
    ]

unfoldable pub check_lines : Text → Text → List Text → HeaderCheck → HeaderCheck
unfolding check_line
check_lines expected_host expected_origin [] c = c
check_lines expected_host expected_origin (line ∷ lines) c =
    check_lines expected_host expected_origin lines
      (check_line expected_host expected_origin line c)

pub record PageResponse : Type 0 where
  pub status : Text
  pub body : Text

unfoldable pub request_line : Text → Text → Text
request_line method path = method ++ (chars " " ++ (path ++ chars " HTTP/1.1"))

unfoldable pub landing_page : Text → Text
landing_page path =
    page (chars "It's only a simulation.")
      (chars "Windows has not crashed. Tap below to dismiss the blue screen on the PC.")
      (concat (
        chars "<form method=\"post\" action=\""
        ∷ path
        ∷ chars "\"><button>Dismiss simulated blue screen</button></form>"
        ∷ []))

-- The answer to a request line whose headers have this verdict, and the dismissed flag after it.
unfoldable pub choose : Text → Bool → Bool → Bool → Bool → PageResponse × Bool
choose path allowed get post done =
    if not allowed
    then (
      record {
        status = chars "403 Forbidden";
        body =
            page (chars "Request refused") (chars "Open the original QR link on this network.") [];
      },
      done,
    )
    else if not get && not post
    then (
      record {
        status = chars "404 Not Found";
        body = page (chars "Link not found") (chars "Scan the current QR code.") [];
      },
      done,
    )
    else if done
    then (
      record {
        status = chars "410 Gone";
        body =
            page (chars "Simulation already dismissed")
              (chars "This one-time link is no longer active.") [];
      },
      done,
    )
    else if post
    then (
      record {
        status = chars "200 OK";
        body =
            page (chars "Simulation dismissed")
              (chars "The PC will return to its desktop app. No restart is needed.") [];
      },
      true,
    )
    else (record { status = chars "200 OK"; body = landing_page path }, done)

unfoldable pub headers_allowed : SocketAddr → List Text → Bool
unfolding check_lines
headers_allowed address lines =
    let host = address_to_string address in
    let c =
      check_lines host (chars "http://" ++ host) lines (record { host_count = 0; valid = true }) in
    not (not c.valid || not (c.host_count == 1))

-- `serve` from the headers on: the lines after the first are the headers.
unfoldable pub respond : SocketAddr → Text → List Text → Bool → PageResponse × Bool
unfolding choose headers_allowed request_line
respond address path [] done = choose path (headers_allowed address []) false false done
respond address path (first ∷ lines) done =
    choose path (headers_allowed address lines) (first == request_line (chars "GET") path)
      (first == request_line (chars "POST") path) done

-- The bytes of the response.
unfoldable pub render : PageResponse → Text
render response = concat (
    chars "HTTP/1.1 "
    ∷ response.status
    ∷ (13 ∷ 10 ∷ [])
    ∷ chars "Content-Type: text/html; charset=utf-8"
    ∷ (13 ∷ 10 ∷ [])
    ∷ chars "Content-Length: "
    ∷ to_string (len response.body)
    ∷ (13 ∷ 10 ∷ [])
    ∷ chars "Connection: close"
    ∷ (13 ∷ 10 ∷ [])
    ∷ chars "Cache-Control: no-store"
    ∷ (13 ∷ 10 ∷ [])
    ∷ chars "Referrer-Policy: same-origin"
    ∷ (13 ∷ 10 ∷ [])
    ∷ chars "X-Content-Type-Options: nosniff"
    ∷ (13 ∷ 10 ∷ [])
    ∷ chars "Content-Security-Policy: default-src 'none'; style-src 'unsafe-inline'; "
    ∷ chars "form-action 'self'; frame-ancestors 'none'; base-uri 'none'"
    ∷ end_of_headers
    ∷ response.body
    ∷ [])

-- What a connection leaves: the result, the dismissed flag, and what was sent, as `render` prints it.
pub record Served : Type 0 where
  pub result : Result IoError (Unit {0})
  pub done : Bool
  pub sent : Option PageResponse

unfoldable pub serve : ℕ → SocketAddr → Text → Socket → Bool → Option Served
unfolding read_headers respond
serve fuel address path socket done =
    if not socket.write_timeout_set
    then some (record { result = err timeout_refused; done = done; sent = none })
    else elim (read_headers fuel socket) as (λ _. Option Served) [
      | none ↦ none
      | some (err x) ↦ some (record { result = err x; done = done; sent = none })
      | some (ok none) ↦ some (record { result = ok tt; done = done; sent = none })
      | some (ok (some headers)) ↦
          let r = respond address path (split_crlf headers) done in
          some (record {
            result = if socket.written then ok tt else err write_failed;
            done = r.1;
            sent = some r.0;
          })
    ]
