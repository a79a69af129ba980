-- ===== src/Examples/Bluescreen.antt =====
-- The simulated blue screen at concrete inputs.
use desktop_mdm.Text.Number.{to_string}
use desktop_mdm.Text.Trim.{trim}
use desktop_mdm.Text.Ascii.{eq_ignore_ascii_case}
use desktop_mdm.Text.Split.{ends_with, from_utf8, split_crlf, split_once}
use desktop_mdm.Bluescreen.Once.{worker_loop-after, worker_loop-IsDismissal}
use desktop_mdm.Bluescreen.Page.{page}
use desktop_mdm.LockScreen.{seconds}
use desktop_mdm.Bluescreen.Allowed.{IsAllowed, headers_allowed-IsAllowed, respond-dismisses}
use desktop_mdm.Bluescreen.Reading.{IsWhole, read_headers-total, read_headers-bounded}
use desktop_mdm.Bluescreen.Worker.{
  WorkerTurn, start, worker_loop, no_connection, connection, IsDismissal,
}
use desktop_mdm.Bluescreen.{
  SocketAddr, Turn, Socket, read_headers, IoError, headers_allowed, would_block, invalid_input,
  PageResponse, received, respond, request_line, address_to_string,
}
use desktop_mdm.Prelude.{
  ℕ, zero, suc, ◌≤◌, ◌≡◌, refl, ◌≢◌, ◌↔◌, Bool, true, false, Option, none, some, List, [], ◌∷◌,
  ◌++◌, map, arith, ℕ_eq, Bool_eq, List_eq, Option_eq, length, All, list_beq,
}
use desktop_mdm.Prelude.Result.{Result, ok, err}
use desktop_mdm.Text.{Text, chars, concat, starts_with}

abbrev address : SocketAddr
address = record { ip = record { a = 192; b = 168; c = 1; d = 20 }; port = 8080 }

abbrev path : Text
path = chars "/dismiss/ab12"

abbrev host_line : Text
host_line = chars "HOST: 192.168.1.20:8080"

abbrev request_text : Text
request_text = concat (
    chars "POST /dismiss/ab12 HTTP/1.1"
    ∷ (13 ∷ 10 ∷ [])
    ∷ host_line
    ∷ (13 ∷ 10 ∷ 13 ∷ 10 ∷ [])
    ∷ [])

-- A first round without data, the request, and then silence until the deadline.
abbrev rounds : ℕ → Turn
rounds zero = record { stopping = false; now = 0; read = would_block }
rounds (suc zero) = record { stopping = false; now = 5; read = received request_text }
rounds (suc (suc n)) = record { stopping = false; now = seconds 2; read = would_block }

abbrev socket : Socket
socket = record {
  write_timeout_set = true;
  read_timeout_set = true;
  opened_at = 0;
  turns = rounds;
  written = true;
}

abbrev turns : List WorkerTurn
turns =
    record { stop_requested = false; elapsed = 7; accept = no_connection }
    ∷ record { stop_requested = false; elapsed = 8; accept = connection socket }
    ∷ record { stop_requested = false; elapsed = 9; accept = connection socket }
    ∷ record { stop_requested = true; elapsed = 10; accept = connection socket }
    ∷ []

read_whole : read_headers 3 socket ≡ some (ok (some request_text))
unfolding read_headers ends_with starts_with from_utf8
read_whole = refl

public_refused :
    start
      (record { a = 8; b = 8; c = 8; d = 8 })
      (record { port = some 1; nonblocking = true; token = chars "t"; now = 0 })
    ≡ err invalid_input
unfolding start
public_refused = refl

abbrev run_of : Bool → Option (Bool × List Text)
run_of done = elim (worker_loop 3 address path turns done) [
  | none ↦ none
  | some (after, responses) ↦ some (after, map (λ (r : PageResponse). r.status) responses)
]

dismissed_once : run_of false ≡ some (true, chars "200 OK" ∷ chars "410 Gone" ∷ [])
unfolding worker_loop ends_with starts_with from_utf8 split_crlf split_once eq_ignore_ascii_case
    list_beq trim address_to_string to_string
dismissed_once = refl

read_headers-total_example : (r : Result IoError (Option Text)) × (read_headers 3 socket ≡ some r)
read_headers-total_example = read_headers-total socket 2 3 (omega arith) (omega arith)

read_headers-bounded_example : (bytes : List ℕ) × IsWhole bytes request_text × (length bytes ≤ 8192)
read_headers-bounded_example = read_headers-bounded socket 3 request_text read_whole

headers_allowed-IsAllowed_example :
    (headers_allowed address (host_line ∷ [] ∷ []) ≡ true) ↔ IsAllowed address (host_line ∷ [] ∷ [])
headers_allowed-IsAllowed_example = headers_allowed-IsAllowed address (host_line ∷ [] ∷ [])

respond-dismisses_example :
    ((respond address path (request_line (chars "POST") path ∷ host_line ∷ []) false).1 ≡ true) ↔ (
      (request_line (chars "POST") path ≡ request_line (chars "POST") path)
      × IsAllowed address (host_line ∷ []))
respond-dismisses_example =
    respond-dismisses address path (request_line (chars "POST") path) (host_line ∷ [])

abbrev gone : PageResponse
gone = record {
  status = chars "410 Gone";
  body =
      page (chars "Simulation already dismissed") (chars "This one-time link is no longer active.")
        [];
}

abbrev thanks : PageResponse
thanks = record {
  status = chars "200 OK";
  body =
      page (chars "Simulation dismissed")
        (chars "The PC will return to its desktop app. No restart is needed.") [];
}

run_dismissed : worker_loop 3 address path turns true ≡ some (true, gone ∷ gone ∷ [])
unfolding worker_loop ends_with starts_with from_utf8 split_crlf split_once eq_ignore_ascii_case
    list_beq trim address_to_string to_string
run_dismissed = refl

run_shown : worker_loop 3 address path turns false ≡ some (true, thanks ∷ gone ∷ [])
unfolding worker_loop ends_with starts_with from_utf8 split_crlf split_once eq_ignore_ascii_case
    list_beq trim address_to_string to_string
run_shown = refl

worker_loop-after_example :
    (true ≡ true) × All (λ (r : PageResponse). r.status ≢ chars "200 OK") (gone ∷ gone ∷ [])
worker_loop-after_example =
    worker_loop-after 3 address path turns (true, gone ∷ gone ∷ []) run_dismissed

worker_loop-IsDismissal_example :
    (earlier : List WorkerTurn) × (turn : WorkerTurn) × (later : List WorkerTurn) × (turns
      ≡ earlier ++ turn ∷ later)
    × IsDismissal 3 address path turn
worker_loop-IsDismissal_example =
    worker_loop-IsDismissal 3 address path turns (true, thanks ∷ gone ∷ []) run_shown refl
