-- ===== src/Bluescreen/Worker.antt =====
-- `BluescreenSession`: its start, its worker and what the desktop reads of it.
use desktop_mdm.Bluescreen.Allowed.{IsAllowed}
use desktop_mdm.Text.Split.{split_crlf}
use desktop_mdm.Bluescreen.{
  Socket, SocketAddr, is_private, address_to_string, max_duration, serve, is_loopback_ip,
  PageResponse, read_headers, is_link_local, Ipv4Addr, request_line, IoError, invalid_input,
  unavailable,
}
use desktop_mdm.Prelude.{
  ℕ, ◌-◌, ◌<◌, ◌≡◌, Bool, true, false, ◌&&◌, ◌||◌, not, Option, none, some, List, [], ◌∷◌, ◌++◌,
  leb, if◌then◌else◌, ℕ_eq, Bool_eq, List_eq, Option_eq,
}
use desktop_mdm.Prelude.Result.{Result, ok, err}
use desktop_mdm.Text.{Text, chars, concat}
use desktop_mdm.LockScreen.{Instant}

-- What one round of the worker finds.
pub data Accept : Type 0 where
  connection : Socket → Accept
  no_connection accept_failed : Accept

pub record WorkerTurn : Type 0 where
  pub stop_requested : Bool
  pub elapsed : Instant
  pub accept : Accept

-- `Uuid::new_v4().simple()`, the port that the system gives, and the outcomes of the other calls.
pub record StartIo : Type 0 where
  pub port : Option ℕ
  pub nonblocking : Bool
  pub token : Text
  pub now : Instant

pub record BluescreenSession : Type 0 where
  pub address : SocketAddr
  pub path : Text
  pub dismissed : Bool
  pub stop : Bool
  pub has_worker : Bool
  pub started : Instant

unfoldable pub start : Ipv4Addr → StartIo → Result IoError BluescreenSession
unfolding is_private is_loopback_ip is_link_local
start ip io =
    if not (is_private ip) && not (is_loopback_ip ip) && not (is_link_local ip)
    then err invalid_input
    else elim io.port as (λ _. Result IoError BluescreenSession) [
      | none ↦ err unavailable
      | some port ↦
          if io.nonblocking
          then ok (record {
            address = record { ip = ip; port = port };
            path = chars "/dismiss/" ++ io.token;
            dismissed = false;
            stop = false;
            has_worker = true;
            started = io.now;
          })
          else err unavailable
    ]

unfoldable pub url : BluescreenSession → Text
unfolding address_to_string
url session = concat (chars "http://" ∷ address_to_string session.address ∷ session.path ∷ [])

-- The reading of the clock less that at the start.
unfoldable pub has_expired : Instant → BluescreenSession → Bool
has_expired now session = leb max_duration (now - session.started)

-- `Drop`: the worker is told to stop and waited for.
unfoldable pub close_session : BluescreenSession → BluescreenSession
close_session session = record session { stop = true; has_worker = false }

-- The worker over the rounds that it makes, with fuel for each connection: the flag at its end and
-- the responses sent.
unfoldable pub worker_loop :
    ℕ → SocketAddr → Text → List WorkerTurn → Bool → Option (Bool × List PageResponse)
unfolding serve
worker_loop fuel address path [] done = some (done, [])
worker_loop fuel address path (turn ∷ turns) done =
    elim (turn.stop_requested || leb max_duration turn.elapsed) [
      | true ↦ some (done, [])
      | false ↦ elim turn.accept [
        | accept_failed ↦ some (done, [])
        | no_connection ↦ worker_loop fuel address path turns done
        | connection socket ↦ elim (serve fuel address path socket done) [
          | none ↦ none
          | some served ↦ elim (worker_loop fuel address path turns served.done) [
            | none ↦ none
            | some (after, responses) ↦ elim served.sent [
              | none ↦ some (after, responses)
              | some response ↦ some (after, response ∷ responses)
            ]
          ]
        ]
      ]
    ]

-- A round in which a connection was taken and dismissed the blue screen.
pub record IsDismissal (fuel : ℕ) (address : SocketAddr) (path : Text) (turn : WorkerTurn)
    : Type 0 where
  pub in_time : turn.elapsed < max_duration
  pub not_stopped : turn.stop_requested ≡ false
  pub socket : Socket
  pub taken : turn.accept ≡ connection socket
  pub headers : Text
  pub read : read_headers fuel socket ≡ some (ok (some headers))
  pub lines : List Text
  pub posted : split_crlf headers ≡ request_line (chars "POST") path ∷ lines
  pub allowed : IsAllowed address lines
