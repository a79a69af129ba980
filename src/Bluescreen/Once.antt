-- ===== src/Bluescreen/Once.antt =====
-- Who dismisses the blue screen over the life of a worker, and that the link works once.
use desktop_mdm.Bluescreen.Worker.{
  accept_failed, no_connection, connection, WorkerTurn, worker_loop, connection, Accept,
  IsDismissal,
}
use desktop_mdm.Bluescreen.Allowed.{respond-after, respond-dismisses, respond-no_line}
use desktop_mdm.Text.Split.{split_crlf}
use desktop_mdm.Bluescreen.{
  PageResponse, SocketAddr, serve, Socket, Served, read_headers, respond, IoError, max_duration,
}
use desktop_mdm.Prelude.{
  ℕ, ◌<◌, ◌≡◌, refl, sym, ap, ◌∙◌, subst, ◌≢◌, inl, inr, Bool, true, false, ◌||◌, Option, none,
  some, List, [], ◌∷◌, ◌++◌, arith, leb, Bool-cases, Option-cases, ℕ_eq, Bool_eq, List_eq,
  Option_eq, All,
}
use desktop_mdm.Prelude.Result.{Result, ok, Result-cases}
use desktop_mdm.Text.{Text, chars}

abbrev Refused : PageResponse → Type 0
Refused response = response.status ≢ chars "200 OK"

-- The three ways in which a connection ends.
data Connection (fuel : ℕ) (address : SocketAddr) (path : Text) (socket : Socket) (done : Bool)
    (served : Served) : Type 0 where
  quiet : served.sent ≡ none → served.done ≡ done → Connection fuel address path socket done served
  answered :
      (headers : Text)
      → read_headers fuel socket ≡ some (ok (some headers))
      → served.sent ≡ some (respond address path (split_crlf headers) done).0
      → served.done ≡ (respond address path (split_crlf headers) done).1
      → Connection fuel address path socket done served

serve-Connection :
    (fuel : ℕ) (address : SocketAddr) (path : Text) (socket : Socket) (done : Bool)
    (served : Served)
    → serve fuel address path socket done ≡ some served
    → Connection fuel address path socket done served
unfolding serve
serve-Connection fuel address path socket done served h =
    elim (Bool-cases socket.write_timeout_set) [
      | inr unset ↦ quiet_of (served_of (rw (unset, serve) at h))
      | inl set ↦ elim (Option-cases (read_headers fuel socket)) [
        | inl e1 ↦ cc (rw (set, e1, serve) at h)
        | inr (result, e1) ↦ elim (Result-cases result) [
          | inr (x, e2) ↦ quiet_of (served_of (rw (set, ◌∙◌ e1 (ap some e2), serve) at h))
          | inl (whole, e2) ↦ elim (Option-cases whole) [
            | inl e3 ↦ quiet_of (served_of (rw (set, e1 ∙ ap some (e2 ∙ ap ok e3), serve) at h))
            | inr (headers, e3) ↦
                let read : read_headers fuel socket ≡ some (ok (some headers)) =
                  e1 ∙ ap some (e2 ∙ ap ok e3) in
                let same = served_of (rw (set, read, serve) at h) in
                answered headers read (ap (λ s. s.sent) same) (ap (λ s. s.done) same)
          ]
        ]
      ]
    ]
  where
    served_of : {a b : Served} → ◌≡◌ {A = Option Served} (some a) (some b) → b ≡ a
    served_of e = cc

    quiet_of :
        {result : Result IoError (Unit {0})}
        → served ≡ record { result = result; done = done; sent = none }
        → Connection fuel address path socket done served
    quiet_of same = quiet (ap (λ s. s.sent) same) (ap (λ s. s.done) same)

abbrev Run : Type 0
Run = Option (Bool × List PageResponse)

run_of : {a b : Bool × List PageResponse} → ◌≡◌ {A = Run} (some a) (some b) → a ≡ b
run_of e = cc

-- What the rounds after a dismissal do.
module _ (fuel : ℕ) (address : SocketAddr) (path : Text) where
  served_after :
      (socket : Socket) (served : Served)
      → Connection fuel address path socket true served
      → (served.done ≡ true)
        × ((response : PageResponse) → served.sent ≡ some response → Refused response)
  served_after socket served (quiet e1 e2) = (e2, λ response e. absurd cc)
  served_after socket served (answered headers e1 e2 e3) =
      let (stays, refused) = respond-after address path (split_crlf headers) in
      (
        e3 ∙ stays,
        λ response e.
            let same : response ≡ (respond address path (split_crlf headers) true).0 = cc in
            rw same refused,
      )

  -- A run from the rounds after `turns` on extends to a run whose connection `served` comes first.
  extend : Option PageResponse → Bool × List PageResponse → Bool × List PageResponse
  extend none run = run
  extend (some response) (after, responses) = (after, response ∷ responses)

  -- A round ends the run, changes nothing, or serves a connection.
  data Round (turn : WorkerTurn) (turns : List WorkerTurn) (done : Bool)
      (run : Bool × List PageResponse) : Type 0 where
    ended : run ≡ (done, []) → Round turn turns done run
    idle : worker_loop fuel address path turns done ≡ some run → Round turn turns done run
    serving :
        (socket : Socket) (served : Served) (rest : Bool × List PageResponse)
        → turn.accept ≡ connection socket
        → turn.stop_requested ≡ false
        → turn.elapsed < max_duration
        → Connection fuel address path socket done served
        → worker_loop fuel address path turns served.done ≡ some rest
        → run ≡ extend served.sent rest
        → Round turn turns done run

  worker_loop-Round :
      (turn : WorkerTurn) (turns : List WorkerTurn) (done : Bool) (run : Bool × List PageResponse)
      → worker_loop fuel address path (turn ∷ turns) done ≡ some run
      → Round turn turns done run
  unfolding worker_loop extend
  worker_loop-Round turn turns done run h =
      elim (Bool-cases (turn.stop_requested || leb max_duration turn.elapsed)) [
        | inl over ↦ ended (sym (run_of (rw (over, worker_loop) at h)))
        | inr open_ ↦ by_accept open_ turn.accept refl
      ]
    where
      by_accept :
          (turn.stop_requested || leb max_duration turn.elapsed) ≡ false
          → (accept : Accept) → turn.accept ≡ accept
          → Round turn turns done run
      by_accept open_ accept_failed e = ended (sym (run_of (rw (open_, e, worker_loop) at h)))
      by_accept open_ no_connection e = idle (rw (open_, e, worker_loop) at h)
      by_accept open_ (connection socket) e =
          elim (Option-cases (serve fuel address path socket done)) [
            | inl e1 ↦ cc (rw (open_, e, e1, worker_loop) at h)
            | inr (served, e1) ↦
                elim (Option-cases (worker_loop fuel address path turns served.done)) [
                  | inl e2 ↦ cc (rw (open_, e, e1, e2, worker_loop) at h)
                  | inr (rest, e2) ↦
                      let extended : run ≡ extend served.sent rest =
                        by_sent served rest e1 e2 served.sent refl in
                      serving socket served rest e (ground arith) (ground arith)
                        (serve-Connection fuel address path socket done served e1) e2 extended
                ]
          ]
        where
          by_sent :
              (served : Served) (rest : Bool × List PageResponse)
              → serve fuel address path socket done ≡ some served
              → worker_loop fuel address path turns served.done ≡ some rest
              → (sent : Option PageResponse) → served.sent ≡ sent
              → run ≡ extend sent rest
          by_sent served rest e1 e2 none e3 =
              sym (run_of (rw (open_, e, e1, e2, e3, worker_loop) at h))
          by_sent served rest e1 e2 (some response) e3 =
              sym (run_of (rw (open_, e, e1, e2, e3, worker_loop) at h))

  extend-done :
      (sent : Option PageResponse) (rest : Bool × List PageResponse) → (extend sent rest).0 ≡ rest.0
  unfolding extend
  extend-done none rest = refl
  extend-done (some response) rest = refl

  extend-Refused :
      (sent : Option PageResponse) (rest : Bool × List PageResponse)
      → ((response : PageResponse) → sent ≡ some response → Refused response)
      → All Refused rest.1
      → All Refused (extend sent rest).1
  unfolding extend
  extend-Refused none rest h hs = hs
  extend-Refused (some response) rest h hs = (h response refl, hs)

  -- Once the blue screen is dismissed it stays so, and no connection is answered with success.
  pub worker_loop-after :
      (turns : List WorkerTurn) (run : Bool × List PageResponse)
      → worker_loop fuel address path turns true ≡ some run
      → (run.0 ≡ true) × All Refused run.1
  unfolding worker_loop
  worker_loop-after [] run h =
      let same : (true, []) ≡ run = run_of h in
      subst (λ (r : Bool × List PageResponse). (r.0 ≡ true) × All Refused r.1) same (refl, tt)
  worker_loop-after (turn ∷ turns) run h = elim (worker_loop-Round turn turns true run h) [
    | ended same ↦ rw same (refl, tt)
    | idle rest ↦ worker_loop-after turns run rest
    | serving socket served rest e1 e2 e3 way e4 same ↦
        let (still, refused) = served_after socket served way in
        let (done, others) = worker_loop-after turns rest (rw still at e4) in
        rw same
          (extend-done served.sent rest ∙ done, extend-Refused served.sent rest refused others)
  ]

  dismissed_by :
      (turn : WorkerTurn) (socket : Socket) (served : Served)
      → turn.accept ≡ connection socket
      → turn.stop_requested ≡ false
      → turn.elapsed < max_duration
      → Connection fuel address path socket false served
      → served.done ≡ true
      → IsDismissal fuel address path turn
  dismissed_by turn socket served e1 e2 e3 (quiet q1 q2) done = absurd cc
  dismissed_by turn socket served e1 e2 e3 (answered headers read q2 q3) done =
      by_lines (split_crlf headers) refl
    where
      by_lines :
          (all_lines : List Text)
          → split_crlf headers ≡ all_lines
          → IsDismissal fuel address path turn
      by_lines [] e4 = absurd (respond-no_line address path (sym (rw e4 at q3) ∙ done))
      by_lines (first ∷ lines) e4 =
          let (post, allowed) =
            (respond-dismisses address path first lines).0 (sym (rw e4 at q3) ∙ done) in
          record {
            in_time = e3;
            not_stopped = e2;
            socket = socket;
            taken = e1;
            headers = headers;
            read = read;
            lines = lines;
            posted = e4 ∙ ap (λ (l : Text). l ∷ lines) post;
            allowed = allowed;
          }

  -- A run from a blue screen that shows to one that is dismissed took a connection that dismissed it
  -- in some round, before its expiry and before it was told to stop.
  pub worker_loop-IsDismissal :
      (turns : List WorkerTurn) (run : Bool × List PageResponse)
      → worker_loop fuel address path turns false ≡ some run
      → run.0 ≡ true
      → (earlier : List WorkerTurn) × (turn : WorkerTurn) × (later : List WorkerTurn) × (turns
          ≡ earlier ++ turn ∷ later)
        × IsDismissal fuel address path turn
  unfolding worker_loop
  worker_loop-IsDismissal [] run h done =
      let same : (false, []) ≡ run = run_of h in
      let shows : false ≡ run.0 = ap (λ (r : Bool × List PageResponse). r.0) same in absurd cc
  worker_loop-IsDismissal (turn ∷ turns) run h done =
      elim (worker_loop-Round turn turns false run h) [
        | ended same ↦
            let shows : run.0 ≡ false = ap (λ (r : Bool × List PageResponse). r.0) same in absurd cc
        | idle rest ↦
            let (earlier, found, later, split, dismissal) =
              worker_loop-IsDismissal turns run rest done in
            (turn ∷ earlier, found, later, ap (λ (l : List WorkerTurn). turn ∷ l) split, dismissal)
        | serving socket served rest e1 e2 e3 way e4 same ↦ elim (Bool-cases served.done) [
          | inl now ↦ ([], turn, turns, refl, dismissed_by turn socket served e1 e2 e3 way now)
          | inr still ↦
              let shows : run.0 ≡ rest.0 =
                ap (λ (r : Bool × List PageResponse). r.0) same ∙ extend-done served.sent rest in
              let (earlier, found, later, split, dismissal) =
                worker_loop-IsDismissal turns rest (rw still at e4) (sym shows ∙ done) in
              (
                turn ∷ earlier,
                found,
                later,
                ap (λ (l : List WorkerTurn). turn ∷ l) split,
                dismissal,
              )
        ]
      ]
