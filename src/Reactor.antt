-- ===== src/Reactor.antt =====
-- src/server/Reactor.cpp: the three threads, as steps on the state that they share. A step is what
-- one thread does between two points at which the others are seen. The sessions stand in `heap`,
-- each under an identity of its own: the map of the reactor and the tasks of the pool hold
-- references to them (`shared_ptr`).
pub mod Tables
pub mod Ticks
pub mod Routes
pub mod Startup
pub mod Dispatching
pub mod Service
use rtsp_server.Prelude.{
  ℕ, suc, ◌+◌, Bool, true, false, not, ◌&&◌, ◌||◌, [], ◌∷◌, ◌++◌, List, Option, none, some,
  if◌then◌else◌, map,
}
use rtsp_server.Prelude.Bits.{Bytes}
use rtsp_server.Prelude.Numbers.{ℤ}
use rtsp_server.Doubles.{Doubles}
use rtsp_server.Rtsp.Request.{Request}
use rtsp_server.Session.State.{Outcome, returned, threw, Session, Env, create}
use rtsp_server.Session.Outbox.{SendResult, on_writable}
use rtsp_server.Session.Receive.{RecvResult, on_readable}
use rtsp_server.Session.Pacer.{pacer_tick}
use Tables.{Table, get, put, erase}

abbrev pub k_pacer_interval_ms : ℕ
k_pacer_interval_ms = 30

-- A call of `pacerTick` that the pool has not ended: the session, and `now`.
pub record Task : Type 0 where
  pub session : ℕ
  pub now : ℤ

pub record Reactor (M D : Type 0) : Type 0 where
  pub running : Bool
  pub media_root : Bytes
  pub heap : Table (Session M D)
  -- The next identity.
  pub next : ℕ
  -- `sessions_`: the identity of the session of a descriptor.
  pub sessions : Table ℕ
  pub cmd_queue : List (ℕ × Request)
  pub tasks : List Task

-- The random numbers that the constructor of a session draws.
pub record Draw : Type 0 where
  pub session_id : Bytes
  pub ssrc : ℕ
  pub audio_ssrc : ℕ

-- What epoll says of a client, with the answers of `send` and of `recv`.
pub record ClientEvent : Type 0 where
  pub fd : ℕ
  pub hangup : Bool
  pub writable : Option (List SendResult)
  pub readable : Option (List RecvResult)

abbrev pub tag : ℕ → List Request → List (ℕ × Request)
tag fd [] = []
tag fd (req ∷ reqs) = (fd, req) ∷ tag fd reqs

module _ {M D : Type 0} where
  -- `RTSPServer::run` and the constructor.
  unfoldable pub start : Bytes → Reactor M D
  start media_root = record {
    running = true;
    media_root = media_root;
    heap = [];
    next = 0;
    sessions = [];
    cmd_queue = [];
    tasks = [];
  }

  unfoldable pub stop : Reactor M D → Reactor M D
  stop r = record r { running = false }

  -- One round of `acceptClient`; `emplace` keeps a session that the map has, and the last argument
  -- is whether the descriptor could be registered.
  unfoldable pub accept_client : Doubles D → ℕ → Bytes → Draw → Bool → Reactor M D → Reactor M D
  accept_client d fd ip draw registered r =
      let s : Session M D = create d ip r.media_root draw.session_id draw.ssrc draw.audio_ssrc in
      let id = r.next in
      let mapped : Table ℕ = elim (get fd r.sessions) [
        | none ↦ put fd id r.sessions
        | some i ↦ r.sessions
      ] in
      record r {
        heap = put id s r.heap;
        next = suc id;
        sessions = if registered then mapped else erase fd mapped;
      }

  unfoldable pub close_session : ℕ → Reactor M D → Reactor M D
  close_session fd r = record r { sessions = erase fd r.sessions }

  unfoldable pub session_of : ℕ → Reactor M D → Option (ℕ × Session M D)
  session_of fd r = elim (get fd r.sessions) [
    | none ↦ none
    | some id ↦ elim (get id r.heap) [ none ↦ none | some s ↦ some (id, s) ]
  ]

  abbrev pub store : ℕ → Session M D → Reactor M D → Reactor M D
  store id s r = record r { heap = put id s r.heap }

  -- Whether the event goes on after the part for EPOLLOUT.
  unfoldable pub write_event : Option (List SendResult) → Session M D → Session M D × Bool
  write_event none s = (s, true)
  write_event (some results) s = let w = on_writable results s in (w.0, w.1)

  -- The part for EPOLLIN, with its requests; `none` when the parser does not end on the fuel.
  unfoldable pub read_event :
      ℕ → Option (List RecvResult) → Session M D → Option (Session M D × Bool × List Request)
  read_event fuel none s = some (s, true, [])
  read_event fuel (some results) s = on_readable fuel results s

  unfoldable pub after_read :
      ClientEvent
      → ℕ
      → Reactor M D
      → Option (Session M D × Bool × List Request)
      → Option (Reactor M D)
  after_read ev id r none = none
  after_read ev id r (some (s, false, parsed)) = some (close_session ev.fd (store id s r))
  after_read ev id r (some (s, true, parsed)) =
      some (record (store id s r) { cmd_queue = r.cmd_queue ++ tag ev.fd parsed })

  unfoldable pub after_write :
      ℕ → ClientEvent → ℕ → Reactor M D → Session M D × Bool → Option (Reactor M D)
  after_write fuel ev id r (s, false) = some (close_session ev.fd (store id s r))
  after_write fuel ev id r (s, true) = after_read ev id r (read_event fuel ev.readable s)

  unfoldable pub serve_client :
      ℕ → ClientEvent → ℕ → Session M D → Reactor M D → Option (Reactor M D)
  serve_client fuel ev id s r = after_write fuel ev id r (write_event ev.writable s)

  -- The dispatcher on one client event.
  unfoldable pub dispatch : ℕ → ClientEvent → Reactor M D → Option (Reactor M D)
  dispatch fuel ev r = elim ev.hangup [
    | true ↦ some (close_session ev.fd r)
    | false ↦ elim (session_of ev.fd r) [
      | none ↦ some r
      | some (id, s) ↦ serve_client fuel ev id s r
    ]
  ]

  abbrev pub push_command : Request → Session M D → Session M D
  push_command req s = record s { cmd_queue = s.cmd_queue ++ req ∷ [] }

  -- The logic thread on one command: it goes to the session that the descriptor has now.
  unfoldable pub route : ℕ × Request → Reactor M D → Reactor M D
  route (fd, req) r = elim (session_of fd r) [
    | none ↦ r
    | some (id, s) ↦ store id (push_command req s) r
  ]

  unfoldable pub route_all : List (ℕ × Request) → Reactor M D → Reactor M D
  route_all [] r = r
  route_all (c ∷ cs) r = route_all cs (route c r)

  unfoldable pub logic : Reactor M D → Reactor M D
  logic r = route_all r.cmd_queue (record r { cmd_queue = [] })

  -- `tryClaimPacerTick` and `releasePacerTick`.
  unfoldable pub try_claim : Session M D → Option (Session M D)
  try_claim s = if s.pacer_in_flight then none else some (record s { pacer_in_flight = true })

  abbrev pub release : Session M D → Session M D
  release s = record s { pacer_in_flight = false }

  -- The pacer on one session of its snapshot.
  unfoldable pub claim : ℤ → ℕ → Reactor M D → Reactor M D
  claim now id r = elim (get id r.heap) [
    | none ↦ r
    | some s ↦ elim (try_claim s) [
      | none ↦ r
      | some s' ↦ record r {
        heap = put id s' r.heap;
        tasks = r.tasks ++ record { session = id; now = now } ∷ [];
      }
    ]
  ]

  unfoldable pub claim_all : ℤ → List (ℕ × ℕ) → Reactor M D → Reactor M D
  claim_all now [] r = r
  claim_all now ((fd, id) ∷ rest) r = claim_all now rest (claim now id r)

  -- One wake of the pacer.
  unfoldable pub wake : ℤ → Reactor M D → Reactor M D
  wake now r = claim_all now r.sessions r

  -- The end of a task: an exception goes to the task's future, which nobody reads, and the slot is
  -- not released.
  unfoldable pub finish : Outcome (Session M D) → Session M D
  finish (returned s) = release s
  finish (threw s) = s

  -- A worker that runs the pool's oldest task.
  unfoldable pub run_first : Env M D → ℕ → List Task → Reactor M D → Reactor M D
  run_first env fuel [] r = r
  run_first env fuel (t ∷ ts) r = elim (get t.session r.heap) [
    | none ↦ record r { tasks = ts }
    | some s ↦ record r {
      tasks = ts;
      heap = put t.session (finish (pacer_tick env fuel t.now s)) r.heap;
    }
  ]

  unfoldable pub run_task : Env M D → ℕ → Reactor M D → Reactor M D
  run_task env fuel r = run_first env fuel r.tasks r
