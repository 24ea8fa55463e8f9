-- ===== src/Reactor/Service.antt =====
-- A request on its way through the three threads of src/server/Reactor.cpp to its answer.
use rtsp_server.Prelude.{
  ℕ, ◌≡◌, refl, ap, ◌∙◌, Bool, true, false, [], ◌∷◌, List, some, ◌==◌, if◌then◌else◌, arith,
}
use rtsp_server.Prelude.Bits.{Bytes}
use rtsp_server.Prelude.Text.{codes, bytes_eq}
use rtsp_server.Prelude.Numbers.{ℤ}
use rtsp_server.Rtsp.Request.{Request}
use rtsp_server.Session.State.{Outcome, returned, threw, Session, Env}
use rtsp_server.Session.Handlers.{handle_request}
use rtsp_server.Session.Pacer.{drain, stream, pacer_tick}
use rtsp_server.Reactor.{
  Reactor, Task, session_of, route, route_all, logic, try_claim, release, claim, claim_all, wake,
  finish, run_first, run_task,
}
use rtsp_server.Reactor.Tables.{Table, get, put, get-put}

module _ {M D : Type 0} where
  -- A reactor with the one client `fd`, whose session is `id`, no tick under way, and one request in
  -- the queue.
  abbrev pub one_client : Table (Session M D) → Bytes → ℕ → ℕ → ℕ → Request → Reactor M D
  one_client heap root next fd id req = record {
    running = true;
    media_root = root;
    heap = heap;
    next = next;
    sessions = (fd, id) ∷ [];
    cmd_queue = (fd, req) ∷ [];
    tasks = [];
  }

  -- A session whose slot is free, with no request that waits; the rest is as in `s`.
  abbrev pub free : Session M D → Session M D
  free s = record s { pacer_in_flight = false; cmd_queue = [] }

module _ {M D : Type 0} (env : Env M D) (fuel : ℕ) where
  -- The session after a request that its tick has handled: after an exception its slot stays taken,
  -- after TEARDOWN nothing is sent, and else the tick goes on with the media.
  unfoldable pub after_request : ℤ → Bool → Outcome (Session M D) → Session M D
  after_request now teardown (threw s) = s
  after_request now true (returned s) = release s
  after_request now false (returned s) = release (stream env fuel now s)

  tick_lem :
      (now : ℤ) (req : Request) (s : Session M D)
      → finish (pacer_tick env fuel now (record s { pacer_in_flight = true; cmd_queue = req ∷ [] }))
        ≡ after_request now
            (bytes_eq req.method (codes "TEARDOWN"))
            (handle_request env req (record s { pacer_in_flight = true; cmd_queue = [] }))
  unfolding pacer_tick drain finish after_request
  tick_lem now req s =
      by_outcome (handle_request env req (record s { pacer_in_flight = true; cmd_queue = [] })) refl
        (bytes_eq req.method (codes "TEARDOWN")) refl
    where
      by_outcome :
          (o : Outcome (Session M D))
          → handle_request env req (record s { pacer_in_flight = true; cmd_queue = [] }) ≡ o
          → (b : Bool) → bytes_eq req.method (codes "TEARDOWN") ≡ b
          → finish
              (pacer_tick env fuel now (record s { pacer_in_flight = true; cmd_queue = req ∷ [] }))
            ≡ after_request now b o
      by_outcome (threw t) e b h = rw (e, drain) refl
      by_outcome (returned t) e true h = rw (e, h, drain) refl
      by_outcome (returned t) e false h = rw (e, h, drain) refl

  -- The session with its request, and with its slot taken.
  abbrev asked : Request → Session M D → Session M D
  asked req s = record s { pacer_in_flight = false; cmd_queue = req ∷ [] }

  abbrev taken : Request → Session M D → Session M D
  taken req s = record s { pacer_in_flight = true; cmd_queue = req ∷ [] }

  -- The reactor after the round of the logic thread, and after the wake of the pacer.
  abbrev idle_client : Table (Session M D) → Bytes → ℕ → ℕ → ℕ → List Task → Reactor M D
  idle_client heap root next fd id tasks = record {
    running = true;
    media_root = root;
    heap = heap;
    next = next;
    sessions = (fd, id) ∷ [];
    cmd_queue = [];
    tasks = tasks;
  }

  session_one :
      (heap : Table (Session M D)) (root : Bytes) (next fd id : ℕ) (s : Session M D)
      → get id heap ≡ some s
      → session_of fd (idle_client heap root next fd id []) ≡ some (id, s)
  unfolding session_of
  session_one heap root next fd id s h =
      let q : (fd == fd) ≡ true = ground arith in
      let k : get fd ((fd, id) ∷ []) ≡ some id = unfold get in rw (q, if◌then◌else◌) refl in
      rw (k, h, session_of) refl

  logic_one :
      (heap : Table (Session M D)) (root : Bytes) (next fd id : ℕ) (req : Request) (s : Session M D)
      → get id heap ≡ some (free s)
      → logic (one_client heap root next fd id req)
        ≡ idle_client (put id (asked req s) heap) root next fd id []
  unfolding logic route_all route
  logic_one heap root next fd id req s h =
      rw (session_one heap root next fd id (free s) h, route) refl

  wake_one :
      (now : ℤ) (heap : Table (Session M D)) (root : Bytes) (next fd id : ℕ) (req : Request)
      (s : Session M D)
      → get id heap ≡ some (asked req s)
      → wake now (idle_client heap root next fd id [])
        ≡ idle_client
            (put id (taken req s) heap)
            root
            next
            fd
            id
            (record { session = id; now = now } ∷ [])
  unfolding wake claim_all claim try_claim
  wake_one now heap root next fd id req s h = rw (h, claim) refl

  task_one :
      (now : ℤ) (heap : Table (Session M D)) (root : Bytes) (next fd id : ℕ) (req : Request)
      (s : Session M D)
      → get id heap ≡ some (taken req s)
      → run_task env fuel
          (idle_client heap root next fd id (record { session = id; now = now } ∷ []))
        ≡ idle_client
            (put id (finish (pacer_tick env fuel now (taken req s))) heap)
            root
            next
            fd
            id
            []
  unfolding run_task run_first
  task_one now heap root next fd id req s h = rw (h, run_first) refl

  -- With one client, whose session has a free slot and no request that waits, one round of the logic
  -- thread, one wake of the pacer and one task of the pool bring the request that is queued to the
  -- session, where it is handled, and leave no request and no task behind.
  pub request_served :
      (now : ℤ) (heap : Table (Session M D)) (root : Bytes) (next fd id : ℕ) (req : Request)
      (s : Session M D)
      → get id heap ≡ some (free s)
      → let r = run_task env fuel (wake now (logic (one_client heap root next fd id req))) in
        (get id r.heap
          ≡ some (
              after_request now
                (bytes_eq req.method (codes "TEARDOWN"))
                (handle_request env req (record s { pacer_in_flight = true; cmd_queue = [] }))))
        × (r.tasks ≡ [])
        × (r.cmd_queue ≡ [])
  request_served now heap root next fd id req s h =
      let h1 = put id (asked req s) heap in
      let h2 = put id (taken req s) h1 in
      let e =
        ap (λ r. run_task env fuel (wake now r)) (logic_one heap root next fd id req s h)
        ∙ (ap (λ r. run_task env fuel r)
              (wake_one now h1 root next fd id req s (get-put id (asked req s) heap))
            ∙ task_one now h2 root next fd id req s (get-put id (taken req s) h1)) in
      (
        ap (λ (r : Reactor M D). get id r.heap) e
            ∙ (get-put id (finish (pacer_tick env fuel now (taken req s))) h2
                ∙ ap some (tick_lem now req s)),
        ap (λ (r : Reactor M D). r.tasks) e,
        ap (λ (r : Reactor M D). r.cmd_queue) e,
      )
