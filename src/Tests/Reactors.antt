-- ===== src/Tests/Reactors.antt =====
-- The reactor with its clients.
use rtsp_server.Prelude.{ℕ, ◌≡◌, refl, arith, true, [], ◌∷◌, some}
use rtsp_server.Prelude.Bits.{Bytes}
use rtsp_server.Prelude.Text.{codes, bytes_eq}
use rtsp_server.Prelude.Numbers.{pos}
use rtsp_server.Rtsp.Request.{Request}
use rtsp_server.Session.State.{init, ready, playing, Session, create}
use rtsp_server.Session.Handlers.{handle_request}
use rtsp_server.Reactor.{
  Reactor, Draw, start, accept_client, close_session, session_of, push_command, logic, wake,
  run_task,
}
use rtsp_server.Reactor.Tables.{Table, get}
use rtsp_server.Reactor.Service.{one_client, free, after_request, request_served}
use rtsp_server.Reactor.Ticks.Workers.{Reached}
use rtsp_server.Reactor.Routes.{Serves, from_fd, queue_all, logic_lem, stale_command}
use rtsp_server.Tests.World.{Frames, whole, world, streaming, request, cseq_header}

abbrev root : Bytes
root = codes "/videos/"

abbrev draw : Draw
draw = record { session_id = codes "42"; ssrc = 7; audio_ssrc = 8 }

abbrev accepted : Reactor Frames ℕ
accepted = accept_client whole 5 (codes "10.0.0.2") draw true (start root)

-- The dispatcher claims the slot, a worker takes the task, and its tick returns.
abbrev idle : Session Frames ℕ
idle = create whole (codes "10.0.0.2") root (codes "42") 7 8

abbrev claimed : Session Frames ℕ
claimed = record idle { pacer_in_flight = true }

abbrev left_behind : Reactor Frames ℕ
left_behind = record accepted { cmd_queue = (5, request (codes "PLAY") cseq_header) ∷ [] }

stale_command_example :
    session_of 5
      (logic (accept_client whole 5 (codes "10.0.0.3") draw true (close_session 5 left_behind)))
    ≡ some (
      left_behind.next,
      push_command
          (request (codes "PLAY") cseq_header)
          (create whole (codes "10.0.0.3") left_behind.media_root (codes "42") 7 8),
    )
stale_command_example =
    stale_command whole 5 (codes "10.0.0.3") draw (request (codes "PLAY") cseq_header) left_behind
      refl

-- A reactor with one session, and commands from it and from a client that is gone.
abbrev commanded : Reactor Frames ℕ
commanded = record {
  running = true;
  media_root = root;
  heap = (0, streaming init) ∷ [];
  next = 1;
  sessions = (5, 0) ∷ [];
  cmd_queue = (6, request (codes "PLAY") []) ∷ (5, request (codes "OPTIONS") []) ∷ [];
  tasks = [];
}

commanded-Serves : Serves 5 0 (streaming init) commanded
unfolding get
commanded-Serves = record { mapped = refl; held = refl; alone = λ k e. ground (arith, e) }

logic_lem_example :
    Serves 5 0 (queue_all (from_fd 5 commanded.cmd_queue) (streaming init)) (logic commanded)
logic_lem_example = logic_lem 5 0 (streaming init) commanded commanded-Serves

-- A SETUP with no port after `client_port=`, in a tick.
abbrev malformed : Request
malformed =
    request (codes "SETUP") ((codes "transport", codes "RTP/AVP;unicast;client_port=x") ∷ [])

abbrev commanding : Session Frames ℕ
commanding = record (streaming ready) { pacer_in_flight = true; cmd_queue = malformed ∷ [] }

abbrev ticking : Reactor Frames ℕ
ticking = record {
  running = true;
  media_root = root;
  heap = (0, commanding) ∷ [];
  next = 1;
  sessions = (5, 0) ∷ [];
  cmd_queue = [];
  tasks = record { session = 0; now = pos 8 } ∷ [];
}

abbrev client_heap : Table (Session Frames ℕ)
client_heap = (3, free (streaming playing)) ∷ []

client_found : get 3 client_heap ≡ some (free (streaming playing))
unfolding get
client_found = refl

request_served_example :
    let r = run_task world 9 (
      wake
        (pos 30)
        (logic (one_client client_heap root 4 7 3 (request (codes "PAUSE") cseq_header)))) in
    (get 3 r.heap
      ≡ some (
          after_request world 9 (pos 30) (bytes_eq (codes "PAUSE") (codes "TEARDOWN")) (
            handle_request world
              (request (codes "PAUSE") cseq_header)
              (record (streaming playing) { pacer_in_flight = true; cmd_queue = [] }))))
    × (r.tasks ≡ [])
    × (r.cmd_queue ≡ [])
request_served_example =
    request_served world 9 (pos 30) client_heap root 4 7 3 (request (codes "PAUSE") cseq_header)
      (streaming playing) client_found
