-- ===== src/Reactor/Startup.antt =====
-- src/server/Reactor.cpp, `run` and the destructor: the descriptors that a run opens, the signal
-- mask of the threads, and the end of a run.
pub mod Ownership
pub mod Signals
pub mod Ending
use rtsp_server.Prelude.{ℕ, zero, suc, Bool, true, false, ◌||◌, ◌&&◌, [], ◌∷◌, ◌++◌, List, length}
use rtsp_server.Prelude.Bits.{Bytes}
use rtsp_server.Prelude.Numbers.{ℤ}
use rtsp_server.Prelude.Text.{codes, bytes_eq}
use rtsp_server.Utils.UniqueFd.{UniqueFd, unset, valid, reset, close}
use rtsp_server.Session.State.{Env}
use rtsp_server.Reactor.{Reactor, run_task}

-- The kernel's answers to the calls of `run`, in their order.
pub record Kernel : Type 0 where
  pub socket : ℤ
  pub inet_pton : Bool
  pub bind : Bool
  pub listen : Bool
  pub epoll_create : ℤ
  pub wake_eventfd : ℤ
  pub signalfd : ℤ
  pub logic_eventfd : ℤ
  pub pacer_eventfd : ℤ
  pub timerfd_create : ℤ
  pub pacer_epoll_create : ℤ

-- The descriptors of the reactor, whether the calling thread and each thread of the pool have SIGINT
-- and SIGTERM blocked, and, for the theorems, what the kernel has answered to the calls that make a descriptor.
pub record Setup : Type 0 where
  pub server_fd : UniqueFd
  pub epoll_fd : UniqueFd
  pub wake_fd : UniqueFd
  pub signal_fd : UniqueFd
  pub logic_efd : UniqueFd
  pub pacer_efd : UniqueFd
  pub timer_fd : UniqueFd
  pub pacer_epoll : UniqueFd
  pub blocked : Bool
  pub workers : List Bool
  pub answers : List ℤ

abbrev pub repeat : ℕ → Bool → List Bool
repeat zero b = []
repeat (suc n) b = b ∷ repeat n b

-- The threads that the constructor of `ThreadPool` makes: a thread begins with the mask of the
-- thread that makes it.
unfoldable pub make_workers : ℕ → Bool → List Bool
make_workers n blocked = repeat n blocked

-- The constructor of a reactor with so many workers, in a thread with this signal mask.
unfoldable pub construct : ℕ → Bool → Setup
unfolding make_workers
construct n blocked = record {
  server_fd = unset;
  epoll_fd = unset;
  wake_fd = unset;
  signal_fd = unset;
  logic_efd = unset;
  pacer_efd = unset;
  timer_fd = unset;
  pacer_epoll = unset;
  blocked = blocked;
  workers = make_workers n blocked;
  answers = [];
}

-- A part of `run`: the state after it, and whether `run` goes on.
abbrev pub Part : Type 0
Part = Setup → Setup × Bool

unfoldable pub open_server : Kernel → Part
unfolding reset valid
open_server k s =
    let u = (reset k.socket s.server_fd).0 in
    (record s { server_fd = u; answers = s.answers ++ k.socket ∷ [] }, valid u)

-- The address, `bind` and `listen`.
unfoldable pub listen_on : Bytes → Kernel → Part
listen_on host k s =
    let any = bytes_eq host [] || bytes_eq host (codes "0.0.0.0") in
    (s, (any || k.inet_pton) && k.bind && k.listen)

unfoldable pub open_epoll : Kernel → Part
unfolding reset valid
open_epoll k s =
    let u = (reset k.epoll_create s.epoll_fd).0 in
    (record s { epoll_fd = u; answers = s.answers ++ k.epoll_create ∷ [] }, valid u)

unfoldable pub open_wake : Kernel → Part
unfolding reset valid
open_wake k s =
    let u = (reset k.wake_eventfd s.wake_fd).0 in
    (record s { wake_fd = u; answers = s.answers ++ k.wake_eventfd ∷ [] }, valid u)

-- `pthread_sigmask`, `signalfd`, and the mask again when this fails.
unfoldable pub open_signals : Kernel → Part
unfolding reset valid
open_signals k s =
    let u = (reset k.signalfd s.signal_fd).0 in
    (record s { signal_fd = u; blocked = valid u; answers = s.answers ++ k.signalfd ∷ [] }, valid u)

unfoldable pub open_logic : Kernel → Part
unfolding reset valid
open_logic k s =
    let u = (reset k.logic_eventfd s.logic_efd).0 in
    (record s { logic_efd = u; answers = s.answers ++ k.logic_eventfd ∷ [] }, valid u)

unfoldable pub open_pacer : Kernel → Part
unfolding reset valid
open_pacer k s =
    let u = (reset k.pacer_eventfd s.pacer_efd).0 in
    (record s { pacer_efd = u; answers = s.answers ++ k.pacer_eventfd ∷ [] }, valid u)

unfoldable pub open_timer : Kernel → Part
unfolding reset valid
open_timer k s =
    let u = (reset k.timerfd_create s.timer_fd).0 in
    (record s { timer_fd = u; answers = s.answers ++ k.timerfd_create ∷ [] }, valid u)

unfoldable pub open_pacer_epoll : Kernel → Part
unfolding reset valid
open_pacer_epoll k s =
    let u = (reset k.pacer_epoll_create s.pacer_epoll).0 in
    (record s { pacer_epoll = u; answers = s.answers ++ k.pacer_epoll_create ∷ [] }, valid u)

-- The parts, as far as they succeed.
unfoldable pub run_parts : List Part → Part
run_parts [] s = (s, true)
run_parts (p ∷ ps) s =
    let (s', ok) = p s in elim ok [ false ↦ (s', false) | true ↦ run_parts ps s' ]

-- `run` up to the threads; `false` is the failure that it returns.
unfoldable pub set_up : Bytes → Kernel → Part
unfolding run_parts open_server listen_on open_epoll open_wake open_signals open_logic open_pacer
    open_timer open_pacer_epoll
set_up host k = run_parts (
    open_server k
    ∷ listen_on host k
    ∷ open_epoll k
    ∷ open_wake k
    ∷ open_signals k
    ∷ open_logic k
    ∷ open_pacer k
    ∷ open_timer k
    ∷ open_pacer_epoll k
    ∷ [])

-- What the destructors of the members give to `::close`, the last member first.
unfoldable pub destruct : Setup → List ℕ
unfolding close
destruct s =
    (close s.pacer_epoll).1
    ++ (close s.timer_fd).1
    ++ (close s.pacer_efd).1
    ++ (close s.logic_efd).1
    ++ (close s.signal_fd).1
    ++ (close s.wake_fd).1
    ++ (close s.epoll_fd).1
    ++ (close s.server_fd).1

-- Whether each thread has SIGINT and SIGTERM blocked.
pub record Threads : Type 0 where
  pub caller : Bool
  pub logic : Bool
  pub pacer : Bool
  pub dispatcher : Bool
  pub workers : List Bool

-- The threads while a server runs: those that `run` makes have the mask of its caller at that time.
unfoldable pub threads : Setup → Threads
threads s = record {
  caller = s.blocked;
  logic = s.blocked;
  pacer = s.blocked;
  dispatcher = s.blocked;
  workers = s.workers;
}

module _ {M D : Type 0} where
  -- `pacer_pool_.shutdown()`: the pool runs the tasks that it has.
  unfoldable pub run_tasks : Env M D → ℕ → ℕ → Reactor M D → Reactor M D
  run_tasks env fuel zero r = r
  run_tasks env fuel (suc n) r = run_tasks env fuel n (run_task env fuel r)

  -- The end of `run`, when the three threads have ended.
  unfoldable pub shut_down : Env M D → ℕ → Reactor M D → Reactor M D
  unfolding run_tasks
  shut_down env fuel r = record (run_tasks env fuel (length r.tasks) r) {
    running = false;
    sessions = [];
  }
