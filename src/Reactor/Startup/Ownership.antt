-- ===== src/Reactor/Startup/Ownership.antt =====
-- The descriptors of a run of src/server/Reactor.cpp are closed once each.
use rtsp_server.Prelude.{ℕ, ◌≡◌, refl, Bool, true, false, [], ◌∷◌, ◌++◌, List}
use rtsp_server.Prelude.Bits.{Bytes}
use rtsp_server.Prelude.Numbers.{ℤ, pos, negsuc}
use rtsp_server.Utils.UniqueFd.{reset, close, valid}
use rtsp_server.Reactor.Startup.{
  Kernel, Setup, construct, set_up, run_parts, open_server, listen_on, open_epoll, open_wake,
  open_signals, open_logic, open_pacer, open_timer, open_pacer_epoll, destruct,
}

-- The descriptors among the kernel's answers, the newest first.
unfoldable pub descriptors : List ℤ → List ℕ
descriptors [] = []
descriptors (pos n ∷ rest) = descriptors rest ++ n ∷ []
descriptors (negsuc n ∷ rest) = descriptors rest

-- The destructors close what the kernel gave.
Closed : Setup → Type 0
Closed s = destruct s ≡ descriptors s.answers

-- The same with the answers in the calls' places; `ok` is what the second part answers.
each_answer :
    (n : ℕ) (ok blocked : Bool) (a b c d e f g h : ℤ)
    → let k : Kernel = record {
      socket = a;
      inet_pton = ok;
      bind = ok;
      listen = ok;
      epoll_create = b;
      wake_eventfd = c;
      signalfd = d;
      logic_eventfd = e;
      pacer_eventfd = f;
      timerfd_create = g;
      pacer_epoll_create = h;
    } in
      Closed
        (run_parts
          (open_server k
            ∷ (λ s. (s, ok))
            ∷ open_epoll k
            ∷ open_wake k
            ∷ open_signals k
            ∷ open_logic k
            ∷ open_pacer k
            ∷ open_timer k
            ∷ open_pacer_epoll k
            ∷ [])
          (construct n blocked)).0
unfolding Closed construct destruct descriptors run_parts open_server open_epoll open_wake
    open_signals open_logic open_pacer open_timer open_pacer_epoll reset close valid
each_answer n ok blocked (negsuc a) b c d e f g h = refl
each_answer n false blocked (pos a) b c d e f g h = refl
each_answer n true blocked (pos a) (negsuc b) c d e f g h = refl
each_answer n true blocked (pos a) (pos b) (negsuc c) d e f g h = refl
each_answer n true blocked (pos a) (pos b) (pos c) (negsuc d) e f g h = refl
each_answer n true blocked (pos a) (pos b) (pos c) (pos d) (negsuc e) f g h = refl
each_answer n true blocked (pos a) (pos b) (pos c) (pos d) (pos e) (negsuc f) g h = refl
each_answer n true blocked (pos a) (pos b) (pos c) (pos d) (pos e) (pos f) (negsuc g) h = refl
each_answer n true blocked (pos a) (pos b) (pos c) (pos d) (pos e) (pos f) (pos g) (negsuc h) = refl
each_answer n true blocked (pos a) (pos b) (pos c) (pos d) (pos e) (pos f) (pos g) (pos h) = refl

-- Whether `run` gets as far as its threads or fails at any call, the destructors close each
-- descriptor that the kernel gave to `run`, once, and nothing else.
pub closed_once :
    (host : Bytes) (k : Kernel) (n : ℕ) (blocked : Bool)
    → let s = (set_up host k (construct n blocked)).0 in destruct s ≡ descriptors s.answers
unfolding Closed set_up listen_on
closed_once host k n blocked =
    each_answer n _ blocked k.socket k.epoll_create k.wake_eventfd k.signalfd k.logic_eventfd
      k.pacer_eventfd k.timerfd_create k.pacer_epoll_create
