-- ===== src/Reactor/Startup/Signals.antt =====
-- The signals that are to end a run of src/server/Reactor.cpp, and the threads that they reach.
use rtsp_server.Prelude.{ℕ, suc, ◌≡◌, refl, ap, ◌∙◌, Bool, true, false, ◌&&◌, [], ◌∷◌, List}
use rtsp_server.Prelude.Bits.{Bytes}
use rtsp_server.Prelude.Numbers.{ℤ, pos, negsuc}
use rtsp_server.Utils.UniqueFd.{reset, valid}
use rtsp_server.Reactor.Startup.{
  Kernel, Setup, make_workers, construct, set_up, run_parts, open_server, listen_on, open_epoll,
  open_wake, open_signals, open_logic, open_pacer, open_timer, open_pacer_epoll, Threads, repeat,
  threads,
}

unfoldable pub all_true : List Bool → Bool
all_true [] = true
all_true (b ∷ bs) = b && all_true bs

-- A signal to the process waits for `signalfd` only when every thread has it blocked; a thread that
-- has not may take it, and its action is then to end the process.
unfoldable pub waits_for_signalfd : Threads → Bool
waits_for_signalfd t = t.caller && t.logic && t.pacer && t.dispatcher && all_true t.workers

-- The mask of the calling thread, and that a run that gets to its threads has the signals blocked.
Masked : ℕ → Setup × Bool → Type 0
Masked n (s, ok) =
    (s.blocked ≡ valid s.signal_fd) × (ok ≡ true → s.blocked ≡ true) × (s.workers ≡ repeat n false)

-- The same with the answers in the calls' places; `ok` is what the second part answers.
each_mask :
    (n : ℕ) (ok : Bool) (a b c d e f g h : ℤ)
    → let k : Kernel = record {
      socket = a;
      inet_pton = ok;
      bind = ok;
      listen = ok;
      epoll_create = b;
      wake_eventfd = c;
      signalfd = d;
      logic_eventfd = e;
      pacer_eventfd = f;
      timerfd_create = g;
      pacer_epoll_create = h;
    } in
      Masked n (
        run_parts
          (open_server k
            ∷ (λ s. (s, ok))
            ∷ open_epoll k
            ∷ open_wake k
            ∷ open_signals k
            ∷ open_logic k
            ∷ open_pacer k
            ∷ open_timer k
            ∷ open_pacer_epoll k
            ∷ [])
          (construct n false))
unfolding Masked construct make_workers run_parts open_server open_epoll open_wake open_signals
    open_logic open_pacer open_timer open_pacer_epoll reset valid
each_mask n ok (negsuc a) b c d e f g h = (refl, (λ e. cc), refl)
each_mask n false (pos a) b c d e f g h = (refl, (λ e. cc), refl)
each_mask n true (pos a) (negsuc b) c d e f g h = (refl, (λ e. cc), refl)
each_mask n true (pos a) (pos b) (negsuc c) d e f g h = (refl, (λ e. cc), refl)
each_mask n true (pos a) (pos b) (pos c) (negsuc d) e f g h = (refl, (λ e. cc), refl)
each_mask n true (pos a) (pos b) (pos c) (pos d) (negsuc e) f g h = (refl, (λ e. cc), refl)
each_mask n true (pos a) (pos b) (pos c) (pos d) (pos e) (negsuc f) g h = (refl, (λ e. cc), refl)
each_mask n true (pos a) (pos b) (pos c) (pos d) (pos e) (pos f) (negsuc g) h =
    (refl, (λ e. cc), refl)
each_mask n true (pos a) (pos b) (pos c) (pos d) (pos e) (pos f) (pos g) (negsuc h) =
    (refl, (λ e. cc), refl)
each_mask n true (pos a) (pos b) (pos c) (pos d) (pos e) (pos f) (pos g) (pos h) =
    (refl, (λ e. refl), refl)

run_mask : (host : Bytes) (k : Kernel) (n : ℕ) → Masked n (set_up host k (construct n false))
unfolding set_up listen_on
run_mask host k n =
    each_mask n _ k.socket k.epoll_create k.wake_eventfd k.signalfd k.logic_eventfd k.pacer_eventfd
      k.timerfd_create k.pacer_epoll_create

-- A run leaves the signals blocked in the thread that calls it exactly when it has made the
-- descriptor for them, also when it fails at a later call and returns false.
pub mask_left :
    (host : Bytes) (k : Kernel) (n : ℕ)
    → let s = (set_up host k (construct n false)).0 in s.blocked ≡ valid s.signal_fd
unfolding Masked
mask_left host k n = (run_mask host k n).0

-- When `run` gets to its threads, in a server made by a thread that has the signals unblocked, the
-- dispatcher has them blocked, but a signal does not wait for `signalfd`: no thread of the pool has
-- them blocked.
pub signal_to_worker :
    (host : Bytes) (k : Kernel) (n : ℕ)
    → (set_up host k (construct (suc n) false)).1 ≡ true
    → let t = threads (set_up host k (construct (suc n) false)).0 in
      (t.dispatcher ≡ true) × (waits_for_signalfd t ≡ false)
unfolding Masked threads waits_for_signalfd all_true
signal_to_worker host k n h =
    let m = run_mask host k (suc n) in
    let s = (set_up host k (construct (suc n) false)).0 in
    let e : s.blocked ≡ true = m.1 h in
    (e, ap (λ b. b && b && b && b && all_true s.workers) e ∙ ap all_true m.2)
