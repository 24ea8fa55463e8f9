-- ===== src/Session/Outbox/Wakeup.antt =====
-- `onWritable` and `enableWrite` in the steps that the other thread can see: the dispatcher, which
-- writes, and the worker that runs the session's tick, which queues. A buffer that is taken is sent
-- whole; what is not sent at once is told in Session.Outbox.
use rtsp_server.Prelude.{◌≡◌, ◌≢◌, refl, sym, Bool, true, false, [], ◌∷◌, ◌++◌, List}
use rtsp_server.Prelude.Bits.{Bytes}

-- Where the dispatcher is: outside `onWritable`, before `try_pop`, after `try_pop` has found the
-- queue empty, and after the call of `epoll_ctl`.
pub data Writer : Type 0 where
  waits pops found_empty disarmed : Writer

-- Where the worker is: outside, after `outbox_.push`, and after it has set the flag.
pub data Pusher : Type 0 where
  rests pushed claimed : Pusher

-- What the two share; `epoll_out` is whether epoll reports that the socket can be written.
pub record Shared : Type 0 where
  pub writer : Writer
  pub pusher : Pusher
  pub armed : Bool
  pub epoll_out : Bool
  pub queued : List Bytes

abbrev pub shared : Writer → Pusher → Bool → Bool → List Bytes → Shared
shared w p a e q = record { writer = w; pusher = p; armed = a; epoll_out = e; queued = q }

pub data Step : Shared → Shared → Type 0 where
  -- The worker: `outbox_.push`, and `enableWrite` with the flag set and not set.
  pushes :
      {w : Writer} {a e : Bool} {q : List Bytes} (buf : Bytes)
      → Step (shared w rests a e q) (shared w pushed a e (q ++ buf ∷ []))
  sees_armed :
      {w : Writer} {e : Bool} {q : List Bytes}
      → Step (shared w pushed true e q) (shared w rests true e q)
  claims :
      {w : Writer} {e : Bool} {q : List Bytes}
      → Step (shared w pushed false e q) (shared w claimed true e q)
  arms :
      {w : Writer} {a e : Bool} {q : List Bytes}
      → Step (shared w claimed a e q) (shared w rests a true q)
  -- The dispatcher: epoll reports EPOLLOUT, a buffer goes out, or the socket takes no more.
  wakes :
      {p : Pusher} {a : Bool} {q : List Bytes}
      → Step (shared waits p a true q) (shared pops p a true q)
  sends :
      {p : Pusher} {a e : Bool} {buf : Bytes} {q : List Bytes}
      → Step (shared pops p a e (buf ∷ q)) (shared pops p a e q)
  would_block :
      {p : Pusher} {a e : Bool} {q : List Bytes} → Step (shared pops p a e q) (shared waits p a e q)
  -- The queue is empty: `epoll_ctl`, and then the flag.
  finds_empty :
      {p : Pusher} {a e : Bool} → Step (shared pops p a e []) (shared found_empty p a e [])
  disarms :
      {p : Pusher} {a e : Bool} {q : List Bytes}
      → Step (shared found_empty p a e q) (shared disarmed p a false q)
  clears :
      {p : Pusher} {a e : Bool} {q : List Bytes}
      → Step (shared disarmed p a e q) (shared waits p false e q)

-- A new session, and what any interleaving of the two threads makes of it.
pub data Reached : Shared → Type 0 where
  at_first : Reached (shared waits rests false false [])
  then_steps : {s t : Shared} → Reached s → Step s t → Reached t

-- How the flag and epoll stand to each other, by where the threads are.
Agrees : Writer → Pusher → Bool → Bool → Type 0
Agrees waits claimed a e = (a ≡ true) × (e ≡ false)
Agrees waits rests a e = a ≡ e
Agrees waits pushed a e = a ≡ e
Agrees disarmed claimed a e = ◌≡◌ {A = Bool} true false
Agrees disarmed rests a e = (a ≡ true) × (e ≡ false)
Agrees disarmed pushed a e = (a ≡ true) × (e ≡ false)
Agrees pops claimed a e = ◌≡◌ {A = Bool} true false
Agrees pops rests a e = (a ≡ true) × (e ≡ true)
Agrees pops pushed a e = (a ≡ true) × (e ≡ true)
Agrees found_empty claimed a e = ◌≡◌ {A = Bool} true false
Agrees found_empty rests a e = (a ≡ true) × (e ≡ true)
Agrees found_empty pushed a e = (a ≡ true) × (e ≡ true)

abbrev AgreesIn : Shared → Type 0
AgreesIn s = Agrees s.writer s.pusher s.armed s.epoll_out

Step-Agrees : {s t : Shared} → Step s t → AgreesIn s → AgreesIn t
unfolding Agrees
Step-Agrees (pushes {w = waits} buf) i = i
Step-Agrees (pushes {w = pops} buf) i = i
Step-Agrees (pushes {w = found_empty} buf) i = i
Step-Agrees (pushes {w = disarmed} buf) i = i
Step-Agrees (sees_armed {w = waits}) i = i
Step-Agrees (sees_armed {w = pops}) i = i
Step-Agrees (sees_armed {w = found_empty}) i = i
Step-Agrees (sees_armed {w = disarmed}) i = i
Step-Agrees (claims {w = waits}) i = (refl, sym i)
Step-Agrees (claims {w = pops}) i = absurd (cc)
Step-Agrees (claims {w = found_empty}) i = absurd (cc)
Step-Agrees (claims {w = disarmed}) i = absurd (cc)
Step-Agrees (arms {w = waits}) i = i.0
Step-Agrees (arms {w = pops}) i = absurd (cc)
Step-Agrees (arms {w = found_empty}) i = absurd (cc)
Step-Agrees (arms {w = disarmed}) i = absurd (cc)
Step-Agrees (wakes {p = rests}) i = (i, refl)
Step-Agrees (wakes {p = pushed}) i = (i, refl)
Step-Agrees (wakes {p = claimed}) i = absurd (cc)
Step-Agrees (sends {p = rests}) i = i
Step-Agrees (sends {p = pushed}) i = i
Step-Agrees (sends {p = claimed}) i = i
Step-Agrees (would_block {p = rests}) i = cc
Step-Agrees (would_block {p = pushed}) i = cc
Step-Agrees (would_block {p = claimed}) i = absurd (cc)
Step-Agrees (finds_empty {p = rests}) i = i
Step-Agrees (finds_empty {p = pushed}) i = i
Step-Agrees (finds_empty {p = claimed}) i = i
Step-Agrees (disarms {p = rests}) i = (i.0, refl)
Step-Agrees (disarms {p = pushed}) i = (i.0, refl)
Step-Agrees (disarms {p = claimed}) i = absurd (cc)
Step-Agrees (clears {p = rests}) i = cc
Step-Agrees (clears {p = pushed}) i = cc
Step-Agrees (clears {p = claimed}) i = absurd (cc)

Reached-Agrees : {s : Shared} → Reached s → AgreesIn s
unfolding Agrees
Reached-Agrees at_first = refl
Reached-Agrees (then_steps r d) = Step-Agrees d (Reached-Agrees r)

-- In every interleaving, whenever the worker returns from `enableWrite` with the dispatcher outside,
-- the flag is set and epoll reports the socket.
pub push_wakes :
    {s t : Shared}
    → Reached s
    → Step s t
    → s.pusher ≢ rests
    → t.pusher ≡ rests
    → t.writer ≡ waits
    → (t.armed ≡ true) × (t.epoll_out ≡ true)
unfolding Agrees
push_wakes r d busy back out = returned d (Reached-Agrees r) busy back out
  where
    returned :
        {s t : Shared}
        → Step s t
        → AgreesIn s
        → s.pusher ≢ rests
        → t.pusher ≡ rests
        → t.writer ≡ waits
        → (t.armed ≡ true) × (t.epoll_out ≡ true)
    returned (pushes buf) i b k o = absurd (b refl)
    returned (sees_armed {w = waits}) i b k o = (refl, sym i)
    returned (sees_armed {w = pops}) i b k o = absurd (cc)
    returned (sees_armed {w = found_empty}) i b k o = absurd (cc)
    returned (sees_armed {w = disarmed}) i b k o = absurd (cc)
    returned (claims) i b k o = absurd (cc)
    returned (arms {w = waits}) i b k o = (i.0, refl)
    returned (arms {w = pops}) i b k o = absurd (cc)
    returned (arms {w = found_empty}) i b k o = absurd (cc)
    returned (arms {w = disarmed}) i b k o = absurd (cc)
    returned (wakes) i b k o = absurd (cc)
    returned (sends) i b k o = absurd (b k)
    returned (would_block) i b k o = absurd (b k)
    returned (finds_empty) i b k o = absurd (b k)
    returned (disarms) i b k o = absurd (b k)
    returned (clears) i b k o = absurd (b k)

-- There is an interleaving after which a buffer is queued, both threads are outside, and the socket
-- is not reported; and then no step of the dispatcher is possible, only another push.
pub lost_wakeup :
    (buf : Bytes)
    → Reached (shared waits rests false false (buf ∷ []))
      × ((t : Shared) → Step (shared waits rests false false (buf ∷ [])) t → t.pusher ≡ pushed)
lost_wakeup buf = (then_steps late clears, only)
  where
    first : Reached (shared pops rests true true (buf ∷ []))
    first =
        then_steps (then_steps (then_steps (then_steps at_first (pushes buf)) claims) arms) wakes

    late : Reached (shared disarmed rests true false (buf ∷ []))
    late =
        then_steps
          (then_steps (then_steps (then_steps (then_steps first sends) finds_empty) disarms)
            (pushes buf))
          sees_armed

    only : (t : Shared) → Step (shared waits rests false false (buf ∷ [])) t → t.pusher ≡ pushed
    only t (pushes b) = refl
