-- ===== src/Reactor/Ticks/Workers.antt =====
-- The slot of a session between the threads: the dispatcher claims it and enqueues a task, and any
-- number of workers run the tasks, each in the order of the lambda of `onPacerTimerReady`: the
-- tick, then the release of the slot. A tick is not one step here.
use rtsp_server.Prelude.{ℕ, suc, ◌+◌, ◌≡◌, ◌⊎◌, true, false, some, arith}
use rtsp_server.Session.State.{Session}
use rtsp_server.Reactor.{try_claim, release}

-- The tasks of one session: in the pool's queue, in `pacerTick`, and between its return and
-- `releasePacerTick`.
pub record Slot (M D : Type 0) : Type 0 where
  pub session : Session M D
  pub waiting : ℕ
  pub ticking : ℕ
  pub releasing : ℕ

abbrev pub slot : {M D : Type 0} → Session M D → ℕ → ℕ → ℕ → Slot M D
slot s w k d = record { session = s; waiting = w; ticking = k; releasing = d }

pub data Step {M D : Type 0} : Slot M D → Slot M D → Type 0 where
  -- The dispatcher: `tryClaimPacerTick` and `enqueue`.
  claims :
      {s t : Session M D} {w k d : ℕ}
      → try_claim s ≡ some t
      → Step (slot s w k d) (slot t (suc w) k d)
  -- A worker takes a task.
  starts : {s : Session M D} {w k d : ℕ} → Step (slot s (suc w) k d) (slot s w (suc k) d)
  -- What ticks and the handlers do in between: all but the slot may change.
  works :
      {s t : Session M D} {w k d : ℕ}
      → t.pacer_in_flight ≡ s.pacer_in_flight
      → Step (slot s w k d) (slot t w k d)
  -- `pacerTick` returns, and the worker releases the slot.
  returns : {s : Session M D} {w k d : ℕ} → Step (slot s w (suc k) d) (slot s w k (suc d))
  releases : {s : Session M D} {w k d : ℕ} → Step (slot s w k (suc d)) (slot (release s) w k d)
  -- `pacerTick` throws: the pool catches it, and nothing releases the slot.
  throws : {s : Session M D} {w k d : ℕ} → Step (slot s w (suc k) d) (slot s w k d)

-- The states that a session reaches from one with a free slot and no task.
pub data Reached {M D : Type 0} : Slot M D → Type 0 where
  begins : {s : Session M D} → s.pacer_in_flight ≡ false → Reached (slot s 0 0 0)
  then_step : {a b : Slot M D} → Reached a → Step a b → Reached b

module _ {M D : Type 0} where
  abbrev pub Alone : Slot M D → Type 0
  Alone v =
      (v.waiting + v.ticking + v.releasing ≡ 0)
      ⊎ ((v.waiting + v.ticking + v.releasing ≡ 1) × (v.session.pacer_in_flight ≡ true))

  claimed :
      (s t : Session M D)
      → try_claim s ≡ some t
      → (s.pacer_in_flight ≡ false) × (t.pacer_in_flight ≡ true)
  unfolding try_claim
  claimed s t e = ground arith
