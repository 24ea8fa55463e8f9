-- ===== src/Reactor/Ticks.antt =====
-- The slot of a session for its ticks (`pacer_in_flight_`): the steps of the threads, and what
-- they keep of it.
pub mod Slots
pub mod Carried
pub mod Claimed
pub mod Ended
pub mod Reached
pub mod Workers
use rtsp_server.Prelude.{
  ℕ, zero, suc, ◌+◌, ◌≤◌, ◌<◌, ◌≡◌, ◌≢◌, refl, sym, ap, ◌∙◌, subst, ◌⊎◌, inl, inr, Bool, true,
  false, not, [], ◌∷◌, ◌++◌, List, length, min, ◌-◌, Option, none, some, ◌==◌, ==_iff,
  if◌then◌else◌, arith, Bool-cases, Option-cases,
}
use rtsp_server.Prelude.Bits.{Bytes}
use rtsp_server.Prelude.Numbers.{ℤ}
use rtsp_server.Doubles.{Doubles}
use rtsp_server.Rtsp.Request.{Request}
use rtsp_server.Session.State.{Outcome, Session, Env, create}
use rtsp_server.Session.Outbox.{
  SendResult, sent, again, interrupted, failed, buffer_of, refill, advance, on_writable,
}
use rtsp_server.Session.Receive.{RecvResult, on_readable, recv_loop, parse_loop}
use rtsp_server.Session.Pacer.{pacer_tick}
use rtsp_server.Reactor.{
  Task, Reactor, Draw, ClientEvent, start, stop, accept_client, close_session, session_of,
  write_event, read_event, after_read, after_write, serve_client, dispatch, tag, push_command,
  route, route_all, logic, try_claim, claim, claim_all, wake, finish, run_first, run_task, store,
}
use rtsp_server.Reactor.Tables.{Table, get, put, erase, get-put, get-put_other}

-- The ticks of a session that the pool has not ended.
unfoldable pub count : ℕ → List Task → ℕ
count id [] = 0
count id (t ∷ ts) = let rest = count id ts in if t.session == id then suc rest else rest

-- What the threads do, one step after the other.
pub data Acts {M D : Type 0} (env : Env M D) : Reactor M D → Reactor M D → Type 0 where
  stops : {r : Reactor M D} → Acts env r (stop r)
  accepts :
      {r : Reactor M D} (d : Doubles D) (fd : ℕ) (ip : Bytes) (draw : Draw) (registered : Bool)
      → Acts env r (accept_client d fd ip draw registered r)
  dispatches :
      {r r' : Reactor M D} (fuel : ℕ) (ev : ClientEvent)
      → dispatch fuel ev r ≡ some r'
      → Acts env r r'
  routes : {r : Reactor M D} → Acts env r (logic r)
  wakes : {r : Reactor M D} (now : ℤ) → Acts env r (wake now r)
  runs : {r : Reactor M D} (fuel : ℕ) → Acts env r (run_task env fuel r)

pub data Reaches {M D : Type 0} (env : Env M D) : Reactor M D → Reactor M D → Type 0 where
  here : {r : Reactor M D} → Reaches env r r
  then_acts : {r r' r'' : Reactor M D} → Reaches env r r' → Acts env r' r'' → Reaches env r r''

module _ {M D : Type 0} where
  -- The slot of a session in the table.
  unfoldable pub InFlight : ℕ → Table (Session M D) → Type 0
  InFlight id heap = (s : Session M D) × (get id heap ≡ some s) × (s.pacer_in_flight ≡ true)

  -- Identities from the next one on are not used.
  unfoldable pub Fresh : Reactor M D → Type 0
  Fresh r = (id : ℕ) → r.next ≤ id → get id r.heap ≡ none

  -- A tick that is not ended has its session's slot, and is the only one that has it.
  unfoldable pub Single : Reactor M D → Type 0
  Single r = (id : ℕ) → (count id r.tasks ≡ 0) ⊎ ((count id r.tasks ≡ 1) × InFlight id r.heap)

  -- A slot that no tick has, and that none gives back.
  pub record Lost (id : ℕ) (r : Reactor M D) : Type 0 where
    pub untasked : count id r.tasks ≡ 0
    pub taken : InFlight id r.heap

  -- A step that starts and ends no tick, and leaves the slots.
  pub record Carries (r r' : Reactor M D) : Type 0 where
    pub tasks_kept : r'.tasks ≡ r.tasks
    pub slots_kept : (id : ℕ) → InFlight id r.heap → InFlight id r'.heap
    pub fresh_kept : Fresh r'

  -- The three facts that every step keeps, the last one for a given session.
  pub record Kept (id : ℕ) (r r' : Reactor M D) : Type 0 where
    pub fresh : Fresh r'
    pub single : Single r → Single r'
    pub lost : Lost id r → Lost id r'
