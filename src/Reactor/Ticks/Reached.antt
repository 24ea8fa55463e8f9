-- ===== src/Reactor/Ticks/Reached.antt =====
-- The slot in every state that the reactor reaches.
use rtsp_server.Prelude.{ℕ, refl, inl}
use rtsp_server.Prelude.Bits.{Bytes}
use rtsp_server.Session.State.{Session, Env}
use rtsp_server.Reactor.{Reactor, start, stop, wake}
use rtsp_server.Reactor.Tables.{get}
use rtsp_server.Reactor.Ticks.{
  count, Acts, stops, accepts, dispatches, routes, wakes, runs, Reaches, here, then_acts, Fresh,
  Single, Kept,
}
use rtsp_server.Reactor.Ticks.Slots.{same_heap, accept-Carries}
use rtsp_server.Reactor.Ticks.Carried.{
  Whenever, dispatch-Carries, logic-Carries, Carries-Kept, Kept-trans,
}
use rtsp_server.Reactor.Ticks.Claimed.{claim_all-Kept}
use rtsp_server.Reactor.Ticks.Ended.{run_task-Kept}
use rtsp_server.Rtsp.Request.{Request}

module _ {M D : Type 0} where
  Acts-Kept : (env : Env M D) (id : ℕ) (r r' : Reactor M D) → Fresh r → Acts env r r' → Kept id r r'
  unfolding stop Whenever
  Acts-Kept env id r _ f stops = Carries-Kept id r _ (same_heap r _ f refl refl refl)
  Acts-Kept env id r _ f (accepts d fd ip draw registered) =
      Carries-Kept id r _ (accept-Carries d fd ip draw registered r f)
  Acts-Kept env id r r' f (dispatches fuel ev e) =
      Carries-Kept id r r' (dispatch-Carries fuel ev r f r' e)
  Acts-Kept env id r _ f routes = Carries-Kept id r _ (logic-Carries r f)
  Acts-Kept env id r _ f (wakes now) = unfold wake in claim_all-Kept now r.sessions id r f
  Acts-Kept env id r _ f (runs fuel) = run_task-Kept env fuel id r f

  Reaches-Kept :
      (env : Env M D) (id : ℕ) (r r' : Reactor M D) → Fresh r → Reaches env r r' → Kept id r r'
  Reaches-Kept env id r _ f here = Carries-Kept id r r (same_heap r r f refl refl refl)
  Reaches-Kept env id r _ f (then_acts {r' = m} p a) =
      let k = Reaches-Kept env id r m f p in Kept-trans id r m _ k (Acts-Kept env id m _ k.fresh a)

  start-Fresh : (env : Env M D) (root : Bytes) → Fresh (start {M = M} {D = D} root)
  unfolding start Fresh get
  start-Fresh env root id l = refl

  start-Single : (env : Env M D) (root : Bytes) → Single (start {M = M} {D = D} root)
  unfolding start Single count
  start-Single env root id = inl refl

  -- In every state that the reactor reaches from its start, whatever the clients, the kernel and
  -- the source do, a session has at most one tick that is not ended, and then its slot is taken.
  Reaches-Single :
      (env : Env M D) (root : Bytes) (r : Reactor M D) → Reaches env (start root) r → Single r
  Reaches-Single env root r p =
      (Reaches-Kept env 0 (start root) r (start-Fresh env root) p).single (start-Single env root)
