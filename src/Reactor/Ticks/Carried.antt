-- ===== src/Reactor/Ticks/Carried.antt =====
-- The steps that start and end no tick.
use rtsp_server.Prelude.{
  ℕ, ◌≡◌, refl, ap, ◌∙◌, subst, inl, inr, Bool, true, false, [], ◌∷◌, List, Option, none, some,
  arith, Bool-cases, Option-cases,
}
use rtsp_server.Rtsp.Request.{Request}
use rtsp_server.Session.State.{Session}
use rtsp_server.Reactor.{
  Reactor, ClientEvent, session_of, write_event, read_event, after_read, after_write, serve_client,
  dispatch, push_command, route, route_all, logic, store,
}
use rtsp_server.Reactor.Tables.{get}
use rtsp_server.Reactor.Ticks.{count, Fresh, Single, Lost, Carries, Kept}
use rtsp_server.Reactor.Ticks.Slots.{
  some-inj, same_heap, Carries-trans, store-Carries, write_event-slot, read_event-slot,
  session_of-get, close-Carries,
}

module _ {M D : Type 0} where
  -- A result that carries, if there is one.
  unfoldable pub Whenever : Reactor M D → Option (Reactor M D) → Type 0
  Whenever r o = (r' : Reactor M D) → o ≡ some r' → Carries r r'

  Whenever-some : (r r' : Reactor M D) → Carries r r' → Whenever r (some r')
  unfolding Whenever
  Whenever-some r r' c q e = subst (Carries r) (some-inj e) c

  Whenever-none : (r : Reactor M D) → Whenever r none
  unfolding Whenever
  Whenever-none r r' h = ground arith

  after_read-Carries :
      (ev : ClientEvent) (id : ℕ) (s : Session M D) (r : Reactor M D)
      (o : Option (Session M D × Bool × List Request))
      → Fresh r
      → get id r.heap ≡ some s
      → ((s' : Session M D) (ok : Bool) (reqs : List Request)
          → o ≡ some (s', ok, reqs)
          → s'.pacer_in_flight ≡ s.pacer_in_flight)
      → Whenever r (after_read ev id r o)
  unfolding after_read
  after_read-Carries ev id s r none f e k = Whenever-none r
  after_read-Carries ev id s r (some (s', false, reqs)) f e k =
      Whenever-some r _
        (close-Carries ev.fd r (store id s' r) (store-Carries id s s' r f e (k s' false reqs refl)))
  after_read-Carries ev id s r (some (s', true, reqs)) f e k =
      let c = store-Carries id s s' r f e (k s' true reqs refl) in
      Whenever-some r _ (
        Carries-trans r (store id s' r) _ c
          (same_heap (store id s' r) _ c.fresh_kept refl refl refl))

  after_write-Carries :
      (fuel : ℕ) (ev : ClientEvent) (id : ℕ) (s : Session M D) (r : Reactor M D)
      (w : Session M D × Bool)
      → Fresh r
      → get id r.heap ≡ some s
      → w.0.pacer_in_flight ≡ s.pacer_in_flight
      → Whenever r (after_write fuel ev id r w)
  unfolding after_write
  after_write-Carries fuel ev id s r (s', false) f e k =
      Whenever-some r _ (close-Carries ev.fd r (store id s' r) (store-Carries id s s' r f e k))
  after_write-Carries fuel ev id s r (s', true) f e k =
      after_read-Carries ev id s r (read_event fuel ev.readable s') f e
        (λ s'' ok reqs q. read_event-slot fuel ev.readable s' s'' ok reqs q ∙ k)

  pub dispatch-Carries :
      (fuel : ℕ) (ev : ClientEvent) (r : Reactor M D) → Fresh r → Whenever r (dispatch fuel ev r)
  unfolding dispatch serve_client
  dispatch-Carries fuel ev r f =
      let unchanged = same_heap r r f refl refl refl in
      elim (Bool-cases ev.hangup) [
        | inl a ↦ rw (a, dispatch) (Whenever-some r _ (close-Carries ev.fd r r unchanged))
        | inr a ↦ elim (Option-cases (session_of ev.fd r)) [
          | inl b ↦ rw (a, b, dispatch) (Whenever-some r r unchanged)
          | inr ((id, s), b) ↦
              rw (a, b, dispatch)
                (after_write-Carries fuel ev id s r (write_event ev.writable s) f
                  (session_of-get ev.fd id s r b) (write_event-slot ev.writable s))
        ]
      ]

  route-Carries : (c : ℕ × Request) (r : Reactor M D) → Fresh r → Carries r (route c r)
  unfolding route
  route-Carries (fd, req) r f = elim (Option-cases (session_of fd r)) [
    | inl b ↦ rw (b, route) (same_heap r r f refl refl refl)
    | inr ((id, s), b) ↦
        rw (b, route)
          (store-Carries id s (push_command req s) r f (session_of-get fd id s r b) refl)
  ]

  route_all-Carries :
      (cs : List (ℕ × Request)) (r : Reactor M D) → Fresh r → Carries r (route_all cs r)
  unfolding route_all
  route_all-Carries [] r f = same_heap r r f refl refl refl
  route_all-Carries (c ∷ cs) r f =
      let k = route-Carries c r f in
      Carries-trans r (route c r) _ k (route_all-Carries cs (route c r) k.fresh_kept)

  pub logic-Carries : (r : Reactor M D) → Fresh r → Carries r (logic r)
  unfolding logic
  logic-Carries r f =
      let k = same_heap r (record r { cmd_queue = [] }) f refl refl refl in
      Carries-trans r _ _ k
        (route_all-Carries r.cmd_queue (record r { cmd_queue = [] }) k.fresh_kept)

  Carries-Single : (r r' : Reactor M D) → Carries r r' → Single r → Single r'
  unfolding Single
  Carries-Single r r' c v id = elim (v id) [
    | inl h ↦ inl (ap (count id) c.tasks_kept ∙ h)
    | inr (h, i) ↦ inr (ap (count id) c.tasks_kept ∙ h, c.slots_kept id i)
  ]

  Carries-Lost : (id : ℕ) (r r' : Reactor M D) → Carries r r' → Lost id r → Lost id r'
  Carries-Lost id r r' c v = record {
    untasked = ap (count id) c.tasks_kept ∙ v.untasked;
    taken = c.slots_kept id v.taken;
  }

  pub Carries-Kept : (id : ℕ) (r r' : Reactor M D) → Carries r r' → Kept id r r'
  Carries-Kept id r r' c = record {
    fresh = c.fresh_kept;
    single = Carries-Single r r' c;
    lost = Carries-Lost id r r' c;
  }

  pub Kept-trans : (id : ℕ) (r r' r'' : Reactor M D) → Kept id r r' → Kept id r' r'' → Kept id r r''
  Kept-trans id r r' r'' a b = record {
    fresh = b.fresh;
    single = λ v. b.single (a.single v);
    lost = λ v. b.lost (a.lost v);
  }
