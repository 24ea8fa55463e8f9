-- ===== src/Reactor/Ticks/Slots.antt =====
-- What carries the slots of the sessions from one state of the reactor to the next.
use rtsp_server.Prelude.{
  ℕ, zero, suc, ◌≤◌, ◌≡◌, refl, sym, ap, ◌∙◌, subst, inl, inr, Bool, true, [], ◌∷◌, List, length,
  min, ◌-◌, Option, none, some, ◌==◌, ==_iff, arith, Bool-cases,
}
use rtsp_server.Prelude.Bits.{Bytes}
use rtsp_server.Doubles.{Doubles}
use rtsp_server.Rtsp.Request.{Request}
use rtsp_server.Session.State.{Session}
use rtsp_server.Session.Outbox.{
  SendResult, sent, again, interrupted, failed, buffer_of, refill, advance, on_writable,
}
use rtsp_server.Session.Receive.{RecvResult, on_readable}
use rtsp_server.Reactor.{
  Reactor, Draw, accept_client, close_session, session_of, write_event, read_event, store,
}
use rtsp_server.Reactor.Tables.{Table, get, put, get-put, get-put_other}
use rtsp_server.Reactor.Ticks.{InFlight, Fresh, Carries}

pub some-inj : {A : Type 0} {x y : A} → some x ≡ some y → x ≡ y
some-inj {x = x} e = ap (λ o. elim o [ some z ↦ z | none ↦ x ]) e

module _ {M D : Type 0} where
  refill-slot : (s : Session M D) → (refill s).0.pacer_in_flight ≡ s.pacer_in_flight
  unfolding refill
  refill-slot s = ground arith

  advance-slot :
      (n : ℕ) (b : Bytes) (s : Session M D) → (advance n b s).pacer_in_flight ≡ s.pacer_in_flight
  unfolding advance
  advance-slot n b s = ground arith

  on_writable-slot :
      (rs : List SendResult) (s : Session M D)
      → (on_writable rs s).0.pacer_in_flight ≡ s.pacer_in_flight
  unfolding on_writable
  on_writable-slot [] s = refill-slot s
  on_writable-slot (again ∷ rs) s = ground (arith, refill-slot s)
  on_writable-slot (failed ∷ rs) s = ground (arith, refill-slot s)
  on_writable-slot (interrupted ∷ rs) s =
      ground (arith, refill-slot s, on_writable-slot rs (refill s).0)
  on_writable-slot (sent zero ∷ rs) s = ground (arith, refill-slot s)
  on_writable-slot (sent (suc n) ∷ rs) s =
      let taken = min (suc n) (length (buffer_of (refill s).0.wbuf) - (refill s).0.woff) in
      let next = advance taken (buffer_of (refill s).0.wbuf) (refill s).0 in
      ground (
        arith,
        refill-slot s,
        on_writable-slot rs next,
        advance-slot taken (buffer_of (refill s).0.wbuf) (refill s).0,
      )

  pub same_heap :
      (r r' : Reactor M D)
      → Fresh r
      → r'.tasks ≡ r.tasks
      → r'.next ≡ r.next
      → r'.heap ≡ r.heap
      → Carries r r'
  unfolding Fresh
  same_heap r r' f t n h = record {
    tasks_kept = t;
    slots_kept = λ id v. subst (InFlight id) (sym h) v;
    fresh_kept = λ id l. ap (get id) h ∙ f id (omega (arith, n));
  }

  pub Carries-trans : (r r' r'' : Reactor M D) → Carries r r' → Carries r' r'' → Carries r r''
  Carries-trans r r' r'' a b = record {
    tasks_kept = b.tasks_kept ∙ a.tasks_kept;
    slots_kept = λ id v. b.slots_kept id (a.slots_kept id v);
    fresh_kept = b.fresh_kept;
  }

  pub same_slot :
      (i : ℕ) (s u : Session M D) (heap : Table (Session M D))
      → get i heap ≡ some s
      → get i heap ≡ some u
      → u.pacer_in_flight ≡ true
      → s.pacer_in_flight ≡ true
  same_slot i s u heap e v w =
      ap (λ o. elim o as (λ _. Bool) [ some x ↦ x.pacer_in_flight | none ↦ true ]) (sym e ∙ v) ∙ w

  put-InFlight :
      (i j : ℕ) (s s' : Session M D) (heap : Table (Session M D))
      → get i heap ≡ some s
      → s'.pacer_in_flight ≡ s.pacer_in_flight
      → InFlight j heap
      → InFlight j (put i s' heap)
  unfolding InFlight
  put-InFlight i j s s' heap e k (u, v, w) = elim (Bool-cases (i == j)) [
    | inl h ↦
        let eq : i ≡ j = (==_iff i j).0 h in
        subst (λ x. InFlight x (put i s' heap)) eq
          (s', get-put i s' heap, k ∙ same_slot i s u heap e (ap (λ x. get x heap) eq ∙ v) w)
    | inr h ↦ (u, get-put_other j i s' heap (λ q. ground (arith, q, h)) ∙ v, w)
  ]

  pub store-Carries :
      (i : ℕ) (s s' : Session M D) (r : Reactor M D)
      → Fresh r
      → get i r.heap ≡ some s
      → s'.pacer_in_flight ≡ s.pacer_in_flight
      → Carries r (store i s' r)
  unfolding Fresh
  store-Carries i s s' r f e k = record {
    tasks_kept = refl;
    slots_kept = λ j v. put-InFlight i j s s' r.heap e k v;
    fresh_kept = λ j l.
        get-put_other j i s' r.heap (λ q. ground (arith, f i (subst (λ x. r.next ≤ x) q l), e))
        ∙ f j l;
  }

  pub write_event-slot :
      (o : Option (List SendResult)) (s : Session M D)
      → (write_event o s).0.pacer_in_flight ≡ s.pacer_in_flight
  unfolding write_event
  write_event-slot none s = refl
  write_event-slot (some rs) s = on_writable-slot rs s

  pub read_event-slot :
      (fuel : ℕ) (o : Option (List RecvResult)) (s s' : Session M D) (ok : Bool)
      (reqs : List Request)
      → read_event fuel o s ≡ some (s', ok, reqs)
      → s'.pacer_in_flight ≡ s.pacer_in_flight
  unfolding read_event on_readable
  read_event-slot fuel none s s' ok reqs e = ground arith
  read_event-slot fuel (some rs) s s' ok reqs e = ground arith

  pub session_of-get :
      (fd id : ℕ) (s : Session M D) (r : Reactor M D)
      → session_of fd r ≡ some (id, s)
      → get id r.heap ≡ some s
  unfolding session_of
  session_of-get fd id s r e = ground arith

  pub accept-Carries :
      (d : Doubles D) (fd : ℕ) (ip : Bytes) (draw : Draw) (registered : Bool) (r : Reactor M D)
      → Fresh r
      → Carries r (accept_client d fd ip draw registered r)
  unfolding accept_client Fresh InFlight
  accept-Carries d fd ip draw registered r f = record {
    tasks_kept = refl;
    slots_kept = λ j (u, v, w). (
      u,
      get-put_other j r.next _ r.heap
            (λ q. ground (arith, f r.next (omega arith), v, ap (λ x. get x r.heap) q))
          ∙ v,
      w,
    );
    fresh_kept =
        λ j l. get-put_other j r.next _ r.heap (λ q. omega (arith, l, q)) ∙ f j (omega (arith, l));
  }

  pub close-Carries : (fd : ℕ) (r r' : Reactor M D) → Carries r r' → Carries r (close_session fd r')
  unfolding close_session
  close-Carries fd r r' c = Carries-trans r r' _ c (same_heap r' _ c.fresh_kept refl refl refl)
