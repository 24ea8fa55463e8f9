-- ===== src/Reactor/Ticks/Ended.antt =====
-- The end of a tick.
use rtsp_server.Prelude.{
  ℕ, suc, ◌≤◌, ◌≡◌, ◌≢◌, refl, sym, ap, ◌∙◌, subst, ◌⊎◌, inl, inr, [], ◌∷◌, List, some, ◌==◌,
  ==_iff, arith, Bool-cases, Option-cases,
}
use rtsp_server.Session.State.{Session, Env}
use rtsp_server.Session.Pacer.{pacer_tick}
use rtsp_server.Reactor.{Task, Reactor, finish, run_first, run_task}
use rtsp_server.Reactor.Tables.{Table, get, put, get-put_other}
use rtsp_server.Reactor.Ticks.{count, InFlight, Fresh, Single, Kept}
use rtsp_server.Reactor.Ticks.Slots.{same_heap}
use rtsp_server.Reactor.Ticks.Carried.{Carries-Kept}
use rtsp_server.Reactor.Ticks.Claimed.{count-first, count-first_other}

module _ {M D : Type 0} where
  -- The reactor after its first task, with another heap.
  after_task : List Task → Table (Session M D) → Reactor M D → Reactor M D
  after_task ts heap r = record r { tasks = ts; heap = heap }

  pub only_task :
      (j : ℕ) (t : Task) (ts : List Task) (r : Reactor M D)
      → r.tasks ≡ t ∷ ts
      → j ≡ t.session
      → (count j r.tasks ≡ 0) ⊎ ((count j r.tasks ≡ 1) × InFlight j r.heap)
      → count j ts ≡ 0
  unfolding count
  only_task j t ts r e q v =
      let c : count j r.tasks ≡ suc (count j ts) =
        ap (count j) e
        ∙ (ap (λ x. count x (t ∷ ts)) q
            ∙ (count-first t ts ∙ ap (λ x. suc (count x ts)) (sym q))) in
      elim v [ inl z ↦ omega (arith, c, z) | inr (z, i) ↦ omega (arith, c, z) ]

  pub has_task :
      (id : ℕ) (t : Task) (ts : List Task) (r : Reactor M D)
      → r.tasks ≡ t ∷ ts
      → id ≡ t.session
      → count id r.tasks ≡ 0
      → ⊥
  has_task id t ts r e q z =
      let c : count id r.tasks ≡ suc (count t.session ts) =
        ap (count id) e ∙ (ap (λ x. count x (t ∷ ts)) q ∙ count-first t ts) in
      omega (arith, c, z)

  after_task-Kept :
      (id : ℕ) (t : Task) (ts : List Task) (heap : Table (Session M D)) (r : Reactor M D)
      → r.tasks ≡ t ∷ ts
      → Fresh (after_task ts heap r)
      → ((j : ℕ) → j ≢ t.session → InFlight j r.heap → InFlight j heap)
      → Kept id r (after_task ts heap r)
  unfolding after_task Single
  after_task-Kept id t ts heap r e f k = record {
    fresh = f;
    single = λ v j. elim (Bool-cases (j == t.session)) [
      | inl h ↦ inl (only_task j t ts r e ((==_iff j t.session).0 h) (v j))
      | inr h ↦
          let other : j ≢ t.session = λ q. ground (arith, q, h) in
          let same : count j ts ≡ count j r.tasks =
            sym (ap (count j) e ∙ count-first_other j t ts other) in
          elim (v j) [ inl z ↦ inl (same ∙ z) | inr (z, i) ↦ inr (same ∙ z, k j other i) ]
    ];
    lost = λ v.
        let other : id ≢ t.session = λ q. has_task id t ts r e q v.untasked in
        record {
          untasked = sym (ap (count id) e ∙ count-first_other id t ts other) ∙ v.untasked;
          taken = k id other v.taken;
        };
  }

  task-Fresh : (ts : List Task) (r : Reactor M D) → Fresh r → Fresh (after_task ts r.heap r)
  unfolding after_task Fresh
  task-Fresh ts r f = f

  task_put-Fresh :
      (i : ℕ) (s s' : Session M D) (ts : List Task) (r : Reactor M D)
      → Fresh r
      → get i r.heap ≡ some s
      → Fresh (after_task ts (put i s' r.heap) r)
  unfolding after_task Fresh
  task_put-Fresh i s s' ts r f e j l =
      get-put_other j i s' r.heap (λ q. ground (arith, f i (subst (λ x. r.next ≤ x) q l), e))
      ∙ f j l

  other-InFlight :
      (j i : ℕ) (s : Session M D) (heap : Table (Session M D))
      → j ≢ i
      → InFlight j heap
      → InFlight j (put i s heap)
  unfolding InFlight
  other-InFlight j i s heap n (u, v, w) = (u, get-put_other j i s heap n ∙ v, w)

  run_first-Kept :
      (env : Env M D) (fuel id : ℕ) (ts : List Task) (r : Reactor M D)
      → r.tasks ≡ ts
      → Fresh r
      → Kept id r (run_first env fuel ts r)
  unfolding run_first after_task
  run_first-Kept env fuel id [] r e f = Carries-Kept id r r (same_heap r r f refl refl refl)
  run_first-Kept env fuel id (t ∷ ts) r e f = elim (Option-cases (get t.session r.heap)) [
    | inl h ↦
        rw (h, run_first) (after_task-Kept id t ts r.heap r e (task-Fresh ts r f) (λ j n i. i))
    | inr (s, h) ↦
        let s' = finish (pacer_tick env fuel t.now s) in
        rw (h, run_first)
          (after_task-Kept id t ts (put t.session s' r.heap) r e
            (task_put-Fresh t.session s s' ts r f h)
            (λ j n i. other-InFlight j t.session s' r.heap n i))
  ]

  pub run_task-Kept :
      (env : Env M D) (fuel id : ℕ) (r : Reactor M D) → Fresh r → Kept id r (run_task env fuel r)
  unfolding run_task
  run_task-Kept env fuel id r f = run_first-Kept env fuel id r.tasks r refl f
