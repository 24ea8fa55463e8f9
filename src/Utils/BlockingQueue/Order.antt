-- ===== src/Utils/BlockingQueue/Order.antt =====
-- The order and the bound of the queue, and the end of the pool.
use rtsp_server.Prelude.{
  ℕ, suc, ◌≤◌, ◌≡◌, refl, sym, ap, ◌∙◌, Bool, true, false, [], ◌∷◌, ◌++◌, List, Option, none, some,
  length, if◌then◌else◌, arith, length-append, append-nil, append_assoc,
}
use rtsp_server.Utils.BlockingQueue.{
  Queue, throws, returns, is_full, push, try_push, push_for, dequeue, pop, pop_for, try_pop, close,
  Pool, submit, shutdown, worker_loop,
}

-- What a producer and a consumer do to a queue.
pub data Call (T : Type 0) : Type 0 where
  pushes : T → Call T
  tries : T → Call T
  pushes_for : T → Call T
  pops pops_for tries_to_pop closes : Call T

-- The items that a pop took out.
abbrev taken : {T : Type 0} → Option T → List T
taken none = []
taken (some x) = x ∷ []

-- The queue after a call, and what the call puts in and takes out. A call that waits or throws does
-- nothing.
unfoldable pub call : {T : Type 0} → ℕ → Call T → Queue T → Queue T × List T × List T
call capacity (pushes x) q = elim (push capacity x q) [
  | returns q' ↦ (q', x ∷ [], [])
  | _ ↦ (q, [], [])
]
call capacity (tries x) q = let r = try_push capacity x q in (r.0, if r.1 then x ∷ [] else [], [])
call capacity (pushes_for x) q =
    let r = push_for capacity x q in (r.0, if r.1 then x ∷ [] else [], [])
call capacity pops q = elim (pop q) [ returns (q', o) ↦ (q', [], taken o) | _ ↦ (q, [], []) ]
call capacity pops_for q = let r = pop_for q in (r.0, [], taken r.1)
call capacity tries_to_pop q = let r = try_pop q in (r.0, [], taken r.1)
call capacity closes q = (close q, [], [])

unfoldable pub calls : {T : Type 0} → ℕ → List (Call T) → Queue T → Queue T × List T × List T
calls capacity [] q = (q, [], [])
calls capacity (c ∷ cs) q =
    let (q', i, o) = call capacity c q in
    let (q'', is, os) = calls capacity cs q' in (q'', i ++ is, o ++ os)

module _ {T : Type 0} where
  -- The queue of a popping consumer, from its items.
  dequeue-order :
      (items : List T) (closed : Bool)
      → let r = dequeue (record { items = items; closed = closed }) in
        items ++ [] ≡ taken r.1 ++ r.0.items
  unfolding dequeue
  dequeue-order [] closed = refl
  dequeue-order (x ∷ xs) closed = append-nil (x ∷ xs)

  pop-order :
      (items : List T) (closed : Bool)
      → let q : Queue T = record { items = items; closed = closed } in
        let r = call 0 pops q in items ++ r.1 ≡ r.2 ++ r.0.items
  unfolding call pop dequeue
  pop-order [] true = refl
  pop-order [] false = refl
  pop-order (x ∷ xs) closed = append-nil (x ∷ xs)

  call-order :
      (capacity : ℕ) (c : Call T) (q : Queue T)
      → q.items ++ (call capacity c q).1 ≡ (call capacity c q).2 ++ (call capacity c q).0.items
  unfolding call push try_push push_for pop_for try_pop close
  call-order capacity (pushes x) q = ground (arith, append-nil q.items)
  call-order capacity (tries x) q = ground (arith, append-nil q.items)
  call-order capacity (pushes_for x) q = ground (arith, append-nil q.items)
  call-order capacity pops q = pop-order q.items q.closed
  call-order capacity pops_for q = dequeue-order q.items q.closed
  call-order capacity tries_to_pop q = dequeue-order q.items q.closed
  call-order capacity closes q = append-nil q.items

  -- Over any sequence of calls of the producers and the consumers, what is taken out and then what
  -- is still in the queue is what was in it and then what was put in, in this order.
  pub calls-order :
      (capacity : ℕ) (cs : List (Call T)) (q : Queue T)
      → let r = calls capacity cs q in q.items ++ r.1 ≡ r.2 ++ r.0.items
  unfolding calls
  calls-order capacity [] q = append-nil q.items
  calls-order capacity (c ∷ cs) q =
      let a = call capacity c q in
      let b = calls capacity cs a.0 in
      sym (append_assoc q.items a.1 b.1)
      ∙ (ap (λ l. l ++ b.1) (call-order capacity c q)
          ∙ (append_assoc a.2 a.0.items b.1
              ∙ (ap (λ l. a.2 ++ l) (calls-order capacity cs a.0)
                  ∙ sym (append_assoc a.2 b.2 b.0.items))))

  dequeue-bound :
      (capacity : ℕ) (items : List T) (closed : Bool)
      → length items ≤ suc capacity
      → length (dequeue (record { items = items; closed = closed })).0.items ≤ suc capacity
  unfolding dequeue
  dequeue-bound capacity [] closed h = h
  dequeue-bound capacity (x ∷ xs) closed h = omega (arith, h)

  pop-bound :
      (capacity : ℕ) (items : List T) (closed : Bool)
      → length items ≤ suc capacity
      → length (call 0 pops (record { items = items; closed = closed })).0.items ≤ suc capacity
  unfolding call pop dequeue
  pop-bound capacity [] true h = h
  pop-bound capacity [] false h = h
  pop-bound capacity (x ∷ xs) closed h = omega (arith, h)

  call-bound :
      (capacity : ℕ) (c : Call T) (q : Queue T)
      → length q.items ≤ suc capacity
      → length (call (suc capacity) c q).0.items ≤ suc capacity
  unfolding call push try_push push_for pop_for try_pop is_full close
  call-bound capacity (pushes x) q h = ground (arith, length-append q.items (x ∷ []))
  call-bound capacity (tries x) q h = ground (arith, length-append q.items (x ∷ []))
  call-bound capacity (pushes_for x) q h = ground (arith, length-append q.items (x ∷ []))
  call-bound capacity pops q h = pop-bound capacity q.items q.closed h
  call-bound capacity pops_for q h = dequeue-bound capacity q.items q.closed h
  call-bound capacity tries_to_pop q h = dequeue-bound capacity q.items q.closed h
  call-bound capacity closes q h = h

  -- A bounded queue never holds more than its capacity.
  pub calls-bound :
      (capacity : ℕ) (cs : List (Call T)) (q : Queue T)
      → length q.items ≤ suc capacity
      → length (calls (suc capacity) cs q).0.items ≤ suc capacity
  unfolding calls
  calls-bound capacity [] q h = h
  calls-bound capacity (c ∷ cs) q h =
      calls-bound capacity cs (call (suc capacity) c q).0 (call-bound capacity c q h)

  closed-push : (x : T) (q : Queue T) → q.closed ≡ true → push 0 x q ≡ throws
  unfolding push
  closed-push x q h = ground arith

  worker_loop-closed :
      (items : List T) (done : Bool)
      → worker_loop
          (suc (length items))
          (record { tasks = record { items = items; closed = true }; shutdown_done = done })
        ≡ (items, true)
  unfolding worker_loop pop dequeue
  worker_loop-closed [] done = refl
  worker_loop-closed (x ∷ xs) done = rw (worker_loop-closed xs done) refl

  -- After `shutdown` the pool takes no task, and a worker runs all the tasks that were submitted
  -- before, in their order, and then ends.
  pub shutdown_lem :
      (p : Pool T) (x : T)
      → p.shutdown_done ≡ false
      → (submit x (shutdown p) ≡ throws)
        × (worker_loop (suc (length p.tasks.items)) (shutdown p) ≡ (p.tasks.items, true))
  unfolding submit shutdown close
  shutdown_lem p x h = (
    rw (h, if◌then◌else◌, closed-push x (close p.tasks) refl, submit) refl,
    rw (h, if◌then◌else◌) (worker_loop-closed p.tasks.items true),
  )
