-- ===== src/Utils/BlockingQueue.antt =====
-- include/rtspserver/utils/BlockingQueue.hpp, NonBlockingQueue.hpp and ThreadPool.hpp. A method runs
-- under the mutex, so it is one step of the queue; a thread that waits on a condition is `blocks`,
-- and tries again after a notification.
pub mod Order
use rtsp_server.Prelude.{
  ℕ, zero, suc, Bool, true, false, not, ◌&&◌, ◌||◌, [], ◌∷◌, ◌++◌, List, Option, none, some, length,
  leb, ◌==◌, if◌then◌else◌,
}

pub record Queue (T : Type 0) : Type 0 where
  pub items : List T
  pub closed : Bool

-- What a call does: it waits, it throws, or it returns.
pub data Effect (A : Type 0) : Type 0 where
  blocks : Effect A
  throws : Effect A
  returns : A → Effect A

module _ {T : Type 0} where
  abbrev pub empty_queue : Queue T
  empty_queue = record { items = []; closed = false }

  -- `is_full`; a capacity of 0 is no bound.
  unfoldable pub is_full : ℕ → Queue T → Bool
  is_full capacity q = if capacity == 0 then false else leb capacity (length q.items)

  abbrev pub push_back : T → Queue T → Queue T
  push_back x q = record q { items = q.items ++ x ∷ [] }

  unfoldable pub push : ℕ → T → Queue T → Effect (Queue T)
  unfolding is_full
  push capacity x q =
      if q.closed then throws else if is_full capacity q then blocks else returns (push_back x q)

  unfoldable pub try_push : ℕ → T → Queue T → Queue T × Bool
  unfolding is_full
  try_push capacity x q =
      if q.closed || is_full capacity q then (q, false) else (push_back x q, true)

  -- At the end of the wait of `push_for`, by room or by the time; a queue that was closed before it
  -- is closed then.
  unfoldable pub push_for : ℕ → T → Queue T → Queue T × Bool
  unfolding is_full
  push_for capacity x q =
      let ok = not (is_full capacity q) || q.closed in
      if not ok || q.closed then (q, false) else (push_back x q, true)

  unfoldable pub dequeue : Queue T → Queue T × Option T
  dequeue q = elim q.items [ [] ↦ (q, none) | x ∷ xs ↦ (record q { items = xs }, some x) ]

  unfoldable pub pop : Queue T → Effect (Queue T × Option T)
  unfolding dequeue
  pop q = elim q.items [
    | [] ↦ if q.closed then returns (q, none) else blocks
    | x ∷ xs ↦ returns (dequeue q)
  ]

  -- At the end of the wait of `pop_for`, by an item or by the time.
  unfoldable pub pop_for : Queue T → Queue T × Option T
  unfolding dequeue
  pop_for q = dequeue q

  unfoldable pub try_pop : Queue T → Queue T × Option T
  unfolding dequeue
  try_pop q = dequeue q

  unfoldable pub close : Queue T → Queue T
  close q = record q { closed = true }

module _ {T : Type 0} where
  -- `size` and `empty`.
  unfoldable pub size : Queue T → ℕ
  size q = length q.items

  unfoldable pub empty : Queue T → Bool
  empty q = elim q.items [ [] ↦ true | _ ∷ _ ↦ false ]

-- The pool: its queue of tasks, which is not bounded, and whether `shutdown` was called.
pub record Pool (T : Type 0) : Type 0 where
  pub tasks : Queue T
  pub shutdown_done : Bool

module _ {T : Type 0} where
  unfoldable pub submit : T → Pool T → Effect (Pool T)
  submit x p = elim (push 0 x p.tasks) [
    | blocks ↦ blocks
    | throws ↦ throws
    | returns q ↦ returns (record p { tasks = q })
  ]

  unfoldable pub shutdown : Pool T → Pool T
  shutdown p = if p.shutdown_done then p else record { tasks = close p.tasks; shutdown_done = true }

  -- `workerLoop`, for a worker that is alone: the tasks that it runs, and whether it ends or waits.
  unfoldable pub worker_loop : ℕ → Pool T → List T × Bool
  worker_loop zero p = ([], false)
  worker_loop (suc fuel) p = elim (pop p.tasks) [
    | blocks ↦ ([], false)
    | throws ↦ ([], false)
    | returns (q, none) ↦ ([], true)
    | returns (q, some x) ↦
        let rest = worker_loop fuel (record p { tasks = q }) in (x ∷ rest.0, rest.1)
  ]
