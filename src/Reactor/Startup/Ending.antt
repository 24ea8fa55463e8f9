-- ===== src/Reactor/Startup/Ending.antt =====
-- The end of a run of src/server/Reactor.cpp.
use rtsp_server.Prelude.{
  ℕ, ◌≡◌, refl, ap, ◌∙◌, inl, inr, false, [], ◌∷◌, List, length, Option-cases,
}
use rtsp_server.Session.State.{Env}
use rtsp_server.Reactor.{Reactor, Task, run_first, run_task}
use rtsp_server.Reactor.Tables.{get}
use rtsp_server.Reactor.Startup.{run_tasks, shut_down}

module _ {M D : Type 0} (env : Env M D) (fuel : ℕ) where
  run_first-tasks :
      (t : Task) (ts : List Task) (r : Reactor M D) → (run_first env fuel (t ∷ ts) r).tasks ≡ ts
  unfolding run_first
  run_first-tasks t ts r = elim (Option-cases (get t.session r.heap)) [
    | inl n ↦ rw (n, run_first) refl
    | inr (s, n) ↦ rw (n, run_first) refl
  ]

  run_tasks-tasks :
      (ts : List Task) (r : Reactor M D)
      → r.tasks ≡ ts
      → (run_tasks env fuel (length ts) r).tasks ≡ []
  unfolding run_tasks run_task
  run_tasks-tasks [] r h = h
  run_tasks-tasks (t ∷ ts) r h =
      run_tasks-tasks ts (run_task env fuel r)
        (ap (λ us. (run_first env fuel us r).tasks) h ∙ run_first-tasks t ts r)

  -- When `run` returns, the pool has run every task that was submitted, no session is in the map, and
  -- the dispatcher's flag is false.
  pub shut_down_lem :
      (r : Reactor M D)
      → let r' = shut_down env fuel r in (r'.tasks ≡ []) × (r'.sessions ≡ []) × (r'.running ≡ false)
  unfolding shut_down
  shut_down_lem r = (run_tasks-tasks r.tasks r refl, refl, refl)
