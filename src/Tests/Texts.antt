-- ===== src/Tests/Texts.antt =====
-- The string helpers, the queue and the pool.
use rtsp_server.Prelude.{ℕ, ◌≡◌, false, [], ◌∷◌, ◌++◌, List}
use rtsp_server.Utils.BlockingQueue.{Queue, Pool}
use rtsp_server.Utils.BlockingQueue.Order.{Call, pushes, tries, pops, closes, calls, calls-order}

abbrev queue_calls : List (Call ℕ)
queue_calls = pushes 5 ∷ tries 6 ∷ pops ∷ tries 7 ∷ closes ∷ pops ∷ []

abbrev waiting : Queue ℕ
waiting = record { items = 4 ∷ []; closed = false }

calls-order_example :
    4 ∷ (calls 2 queue_calls waiting).1
    ≡ (calls 2 queue_calls waiting).2 ++ (calls 2 queue_calls waiting).0.items
calls-order_example = calls-order 2 queue_calls waiting

abbrev pool : Pool ℕ
pool = record { tasks = record { items = 1 ∷ 2 ∷ []; closed = false }; shutdown_done = false }
