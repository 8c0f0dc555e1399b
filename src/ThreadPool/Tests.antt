-- ===== src/ThreadPool/Tests.antt =====
-- A pool of libs/threadpool.c with one thread and a queue for two tasks, on the queue of libs/queue.c.
use tiny_https_server.Prelude.{ℕ, ◌≤◌, ◌≡◌, some, List, [], ◌∷◌, ◌++◌, arith}
use tiny_https_server.Queue.Fifo.{ring}
use tiny_https_server.Queue.{queue_create, pop, pop_loop, push, push_loop}
use tiny_https_server.ThreadPool.{
  fill_tasks, thread_pool_create, thread_pool_dispatch, get_task, push_task, thread_starts,
  thread_ends,
}
use tiny_https_server.ThreadPool.Slots.{Step, gets, pushes, starts, ends, steps}
use tiny_https_server.ThreadPool.Runs.{Fine}
use tiny_https_server.ThreadPool.Order.{pool_after, steps_created-Fine}
use tiny_https_server.ThreadPool.Drain.{rounds, Unhindered, idle_thread_starts_all}

-- Two callers push the jobs 7 and 8; the third finds no task.
abbrev two_jobs : List (Step ℕ)
two_jobs = gets 7 ∷ gets 8 ∷ gets 9 ∷ pushes 1 ∷ pushes 0 ∷ []

steps_created-Fine_example :
    Fine (ring ℕ) 2 (pool_after (ring ℕ) 4 0 1 (two_jobs ++ starts ∷ ends 0 ∷ []))
steps_created-Fine_example =
    steps_created-Fine (ring ℕ) 4 0 1 (two_jobs ++ starts ∷ ends 0 ∷ []) (omega arith)

idle_thread_starts_all_example :
    (k : ℕ) × (k ≤ 2)
    × Unhindered (ring ℕ) k (pool_after (ring ℕ) 4 0 1 two_jobs)
    × ((steps (ring ℕ) (rounds k) (pool_after (ring ℕ) 4 0 1 two_jobs)).started
        ≡ some 7 ∷ some 8 ∷ [])
unfolding steps thread_pool_create thread_pool_dispatch get_task push_task thread_starts thread_ends
    fill_tasks ring queue_create pop pop_loop push push_loop
idle_thread_starts_all_example =
    idle_thread_starts_all (ring ℕ) 4 0 1 two_jobs (omega arith) (omega arith)
