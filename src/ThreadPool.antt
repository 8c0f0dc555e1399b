-- ===== src/ThreadPool.antt =====
-- libs/threadpool.c: the threads that run the work which callers push. A `task_t*` is the index of a
-- slot of `pool->tasks`, and the two queues are any queue with the laws of `Fifo`. Each call of `pop`
-- or `push` is one atomic step, which is not taken while the call has to wait.
pub mod Slots
pub mod Runs
pub mod Order
pub mod Drain
mod Tests
use tiny_https_server.Prelude.{
  ℕ, zero, suc, ◌+◌, ◌-◌, ◌*◌, Bool, true, false, Option, none, some, List, [], ◌∷◌, ◌++◌, ◌==◌,
  if◌then◌else◌, get_or, get_elem?, set, replicate, remove_at,
}
use tiny_https_server.Queue.Fifo.{Fifo}

-- The two defaults; `nprocs` is the result of `get_nprocs`, at least 1.
abbrev pub threads_for : ℕ → ℕ → ℕ
threads_for nprocs threads_count = if threads_count == 0 then nprocs - 1 else threads_count

abbrev pub size_for : ℕ → ℕ → ℕ
size_for workqueue_size threads_count =
    if workqueue_size == 0 then threads_count * 2 else workqueue_size

module _ (F : Fifo ℕ) where
  -- `struct threadPool_t`, with `task_t` as `Option J`, `none` where both fields are NULL. Threads
  -- that wait in `pop` are counted. What the pool's users have at hand: the tasks they got and filled,
  -- with the job they put in, and the tasks that threads run. The jobs pushed and started, in order.
  pub record Pool (J : Type 0) : Type 0 where
    pub work_queue : F.Q
    pub tasks_queue : F.Q
    pub running : Bool
    pub tasks : List (Option J)
    pub threads_count : ℕ
    pub idle : ℕ
    pub filled : List (ℕ × J)
    pub executing : List ℕ
    pub pushed : List (Option J)
    pub started : List (Option J)

  -- The loop of `threadPool_create` from `i` on; a task that does not fit would wait for ever.
  pub fill_tasks : ℕ → ℕ → F.Q → F.Q
  fill_tasks zero i q = q
  fill_tasks (suc more) i q = elim (F.try_push q i) [
    | none ↦ q
    | some q' ↦ fill_tasks more (suc i) q'
  ]

  module _ {J : Type 0} where
    abbrev pub pool_of : ℕ → ℕ → Pool J
    pool_of size threads = record {
      work_queue = F.create size;
      tasks_queue = fill_tasks size 0 (F.create size);
      running = false;
      tasks = replicate size none;
      threads_count = threads;
      idle = 0;
      filled = [];
      executing = [];
      pushed = [];
      started = [];
    }

    unfoldable pub thread_pool_create : ℕ → ℕ → ℕ → Pool J
    thread_pool_create nprocs workqueue_size threads_count =
        let threads = threads_for nprocs threads_count in
        pool_of (size_for workqueue_size threads) threads

    unfoldable pub thread_pool_dispatch : Pool J → Pool J
    thread_pool_dispatch p = record p { running = true; idle = p.threads_count }

    -- `threadPool_pushWork` up to its second call: a task is got and filled.
    abbrev pub fill_task : J → Pool J → Option (ℕ × F.Q) → Pool J
    fill_task job p none = p
    fill_task job p (some (task, q)) = record p {
      tasks_queue = q;
      tasks = set p.tasks task (some job);
      filled = (task, job) ∷ p.filled;
    }

    unfoldable pub get_task : J → Pool J → Pool J
    get_task job p = fill_task job p (F.try_pop p.tasks_queue)

    -- Its second call, by the caller that holds the task at `i`.
    abbrev pub push_one : Pool J → ℕ → J → Option F.Q → Pool J
    push_one p i job none = p
    push_one p i job (some q) = record p {
      work_queue = q;
      filled = remove_at p.filled i;
      pushed = p.pushed ++ some job ∷ [];
    }

    abbrev pub push_filled : Pool J → ℕ → Option (ℕ × J) → Pool J
    push_filled p i none = p
    push_filled p i (some (task, job)) = push_one p i job (F.try_push p.work_queue task)

    unfoldable pub push_task : ℕ → Pool J → Pool J
    push_task i p = push_filled p i (get_elem? p.filled i)

    -- `thread_entry` from `pop` to the call of the task's function, by a thread that is idle.
    abbrev pub start_task : Pool J → Option (ℕ × F.Q) → Pool J
    start_task p none = p
    start_task p (some (task, q)) = record p {
      work_queue = q;
      idle = p.idle - 1;
      executing = task ∷ p.executing;
      started = p.started ++ get_or p.tasks task none ∷ [];
    }

    unfoldable pub thread_starts : Pool J → Pool J
    thread_starts p = if p.idle == 0 then p else start_task p (F.try_pop p.work_queue)

    -- `thread_entry` from the return of the function on, by the thread that runs the task at `i`. One
    -- that leaves its loop is no longer idle, and keeps the task.
    abbrev pub put_back : Pool J → ℕ → ℕ → Option F.Q → Pool J
    put_back p i task none = record p { tasks = set p.tasks task none }
    put_back p i task (some q) = record p {
      tasks_queue = q;
      tasks = set p.tasks task none;
      executing = remove_at p.executing i;
      idle = p.idle + 1;
    }

    abbrev pub end_task : Pool J → ℕ → Option ℕ → Pool J
    end_task p i none = p
    end_task p i (some task) =
        if p.running
        then put_back p i task (F.try_push p.tasks_queue task)
        else record p { tasks = set p.tasks task none; executing = remove_at p.executing i }

    unfoldable pub thread_ends : ℕ → Pool J → Pool J
    thread_ends i p = end_task p i (get_elem? p.executing i)
