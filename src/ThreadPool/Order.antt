-- ===== src/ThreadPool/Order.antt =====
-- A thread pool of libs/threadpool.c from its creation on: the order of the work, and that it runs.
use mathlib.Core.Path.{subst}
use mathlib.Core.List.{append-nil}
use tiny_https_server.Prelude.{
  ℕ, zero, suc, ◌+◌, ◌≤◌, ◌<◌, ◌≡◌, refl, sym, ap, none, some, List, [], ◌∷◌, ◌++◌, arith, ltb, leb,
  ◌&&◌, if◌then◌else◌, length, length-append, length-replicate, times, append_assoc,
}
use tiny_https_server.Queue.Fifo.{Fifo}
use tiny_https_server.ThreadPool.{
  Pool, fill_tasks, threads_for, size_for, pool_of, thread_pool_create, thread_pool_dispatch,
}
use tiny_https_server.ThreadPool.Slots.{Step, steps, Good}
use tiny_https_server.ThreadPool.Runs.{Fine, steps-Fine}

-- The numbers from `i` on, `m` of them.
abbrev counted : ℕ → ℕ → List ℕ
counted i zero = []
counted i (suc m) = i ∷ counted (suc i) m

length-counted : (i m : ℕ) → length (counted i m) ≡ m
length-counted i zero = refl
length-counted i (suc m) = ap suc (length-counted (suc i) m)

times-counted : (i m a : ℕ) → times (counted i m) a ≡ (if leb i a && ltb a (i + m) then 1 else 0)
times-counted i zero a = ground arith
times-counted i (suc m) a = ground (arith, times-counted (suc i) m a)

module _ (F : Fifo ℕ) where
  fill_tasks-HoldsIn :
      (n m i : ℕ) (q : F.Q) (xs : List ℕ)
      → F.HoldsIn n q xs
      → length xs + m ≤ n
      → F.HoldsIn n (fill_tasks F m i q) (xs ++ counted i m)
  unfolding fill_tasks
  fill_tasks-HoldsIn n zero i q xs h le = subst (F.HoldsIn n q) (sym (append-nil xs)) h
  fill_tasks-HoldsIn n (suc m) i q xs h le =
      let (q', e, h') = F.push_lem n q i xs h (omega (arith, le)) in
      let rest =
        fill_tasks-HoldsIn n m (suc i) q' (xs ++ i ∷ []) h'
          (omega (arith, le, length-append xs (i ∷ []))) in
      subst
        (λ r.
          F.HoldsIn n (elim r [ none ↦ q | some q'' ↦ fill_tasks F m (suc i) q'' ])
            (xs ++ counted i (suc m)))
        (sym e)
        (subst (F.HoldsIn n (fill_tasks F m (suc i) q'))
          (append_assoc xs (i ∷ []) (counted (suc i) m)) rest)

  module _ {J : Type 0} where
    created_Good :
        (n threads : ℕ)
        → 0 < n
        → Good F {J = J} n (thread_pool_dispatch F (pool_of F n threads)) [] (counted 0 n)
    unfolding thread_pool_dispatch
    created_Good n threads lt = record {
      running = refl;
      work_holds = F.create_lem n lt;
      free_holds = fill_tasks-HoldsIn n n 0 (F.create n) [] (F.create_lem n lt) (omega arith);
      once = λ a. ground (arith, times-counted 0 n a);
      total = omega (arith, length-counted 0 n);
      tasks_len = length-replicate n none;
      keeps = tt;
      crew = omega arith;
      in_order = refl;
    }

    -- A pool of `n` tasks from its creation on, after the steps `es` of its users.
    abbrev pub pool_after : ℕ → ℕ → ℕ → List (Step J) → Pool F J
    pool_after nprocs workqueue_size threads_count es =
        steps F es
          (thread_pool_dispatch F (thread_pool_create F nprocs workqueue_size threads_count))

    -- After the creation and the dispatch of a pool whose queues have a size, whatever its users do:
    -- each task is in one of the two queues, with one caller that fills it or with one thread; a
    -- caller's task holds its job until it is pushed; each thread is idle or runs a task; and the jobs
    -- that threads started are the jobs pushed, each once and in order, up to those in the work queue.
    pub steps_created-Fine :
        (nprocs workqueue_size threads_count : ℕ) (es : List (Step J))
        → 0 < size_for workqueue_size (threads_for nprocs threads_count)
        → Fine F
            (size_for workqueue_size (threads_for nprocs threads_count))
            (pool_after nprocs workqueue_size threads_count es)
    unfolding thread_pool_create
    steps_created-Fine nprocs ws tc es lt =
        let threads = threads_for nprocs tc in
        let n = size_for ws threads in
        steps-Fine F n es (thread_pool_dispatch F (pool_of F n threads))
          ([], counted 0 n, created_Good n threads lt)
