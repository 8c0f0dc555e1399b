-- ===== src/ThreadPool/Drain.antt =====
-- The threads of libs/threadpool.c run all the work that waits.
use mathlib.Core.List.{append-nil}
use mathlib.Core.Path.{subst}
use tiny_https_server.Prelude.{
  ℕ, zero, suc, ◌≤◌, ◌<◌, ◌≡◌, refl, sym, ap, ◌∙◌, true, false, none, some, List, [], ◌∷◌, ◌++◌,
  arith, ◌==◌, if◌then◌else◌, length, get_elem?, set, remove_at,
}
use tiny_https_server.Queue.Fifo.{Fifo}
use tiny_https_server.ThreadPool.{
  Pool, size_for, threads_for, thread_starts, thread_ends, start_task, end_task, put_back,
}
use tiny_https_server.ThreadPool.Slots.{Step, starts, ends, steps, Good}
use tiny_https_server.ThreadPool.Runs.{started_Good, ended_Good, end_has_room}
use tiny_https_server.ThreadPool.Order.{pool_after, steps_created-Fine}

-- A thread starts a task and ends it, `k` times.
abbrev pub rounds : {J : Type 0} → ℕ → List (Step J)
rounds zero = []
rounds (suc k) = starts ∷ ends 0 ∷ rounds k

module _ (F : Fifo ℕ) {J : Type 0} where
  starts_eq :
      (p : Pool F J) (a : ℕ) (q : F.Q)
      → 0 < p.idle
      → F.try_pop p.work_queue ≡ some (a, q)
      → thread_starts F p ≡ start_task F p (some (a, q))
  unfolding thread_starts
  starts_eq p a q lt e =
      let busy : (p.idle == 0) ≡ false = ground (arith, lt) in
      ap (λ b. if b then p else start_task F p (F.try_pop p.work_queue)) busy
      ∙ ap (start_task F p) e

  ends_eq :
      (p : Pool F J) (i a : ℕ) (q : F.Q)
      → p.running ≡ true
      → get_elem? p.executing i ≡ some a
      → F.try_push p.tasks_queue a ≡ some q
      → thread_ends F i p ≡ put_back F p i a (some q)
  unfolding thread_ends
  ends_eq p i a q on e e' =
      ap (end_task F p i) e
      ∙ ap
          (λ b.
            if b
            then put_back F p i a (F.try_push p.tasks_queue a)
            else record p { tasks = set p.tasks a none; executing = remove_at p.executing i })
          on
      ∙ ap (put_back F p i a) e'

  -- In each of the rounds there is a task to start, the task that ends has a slot, and it is put there.
  pub Unhindered : ℕ → Pool F J → Type 0
  Unhindered zero p = Unit {0}
  Unhindered (suc k) p =
      (a : ℕ) × (q : F.Q) × (q' : F.Q) × (F.try_pop p.work_queue ≡ some (a, q))
      × (F.try_push (thread_starts F p).tasks_queue a ≡ some q')
      × ((thread_ends F 0 (thread_starts F p)).tasks_queue ≡ q')
      × Unhindered k (thread_ends F 0 (thread_starts F p))

  -- What a round leaves: the same jobs pushed, the same threads idle, and one task less to start.
  Rounded : ℕ → Pool F J → List ℕ → Pool F J → Type 0
  Rounded n p work p' =
      (free : List ℕ) × Good F n p' work free × (p'.idle ≡ p.idle) × (p'.pushed ≡ p.pushed)

  round_lem :
      (n : ℕ) (p : Pool F J) (a : ℕ) (work free : List ℕ)
      → 0 < p.idle
      → Good F n p (a ∷ work) free
      → Rounded n p work (thread_ends F 0 (thread_starts F p))
  unfolding Rounded
  round_lem n p a work free lt g =
      let (q, e, h) = F.pop_lem n p.work_queue a work g.work_holds in
      let p' = start_task F p (some (a, q)) in
      let g' = started_Good F n p a work free q g h lt in
      let (q', e', h') = end_has_room F n p' work free 0 a g' refl in
      subst (Rounded n p work)
        (sym (ap (thread_ends F 0) (starts_eq p a q lt e) ∙ ends_eq p' 0 a q' g.running refl e'))
        (free ++ a ∷ [], ended_Good F n p' work free 0 a q' g' refl h', omega (arith, lt), refl)

  rounds_start_all :
      (n : ℕ) (work free : List ℕ) (p : Pool F J)
      → 0 < p.idle
      → Good F n p work free
      → (steps F (rounds (length work)) p).started ≡ p.pushed
  unfolding steps Rounded
  rounds_start_all n [] free p lt g = sym (g.in_order ∙ append-nil p.started)
  rounds_start_all n (a ∷ work) free p lt g =
      let (free', g', i, same) = round_lem n p a work free lt g in
      rounds_start_all n work free' (thread_ends F 0 (thread_starts F p)) (omega (arith, i, lt)) g'
      ∙ same

  rounds-Unhindered :
      (n : ℕ) (work free : List ℕ) (p : Pool F J)
      → 0 < p.idle
      → Good F n p work free
      → Unhindered (length work) p
  unfolding Unhindered Rounded
  rounds-Unhindered n [] free p lt g = tt
  rounds-Unhindered n (a ∷ work) free p lt g =
      let (q, e, h) = F.pop_lem n p.work_queue a work g.work_holds in
      let p' = start_task F p (some (a, q)) in
      let g' = started_Good F n p a work free q g h lt in
      let (q', e', h') = end_has_room F n p' work free 0 a g' refl in
      let (free', g'', i, same) = round_lem n p a work free lt g in
      let at = starts_eq p a q lt e in
      (
        a,
        q,
        q',
        e,
        ap (λ (r : Pool F J). F.try_push r.tasks_queue a) at ∙ e',
        ap (λ (r : Pool F J). r.tasks_queue)
            (ap (thread_ends F 0) at ∙ ends_eq p' 0 a q' g.running refl e'),
        rounds-Unhindered n work free' (thread_ends F 0 (thread_starts F p)) (omega (arith, i, lt))
            g'',
      )

  -- After the creation and the dispatch of a pool whose queues have a size, whatever its users did:
  -- while a thread is idle, that thread starts all the jobs pushed so far, in at most as many rounds
  -- as the pool has tasks. In each of them its `pop` gets a task and its `push` finds a slot, where it
  -- puts the task back, so neither has to wait.
  pub idle_thread_starts_all :
      (nprocs workqueue_size threads_count : ℕ) (es : List (Step J))
      → 0 < size_for workqueue_size (threads_for nprocs threads_count)
      → 0 < (pool_after F nprocs workqueue_size threads_count es).idle
      → (k : ℕ) × (k ≤ size_for workqueue_size (threads_for nprocs threads_count))
        × Unhindered k (pool_after F nprocs workqueue_size threads_count es)
        × ((steps F (rounds k) (pool_after F nprocs workqueue_size threads_count es)).started
            ≡ (pool_after F nprocs workqueue_size threads_count es).pushed)
  idle_thread_starts_all nprocs ws tc es lt idle =
      let (work, free, g) = steps_created-Fine F nprocs ws tc es lt in
      (
        length work,
        omega (arith, g.total),
        rounds-Unhindered (size_for ws (threads_for nprocs tc)) work free
            (pool_after F nprocs ws tc es) idle g,
        rounds_start_all (size_for ws (threads_for nprocs tc)) work free
            (pool_after F nprocs ws tc es) idle g,
      )
