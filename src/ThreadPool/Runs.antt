-- ===== src/ThreadPool/Runs.antt =====
-- Every step of the users of a thread pool of libs/threadpool.c keeps the tasks where they belong.
use mathlib.Core.Path.{subst}
use tiny_https_server.Prelude.{
  ℕ, ◌<◌, ◌≡◌, refl, sym, ap, ◌∙◌, Bool, true, false, Option, none, some, List, [], ◌∷◌, ◌++◌,
  arith, ◌==◌, if◌then◌else◌, get_or, get_elem?, set, length-append, length-set, get_or-set_same,
  times, remove_at, times-remove_at, times-append, append_assoc,
}
use tiny_https_server.Queue.Fifo.{Fifo}
use tiny_https_server.ThreadPool.{
  Pool, get_task, push_task, thread_starts, thread_ends, fill_task, push_one, push_filled,
  start_task, put_back, end_task,
}
use tiny_https_server.ThreadPool.Slots.{
  Step, gets, pushes, starts, ends, jobs_of, slots_of, steps, Good, alone, jobs_of-set,
  jobs_of-append, Keeps-set, slots_of-remove_at,
}

module _ (F : Fifo ℕ) {J : Type 0} where
  -- Some queues' contents make the pool good.
  abbrev pub Fine : ℕ → Pool F J → Type 0
  Fine n p = (work : List ℕ) × (free : List ℕ) × Good F n p work free

  in_order-snoc :
      (tasks : List (Option J)) (started pushed : List (Option J)) (work : List ℕ) (a : ℕ)
      (v : Option J)
      → pushed ≡ started ++ jobs_of tasks work
      → get_or tasks a none ≡ v
      → pushed ++ v ∷ [] ≡ started ++ jobs_of tasks (work ++ a ∷ [])
  in_order-snoc tasks started pushed work a v h w =
      ap (λ l. l ++ v ∷ []) h
      ∙ append_assoc started (jobs_of tasks work) (v ∷ [])
      ∙ ap (λ x. started ++ (jobs_of tasks work ++ x ∷ [])) (sym w)
      ∙ ap (started ++◌) (sym (jobs_of-append tasks work (a ∷ [])))

  got_Fine :
      (n : ℕ) (p : Pool F J) (work : List ℕ) (a : ℕ) (free : List ℕ) (job : J) (q : F.Q)
      → Good F n p work (a ∷ free)
      → F.HoldsIn n q free
      → Good F n (fill_task F job p (some (a, q))) work free
  got_Fine n p work a free job q g h =
      let v = g.once a in
      let (lt, none_work, none_filled, none_run, one) =
        alone n a (times (a ∷ free) a) (times work a) (times (slots_of p.filled) a)
          (times p.executing a) (omega (arith, v)) (ground arith) in
      record {
        running = g.running;
        work_holds = g.work_holds;
        free_holds = h;
        once = λ b. omega (arith, g.once b);
        total = omega (arith, g.total);
        tasks_len = length-set p.tasks a (some job) ∙ g.tasks_len;
        keeps = (
          get_or-set_same p.tasks a a (some job) none (omega (arith, g.tasks_len)) refl,
          Keeps-set p.tasks a (some job) p.filled none_filled g.keeps,
        );
        crew = g.crew;
        in_order =
            g.in_order ∙ ap (p.started ++◌) (sym (jobs_of-set p.tasks a (some job) work none_work));
      }

  get_task-Fine : (n : ℕ) (p : Pool F J) (job : J) → Fine n p → Fine n (get_task F job p)
  unfolding get_task
  get_task-Fine n p job (work, [], g) =
      subst (λ r. Fine n (fill_task F job p r)) (sym (F.pop_empty n p.tasks_queue g.free_holds))
        (work, [], g)
  get_task-Fine n p job (work, a ∷ free, g) =
      let (q, e, h) = F.pop_lem n p.tasks_queue a free g.free_holds in
      subst (λ r. Fine n (fill_task F job p r)) (sym e)
        (work, free, got_Fine n p work a free job q g h)

  pushed_Good :
      (n : ℕ) (p : Pool F J) (work free : List ℕ) (i a : ℕ) (job : J) (q : F.Q)
      → Good F n p work free
      → get_elem? p.filled i ≡ some (a, job)
      → F.HoldsIn n q (work ++ a ∷ [])
      → Good F n (push_one F p i job (some q)) (work ++ a ∷ []) free
  pushed_Good n p work free i a job q g e h =
      let (t, l, w, k) = slots_of-remove_at p.tasks p.filled i a 0 job e g.keeps in
      record {
        running = g.running;
        work_holds = h;
        free_holds = g.free_holds;
        once = λ b. omega (
          arith,
          g.once b,
          times-append work (a ∷ []) b,
          (slots_of-remove_at p.tasks p.filled i a b job e g.keeps).0,
        );
        total = omega (arith, g.total, length-append work (a ∷ []), l);
        tasks_len = g.tasks_len;
        keeps = k;
        crew = g.crew;
        in_order = in_order-snoc p.tasks p.started p.pushed work a (some job) g.in_order w;
      }

  push_task-Fine : (n : ℕ) (p : Pool F J) (i : ℕ) → Fine n p → Fine n (push_task F i p)
  unfolding push_task
  push_task-Fine n p i (work, free, g) = by_place (get_elem? p.filled i) refl
    where
      by_place : (r : Option (ℕ × J)) → get_elem? p.filled i ≡ r → Fine n (push_filled F p i r)
      by_place none e = (work, free, g)
      by_place (some (a, job)) e =
          let (t, l, w, k) = slots_of-remove_at p.tasks p.filled i a 0 job e g.keeps in
          let (q, e', h) =
            F.push_lem n p.work_queue a work g.work_holds (omega (arith, g.total, l)) in
          subst (λ r. Fine n (push_one F p i job r)) (sym e')
            (work ++ a ∷ [], free, pushed_Good n p work free i a job q g e h)

  pub started_Good :
      (n : ℕ) (p : Pool F J) (a : ℕ) (work free : List ℕ) (q : F.Q)
      → Good F n p (a ∷ work) free
      → F.HoldsIn n q work
      → 0 < p.idle
      → Good F n (start_task F p (some (a, q))) work free
  started_Good n p a work free q g h lt = record {
    running = g.running;
    work_holds = h;
    free_holds = g.free_holds;
    once = λ b. omega (arith, g.once b);
    total = omega (arith, g.total);
    tasks_len = g.tasks_len;
    keeps = g.keeps;
    crew = omega (arith, g.crew);
    in_order =
        g.in_order
        ∙ sym (append_assoc p.started (get_or p.tasks a none ∷ []) (jobs_of p.tasks work));
  }

  thread_starts-Fine : (n : ℕ) (p : Pool F J) → Fine n p → Fine n (thread_starts F p)
  unfolding thread_starts
  thread_starts-Fine n p (work, free, g) = by_idle (p.idle == 0) refl
    where
      by_work :
          (0 < p.idle)
          → (ws : List ℕ) → Good F n p ws free
          → Fine n (start_task F p (F.try_pop p.work_queue))
      by_work lt [] v =
          subst (λ r. Fine n (start_task F p r)) (sym (F.pop_empty n p.work_queue v.work_holds))
            ([], free, v)
      by_work lt (a ∷ ws) v =
          let (q, e', h) = F.pop_lem n p.work_queue a ws v.work_holds in
          subst (λ r. Fine n (start_task F p r)) (sym e')
            (ws, free, started_Good n p a ws free q v h lt)

      by_idle :
          (b : Bool)
          → (p.idle == 0) ≡ b
          → Fine n (if b then p else start_task F p (F.try_pop p.work_queue))
      by_idle true e = (work, free, g)
      by_idle false e = by_work (ground (arith, e)) work g

  pub ended_Good :
      (n : ℕ) (p : Pool F J) (work free : List ℕ) (i a : ℕ) (q : F.Q)
      → Good F n p work free
      → get_elem? p.executing i ≡ some a
      → F.HoldsIn n q (free ++ a ∷ [])
      → Good F n (put_back F p i a (some q)) work (free ++ a ∷ [])
  ended_Good n p work free i a q g e h =
      let v = g.once a in
      let (t, l) = times-remove_at p.executing i a a e in
      let (lt, none_work, none_free, none_filled, one) =
        alone n a (times p.executing a) (times work a) (times free a) (times (slots_of p.filled) a)
          (omega (arith, v)) (ground (arith, t)) in
      record {
        running = g.running;
        work_holds = g.work_holds;
        free_holds = h;
        once = λ b. omega (
          arith,
          g.once b,
          times-append free (a ∷ []) b,
          (times-remove_at p.executing i a b e).0,
        );
        total = omega (arith, g.total, length-append free (a ∷ []), l);
        tasks_len = length-set p.tasks a none ∙ g.tasks_len;
        keeps = Keeps-set p.tasks a none p.filled none_filled g.keeps;
        crew = omega (arith, g.crew, l);
        in_order =
            g.in_order ∙ ap (p.started ++◌) (sym (jobs_of-set p.tasks a none work none_work));
      }

  -- The queue of the tasks has room for the one that a thread gives back.
  pub end_has_room :
      (n : ℕ) (p : Pool F J) (work free : List ℕ) (i a : ℕ)
      → Good F n p work free
      → get_elem? p.executing i ≡ some a
      → (q : F.Q) × (F.try_push p.tasks_queue a ≡ some q) × F.HoldsIn n q (free ++ a ∷ [])
  end_has_room n p work free i a g e =
      F.push_lem n p.tasks_queue a free g.free_holds
        (omega (arith, g.total, (times-remove_at p.executing i a a e).1))

  thread_ends-Fine : (n : ℕ) (p : Pool F J) (i : ℕ) → Fine n p → Fine n (thread_ends F i p)
  unfolding thread_ends
  thread_ends-Fine n p i (work, free, g) = by_place (get_elem? p.executing i) refl
    where
      by_place : (r : Option ℕ) → get_elem? p.executing i ≡ r → Fine n (end_task F p i r)
      by_place none e = (work, free, g)
      by_place (some a) e =
          let (q, e', h) = end_has_room n p work free i a g e in
          subst
            (λ b. Fine n (
              if b
              then put_back F p i a (F.try_push p.tasks_queue a)
              else record p { tasks = set p.tasks a none; executing = remove_at p.executing i }))
            (sym g.running)
            (subst (λ r. Fine n (put_back F p i a r)) (sym e')
              (work, free ++ a ∷ [], ended_Good n p work free i a q g e h))

  pub steps-Fine : (n : ℕ) (es : List (Step J)) (p : Pool F J) → Fine n p → Fine n (steps F es p)
  unfolding steps
  steps-Fine n [] p f = f
  steps-Fine n (gets job ∷ es) p f = steps-Fine n es (get_task F job p) (get_task-Fine n p job f)
  steps-Fine n (pushes i ∷ es) p f = steps-Fine n es (push_task F i p) (push_task-Fine n p i f)
  steps-Fine n (starts ∷ es) p f = steps-Fine n es (thread_starts F p) (thread_starts-Fine n p f)
  steps-Fine n (ends i ∷ es) p f = steps-Fine n es (thread_ends F i p) (thread_ends-Fine n p i f)
