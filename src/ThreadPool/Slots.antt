-- ===== src/ThreadPool/Slots.antt =====
-- Where the tasks of libs/threadpool.c are, and the order in which the work runs.
use tiny_https_server.Prelude.{
  ℕ, zero, suc, ◌+◌, ◌<◌, ◌≡◌, refl, ap, ◌∙◌, true, Option, none, some, List, [], ◌∷◌, ◌++◌, arith,
  ltb, ◌==◌, if◌then◌else◌, length, get_or, get_elem?, set, get_or-set_ne, times, remove_at,
}
use tiny_https_server.Queue.Fifo.{Fifo}
use tiny_https_server.ThreadPool.{Pool, get_task, push_task, thread_starts, thread_ends}

-- What the users of a pool do: a caller gets a task, or pushes the one it filled; a thread starts a
-- task, or ends the one it runs.
pub data Step (J : Type 0) : Type 0 where
  gets : J → Step J
  pushes : ℕ → Step J
  starts : Step J
  ends : ℕ → Step J

-- The contents of the tasks that wait.
abbrev pub jobs_of : {J : Type 0} → List (Option J) → List ℕ → List (Option J)
jobs_of tasks [] = []
jobs_of tasks (a ∷ rest) = get_or tasks a none ∷ jobs_of tasks rest

abbrev pub Keeps : {J : Type 0} → List (Option J) → List (ℕ × J) → Type 0
Keeps tasks [] = Unit {0}
Keeps tasks ((a, job) ∷ fs) = (get_or tasks a none ≡ some job) × Keeps tasks fs

abbrev pub slots_of : {J : Type 0} → List (ℕ × J) → List ℕ
slots_of [] = []
slots_of ((a, job) ∷ fs) = a ∷ slots_of fs

module _ (F : Fifo ℕ) where
  abbrev pub step : {J : Type 0} → Step J → Pool F J → Pool F J
  step (gets job) p = get_task F job p
  step (pushes i) p = push_task F i p
  step starts p = thread_starts F p
  step (ends i) p = thread_ends F i p

  unfoldable pub steps : {J : Type 0} → List (Step J) → Pool F J → Pool F J
  steps [] p = p
  steps (e ∷ es) p = steps es (step e p)

  -- A pool whose queues hold the tasks `work` and `free`: each of the `n` tasks is in one queue, with
  -- one caller or with one thread; a caller's task holds its job; each thread is idle or runs a task;
  -- and the jobs started are those pushed, in order, up to the ones that wait.
  pub record Good {J : Type 0} (n : ℕ) (p : Pool F J) (work free : List ℕ) : Type 0 where
    pub running : p.running ≡ true
    pub work_holds : F.HoldsIn n p.work_queue work
    pub free_holds : F.HoldsIn n p.tasks_queue free
    pub once :
        (a : ℕ)
        → times work a + times free a + times (slots_of p.filled) a + times p.executing a
          ≡ (if ltb a n then 1 else 0)
    pub total : length work + length free + length p.filled + length p.executing ≡ n
    pub tasks_len : length p.tasks ≡ n
    pub keeps : Keeps p.tasks p.filled
    pub crew : p.idle + length p.executing ≡ p.threads_count
    pub in_order : p.pushed ≡ p.started ++ jobs_of p.tasks work

-- A task that has a place has no other.
pub alone :
    (n a p q r s : ℕ)
    → p + q + r + s ≡ (if ltb a n then 1 else 0)
    → 0 < p
    → (a < n) × (q ≡ 0) × (r ≡ 0) × (s ≡ 0) × (p ≡ 1)
alone n a p q r s h lt = ground arith

module _ {J : Type 0} where
  pub jobs_of-set :
      (tasks : List (Option J)) (a : ℕ) (v : Option J) (xs : List ℕ)
      → times xs a ≡ 0
      → jobs_of (set tasks a v) xs ≡ jobs_of tasks xs
  jobs_of-set tasks a v [] h = refl
  jobs_of-set tasks a v (x ∷ xs) h =
      let same = get_or-set_ne tasks a x v none (λ e. absurd (ground (arith, e, h))) in
      let rest = jobs_of-set tasks a v xs (ground arith) in cc

  pub jobs_of-append :
      (tasks : List (Option J)) (xs ys : List ℕ)
      → jobs_of tasks (xs ++ ys) ≡ jobs_of tasks xs ++ jobs_of tasks ys
  jobs_of-append tasks [] ys = refl
  jobs_of-append tasks (x ∷ xs) ys = ap (get_or tasks x none ∷◌) (jobs_of-append tasks xs ys)

  pub Keeps-set :
      (tasks : List (Option J)) (a : ℕ) (v : Option J) (fs : List (ℕ × J))
      → times (slots_of fs) a ≡ 0
      → Keeps tasks fs
      → Keeps (set tasks a v) fs
  Keeps-set tasks a v [] h k = tt
  Keeps-set tasks a v ((b, job) ∷ fs) h (e, k) = (
    get_or-set_ne tasks a b v none (λ e'. absurd (ground (arith, e', h))) ∙ e,
    Keeps-set tasks a v fs (ground arith) k,
  )

  pub slots_of-remove_at :
      (tasks : List (Option J)) (fs : List (ℕ × J)) (i a b : ℕ) (job : J)
      → get_elem? fs i ≡ some (a, job)
      → Keeps tasks fs
      → (times (slots_of fs) b ≡ (if a == b then 1 else 0) + times (slots_of (remove_at fs i)) b)
        × (length fs ≡ suc (length (remove_at fs i)))
        × (get_or tasks a none ≡ some job)
        × Keeps tasks (remove_at fs i)
  slots_of-remove_at tasks [] i a b job h k = cc
  slots_of-remove_at tasks ((c, j) ∷ fs) zero a b job h (e, k) = (ground (arith, h), refl, cc, k)
  slots_of-remove_at tasks ((c, j) ∷ fs) (suc i) a b job h (e, k) =
      let (t, l, w, k') = slots_of-remove_at tasks fs i a b job h k in
      (omega (arith, t), ap suc l, w, (e, k'))
