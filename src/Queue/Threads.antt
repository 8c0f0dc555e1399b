-- ===== src/Queue/Threads.antt =====
-- Threads at one queue of libs/queue.c. A schedule chooses, call by call, which thread runs next: a
-- thread that enters `pop` or `push`, one that wakes up inside them, by a signal or spuriously, or
-- the one that destroys the queue.
pub mod Order
pub mod Shutdown
use tiny_https_server.Prelude.{
  ℕ, zero, suc, ◌+◌, ◌-◌, ◌<◌, ◌≡◌, refl, Bool, true, false, Option, none, some, List, [], ◌∷◌,
  ◌++◌, arith, ltb, if◌then◌else◌, length, get_elem?, length-append,
}
use tiny_https_server.Queue.{
  Queue, Outcome, returns, waits, queue_create, pop, pop_wakes, push, push_wakes, queue_destroy,
}

-- The queue, the calls that wait in `pop` and in `push`, the latter with their pointers, and two
-- logs: the pointers that `push` stored and those that `pop` handed out, in order.
pub record System (A : Type 0) : Type 0 where
  pub queue : Queue A
  pub poppers : ℕ
  pub pushers : List A
  pub pushed : List A
  pub popped : List A

pub data Event (A : Type 0) : Type 0 where
  pop_starts : Event A
  pop_resumes : Event A
  push_starts : A → Event A
  push_resumes : ℕ → Event A
  destroys : Event A

module _ {A : Type 0} where
  abbrev pub remove_at : List A → ℕ → List A
  remove_at [] i = []
  remove_at (x ∷ xs) zero = xs
  remove_at (x ∷ xs) (suc i) = x ∷ remove_at xs i

  -- A NULL that `pop` returns is no pointer of the queue.
  abbrev pub log : List A → Option A → List A
  log xs none = xs
  log xs (some x) = xs ++ x ∷ []

  -- How a call's step ends in the system.
  abbrev pub pop_started : System A → Outcome A (Option A) → System A
  pop_started s (returns r q) = record s { queue = q; popped = log s.popped r }
  pop_started s (waits q) = record s { queue = q; poppers = s.poppers + 1 }

  abbrev pub pop_resumed : System A → Outcome A (Option A) → System A
  pop_resumed s (returns r q) = record s {
    queue = q;
    poppers = s.poppers - 1;
    popped = log s.popped r;
  }
  pop_resumed s (waits q) = record s { queue = q }

  -- A call on a dead queue stores nothing.
  abbrev pub log_push : Bool → List A → A → List A
  log_push true xs x = xs ++ x ∷ []
  log_push false xs x = xs

  abbrev pub push_started : System A → A → Outcome A (Unit {0}) → System A
  push_started s x (returns _ q) = record s {
    queue = q;
    pushed = log_push s.queue.alive s.pushed x;
  }
  push_started s x (waits q) = record s { queue = q; pushers = s.pushers ++ x ∷ [] }

  abbrev pub push_resumed : System A → ℕ → A → Outcome A (Unit {0}) → System A
  push_resumed s i x (returns _ q) = record s {
    queue = q;
    pushers = remove_at s.pushers i;
    pushed = log_push s.queue.alive s.pushed x;
  }
  push_resumed s i x (waits q) = record s { queue = q }

  -- A thread that is not there cannot run.
  unfoldable pub step : System A → Event A → System A
  step s pop_starts = pop_started s (pop s.queue)
  step s pop_resumes = if ltb 0 s.poppers then pop_resumed s (pop_wakes s.queue) else s
  step s (push_starts x) = push_started s x (push s.queue (some x))
  step s (push_resumes i) = elim (get_elem? s.pushers i) [
    | none ↦ s
    | some x ↦ push_resumed s i x (push_wakes s.queue (some x))
  ]
  step s destroys = record s { queue = queue_destroy s.queue }

  unfoldable pub run : System A → List (Event A) → System A
  run s [] = s
  run s (e ∷ es) = run (step s e) es

  unfoldable pub start : ℕ → System A
  start size = record {
    queue = queue_create size;
    poppers = 0;
    pushers = [];
    pushed = [];
    popped = [];
  }
