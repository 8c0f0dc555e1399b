-- ===== src/Queue/Fifo.antt =====
-- What the thread pool of libs/threadpool.c relies on in a queue, and the queue of libs/queue.c as
-- one that has it while it is alive.
use tiny_https_server.Prelude.{
  ℕ, ◌+◌, ◌<◌, ◌≡◌, refl, ap, ◌∙◌, true, Option, none, some, List, [], ◌∷◌, ◌++◌, arith, length,
  if◌then◌else◌,
}
use tiny_https_server.Queue.{
  Queue, Outcome, returns, waits, queue_create, pop, push, pop_loop, push_loop,
}
use tiny_https_server.Queue.Contents.{
  Holds, queue_create-Holds, pop_takes, pop_waits, push_places, taken, placed, taken-Holds,
  placed-Holds,
}

-- Queues of pointers: a call that would wait answers `none`.
pub record Fifo (A : Type 0) : Type 1 where
  pub Q : Type 0
  pub create : ℕ → Q
  pub try_pop : Q → Option (A × Q)
  pub try_push : Q → A → Option Q
  pub HoldsIn : ℕ → Q → List A → Type 0
  pub create_lem : (n : ℕ) → 0 < n → HoldsIn n (create n) []
  pub pop_lem :
      (n : ℕ) (q : Q) (x : A) (xs : List A)
      → HoldsIn n q (x ∷ xs)
      → (q' : Q) × (try_pop q ≡ some (x, q')) × HoldsIn n q' xs
  pub pop_empty : (n : ℕ) (q : Q) → HoldsIn n q [] → try_pop q ≡ none
  pub push_lem :
      (n : ℕ) (q : Q) (x : A) (xs : List A)
      → HoldsIn n q xs
      → length xs < n
      → (q' : Q) × (try_push q x ≡ some q') × HoldsIn n q' (xs ++ x ∷ [])

module _ {A : Type 0} where
  -- A call that waits leaves the queue to the others.
  abbrev popped : Outcome A (Option A) → Option (A × Queue A)
  popped (returns (some x) q) = some (x, q)
  popped (returns none q) = none
  popped (waits q) = none

  abbrev pushed : Outcome A (Unit {0}) → Option (Queue A)
  pushed (returns _ q) = some q
  pushed (waits q) = none

  abbrev bumped : Queue A → Queue A
  bumped q = record q { pending = q.pending + 1 }

  abbrev pub RingHolds : ℕ → Queue A → List A → Type 0
  RingHolds n q xs = Holds q xs × (q.size ≡ n) × (q.alive ≡ true)

  bumped-Holds : {q : Queue A} {xs : List A} → Holds q xs → Holds (bumped q) xs
  bumped-Holds v = record {
    head_in = v.head_in;
    fits = v.fits;
    slots_len = v.slots_len;
    tail_at = v.tail_at;
    slots = v.slots;
  }

  pop_alive : (q : Queue A) → q.alive ≡ true → pop q ≡ pop_loop (bumped q)
  unfolding pop
  pop_alive q on = ap (λ b. if b then pop_loop (bumped q) else returns none q) on

  push_alive :
      (q : Queue A) (ptr : Option A) → q.alive ≡ true → push q ptr ≡ push_loop (bumped q) ptr
  unfolding push
  push_alive q ptr on = ap (λ b. if b then push_loop (bumped q) ptr else returns tt q) on

  pub ring_pop :
      (n : ℕ) (q : Queue A) (x : A) (xs : List A)
      → RingHolds n q (x ∷ xs)
      → (q' : Queue A) × (popped (pop q) ≡ some (x, q')) × RingHolds n q' xs
  ring_pop n q x xs (v, e, on) = (
    taken (bumped q),
    ap popped (pop_alive q on ∙ pop_takes (bumped-Holds v)),
    (taken-Holds (bumped-Holds v), e, on),
  )

  pub ring_pop_empty : (n : ℕ) (q : Queue A) → RingHolds n q [] → popped (pop q) ≡ none
  ring_pop_empty n q (v, e, on) = ap popped (pop_alive q on ∙ pop_waits (bumped-Holds v))

  pub ring_push :
      (n : ℕ) (q : Queue A) (x : A) (xs : List A)
      → RingHolds n q xs
      → length xs < n
      → (q' : Queue A) × (pushed (push q (some x)) ≡ some q') × RingHolds n q' (xs ++ x ∷ [])
  ring_push n q x xs (v, e, on) lt = (
    placed (bumped q) x,
    ap pushed (push_alive q (some x) on ∙ push_places x (bumped-Holds v) (omega (arith, e))),
    (placed-Holds x (bumped-Holds v) (omega (arith, e)), e, on),
  )

  pub ring_create : (n : ℕ) → 0 < n → RingHolds n (queue_create n) []
  unfolding queue_create
  ring_create n h = (queue_create-Holds n h, refl, refl)

-- The queue of libs/queue.c.
unfoldable pub ring : (A : Type 0) → Fifo A
ring A = record {
  Q = Queue A;
  create = queue_create;
  try_pop = λ q. popped (pop q);
  try_push = λ q x. pushed (push q (some x));
  HoldsIn = RingHolds;
  create_lem = ring_create;
  pop_lem = ring_pop;
  pop_empty = ring_pop_empty;
  push_lem = ring_push;
}
