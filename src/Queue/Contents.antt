-- ===== src/Queue/Contents.antt =====
-- What a queue holds, and the operations of libs/queue.c against a bounded first-in first-out list.
use tiny_https_server.Prelude.{
  ℕ, suc, ◌+◌, ◌-◌, ◌≤◌, ◌<◌, ◌≡◌, refl, ◌↔◌, true, Option, none, some, List, [], ◌∷◌, ◌++◌, arith,
  ltb, if◌then◌else◌, length, get_elem?, set, length-set, length-append, length-replicate,
  get_or-set_self, get_or-set_ne, get_or-replicate, lt→ltb, le→ltb, ◌⊎◌, get_elem?_beyond,
  get_elem?-snoc_last, get_elem?-snoc_ne,
}
use native.Mathlib.Decide.{ℕ_discrete, dec_lt}
use tiny_https_server.Queue.{
  Queue, Outcome, returns, waits, advance, slot, queue_create, empty, pop_loop, push_loop,
}

-- The index `k` steps into an array of `size` slots, going round once.
abbrev pub wrapped : ℕ → ℕ → ℕ
wrapped size k = if ltb k size then k else k - size

-- The queue holds the pointers `xs`, oldest first: they stand from the head on, going round, and
-- every other slot is NULL.
pub record Holds {A : Type 0} (q : Queue A) (xs : List A) : Type 0 where
  pub head_in : q.head < q.size
  pub fits : length xs ≤ q.size
  pub slots_len : length q.array ≡ q.size
  pub tail_at : q.tail ≡ wrapped q.size (q.head + length xs)
  pub slots : (i : ℕ) → i < q.size → slot q.array (wrapped q.size (q.head + i)) ≡ get_elem? xs i

-- A bounded first-in first-out list: `none` while a call has to wait.
abbrev pub fifo_pop : {A : Type 0} → List A → Option (A × List A)
fifo_pop [] = none
fifo_pop (x ∷ xs) = some (x, xs)

abbrev pub fifo_push : {A : Type 0} → ℕ → List A → A → Option (List A)
fifo_push cap xs x = if ltb (length xs) cap then some (xs ++ x ∷ []) else none

-- The outcome of `pop` against `fifo_pop`, and that of `push` against `fifo_push`.
abbrev pub PopAgrees : {A : Type 0} → Queue A → Option (A × List A) → Outcome A (Option A) → Type 0
PopAgrees q none (returns r q') = ⊥
PopAgrees q none (waits q') = q' ≡ q
PopAgrees q (some (x, xs)) (returns r q') =
    (r ≡ some x) × Holds q' xs × (q'.pending ≡ q.pending - 1)
PopAgrees q (some (x, xs)) (waits q') = ⊥

abbrev pub PushAgrees : {A : Type 0} → Queue A → Option (List A) → Outcome A (Unit {0}) → Type 0
PushAgrees q none (returns r q') = ⊥
PushAgrees q none (waits q') = q' ≡ q
PushAgrees q (some xs) (returns r q') = Holds q' xs × (q'.pending ≡ q.pending - 1)
PushAgrees q (some xs) (waits q') = ⊥

module _ {A : Type 0} where
  pub queue_create-Holds : (size : ℕ) → 0 < size → Holds (queue_create {A = A} size) []
  unfolding queue_create
  queue_create-Holds size h = record {
    head_in = omega arith;
    fits = omega arith;
    slots_len = length-replicate size none;
    tail_at = ground arith;
    slots = λ i lt. get_or-replicate size (wrapped size (0 + i)) none;
  }

  -- The pointer at the head.
  head-slot : {q : Queue A} {xs : List A} → Holds q xs → slot q.array q.head ≡ get_elem? xs 0
  head-slot {q} v = ground (arith, v.slots 0)

  pub pop_waits : {q : Queue A} → Holds q [] → pop_loop q ≡ waits q
  unfolding pop_loop
  pop_waits {q} v = ground (arith, head-slot v)

  abbrev pub taken : Queue A → Queue A
  taken q = record q {
    head = advance q.size q.head;
    pending = q.pending - 1;
    array = set q.array q.head none;
  }

  pub pop_takes :
      {q : Queue A} {x : A} {xs : List A}
      → Holds q (x ∷ xs)
      → pop_loop q ≡ returns (some x) (taken q)
  unfolding pop_loop
  pop_takes {q} v = ground (arith, head-slot v)

  taken-slots :
      {q : Queue A} {x : A} {xs : List A}
      → Holds q (x ∷ xs)
      → (i : ℕ) → i < q.size
      → slot (set q.array q.head none) (wrapped q.size (advance q.size q.head + i)) ≡ get_elem? xs i
  taken-slots {q} {x} {xs} v i lt = ground (
    arith,
    v.slots (suc i),
    get_elem?_beyond xs i,
    get_or-set_self q.array q.head none none,
    get_or-set_ne q.array q.head (wrapped q.size (advance q.size q.head + i)) none none,
  )

  abbrev pub placed : Queue A → A → Queue A
  placed q x = record q {
    tail = advance q.size q.tail;
    pending = q.pending - 1;
    array = set q.array q.tail (some x);
  }

  -- The pointer at the tail: the oldest one of a full queue, and NULL in any other.
  full-slot :
      {q : Queue A} {xs : List A}
      → Holds q xs
      → length xs ≡ q.size
      → (q.tail ≡ q.head) × (slot q.array q.tail ≡ get_elem? xs 0)
  full-slot {q} {xs} v e = ground (arith, v.slots 0)

  room-slot :
      {q : Queue A} {xs : List A} → Holds q xs → length xs < q.size → slot q.array q.tail ≡ none
  room-slot {q} {xs} v lt = ground (arith, v.slots (length xs), get_elem?_beyond xs (length xs))

  first : (xs : List A) → 0 < length xs → (x : A) × (get_elem? xs 0 ≡ some x)
  first [] h = absurd (omega arith)
  first (x ∷ xs) h = (x, refl)

  pub push_waits :
      {q : Queue A} {xs : List A} (p : Option A)
      → Holds q xs
      → length xs ≡ q.size
      → push_loop q p ≡ waits q
  unfolding push_loop
  push_waits {q} {xs} p v e = ground (arith, full-slot v e, v.head_in, first xs)

  pub push_places :
      {q : Queue A} {xs : List A} (x : A)
      → Holds q xs
      → length xs < q.size
      → push_loop q (some x) ≡ returns tt (placed q x)
  unfolding push_loop
  push_places {q} {xs} x v lt = ground (arith, room-slot v lt)

  pub taken-Holds : {q : Queue A} {x : A} {xs : List A} → Holds q (x ∷ xs) → Holds (taken q) xs
  taken-Holds {q} {x} {xs} v = record {
    head_in = ground arith;
    fits = omega arith;
    slots_len = rw (length-set q.array q.head none) v.slots_len;
    tail_at = ground arith;
    slots = taken-slots v;
  }

  placed-slots :
      {q : Queue A} {xs : List A} (x : A)
      → Holds q xs
      → length xs < q.size
      → (i : ℕ) → i < q.size
      → slot (set q.array q.tail (some x)) (wrapped q.size (q.head + i))
        ≡ get_elem? (xs ++ x ∷ []) i
  placed-slots {q} {xs} x v room i lt = elim (ℕ_discrete i (length xs)) [
    | yes e ↦ ground (arith, get_or-set_self q.array q.tail (some x) none, get_elem?-snoc_last xs x)
    | no ne ↦ ground (
      arith,
      v.slots i,
      get_or-set_ne q.array q.tail (wrapped q.size (q.head + i)) (some x) none,
      get_elem?-snoc_ne xs x i,
    )
  ]

  pub placed-Holds :
      {q : Queue A} {xs : List A} (x : A)
      → Holds q xs
      → length xs < q.size
      → Holds (placed q x) (xs ++ x ∷ [])
  placed-Holds {q} {xs} x v room = record {
    head_in = v.head_in;
    fits = omega (arith, length-append xs (x ∷ []));
    slots_len = rw (length-set q.array q.tail (some x)) v.slots_len;
    tail_at = ground (arith, length-append xs (x ∷ []));
    slots = placed-slots x v room;
  }

  -- The loop of `pop` on a queue that holds `xs` does what the bounded list does: it waits, with the
  -- queue as it was, exactly when `xs` is empty, and otherwise returns the oldest pointer and leaves
  -- the queue holding the others, with one caller fewer pending.
  pub pop_loop_refines :
      {q : Queue A} (xs : List A) → Holds q xs → PopAgrees q (fifo_pop xs) (pop_loop q)
  pop_loop_refines {q} [] v = rw (pop_waits v)
  pop_loop_refines {q} (x ∷ xs) v = rw (pop_takes v) (refl, taken-Holds v, refl)

  -- The loop of `push` on a queue that holds `xs` does what the bounded list does: it waits, with the
  -- queue as it was, exactly when `xs` fills the queue, and otherwise leaves the queue holding the
  -- new pointer behind the others, with one caller fewer pending.
  pub push_loop_refines :
      {q : Queue A} {xs : List A} (x : A)
      → Holds q xs
      → PushAgrees q (fifo_push q.size xs x) (push_loop q (some x))
  push_loop_refines {q} {xs} x v = elim (dec_lt (length xs) q.size) [
    | yes room ↦
        rw (lt→ltb (length xs) q.size room, push_places x v room) (placed-Holds x v room, refl)
    | no full ↦
        rw (le→ltb (length xs) q.size (omega arith), push_waits (some x) v (omega (arith, v.fits)))
  ]

  -- `empty` answers true exactly when the queue holds nothing or is full.
  pub empty_iff :
      {q : Queue A} {xs : List A}
      → Holds q xs
      → (empty q ≡ true) ↔ ((length xs ≡ 0) ⊎ (length xs ≡ q.size))
  unfolding empty
  empty_iff {q} {xs} v = ground arith
