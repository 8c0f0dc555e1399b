-- ===== src/Queue.antt =====
-- libs/queue.c: the blocking queue of pointers, and the calls of libs/lock.h that it makes.
-- A `void*` is an `Option A`, with `none` for NULL. Each function that takes the lock is one atomic
-- step on the queue, from the lock to the unlock or to the wait on a signal; the code between a
-- wake-up and the next wait or return is a step of its own.
pub mod Contents
pub mod Threads
pub mod Fifo
mod Tests
use tiny_https_server.Prelude.{
  ℕ, ◌+◌, ◌-◌, ◌≡◌, Bool, true, false, ◌&&◌, not, Option, none, some, List, ◌==◌, leb,
  if◌then◌else◌, get_or, set, replicate, is_null,
}

-- `struct queue_t`, without the lock and the two signals.
pub record Queue (A : Type 0) : Type 0 where
  pub alive : Bool
  pub head : ℕ
  pub tail : ℕ
  pub size : ℕ
  pub pending : ℕ
  pub array : List (Option A)

-- How a step of a call ends: it returns its result, or it waits on a signal.
pub data Outcome (A R : Type 0) : Type 0 where
  returns : R → Queue A → Outcome A R
  waits : Queue A → Outcome A R

-- `i++; if(i >= size) i = 0;`
abbrev pub advance : ℕ → ℕ → ℕ
advance size i = if leb size (i + 1) then 0 else i + 1

module _ {A : Type 0} where
  abbrev pub slot : List (Option A) → ℕ → Option A
  slot array i = get_or array i none

  unfoldable pub queue_create : ℕ → Queue A
  queue_create size = record {
    alive = true;
    head = 0;
    tail = 0;
    size = size;
    pending = 0;
    array = replicate size none;
  }

  pub empty : Queue A → Bool
  empty q = q.head == q.tail

  -- The test of the `while` loop of `pop`, and of that of `push`.
  abbrev pub nothing_to_pop : Queue A → Bool
  nothing_to_pop q = (q.head == q.tail) && is_null (slot q.array q.head)

  abbrev pub no_room : Queue A → Bool
  no_room q = (q.tail == q.head) && not (is_null (slot q.array q.tail))

  -- `pop` from its loop on: it waits, or takes the pointer at the head.
  unfoldable pub pop_loop : Queue A → Outcome A (Option A)
  pop_loop q =
      if nothing_to_pop q
      then waits q
      else returns (slot q.array q.head) (record q {
        head = advance q.size q.head;
        pending = q.pending - 1;
        array = set q.array q.head none;
      })

  -- `pop` from its start, and from a wake-up in `lock_wait`.
  unfoldable pub pop : Queue A → Outcome A (Option A)
  pop q = if q.alive then pop_loop (record q { pending = q.pending + 1 }) else returns none q

  pub pop_wakes : Queue A → Outcome A (Option A)
  pop_wakes q = if q.alive then pop_loop q else returns none (record q { pending = q.pending - 1 })

  -- `push` from its loop on.
  unfoldable pub push_loop : Queue A → Option A → Outcome A (Unit {0})
  push_loop q ptr =
      if no_room q
      then waits q
      else returns tt (record q {
        tail = advance q.size q.tail;
        pending = q.pending - 1;
        array = set q.array q.tail ptr;
      })

  -- `push` from its start, and from a wake-up.
  unfoldable pub push : Queue A → Option A → Outcome A (Unit {0})
  push q ptr =
      if q.alive then push_loop (record q { pending = q.pending + 1 }) ptr else returns tt q

  pub push_wakes : Queue A → Option A → Outcome A (Unit {0})
  push_wakes q ptr =
      if q.alive then push_loop q ptr else returns tt (record q { pending = q.pending - 1 })

  -- `queue_destroy` up to its loop, and the loop's test: it frees the queue once nobody is pending.
  pub queue_destroy : Queue A → Queue A
  queue_destroy q = record q { alive = false }

  pub freed : Queue A → Bool
  freed q = q.pending == 0
