-- ===== src/Queue/Threads/Order.antt =====
-- First in, first out, over every schedule.
use tiny_https_server.Prelude.{
  ℕ, zero, suc, ◌+◌, ◌-◌, ◌<◌, ◌≡◌, refl, true, false, Option, none, some, List, [], ◌∷◌, ◌++◌, inl,
  inr, arith, length, get_elem?, length-append, Bool-cases, Option-cases, ◌∙◌, sym, lt→ltb, le→ltb,
}
use mathlib.Core.List.{append_assoc}
use mathlib.Core.Path.{subst}
use native.Mathlib.Decide.{dec_lt}
use tiny_https_server.Queue.{
  Queue, Outcome, returns, waits, queue_create, pop, pop_wakes, push, push_wakes, queue_destroy,
  pop_loop, push_loop,
}
use tiny_https_server.Queue.Contents.{
  Holds, queue_create-Holds, fifo_pop, fifo_push, PopAgrees, PushAgrees, pop_loop_refines,
  push_loop_refines,
}
use tiny_https_server.Queue.Threads.{
  System, Event, pop_starts, pop_resumes, push_starts, push_resumes, destroys, pop_started,
  pop_resumed, push_started, push_resumed, step, run, start, remove_at, log_push,
}

-- The queue holds some list: what was pushed and not yet popped, in order; and it counts the calls
-- that wait.
pub record IsOrderly {A : Type 0} (s : System A) (xs : List A) : Type 0 where
  pub held : Holds s.queue xs
  pub logs : s.pushed ≡ s.popped ++ xs
  pub counts : s.queue.pending ≡ s.poppers + length s.pushers

module _ {A : Type 0} where
  pub length-remove_at :
      (xs : List A) (i : ℕ) {x : A}
      → get_elem? xs i ≡ some x
      → length (remove_at xs i) + 1 ≡ length xs
  length-remove_at [] i e = cc
  length-remove_at (x ∷ xs) zero e = omega arith
  length-remove_at (x ∷ xs) (suc i) e = omega (arith, length-remove_at xs i e)

  -- `Holds` speaks of the ring alone.
  recount : (q : Queue A) (n : ℕ) {xs : List A} → Holds q xs → Holds (record q { pending = n }) xs
  recount q n v = record {
    head_in = v.head_in;
    fits = v.fits;
    slots_len = v.slots_len;
    tail_at = v.tail_at;
    slots = v.slots;
  }

  abbrev pub Orderly : System A → Type 0
  Orderly s = (xs : List A) × IsOrderly s xs

  entered : (s : System A) → Queue A
  entered s = record s.queue { pending = s.queue.pending + 1 }

  entered-Holds : (s : System A) {xs : List A} → IsOrderly s xs → Holds (entered s) xs
  unfolding entered
  entered-Holds s v = recount s.queue (s.queue.pending + 1) v.held

  module _ (s : System A) where
    pop_started-Orderly :
        (xs : List A) (o : Outcome A (Option A))
        → IsOrderly s xs
        → PopAgrees (entered s) (fifo_pop xs) o
        → Orderly (pop_started s o)
    unfolding entered
    pop_started-Orderly [] (returns r q) v a = absurd a
    pop_started-Orderly [] (waits q) v a =
        ([], record { held = rw a (entered-Holds s v); logs = v.logs; counts = ground arith })
    pop_started-Orderly (x ∷ xs) (returns r q) v a =
        (xs, record { held = a.1; logs = rw a.0 (rw append_assoc v.logs); counts = ground arith })
    pop_started-Orderly (x ∷ xs) (waits q) v a = absurd a

    pop_resumed-Orderly :
        (xs : List A) (o : Outcome A (Option A))
        → IsOrderly s xs
        → 0 < s.poppers
        → PopAgrees s.queue (fifo_pop xs) o
        → Orderly (pop_resumed s o)
    pop_resumed-Orderly [] (returns r q) v h a = absurd a
    pop_resumed-Orderly [] (waits q) v h a =
        ([], record { held = rw a v.held; logs = v.logs; counts = rw a v.counts })
    pop_resumed-Orderly (x ∷ xs) (returns r q) v h a =
        (xs, record { held = a.1; logs = rw a.0 (rw append_assoc v.logs); counts = ground arith })
    pop_resumed-Orderly (x ∷ xs) (waits q) v h a = absurd a

    module _ (x : A) (xs : List A) (v : IsOrderly s xs) where
      fifo_push-some : (cap : ℕ) (ys : List A) → fifo_push cap xs x ≡ some ys → ys ≡ xs ++ x ∷ []
      fifo_push-some cap ys e = ground arith

      logged :
          (cap : ℕ) (ys : List A)
          → fifo_push cap xs x ≡ some ys
          → s.pushed ++ x ∷ [] ≡ s.popped ++ ys
      logged cap ys e = rw (fifo_push-some cap ys e, v.logs) (append_assoc s.popped xs (x ∷ []))

      push_started-Orderly :
          (r : Option (List A)) (o : Outcome A (Unit {0}))
          → s.queue.alive ≡ true
          → fifo_push s.queue.size xs x ≡ r
          → PushAgrees (entered s) r o
          → Orderly (push_started s x o)
      unfolding entered
      push_started-Orderly none (returns _ q) l e a = absurd a
      push_started-Orderly none (waits q) l e a = (
        xs,
        record {
          held = rw a (entered-Holds s v);
          logs = v.logs;
          counts = ground (arith, length-append s.pushers (x ∷ []));
        },
      )
      push_started-Orderly (some ys) (returns _ q) l e a =
          (ys, record { held = a.0; logs = rw l (logged s.queue.size ys e); counts = ground arith })
      push_started-Orderly (some ys) (waits q) l e a = absurd a

      push_resumed-Orderly :
          (i : ℕ) (r : Option (List A)) (o : Outcome A (Unit {0}))
          → s.queue.alive ≡ true
          → get_elem? s.pushers i ≡ some x
          → fifo_push s.queue.size xs x ≡ r
          → PushAgrees s.queue r o
          → Orderly (push_resumed s i x o)
      push_resumed-Orderly i none (returns _ q) l w e a = absurd a
      push_resumed-Orderly i none (waits q) l w e a =
          (xs, record { held = rw a v.held; logs = v.logs; counts = rw a v.counts })
      push_resumed-Orderly i (some ys) (returns _ q) l w e a = (
        ys,
        record {
          held = a.0;
          logs = rw l (logged s.queue.size ys e);
          counts = ground (arith, length-remove_at s.pushers i w);
        },
      )
      push_resumed-Orderly i (some ys) (waits q) l w e a = absurd a

  -- What a call does first turns on whether the queue is alive.
  module _ (q : Queue A) where
    pub pop_alive : q.alive ≡ true → pop q ≡ pop_loop (record q { pending = q.pending + 1 })
    unfolding pop
    pop_alive e = simp e

    pub pop_dead : q.alive ≡ false → pop q ≡ returns none q
    unfolding pop
    pop_dead e = simp e

    pub pop_wakes_alive : q.alive ≡ true → pop_wakes q ≡ pop_loop q
    unfolding pop_wakes
    pop_wakes_alive e = simp e

    pub pop_wakes_dead :
        q.alive ≡ false → pop_wakes q ≡ returns none (record q { pending = q.pending - 1 })
    unfolding pop_wakes
    pop_wakes_dead e = simp e

    module _ (p : Option A) where
      pub push_alive :
          q.alive ≡ true → push q p ≡ push_loop (record q { pending = q.pending + 1 }) p
      unfolding push
      push_alive e = simp e

      pub push_dead : q.alive ≡ false → push q p ≡ returns tt q
      unfolding push
      push_dead e = simp e

      pub push_wakes_alive : q.alive ≡ true → push_wakes q p ≡ push_loop q p
      unfolding push_wakes
      push_wakes_alive e = simp e

      pub push_wakes_dead :
          q.alive ≡ false → push_wakes q p ≡ returns tt (record q { pending = q.pending - 1 })
      unfolding push_wakes
      push_wakes_dead e = simp e

  log_push_dead :
      (s : System A) (x : A) → s.queue.alive ≡ false → log_push s.queue.alive s.pushed x ≡ s.pushed
  log_push_dead s x e = simp e

  step-pop_starts : (s : System A) {xs : List A} → IsOrderly s xs → Orderly (step s pop_starts)
  unfolding step entered
  step-pop_starts s {xs} v = elim (Bool-cases s.queue.alive) [
    | inl on ↦
        subst (λ o. Orderly (pop_started s o)) (sym (pop_alive s.queue on))
          (pop_started-Orderly s xs _ v (pop_loop_refines xs (entered-Holds s v)))
    | inr off ↦
        subst (λ o. Orderly (pop_started s o)) (sym (pop_dead s.queue off))
          (xs, record { held = v.held; logs = v.logs; counts = v.counts })
  ]

  step-pop_resumes :
      (s : System A) {xs : List A}
      → IsOrderly s xs
      → 0 < s.poppers
      → Orderly (pop_resumed s (pop_wakes s.queue))
  step-pop_resumes s {xs} v h = elim (Bool-cases s.queue.alive) [
    | inl on ↦
        subst (λ o. Orderly (pop_resumed s o)) (sym (pop_wakes_alive s.queue on))
          (pop_resumed-Orderly s xs _ v h (pop_loop_refines xs v.held))
    | inr off ↦
        subst (λ o. Orderly (pop_resumed s o)) (sym (pop_wakes_dead s.queue off))
          (xs, record { held = recount s.queue _ v.held; logs = v.logs; counts = ground arith })
  ]

  step-push_starts :
      (s : System A) (x : A) {xs : List A} → IsOrderly s xs → Orderly (step s (push_starts x))
  unfolding step entered
  step-push_starts s x {xs} v = elim (Bool-cases s.queue.alive) [
    | inl on ↦
        subst (λ o. Orderly (push_started s x o)) (sym (push_alive s.queue (some x) on))
          (push_started-Orderly s x xs v _ _ on refl (push_loop_refines x (entered-Holds s v)))
    | inr off ↦
        subst (λ o. Orderly (push_started s x o)) (sym (push_dead s.queue (some x) off))
          (xs, record { held = v.held; logs = log_push_dead s x off ∙ v.logs; counts = v.counts })
  ]

  step-push_resumes :
      (s : System A) (i : ℕ) (x : A) {xs : List A}
      → IsOrderly s xs
      → get_elem? s.pushers i ≡ some x
      → Orderly (push_resumed s i x (push_wakes s.queue (some x)))
  step-push_resumes s i x {xs} v w = elim (Bool-cases s.queue.alive) [
    | inl on ↦
        subst (λ o. Orderly (push_resumed s i x o)) (sym (push_wakes_alive s.queue (some x) on))
          (push_resumed-Orderly s x xs v i _ _ on w refl (push_loop_refines x v.held))
    | inr off ↦
        subst (λ o. Orderly (push_resumed s i x o)) (sym (push_wakes_dead s.queue (some x) off))
          (
            xs,
            record {
              held = recount s.queue _ v.held;
              logs = log_push_dead s x off ∙ v.logs;
              counts = ground (arith, length-remove_at s.pushers i w);
            },
          )
  ]

  pub step-Orderly : (s : System A) (e : Event A) → Orderly s → Orderly (step s e)
  unfolding step queue_destroy
  step-Orderly s pop_starts (xs, v) = step-pop_starts s v
  step-Orderly s pop_resumes (xs, v) = elim (dec_lt 0 s.poppers) [
    | yes h ↦ rw (lt→ltb 0 s.poppers h) (step-pop_resumes s v h)
    | no h ↦ rw (le→ltb 0 s.poppers (omega arith)) (xs, v)
  ]
  step-Orderly s (push_starts x) (xs, v) = step-push_starts s x v
  step-Orderly s (push_resumes i) (xs, v) = elim (Option-cases (get_elem? s.pushers i)) [
    | inl e ↦ rw (e, step) (xs, v)
    | inr (x, e) ↦ rw (e, step) (step-push_resumes s i x v e)
  ]
  step-Orderly s destroys (xs, v) = (
    xs,
    record {
      held = record {
        head_in = v.held.head_in;
        fits = v.held.fits;
        slots_len = v.held.slots_len;
        tail_at = v.held.tail_at;
        slots = v.held.slots;
      };
      logs = v.logs;
      counts = v.counts;
    },
  )

  run-Orderly : (es : List (Event A)) (s : System A) → Orderly s → Orderly (run s es)
  unfolding run
  run-Orderly [] s v = v
  run-Orderly (e ∷ es) s v = run-Orderly es (step s e) (step-Orderly s e v)

  start-Orderly : (size : ℕ) → 0 < size → Orderly (start {A = A} size)
  unfolding start queue_create
  start-Orderly size h =
      ([], record { held = queue_create-Holds size h; logs = refl; counts = omega arith })

  -- Whatever the schedule of a queue of at least one slot, also with spurious wake-ups and with the
  -- queue destroyed on the way: the pointers handed out are the pointers stored, in the same order,
  -- up to those that the queue still holds, which its slots are; and its count of pending calls is
  -- the number of calls that wait.
  pub run_fifo :
      (size : ℕ) (es : List (Event A))
      → 0 < size
      → (xs : List A) × IsOrderly (run (start size) es) xs
  run_fifo size es h = run-Orderly es (start size) (start-Orderly size h)
