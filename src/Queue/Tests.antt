-- ===== src/Queue/Tests.antt =====
-- The theorems on libs/queue.c at a queue of two slots, and runs of it.
use tiny_https_server.Prelude.{ℕ, ◌≡◌, ◌↔◌, ◌⊎◌, refl, true, List, [], ◌∷◌, arith, length}
use tiny_https_server.Queue.{
  Queue, queue_create, empty, pop_loop, push_loop, freed, pop, push, pop_wakes, push_wakes,
}
use tiny_https_server.Queue.Contents.{Holds, queue_create-Holds, placed, placed-Holds, empty_iff}
use tiny_https_server.Queue.Threads.{
  Event, pop_starts, pop_resumes, push_starts, push_resumes, destroys, step, run, start,
}
use tiny_https_server.Queue.Threads.Order.{IsOrderly, run_fifo}
use tiny_https_server.Queue.Threads.Shutdown.{Wakes, nobody, pusher, destroy_ends}

-- Two pointers in two slots.
two : Queue ℕ
two = placed (placed (queue_create 2) 7) 8

two-Holds : Holds two (7 ∷ 8 ∷ [])
unfolding two queue_create
two-Holds =
    placed-Holds 8 (placed-Holds 7 (queue_create-Holds 2 (omega arith)) (omega arith)) (omega arith)

empty_iff_example :
    (empty two ≡ true)
    ↔ ((length {A = ℕ} (7 ∷ 8 ∷ []) ≡ 0) ⊎ (length {A = ℕ} (7 ∷ 8 ∷ []) ≡ two.size))
empty_iff_example = empty_iff two-Holds

-- A popper that waits, two pushes, a push that waits, and the wake-ups.
abbrev history : List (Event ℕ)
history =
    pop_starts ∷ push_starts 1 ∷ push_starts 2 ∷ push_starts 3 ∷ pop_resumes ∷ push_resumes 0 ∷ []

run_fifo_example : (xs : List ℕ) × IsOrderly (run (start 2) history) xs
run_fifo_example = run_fifo 2 history (omega arith)

history_logs : (run (start 2) history).popped ≡ 1 ∷ []
unfolding run step start queue_create pop push pop_wakes push_wakes pop_loop push_loop
history_logs = refl

-- Two calls of `push` that wait at a queue of one slot.
abbrev full : List (Event ℕ)
full = push_starts 1 ∷ push_starts 2 ∷ push_starts 3 ∷ []

abbrev wake_ups : List (Event ℕ)
wake_ups = push_resumes 1 ∷ push_resumes 0 ∷ []

two_wait : Wakes (run (start {A = ℕ} 1) full).poppers (length (run (start 1) full).pushers) wake_ups
unfolding run step start queue_create push push_loop
two_wait = pusher (omega arith) (pusher (omega arith) nobody)

destroy_ends_example :
    let t = run (run (start 1) full) (destroys ∷ wake_ups) in
    (freed t.queue ≡ true) × (t.poppers ≡ 0) × (length t.pushers ≡ 0)
destroy_ends_example =
    destroy_ends (run (start 1) full) wake_ups (run_fifo 1 full (omega arith)) two_wait
