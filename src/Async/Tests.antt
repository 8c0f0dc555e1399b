-- ===== src/Async/Tests.antt =====
-- The theorems on libs/async.c at a task that is suspended once, and runs of it.
use tiny_https_server.Prelude.{ℕ, ◌+◌, Option, ◌*◌, ◌≡◌, refl, true, false, some, List, [], ◌∷◌}
use tiny_https_server.Prelude.Run.{done, fault, ◌>>=◌}
use tiny_https_server.Async.Stacks.{
  start_stacks, async_get_stack, take_stack, async_free_stack, put_stack,
}
use tiny_https_server.Async.Stacks.Places.{Placed, Use, takes, gives, use_stacks, stacks-Placed}
use tiny_https_server.Async.{
  State, System, unborn, suspended, Body, returns, suspends, execute, async_run, async_task_clean,
  run_job, async, resume, get_yield, await, wait_time,
}

-- It yields twice its argument, and returns one more.
abbrev twice : ℕ → Body ℕ
twice n = suspends (2 * n) (returns (2 * n + 1))

abbrev uses : List Use
uses = takes ∷ takes ∷ takes ∷ gives 1 ∷ takes ∷ gives 0 ∷ []

stacks-Placed_example :
    Placed (use_stacks (start_stacks, []) uses).0 (use_stacks (start_stacks, []) uses).1
stacks-Placed_example = stacks-Placed uses

-- The third stack makes the pool grow.
stacks_used : (use_stacks (start_stacks, []) uses).1 ≡ 3 ∷ 0 ∷ []
unfolding use_stacks start_stacks async_get_stack take_stack async_free_stack put_stack
stacks_used = refl

-- A task that has not begun is taken for one that has a yield.
unborn_yield :
    wait_time false (async start_stacks twice 4) ≡ done (some 4, unborn, async start_stacks twice 4)
unfolding wait_time async
unborn_yield = refl

-- It returns one more.
abbrev once : ℕ → Body ℕ
once n = returns (n + 1)

-- The owner's `await` cleans the task that has returned before `async_run` reads its state.
await_first : (await (true ∷ true ∷ []) (async start_stacks once 4) >>= λ r. run_job r.1) ≡ fault
unfolding await run_job async async_run execute async_task_clean start_stacks async_get_stack
    take_stack async_free_stack put_stack
await_first = refl

abbrev seen : Option ℕ × State × System ℕ → Option ℕ × State
seen (yield, state, s) = (yield, state)

-- The owner resumes the task that has yielded before `async_run` reads its state, which then makes it
-- one that is suspended: the same yield is given again.
yield_twice :
    (run_job (async start_stacks twice 4) >>= λ s.
    resume s >>= λ s'. run_job s' >>= λ s''. get_yield s'' >>= λ r. done (seen r))
    ≡ done (some 8, suspended)
unfolding run_job resume get_yield async async_run execute start_stacks async_get_stack take_stack
yield_twice = refl
