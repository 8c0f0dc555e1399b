-- ===== src/Async.antt =====
-- libs/async.c and libs/async.h: a task, the jobs that the thread pool still has for it, and the pool
-- of stacks. What the task's function does with its argument is a `Body`: it returns, or it calls
-- `suspend` and goes on after the resumption. A step is a job of the pool, a call of the task's owner,
-- or a turn of a loop in one. `async_run` is two steps: one up to the context switch that leaves the
-- task's function, which publishes the state, and one behind it, which reads the task again; the owner
-- may act between them.
pub mod Stacks
mod Tests
use tiny_https_server.Prelude.{
  ℕ, Bool, true, false, Option, none, some, List, [], ◌∷◌, ◌++◌, if◌then◌else◌,
}
use tiny_https_server.Prelude.Run.{Run, done, blocked, fault, ◌>>=◌}
use Stacks.{StackPool, async_get_stack, async_free_stack}

-- `asyncState_t`
pub data State : Type 0 where
  unborn dead running suspended detached : State

pub data Body (V : Type 0) : Type 0 where
  returns : V → Body V
  suspends : V → Body V → Body V

-- `async_run` up to the return of its `swapcontext`, and from there on, or `async_resume`.
pub data Job : Type 0 where
  runs leaves resumes : Job

-- `struct asyncTask_t`. `rest` is what the task does when `callee_ctx` is resumed, and `stack` the
-- stack of that context, NULL before it has run.
pub record Task (V : Type 0) : Type 0 where
  pub ret : V
  pub state : State
  pub rest : Body V
  pub stack : Option ℕ

-- The task, `none` once it is freed; its jobs; and whether the owner has a pointer that it may still
-- use: not after a call that set it to NULL, nor after `async_detach`.
pub record System (V : Type 0) : Type 0 where
  pub func : V → Body V
  pub stacks : StackPool
  pub task : Option (Task V)
  pub jobs : List Job
  pub owned : Bool

abbrev pub is_detached : State → Bool
is_detached detached = true
is_detached _ = false

-- `async_set_state`
abbrev pub async_set_state : State → State → State
async_set_state old running = running
async_set_state detached new = detached
async_set_state _ new = new

-- The pool with the stack of a task that is cleaned.
abbrev pub freed : StackPool → Option ℕ → StackPool
freed stacks none = stacks
freed stacks (some sp) = async_free_stack stacks sp

-- The state that `async_entry` sets at first.
abbrev pub entered : State → State
entered detached = detached
entered _ = running

abbrev pub settled : State → Bool
settled unborn = false
settled running = false
settled _ = true

abbrev pub is_dead : State → Bool
is_dead dead = true
is_dead _ = false

module _ {V : Type 0} where
  -- The function from where it is, up to its return or to a `suspend` that leaves the context; that
  -- of a detached task goes on.
  unfoldable pub execute : Task V → Body V → Task V
  execute t (returns v) = record t { ret = v; state = async_set_state t.state dead }
  execute t (suspends v rest) =
      let through = execute (record t { ret = v }) rest in
      if is_detached t.state then through else record t { ret = v; state = suspended; rest = rest }

  -- `asyncTask_clean`
  unfoldable pub async_task_clean : System V → Task V → System V
  async_task_clean s t = record s { stacks = freed s.stacks t.stack; task = none; owned = false }

  -- What `async_run` does once the context is left, with the task as it finds it then.
  abbrev pub left_as : State → System V → Task V → System V
  left_as detached s t = async_task_clean s t
  left_as dead s t = record s { task = some t }
  left_as suspended s t = record s { task = some t }
  left_as _ s t = record s { task = some (record t { state = suspended }) }

  -- `async_run` and `async_entry` up to there.
  unfoldable pub async_run : System V → Task V → System V
  async_run s t =
      let (sp, stacks) = async_get_stack s.stacks in
      let t' = execute (record t { state = entered t.state; stack = some sp }) (s.func t.ret) in
      record s { stacks = stacks; task = some t'; jobs = leaves ∷ s.jobs }

  -- `async_resume`
  unfoldable pub async_resume : System V → Task V → System V
  async_resume s t = record s { task = some (execute t t.rest) }

  abbrev pub on_task : Option (Task V) → (Task V → System V) → Run (System V)
  on_task none f = fault
  on_task (some t) f = done (f t)

  -- The pool runs the next job, if there is one.
  abbrev pub next_job : List Job → System V → Run (System V)
  next_job [] s = done s
  next_job (runs ∷ jobs) s = on_task s.task (λ t. async_run (record s { jobs = jobs }) t)
  next_job (leaves ∷ jobs) s = on_task s.task (λ t. left_as t.state (record s { jobs = jobs }) t)
  next_job (resumes ∷ jobs) s = on_task s.task (λ t. async_resume (record s { jobs = jobs }) t)

  unfoldable pub run_job : System V → Run (System V)
  run_job s = next_job s.jobs s

  -- `async`, on an engine that runs.
  unfoldable pub async : StackPool → (V → Body V) → V → System V
  async stacks func arg = record {
    func = func;
    stacks = stacks;
    task = some (record { ret = arg; state = unborn; rest = returns arg; stack = none });
    jobs = runs ∷ [];
    owned = true;
  }

  -- `resume`
  abbrev pub resumed : State → System V → Task V → System V
  resumed suspended s t = record s {
    task = some (record t { state = running });
    jobs = s.jobs ++ resumes ∷ [];
  }
  resumed _ s t = s

  unfoldable pub resume : System V → Run (System V)
  resume s = on_task s.task (λ t. resumed t.state s t)

  -- `async_detach`
  abbrev pub detached_from : State → System V → Task V → System V
  detached_from dead s t = async_task_clean s t
  detached_from suspended s t = record s {
    task = some (record t { state = detached });
    jobs = s.jobs ++ resumes ∷ [];
    owned = false;
  }
  detached_from _ s t = record s { task = some (record t { state = detached }); owned = false }

  unfoldable pub async_detach : System V → Run (System V)
  async_detach s = on_task s.task (λ t. detached_from t.state s t)

  -- `get_yield`: the yield if it is valid, the state and the system.
  abbrev pub yield_of : State → System V → Task V → Option V × State × System V
  yield_of suspended s t = (some t.ret, suspended, s)
  yield_of dead s t = (some t.ret, dead, async_task_clean s t)
  yield_of state s t = (none, state, s)

  unfoldable pub get_yield : System V → Run (Option V × State × System V)
  get_yield s = elim s.task [ none ↦ fault | some t ↦ done (yield_of t.state s t) ]

  -- One turn of the loop of `wait_yield`, for a turn that waits: the pool has run a job by its end,
  -- or has not.
  abbrev pub waited : Bool → System V → Run (System V)
  waited true s = run_job s
  waited false s = done s

  -- `wait_yield`; a turn for each element of the schedule, `blocked` when these are over.
  unfoldable pub wait_yield : List Bool → System V → Run (Option V × State × System V)
  wait_yield [] s = blocked
  wait_yield (ran ∷ turns) s = elim s.task [
    | none ↦ fault
    | some t ↦ elim (settled t.state) [
      | true ↦ done (yield_of t.state s t)
      | false ↦ waited ran s >>= λ s'. wait_yield turns s'
    ]
  ]

  -- A turn of the loop of `await` on a task that is not dead.
  abbrev pub await_turn : State → Bool → System V → Task V → Run (System V)
  await_turn suspended ran s t = done (
      async_resume (record s { task = some (record t { state = running }) })
        (record t { state = running }))
  await_turn _ ran s t = waited ran s

  -- `await`; the value that it returns is not marked as valid.
  unfoldable pub await : List Bool → System V → Run (V × System V)
  await [] s = blocked
  await (ran ∷ turns) s = elim s.task [
    | none ↦ fault
    | some t ↦ elim (is_dead t.state) [
      | true ↦ done (t.ret, async_task_clean s t)
      | false ↦ await_turn t.state ran s t >>= λ s'. await turns s'
    ]
  ]

  -- `wait_time` with a positive time, once the wait in it is over.
  abbrev pub time_yield : State → Task V → Option V × State
  time_yield running t = (none, running)
  time_yield state t = (some t.ret, state)

  -- It waits only for a task that runs.
  abbrev pub timed_wait : State → Bool → System V → Run (System V)
  timed_wait running ran s = waited ran s
  timed_wait _ ran s = done s

  abbrev pub after_time : System V → Option (Task V) → Run (Option V × State × System V)
  after_time s none = fault
  after_time s (some t) = let (yield, state) = time_yield t.state t in done (yield, state, s)

  unfoldable pub wait_time : Bool → System V → Run (Option V × State × System V)
  wait_time ran s = elim s.task [
    | none ↦ fault
    | some t ↦ timed_wait t.state ran s >>= λ s'. after_time s' s'.task
  ]
