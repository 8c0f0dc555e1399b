-- ===== src/Async/Stacks.antt =====
-- libs/async.c: the pool of stacks, `async_get_stack` and `async_free_stack`. An address that `mmap`
-- returns is the number of calls before it, as calls that succeed return addresses not in use.
pub mod Places
use tiny_https_server.Prelude.{ℕ, zero, suc, ◌+◌, Option, none, some, List, [], ◌∷◌, ◌++◌, length}

-- `async_ctrl.sps`; `stacks_entries` is the length of the array.
pub record StackPool : Type 0 where
  pub sps : List (Option ℕ)
  pub mapped : ℕ

-- `async_engine_start`, the part for the stacks.
unfoldable pub start_stacks : StackPool
start_stacks = record { sps = some 0 ∷ some 1 ∷ []; mapped = 2 }

-- The first loop of `async_get_stack`: a stack, and the array without it.
unfoldable pub take_stack : List (Option ℕ) → Option (ℕ × List (Option ℕ))
take_stack [] = none
take_stack (some sp ∷ sps) = some (sp, none ∷ sps)
take_stack (none ∷ sps) = elim (take_stack sps) [
  | none ↦ none
  | some (sp, sps') ↦ some (sp, none ∷ sps')
]

-- `n` stacks that are mapped from the address `a` on.
unfoldable pub map_stacks : ℕ → ℕ → List (Option ℕ)
map_stacks zero a = []
map_stacks (suc n) a = some a ∷ map_stacks n (suc a)

-- The array doubled: a free place, and new stacks behind it. The last stack mapped is returned.
abbrev pub grow_stacks : StackPool → ℕ → ℕ × StackPool
grow_stacks s zero = (s.mapped, record s { mapped = s.mapped + 1 })
grow_stacks s (suc more) = (
  s.mapped + more,
  record { sps = s.sps ++ none ∷ map_stacks more s.mapped; mapped = s.mapped + more + 1 },
)

abbrev pub taken_from : StackPool → Option (ℕ × List (Option ℕ)) → ℕ × StackPool
taken_from s none = grow_stacks s (length s.sps)
taken_from s (some (sp, sps')) = (sp, record s { sps = sps' })

unfoldable pub async_get_stack : StackPool → ℕ × StackPool
async_get_stack s = taken_from s (take_stack s.sps)

-- The loop of `async_free_stack`; with no free place the stack is lost.
unfoldable pub put_stack : List (Option ℕ) → ℕ → List (Option ℕ)
put_stack [] sp = []
put_stack (none ∷ sps) sp = some sp ∷ sps
put_stack (some other ∷ sps) sp = some other ∷ put_stack sps sp

unfoldable pub async_free_stack : StackPool → ℕ → StackPool
async_free_stack s sp = record s { sps = put_stack s.sps sp }
