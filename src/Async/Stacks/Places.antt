-- ===== src/Async/Stacks/Places.antt =====
-- Where the stacks of libs/async.c are: each one in the pool or with one task.
use tiny_https_server.Prelude.{
  ℕ, zero, suc, ◌+◌, ◌<◌, ◌≡◌, refl, ap, Option, none, some, List, [], ◌∷◌, ◌++◌, arith, ltb, ◌==◌,
  if◌then◌else◌, length, get_elem?, length-append, times, remove_at, times-remove_at,
}
use tiny_https_server.Async.Stacks.{
  StackPool, start_stacks, take_stack, map_stacks, grow_stacks, taken_from, async_get_stack,
  put_stack, async_free_stack,
}

-- How often a stack stands in the pool, and with the tasks.
abbrev pub pooled : List (Option ℕ) → ℕ → ℕ
pooled [] a = 0
pooled (none ∷ sps) a = pooled sps a
pooled (some b ∷ sps) a = (if b == a then 1 else 0) + pooled sps a

-- The free places of the pool.
abbrev pub free_places : List (Option ℕ) → ℕ
free_places [] = 0
free_places (none ∷ sps) = suc (free_places sps)
free_places (some b ∷ sps) = free_places sps

-- Every stack that was mapped is in one place, once, and there is a free place for each stack that a
-- task has.
pub record Placed (s : StackPool) (used : List ℕ) : Type 0 where
  pub some_places : 0 < length s.sps
  pub once : (a : ℕ) → pooled s.sps a + times used a ≡ (if ltb a s.mapped then 1 else 0)
  pub room : free_places s.sps ≡ length used

pub start_stacks-Placed : Placed start_stacks []
unfolding start_stacks
start_stacks-Placed = record { some_places = omega arith; once = λ a. ground arith; room = refl }

-- What taking a stack from the array does, or that the array has none.
Takes : List (Option ℕ) → Option (ℕ × List (Option ℕ)) → Type 0
Takes sps none = ((a : ℕ) → pooled sps a ≡ 0) × (free_places sps ≡ length sps)
Takes sps (some (sp, sps')) =
    ((a : ℕ) → pooled sps' a + (if sp == a then 1 else 0) ≡ pooled sps a)
    × (free_places sps' ≡ free_places sps + 1)
    × (length sps' ≡ length sps)

take_stack-Takes : (sps : List (Option ℕ)) → Takes sps (take_stack sps)
unfolding take_stack Takes
take_stack-Takes [] = (λ a. refl, refl)
take_stack-Takes (some sp ∷ sps) = (λ a. omega arith, omega arith, refl)
take_stack-Takes (none ∷ sps) = go (take_stack sps) (take_stack-Takes sps)
  where
    go :
        (r : Option (ℕ × List (Option ℕ)))
        → Takes sps r
        → Takes (none ∷ sps) (elim r [ none ↦ none | some (sp, sps') ↦ some (sp, none ∷ sps') ])
    go none t = (t.0, ap suc t.1)
    go (some (sp, sps')) t = (t.0, omega (arith, t.1), ap suc t.2)

pooled-append : (xs ys : List (Option ℕ)) (a : ℕ) → pooled (xs ++ ys) a ≡ pooled xs a + pooled ys a
pooled-append [] ys a = omega arith
pooled-append (none ∷ xs) ys a = pooled-append xs ys a
pooled-append (some b ∷ xs) ys a = omega (arith, pooled-append xs ys a)

free_places-append :
    (xs ys : List (Option ℕ)) → free_places (xs ++ ys) ≡ free_places xs + free_places ys
free_places-append [] ys = omega arith
free_places-append (none ∷ xs) ys = omega (arith, free_places-append xs ys)
free_places-append (some b ∷ xs) ys = free_places-append xs ys

map_stacks_lem :
    (n b a : ℕ)
    → (pooled (map_stacks n b) a + (if ltb a b then 1 else 0) ≡ (if ltb a (b + n) then 1 else 0))
      × (free_places (map_stacks n b) ≡ 0)
unfolding map_stacks
map_stacks_lem zero b a = (ground arith, refl)
map_stacks_lem (suc n) b a = let (rest, none') = map_stacks_lem n (suc b) a in (ground arith, none')

pub async_get_stack-Placed :
    (s : StackPool) (used : List ℕ)
    → Placed s used
    → Placed (async_get_stack s).1 ((async_get_stack s).0 ∷ used)
unfolding async_get_stack Takes
async_get_stack-Placed s used v = go (take_stack s.sps) (take_stack-Takes s.sps)
  where
    grown :
        (n : ℕ)
        → n ≡ length s.sps
        → ((a : ℕ) → pooled s.sps a ≡ 0)
        → free_places s.sps ≡ length s.sps
        → Placed (grow_stacks s n).1 ((grow_stacks s n).0 ∷ used)
    grown zero e gone all_free = absurd (omega (arith, v.some_places))
    grown (suc more) e gone all_free = record {
      some_places = omega (arith, length-append s.sps (none ∷ map_stacks more s.mapped));
      once = λ a. ground (
        arith,
        v.once a,
        gone a,
        pooled-append s.sps (none ∷ map_stacks more s.mapped) a,
        map_stacks_lem more s.mapped a,
      );
      room = omega (
        arith,
        v.room,
        free_places-append s.sps (none ∷ map_stacks more s.mapped),
        (map_stacks_lem more s.mapped 0).1,
      );
    }

    go :
        (r : Option (ℕ × List (Option ℕ)))
        → Takes s.sps r
        → Placed (taken_from s r).1 ((taken_from s r).0 ∷ used)
    go none t = grown (length s.sps) refl t.0 t.1
    go (some (sp, sps')) t = record {
      some_places = omega (arith, t.2, v.some_places);
      once = λ a. omega (arith, t.0 a, v.once a);
      room = omega (arith, t.1, v.room);
    }

put_stack_lem :
    (sps : List (Option ℕ)) (sp a : ℕ)
    → 0 < free_places sps
    → (pooled (put_stack sps sp) a ≡ pooled sps a + (if sp == a then 1 else 0))
      × (free_places (put_stack sps sp) + 1 ≡ free_places sps)
      × (length (put_stack sps sp) ≡ length sps)
unfolding put_stack
put_stack_lem [] sp a h = absurd (omega arith)
put_stack_lem (none ∷ sps) sp a h = (omega arith, omega arith, refl)
put_stack_lem (some b ∷ sps) sp a h =
    let (p, f, l) = put_stack_lem sps sp a h in (omega (arith, p), f, ap suc l)

-- The stack of one of the tasks goes back.
pub async_free_stack-Placed :
    (s : StackPool) (used used' : List ℕ) (sp : ℕ)
    → Placed s used
    → ((a : ℕ) → times used a ≡ (if sp == a then 1 else 0) + times used' a)
    → length used ≡ suc (length used')
    → Placed (async_free_stack s sp) used'
unfolding async_free_stack
async_free_stack-Placed s used used' sp v one less = record {
  some_places = omega (arith, (put_stack_lem s.sps sp 0 (omega (arith, v.room))).2, v.some_places);
  once = λ a. omega (arith, (put_stack_lem s.sps sp a (omega (arith, v.room))).0, one a, v.once a);
  room = omega (arith, (put_stack_lem s.sps sp 0 (omega (arith, v.room))).1, v.room);
}

-- What tasks do with the pool: one takes a stack, or one of those that have a stack gives it back.
pub data Use : Type 0 where
  takes : Use
  gives : ℕ → Use

abbrev pub given_back : StackPool → List ℕ → ℕ → Option ℕ → StackPool × List ℕ
given_back s used i none = (s, used)
given_back s used i (some sp) = (async_free_stack s sp, remove_at used i)

unfoldable pub use_stacks : StackPool × List ℕ → List Use → StackPool × List ℕ
use_stacks (s, used) [] = (s, used)
use_stacks (s, used) (takes ∷ us) =
    let (sp, s') = async_get_stack s in use_stacks (s', sp ∷ used) us
use_stacks (s, used) (gives i ∷ us) = use_stacks (given_back s used i (get_elem? used i)) us

uses-Placed :
    (us : List Use) (s : StackPool) (used : List ℕ)
    → Placed s used
    → Placed (use_stacks (s, used) us).0 (use_stacks (s, used) us).1
unfolding use_stacks
uses-Placed [] s used v = v
uses-Placed (takes ∷ us) s used v =
    uses-Placed us (async_get_stack s).1 ((async_get_stack s).0 ∷ used)
      (async_get_stack-Placed s used v)
uses-Placed (gives i ∷ us) s used v =
    go (get_elem? used i) refl (uses-Placed us s used v) (λ s' used' w. uses-Placed us s' used' w)
  where
    go :
        (r : Option ℕ)
        → get_elem? used i ≡ r
        → Placed (use_stacks (s, used) us).0 (use_stacks (s, used) us).1
        → ((s' : StackPool) (used' : List ℕ)
            → Placed s' used'
            → Placed (use_stacks (s', used') us).0 (use_stacks (s', used') us).1)
        → Placed (use_stacks (given_back s used i r) us).0 (use_stacks (given_back s used i r) us).1
    go none e same rest = same
    go (some sp) e same rest = rest (async_free_stack s sp) (remove_at used i) (
        async_free_stack-Placed s used (remove_at used i) sp v
          (λ a. (times-remove_at used i sp a e).0) (times-remove_at used i sp 0 e).1)

-- From the start of the engine on, whatever tasks take and give back their stacks: every stack that
-- was mapped is in the pool or with one task, in one place only, and the pool has a free place for
-- each stack that a task has, so that none is lost when it comes back.
pub stacks-Placed :
    (us : List Use)
    → Placed (use_stacks (start_stacks, []) us).0 (use_stacks (start_stacks, []) us).1
stacks-Placed us = uses-Placed us start_stacks [] start_stacks-Placed
