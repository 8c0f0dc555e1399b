-- ===== src/Build/Contexts.antt =====
-- cb.h: the stack of contexts, as functions that push one, take memory, and pop it use it.
use mathlib.Core.Path.{subst}
use native.Mathlib.Decide.{dec_lt, ℕ_discrete}
use tiny_https_server.Prelude.{
  ℕ, zero, suc, ◌+◌, ◌-◌, ◌≤◌, ◌<◌, ◌≡◌, ◌≢◌, refl, sym, ap, ◌∙◌, true, false, List, [], ◌∷◌,
  if◌then◌else◌, arith, leb, ◌==◌, length, get_or, set, Bytes, length-set, get_or-set_self,
  get_or-set_any, ltb, ◌^◌, ◌%◌, inl, inr, get_or-set_ne, Bool-cases,
}
use tiny_https_server.Build.Pieces.{reserve_reserved}
use tiny_https_server.Build.{
  align_to_word_size, Arena, no_arena, reserve, arena_get_memory, arena_flush, ArenaContext,
  no_context, ContextStack, context_get_memory, context_push, context_pop,
}

-- What a function does with the stack: it takes memory, and enters and leaves contexts.
pub data Body : Type 0 where
  ends : Body
  gets : ℕ → Body → Body
  inside : Bytes → Body → Body → Body

abbrev pub run : List ArenaContext → ContextStack → Body → ContextStack
run junk s ends = s
run junk s (gets n b) = run junk (context_get_memory s n).1 b
run junk s (inside name b rest) =
    run junk (context_pop (run junk (context_push s junk name).1 b)).1 rest

-- The contexts of the body fit into `n` free slots, and their names into 256 bytes.
abbrev pub Fits : ℕ → Body → Type 0
Fits n ends = Unit {0}
Fits n (gets k b) = Fits n b
Fits zero (inside name b rest) = 1 ≤ 0
Fits (suc n) (inside name b rest) = (length name < 256) × Fits n b × Fits (suc n) rest

abbrev pub slot : ContextStack → ℕ → ArenaContext
slot s i = get_or s.contexts i no_context

-- The number of contexts whose arena is reserved.
abbrev pub reserved_of : ArenaContext → ℕ
reserved_of c = if c.arena.reserved then 1 else 0

abbrev pub reserved_in : List ArenaContext → ℕ
reserved_in [] = 0
reserved_in (c ∷ cs) = reserved_of c + reserved_in cs

reserved_in-set :
    (cs : List ArenaContext) (k : ℕ) (c : ArenaContext)
    → k < length cs
    → reserved_in (set cs k c) + reserved_of (get_or cs k no_context)
      ≡ reserved_in cs + reserved_of c
reserved_in-set [] k c lt = absurd (omega arith)
reserved_in-set (d ∷ cs) zero c lt = omega arith
reserved_in-set (d ∷ cs) (suc k) c lt = omega (arith, reserved_in-set cs k c (omega arith))

reserved_in_same :
    (cs ds : List ArenaContext)
    → length cs ≡ length ds
    → ((i : ℕ) → get_or cs i no_context ≡ get_or ds i no_context)
    → reserved_in cs ≡ reserved_in ds
reserved_in_same [] [] h same = refl
reserved_in_same [] (d ∷ ds) h same = absurd (omega arith)
reserved_in_same (c ∷ cs) [] h same = absurd (omega arith)
reserved_in_same (c ∷ cs) (d ∷ ds) h same =
    let here : reserved_of c ≡ reserved_of d = ap reserved_of (same 0) in
    omega (arith, here, reserved_in_same cs ds (omega arith) (λ i. same (suc i)))

-- The slots are those of the size; the ones from `last` on are empty; a flush empties any arena;
-- and each mapping is that of one of the arenas.
pub record IsStack (s : ContextStack) : Type 0 where
  pub within : s.last ≤ s.size
  pub slots : length s.contexts ≡ s.size
  pub free : (i : ℕ) → s.last ≤ i → slot s i ≡ no_context
  pub clean : (i : ℕ) → arena_flush (slot s i).arena ≡ no_arena
  pub counted : s.mapped ≡ reserved_in s.contexts

-- The stack after a body: below the topmost context nothing has changed.
pub record Kept (s s' : ContextStack) : Type 0 where
  pub valid : IsStack s'
  pub size_eq : s'.size ≡ s.size
  pub last_eq : s'.last ≡ s.last
  pub below : (i : ℕ) → suc i < s.last → slot s' i ≡ slot s i

-- The stack after a whole context: it is as before, and as many arenas are mapped.
pub record Restored (s s' : ContextStack) : Type 0 where
  pub mapped_eq : s'.mapped ≡ s.mapped
  pub size_eq : s'.size ≡ s.size
  pub last_eq : s'.last ≡ s.last
  pub same : (i : ℕ) → slot s' i ≡ slot s i

flush_given : (a : Arena) (n : ℕ) → arena_flush (arena_get_memory a n).1 ≡ no_arena
unfolding arena_flush arena_get_memory
flush_given a n =
    elim (Bool-cases (
      ltb (((reserve a).size + 2 ^ 64 - (reserve a).free_offset) % 2 ^ 64)
        (align_to_word_size n))) [
          | inl e ↦ simp (e, reserve_reserved a)
          | inr e ↦ simp (e, reserve_reserved a)
        ]

abbrev put : ContextStack → ℕ → ArenaContext → ContextStack
put s k c = record s { contexts = set s.contexts k c }

abbrev given_to : ContextStack → ℕ → ℕ → ContextStack
given_to s k n =
    record (put s k (record (slot s k) { arena = (arena_get_memory (slot s k).arena n).1 })) {
      mapped = if (slot s k).arena.reserved then s.mapped else s.mapped + 1;
    }

given_flag : (a : Arena) (n : ℕ) → (arena_get_memory a n).1.reserved ≡ true
unfolding arena_get_memory
given_flag a n =
    elim (Bool-cases (
      ltb (((reserve a).size + 2 ^ 64 - (reserve a).free_offset) % 2 ^ 64)
        (align_to_word_size n))) [
          | inl e ↦ simp (e, reserve_reserved a)
          | inr e ↦ simp (e, reserve_reserved a)
        ]

given_reserved :
    (c : ArenaContext) (n : ℕ)
    → reserved_of (record c { arena = (arena_get_memory c.arena n).1 }) ≡ 1
given_reserved c n = ap (λ b. if b then 1 else 0) (given_flag c.arena n)

get_top :
    (s : ContextStack) (k n : ℕ) → s.last ≡ suc k → (context_get_memory s n).1 ≡ given_to s k n
unfolding context_get_memory
get_top s k n e =
    let used : (s.last == 0) ≡ false = ground arith in
    let at : s.last - 1 ≡ k = omega arith in simp (used, at)

get_none : (s : ContextStack) (n : ℕ) → s.last ≡ 0 → (context_get_memory s n).1 ≡ s
unfolding context_get_memory
get_none s n e = let none' : (s.last == 0) ≡ true = ground arith in simp none'

get_memory-Kept : (s : ContextStack) (n : ℕ) → IsStack s → Kept s (context_get_memory s n).1
get_memory-Kept s n v = elim (ℕ_discrete s.last 0) [
  | yes e ↦
      subst (Kept s) (sym (get_none s n e))
        (record { valid = v; size_eq = refl; last_eq = refl; below = λ i lt. refl })
  | no ne ↦
      let k = s.last - 1 in
      let e : s.last ≡ suc k = omega arith in subst (Kept s) (sym (get_top s k n e)) (given k e)
]
  where
    given : (k : ℕ) → s.last ≡ suc k → Kept s (given_to s k n)
    given k e =
        let lt : k < length s.contexts = omega (arith, v.within, v.slots) in
        record {
          valid = record {
            within = v.within;
            slots = length-set s.contexts k _ ∙ v.slots;
            free = λ i le.
                get_or-set_any (λ c. c ≡ no_context) s.contexts k _ i no_context lt
                  (λ at. absurd (omega arith)) (λ _. v.free i le);
            clean = λ i.
                get_or-set_any (λ (c : ArenaContext). arena_flush c.arena ≡ no_arena) s.contexts k _
                  i no_context lt (λ _. flush_given (slot s k).arena n) (λ _. v.clean i);
            counted = ground (
              arith,
              v.counted,
              given_reserved (slot s k) n,
              reserved_in-set s.contexts k
                  (record (slot s k) { arena = (arena_get_memory (slot s k).arena n).1 }) lt,
            );
          };
          size_eq = refl;
          last_eq = refl;
          below = λ i h. get_or-set_ne s.contexts k i _ no_context (λ at. omega arith);
        }

module _ (s : ContextStack) (junk : List ArenaContext) (name : Bytes) (v : IsStack s)
    (lt : s.last < s.size) (short : length name < 256) where
  abbrev pushed : ContextStack
  pushed = record s {
    last = s.last + 1;
    contexts = set s.contexts s.last (record (slot s s.last) { context = name });
  }

  push_lem : (context_push s junk name).1 ≡ pushed
  unfolding context_push
  push_lem =
      let short' : leb 256 (length name) ≡ false = ground arith in
      let room : (s.last == s.size) ≡ false = ground arith in simp (room, short')

  pushed-IsStack : IsStack pushed
  pushed-IsStack =
      let lt' : s.last < length s.contexts = omega (arith, v.slots) in
      record {
        within = omega arith;
        slots = length-set s.contexts s.last _ ∙ v.slots;
        free = λ i le.
            get_or-set_any (λ c. c ≡ no_context) s.contexts s.last _ i no_context lt'
              (λ at. absurd (omega arith)) (λ _. v.free i (omega arith));
        clean = λ i.
            get_or-set_any (λ (c : ArenaContext). arena_flush c.arena ≡ no_arena) s.contexts s.last
              _ i no_context lt' (λ _. v.clean s.last) (λ _. v.clean i);
        counted = omega (
          arith,
          v.counted,
          reserved_in-set s.contexts s.last (record (slot s s.last) { context = name }) lt',
        );
      }

  pushed_below : (i : ℕ) → i ≢ s.last → slot pushed i ≡ slot s i
  pushed_below i ne = get_or-set_ne s.contexts s.last i _ no_context (λ at. ne (sym at))

module _ (s : ContextStack) (k : ℕ) (v : IsStack s) (e : s.last ≡ suc k) where
  abbrev popped : ContextStack
  popped = record s {
    mapped = if (slot s k).arena.reserved then s.mapped - 1 else s.mapped;
    last = k;
    contexts = set s.contexts k (record { context = []; arena = arena_flush (slot s k).arena });
  }

  pop_lem : (context_pop s).1 ≡ popped
  unfolding context_pop
  pop_lem =
      let used : (s.last == 0) ≡ false = ground arith in
      let at : s.last - 1 ≡ k = omega arith in simp (used, at)

  popped_self : slot popped k ≡ no_context
  popped_self =
      get_or-set_self s.contexts k _ no_context (omega (arith, v.slots, v.within))
      ∙ ap (λ a. record { context = []; arena = a }) (v.clean k)

  popped_counted : popped.mapped ≡ reserved_in popped.contexts
  popped_counted =
      let lt : k < length s.contexts = omega (arith, v.slots, v.within) in
      let none_left : reserved_of (record { context = []; arena = arena_flush (slot s k).arena })
          ≡ 0 =
        ap (λ a. reserved_of (record { context = []; arena = a })) (v.clean k) in
      ground (
        arith,
        v.counted,
        none_left,
        reserved_in-set s.contexts k (record { context = []; arena = arena_flush (slot s k).arena })
            lt,
      )

  popped_other : (i : ℕ) → i ≢ k → slot popped i ≡ slot s i
  popped_other i ne = get_or-set_ne s.contexts k i _ no_context (λ at. ne (sym at))

-- A context that is popped after a body.
module _ (s s' : ContextStack) (junk : List ArenaContext) (name : Bytes) (v : IsStack s)
    (lt : s.last < s.size) (short : length name < 256)
    (kept : Kept (pushed s junk name v lt short) s') where
  open kept use {valid}

  one_more : s'.last ≡ suc s.last
  one_more = omega (arith, kept.last_eq)

  slot_back : (i : ℕ) → slot (popped s' s.last valid one_more) i ≡ slot s i
  slot_back i = elim (ℕ_discrete i s.last) [
    | yes at ↦
        ap (slot (popped s' s.last valid one_more)) at
        ∙ popped_self s' s.last valid one_more
        ∙ sym (v.free i (omega arith))
    | no ne ↦ popped_other s' s.last valid one_more i ne ∙ (elim (dec_lt i s.last) [
      | yes below ↦ kept.below i (omega arith) ∙ pushed_below s junk name v lt short i ne
      | no above ↦ valid.free i (omega (arith, one_more)) ∙ sym (v.free i (omega arith))
    ])
  ]

  whole-Restored : Restored s (popped s' s.last valid one_more)
  whole-Restored = record {
    mapped_eq =
        popped_counted s' s.last valid one_more
        ∙ reserved_in_same (popped s' s.last valid one_more).contexts s.contexts
            (length-set s'.contexts s.last _ ∙ valid.slots ∙ kept.size_eq ∙ sym v.slots) slot_back
        ∙ sym v.counted;
    size_eq = kept.size_eq;
    last_eq = refl;
    same = slot_back;
  }

  whole-Kept : Kept s (popped s' s.last valid one_more)
  whole-Kept = record {
    valid = record {
      within = omega (arith, kept.size_eq);
      slots = length-set s'.contexts s.last _ ∙ valid.slots;
      free = λ i le. slot_back i ∙ v.free i le;
      clean = λ i. ap (λ (c : ArenaContext). arena_flush c.arena) (slot_back i) ∙ v.clean i;
      counted = popped_counted s' s.last valid one_more;
    };
    size_eq = kept.size_eq;
    last_eq = refl;
    below = λ i h. slot_back i;
  }

module _ (s : ContextStack) (junk : List ArenaContext) (name : Bytes) (v : IsStack s)
    (lt : s.last < s.size) (short : length name < 256) (b : Body)
    (kept : Kept (pushed s junk name v lt short) (run junk (pushed s junk name v lt short) b)) where
  abbrev body_end : ContextStack
  body_end = run junk (pushed s junk name v lt short) b

  left_lem :
      (context_pop (run junk (context_push s junk name).1 b)).1
      ≡ popped body_end s.last kept.valid (one_more s body_end junk name v lt short kept)
  left_lem =
      ap (λ q. (context_pop (run junk q b)).1) (push_lem s junk name v lt short)
      ∙ pop_lem body_end s.last kept.valid (one_more s body_end junk name v lt short kept)

  left-Restored : Restored s (context_pop (run junk (context_push s junk name).1 b)).1
  left-Restored =
      subst (Restored s) (sym left_lem) (whole-Restored s body_end junk name v lt short kept)

  left-Kept : Kept s (context_pop (run junk (context_push s junk name).1 b)).1
  left-Kept = subst (Kept s) (sym left_lem) (whole-Kept s body_end junk name v lt short kept)

Kept-trans : (s s' s'' : ContextStack) → Kept s s' → Kept s' s'' → Kept s s''
Kept-trans s s' s'' k k' = record {
  valid = k'.valid;
  size_eq = k'.size_eq ∙ k.size_eq;
  last_eq = k'.last_eq ∙ k.last_eq;
  below = λ i h. k'.below i (omega (arith, k.last_eq)) ∙ k.below i h;
}

-- A body leaves the contexts below the topmost one alone.
run-Kept :
    (junk : List ArenaContext) (s : ContextStack) (n : ℕ) (b : Body)
    → IsStack s
    → s.last + n ≤ s.size
    → Fits n b
    → Kept s (run junk s b)
run-Kept junk s n ends v h f = record {
  valid = v;
  size_eq = refl;
  last_eq = refl;
  below = λ i h. refl;
}
run-Kept junk s n (gets k b) v h f =
    let first = get_memory-Kept s k v in
    Kept-trans s (context_get_memory s k).1 (run junk s (gets k b)) first (
      run-Kept junk (context_get_memory s k).1 n b first.valid
        (omega (arith, first.last_eq, first.size_eq)) f)
run-Kept junk s zero (inside name b rest) v h f = absurd (omega arith)
run-Kept junk s (suc n) (inside name b rest) v h (short, fb, fr) =
    let lt : s.last < s.size = omega arith in
    let q = pushed s junk name v lt short in
    let body = run-Kept junk q n b (pushed-IsStack s junk name v lt short) (omega arith) fb in
    let mid = left-Kept s junk name v lt short b body in
    let s' = (context_pop (run junk (context_push s junk name).1 b)).1 in
    Kept-trans s s' (run junk s' rest) mid
      (run-Kept junk s' (suc n) rest mid.valid (omega (arith, mid.last_eq, mid.size_eq)) fr)

-- A function that pushes a context, does what it does, contexts of the functions that it calls
-- included, and pops it leaves the stack as it was, with as many arenas mapped as before, where the
-- stack has slots for them, their names have less than 256 bytes, and each mapping before was that
-- of an arena of the stack.
pub inside-Restored :
    (junk : List ArenaContext) (s : ContextStack) (n : ℕ) (name : Bytes) (b : Body)
    → IsStack s
    → s.last + suc n ≤ s.size
    → length name < 256
    → Fits n b
    → Restored s (run junk s (inside name b ends))
inside-Restored junk s n name b v h short f =
    let lt : s.last < s.size = omega arith in
    let q = pushed s junk name v lt short in
    left-Restored s junk name v lt short b
      (run-Kept junk q n b (pushed-IsStack s junk name v lt short) (omega arith) f)
