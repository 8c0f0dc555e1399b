-- ===== src/Build/Text.antt =====
-- cb.h: what the strings hold.
use mathlib.Core.Path.{subst}
use tiny_https_server.Prelude.{
  ℕ, zero, suc, ◌+◌, ◌-◌, ◌^◌, ◌≤◌, ◌<◌, ◌≡◌, refl, sym, ap, ◌∙◌, ◌⊎◌, inl, inr, true, false,
  Option, none, some, [], ◌∷◌, ◌++◌, arith, ltb, ◌==◌, if◌then◌else◌, length, set, take, drop,
  Bytes, length-replicate, get_or-set_self, length-set, le→ltb,
}
use tiny_https_server.Prelude.Run.{done}
use tiny_https_server.Session.Fields.{IsText}
use tiny_https_server.Build.{
  Arena, align_to_word_size, reserve, ArenaContext, ContextStack, no_context, context_get_memory,
}
use tiny_https_server.Build.Pieces.{
  IsArena, taken, room_lem, taken-IsArena, reserve_same, reserve_reserved,
}
use tiny_https_server.Build.Contexts.{slot}
use tiny_https_server.Build.Strings.{
  Str, zeros, terminate, bytes_of, string_realloc_memory, string_expand, strcat,
}

-- The arena of the topmost context.
abbrev pub top_arena : ContextStack → Arena
top_arena s = (slot s (s.last - 1)).arena

-- There is a context, and `n` bytes are left in its arena.
pub record Ready (s : ContextStack) (n : ℕ) : Type 0 where
  pub some_context : 0 < s.last
  pub inside : s.last ≤ length s.contexts
  pub arena : IsArena (top_arena s)
  pub room : n ≤ (reserve (top_arena s)).size - (reserve (top_arena s)).free_offset

-- Memory for `n` bytes is given, and leaves what it does not take.
pub get_memory-Ready :
    (s : ContextStack) (n r : ℕ)
    → n + 7 < 2 ^ 63
    → Ready s (align_to_word_size n + r)
    → (at : ℕ) × (s' : ContextStack) × (context_get_memory s n ≡ (some at, s')) × Ready s' r
unfolding context_get_memory
get_memory-Ready s n r small v =
    let used : (s.last == 0) ≡ false = ground (arith, v.some_context) in
    let a = top_arena s in
    let fits : align_to_word_size n ≤ (reserve a).size - (reserve a).free_offset =
      omega (arith, v.room) in
    let s' = record s {
      mapped = if a.reserved then s.mapped else s.mapped + 1;
      contexts = set s.contexts (s.last - 1) (record (slot s (s.last - 1)) { arena = taken a n });
    } in
    let at_top : top_arena s' ≡ taken a n =
      ap (λ (c : ArenaContext). c.arena)
        (get_or-set_self s.contexts (s.last - 1) _ no_context
          (omega (arith, v.some_context, v.inside))) in
    let left : r ≤ (taken a n).size - (taken a n).free_offset = omega (arith, v.room) in
    let same : reserve (taken a n) ≡ taken a n = reserve_same (taken a n) (reserve_reserved a) in
    (
      (reserve a).free_offset,
      s',
      simp (used, room_lem a n v.arena small fits),
      record {
        some_context = v.some_context;
        inside = omega (
          arith,
          v.inside,
          length-set s.contexts (s.last - 1) (record (slot s (s.last - 1)) { arena = taken a n }),
        );
        arena = subst IsArena (sym at_top) (taken-IsArena a n v.arena small fits);
        room =
            subst (λ q. r ≤ (reserve q).size - (reserve q).free_offset) (sym at_top)
              (subst (λ q. r ≤ q.size - q.free_offset) (sym same) left);
      },
    )

-- A string that holds a text: what is behind the text in its memory is zero, a byte at least.
pub record Holds (str : Str) (t : Bytes) : Type 0 where
  pub text : IsText t
  pub size_eq : str.size ≡ length t
  pub memory :
      ((str.memory ≡ none) × (str.capacity ≡ 0) × (t ≡ []))
      ⊎ ((str.memory ≡ some (t ++ zeros (str.capacity - length t))) × (length t < str.capacity))

drop-replicate : (n k : ℕ) → drop n (zeros k) ≡ zeros (k - n)
drop-replicate zero k = let e : k ≡ k - 0 = omega arith in ap zeros e
drop-replicate (suc n) zero = let e : 0 ≡ 0 - suc n = omega arith in ap zeros e
drop-replicate (suc n) (suc k) =
    let e : k - n ≡ suc k - suc n = omega arith in drop-replicate n k ∙ ap zeros e

pub strcat_lem :
    (t d : Bytes) (k : ℕ)
    → IsText t
    → length d < k
    → strcat (t ++ zeros k) d ≡ some (t ++ (d ++ zeros (k - length d)))
strcat_lem [] d zero v h = absurd (omega arith)
strcat_lem [] d (suc k) v h =
    let room : ltb (length (zeros k)) (length d) ≡ false =
      le→ltb (length (zeros k)) (length d) (omega (arith, length-replicate {A = ℕ} k 0)) in
    let e : suc (k - length d) ≡ suc k - length d = omega arith in
    simp room
      (ap (λ z. some (d ++ 0 ∷ z)) (drop-replicate (length d) k) ∙ ap (λ j. some (d ++ zeros j)) e)
strcat_lem (b ∷ t) d k (pos, v) h =
    let ne : (b == 0) ≡ false = ground arith in rw (ne, strcat_lem t d k v h) refl

take-append : (t z : Bytes) → take (length t) (t ++ z) ≡ t
take-append [] z = refl
take-append (b ∷ t) z = ap (◌∷◌ b) (take-append t z)

copied_lem : (str : Str) (t : Bytes) → Holds str t → take str.size (bytes_of str.memory) ≡ t
copied_lem str t h = elim h.memory [
  | inl (null, none', empty) ↦ rw (h.size_eq, null, empty) refl
  | inr (m, lt) ↦ rw (h.size_eq, m) (take-append t (zeros (str.capacity - length t)))
]

settle :
    (t : Bytes) (n size : ℕ)
    → size ≡ length t
    → length t < n
    → let z = some (t ++ zeros (n - length t)) in
      (if size == 0 then terminate z else done z) ≡ done z
settle [] zero size e lt = absurd (omega arith)
settle [] (suc n) size e lt =
    let none' : (size == 0) ≡ true = ground arith in
    let all : suc n - 0 ≡ suc n = omega arith in rw (all, none') refl
settle (b ∷ t) n size e lt = let some' : (size == 0) ≡ false = ground arith in simp some'

realloc_lem :
    (s s' : ContextStack) (addr : Option Bytes) (size cap at : ℕ) (t : Bytes)
    → context_get_memory s cap ≡ (some at, s')
    → take size (bytes_of addr) ≡ t
    → length t < cap
    → string_realloc_memory s addr size cap ≡ done (some (t ++ zeros (cap - length t)), s')
unfolding string_realloc_memory
realloc_lem s s' addr size c at t got copied lt =
    let fits : ltb c (length t) ≡ false = le→ltb c (length t) (omega arith) in
    simp (string_realloc_memory, got, copied, fits)

-- A string that is expanded keeps its text.
pub expand_lem :
    (s : ContextStack) (str : Str) (t : Bytes) (inc r : ℕ)
    → Holds str t
    → str.capacity + inc + 7 < 2 ^ 63
    → length t < str.capacity + inc
    → Ready s (align_to_word_size (str.capacity + inc) + r)
    → (s' : ContextStack) × (string_expand s str inc
        ≡ done (
          record str {
            capacity = str.capacity + inc;
            memory = some (t ++ zeros (str.capacity + inc - length t));
          },
          s',
        ))
      × Ready s' r
unfolding string_expand
expand_lem s str t inc r h small lt v =
    let (at, s', got, v') = get_memory-Ready s (str.capacity + inc) r small v in
    let cap = str.capacity + inc in
    (
      s',
      simp (
        realloc_lem s s' str.memory str.size cap at t got (copied_lem str t h) lt,
        settle t cap str.size h.size_eq lt,
      ),
      v',
    )
