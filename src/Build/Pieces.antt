-- ===== src/Build/Pieces.antt =====
-- cb.h: the pieces of memory that an arena gives.
use mathlib.Core.Path.{subst}
use native.Mathlib.Decide.{dec_lt}
use tiny_https_server.Prelude.{
  ℕ, ◌+◌, ◌-◌, ◌%◌, ◌^◌, ◌≤◌, ◌<◌, ◌≡◌, refl, inl, inr, true, Option, none, some, List, [], ◌∷◌,
  arith, Bool-cases, lt→ltb, le→ltb,
}
use tiny_https_server.Build.{Arena, align_to_word_size, reserve, arena_get_memory}

-- A size is rounded up to the next multiple of eight, and to eight at least.
pub align_lem :
    (n : ℕ)
    → n + 7 < 2 ^ 64
    → (align_to_word_size n % 8 ≡ 0)
      × (n ≤ align_to_word_size n)
      × (0 < align_to_word_size n)
      × (align_to_word_size n ≤ n + 8)
unfolding align_to_word_size
align_lem n h = (ground arith, ground arith, ground arith, ground arith)

-- An arena that is not reserved, or whose free part starts at a word inside it.
pub record IsArena (a : Arena) : Type 0 where
  pub below : a.free_offset ≤ a.size
  pub bounded : a.size < 2 ^ 63
  pub aligned : a.free_offset % 8 ≡ 0

pub reserve-IsArena : (a : Arena) → IsArena a → IsArena (reserve a)
unfolding reserve
reserve-IsArena a v = elim (Bool-cases a.reserved) as (λ _. IsArena (reserve a)) [
  | inl e ↦ simp e v
  | inr e ↦ simp e (record { below = omega arith; bounded = omega arith; aligned = refl })
]

abbrev pub taken : Arena → ℕ → Arena
taken a n = record (reserve a) { free_offset = (reserve a).free_offset + align_to_word_size n }

module _ (a : Arena) (n : ℕ) (v : IsArena a) (h : n + 7 < 2 ^ 63) where
  abbrev r : Arena
  r = reserve a

  left : (r.size + 2 ^ 64 - r.free_offset) % 2 ^ 64 ≡ r.size - r.free_offset
  left = let w = reserve-IsArena a v in omega (arith, w.below, w.bounded)

  pub full_lem : r.size - r.free_offset < align_to_word_size n → arena_get_memory a n ≡ (none, r)
  unfolding arena_get_memory
  full_lem lt = simp (left, lt→ltb (r.size - r.free_offset) (align_to_word_size n) lt)

  pub room_lem :
      align_to_word_size n ≤ r.size - r.free_offset
      → arena_get_memory a n ≡ (some r.free_offset, taken a n)
  unfolding arena_get_memory
  room_lem le =
      let w = reserve-IsArena a v in
      let small : (r.free_offset + align_to_word_size n) % 2 ^ 64
          ≡ r.free_offset + align_to_word_size n =
        omega (arith, w.below, w.bounded) in
      simp (left, le→ltb (r.size - r.free_offset) (align_to_word_size n) le, small)

  pub taken-IsArena : align_to_word_size n ≤ r.size - r.free_offset → IsArena (taken a n)
  taken-IsArena le =
      let w = reserve-IsArena a v in
      record {
        below = omega (arith, w.below, le);
        bounded = w.bounded;
        aligned = omega (arith, w.aligned, (align_lem n (omega arith)).0);
      }

-- The pieces that a list of requests gets: the requested size, and the address if it is granted.
abbrev pub requests : Arena → List ℕ → List (ℕ × Option ℕ) × Arena
requests a [] = ([], a)
requests a (n ∷ ns) =
    let (addr, a') = arena_get_memory a n in
    let (pieces, a'') = requests a' ns in ((n, addr) ∷ pieces, a'')

-- Pieces from `at` on that end before `end'`: each starts at a word, at the end of those before it or
-- behind, and has the size of its request at least.
abbrev pub Apart : ℕ → ℕ → List (ℕ × Option ℕ) → Type 0
Apart at last [] = at ≤ last
Apart at last ((n, none) ∷ ps) = Apart at last ps
Apart at last ((n, some p) ∷ ps) = (at ≤ p) × (p % 8 ≡ 0) × Apart (p + n) last ps

abbrev pub Small : List ℕ → Type 0
Small [] = Unit {0}
Small (n ∷ ns) = (n + 7 < 2 ^ 63) × Small ns

earlier :
    (at at' last : ℕ) (ps : List (ℕ × Option ℕ)) → at ≤ at' → Apart at' last ps → Apart at last ps
earlier at at' last [] h p = omega arith
earlier at at' last ((n, none) ∷ ps) h p = earlier at at' last ps h p
earlier at at' last ((n, some q) ∷ ps) h (le, al, p) = (omega arith, al, p)

pub reserve_reserved : (a : Arena) → (reserve a).reserved ≡ true
unfolding reserve
reserve_reserved a = ground arith

pub reserve_same : (a : Arena) → a.reserved ≡ true → reserve a ≡ a
unfolding reserve
reserve_same a h = simp h

reserve_below : (a : Arena) → IsArena a → (reserve a).free_offset ≤ a.size
unfolding reserve
reserve_below a v = elim (Bool-cases a.reserved) as (λ _. (reserve a).free_offset ≤ a.size) [
  | inl e ↦ simp e v.below
  | inr e ↦ simp e (omega arith)
]

-- From the start of the free part on, whatever is asked for, of sizes below 2 ^ 63 - 7: the pieces
-- that an arena gives start at a word, do not overlap, and end inside the arena, which stays one.
pub requests-Apart :
    (a : Arena) (ns : List ℕ)
    → IsArena a
    → Small ns
    → IsArena (requests a ns).1
      × Apart (reserve a).free_offset (requests a ns).1.size (requests a ns).0
requests-Apart a [] v h = (v, reserve_below a v)
requests-Apart a (n ∷ ns) v (hn, h) =
    elim (dec_lt ((reserve a).size - (reserve a).free_offset) (align_to_word_size n)) [
      | yes small ↦
          let (w, p) = requests-Apart (reserve a) ns (reserve-IsArena a v) h in
          let same : reserve (reserve a) ≡ reserve a =
            reserve_same (reserve a) (reserve_reserved a) in
          rw (full_lem a n v hn small) (
            w,
            subst
                (λ q.
                  Apart q.free_offset (requests (reserve a) ns).1.size (requests (reserve a) ns).0)
                same p,
          )
      | no big ↦
          let fits : align_to_word_size n ≤ (reserve a).size - (reserve a).free_offset =
            omega arith in
          let t = taken a n in
          let (w, p) = requests-Apart t ns (taken-IsArena a n v hn fits) h in
          let same : reserve t ≡ t = reserve_same t (reserve_reserved a) in
          rw (room_lem a n v hn fits) (
            w,
            (
              omega arith,
              (reserve-IsArena a v).aligned,
              earlier ((reserve a).free_offset + n) t.free_offset (requests t ns).1.size
                  (requests t ns).0 (omega (arith, (align_lem n (omega arith)).1))
                  (subst (λ q. Apart q.free_offset (requests t ns).1.size (requests t ns).0) same
                    p),
            ),
          )
    ]
