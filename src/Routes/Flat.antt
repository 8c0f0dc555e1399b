-- ===== src/Routes/Flat.antt =====
-- A tree of server/http.c whose routes have one segment each, as those of app/app.c: the root and
-- its children, which have none. `http_resolve_path` on it against a table of the children.
pub mod Refine
use mathlib.Core.Path.{subst}
use tiny_https_server.Prelude.{
  ℕ, zero, suc, ◌+◌, ◌-◌, ◌≤◌, ◌<◌, ◌≡◌, refl, sym, ap, ◌∙◌, Bool, true, false, ◌&&◌, not, ◌⊎◌, inl,
  inr, Option, none, some, List, [], ◌∷◌, ◌++◌, arith, ltb, ◌==◌, if◌then◌else◌, length, drop,
  get_or, Bytes, starts_with, str_eq, str_eq_sound, Bool-cases, Option-cases,
}
use tiny_https_server.Routes.{
  Store, PathName, Match, whole, part, nothing, node, at_slash, skip_slashes, skip_segment,
  find_child, resolve_loop, http_resolve_path,
}
use tiny_https_server.Routes.Resolve.{
  at_slash-skip_slashes, resolve-end, resolve-whole, resolve-part, resolve-nothing,
  length-skip_slashes,
}

-- The first segment, up to a slash or the end.
unfoldable pub take_segment : Bytes → Bytes
take_segment [] = []
take_segment (c ∷ s) = let rest = take_segment s in if c == b'/' then [] else c ∷ rest

abbrev pub has_slash : Bytes → Bool
has_slash [] = false
has_slash (c ∷ s) = if c == b'/' then true else has_slash s

abbrev pub is_nil : Bytes → Bool
is_nil [] = true
is_nil (c ∷ s) = false

-- A segment of a path: not empty and without a slash.
abbrev pub IsSegment : Bytes → Type 0
IsSegment p = (is_nil p ≡ false) × (has_slash p ≡ false)

-- `n` indices from `k` on.
abbrev pub indices : ℕ → ℕ → List ℕ
indices k zero = []
indices k (suc n) = k ∷ indices (suc k) n

-- What stands for `*remaining`.
abbrev pub remaining : Bytes → Option Bytes
remaining [] = none
remaining (c ∷ s) = some (c ∷ s)

abbrev pub route_to : Bytes → Option ℕ → ℕ × Option Bytes
route_to rest none = (0, some rest)
route_to rest (some i) = (i, remaining (skip_slashes (skip_segment rest)))

module _ {H : Type 0} where
  -- The children have a segment each and no children of their own.
  abbrev pub AreLeaves : List (PathName H) → Type 0
  AreLeaves [] = Unit {0}
  AreLeaves (l ∷ ls) = (l.paths ≡ []) × IsSegment l.path × AreLeaves ls

  -- The tree of a root with these children.
  abbrev pub flat : PathName H → List (PathName H) → Store H
  flat root leaves = record root { paths = indices 1 (length leaves) } ∷ leaves

  -- The index of the child that has the segment as its path.
  unfoldable pub lookup : ℕ → List (PathName H) → Bytes → Option ℕ
  lookup k [] seg = none
  lookup k (l ∷ ls) seg = if str_eq seg l.path then some k else lookup (suc k) ls seg

  -- The table's answer: the root for a path of slashes; else the child of the first segment, with
  -- the rest of the path as suffix; else the root, with the whole path.
  unfoldable pub route : List (PathName H) → Bytes → ℕ × Option Bytes
  route leaves path =
      let rest = skip_slashes path in
      if is_nil rest then (0, none) else route_to rest (lookup 1 leaves (take_segment rest))

  -- The leaves stand in the store from index `k` on.
  abbrev pub Stand : Store H → ℕ → List (PathName H) → Type 0
  Stand s k [] = Unit {0}
  Stand s k (l ∷ ls) = (node s k ≡ l) × Stand s (suc k) ls

  Stand-cons :
      (r : PathName H) (s : Store H) (k : ℕ) (ls : List (PathName H))
      → Stand s k ls
      → Stand (r ∷ s) (suc k) ls
  Stand-cons r s k [] v = tt
  Stand-cons r s k (l ∷ ls) v = (v.0, Stand-cons r s (suc k) ls v.1)

  pub Stand-self : (ls : List (PathName H)) → Stand ls 0 ls
  Stand-self [] = tt
  Stand-self (l ∷ ls) = (refl, Stand-cons l ls 0 ls (Stand-self ls))

  pub Stand-flat : (root : PathName H) (ls : List (PathName H)) → Stand (flat root ls) 1 ls
  Stand-flat root ls = Stand-cons _ ls 0 ls (Stand-self ls)
