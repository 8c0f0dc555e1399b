-- ===== src/Routes/Flat/Refine.antt =====
-- `http_resolve_path` of server/http.c on a tree of routes with one segment each.
use mathlib.Core.Path.{subst}
use tiny_https_server.Prelude.{
  ℕ, suc, ◌<◌, ◌≡◌, refl, sym, ap, ◌∙◌, Bool, true, false, ◌&&◌, not, inl, inr, Option, none, some,
  List, [], ◌∷◌, arith, ◌==◌, if◌then◌else◌, length, drop, Bytes, starts_with, str_eq, str_eq_sound,
  Bool-cases,
}
use tiny_https_server.Routes.{
  Store, PathName, Match, whole, part, nothing, node, at_slash, skip_slashes, skip_segment,
  find_child, resolve_loop, http_resolve_path,
}
use tiny_https_server.Routes.Resolve.{
  skip_slashes-nil, resolve-end, resolve-whole, resolve-part, resolve-nothing, length-skip_slashes,
}
use tiny_https_server.Routes.Flat.{
  take_segment, has_slash, is_nil, indices, AreLeaves, flat, lookup, remaining, route_to, route,
  Stand, Stand-flat,
}

-- The two tests of the loop over the children, at a child with a segment for its path.
part_test :
    (p rest : Bytes)
    → has_slash p ≡ false
    → (starts_with rest p && at_slash (drop (length p) rest))
      ≡ (str_eq (take_segment rest) p && at_slash (skip_segment rest))
unfolding take_segment skip_segment
part_test [] [] h = refl
part_test [] (c ∷ cs) h = ground arith
part_test (q ∷ p) [] h = refl
part_test (q ∷ p) (c ∷ cs) h = ground (arith, part_test p cs)

whole_test :
    (p rest : Bytes)
    → has_slash p ≡ false
    → (starts_with rest p && (length rest == length p))
      ≡ (str_eq (take_segment rest) p && is_nil (skip_segment rest))
unfolding take_segment skip_segment
whole_test [] [] h = refl
whole_test [] (c ∷ cs) h = ground arith
whole_test (q ∷ p) [] h = refl
whole_test (q ∷ p) (c ∷ cs) h = ground (arith, whole_test p cs)

slash_or_end : (s : Bytes) → at_slash (skip_segment s) ≡ not (is_nil (skip_segment s))
unfolding skip_segment
slash_or_end [] = refl
slash_or_end (c ∷ s) = ground (arith, slash_or_end s)

drop-take_segment : (s : Bytes) → drop (length (take_segment s)) s ≡ skip_segment s
unfolding take_segment skip_segment
drop-take_segment [] = refl
drop-take_segment (c ∷ s) = ground (arith, drop-take_segment s)

slash-length : (p rest : Bytes) → at_slash (drop (length p) rest) ≡ true → length p < length rest
slash-length [] [] h = cc
slash-length [] (c ∷ cs) h = omega arith
slash-length (q ∷ p) [] h = cc
slash-length (q ∷ p) (c ∷ cs) h = omega (arith, slash-length p cs h)

abbrev found : Bytes → Option ℕ → Match
found rest none = nothing
found rest (some i) = if is_nil (skip_segment rest) then whole i else part i

nil_eq : (s : Bytes) → is_nil s ≡ true → s ≡ []
nil_eq [] h = refl
nil_eq (c ∷ s) h = cc

module _ {H : Type 0} where
  find_child-nil : (s : Store H) (rest : Bytes) → find_child s [] rest ≡ nothing
  unfolding find_child
  find_child-nil s rest = refl

  find_child_flat :
      (s : Store H) (k : ℕ) (ls : List (PathName H)) (rest : Bytes)
      → Stand s k ls
      → AreLeaves ls
      → find_child s (indices k (length ls)) rest ≡ found rest (lookup k ls (take_segment rest))
  unfolding find_child lookup
  find_child_flat s k [] rest st a = refl
  find_child_flat s k (l ∷ ls) rest st a = ground (
    arith,
    find_child_flat s (suc k) ls rest st.1 a.2,
    part_test l.path rest a.1.1,
    whole_test l.path rest a.1.1,
    slash_or_end rest,
    slash-length l.path rest,
  )

  -- What a hit of the table says of the node.
  pub lookup_hit :
      (s : Store H) (k : ℕ) (ls : List (PathName H)) (seg : Bytes) (i : ℕ)
      → Stand s k ls
      → AreLeaves ls
      → lookup k ls seg ≡ some i
      → (seg ≡ (node s i).path) × ((node s i).paths ≡ [])
  unfolding lookup
  lookup_hit s k [] seg i st a e = cc
  lookup_hit s k (l ∷ ls) seg i st a e = elim (Bool-cases (str_eq seg l.path)) [
    | inl hit ↦
        let same : k ≡ i = ground arith in
        subst (λ n. (seg ≡ (node s n).path) × ((node s n).paths ≡ [])) same
          (
            str_eq_sound seg l.path hit ∙ sym (ap (λ (n : PathName H). n.path) st.0),
            ap (λ (n : PathName H). n.paths) st.0 ∙ a.0,
          )
    | inr miss ↦ lookup_hit s (suc k) ls seg i st.1 a.2 (ground arith)
  ]

  -- The round at a leaf, after a child was the first part of the rest.
  at_leaf :
      (fuel : ℕ) (s : Store H) (i : ℕ) (path : Bytes)
      → (node s i).paths ≡ []
      → resolve_loop (suc fuel) s i path ≡ some (i, remaining (skip_slashes path))
  at_leaf fuel s i path e = go (skip_slashes path) refl
    where
      go :
          (rest : Bytes)
          → skip_slashes path ≡ rest
          → resolve_loop (suc fuel) s i path ≡ some (i, remaining (skip_slashes path))
      go [] r = resolve-end fuel s i path r ∙ ap (λ q. some (i, remaining q)) (sym r)
      go (c ∷ cs) r =
          resolve-nothing fuel s i path c cs r (no_children (node s i).paths e)
          ∙ ap (λ q. some (i, remaining q)) (sym r)
        where
          no_children : (cs' : List ℕ) → cs' ≡ [] → find_child s cs' (c ∷ cs) ≡ nothing
          no_children cs' r' = rw r' (find_child-nil s (c ∷ cs))

  module _ (root : PathName H) (leaves : List (PathName H)) (a : AreLeaves leaves) where
    at_root :
        (fuel : ℕ) (path : Bytes) (c : ℕ) (cs : Bytes) (hit : Option ℕ)
        → skip_slashes path ≡ c ∷ cs
        → lookup 1 leaves (take_segment (c ∷ cs)) ≡ hit
        → resolve_loop (suc (suc fuel)) (flat root leaves) 0 path ≡ some (route_to (c ∷ cs) hit)
    at_root fuel path c cs none e h = resolve-nothing (suc fuel) (flat root leaves) 0 path c cs e (
        find_child_flat (flat root leaves) 1 leaves (c ∷ cs) (Stand-flat root leaves) a
        ∙ ap (found (c ∷ cs)) h)
    at_root fuel path c cs (some i) e h = go (is_nil rest) refl
      where
        rest : Bytes
        rest = skip_segment (c ∷ cs)

        s : Store H
        s = flat root leaves

        hit : find_child s (node s 0).paths (c ∷ cs) ≡ (if is_nil rest then whole i else part i)
        hit = find_child_flat s 1 leaves (c ∷ cs) (Stand-flat root leaves) a ∙ ap (found (c ∷ cs)) h

        at : (take_segment (c ∷ cs) ≡ (node s i).path) × ((node s i).paths ≡ [])
        at = lookup_hit s 1 leaves (take_segment (c ∷ cs)) i (Stand-flat root leaves) a h

        dropped : drop (length (node s i).path) (c ∷ cs) ≡ rest
        dropped = subst (λ p. drop (length p) (c ∷ cs) ≡ rest) at.0 (drop-take_segment (c ∷ cs))

        go :
            (b : Bool)
            → is_nil rest ≡ b
            → resolve_loop (suc (suc fuel)) s 0 path ≡ some (i, remaining (skip_slashes rest))
        go true b =
            resolve-whole (suc fuel) s 0 path c cs e i
              (hit ∙ ap (λ t. if t then whole i else part i) b)
            ∙ ap (λ q. some (i, remaining q))
                (skip_slashes-nil ∙ ap skip_slashes (sym (nil_eq rest b)))
        go false b =
            resolve-part (suc fuel) s 0 path c cs e i
              (hit ∙ ap (λ t. if t then whole i else part i) b)
            ∙ ap (resolve_loop (suc fuel) s i) dropped
            ∙ at_leaf fuel s i rest at.1

    -- On a tree of routes with one segment each, `http_resolve_path` gives the table's answer.
    pub resolve_flat :
        (path : Bytes) → http_resolve_path (flat root leaves) 0 path ≡ some (route leaves path)
    unfolding http_resolve_path route
    resolve_flat path = go path (skip_slashes path) refl
      where
        go :
            (p rest : Bytes)
            → skip_slashes p ≡ rest
            → resolve_loop (suc (length p)) (flat root leaves) 0 p ≡ some (route leaves p)
        go p [] e = rw e (resolve-end (length p) (flat root leaves) 0 p e)
        go [] (c ∷ cs) e = absurd (omega (arith, ap length e, length-skip_slashes []))
        go (d ∷ ds) (c ∷ cs) e = rw e (at_root (length ds) (d ∷ ds) c cs _ e refl)
