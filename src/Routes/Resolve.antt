-- ===== src/Routes/Resolve.antt =====
-- `http_resolve_path` and `http_register_method` of server/http.c end on every tree and path, and
-- the node that a path resolves to is reached along the path.
use mathlib.Core.List.{append-nil}
use mathlib.Core.Path.{subst}
use tiny_https_server.Prelude.{
  ℕ, zero, suc, ◌≤◌, ◌<◌, ◌≡◌, refl, sym, ap, ◌≢◌, ◌∙◌, Bool, true, false, ◌⊎◌, inr, Option, none,
  some, List, [], ◌∷◌, ◌++◌, arith, length, drop, Bytes, starts_with, length-drop,
}
use tiny_https_server.Routes.{
  Store, Junk, Match, whole, part, nothing, node, at_slash, skip_slashes, skip_segment, find_child,
  resolve_loop, http_resolve_path, add_paths, http_register_method, Method, set_method,
}

pub length-skip_slashes : (s : Bytes) → length (skip_slashes s) ≤ length s
unfolding skip_slashes
length-skip_slashes [] = omega arith
length-skip_slashes (c ∷ s) = ground (arith, length-skip_slashes s)

pub skip_slashes-nil : [] ≡ skip_slashes []
unfolding skip_slashes
skip_slashes-nil = refl

pub at_slash-skip_slashes : (s : Bytes) → at_slash (skip_slashes s) ≡ false
unfolding skip_slashes
at_slash-skip_slashes [] = refl
at_slash-skip_slashes (c ∷ s) = ground (arith, at_slash-skip_slashes s)

pub length-skip_segment : (s : Bytes) → length (skip_segment s) ≤ length s
unfolding skip_segment
length-skip_segment [] = omega arith
length-skip_segment (c ∷ s) = ground (arith, length-skip_segment s)

-- One round of the loop that adds paths shortens what remains.
pub skip_shortens : (c : ℕ) (s : Bytes) → length (skip_slashes (skip_segment (c ∷ s))) ≤ length s
unfolding skip_slashes skip_segment
skip_shortens c s =
    ground
      (arith, length-skip_slashes s, length-skip_segment s, length-skip_slashes (skip_segment s))

starts_with-drop : (s p : Bytes) → starts_with s p ≡ true → s ≡ p ++ drop (length p) s
starts_with-drop s [] h = refl
starts_with-drop [] (q ∷ p) h = cc
starts_with-drop (c ∷ s) (q ∷ p) h = ground (arith, starts_with-drop s p)

starts_with-length : (s p : Bytes) → starts_with s p ≡ true → length s ≡ length p → s ≡ p
starts_with-length [] [] h e = refl
starts_with-length [] (q ∷ p) h e = cc
starts_with-length (c ∷ s) [] h e = absurd (omega arith)
starts_with-length (c ∷ s) (q ∷ p) h e = ground (arith, starts_with-length s p)

-- `i` stands in the list.
abbrev pub Among : ℕ → List ℕ → Type 0
Among i [] = ⊥
Among i (j ∷ js) = (i ≡ j) ⊎ Among i js

-- The child of a match, with what its path is of the rest.
abbrev pub Matches : {H : Type 0} → Store H → List ℕ → Bytes → Match → Type 0
Matches s children rest (whole c) = Among c children × (rest ≡ (node s c).path)
Matches s children rest (part c) =
    Among c children
    × (rest ≡ (node s c).path ++ drop (length (node s c).path) rest)
    × (at_slash (drop (length (node s c).path) rest) ≡ true)
Matches s children rest nothing = Unit {0}

drop_shortens :
    (p : Bytes) (c : ℕ) (cs : Bytes)
    → at_slash (c ∷ cs) ≡ false
    → at_slash (drop (length p) (c ∷ cs)) ≡ true
    → length (drop (length p) (c ∷ cs)) ≤ length cs
drop_shortens [] c cs f t = cc
drop_shortens (q ∷ p) c cs f t = omega (arith, length-drop (length p) cs)

-- What `*remaining` stands for: NULL if nothing is left.
abbrev pub left : Option Bytes → Bytes
left none = []
left (some r) = r

module _ {H : Type 0} where
  among_more :
      (s : Store H) (c : ℕ) (cs : List ℕ) (rest : Bytes) (m : Match)
      → Matches s cs rest m
      → Matches s (c ∷ cs) rest m
  among_more s c cs rest (whole d) v = (inr v.0, v.1)
  among_more s c cs rest (part d) v = (inr v.0, v.1, v.2)
  among_more s c cs rest nothing v = tt

  pub find_child-Matches :
      (s : Store H) (cs : List ℕ) (rest : Bytes) → Matches s cs rest (find_child s cs rest)
  unfolding find_child
  find_child-Matches s [] rest = tt
  find_child-Matches s (c ∷ cs) rest = ground (
    arith,
    among_more s c cs rest (find_child s cs rest) (find_child-Matches s cs rest),
    starts_with-drop rest (node s c).path,
    starts_with-length rest (node s c).path,
  )

  -- `j` is reached from `i` along the path `p`, by children whose paths it spells between slashes;
  -- `rest` is what is left of it.
  pub data Reaches (s : Store H) : ℕ → Bytes → ℕ → Bytes → Type 0 where
    stays : {i : ℕ} {p rest : Bytes} → rest ≡ skip_slashes p → Reaches s i p i rest
    goes :
        {i j : ℕ} {p rest : Bytes} (c : ℕ) (q : Bytes)
        → Among c (node s i).paths
        → skip_slashes p ≡ (node s c).path ++ q
        → Reaches s c q j rest
        → Reaches s i p j rest

  -- What a call of `http_resolve_path` promises: the node is reached along the path, and
  -- `*remaining` is the rest, which is then not empty, or NULL where nothing is left.
  pub record Resolves (s : Store H) (i : ℕ) (path : Bytes) (j : ℕ) (r : Option Bytes) : Type 0 where
    pub reached : Reaches s i path j (left r)
    pub more : r ≢ some []

  -- One round of `http_resolve_path`.
  module _ (fuel : ℕ) (s : Store H) (i : ℕ) (path : Bytes) where
    pub resolve-end : skip_slashes path ≡ [] → resolve_loop (suc fuel) s i path ≡ some (i, none)
    unfolding resolve_loop
    resolve-end e = rw (e, resolve_loop)

    module _ (c : ℕ) (cs : Bytes) (e : skip_slashes path ≡ c ∷ cs) where
      pub resolve-whole :
          (d : ℕ)
          → find_child s (node s i).paths (c ∷ cs) ≡ whole d
          → resolve_loop (suc fuel) s i path ≡ some (d, none)
      unfolding resolve_loop
      resolve-whole d f = rw (e, resolve_loop, f)

      pub resolve-part :
          (d : ℕ)
          → find_child s (node s i).paths (c ∷ cs) ≡ part d
          → resolve_loop (suc fuel) s i path
            ≡ resolve_loop fuel s d (drop (length (node s d).path) (c ∷ cs))
      unfolding resolve_loop
      resolve-part d f = rw (e, resolve_loop, f)

      pub resolve-nothing :
          find_child s (node s i).paths (c ∷ cs) ≡ nothing
          → resolve_loop (suc fuel) s i path ≡ some (i, some (c ∷ cs))
      unfolding resolve_loop
      resolve-nothing f = rw (e, resolve_loop, f)

  abbrev pub Resolved : ℕ → Store H → ℕ → Bytes → Type 0
  Resolved fuel s i path =
      (j : ℕ) × (r : Option Bytes) × (resolve_loop fuel s i path ≡ some (j, r))
      × Resolves s i path j r

  -- A child that is the first part of the rest has a path that is not empty.
  part_shortens :
      (s : Store H) (d : ℕ) (path : Bytes) (c : ℕ) (cs : Bytes)
      → skip_slashes path ≡ c ∷ cs
      → at_slash (drop (length (node s d).path) (c ∷ cs)) ≡ true
      → length (drop (length (node s d).path) (c ∷ cs)) < length path
  part_shortens s d path c cs e a =
      let no_slash : at_slash (c ∷ cs) ≡ false =
        subst (λ r. at_slash r ≡ false) e (at_slash-skip_slashes path) in
      let shorter = drop_shortens (node s d).path c cs no_slash a in
      omega (arith, shorter, ap length e, length-skip_slashes path)

  resolve_step :
      (fuel : ℕ) (s : Store H) (i : ℕ) (path : Bytes) (c : ℕ) (cs : Bytes) (m : Match)
      → length path < suc fuel
      → skip_slashes path ≡ c ∷ cs
      → find_child s (node s i).paths (c ∷ cs) ≡ m
      → Matches s (node s i).paths (c ∷ cs) m
      → ((i' : ℕ) (path' : Bytes) → length path' < fuel → Resolved fuel s i' path')
      → Resolved (suc fuel) s i path
  resolve_step fuel s i path c cs (whole d) lt e f v rec = (
    d,
    none,
    resolve-whole fuel s i path c cs e d f,
    record {
      reached = goes d [] v.0 (e ∙ v.1 ∙ sym (append-nil (node s d).path)) (stays skip_slashes-nil);
      more = λ h. cc;
    },
  )
  resolve_step fuel s i path c cs (part d) lt e f v rec =
      let (j, r, eq, w) =
        rec d (drop (length (node s d).path) (c ∷ cs))
          (omega (arith, part_shortens s d path c cs e v.2)) in
      (
        j,
        r,
        resolve-part fuel s i path c cs e d f ∙ eq,
        record { reached = goes d _ v.0 (e ∙ v.1) w.reached; more = w.more },
      )
  resolve_step fuel s i path c cs nothing lt e f v rec = (
    i,
    some (c ∷ cs),
    resolve-nothing fuel s i path c cs e f,
    record { reached = stays (sym e); more = λ h. cc },
  )

  pub resolve_loop_total :
      (fuel : ℕ) (s : Store H) (i : ℕ) (path : Bytes) → length path < fuel → Resolved fuel s i path
  resolve_loop_total zero s i path lt = absurd (omega arith)
  resolve_loop_total (suc fuel) s i path lt =
      go (skip_slashes path) refl (resolve_loop_total fuel s)
    where
      go :
          (rest : Bytes)
          → skip_slashes path ≡ rest
          → ((i' : ℕ) (path' : Bytes) → length path' < fuel → Resolved fuel s i' path')
          → Resolved (suc fuel) s i path
      go [] e rec =
          (i, none, resolve-end fuel s i path e, record { reached = stays (sym e); more = λ h. cc })
      go (c ∷ cs) e rec =
          resolve_step fuel s i path c cs (find_child s (node s i).paths (c ∷ cs)) lt e refl
            (find_child-Matches s (node s i).paths (c ∷ cs)) rec

  -- `http_resolve_path` ends on every tree and path, with a node that is reached from the first one
  -- by children whose paths the request spells out between slashes; `*remaining` is what is left of
  -- the path, and NULL if and only if nothing is.
  pub http_resolve_path_total :
      (s : Store H) (base : ℕ) (path : Bytes)
      → (j : ℕ) × (r : Option Bytes) × (http_resolve_path s base path ≡ some (j, r))
        × Resolves s base path j r
  unfolding http_resolve_path
  http_resolve_path_total s base path =
      resolve_loop_total (suc (length path)) s base path (omega arith)

  -- The loop that adds the nodes of a new path ends.
  pub add_paths_total :
      (fuel : ℕ) (junk : Junk H) (s : Store H) (uri : ℕ) (rest : Bytes)
      → length rest ≤ fuel
      → (s' : Store H) × (uri' : ℕ) × (add_paths fuel junk s uri rest ≡ some (s', uri'))
  unfolding add_paths
  add_paths_total zero junk s uri [] h = (s, uri, refl)
  add_paths_total zero junk s uri (c ∷ cs) h = absurd (omega arith)
  add_paths_total (suc fuel) junk s uri [] h = (s, uri, refl)
  add_paths_total (suc fuel) junk s uri (c ∷ cs) h =
      add_paths_total fuel junk _ (length s) (skip_slashes (skip_segment (c ∷ cs)))
        (omega (arith, skip_shortens c cs))

  register_eq :
      (junk : Junk H) (s : Store H) (path : Bytes) (m : Method) (h : H) (i : ℕ) (r : Option Bytes)
      → http_resolve_path s 0 path ≡ some (i, r)
      → (res : Store H × Bool) × (http_register_method junk s path m h ≡ some res)
  unfolding http_register_method
  register_eq junk s path m h i none e = (set_method s i m h, rw (e, http_register_method))
  register_eq junk s path m h i (some r) e =
      let (s', i', e') = add_paths_total (length r) junk s i r (omega arith) in
      (set_method s' i' m h, rw (e, http_register_method, e'))

  -- `http_register_method` ends on every tree, path and method.
  pub http_register_method_total :
      (junk : Junk H) (s : Store H) (path : Bytes) (m : Method) (h : H)
      → (res : Store H × Bool) × (http_register_method junk s path m h ≡ some res)
  http_register_method_total junk s path m h =
      let (i, r, e, w) = http_resolve_path_total s 0 path in register_eq junk s path m h i r e
