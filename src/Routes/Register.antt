-- ===== src/Routes/Register.antt =====
-- `http_register_method` of server/http.c for a path of one segment, against a table of routes.
pub mod RoundTrip
use mathlib.Core.Path.{subst}
use tiny_https_server.Prelude.{
  ℕ, zero, suc, ◌+◌, ◌≡◌, ◌≢◌, refl, sym, ap, ◌∙◌, Bool, true, false, ◌&&◌, Option, none, some,
  List, [], ◌∷◌, ◌++◌, arith, ◌<◌, if◌then◌else◌, length, set, get_or, Bytes, str_eq, str_eq_refl,
  str_eq_sound, Bool-cases, Option-cases, is_null, inl, inr, length-append, length-set,
  set-snoc_last, get_or-snoc_last,
}
use tiny_https_server.Routes.{
  Store, PathName, Junk, Method, node, blank, handler, with_handler, is_known, skip_slashes,
  skip_segment, http_create_url_path, http_add_child_path, http_resolve_path, add_paths, set_method,
  http_register_method,
}
use tiny_https_server.Routes.Flat.{
  take_segment, has_slash, is_nil, IsSegment, indices, AreLeaves, flat, lookup, remaining, route_to,
  route, Stand, Stand-flat,
}
use tiny_https_server.Routes.Flat.Refine.{resolve_flat}
use tiny_https_server.Routes.Resolve.{skip_slashes-nil}

module _ {H : Type 0} where
  -- A handler is set once.
  unfoldable pub set_leaf : PathName H → Method → H → PathName H × Bool
  unfolding handler
  set_leaf n m h =
      if is_known m && is_null (handler n m) then (with_handler n m h, true) else (n, false)

  -- The table of routes after a registration: the child of the segment gets the handler, or a new
  -- child behind the others does.
  unfoldable pub table_register :
      Junk H → List (PathName H) → Bytes → Method → H → List (PathName H) × Bool
  unfolding set_leaf
  table_register junk [] seg m h =
      let (n, done) = set_leaf (http_create_url_path junk seg) m h in (n ∷ [], done)
  table_register junk (l ∷ ls) seg m h =
      let (n, done) = set_leaf l m h in
      let (others, done') = table_register junk ls seg m h in
      if str_eq seg l.path then (n ∷ ls, done) else (l ∷ others, done')

  set_self : (s : Store H) (i : ℕ) → set s i (node s i) ≡ s
  set_self [] i = refl
  set_self (l ∷ ls) zero = refl
  set_self (l ∷ ls) (suc i) = ap (◌∷◌ l) (set_self ls i)

  pub set_method_leaf :
      (s : Store H) (i : ℕ) (m : Method) (h : H)
      → set_method s i m h ≡ (set s i (set_leaf (node s i) m h).0, (set_leaf (node s i) m h).1)
  unfolding set_method set_leaf
  set_method_leaf s i m h = elim (Bool-cases (is_known m && is_null (handler (node s i) m))) [
    | inl yes' ↦ simp yes'
    | inr no' ↦ simp (no', set_self)
  ]

  pub register_hit :
      (junk : Junk H) (k : ℕ) (ls : List (PathName H)) (seg : Bytes) (m : Method) (h : H) (i : ℕ)
      → lookup k ls seg ≡ some i
      → (j : ℕ) × (i ≡ k + j)
        × ((set ls j (set_leaf (node ls j) m h).0, (set_leaf (node ls j) m h).1)
            ≡ table_register junk ls seg m h)
  unfolding lookup table_register
  register_hit junk k [] seg m h i e = cc
  register_hit junk k (l ∷ ls) seg m h i e = elim (Bool-cases (str_eq seg l.path)) [
    | inl hit ↦ (0, ground arith, ground arith)
    | inr miss ↦
        let (j, at, eq) = register_hit junk (suc k) ls seg m h i (ground arith) in
        (suc j, omega arith, ground arith)
  ]

  register_miss :
      (junk : Junk H) (k : ℕ) (ls : List (PathName H)) (seg : Bytes) (m : Method) (h : H)
      → lookup k ls seg ≡ none
      → table_register junk ls seg m h ≡ (
        ls ++ (set_leaf (http_create_url_path junk seg) m h).0 ∷ [],
        (set_leaf (http_create_url_path junk seg) m h).1,
      )
  unfolding lookup table_register
  register_miss junk k [] seg m h e = refl
  register_miss junk k (l ∷ ls) seg m h e = elim (Bool-cases (str_eq seg l.path)) [
    | inl hit ↦ ground arith
    | inr miss ↦ ground (arith, register_miss junk (suc k) ls seg m h)
  ]

take_segment_self : (p : Bytes) → has_slash p ≡ false → take_segment p ≡ p
unfolding take_segment
take_segment_self [] h = refl
take_segment_self (c ∷ p) h = ground (arith, take_segment_self p)

pub skip_segment_self : (p : Bytes) → has_slash p ≡ false → skip_segment p ≡ []
unfolding skip_segment
skip_segment_self [] h = refl
skip_segment_self (c ∷ p) h = ground (arith, skip_segment_self p)

indices-snoc : (k n : ℕ) → indices k n ++ (k + n) ∷ [] ≡ indices k (suc n)
indices-snoc k zero = ap (λ i. i ∷ []) (omega arith)
indices-snoc k (suc n) =
    ap (◌∷◌ k) (ap (λ i. indices (suc k) n ++ i ∷ []) (omega arith) ∙ indices-snoc (suc k) n)

module _ {H : Type 0} (junk : Junk H) where
  pub add_one :
      (fuel : ℕ) (s : Store H) (u c : ℕ) (cs : Bytes)
      → skip_slashes (skip_segment (c ∷ cs)) ≡ []
      → add_paths (suc fuel) junk s u (c ∷ cs)
        ≡ some (
          http_add_child_path (s ++ http_create_url_path junk (c ∷ cs) ∷ []) u (length s),
          length s,
        )
  unfolding add_paths
  add_one zero s u c cs e = rw (e, add_paths)
  add_one (suc fuel) s u c cs e = rw (e, add_paths)

module _ {H : Type 0} (junk : Junk H) (m : Method) (h : H) where
  register_at :
      (s : Store H) (path : Bytes) (i : ℕ)
      → http_resolve_path s 0 path ≡ some (i, none)
      → http_register_method junk s path m h ≡ some (set_method s i m h)
  unfolding http_register_method
  register_at s path i e = rw (e, http_register_method)

  pub register_new :
      (s : Store H) (path : Bytes) (i : ℕ) (r : Bytes) (s' : Store H) (u : ℕ)
      → http_resolve_path s 0 path ≡ some (i, some r)
      → add_paths (length r) junk s i r ≡ some (s', u)
      → http_register_method junk s path m h ≡ some (set_method s' u m h)
  unfolding http_register_method
  register_new s path i r s' u e a = rw (e, http_register_method, a)

  module _ (root : PathName H) (leaves : List (PathName H)) (a : AreLeaves leaves) where
    added :
        (n : PathName H)
        → http_add_child_path (flat root leaves ++ n ∷ []) 0 (length (flat root leaves))
          ≡ flat root (leaves ++ n ∷ [])
    unfolding http_add_child_path
    added n =
        let last : suc (length leaves) ≡ 1 + length leaves = omega arith in
        let more : suc (length leaves) ≡ length (leaves ++ n ∷ []) =
          omega (arith, length-append leaves (n ∷ [])) in
        ap (λ ks. record root { paths = ks } ∷ (leaves ++ n ∷ []))
          (ap (λ i. indices 1 (length leaves) ++ i ∷ []) last
            ∙ indices-snoc 1 (length leaves)
            ∙ ap (indices 1) more)

    grown :
        (n n' : PathName H)
        → set (flat root (leaves ++ n ∷ [])) (length (flat root leaves)) n'
          ≡ flat root (leaves ++ n' ∷ [])
    grown n n' =
        ap (λ xs. record root { paths = indices 1 (length (leaves ++ n ∷ [])) } ∷ xs)
          (set-snoc_last leaves n n')
        ∙ ap (λ k. record root { paths = indices 1 k } ∷ (leaves ++ n' ∷ []))
            (length-append leaves (n ∷ []) ∙ sym (length-append leaves (n' ∷ [])))

    -- Where a path of one segment leads.
    abbrev leads_to : Bytes → Option ℕ → ℕ × Option Bytes
    leads_to seg none = (0, some seg)
    leads_to seg (some i) = (i, none)

    resolve_segment :
        (path : Bytes) (c : ℕ) (cs : Bytes) (hit : Option ℕ)
        → has_slash (c ∷ cs) ≡ false
        → skip_slashes path ≡ c ∷ cs
        → lookup 1 leaves (c ∷ cs) ≡ hit
        → http_resolve_path (flat root leaves) 0 path ≡ some (leads_to (c ∷ cs) hit)
    unfolding route
    resolve_segment path c cs hit v e l =
        resolve_flat root leaves a path
        ∙ ap some (rw e (rw (take_segment_self (c ∷ cs) v, l) (leads hit)))
      where
        leads : (o : Option ℕ) → route_to (c ∷ cs) o ≡ leads_to (c ∷ cs) o
        leads none = refl
        leads (some i) = rw (skip_segment_self (c ∷ cs) v, ← skip_slashes-nil)

    register_cases :
        (path seg : Bytes) (hit : Option ℕ)
        → IsSegment seg
        → skip_slashes path ≡ seg
        → lookup 1 leaves seg ≡ hit
        → let (leaves', done) = table_register junk leaves seg m h in
          http_register_method junk (flat root leaves) path m h ≡ some (flat root leaves', done)
    register_cases path [] hit v e l = cc
    register_cases path (c ∷ cs) none v e l =
        let seg : Bytes = c ∷ cs in
        let n = http_create_url_path junk seg in
        let (n', done) = set_leaf n m h in
        register_new (flat root leaves) path 0 seg (flat root (leaves ++ n ∷ []))
          (length (flat root leaves)) (resolve_segment path c cs none v.1 e l)
          (add_one junk (length cs) (flat root leaves) 0 c cs
              (ap skip_slashes (skip_segment_self seg v.1) ∙ sym skip_slashes-nil)
            ∙ ap (λ s. some (s, length (flat root leaves))) (added n))
        ∙ ap some (
            set_method_leaf (flat root (leaves ++ n ∷ [])) (length (flat root leaves)) m h
            ∙ rw (get_or-snoc_last leaves n blank) (
                ap (λ s. (s, done)) (grown n n')
                ∙ ap (λ t. (flat root t.0, t.1)) (sym (register_miss junk 1 leaves seg m h l))))
    register_cases path (c ∷ cs) (some i) v e l =
        let (j, at, eq) = register_hit junk 1 leaves (c ∷ cs) m h i l in
        register_at (flat root leaves) path i (resolve_segment path c cs (some i) v.1 e l)
        ∙ ap some (
            set_method_leaf (flat root leaves) i m h
            ∙ subst
                (λ t.
                  ◌≡◌ {A = Store H × Bool}
                    (
                      set (flat root leaves) t (set_leaf (node (flat root leaves) t) m h).0,
                      (set_leaf (node (flat root leaves) t) m h).1,
                    )
                    (
                      flat root (table_register junk leaves (c ∷ cs) m h).0,
                      (table_register junk leaves (c ∷ cs) m h).1,
                    ))
                {x = suc j} (omega arith)
                (ap
                    (λ k. (
                      record root { paths = indices 1 k }
                          ∷ set leaves j (set_leaf (node leaves j) m h).0,
                      (set_leaf (node leaves j) m h).1,
                    ))
                    (sym (length-set leaves j (set_leaf (node leaves j) m h).0))
                  ∙ ap (λ t. (flat root t.0, t.1)) eq))

    -- On a tree of routes with one segment each, registering a path of one segment does what it does
    -- on the table, and the tree is again of that form.
    pub register_flat :
        (path seg : Bytes)
        → IsSegment seg
        → skip_slashes path ≡ seg
        → let (leaves', done) = table_register junk leaves seg m h in
          http_register_method junk (flat root leaves) path m h ≡ some (flat root leaves', done)
    register_flat path seg v e = register_cases path seg (lookup 1 leaves seg) v e refl
