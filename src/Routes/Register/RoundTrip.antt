-- ===== src/Routes/Register/RoundTrip.antt =====
-- A route of one segment that `http_register_method` of server/http.c accepts is found by
-- `http_resolve_path`, and the other routes stay as they were.
use mathlib.Core.Path.{subst}
use tiny_https_server.Prelude.{
  ℕ, suc, ◌≡◌, ◌≢◌, refl, sym, ap, ◌∙◌, Bool, true, false, Option, none, some, List, [], ◌∷◌, arith,
  if◌then◌else◌, Bytes, str_eq, str_eq_refl, str_eq_sound, ◌⊎◌, inl, inr, Bool-cases,
}
use tiny_https_server.Routes.{
  Store, PathName, Junk, Method, node, handler, skip_slashes, http_create_url_path,
  http_resolve_path, http_register_method,
}
use tiny_https_server.Routes.Flat.{
  take_segment, is_nil, IsSegment, AreLeaves, flat, lookup, route_to, route, Stand, Stand-flat,
}
use tiny_https_server.Routes.Flat.Refine.{resolve_flat}
use tiny_https_server.Routes.Register.{set_leaf, table_register, register_flat}

segment_not_nil : (rest seg : Bytes) → IsSegment seg → take_segment rest ≡ seg → is_nil rest ≡ false
unfolding take_segment
segment_not_nil [] [] v e = v.0
segment_not_nil [] (c ∷ cs) v e = cc
segment_not_nil (c ∷ cs) seg v e = refl

module _ {H : Type 0} where
  -- The handler that a request for the path and method gets, NULL included.
  unfoldable pub answer : Store H → Bytes → Method → Option (Option H)
  answer s path m = elim (http_resolve_path s 0 path) [
    | none ↦ none
    | some (i, _) ↦ some (handler (node s i) m)
  ]

  unfoldable pub leaf_for : List (PathName H) → Bytes → Option (PathName H)
  leaf_for [] seg = none
  leaf_for (l ∷ ls) seg = if str_eq seg l.path then some l else leaf_for ls seg

  abbrev pub or_root : PathName H → Option (PathName H) → PathName H
  or_root root none = root
  or_root root (some l) = l

  lookup-leaf_for :
      (s : Store H) (k : ℕ) (ls : List (PathName H)) (seg : Bytes)
      → Stand s k ls
      → ((lookup k ls seg ≡ none) × (leaf_for ls seg ≡ none))
        ⊎ ((i : ℕ) × (lookup k ls seg ≡ some i) × (leaf_for ls seg ≡ some (node s i)))
  unfolding lookup leaf_for
  lookup-leaf_for s k [] seg st = inl (refl, refl)
  lookup-leaf_for s k (l ∷ ls) seg st = elim (Bool-cases (str_eq seg l.path)) [
    | inl hit ↦ inr (k, rw hit, rw (hit, st.0))
    | inr miss ↦ rw miss (lookup-leaf_for s (suc k) ls seg st.1)
  ]

  pub handler_root :
      (root : PathName H) (ks : List ℕ) (m : Method)
      → handler (record root { paths = ks }) m ≡ handler root m
  unfolding handler
  handler_root root ks Method.get = refl
  handler_root root ks _ = refl

  pub answer_at :
      (s : Store H) (path : Bytes) (m : Method) (to : ℕ × Option Bytes)
      → http_resolve_path s 0 path ≡ some to
      → answer s path m ≡ some (handler (node s to.0) m)
  unfolding answer
  answer_at s path m to e = rw (e, answer)

  module _ (root : PathName H) (leaves : List (PathName H)) (a : AreLeaves leaves) where
    routed :
        (path : Bytes) (hit : Option ℕ)
        → is_nil (skip_slashes path) ≡ false
        → lookup 1 leaves (take_segment (skip_slashes path)) ≡ hit
        → http_resolve_path (flat root leaves) 0 path ≡ some (route_to (skip_slashes path) hit)
    unfolding route
    routed path hit e l = resolve_flat root leaves a path ∙ ap some (rw (e, l))

    pub answer-flat :
        (path : Bytes) (m : Method)
        → is_nil (skip_slashes path) ≡ false
        → answer (flat root leaves) path m
          ≡ some (handler (or_root root (leaf_for leaves (take_segment (skip_slashes path)))) m)
    answer-flat path m e =
        elim (lookup-leaf_for s 1 leaves (take_segment (skip_slashes path))
          (Stand-flat root leaves)) [
            | inl (miss, gone) ↦
                answer_at s path m (route_to (skip_slashes path) none) (routed path none e miss)
                ∙ rw gone (ap some (handler_root root _ m))
            | inr (i, hit, here) ↦
                answer_at s path m (route_to (skip_slashes path) (some i))
                  (routed path (some i) e hit)
                ∙ rw here
          ]
      where
        s : Store H
        s = flat root leaves

  module _ (junk : Junk H) (m : Method) (h : H) where
    path_of-set_leaf : (l : PathName H) → (set_leaf l m h).0.path ≡ l.path
    unfolding set_leaf
    path_of-set_leaf l = ground arith

    paths_of-set_leaf : (l : PathName H) → (set_leaf l m h).0.paths ≡ l.paths
    unfolding set_leaf
    paths_of-set_leaf l = ground arith

    set_leaf-handler :
        (l : PathName H) → (set_leaf l m h).1 ≡ true → handler (set_leaf l m h).0 m ≡ some h
    unfolding set_leaf handler
    set_leaf-handler l e = ground arith

    register-AreLeaves :
        (ls : List (PathName H)) (seg : Bytes)
        → IsSegment seg
        → AreLeaves ls
        → AreLeaves (table_register junk ls seg m h).0
    unfolding table_register http_create_url_path
    register-AreLeaves [] seg v a = ground (
      arith,
      path_of-set_leaf (http_create_url_path junk seg),
      paths_of-set_leaf (http_create_url_path junk seg),
    )
    register-AreLeaves (l ∷ ls) seg v a =
        ground (arith, path_of-set_leaf l, paths_of-set_leaf l, register-AreLeaves ls seg v a.2)

    register-same :
        (ls : List (PathName H)) (seg : Bytes)
        → (table_register junk ls seg m h).1 ≡ true
        → (l : PathName H) × (leaf_for (table_register junk ls seg m h).0 seg ≡ some l)
          × (handler l m ≡ some h)
    unfolding table_register leaf_for http_create_url_path
    register-same [] seg e =
        let n = http_create_url_path junk seg in
        (
          (set_leaf n m h).0,
          ground (arith, path_of-set_leaf n, str_eq_refl seg),
          set_leaf-handler n e,
        )
    register-same (l ∷ ls) seg e = elim (Bool-cases (str_eq seg l.path)) [
      | inl hit ↦ (
        (set_leaf l m h).0,
        ground (arith, path_of-set_leaf l),
        set_leaf-handler l (ground arith),
      )
      | inr miss ↦
          let (n, found, set') = register-same ls seg (ground arith) in (n, ground arith, set')
    ]

    register-other :
        (ls : List (PathName H)) (seg t : Bytes)
        → t ≢ seg
        → leaf_for (table_register junk ls seg m h).0 t ≡ leaf_for ls t
    unfolding table_register leaf_for http_create_url_path
    register-other [] seg t ne =
        ground (arith, path_of-set_leaf (http_create_url_path junk seg), str_eq_sound t seg)
    register-other (l ∷ ls) seg t ne = ground (
      arith,
      path_of-set_leaf l,
      str_eq_sound t l.path,
      str_eq_sound seg l.path,
      register-other ls seg t ne,
    )

    module _ (root : PathName H) (leaves : List (PathName H)) (a : AreLeaves leaves)
        (path seg : Bytes) (v : IsSegment seg) (e : skip_slashes path ≡ seg) where
      -- On a tree of routes with one segment each: when `http_register_method` accepts a handler for
      -- a path of one segment, every request path whose first segment that is gets the handler for
      -- the method.
      pub register-answer :
          (s : Store H)
          → http_register_method junk (flat root leaves) path m h ≡ some (s, true)
          → (p : Bytes) → take_segment (skip_slashes p) ≡ seg
          → answer s p m ≡ some (some h)
      register-answer s r p f =
          let T = table_register junk leaves seg m h in
          let reg = register_flat junk m h root leaves a path seg v e in
          let tree : flat root T.0 ≡ s = cc (sym reg ∙ r) in
          let done : T.1 ≡ true = cc (sym reg ∙ r) in
          let (l, found, set') = register-same leaves seg done in
          subst (λ t. answer t p m ≡ some (some h)) tree
            (answer-flat root T.0 (register-AreLeaves leaves seg v a) p m
                (segment_not_nil (skip_slashes p) seg v f)
              ∙ rw (f, found) (ap some set'))

      -- On a tree of routes with one segment each: registering a path of one segment, accepted or
      -- not, changes no answer for a request path whose first segment is another one.
      pub register-answer_other :
          (s : Store H) (done : Bool)
          → http_register_method junk (flat root leaves) path m h ≡ some (s, done)
          → (p : Bytes) (m' : Method) → is_nil (skip_slashes p) ≡ false
          → take_segment (skip_slashes p) ≢ seg
          → answer s p m' ≡ answer (flat root leaves) p m'
      register-answer_other s done r p m' n ne =
          let T = table_register junk leaves seg m h in
          let reg = register_flat junk m h root leaves a path seg v e in
          let tree : flat root T.0 ≡ s = cc (sym reg ∙ r) in
          subst (λ t. answer t p m' ≡ answer (flat root leaves) p m') tree
            (answer-flat root T.0 (register-AreLeaves leaves seg v a) p m' n
              ∙ ap (λ o. some (handler (or_root root o) m'))
                  (register-other leaves seg (take_segment (skip_slashes p)) ne)
              ∙ sym (answer-flat root leaves a p m' n))
