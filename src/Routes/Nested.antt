-- ===== src/Routes/Nested.antt =====
-- `http_register_method` of server/http.c for a path of two segments.
use mathlib.Core.Path.{ap₂}
use tiny_https_server.Prelude.{
  ℕ, suc, ◌+◌, ◌≡◌, refl, sym, ap, ◌∙◌, true, false, none, some, [], ◌∷◌, ◌++◌, arith, length,
  Bytes, starts_with, length-append,
}
use tiny_https_server.Routes.{
  Store, PathName, Junk, Method, handler, with_handler, is_known, skip_slashes, skip_segment,
  find_child, http_create_url_path, http_init_url_paths, http_add_child_path, http_resolve_path,
  add_paths, set_method, http_register_method,
}
use tiny_https_server.Routes.Resolve.{skip_slashes-nil, resolve-whole, resolve-nothing}
use tiny_https_server.Routes.Flat.{IsSegment, has_slash}
use tiny_https_server.Routes.Register.{register_new, add_one, skip_segment_self}
use tiny_https_server.Routes.Register.RoundTrip.{answer, answer_at, handler_root}

starts_with_self : (s : Bytes) → starts_with s s ≡ true
starts_with_self [] = refl
starts_with_self (c ∷ s) = ground (arith, starts_with_self s)

skip_slashes_segment : (p s : Bytes) → IsSegment p → skip_slashes (p ++ s) ≡ p ++ s
unfolding skip_slashes
skip_slashes_segment [] s v = cc
skip_slashes_segment (c ∷ p) s v = ground arith

skip_segment_append : (p s : Bytes) → has_slash p ≡ false → skip_segment (p ++ b'/' ∷ s) ≡ b'/' ∷ s
unfolding skip_segment
skip_segment_append [] s h = refl
skip_segment_append (c ∷ p) s h = ground (arith, skip_segment_append p s)

skip_slashes_self : (p : Bytes) → IsSegment p → skip_slashes p ≡ p
unfolding skip_slashes
skip_slashes_self [] v = cc
skip_slashes_self (c ∷ p) v = ground arith

-- A path of two segments, the first of which is `c ∷ cs`, without the slash before it.
abbrev both : ℕ → Bytes → Bytes → Bytes
both c cs b = c ∷ (cs ++ b'/' ∷ b)

abbrev pub nested : ℕ → Bytes → Bytes → Bytes
nested c cs b = b'/' ∷ both c cs b

skip-nested :
    (c : ℕ) (cs b : Bytes) → IsSegment (c ∷ cs) → skip_slashes (nested c cs b) ≡ both c cs b
unfolding skip_slashes
skip-nested c cs b v = skip_slashes_segment (c ∷ cs) (b'/' ∷ b) v

skip-both :
    (c : ℕ) (cs b : Bytes)
    → has_slash (c ∷ cs) ≡ false
    → IsSegment b
    → skip_slashes (skip_segment (both c cs b)) ≡ b
unfolding skip_slashes
skip-both c cs b v w = ap skip_slashes (skip_segment_append (c ∷ cs) b v) ∙ skip_slashes_self b w

module _ {H : Type 0} (junk : Junk H) where
  -- The tree after the registration: the first new node has the whole path for its own.
  abbrev tree : Bytes → Bytes → PathName H → Store H
  tree w b leaf =
      record (http_create_url_path junk []) { paths = 1 ∷ [] }
      ∷ record (http_create_url_path junk w) { paths = 2 ∷ [] }
      ∷ leaf
      ∷ []

  handler_path :
      (p : Bytes) (m : Method)
      → handler (http_create_url_path junk p) m ≡ handler (http_create_url_path junk []) m
  unfolding handler http_create_url_path
  handler_path p Method.get = refl
  handler_path p _ = refl

  add_both :
      (c : ℕ) (cs : Bytes) (d : ℕ) (ds : Bytes)
      → has_slash (c ∷ cs) ≡ false
      → IsSegment (d ∷ ds)
      → add_paths
          (length (both c cs (d ∷ ds)))
          junk
          (http_init_url_paths junk)
          0
          (both c cs (d ∷ ds))
        ≡ some (tree (both c cs (d ∷ ds)) (d ∷ ds) (http_create_url_path junk (d ∷ ds)), 2)
  unfolding add_paths http_init_url_paths http_add_child_path http_create_url_path
  add_both c cs d ds v w =
      let n : ℕ = length cs + suc (length ds) in
      let e : length (cs ++ b'/' ∷ d ∷ ds) ≡ suc n =
        omega (arith, length-append cs (b'/' ∷ d ∷ ds)) in
      let grown =
        http_add_child_path
          (http_init_url_paths junk ++ http_create_url_path junk (both c cs (d ∷ ds)) ∷ []) 0 1 in
      ap₂ (λ k r. add_paths k junk grown 1 r) e (skip-both c cs (d ∷ ds) v w)
      ∙ add_one junk n grown 1 d ds
          (ap skip_slashes (skip_segment_self (d ∷ ds) w.1) ∙ sym skip_slashes-nil)

  module _ (c : ℕ) (cs : Bytes) (d : ℕ) (ds : Bytes) (va : IsSegment (c ∷ cs))
      (vb : IsSegment (d ∷ ds)) where
    first_resolve :
        http_resolve_path (http_init_url_paths junk) 0 (nested c cs (d ∷ ds))
        ≡ some (0, some (both c cs (d ∷ ds)))
    unfolding http_resolve_path http_init_url_paths find_child
    first_resolve = resolve-nothing _ _ 0 _ c _ (skip-nested c cs (d ∷ ds) va) refl

    second_resolve :
        (leaf : PathName H)
        → http_resolve_path (tree (both c cs (d ∷ ds)) (d ∷ ds) leaf) 0 (nested c cs (d ∷ ds))
          ≡ some (1, none)
    unfolding http_resolve_path find_child http_create_url_path
    second_resolve leaf =
        resolve-whole _ _ 0 _ c _ (skip-nested c cs (d ∷ ds) va) 1
          (ground (arith, starts_with_self (both c cs (d ∷ ds))))

    -- On a server without routes, `http_register_method` accepts a GET or POST handler (one whose
    -- field a new node clears) for a path of two segments, and then a request for that very path
    -- finds no handler.
    pub register_nested_lost :
        (m : Method) (h : H)
        → is_known m ≡ true
        → handler (http_create_url_path junk []) m ≡ none
        → (s : Store H) × (http_register_method junk
              (http_init_url_paths junk)
              (nested c cs (d ∷ ds))
              m
              h
            ≡ some (s, true))
          × (answer s (nested c cs (d ∷ ds)) m ≡ some none)
    unfolding set_method
    register_nested_lost m h k e =
        let leaf = with_handler (http_create_url_path junk (d ∷ ds)) m h in
        (tree (both c cs (d ∷ ds)) (d ∷ ds) leaf, accepted, lost)
      where
        w : Bytes
        w = both c cs (d ∷ ds)

        fresh : PathName H
        fresh = http_create_url_path junk (d ∷ ds)

        set_eq :
            set_method (tree w (d ∷ ds) fresh) 2 m h
            ≡ (tree w (d ∷ ds) (with_handler fresh m h), true)
        set_eq = simp (k, handler_path (d ∷ ds) m, e)

        accepted :
            http_register_method junk (http_init_url_paths junk) (nested c cs (d ∷ ds)) m h
            ≡ some (tree w (d ∷ ds) (with_handler fresh m h), true)
        accepted =
            register_new junk m h (http_init_url_paths junk) (nested c cs (d ∷ ds)) 0 w
              (tree w (d ∷ ds) fresh) 2 first_resolve (add_both c cs d ds va.1 vb)
            ∙ ap some set_eq

        lost :
            answer (tree w (d ∷ ds) (with_handler fresh m h)) (nested c cs (d ∷ ds)) m ≡ some none
        lost =
            answer_at _ (nested c cs (d ∷ ds)) m (1, none) (second_resolve (with_handler fresh m h))
            ∙ ap some (handler_root (http_create_url_path junk w) (2 ∷ []) m ∙ handler_path w m ∙ e)
