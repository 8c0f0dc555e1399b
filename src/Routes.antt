-- ===== src/Routes.antt =====
-- server/http.c, the tree of registered paths: `pathname_t`, `http_init_url_paths`,
-- `http_create_url_path`, `http_add_child_path`, `http_resolve_path` and `http_register_method`.
-- A `pathname_t*` is an index into the list of the nodes that were allocated; a pointer into the
-- path of a request is the suffix that it points to, so `len - pos` is the suffix's length.
pub mod Resolve
pub mod Flat
pub mod Register
pub mod Nested
mod Tests
use tiny_https_server.Prelude.{
  ℕ, zero, suc, ◌+◌, ◌≡◌, Bool, true, false, ◌&&◌, Option, none, some, List, [], ◌∷◌, ◌++◌, ltb,
  ◌==◌, if◌then◌else◌, length, get_or, set, drop, Bytes, starts_with, is_null,
}

-- `HTTP_GET` and the others.
pub data Method : Type 0 where
  get post put patch delete unknown : Method

module _ (H : Type 0) where
  -- `struct pathname_t`. `H` is the type of the handlers, and `none` is NULL. `len` is the length of
  -- `path`, and `paths_count` that of `paths`.
  pub record PathName : Type 0 where
    pub on_get : Option H
    pub on_post : Option H
    pub on_put : Option H
    pub on_patch : Option H
    pub on_delete : Option H
    pub paths : List ℕ
    pub path : Bytes

  -- What `malloc` leaves in the fields that no constructor of a node sets.
  pub record Junk : Type 0 where
    pub put : Option H
    pub patch : Option H
    pub delete : Option H

-- `for(; pos < len && path[pos] == '/'; ++pos);`
unfoldable pub skip_slashes : Bytes → Bytes
skip_slashes [] = []
skip_slashes (c ∷ s) = let rest = skip_slashes s in if c == b'/' then rest else c ∷ s

-- `for(; new_len < remain_len && remaining[new_len] != '/'; ++new_len);`
unfoldable pub skip_segment : Bytes → Bytes
skip_segment [] = []
skip_segment (c ∷ s) = let rest = skip_segment s in if c == b'/' then c ∷ s else rest

-- `path[pos] == '/'`, where `pos` is within the path.
abbrev pub at_slash : Bytes → Bool
at_slash [] = false
at_slash (c ∷ s) = c == b'/'

-- What the loop over the children finds: a child that is the whole rest of the path, a child that
-- is its first part, or none.
pub data Match : Type 0 where
  whole : ℕ → Match
  part : ℕ → Match
  nothing : Match

abbrev pub is_known : Method → Bool
is_known unknown = false
is_known _ = true

-- The nodes that were allocated; the root of a server's tree is the first.
abbrev pub Store : Type 0 → Type 0
Store H = List (PathName H)

module _ {H : Type 0} where
  abbrev pub blank : PathName H
  blank = record {
    on_get = none;
    on_post = none;
    on_put = none;
    on_patch = none;
    on_delete = none;
    paths = [];
    path = [];
  }

  abbrev pub node : Store H → ℕ → PathName H
  node s i = get_or s i blank

  -- `http_create_url_path(base_path, len)`, with `base_path` already cut to its `len` bytes.
  unfoldable pub http_create_url_path : Junk H → Bytes → PathName H
  http_create_url_path junk base_path = record {
    on_get = none;
    on_post = none;
    on_put = junk.put;
    on_patch = junk.patch;
    on_delete = junk.delete;
    paths = [];
    path = base_path;
  }

  -- `http_init_url_paths`, the only node of a new tree.
  unfoldable pub http_init_url_paths : Junk H → Store H
  unfolding http_create_url_path
  http_init_url_paths junk = http_create_url_path junk [] ∷ []

  unfoldable pub http_add_child_path : Store H → ℕ → ℕ → Store H
  http_add_child_path s base child =
      let b = node s base in set s base (record b { paths = b.paths ++ child ∷ [] })

  -- The loop over `current_path->paths` at the suffix `rest`.
  unfoldable pub find_child : Store H → List ℕ → Bytes → Match
  find_child s [] rest = nothing
  find_child s (child ∷ children) rest =
      let temp = (node s child).path in
      let others = find_child s children rest in
      if ltb (length rest) (length temp)
      then others
      else if ltb (length temp) (length rest)
      then (if starts_with rest temp && at_slash (drop (length temp) rest)
          then part child
          else others)
      else if starts_with rest temp
      then whole child
      else others

  -- `http_resolve_path`: the node, and `*remaining`. The fuel bounds the rounds of the outer loop.
  unfoldable pub resolve_loop : ℕ → Store H → ℕ → Bytes → Option (ℕ × Option Bytes)
  resolve_loop zero s current path = none
  resolve_loop (suc fuel) s current path = elim (skip_slashes path) [
    | [] ↦ some (current, none)
    | c ∷ cs ↦ elim (find_child s (node s current).paths (c ∷ cs)) [
      | whole child ↦ some (child, none)
      | part child ↦ resolve_loop fuel s child (drop (length (node s child).path) (c ∷ cs))
      | nothing ↦ some (current, some (c ∷ cs))
    ]
  ]

  unfoldable pub http_resolve_path : Store H → ℕ → Bytes → Option (ℕ × Option Bytes)
  http_resolve_path s base path = resolve_loop (suc (length path)) s base path

  -- The loop of `http_register_method` that adds the nodes of a new path; it returns the last one.
  -- The fuel bounds its rounds.
  unfoldable pub add_paths : ℕ → Junk H → Store H → ℕ → Bytes → Option (Store H × ℕ)
  add_paths zero junk s uri [] = some (s, uri)
  add_paths zero junk s uri (c ∷ cs) = none
  add_paths (suc fuel) junk s uri [] = some (s, uri)
  add_paths (suc fuel) junk s uri (c ∷ cs) =
      let new_uri = length s in
      let s' = http_add_child_path (s ++ http_create_url_path junk (c ∷ cs) ∷ []) uri new_uri in
      add_paths fuel junk s' new_uri (skip_slashes (skip_segment (c ∷ cs)))

  unfoldable pub handler : PathName H → Method → Option H
  handler n get = n.on_get
  handler n post = n.on_post
  handler n put = n.on_put
  handler n patch = n.on_patch
  handler n delete = n.on_delete
  handler n unknown = none

  abbrev pub with_handler : PathName H → Method → H → PathName H
  with_handler n get h = record n { on_get = some h }
  with_handler n post h = record n { on_post = some h }
  with_handler n put h = record n { on_put = some h }
  with_handler n patch h = record n { on_patch = some h }
  with_handler n delete h = record n { on_delete = some h }
  with_handler n unknown h = n

  -- The `switch` of `http_register_method`: `true` for 0 and `false` for -1.
  unfoldable pub set_method : Store H → ℕ → Method → H → Store H × Bool
  unfolding handler
  set_method s uri m h =
      if is_known m && is_null (handler (node s uri) m)
      then (set s uri (with_handler (node s uri) m h), true)
      else (s, false)

  -- `http_register_method` on a server whose tree has its root at index 0.
  unfoldable pub http_register_method :
      Junk H → Store H → Bytes → Method → H → Option (Store H × Bool)
  unfolding add_paths
  http_register_method junk s path m h = elim (http_resolve_path s 0 path) [
    | none ↦ none
    | some (uri, none) ↦ some (set_method s uri m h)
    | some (uri, some remaining) ↦ elim (add_paths (length remaining) junk s uri remaining) [
      | none ↦ none
      | some (s', uri') ↦ some (set_method s' uri' m h)
    ]
  ]
