-- ===== src/Routes/Tests.antt =====
-- The theorems on the routes of server/http.c at the routes of app/app.c, and runs of the code.
use tiny_https_server.Prelude.{ℕ, ◌≡◌, refl, true, Option, none, some, List, [], ◌∷◌, Bytes, codes}
use tiny_https_server.Routes.{
  Store, PathName, Junk, Method, http_create_url_path, http_init_url_paths, http_resolve_path,
  resolve_loop, find_child, skip_slashes, skip_segment, http_register_method, handler,
}
use tiny_https_server.Routes.Resolve.{Resolves, http_resolve_path_total}
use tiny_https_server.Routes.Flat.{AreLeaves, flat, route, lookup, take_segment}
use tiny_https_server.Routes.Flat.Refine.{resolve_flat}
use tiny_https_server.Routes.Register.{set_leaf, table_register, register_flat}
use tiny_https_server.Routes.Register.RoundTrip.{answer, register-answer, register-answer_other}
use tiny_https_server.Routes.Nested.{register_nested_lost}

abbrev junk : Junk ℕ
junk = record { put = none; patch = none; delete = none }

abbrev leaf : Bytes → Option ℕ → Option ℕ → PathName ℕ
leaf p g q = record {
  on_get = g;
  on_post = q;
  on_put = none;
  on_patch = none;
  on_delete = none;
  paths = [];
  path = p;
}

-- The handlers of app/app.c, numbered: `/` 0, `/login` 1 and 2, `/home` 6.
abbrev leaves : List (PathName ℕ)
leaves = leaf (codes "login") (some 1) (some 2) ∷ leaf (codes "home") (some 6) none ∷ []

abbrev app_root : PathName ℕ
app_root = leaf [] (some 0) none

abbrev app : Store ℕ
app = flat app_root leaves

leaves-AreLeaves : AreLeaves leaves
leaves-AreLeaves = (refl, (refl, refl), (refl, (refl, refl), tt))

resource_suffix :
    http_resolve_path app 0 (codes "/styles.css") ≡ some (0, some (codes "styles.css"))
unfolding http_resolve_path resolve_loop skip_slashes find_child
resource_suffix = refl

http_resolve_path_total_example :
    (j : ℕ) × (r : Option Bytes) × (http_resolve_path app 0 (codes "//login/x") ≡ some (j, r))
    × Resolves app 0 (codes "//login/x") j r
http_resolve_path_total_example = http_resolve_path_total app 0 (codes "//login/x")

resolve_flat_example : http_resolve_path app 0 (codes "/login/") ≡ some (1, none)
unfolding route lookup take_segment skip_slashes skip_segment
resolve_flat_example = resolve_flat app_root leaves leaves-AreLeaves (codes "/login/")

-- `/coins` is new.
coins_tree : Store ℕ
unfolding table_register set_leaf http_create_url_path
coins_tree = flat app_root (table_register junk leaves (codes "coins") Method.get 7).0

coins_registered :
    http_register_method junk app (codes "/coins") Method.get 7 ≡ some (coins_tree, true)
unfolding coins_tree skip_slashes
coins_registered =
    register_flat junk Method.get 7 app_root leaves leaves-AreLeaves (codes "/coins")
      (codes "coins") (refl, refl) refl

register-answer_example : answer coins_tree (codes "/coins/") Method.get ≡ some (some 7)
unfolding coins_tree skip_slashes take_segment
register-answer_example =
    register-answer junk Method.get 7 app_root leaves leaves-AreLeaves (codes "/coins")
      (codes "coins") (refl, refl) refl coins_tree coins_registered (codes "/coins/") refl

register-answer_other_example :
    answer coins_tree (codes "/home") Method.get ≡ answer app (codes "/home") Method.get
unfolding coins_tree skip_slashes take_segment
register-answer_other_example =
    register-answer_other junk Method.get 7 app_root leaves leaves-AreLeaves (codes "/coins")
      (codes "coins") (refl, refl) refl coins_tree true coins_registered (codes "/home") Method.get
      refl (λ e. cc)

register_nested_lost_example :
    (s : Store ℕ) × (http_register_method junk
        (http_init_url_paths junk)
        (codes "/api/users")
        Method.get
        5
      ≡ some (s, true))
    × (answer s (codes "/api/users") Method.get ≡ some none)
unfolding handler http_create_url_path
register_nested_lost_example =
    register_nested_lost junk b'a' (codes "pi") b'u' (codes "sers") (refl, refl) (refl, refl)
      Method.get 5 refl refl
