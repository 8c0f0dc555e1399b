-- ===== src/App/Start.antt =====
-- app/app.c: `app_start` and `app_stop`. The options are what getopt_long answers, one by one, and
-- `strtoul` is a parameter.
pub mod Table
mod Tests
use tiny_https_server.Prelude.{
  ℕ, ◌*◌, ◌%◌, ◌^◌, Bool, true, false, ◌&&◌, not, Option, none, some, List, [], ◌∷◌, ◌++◌, ◌==◌,
  if◌then◌else◌, get_or, Bytes, codes,
}
use tiny_https_server.Prelude.Run.{Run}
use tiny_https_server.Session.Store.{Engine, http_session_engine_start, http_session_engine_stop}
use tiny_https_server.Routes.{Store, Junk, Method, http_register_method}

-- The functions that `app_start` registers, `crypto_` left off.
pub data Handler : Type 0 where
  get_resource get_login post_login post_logout get_register post_register : Handler
  get_home get_coins get_coin post_coin : Handler

-- The paths that the application keeps, and the one that it gives to the session engine.
pub record Paths : Type 0 where
  pub portfolios_path : Bytes
  pub server_data : Bytes
  pub view_path : Bytes
  pub resources_path : Bytes

-- `get_timeout` on its argument; `strtoul` answers the number and what is behind it.
unfoldable pub get_timeout : (Bytes → ℕ × Bytes) → Bytes → ℕ
get_timeout strtoul str =
    let (timeout_s, remain) = strtoul str in
    let unit = get_or remain 0 0 in
    if not (unit == 0) && not (get_or remain 1 0 == 0)
    then 0
    else if unit == b'h'
    then timeout_s * 60 % 2 ^ 64 * 60 % 2 ^ 64
    else if unit == b'm'
    then timeout_s * 60 % 2 ^ 64
    else timeout_s

-- The loop over the options: the root and the timeout. It ends at an option that is not known.
unfoldable pub app_options :
    (Bytes → ℕ × Bytes) → List (ℕ × Bytes) → Option Bytes × ℕ → Option Bytes × ℕ
app_options strtoul [] found = found
app_options strtoul ((opt, optarg) ∷ opts) (root_path, timeout) =
    let with_root = app_options strtoul opts (some optarg, timeout) in
    let with_timeout = app_options strtoul opts (root_path, get_timeout strtoul optarg) in
    if opt == b'r' then with_root else if opt == b't' then with_timeout else (root_path, timeout)

abbrev pub paths_from : Bytes → Paths
paths_from root_path = record {
  portfolios_path = root_path ++ codes "/data/portfolios/";
  server_data = root_path ++ codes "/data/.server/";
  view_path = root_path ++ codes "/view/";
  resources_path = root_path ++ codes "/view/" ++ codes "resources/";
}

-- The calls of `http_register_method`.
abbrev pub registrations : List (Bytes × Method × Handler)
registrations =
    (codes "/", Method.get, get_resource)
    ∷ (codes "/login", Method.get, get_login)
    ∷ (codes "/login", Method.post, post_login)
    ∷ (codes "/logout", Method.get, post_logout)
    ∷ (codes "/register", Method.get, get_register)
    ∷ (codes "/register", Method.post, post_register)
    ∷ (codes "/home", Method.get, get_home)
    ∷ (codes "/coins", Method.get, get_coins)
    ∷ (codes "/coin", Method.get, get_coin)
    ∷ (codes "/coin", Method.post, post_coin)
    ∷ []

-- One registration behind the other, whatever they answer.
unfoldable pub register_all :
    Junk Handler → Store Handler → List (Bytes × Method × Handler) → Option (Store Handler)
register_all junk s [] = some s
register_all junk s ((path, m, h) ∷ rs) = elim (http_register_method junk s path m h) [
  | none ↦ none
  | some (s', done) ↦ register_all junk s' rs
]

-- `app_start`: the paths, the engine of the sessions and the routes; `none` without a root.
unfoldable pub app_start :
    (Bytes → ℕ × Bytes)
    → List (ℕ × Bytes)
    → Junk Handler
    → Engine
    → Store Handler
    → Option (Paths × Engine × Option (Store Handler))
app_start strtoul opts junk e s =
    let (root, session_timeout_s) = app_options strtoul opts (none, 0) in
    elim root [
      | none ↦ none
      | some root_path ↦ some (
        paths_from root_path,
        (http_session_engine_start e 10 session_timeout_s).1,
        register_all junk s registrations,
      )
    ]

-- `app_stop`, with whether the task of the sessions looks at the work once more.
unfoldable pub app_stop : Bool → Engine → Run Engine
app_stop late e = http_session_engine_stop late e
