-- ===== src/App/Start/Tests.antt =====
-- The theorem on the start of app/app.c at two options, and runs of the code.
use tiny_https_server.Prelude.{ℕ, ◌≡◌, refl, none, some, List, [], ◌∷◌, Bytes, codes, drop}
use tiny_https_server.Routes.{Store, Junk, Method, http_init_url_paths, skip_slashes}
use tiny_https_server.Routes.Flat.{take_segment}
use tiny_https_server.Routes.Register.RoundTrip.{answer}
use tiny_https_server.Session.Store.{new_process, http_session_engine_start}
use tiny_https_server.App.Start.{Handler, get_timeout, app_options, app_start, paths_from}
use tiny_https_server.App.Start.Table.{on_get, on_post, app_start_routes}

-- The number 30 and what is behind two digits.
abbrev strtoul_30 : Bytes → ℕ × Bytes
strtoul_30 str = (30, drop 2 str)

abbrev options : List (ℕ × Bytes)
options = (b'r', codes "/srv") ∷ (b't', codes "30m") ∷ []

abbrev junk : Junk Handler
junk = record { put = none; patch = none; delete = none }

app_start_routes_example :
    (s : Store Handler) × (app_start strtoul_30 options junk
        (new_process none)
        (http_init_url_paths junk)
      ≡ some (
        paths_from (codes "/srv"),
        (http_session_engine_start (new_process none) 10 1800).1,
        some s,
      ))
    × ((p : Bytes)
        → (answer s p Method.get ≡ some (some (on_get (take_segment (skip_slashes p)))))
          × (answer s p Method.post ≡ some (on_post (take_segment (skip_slashes p)))))
unfolding app_options get_timeout
app_start_routes_example =
    app_start_routes strtoul_30 options junk (new_process none) (codes "/srv") 1800 refl

-- A unit of two letters gives no timeout, and hours are 3600 seconds.
two_letters : get_timeout strtoul_30 (codes "30ms") ≡ 0
unfolding get_timeout
two_letters = refl

hours : get_timeout strtoul_30 (codes "30h") ≡ 108000
unfolding get_timeout
hours = refl
