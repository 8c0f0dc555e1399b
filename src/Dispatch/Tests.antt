-- ===== src/Dispatch/Tests.antt =====
-- The theorems on the rounds of server/http.c at a server that counts its greetings.
use tiny_https_server.Prelude.{
  ℕ, suc, ◌+◌, ◌≡◌, refl, false, Option, none, some, [], ◌∷◌, arith, length, Bytes, codes,
  if◌then◌else◌,
}
use tiny_https_server.Prelude.Run.{done}
use tiny_https_server.Response.{Response, blank, http_set_body, text_of}
use tiny_https_server.Routes.{
  Store, http_resolve_path, resolve_loop, skip_slashes, find_child, handler,
}
use tiny_https_server.Routes.Register.RoundTrip.{answer}
use tiny_https_server.Dispatch.{Handler, http_process_request}
use tiny_https_server.Dispatch.Serve.{line, names, named, is_named, given, calls_handler, refuses}

greet : Handler ℕ
unfolding http_set_body
greet request response w = done (http_set_body response 2 (codes "hi") false, suc w)

abbrev tree : Store (Handler ℕ)
tree =
    record {
      on_get = some greet;
      on_post = none;
      on_put = none;
      on_patch = none;
      on_delete = none;
      paths = [];
      path = [];
    }
    ∷ []

abbrev get_line : Bytes
get_line = line (codes "GET") (codes "/a") none (codes "HTTP/1.1") (10 ∷ [])

abbrev post_line : Bytes
post_line = line (codes "POST") (codes "/a") none (codes "HTTP/1.1") (10 ∷ [])

get_answered : answer tree (codes "/a") (named names (codes "GET")) ≡ some (some greet)
unfolding answer http_resolve_path resolve_loop skip_slashes find_child handler
get_answered = refl

post_refused : answer tree (codes "/a") (named names (codes "POST")) ≡ some none
unfolding answer http_resolve_path resolve_loop skip_slashes find_child handler
post_refused = refl

calls_handler_example :
    (i : ℕ) × (suffix : Option Bytes) × (http_resolve_path tree 0 (codes "/a") ≡ some (i, suffix))
    × (http_process_request tree get_line 16 5
        ≡ greet
            (given tree
              (codes "GET")
              (codes "/a")
              (codes "HTTP/1.1")
              (10 ∷ [])
              none
              16
              5
              (refl, omega arith)
              (refl, omega arith)
              (refl, omega arith)
              refl
              suffix)
            blank
            5)
calls_handler_example =
    calls_handler tree (codes "GET") (codes "/a") (codes "HTTP/1.1") (10 ∷ []) none 16 5
      (refl, omega arith) (refl, omega arith) (refl, omega arith) refl greet get_answered

refuses_example :
    (r : Response) × (http_process_request tree post_line 17 5 ≡ done (r, 5))
    × (r.code ≡ (if is_named names (codes "POST") then 405 else 400))
    × (r.payload_size ≡ length (text_of r.payload) + 1)
refuses_example =
    refuses tree (codes "POST") (codes "/a") (codes "HTTP/1.1") (10 ∷ []) none 17 5
      (refl, omega arith) (refl, omega arith) (refl, omega arith) refl post_refused
