-- ===== src/App/Guards.antt =====
-- What the handlers of app/app.c let through.
use tiny_https_server.Prelude.{
  ℕ, ◌+◌, ◌<◌, ◌≤◌, ◌≡◌, refl, Bool, true, false, ◌||◌, Option, none, some, List, [], ◌∷◌, ◌++◌,
  arith, if◌then◌else◌, length, length-append, Bytes, codes, lt→ltb, starts_with,
}
use tiny_https_server.Prelude.Run.{Run, done, blocked, fault, ◌>>=◌}
use tiny_https_server.Requests.{Request}
use tiny_https_server.Response.{
  Response, blank, http_set_response_code, http_set_content_type, http_set_redirect, http_set_body,
  crlf,
}
use tiny_https_server.Session.{User, http_session_register_user}
use tiny_https_server.Session.Fields.{text, IsText}
use tiny_https_server.Session.Users.{IsReadable, user_at, register_taken_blocks}
use tiny_https_server.App.Sessions.{HasSession, session_of-HasSession}
use tiny_https_server.App.{
  World, bad_request_reply, redirect, gen_path, after_dot, set_content_type, session_of, unchanged,
  extra, crypto_get_resource, home, crypto_get_home, register,
}

guarded :
    (files : Bytes → Option Bytes) (view_path resources_path : Bytes) (w w' : World) (r : Response)
    (b : Bool) (run : Run (Option ℕ))
    → unchanged w (
        if b
        then bad_request_reply blank
        else (run >>= λ session. home files view_path resources_path blank session))
      ≡ done (r, w')
    → r.code ≡ 200
    → (e : ℕ) × (run ≡ done (some e))
unfolding bad_request_reply redirect http_set_response_code http_set_content_type http_set_redirect
    http_set_body
guarded files view_path resources_path w w' r true run e code = absurd (ground arith)
guarded files view_path resources_path w w' r false (done none) e code = absurd (ground arith)
guarded files view_path resources_path w w' r false (done (some i)) e code = (i, refl)
guarded files view_path resources_path w w' r false blocked e code = absurd (ground arith)
guarded files view_path resources_path w w' r false fault e code = absurd (ground arith)

-- The page of the application answers 200 only to a request that has a session: what stands behind
-- the first `Cookie: session_id=` of the request, at most 36 bytes of it, is the id of a slot of the
-- session table, and not empty.
pub home_guarded :
    (files : Bytes → Option Bytes) (view_path resources_path : Bytes) (request : Request)
    (w w' : World) (r : Response)
    → crypto_get_home files view_path resources_path request blank w ≡ done (r, w')
    → r.code ≡ 200
    → (e : ℕ) × HasSession w.managers request e
unfolding crypto_get_home
home_guarded files view_path resources_path request w w' r e code =
    let (i, found) =
      guarded files view_path resources_path w w' r (extra request) (session_of w.managers request)
        e code in
    (i, session_of-HasSession w.managers request i found)

message : Bytes
message = codes "{\"message\": \"User registered successfully\"}"

created : Response
created = record blank {
  code = 201;
  status_line = codes "Created";
  content_type = crlf ++ codes "Content-Type: application/json; charset=utf-8";
  payload_size = length message;
  payload = some message;
}

-- While nobody holds the users' lock, on a readable table of users: registering a name that is
-- taken is answered by 201, calls `PortfolioCreate` for the name, and leaves the users locked, so
-- every later registration waits for ever.
pub register_taken_created :
    (junk : List User) (w : World) (name password : Bytes) (u : ℕ)
    → w.managers.user.locked ≡ false
    → IsReadable w.managers.user
    → IsText name
    → u < w.managers.user.last
    → text (user_at w.managers.user.users u).name ≡ name
    → (r : Response) × (w' : World) × (register junk blank w name password ≡ done (r, w'))
      × (r.code ≡ 201)
      × (w'.portfolios ≡ w.portfolios ++ name ∷ [])
      × ((junk' : List User) (name' password' : Bytes)
          → http_session_register_user w'.managers junk' name' password' ≡ blocked)
unfolding register created message bad_request_reply http_set_response_code http_set_content_type
    http_set_body
register_taken_created junk w name password u open' v t lt e =
    let (m', eq, stuck) = register_taken_blocks w.managers junk name password u open' v t lt e in
    (
      created,
      record { managers = m'; portfolios = w.portfolios ++ name ∷ [] },
      simp eq,
      refl,
      refl,
      stuck,
    )

media : Bytes → Bytes
media type =
    (if starts_with type (codes "js") || starts_with type (codes "json")
      then codes "application/"
      else codes "text/")
    ++ type

length-media : (type : Bytes) → length (media type) ≤ length type + 12
unfolding media
length-media type = ground arith

typed : Bytes → Response → Response
typed type r = record r {
  content_type = crlf ++ (codes "Content-Type: " ++ (media type ++ codes "; charset=utf-8"));
}

set_content_type_lem :
    (file type : Bytes) (r : Response)
    → after_dot file ≡ some type
    → length type < 50
    → set_content_type file r ≡ done (typed type r)
unfolding set_content_type http_set_content_type typed media
set_content_type_lem file type r dot small =
    let first = lt→ltb (length (media type)) 64 (omega (arith, length-media type)) in
    let second =
      lt→ltb (length (crlf ++ (codes "Content-Type: " ++ (media type ++ codes "; charset=utf-8"))))
        128
        (omega (arith, length-media type, length-append (media type) (codes "; charset=utf-8"))) in
    simp (dot, first, second)

-- A request for a resource, without a query, is served to anybody, whatever the resource's name:
-- each file that is not empty and that the path behind `view/resources/` reaches, `..` included,
-- is the body of a response of 200, as long as the path has fewer than 256 bytes and what follows
-- its first dot fewer than 50.
pub resource_unguarded :
    (files : Bytes → Option Bytes) (view_path resources_path suffix type body : Bytes) (c : ℕ)
    (request : Request) (w : World)
    → request.args ≡ none
    → request.url_suffix ≡ some suffix
    → length resources_path + length suffix < 256
    → after_dot (resources_path ++ suffix) ≡ some type
    → length type < 50
    → files (resources_path ++ suffix) ≡ some (c ∷ body)
    → (r : Response) × (crypto_get_resource files view_path resources_path request blank w
        ≡ done (r, w))
      × (r.code ≡ 200)
      × (r.payload ≡ some (c ∷ body))
unfolding crypto_get_resource gen_path http_set_response_code http_set_body typed
resource_unguarded files view_path resources_path suffix type body c request w a s short dot small
      file =
    let path = resources_path ++ suffix in
    let ok = record blank { code = 200; status_line = codes "OK" } in
    (
      record (typed type ok) {
        payload_size = length (c ∷ body);
        clean_payload = true;
        payload = some (c ∷ body);
      },
      simp (
        a,
        s,
        lt→ltb (length resources_path + length suffix) 256 short,
        file,
        set_content_type_lem path type ok dot small,
      ),
      refl,
      refl,
    )
