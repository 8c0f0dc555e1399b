-- ===== src/App.antt =====
-- app/app.c: the handlers of the pages, of the resources, and of the registration, the login and the
-- logout. A handler works on a `World`: the managers of users and sessions, and the names for which
-- it has called `PortfolioCreate`. The files are a function from a path to the contents, and the
-- random id of a session and what `realloc` leaves in new memory are arguments.
pub mod Sessions
pub mod Guards
pub mod Accounts
pub mod Start
pub mod Portfolios
mod Tests
use tiny_https_server.Prelude.{
  ℕ, ◌*◌, ◌%◌, ◌^◌, suc, ◌+◌, Bool, true, false, ◌&&◌, ◌||◌, not, Option, none, some, List, [], ◌∷◌,
  ◌++◌, ltb, ◌==◌, if◌then◌else◌, length, drop, Bytes, codes, starts_with, strstr, is_null,
}
use tiny_https_server.Prelude.Run.{Run, done, fault, ◌>>=◌, read}
use tiny_https_server.Requests.{Request, http_get_cookie}
use tiny_https_server.Response.{
  Response, http_set_response_code, http_set_content_type, http_set_redirect, http_set_body,
}
use tiny_https_server.Response.Code
use tiny_https_server.Session.{User, Managers, http_session_register_user}
use tiny_https_server.Session.Logins.{
  http_session_get, http_session_login_user, http_session_logout_user, http_session_set_cookie,
}

pub record World : Type 0 where
  pub managers : Managers
  pub portfolios : List Bytes

-- A code, a type and a body in one.
abbrev pub reply : Response → ℕ → Bytes → ℕ → Bytes → Run Response
reply response code type size body = do
  r ← http_set_response_code response code
  r' ← http_set_content_type r type true
  done (http_set_body r' size body false)

unfoldable pub not_found_reply : Response → Run Response
not_found_reply response =
    reply response Code.bad_request (codes "text/html") 22 (codes "<h1>404 Not Found</h1>")

unfoldable pub bad_request_reply : Response → Run Response
bad_request_reply response =
    reply response Code.bad_request (codes "text/html") 24 (codes "<h1>400 Bad Request</h1>")

unfoldable pub unauthorized_reply : Response → Run Response
unauthorized_reply response =
    reply response Code.unauthorized (codes "text/html") 24 (codes "<h1>401 UNAUTHORIZED</h1>")

-- The redirections, with the code of each.
unfoldable pub redirect : Response → ℕ → Bytes → Run Response
redirect response code location = do
  r ← http_set_response_code response code
  r' ← http_set_content_type r (codes "text/html") true
  http_set_redirect r' location

-- `gen_path` into an array of 256 bytes.
unfoldable pub gen_path : Bytes → Bytes → Run Bytes
gen_path base append =
    if ltb (length base + length append) 256 then done (base ++ append) else fault

-- `strchr(s, '.') + 1`
unfoldable pub after_dot : Bytes → Option Bytes
after_dot [] = none
after_dot (c ∷ s) = let rest = after_dot s in if c == b'.' then some s else rest

abbrev pub sprintf_64 : Bytes → Run Bytes
sprintf_64 s = if ltb (length s) 64 then done s else fault

unfoldable pub set_content_type : Bytes → Response → Run Response
set_content_type file response = do
  type ← read (after_dot file)
  content_type ← sprintf_64 (
      (if starts_with type (codes "js") || starts_with type (codes "json")
        then codes "application/"
        else codes "text/")
      ++ type)
  http_set_content_type response content_type true

-- `http_session_get` on the request.
unfoldable pub session_of : Managers → Request → Run (Option ℕ)
session_of m request = do
  raw ← read request.raw
  done (http_session_get m (http_get_cookie raw (codes "session_id")))

-- A loop that copies up to the closing quote into a zeroed array of 126 bytes; it has no bound of
-- its own and passes the terminator. The text, and the rest from the quote on.
unfoldable pub quoted : ℕ → Bytes → Run (Bytes × Bytes)
quoted room [] = fault
quoted room (c ∷ s) =
    let rest = quoted (suc room) s in
    if c == b'"'
    then done ([], c ∷ s)
    else if ltb room 125
    then (rest >>= λ (t, after). done (c ∷ t, after))
    else fault

-- `str += sizeof("username\":\"") - 1`
abbrev pub past_key : Bytes → Run Bytes
past_key s = if ltb (length s) 11 then fault else done (drop 11 s)

abbrev pub password_at : Bytes → Option Bytes → Run (Bytes × Bytes)
password_at username none = done (username, [])
password_at username (some s) = do
  value ← past_key s
  (password, _) ← quoted 0 value
  done (username, password)

abbrev pub username_at : Option Bytes → Run (Bytes × Bytes)
username_at none = done ([], [])
username_at (some s) = do
  value ← past_key s
  (username, after) ← quoted 0 value
  password_at username (strstr after (codes "password"))

-- The name and the password of the body of a login or a registration.
unfoldable pub credentials : Bytes → Run (Bytes × Bytes)
credentials body = username_at (strstr body (codes "username"))

-- What follows a request with a session in a login or a registration.
unfoldable pub already : Response → Run Response
already response = do
  r ← http_set_response_code response Code.bad_request
  http_set_content_type r (codes "text/plain") true

abbrev pub unchanged : World → Run Response → Run (Response × World)
unchanged w run = run >>= λ r. done (r, w)

abbrev pub is_empty : Bytes → Bool
is_empty s = length s == 0

-- `request->args != NULL || request->url_suffix != NULL`; the body of a request is never NULL.
abbrev pub extra : Request → Bool
extra request = not (is_null request.args) || not (is_null request.url_suffix)

module _ (files : Bytes → Option Bytes) (view_path resources_path : Bytes) where
  -- `get_file`, whose size 0 is a failure for its callers.
  abbrev pub get_file : Option Bytes → Option Bytes
  get_file none = none
  get_file (some []) = none
  get_file (some (c ∷ s)) = some (c ∷ s)

  -- A file as the response, or the reply that there is none.
  abbrev pub send : Response → (Response → Run Response) → Option Bytes → Run Response
  send response set_type none = not_found_reply response
  send response set_type (some payload) = do
    r ← http_set_response_code response Code.ok
    r' ← set_type r
    done (http_set_body r' (length payload) payload true)

  abbrev pub resource : Option Bytes → Response → Run Response
  resource none response = redirect response Code.see_other (codes "/login")
  resource (some suffix) response = do
    path ← gen_path resources_path suffix
    send response (set_content_type path) (get_file (files path))

  unfoldable pub crypto_get_resource : Request → Response → World → Run (Response × World)
  crypto_get_resource request response w = unchanged w (
      if is_null request.args
      then resource request.url_suffix response
      else bad_request_reply response)

  -- The form `file` for a request without a session, in `crypto_get_register` and
  -- `crypto_get_login`.
  abbrev pub form : Bytes → Response → Option ℕ → Run Response
  form file response (some session) = redirect response Code.see_other (codes "/home")
  form file response none = do
    path ← gen_path view_path file
    send response (set_content_type path) (get_file (files path))

  unfoldable pub crypto_get_form : Bytes → Request → Response → World → Run (Response × World)
  crypto_get_form file request response w = unchanged w (
      if extra request
      then bad_request_reply response
      else (session_of w.managers request >>= λ session. form file response session))

  unfoldable pub crypto_get_register : Request → Response → World → Run (Response × World)
  crypto_get_register = crypto_get_form (codes "register.html")

  unfoldable pub crypto_get_login : Request → Response → World → Run (Response × World)
  crypto_get_login = crypto_get_form (codes "login.html")

  abbrev pub home : Response → Option ℕ → Run Response
  home response none = redirect response Code.see_other (codes "/login")
  home response (some session) = do
    path ← gen_path view_path (codes "index.html")
    send response (λ r. http_set_content_type r (codes "text/html") true) (get_file (files path))

  unfoldable pub crypto_get_home : Request → Response → World → Run (Response × World)
  crypto_get_home request response w = unchanged w (
      if extra request
      then bad_request_reply response
      else (session_of w.managers request >>= λ session. home response session))

-- The rest of `crypto_post_register` once name and password are known.
unfoldable pub register : List User → Response → World → Bytes → Bytes → Run (Response × World)
register junk response w username password = do
  (registered, m) ← http_session_register_user w.managers junk username password
  r ← if registered then done response else bad_request_reply response
  let message = codes "{\"message\": \"User registered successfully\"}"
  r' ← reply r Code.created (codes "application/json") (length message) message
  done (r', record { managers = m; portfolios = w.portfolios ++ username ∷ [] })

abbrev pub logged : Response → World → Option ℕ × Managers → Run (Response × World)
logged response w (none, m) =
    reply response Code.unauthorized (codes "text/html") 24 (codes "<h1>401 UNAUTHORIZED</h1>")
    >>= λ r. done (r, record w { managers = m })
logged response w (some session, m) = do
  r ← http_session_set_cookie m response session
  r' ← redirect r Code.found (codes "/home")
  done (r', record w { managers = m })

-- The rest of `crypto_post_login`.
unfoldable pub login : Bytes → Response → World → Bytes → Bytes → Run (Response × World)
login uuid response w username password =
    http_session_login_user w.managers username password uuid >>= λ result. logged response w result

-- What the two handlers share: their checks, and then `rest` on the name and the password.
abbrev pub form_checked :
    Response
    → World
    → (Bytes → Bytes → Run (Response × World))
    → Bytes
    → Option ℕ
    → Run (Response × World)
form_checked response w rest body (some session) = unchanged w (already response)
form_checked response w rest body none = do
  (username, password) ← credentials body
  (if is_empty username || is_empty password
      then unchanged w (bad_request_reply response)
      else rest username password)

unfoldable pub post_form :
    (Response → World → Bytes → Bytes → Run (Response × World))
    → Request
    → Response
    → World
    → Run (Response × World)
post_form rest request response w =
    if extra request
    then unchanged w (bad_request_reply response)
    else (session_of w.managers request >>= λ session.
        form_checked response w (rest response w) request.body session)

unfoldable pub crypto_post_register :
    List User → Request → Response → World → Run (Response × World)
crypto_post_register junk = post_form (register junk)

unfoldable pub crypto_post_login : Bytes → Request → Response → World → Run (Response × World)
crypto_post_login uuid = post_form (login uuid)

unfoldable pub crypto_post_logout : Request → Response → World → Run (Response × World)
crypto_post_logout request response w = do
  raw ← read request.raw
  m ← http_session_logout_user w.managers (http_get_cookie raw (codes "session_id"))
  r ← redirect response Code.see_other (codes "/login")
  done (r, record w { managers = m })
