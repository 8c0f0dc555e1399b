-- ===== src/App/Tests.antt =====
-- The theorems on app/app.c at a server with one user, and runs of the handlers.
use tiny_https_server.Prelude.{
  ℕ, zero, suc, ◌≡◌, refl, true, false, Option, none, some, [], ◌∷◌, ◌++◌, arith, Bytes, codes,
  str_eq, if◌then◌else◌,
}
use tiny_https_server.Prelude.Run.{done}
use tiny_https_server.Requests.{Request, http_get_cookie, cookie_loop}
use tiny_https_server.Response.{
  Response, blank, http_set_response_code, http_set_content_type, http_set_body, crlf,
}
use tiny_https_server.Session.{User, name_size, no_session, get_by_id, get_by_id_loop}
use tiny_https_server.Session.Fields.{strncpy, text, terminated}
use tiny_https_server.Session.Users.{IsReadable, user_at}
use tiny_https_server.Session.Logins.{http_session_get}
use tiny_https_server.App.{
  World, session_of, gen_path, after_dot, crypto_get_home, credentials, quoted,
}
use tiny_https_server.App.Sessions.{HasSession}
use tiny_https_server.App.Guards.{home_guarded}

abbrev files : Bytes → Option Bytes
files path =
    if str_eq path (codes "view/index.html")
    then some (codes "<html>")
    else if str_eq path (codes "view/resources/../../users")
    then some (codes "alice")
    else none

alice : User
unfolding strncpy
alice = record {
  name = strncpy name_size (codes "alice");
  password = strncpy name_size (codes "secret");
  refs = 1;
}

abbrev world : World
world = record {
  managers = record {
    user = record {
      locked = false;
      capacity = 2;
      entries = 1;
      last = 1;
      users = alice ∷ [];
      work_capacity = 4;
      work = [];
    };
    session = record {
      session_timeout = 900;
      capacity = 2;
      entries = 1;
      last = 1;
      sessions = record { id = codes "5f"; expire_s = 900; user_ref = some 0 } ∷ no_session ∷ [];
    };
  };
  portfolios = [];
}

abbrev request : Request
request = record {
  method = codes "GET";
  url = codes "/home";
  url_suffix = none;
  args = none;
  version = codes "HTTP/1.1";
  body = [];
  raw = some (codes "Cookie: session_id=5f");
}

abbrev page : Response
page = record blank {
  code = 200;
  status_line = codes "OK";
  content_type = crlf ++ codes "Content-Type: text/html; charset=utf-8";
  payload_size = 6;
  clean_payload = true;
  payload = some (codes "<html>");
}

page_sent :
    crypto_get_home files (codes "view/") (codes "view/resources/") request blank world
    ≡ done (page, world)
unfolding crypto_get_home session_of http_get_cookie cookie_loop http_session_get get_by_id
    get_by_id_loop gen_path http_set_response_code http_set_content_type http_set_body
page_sent = refl

home_guarded_example : (e : ℕ) × HasSession world.managers request e
home_guarded_example =
    home_guarded files (codes "view/") (codes "view/resources/") request world world page page_sent
      refl

readable : IsReadable world.managers.user
unfolding alice strncpy
readable = record { within = omega arith; names = names_end; passwords = passwords_end }
  where
    names_end : (i : ℕ) → terminated (user_at (alice ∷ []) i).name ≡ true
    names_end zero = refl
    names_end (suc i) = refl

    passwords_end : (i : ℕ) → terminated (user_at (alice ∷ []) i).password ≡ true
    passwords_end zero = refl
    passwords_end (suc i) = refl

alice_named : text alice.name ≡ codes "alice"
unfolding alice text strncpy
alice_named = refl

dots : after_dot (codes "view/resources/../../users") ≡ some (codes "./../users")
unfolding after_dot
dots = refl

two_fields :
    credentials (codes "{\"username\":\"al\",\"password\":\"pw\"}") ≡ done (codes "al", codes "pw")
unfolding credentials quoted
two_fields = refl
