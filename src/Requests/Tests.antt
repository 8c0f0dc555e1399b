-- ===== src/Requests/Tests.antt =====
-- The theorems on the requests of server/http.c at requests of a browser.
use tiny_https_server.Prelude.{◌≡◌, refl, none, some, [], ◌∷◌, ◌++◌, arith, Bytes, codes}
use tiny_https_server.Prelude.Run.{done}
use tiny_https_server.Requests.{http_get_cookie, cookie_loop, http_parse_header}
use tiny_https_server.Requests.Cookies.{first_cookie, http_get_cookie_lem}
use tiny_https_server.Requests.Parse.{url_text, parse_line}

abbrev raw : Bytes
raw = codes "Host: a" ++ 13 ∷ 10 ∷ codes "Cookie: session_id=7; theme=dark"

http_get_cookie_lem_example :
    http_get_cookie raw (codes "session_id") ≡ some (codes "7; theme=dark")
unfolding first_cookie
http_get_cookie_lem_example = http_get_cookie_lem raw (codes "session_id")

-- A cookie behind another one in its header is not found.
second_missed : http_get_cookie raw (codes "theme") ≡ none
unfolding http_get_cookie cookie_loop
second_missed = refl

parse_line_example :
    http_parse_header (
      codes "GET"
      ++ b' '
        ∷ (url_text (codes "/coin") (some (codes "BTC"))
            ++ b' ' ∷ (codes "HTTP/1.1" ++ 13 ∷ 10 ∷ raw)))
    ≡ done (record {
      method = codes "GET";
      url = codes "/coin";
      url_suffix = none;
      args = some (codes "BTC");
      version = codes "HTTP/1.1";
      body = [];
      raw = some (10 ∷ raw);
    })
parse_line_example =
    parse_line (codes "GET") (codes "/coin") (codes "HTTP/1.1") (10 ∷ raw) (some (codes "BTC"))
      (refl, omega arith) (refl, omega arith) (refl, omega arith) refl
