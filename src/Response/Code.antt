-- ===== src/Response/Code.antt =====
-- server/http.h: the indices HTTP_200_OK and so on of the table `HttpResponses` of server/http.c.
use tiny_https_server.Prelude.{ℕ}

abbrev pub ok : ℕ
ok = 1

abbrev pub created : ℕ
created = 2

abbrev pub found : ℕ
found = 5

abbrev pub see_other : ℕ
see_other = 6

abbrev pub bad_request : ℕ
bad_request = 10

abbrev pub unauthorized : ℕ
unauthorized = 11

abbrev pub not_found : ℕ
not_found = 13

abbrev pub not_allowed : ℕ
not_allowed = 14
