-- ===== src/Response/Tests.antt =====
-- The theorems on the replies of server/http.c at concrete responses.
use tiny_https_server.Prelude.{◌<◌, ◌≡◌, refl, some, arith, length, codes}
use tiny_https_server.Prelude.Run.{done}
use tiny_https_server.Response.{
  Response, blank, entry, http_set_response_code, http_add_header_entry, reply_text, max_len,
}
use tiny_https_server.Response.Code
use tiny_https_server.Response.Reply.{reply_fits}

-- A response that has one header.
one_header : Response
one_header = record blank {
  code = 200;
  status_line = codes "OK";
  header_buf_size = 128;
  header_buf = some (entry (codes "Age") (codes "1"));
}

two_headers : Response
unfolding one_header
two_headers = record one_header { header_buf = some (entry (codes "Via") (codes "x")) }

second_header : http_add_header_entry one_header (codes "Via") (codes "x") ≡ done two_headers
unfolding http_add_header_entry one_header two_headers
second_header = refl

reply_fits_example : length (reply_text one_header) < max_len one_header
unfolding one_header
reply_fits_example = reply_fits one_header (omega arith)

code_not_allowed :
    http_set_response_code blank Code.not_allowed
    ≡ done (record blank { code = 405; status_line = codes "Method Not Allowed" })
unfolding http_set_response_code
code_not_allowed = refl
