-- ===== src/Response.antt =====
-- server/http.c and server/http.h: `http_response_t`, the functions that fill it, and the head of the
-- reply that `http_process_request` formats from it. A `char` array or buffer is the text that it
-- holds; a write behind its end is a fault.
pub mod Code
pub mod Headers
pub mod Reply
mod Tests
use tiny_https_server.Prelude.{
  ℕ, zero, suc, ◌+◌, ◌-◌, ◌/◌, ◌%◌, ◌≡◌, Bool, true, false, Option, none, some, List, [], ◌∷◌, ◌++◌,
  ltb, ◌==◌, if◌then◌else◌, length, get_elem?, take, Bytes, codes,
}
use tiny_https_server.Prelude.Run.{Run, done, fault, ◌>>=◌, ◌>>◌, read}

-- `HttpResponses`
abbrev pub responses : List (ℕ × Bytes)
responses =
    (100, codes "Continue")
    ∷ (200, codes "OK")
    ∷ (201, codes "Created")
    ∷ (204, codes "No Content")
    ∷ (301, codes "Moved Permanently")
    ∷ (302, codes "Found")
    ∷ (303, codes "See Other")
    ∷ (304, codes "Not Modified")
    ∷ (307, codes "Temporary Redirect")
    ∷ (308, codes "Permanent Redirect")
    ∷ (400, codes "Bad Request")
    ∷ (401, codes "Unauthorized")
    ∷ (403, codes "Forbidden")
    ∷ (404, codes "Not Found")
    ∷ (405, codes "Method Not Allowed")
    ∷ (408, codes "Request Timeout")
    ∷ []

-- `http_response_t`; `header_buf` is NULL before the first entry, and `payload` before
-- `http_set_body`.
pub record Response : Type 0 where
  pub code : ℕ
  pub status_line : Bytes
  pub content_type : Bytes
  pub location : Bytes
  pub header_size : ℕ
  pub header_buf_size : ℕ
  pub header_buf : Option Bytes
  pub payload_size : ℕ
  pub clean_payload : Bool
  pub payload : Option Bytes

-- `http_response_t response = {0}`
abbrev pub blank : Response
blank = record {
  code = 0;
  status_line = [];
  content_type = [];
  location = [];
  header_size = 0;
  header_buf_size = 0;
  header_buf = none;
  payload_size = 0;
  clean_payload = false;
  payload = none;
}

-- `sprintf` of a text into an array of 128 bytes, the terminator included.
abbrev pub sprintf_128 : Bytes → Run Bytes
sprintf_128 s = if ltb (length s) 128 then done s else fault

unfoldable pub http_set_response_code : Response → ℕ → Run Response
http_set_response_code r code = do
  (number, reason) ← read (get_elem? responses code)
  done (record r { code = number; status_line = reason })

abbrev pub crlf : Bytes
crlf = 13 ∷ 10 ∷ []

-- `"\r\n%s: %s"`
abbrev pub entry : Bytes → Bytes → Bytes
entry name value = crlf ++ (name ++ (codes ": " ++ value))

-- The buffer's text up to an offset.
abbrev pub before : ℕ → Option Bytes → Bytes
before n none = []
before n (some s) = take n s

-- The size of the buffer after the growth, if there is one.
abbrev pub buf_size : Response → ℕ → ℕ
buf_size r len =
    if ltb r.header_buf_size (r.header_size + len)
    then r.header_buf_size + (if ltb len 128 then 128 else len)
    else r.header_buf_size

unfoldable pub http_add_header_entry : Response → Bytes → Bytes → Run Response
http_add_header_entry r name value =
    let len = length name + 2 + length value + 2 in
    let size = buf_size r len in
    if ltb (r.header_size + len) size
    then done (record r {
      header_buf_size = size;
      header_buf = some (before r.header_size r.header_buf ++ entry name value);
    })
    else fault

-- `http_set_cookie`
unfoldable pub http_set_cookie : Response → Bytes → Bytes → Run Response
unfolding http_add_header_entry
http_set_cookie r cookie value =
    http_add_header_entry r (codes "Set-Cookie") (cookie ++ (codes "=" ++ value))

unfoldable pub http_set_content_type : Response → Bytes → Bool → Run Response
http_set_content_type r type use_charset = do
  s ← sprintf_128 (
      crlf
      ++ (codes "Content-Type: "
          ++ (type ++ (if use_charset then codes "; charset=utf-8" else []))))
  done (record r { content_type = s })

unfoldable pub http_set_redirect : Response → Bytes → Run Response
http_set_redirect r location = do
  s ← sprintf_128 (crlf ++ (codes "Location: " ++ location))
  done (record r { location = s })

unfoldable pub http_set_body : Response → ℕ → Bytes → Bool → Response
http_set_body r len body clean = record r {
  payload_size = len;
  payload = some body;
  clean_payload = clean;
}

-- `%d` of a number that is not negative; the fuel bounds the digits.
unfoldable pub decimal : ℕ → ℕ → Bytes
decimal zero n = []
decimal (suc fuel) n =
    let rest = decimal fuel (n / 10) in
    if ltb n 10 then (n + 48) ∷ [] else rest ++ (n % 10 + 48) ∷ []

-- The arguments of `%s` and the sizes that `http_process_request` adds up.
abbrev pub text_of : Option Bytes → Bytes
text_of none = []
text_of (some s) = s

-- The text that `snprintf` has to print, with decimals of at most 11 and 20 digits.
unfoldable pub reply_text : Response → Bytes
reply_text r =
    codes "HTTP/1.1 "
    ++ (decimal 11 r.code
        ++ (codes " "
            ++ (r.status_line
                ++ (r.location
                    ++ (r.content_type
                        ++ (text_of r.header_buf
                            ++ (crlf
                                ++ (codes "Content-Length: "
                                    ++ (decimal 20 r.payload_size ++ (crlf ++ crlf))))))))))

-- `max_len`; `sizeof(response_format)` is 46. The status line is one that was set, as `strlen` is not
-- defined on NULL; one that is not set counts as empty.
unfoldable pub max_len : Response → ℕ
max_len r =
    46
    + length r.status_line
    + length r.content_type
    + length r.location
    + r.header_size
    + r.header_buf_size
    + 32
