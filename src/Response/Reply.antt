-- ===== src/Response/Reply.antt =====
-- The buffer of the reply's head in `http_process_request` of server/http.c.
use tiny_https_server.Prelude.{
  ℕ, zero, suc, ◌+◌, ◌/◌, ◌%◌, ◌≤◌, ◌<◌, [], ◌∷◌, ◌++◌, arith, length, length-append, codes,
}
use tiny_https_server.Response.{Response, decimal, text_of, reply_text, max_len, crlf}

-- As many digits as the fuel allows.
length-decimal : (fuel n : ℕ) → length (decimal fuel n) ≤ fuel
unfolding decimal
length-decimal zero n = omega arith
length-decimal (suc fuel) n = ground (
  arith,
  length-decimal fuel (n / 10),
  length-append (decimal fuel (n / 10)) ((n % 10 + 48) ∷ []),
)

-- The head of a reply whose header text fits its buffer is never cut: what `snprintf` has to print,
-- terminator included, fits the buffer that was allocated, so the length that goes to `SSL_write`
-- is that of bytes which were written.
pub reply_fits :
    (r : Response)
    → length (text_of r.header_buf) ≤ r.header_buf_size
    → length (reply_text r) < max_len r
unfolding reply_text max_len
reply_fits r h =
    let tail =
      crlf ++ (codes "Content-Length: " ++ (decimal 20 r.payload_size ++ (crlf ++ crlf))) in
    let fields = text_of r.header_buf ++ tail in
    omega (
      arith,
      h,
      length-decimal 11 r.code,
      length-decimal 20 r.payload_size,
      length-append (decimal 20 r.payload_size) (crlf ++ crlf),
      length-append (text_of r.header_buf) tail,
      length-append r.content_type fields,
      length-append r.location (r.content_type ++ fields),
      length-append r.status_line (r.location ++ (r.content_type ++ fields)),
      length-append (decimal 11 r.code)
          (codes " " ++ (r.status_line ++ (r.location ++ (r.content_type ++ fields)))),
    )
