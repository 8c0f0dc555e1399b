-- ===== src/Dispatch.antt =====
-- server/http.c: a round of `http_process_request` once the request is received: parsing, resolving
-- the path, and the choice of the handler or of a refusal by the method. A handler is a function of
-- the request, the response and a world `W`, the state that the application's handlers share.
pub mod Serve
mod Tests
use tiny_https_server.Prelude.{
  ℕ, ◌+◌, Bool, true, false, Option, none, some, List, [], ◌∷◌, ◌++◌, ltb, if◌then◌else◌, take,
  drop, Bytes, codes, str_eq,
}
use tiny_https_server.Prelude.Run.{Run, done, fault, ◌>>=◌, read}
use tiny_https_server.Requests.{Request, http_parse_header}
use tiny_https_server.Response.{
  Response, blank, http_set_response_code, http_set_content_type, http_set_body, text_of,
  reply_text,
}
use tiny_https_server.Response.Code
use tiny_https_server.Routes.{Method, Store, node, handler, http_resolve_path, is_known}

-- The comparisons of the method's name.
unfoldable pub method_of : Bytes → Method
method_of s =
    if str_eq s (codes "GET")
    then Method.get
    else if str_eq s (codes "POST")
    then Method.post
    else if str_eq s (codes "PUT")
    then Method.put
    else if str_eq s (codes "PATCH")
    then Method.patch
    else if str_eq s (codes "DELETE")
    then Method.delete
    else Method.unknown

-- The size and the text of a refusal.
abbrev pub refusal : Method → ℕ × Bytes
refusal Method.get = (23, codes "Method Get not allowed")
refusal Method.post = (24, codes "Method Post not allowed")
refusal Method.put = (23, codes "Method Put not allowed")
refusal Method.patch = (25, codes "Method Patch not allowed")
refusal Method.delete = (26, codes "Method Delete not allowed")
refusal Method.unknown = (12, codes "Bad request")

unfoldable pub refuse : Method → Run Response
refuse m = do
  r ← http_set_response_code blank (if is_known m then Code.not_allowed else Code.bad_request)
  r' ← http_set_content_type r (codes "text/html") true
  let (size, text) = refusal m
  done (http_set_body r' size text false)

abbrev pub Handler : Type 0 → Type 0
Handler W = Request → Response → W → Run (Response × W)

module _ {W : Type 0} where
  -- A handler, or the refusal where it is NULL.
  abbrev pub serve : Option (Handler W) → Method → Request → W → Run (Response × W)
  serve none m request w = refuse m >>= λ r. done (r, w)
  serve (some h) m request w = h request blank w

  -- From `http_parse_header` to the response.
  unfoldable pub http_process_request : Store (Handler W) → Bytes → ℕ → W → Run (Response × W)
  http_process_request tree payload header_end w = do
    request ← http_parse_header payload
    (path, suffix) ← read (http_resolve_path tree 0 request.url)
    let m = method_of request.method
    serve (handler (node tree path) m) m
        (record request { url_suffix = suffix; body = drop header_end payload }) w

-- What goes to `SSL_write`, where the first write succeeds; the payload's terminator is a byte of
-- it.
abbrev pub written : Response → List Bytes
written r =
    reply_text r
    ∷ (if ltb 0 r.payload_size then take r.payload_size (text_of r.payload ++ 0 ∷ []) ∷ [] else [])
