-- ===== src/Dispatch/Serve.antt =====
-- Which handler serves a request, and what a request without one gets, in server/http.c.
use tiny_https_server.Prelude.{
  ℕ, ◌+◌, ◌≡◌, refl, sym, ap, ◌∙◌, inl, inr, Bool, true, false, ◌||◌, List, [], str_eq, codes,
  Bool-cases, Option, none, some, ◌∷◌, ◌++◌, ◌==◌, if◌then◌else◌, length, drop, Bytes,
}
use tiny_https_server.Prelude.Run.{Run, done, ◌>>=◌}
use tiny_https_server.Requests.{Request, spaces, blanks}
use tiny_https_server.Requests.Parse.{lacks, IsToken, url_text, parse_line}
use tiny_https_server.Response.{
  Response, blank, http_set_response_code, http_set_content_type, http_set_body, text_of,
}
use tiny_https_server.Routes.{Method, Store, node, handler, http_resolve_path, is_known}
use tiny_https_server.Routes.Resolve.{http_resolve_path_total}
use tiny_https_server.Routes.Register.RoundTrip.{answer}
use tiny_https_server.Dispatch.{method_of, refuse, Handler, serve, http_process_request}

-- A request line with its rest.
abbrev pub line : Bytes → Bytes → Option Bytes → Bytes → Bytes → Bytes
line method path args version rest =
    method ++ b' ' ∷ (url_text path args ++ b' ' ∷ (version ++ 13 ∷ rest))

-- The names of the methods, and the method of a name.
abbrev pub names : List (Bytes × Method)
names =
    (codes "GET", Method.get)
    ∷ (codes "POST", Method.post)
    ∷ (codes "PUT", Method.put)
    ∷ (codes "PATCH", Method.patch)
    ∷ (codes "DELETE", Method.delete)
    ∷ []

abbrev pub named : List (Bytes × Method) → Bytes → Method
named [] s = Method.unknown
named ((name, m) ∷ rest) s = if str_eq s name then m else named rest s

abbrev pub is_named : List (Bytes × Method) → Bytes → Bool
is_named [] s = false
is_named ((name, m) ∷ rest) s = str_eq s name || is_named rest s

method_of_lem : (s : Bytes) → method_of s ≡ named names s
unfolding method_of
method_of_lem s = refl

abbrev AllKnown : List (Bytes × Method) → Type 0
AllKnown [] = Unit {0}
AllKnown ((name, m) ∷ rest) = (is_known m ≡ true) × AllKnown rest

is_known-named :
    (table : List (Bytes × Method)) (s : Bytes)
    → AllKnown table
    → is_known (named table s) ≡ is_named table s
is_known-named [] s h = refl
is_known-named ((name, m) ∷ rest) s (h, hs) = elim (Bool-cases (str_eq s name)) [
  | inl e ↦ simp (e, h)
  | inr e ↦ simp (e, is_known-named rest s hs)
]

known_lem : (s : Bytes) → is_known (method_of s) ≡ is_named names s
known_lem s =
    ap is_known (method_of_lem s)
    ∙ is_known-named names s (refl, (refl, (refl, (refl, (refl, tt)))))

-- Every refusal is a response of 405, or of 400 for a method that the server does not know; its
-- size is that of the text with its terminator.
refuse_lem :
    (m : Method)
    → (r : Response) × (refuse m ≡ done r)
      × (r.code ≡ (if is_known m then 405 else 400))
      × (r.payload_size ≡ length (text_of r.payload) + 1)
unfolding refuse http_set_response_code http_set_content_type http_set_body
refuse_lem Method.get = (_, refl, refl, refl)
refuse_lem Method.post = (_, refl, refl, refl)
refuse_lem Method.put = (_, refl, refl, refl)
refuse_lem Method.patch = (_, refl, refl, refl)
refuse_lem Method.delete = (_, refl, refl, refl)
refuse_lem Method.unknown = (_, refl, refl, refl)

answered :
    {H : Type 0} (s : Store H) (p : Bytes) (m : Method) (i : ℕ) (r : Option Bytes) (h : Option H)
    → http_resolve_path s 0 p ≡ some (i, r)
    → answer s p m ≡ some h
    → handler (node s i) m ≡ h
unfolding answer
answered s p m i r h e a =
    let at : answer s p m ≡ some (handler (node s i) m) = rw (e, answer) refl in cc (sym at ∙ a)

module _ {W : Type 0} (tree : Store (Handler W)) (method path version rest : Bytes)
    (args : Option Bytes) (header_end : ℕ) (w : W) (m : IsToken spaces method)
    (u : IsToken spaces (url_text path args)) (v : IsToken blanks version)
    (q : lacks (λ c. c == b'?') path ≡ true) where
  -- What the handler is given.
  abbrev pub given : Option Bytes → Request
  given suffix = record {
    method = method;
    url = path;
    url_suffix = suffix;
    args = args;
    version = version;
    body = drop header_end (line method path args version rest);
    raw = some rest;
  }

  processed :
      (i : ℕ) (suffix : Option Bytes)
      → http_resolve_path tree 0 path ≡ some (i, suffix)
      → http_process_request tree (line method path args version rest) header_end w
        ≡ serve (handler (node tree i) (method_of method)) (method_of method) (given suffix) w
  unfolding http_process_request
  processed i suffix e = simp (parse_line method path version rest args m u v q, e)

  -- A request for which the tree has the handler `h`, for the method of the name, gets the response of
  -- `h`, which is given the parts of the request line, what `http_resolve_path` leaves of the path,
  -- and a response that is blank.
  pub calls_handler :
      (h : Handler W)
      → answer tree path (named names method) ≡ some (some h)
      → (i : ℕ) × (suffix : Option Bytes) × (http_resolve_path tree 0 path ≡ some (i, suffix))
        × (http_process_request tree (line method path args version rest) header_end w
            ≡ h (given suffix) blank w)
  calls_handler h a =
      let (i, suffix, e, _) = http_resolve_path_total tree 0 path in
      let found : handler (node tree i) (method_of method) ≡ some h =
        answered tree path (method_of method) i suffix (some h) e
          (ap (answer tree path) (method_of_lem method) ∙ a) in
      (
        i,
        suffix,
        e,
        processed i suffix e ∙ ap (λ o. serve o (method_of method) (given suffix) w) found,
      )

  -- A request for which the tree has no handler, for the method of the name, is refused and changes
  -- nothing: the code is 405, or 400 where the name is none of GET, POST, PUT, PATCH and DELETE, and
  -- the size that is sent counts a terminator.
  pub refuses :
      answer tree path (named names method) ≡ some none
      → (r : Response) × (http_process_request tree
            (line method path args version rest)
            header_end
            w
          ≡ done (r, w))
        × (r.code ≡ (if is_named names method then 405 else 400))
        × (r.payload_size ≡ length (text_of r.payload) + 1)
  refuses a =
      let (i, suffix, e, _) = http_resolve_path_total tree 0 path in
      let (r, eq, code, size) = refuse_lem (method_of method) in
      let found : handler (node tree i) (method_of method) ≡ none =
        answered tree path (method_of method) i suffix none e
          (ap (answer tree path) (method_of_lem method) ∙ a) in
      (
        r,
        processed i suffix e
            ∙ ap (λ o. serve o (method_of method) (given suffix) w) found
            ∙ ap (λ (x : Run Response). x >>= λ r'. done (r', w)) eq,
        code ∙ ap (λ b. if b then 405 else 400) (known_lem method),
        size,
      )
