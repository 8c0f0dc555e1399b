-- ===== src/Requests/Parse.antt =====
-- `http_parse_header` of server/http.c: the parts of a request line come back.
use tiny_https_server.Prelude.{
  ℕ, ◌<◌, ◌≡◌, refl, ap, Bool, true, false, ◌&&◌, not, Option, none, some, [], ◌∷◌, ◌++◌, arith,
  ◌==◌, length, Bytes,
}
use tiny_https_server.Prelude.Run.{done}
use tiny_https_server.Requests.{
  spaces, blanks, skip_delimiters, token, strtok_r, split_args, http_parse_header,
}

-- A text without a delimiter, and a token: one that is not empty.
abbrev pub lacks : (ℕ → Bool) → Bytes → Bool
lacks delim [] = true
lacks delim (c ∷ s) = not (delim c) && lacks delim s

abbrev pub IsToken : (ℕ → Bool) → Bytes → Type 0
IsToken delim s = (lacks delim s ≡ true) × (0 < length s)

token_ends :
    (delim : ℕ → Bool) (s rest : Bytes) (d : ℕ)
    → lacks delim s ≡ true
    → delim d ≡ true
    → token delim (s ++ d ∷ rest) ≡ (s, some rest)
unfolding token
token_ends delim [] rest d v h = rw h refl
token_ends delim (c ∷ s) rest d v h = ground (arith, token_ends delim s rest d)

strtok_r_token :
    (delim : ℕ → Bool) (s rest : Bytes) (d : ℕ)
    → IsToken delim s
    → delim d ≡ true
    → strtok_r delim (some (s ++ d ∷ rest)) ≡ some (s, some rest)
unfolding strtok_r skip_delimiters
strtok_r_token delim [] rest d v h = absurd (omega (arith, v.1))
strtok_r_token delim (c ∷ s) rest d v h =
    let off : delim c ≡ false = ground (arith, v.0) in
    rw off (ap some (token_ends delim (c ∷ s) rest d v.0 h))

-- A url's text, from its path and its query.
abbrev pub url_text : Bytes → Option Bytes → Bytes
url_text path none = path
url_text path (some args) = path ++ b'?' ∷ args

split_args-url_text :
    (path : Bytes) (args : Option Bytes)
    → lacks (λ c. c == b'?') path ≡ true
    → split_args (url_text path args) ≡ (path, args)
unfolding split_args
split_args-url_text [] none v = refl
split_args-url_text [] (some args) v = refl
split_args-url_text (c ∷ path) none v = ground (arith, split_args-url_text path none)
split_args-url_text (c ∷ path) (some args) v = ground (arith, split_args-url_text path (some args))

-- A request line of a method, a url and a version, with a path that has no question mark and no
-- spaces in any part: `http_parse_header` returns the method, the path, the query if there is one,
-- the version, and as `raw` what stands behind the byte that ends the version.
pub parse_line :
    (method path version rest : Bytes) (args : Option Bytes)
    → IsToken spaces method
    → IsToken spaces (url_text path args)
    → IsToken blanks version
    → lacks (λ c. c == b'?') path ≡ true
    → http_parse_header (method ++ b' ' ∷ (url_text path args ++ b' ' ∷ (version ++ 13 ∷ rest)))
      ≡ done (record {
        method = method;
        url = path;
        url_suffix = none;
        args = args;
        version = version;
        body = [];
        raw = some rest;
      })
unfolding http_parse_header
parse_line method path version rest args m u v q = simp (
  strtok_r_token spaces method (url_text path args ++ b' ' ∷ (version ++ 13 ∷ rest)) b' ' m refl,
  strtok_r_token spaces (url_text path args) (version ++ 13 ∷ rest) b' ' u refl,
  strtok_r_token blanks version rest 13 v refl,
  split_args-url_text path args q,
)
