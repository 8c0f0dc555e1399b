-- ===== src/Requests.antt =====
-- server/http.c and server/http.h: `http_request_t`, `http_parse_header` and `http_get_cookie`. A
-- `char*` is the text from it on; a call that follows NULL is a fault.
pub mod Cookies
pub mod Parse
mod Tests
use tiny_https_server.Prelude.{
  ℕ, zero, suc, ◌+◌, Bool, true, false, ◌&&◌, ◌||◌, Option, none, some, List, [], ◌∷◌, ◌==◌,
  if◌then◌else◌, length, drop, Bytes, codes, starts_with, strstr,
}
use tiny_https_server.Prelude.Run.{Run, done, fault, ◌>>=◌, read}

-- `http_request_t`. `raw` is `none` where it points behind the terminator of the whole request.
pub record Request : Type 0 where
  pub method : Bytes
  pub url : Bytes
  pub url_suffix : Option Bytes
  pub args : Option Bytes
  pub version : Bytes
  pub body : Bytes
  pub raw : Option Bytes

-- `str[len] == c`, at the terminator too.
abbrev pub at_byte : ℕ → Bytes → Bool
at_byte c [] = c == 0
at_byte c (b ∷ s) = b == c

-- The loop of `http_get_cookie`; the fuel bounds its rounds.
unfoldable pub cookie_loop : ℕ → Bytes → Bytes → Option Bytes
cookie_loop zero str cookie = none
cookie_loop (suc fuel) str cookie = elim (strstr str (codes "Cookie: ")) [
  | none ↦ none
  | some found ↦
      let value = drop 8 found in
      let rest = cookie_loop fuel value cookie in
      if starts_with value cookie && at_byte b'=' (drop (length cookie) value)
      then some (drop (length cookie + 1) value)
      else rest
]

-- `http_get_cookie` on `request->raw`.
unfoldable pub http_get_cookie : Bytes → Bytes → Option Bytes
http_get_cookie raw cookie = cookie_loop (suc (length raw)) raw cookie

-- The delimiters of `strtok_r`, its token and what stands behind the delimiter that ended it.
abbrev pub spaces : ℕ → Bool
spaces c = c == b' '

abbrev pub blanks : ℕ → Bool
blanks c = (c == b' ') || ((c == 13) || (c == 10))

unfoldable pub skip_delimiters : (ℕ → Bool) → Bytes → Bytes
skip_delimiters delim [] = []
skip_delimiters delim (c ∷ s) =
    let rest = skip_delimiters delim s in if delim c then rest else c ∷ s

unfoldable pub token : (ℕ → Bool) → Bytes → Bytes × Option Bytes
token delim [] = ([], none)
token delim (c ∷ s) =
    let (tok, rest) = token delim s in if delim c then ([], some s) else (c ∷ tok, rest)

abbrev pub token_at : (ℕ → Bool) → Bytes → Option (Bytes × Option Bytes)
token_at delim [] = none
token_at delim (c ∷ s) = some (token delim (c ∷ s))

-- `strtok_r`; it has nothing to look at behind the terminator.
unfoldable pub strtok_r : (ℕ → Bool) → Option Bytes → Option (Bytes × Option Bytes)
strtok_r delim none = none
strtok_r delim (some s) = token_at delim (skip_delimiters delim s)

-- The loop that cuts the url at its first question mark.
unfoldable pub split_args : Bytes → Bytes × Option Bytes
split_args [] = ([], none)
split_args (c ∷ s) =
    let (url, args) = split_args s in if c == b'?' then ([], some s) else (c ∷ url, args)

-- `http_parse_header`, on the text of the payload.
unfoldable pub http_parse_header : Bytes → Run Request
http_parse_header payload = do
  (method, r) ← read (strtok_r spaces (some payload))
  (url, r') ← read (strtok_r spaces r)
  (version, raw) ← read (strtok_r blanks r')
  let (path, args) = split_args url
  done (record {
    method = method;
    url = path;
    url_suffix = none;
    args = args;
    version = version;
    body = [];
    raw = raw;
  })
