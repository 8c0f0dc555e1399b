-- ===== src/Requests/Cookies.antt =====
-- `http_get_cookie` of server/http.c against a search that looks at every place.
use mathlib.Core.Path.{subst}
use tiny_https_server.Prelude.{
  ℕ, zero, suc, ◌+◌, ◌≤◌, ◌<◌, ◌≡◌, refl, sym, ap, ◌∙◌, inl, inr, true, false, ◌&&◌, Option, none,
  some, [], ◌∷◌, ◌++◌, arith, if◌then◌else◌, length, drop, Bytes, codes, starts_with, strstr,
  Bool-cases, length-append,
}
use tiny_https_server.Requests.{at_byte, cookie_loop, http_get_cookie}

-- What stands behind the first `<header><cookie>=`, wherever that is.
unfoldable pub first_cookie : Bytes → Bytes → Bytes → Option Bytes
first_cookie header [] cookie = none
first_cookie header (c ∷ s) cookie =
    let rest = first_cookie header s cookie in
    let value = drop (length header) (c ∷ s) in
    if starts_with (c ∷ s) header
      && (starts_with value cookie && at_byte b'=' (drop (length cookie) value))
    then some (drop (length cookie + 1) value)
    else rest

prefix_cut : (s p : Bytes) → starts_with s p ≡ true → s ≡ p ++ drop (length p) s
prefix_cut s [] h = refl
prefix_cut [] (p ∷ ps) h = cc
prefix_cut (c ∷ s) (p ∷ ps) h = ground (arith, prefix_cut s ps)

-- The search for the header's name passes no place that matters.
strstr-none :
    (header s cookie : Bytes) → strstr s header ≡ none → first_cookie header s cookie ≡ none
unfolding first_cookie
strstr-none header [] cookie h = refl
strstr-none header (c ∷ s) cookie h = ground (arith, strstr-none header s cookie)

strstr_step :
    (c : ℕ) (s header : Bytes)
    → strstr (c ∷ s) header ≡ (if starts_with (c ∷ s) header then some (c ∷ s) else strstr s header)
strstr_step c s header = refl

first_cookie-tail :
    (header : Bytes) (c : ℕ) (s cookie : Bytes)
    → starts_with (c ∷ s) header ≡ false
    → first_cookie header (c ∷ s) cookie ≡ first_cookie header s cookie
unfolding first_cookie
first_cookie-tail header c s cookie off = rw off refl

strstr-some :
    (header s cookie t : Bytes)
    → 0 < length header
    → strstr s header ≡ some t
    → (starts_with t header ≡ true)
      × (first_cookie header s cookie ≡ first_cookie header t cookie)
      × (length t ≤ length s)
strstr-some [] [] cookie t pos h = absurd (omega arith)
strstr-some (p ∷ ps) [] cookie t pos h = cc
strstr-some header (c ∷ s) cookie t pos h = elim (Bool-cases (starts_with (c ∷ s) header)) [
  | inl on ↦
      (let e : (c ∷ s) ≡ t = here on in
        subst
          (λ u.
            (starts_with u header ≡ true)
            × (first_cookie header (c ∷ s) cookie ≡ first_cookie header u cookie)
            × (length u ≤ length (c ∷ s)))
          e (on, refl, omega arith))
  | inr off ↦
      (let (a, b, l) = strstr-some header s cookie t pos (there off) in
        (a, first_cookie-tail header c s cookie off ∙ b, omega (arith, l)))
]
  where
    here : starts_with (c ∷ s) header ≡ true → (c ∷ s) ≡ t
    here on = ground (arith, strstr_step c s header)

    there : starts_with (c ∷ s) header ≡ false → strstr s header ≡ some t
    there off = ground (arith, strstr_step c s header)

-- No place within a `Cookie: ` starts another one.
past_header :
    (value cookie : Bytes)
    → first_cookie (codes "Cookie: ") (codes "Cookie: " ++ value) cookie ≡ (
        if starts_with value cookie && at_byte b'=' (drop (length cookie) value)
        then some (drop (length cookie + 1) value)
        else first_cookie (codes "Cookie: ") value cookie)
unfolding first_cookie
past_header value cookie = refl

loops :
    (fuel : ℕ) (str cookie : Bytes)
    → length str < fuel
    → cookie_loop fuel str cookie ≡ first_cookie (codes "Cookie: ") str cookie
unfolding cookie_loop
loops zero str cookie enough = absurd (omega arith)
loops (suc fuel) str cookie enough =
    go (strstr str (codes "Cookie: ")) (λ v lt. loops fuel v cookie lt) refl
  where
    go :
        (r : Option Bytes)
        → ((v : Bytes)
            → length v < fuel
            → cookie_loop fuel v cookie ≡ first_cookie (codes "Cookie: ") v cookie)
        → strstr str (codes "Cookie: ") ≡ r
        → cookie_loop (suc fuel) str cookie ≡ first_cookie (codes "Cookie: ") str cookie
    go none shorter_ones e = rw (e, cookie_loop) (sym (strstr-none (codes "Cookie: ") str cookie e))
    go (some t) shorter_ones e =
        let v = drop 8 t in
        let (a, b, l) = strstr-some (codes "Cookie: ") str cookie t (omega arith) e in
        let cut = prefix_cut t (codes "Cookie: ") a in
        let shorter = length-append (codes "Cookie: ") v in
        rw (e, cookie_loop)
          (ap
              (λ (r : Option Bytes).
                if starts_with v cookie && at_byte b'=' (drop (length cookie) v)
                then some (drop (length cookie + 1) v)
                else r)
              (shorter_ones v (omega (arith, l, shorter, ap length cut)))
            ∙ sym
                (b ∙ ap (λ u. first_cookie (codes "Cookie: ") u cookie) cut ∙ past_header v cookie))

-- `http_get_cookie` answers what stands behind the first place of the request where `Cookie: `, the
-- cookie's name and an equals sign follow each other, and NULL if there is no such place.
pub http_get_cookie_lem :
    (raw cookie : Bytes) → http_get_cookie raw cookie ≡ first_cookie (codes "Cookie: ") raw cookie
unfolding http_get_cookie
http_get_cookie_lem raw cookie = loops (suc (length raw)) raw cookie (omega arith)
