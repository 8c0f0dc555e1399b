-- ===== src/Session/Logins/Cookie.antt =====
-- The cookie that http_libs/http_session.c sends for a session.
use tiny_https_server.Prelude.{
  ℕ, zero, suc, ◌<◌, ◌≤◌, ◌≡◌, refl, ap, [], ◌∷◌, ◌++◌, arith, length, Bytes, codes,
}
use tiny_https_server.Response.{Response, http_set_cookie}
use tiny_https_server.Session.{Managers, session_at}
use tiny_https_server.Session.Fields.{strncpy, text, IsText}
use tiny_https_server.Session.Logins.{cookie_value, http_session_set_cookie}

-- What follows the terminator of a field is not part of its text.
text-field : (n : ℕ) (s rest : Bytes) → IsText s → length s < n → text (strncpy n s ++ rest) ≡ s
unfolding text strncpy
text-field zero s rest v h = absurd (omega arith)
text-field (suc n) [] rest v h = refl
text-field (suc n) (c ∷ s) rest v h = ground (arith, text-field n s rest)

-- The cookie of a session whose id is a text of at most 36 bytes carries the id alone: the
-- attributes stand behind the id's terminator and are never sent.
pub cookie_bare :
    (m : Managers) (response : Response) (e : ℕ)
    → IsText (session_at m.session.sessions e).id
    → length (session_at m.session.sessions e).id ≤ 36
    → http_session_set_cookie m response e
      ≡ http_set_cookie response (codes "session_id") (session_at m.session.sessions e).id
unfolding http_session_set_cookie cookie_value
cookie_bare m response e v h = ap (http_set_cookie response (codes "session_id")) (
    text-field 37 (session_at m.session.sessions e).id (codes "; HttpOnly; Secure; SameSite=Strict")
      v (omega arith))
