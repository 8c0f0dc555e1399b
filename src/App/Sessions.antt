-- ===== src/App/Sessions.antt =====
-- Which requests have a session: the cookie of the request against the table of
-- http_libs/http_session.c, for the handlers of app/app.c.
use mathlib.Core.Path.{subst}
use tiny_https_server.Prelude.{
  ℕ, suc, ◌+◌, ◌<◌, ◌≡◌, refl, sym, ap, ◌∙◌, inl, inr, true, false, ◌&&◌, not, Option, none, some,
  List, [], ◌∷◌, arith, ◌==◌, if◌then◌else◌, length, take, Bytes, codes, str_eq, str_eq_sound,
  Bool-cases,
}
use tiny_https_server.Prelude.Run.{Run, done, read, ◌>>=◌}
use tiny_https_server.Requests.{Request, http_get_cookie}
use tiny_https_server.Requests.Cookies.{first_cookie, http_get_cookie_lem}
use tiny_https_server.Session.{Session, Managers, session_at, get_by_id, get_by_id_loop}
use tiny_https_server.Session.Logins.{http_session_get}
use tiny_https_server.App.{session_of}

-- The value of the request's cookie `session_id`, at most 36 bytes of it, is the id of the slot `e`,
-- and not empty. The value stands behind the first place where `Cookie: session_id=` does.
pub record HasSession (m : Managers) (request : Request) (e : ℕ) : Type 0 where
  pub raw : Bytes
  pub value : Bytes
  pub received : request.raw ≡ some raw
  pub cookie : first_cookie (codes "Cookie: ") raw (codes "session_id") ≡ some value
  pub id : (session_at m.session.sessions e).id ≡ take 36 value
  pub some_id : 0 < length (session_at m.session.sessions e).id

-- A slot that the scan answers.
record Scanned (ss : List Session) (k e : ℕ) (id : Bytes) : Type 0 where
  place : ℕ
  at : e ≡ k + place
  same : (session_at ss place).id ≡ id
  some_id : 0 < length (session_at ss place).id

scan_hit :
    (s : Session) (ss : List Session) (k e : ℕ) (id : Bytes)
    → (not (length s.id == 0) && str_eq s.id id) ≡ true
    → get_by_id_loop (s ∷ ss) k id ≡ some e
    → k ≡ e
unfolding get_by_id_loop
scan_hit s ss k e id h h' = ground (arith, h, h')

scan_passes :
    (s : Session) (ss : List Session) (k : ℕ) (id : Bytes)
    → (not (length s.id == 0) && str_eq s.id id) ≡ false
    → get_by_id_loop (s ∷ ss) k id ≡ get_by_id_loop ss (suc k) id
unfolding get_by_id_loop
scan_passes s ss k id h = ap (λ b. if b then some k else get_by_id_loop ss (suc k) id) h

get_by_id_loop-Scanned :
    (ss : List Session) (k e : ℕ) (id : Bytes) → get_by_id_loop ss k id ≡ some e → Scanned ss k e id
unfolding get_by_id_loop
get_by_id_loop-Scanned [] k e id h = cc
get_by_id_loop-Scanned (s ∷ ss) k e id h =
    elim (Bool-cases (not (length s.id == 0) && str_eq s.id id)) [
      | inl hit ↦
          let here = scan_hit s ss k e id hit h in
          record {
            place = 0;
            at = omega (arith, here);
            same = str_eq_sound s.id id (ground (arith, hit));
            some_id = ground (arith, hit);
          }
      | inr passed ↦
          let rest =
            get_by_id_loop-Scanned ss (suc k) e id (sym (scan_passes s ss k id passed) ∙ h) in
          record {
            place = suc rest.place;
            at = omega (arith, rest.at);
            same = rest.same;
            some_id = rest.some_id;
          }
    ]

module _ (m : Managers) (request : Request) where
  got-HasSession :
      (raw : Bytes) (c : Option Bytes) (e : ℕ)
      → request.raw ≡ some raw
      → first_cookie (codes "Cookie: ") raw (codes "session_id") ≡ c
      → http_session_get m c ≡ some e
      → HasSession m request e
  unfolding http_session_get get_by_id
  got-HasSession raw none e r c h = cc
  got-HasSession raw (some value) e r c h =
      let found = get_by_id_loop-Scanned m.session.sessions 0 e (take 36 value) h in
      let here : found.place ≡ e = omega (arith, found.at) in
      record {
        raw = raw;
        value = value;
        received = r;
        cookie = c;
        id = subst (λ i. (session_at m.session.sessions i).id ≡ take 36 value) here found.same;
        some_id = subst (λ i. 0 < length (session_at m.session.sessions i).id) here found.some_id;
      }

  raw_session : Option Bytes → Run (Option ℕ)
  raw_session o =
      read o >>= λ raw. done (http_session_get m (http_get_cookie raw (codes "session_id")))

  -- What `http_session_get` answers for a request is a session that the request has.
  pub session_of-HasSession :
      (e : ℕ) → session_of m request ≡ done (some e) → HasSession m request e
  unfolding session_of raw_session
  session_of-HasSession e h = by_raw request.raw refl h
    where
      by_raw :
          (o : Option Bytes)
          → request.raw ≡ o
          → raw_session o ≡ done (some e)
          → HasSession m request e
      by_raw none r h' = cc
      by_raw (some raw) r h' =
          got-HasSession raw (http_get_cookie raw (codes "session_id")) e r
            (sym (http_get_cookie_lem raw (codes "session_id"))) (answered h')
        where
          answered :
              (done (http_session_get m (http_get_cookie raw (codes "session_id")))) ≡ done (some e)
              → http_session_get m (http_get_cookie raw (codes "session_id")) ≡ some e
          answered q = cc
