-- ===== src/Session/Logins/Logout.antt =====
-- http_libs/http_session.c: logging out ends the session of the cookie, and no other.
use native.Mathlib.Decide.{dec_lt, ℕ_discrete}
use tiny_https_server.Prelude.{
  ℕ, ◌≤◌, ◌<◌, ◌≡◌, ◌≢◌, sym, ap, ◌∙◌, false, none, some, [], ◌++◌, arith, length, set, Bytes,
  length-set, get_or-set_self, get_or-set_ne,
}
use tiny_https_server.Prelude.Run.{done}
use tiny_https_server.Session.{Session, SessionManager, Managers, no_session, session_at, get_by_id}
use tiny_https_server.Session.Logins.{
  http_session_get, end_session, shrink_last, http_session_logout_user,
}
use tiny_https_server.Session.Logins.Slots.{IsValid}
use tiny_https_server.Session.Logins.RoundTrip.{get_by_id_none, get_by_id_hit, take-id, first}

-- The table after the session `e` is cleared and `last` adjusted.
abbrev pub cleared : SessionManager → ℕ → SessionManager
cleared m e =
    shrink_last
      (record m {
        sessions = set m.sessions e (record (session_at m.sessions e) { id = []; user_ref = none });
      })
      e

module _ (m : SessionManager) (e : ℕ) (v : IsValid m) (lt : e < m.last) where
  cleared_self :
      session_at (cleared m e).sessions e
      ≡ record (session_at m.sessions e) { id = []; user_ref = none }
  unfolding shrink_last
  cleared_self =
      get_or-set_self m.sessions e _ no_session (omega (arith, v.slots, v.last_le, v.entries_le))

  pub cleared_other :
      (j : ℕ) → j ≢ e → session_at (cleared m e).sessions j ≡ session_at m.sessions j
  unfolding shrink_last
  cleared_other j ne = get_or-set_ne m.sessions e j _ no_session (λ q. ne (sym q))

  ref_of :
      (j : ℕ)
      → (j ≢ e → (session_at m.sessions j).user_ref ≡ none)
      → (session_at (cleared m e).sessions j).user_ref ≡ none
  ref_of j h = elim (ℕ_discrete j e) [
    | yes same ↦
        ap (λ k. (session_at (cleared m e).sessions k).user_ref) same
        ∙ ap (λ (s : Session). s.user_ref) cleared_self
    | no ne ↦ ap (λ (s : Session). s.user_ref) (cleared_other j ne) ∙ h ne
  ]

  id_of :
      (j : ℕ)
      → (session_at (cleared m e).sessions j).user_ref ≡ none
      → (session_at (cleared m e).sessions j).id ≡ []
  id_of j h = elim (ℕ_discrete j e) [
    | yes same ↦
        ap (λ k. (session_at (cleared m e).sessions k).id) same
        ∙ ap (λ (s : Session). s.id) cleared_self
    | no ne ↦
        ap (λ (s : Session). s.id) (cleared_other j ne)
        ∙ v.clear j (sym (ap (λ (s : Session). s.user_ref) (cleared_other j ne)) ∙ h)
  ]

  pub last-cleared :
      ((cleared m e).last ≤ m.last) × ((j : ℕ) → (cleared m e).last ≤ j → j ≢ e → m.last ≤ j)
  unfolding shrink_last
  last-cleared = (ground arith, λ j h ne. ground arith)

  pub cleared-IsValid : IsValid (cleared m e)
  unfolding shrink_last
  cleared-IsValid = record {
    room = v.room;
    slots = length-set m.sessions e _ ∙ v.slots;
    last_le = omega (arith, last-cleared.0, v.last_le);
    entries_le = v.entries_le;
    free = λ j h. ref_of j (λ ne. v.free j (last-cleared.1 j h ne));
    clear = id_of;
  }

logout_at :
    (m : Managers) (cookie : Bytes) (e : ℕ)
    → m.user.locked ≡ false
    → http_session_get m (some cookie) ≡ some e
    → http_session_logout_user m (some cookie)
      ≡ done (record (end_session m e) { session = cleared m.session e })
unfolding http_session_logout_user end_session
logout_at m cookie e open' h = rw (h, http_session_logout_user, open')

gone :
    (m : SessionManager) (e : ℕ) (uuid : Bytes)
    → IsValid m
    → e < m.last
    → length uuid ≡ 36
    → ((j : ℕ) → j ≢ e → (session_at m.sessions j).id ≢ uuid)
    → (j : ℕ) → (session_at (cleared m e).sessions j).id ≢ uuid
gone m e uuid v lt p one j h = elim (ℕ_discrete j e) [
  | yes same ↦ absurd (
      omega (
        arith,
        ap length (
            sym (ap (λ (s : Session). s.id) (cleared_self m e v lt))
            ∙ ap (λ k. (session_at (cleared m e).sessions k).id) (sym same)
            ∙ h),
      ))
  | no ne ↦ one j ne (sym (ap (λ (s : Session). s.id) (cleared_other m e v lt j ne)) ∙ h)
]

used_below :
    (m : SessionManager) (e u : ℕ)
    → IsValid m
    → (session_at m.sessions e).user_ref ≡ some u
    → e < m.last
used_below m e u v h = elim (dec_lt e m.last) [
  | yes lt ↦ lt
  | no ge ↦ cc (v.free e (omega arith), h)
]

-- While nobody holds the users' lock, on a session table that has its invariant: a logout with a
-- cookie that starts with the id of a user's session, of 36 bytes and of no other session, ends
-- that session. The cookie then leads to none, every other slot is as it was, and the table keeps
-- its invariant.
pub logout_ends :
    (m : Managers) (uuid rest : Bytes) (e u : ℕ)
    → m.user.locked ≡ false
    → IsValid m.session
    → length uuid ≡ 36
    → (session_at m.session.sessions e).id ≡ uuid
    → (session_at m.session.sessions e).user_ref ≡ some u
    → ((j : ℕ) → j ≢ e → (session_at m.session.sessions j).id ≢ uuid)
    → (m' : Managers) × (http_session_logout_user m (some (uuid ++ rest)) ≡ done m')
      × ((rest' : Bytes) → http_session_get m' (some (uuid ++ rest')) ≡ none)
      × ((j : ℕ) → j ≢ e → session_at m'.session.sessions j ≡ session_at m.session.sessions j)
      × IsValid m'.session
unfolding http_session_logout_user http_session_get end_session get_by_id
logout_ends m uuid rest e u open' v p id ref one =
    let lt = used_below m.session e u v ref in
    let after = record (end_session m e) { session = cleared m.session e } in
    (
      after,
      logout_at m (uuid ++ rest) e open' (
          rw (take-id uuid rest 36 p)
            (get_by_id_hit m.session.sessions 0 e uuid (omega arith) id one ∙ first e)),
      λ rest'. rw (take-id uuid rest' 36 p) (
          get_by_id_none (cleared m.session e).sessions 0 uuid (omega arith)
            (gone m.session e uuid v lt p one)),
      cleared_other m.session e v lt,
      cleared-IsValid m.session e v lt,
    )
