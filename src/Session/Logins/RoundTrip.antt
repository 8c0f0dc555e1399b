-- ===== src/Session/Logins/RoundTrip.antt =====
-- http_libs/http_session.c: who may log in, and from a login over the session's cookie to the logout.
use native.Mathlib.Decide.{dec_lt}
use tiny_https_server.Prelude.{
  ℕ, zero, suc, ◌+◌, ◌<◌, ◌≡◌, ◌≢◌, refl, sym, ap, ◌∙◌, inl, inr, false, Option, none, some, List,
  [], ◌∷◌, ◌++◌, arith, length, take, Bytes, str_eq, str_eq_refl, str_eq_sound, get_or-set_self,
  Bool-cases,
}
use tiny_https_server.Prelude.Run.{done, take_lock, ◌>>=◌}
use tiny_https_server.Session.{
  User, Session, UserManager, SessionManager, Managers, no_user, session_at, user_get,
  get_by_id_loop, get_by_id,
}
use tiny_https_server.Session.Fields.{text, IsText, strcmp_field_lem}
use tiny_https_server.Session.Users.{IsReadable, user_at, Finds, Finds-unique, user_get_lem}
use tiny_https_server.Session.Logins.{
  choose_session, start_session, add_ref, http_session_login_user, http_session_get,
  http_session_get_username, name_of,
}
use tiny_https_server.Session.Logins.Slots.{
  IsValid, HasRoom, choose_session-HasRoom, started_self, started_other, start_session-IsValid,
}

-- The scan for an id: it passes the slots without it, and stops at a slot with it.
pub get_by_id_none :
    (ss : List Session) (k : ℕ) (id : Bytes)
    → 0 < length id
    → ((j : ℕ) → (session_at ss j).id ≢ id)
    → get_by_id_loop ss k id ≡ none
unfolding get_by_id_loop
get_by_id_none [] k id p ne = refl
get_by_id_none (s ∷ ss) k id p ne =
    ground (arith, ne 0, str_eq_sound s.id id, get_by_id_none ss (suc k) id p (λ j. ne (suc j)))

pub get_by_id_hit :
    (ss : List Session) (k e : ℕ) (id : Bytes)
    → 0 < length id
    → (session_at ss e).id ≡ id
    → ((j : ℕ) → j ≢ e → (session_at ss j).id ≢ id)
    → get_by_id_loop ss k id ≡ some (k + e)
unfolding get_by_id_loop
get_by_id_hit [] k e id p h ne = absurd (omega (arith, ap length h))
get_by_id_hit (s ∷ ss) k zero id p h ne = ground (arith, str_eq_refl id)
get_by_id_hit (s ∷ ss) k (suc e) id p h ne = ground (
  arith,
  ne 0,
  str_eq_sound s.id id,
  get_by_id_hit ss (suc k) e id p h (λ j q. ne (suc j) (λ r. q (omega arith))),
)

-- A cookie's value that starts with the id.
pub take-id : (id rest : Bytes) (n : ℕ) → length id ≡ n → take n (id ++ rest) ≡ id
take-id [] rest zero h = refl
take-id [] rest (suc n) h = absurd (omega arith)
take-id (c ∷ id) rest zero h = absurd (omega arith)
take-id (c ∷ id) rest (suc n) h = ap (◌∷◌ c) (take-id id rest n (omega arith))

str_eq_ne : (s t : Bytes) → s ≢ t → str_eq s t ≡ false
str_eq_ne s t ne = elim (Bool-cases (str_eq s t)) [
  | inl same ↦ absurd (ne (str_eq_sound s t same))
  | inr differ ↦ differ
]

-- A user in the table whom the name finds and the password fits.
pub record IsUser (m : UserManager) (u : ℕ) (name password : Bytes) : Type 0 where
  pub below : u < m.last
  pub named : text (user_at m.users u).name ≡ name
  pub keyed : text (user_at m.users u).password ≡ password
  pub alone : (j : ℕ) → j < m.last → text (user_at m.users j).name ≡ name → j ≡ u

-- The managers after a login of the user `u`.
abbrev pub logged_in : Managers → ℕ → Bytes → Managers
logged_in m u uuid = record m {
  user = add_ref m.user u;
  session = start_session (choose_session m.session).1 (choose_session m.session).0 u uuid;
}

pub first : (e : ℕ) → some (0 + e) ≡ some e
first e = ap some (omega arith)

name-add_ref :
    (m : UserManager) (u : ℕ)
    → u < length m.users
    → (user_at (add_ref m u).users u).name ≡ (user_at m.users u).name
unfolding add_ref
name-add_ref m u lt = ap (λ (t : User). t.name) (get_or-set_self m.users u _ no_user lt)

module _ (m : Managers) (name password uuid : Bytes) (open' : m.user.locked ≡ false)
    (v : IsReadable m.user) (tn : IsText name) (tp : IsText password) where
  user_get_one : (u : ℕ) → IsUser m.user u name password → user_get m.user name ≡ done (some u)
  user_get_one u w =
      let (r, eq, f) = user_get_lem m.user name v tn in
      eq ∙ ap done (Finds-unique m.user.users m.user.last name r u f w.below w.named w.alone)

  login_accepts :
      (u : ℕ)
      → IsUser m.user u name password
      → http_session_login_user m name password uuid
        ≡ done (some (choose_session m.session).0, logged_in m u uuid)
  unfolding http_session_login_user
  login_accepts u w = simp (
    open',
    user_get_one u w,
    strcmp_field_lem (user_at m.user.users u).password password (v.passwords u) tp,
    w.keyed,
    str_eq_refl,
  )

  -- While nobody holds the users' lock, on a readable table of users: a login with a name that no
  -- user has, or with a password that no user of the name has, answers INVALID_SESSION_ID and
  -- changes nothing.
  pub login_refuses :
      ((i : ℕ)
        → i < m.user.last
        → text (user_at m.user.users i).name ≡ name
        → text (user_at m.user.users i).password ≢ password)
      → http_session_login_user m name password uuid ≡ done (none, m)
  unfolding http_session_login_user
  login_refuses bad = let (r, eq, f) = user_get_lem m.user name v tn in go r eq f
    where
      go :
          (r : Option ℕ)
          → user_get m.user name ≡ done r
          → Finds m.user.users m.user.last name r
          → http_session_login_user m name password uuid ≡ done (none, m)
      go none eq f = simp (open', eq)
      go (some u) eq f = simp (
        open',
        eq,
        strcmp_field_lem (user_at m.user.users u).password password (v.passwords u) tp,
        str_eq_ne (text (user_at m.user.users u).password) password (bad u f.0 f.1),
      )

  module _ (u : ℕ) (w : IsUser m.user u name password) (s : IsValid m.session)
      (p : length uuid ≡ 36) (new : (i : ℕ) → (session_at m.session.sessions i).id ≢ uuid) where
    abbrev slot : ℕ
    slot = (choose_session m.session).0

    room : HasRoom m.session (choose_session m.session).1 (choose_session m.session).0
    room = choose_session-HasRoom m.session s

    others_new : (j : ℕ) → (session_at (choose_session m.session).1.sessions j).id ≢ uuid
    others_new j = elim (dec_lt j m.session.last) [
      | yes lt ↦ λ e. new j (sym (ap (λ (t : Session). t.id) (room.same j lt)) ∙ e)
      | no ge ↦ λ e. absurd (omega (arith, ap length (sym (room.fresh j (omega arith)).1 ∙ e)))
    ]

    found : (rest : Bytes) → http_session_get (logged_in m u uuid) (some (uuid ++ rest)) ≡ some slot
    unfolding http_session_get get_by_id
    found rest =
        let started : SessionManager = start_session (choose_session m.session).1 slot u uuid in
        let at_slot = started_self m.session _ slot u uuid s room in
        let others = started_other m.session _ slot u uuid s room in
        rw (take-id uuid rest 36 p) (
          get_by_id_hit started.sessions 0 slot uuid (omega arith)
            (ap (λ (t : Session). t.id) at_slot)
            (λ j ne e. others_new j (sym (ap (λ (t : Session). t.id) (others j ne)) ∙ e))
          ∙ first slot)

    -- While nobody holds the users' lock, on a readable table of users and a session table that
    -- has its invariant, full or not: the name and the password of a user whose name no other user
    -- has log in. With a random id of 36 bytes that no session has, a cookie that starts with the
    -- id then leads to the new session, whose user name is the one that was given; and the session
    -- table keeps its invariant.
    pub login_then_get :
        (rest : Bytes)
        → (e : ℕ) × (m' : Managers) × (http_session_login_user m name password uuid
            ≡ done (some e, m'))
          × (http_session_get m' (some (uuid ++ rest)) ≡ some e)
          × (http_session_get_username m' e ≡ done name)
          × IsValid m'.session
    unfolding http_session_get_username name_of add_ref
    login_then_get rest = (
      slot,
      logged_in m u uuid,
      login_accepts u w,
      found rest,
      named,
      start_session-IsValid m.session _ _ u uuid s room,
    )
      where
        named : http_session_get_username (logged_in m u uuid) slot ≡ done name
        named =
            ap
              (λ b. take_lock b >>= λ _.
                name_of (add_ref m.user u).users
                  (session_at (logged_in m u uuid).session.sessions slot).user_ref)
              open'
            ∙ ap (name_of (add_ref m.user u).users)
                (ap (λ (t : Session). t.user_ref) (started_self m.session _ slot u uuid s room))
            ∙ ap (λ (n : Bytes). done (text n))
                (name-add_ref m.user u (omega (arith, w.below, v.within)))
            ∙ ap done w.named
