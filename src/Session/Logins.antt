-- ===== src/Session/Logins.antt =====
-- http_libs/http_session.c: the sessions. Logging in and out, the lookup of a request's session, and
-- what the session task does once a second.
pub mod Slots
pub mod RoundTrip
pub mod Logout
pub mod Cookie
pub mod Expiry
pub mod Ended
pub mod Task
use tiny_https_server.Prelude.{
  ℕ, zero, suc, ◌+◌, ◌-◌, ◌*◌, ◌%◌, ◌^◌, ◌≡◌, Bool, true, false, ◌&&◌, not, Option, none, some,
  List, [], ◌∷◌, ◌++◌, ltb, leb, ◌==◌, if◌then◌else◌, length, get_elem?, get_or, set, take,
  replicate, Bytes, str_eq, is_null, codes,
}
use tiny_https_server.Prelude.Run.{Run, done, blocked, fault, ◌>>=◌, ◌>>◌, read, take_lock}
use tiny_https_server.Session.{
  User, Session, UserManager, SessionManager, Managers, name_size, no_user, no_session, session_at,
  user_get, get_by_id,
}
use tiny_https_server.Response.{Response, http_set_cookie}
use tiny_https_server.Session.Fields.{strncpy, strcmp_field, text}

-- The loop that looks for a free session below `last`; it ends at `last`.
pub free_session : List Session → ℕ → ℕ → ℕ
free_session ss i zero = i
free_session [] i (suc n) = i
free_session (s ∷ ss) i (suc n) =
    let rest = free_session ss (suc i) n in if is_null s.user_ref then i else rest

-- The growth of the array in `http_session_login_user`: `realloc`, `memset` and the loop.
pub grow_sessions : SessionManager → SessionManager
grow_sessions m = record m {
  capacity = m.capacity * 2;
  sessions = take m.last m.sessions ++ replicate (m.capacity * 2 - m.last) no_session;
}

-- The session's slot, in the array that has room for it.
pub choose_session : SessionManager → ℕ × SessionManager
unfolding free_session grow_sessions
choose_session m =
    if ltb m.entries m.capacity
    then (free_session m.sessions 0 m.last, m)
    else (m.last, grow_sessions m)

pub start_session : SessionManager → ℕ → ℕ → Bytes → SessionManager
start_session m entry user_ref uuid = record m {
  last = if entry == m.last then m.last + 1 else m.last;
  entries = m.entries + 1;
  sessions =
      set m.sessions entry
        (record { id = uuid; expire_s = m.session_timeout; user_ref = some user_ref });
}

pub add_ref : UserManager → ℕ → UserManager
add_ref m i =
    let u = get_or m.users i no_user in
    record m { users = set m.users i (record u { refs = u.refs + 1 }) }

-- `refs -= 1` on a `size_t`.
unfoldable pub drop_ref : UserManager → ℕ → UserManager
drop_ref m i =
    let u = get_or m.users i no_user in
    record m { users = set m.users i (record u { refs = (u.refs + 2 ^ 64 - 1) % 2 ^ 64 }) }

-- `http_session_login_user` with the text of the random uuid that it draws.
pub http_session_login_user : Managers → Bytes → Bytes → Bytes → Run (Option ℕ × Managers)
unfolding user_get choose_session start_session add_ref
http_session_login_user m name password uuid = do
  take_lock m.user.locked
  known ← user_get m.user name
  elim known [
    | none ↦ done (none, m)
    | some ref ↦
        (read (strcmp_field (get_or m.user.users ref no_user).password password) >>= λ same.
        if same
        then (let (entry, s) = choose_session m.session in
            done (
              some entry,
              record m { user = add_ref m.user ref; session = start_session s entry ref uuid },
            ))
        else done (none, m))
  ]

-- `http_session_get`, from the value of the cookie `session_id`, which is text of the request's
-- buffer. Of a value of less than 36 bytes the copy goes on behind its terminator, in the buffer, and
-- what it finds there does not count: the comparison ends at the terminator.
unfoldable pub http_session_get : Managers → Option Bytes → Option ℕ
http_session_get m none = none
http_session_get m (some rcv_id) = get_by_id m.session (take 36 rcv_id)

-- A session is cleared, and its user has a reference less.
unfoldable pub end_session : Managers → ℕ → Managers
unfolding drop_ref
end_session m entry =
    let s = session_at m.session.sessions entry in
    record m {
      user = elim s.user_ref [ none ↦ m.user | some u ↦ drop_ref m.user u ];
      session = record m.session {
        sessions = set m.session.sessions entry (record s { id = []; user_ref = none });
      };
    }

-- `if(i == last - 1) last -= 1;` on `size_t`, where `last` may be 0.
unfoldable pub shrink_last : SessionManager → ℕ → SessionManager
shrink_last m i = record m { last = if suc i == m.last then m.last - 1 else m.last }

-- `http_session_logout_user`
pub http_session_logout_user : Managers → Option Bytes → Run Managers
http_session_logout_user m cookie = elim (http_session_get m cookie) [
  | none ↦ done m
  | some entry ↦
      (take_lock m.user.locked >>= λ _.
      let m' = end_session m entry in done (record m' { session = shrink_last m'.session entry }))
]

-- The name of the user of a session; without a user the place is outside the array.
unfoldable pub name_of : List User → Option ℕ → Run Bytes
unfolding text
name_of us none = fault
name_of us (some u) = done (text (get_or us u no_user).name)

-- `http_session_get_username`
unfoldable pub http_session_get_username : Managers → ℕ → Run Bytes
unfolding name_of
http_session_get_username m entry = take_lock m.user.locked >>= λ _.
    name_of m.user.users (session_at m.session.sessions entry).user_ref

-- The value that `http_session_set_cookie` gives to the cookie: the 37 bytes of the id, the
-- terminator among them, and behind them the attributes, read as the text that they are.
pub cookie_value : Managers → ℕ → Bytes → Bytes
unfolding strncpy text
cookie_value m entry attributes =
    text (strncpy 37 (session_at m.session.sessions entry).id ++ attributes)

-- `http_session_set_cookie`
pub http_session_set_cookie : Managers → Response → ℕ → Run Response
unfolding cookie_value http_set_cookie
http_session_set_cookie m response entry =
    http_set_cookie response (codes "session_id")
      (cookie_value m entry (codes "; HttpOnly; Secure; SameSite=Strict"))

-- `--expire_s` on a `size_t`.
abbrev pub older : Session → Session
older s = record s { expire_s = (s.expire_s + 2 ^ 64 - 1) % 2 ^ 64 }

abbrev pub noted : Bool → ℕ → List ℕ → List ℕ
noted true i buff = i ∷ buff
noted false i buff = buff

-- The first loop of `session_task`, from the slot `i` on, with `count` sessions to meet: the
-- sessions, and the slots of those whose time is over.
unfoldable pub age : ℕ → List Session → ℕ → List Session × List ℕ
age zero ss i = (ss, [])
age (suc count) [] i = ([], [])
age (suc count) (s ∷ ss) i =
    let (same, buff) = age (suc count) ss (suc i) in
    let (aged, buff') = age count ss (suc i) in
    if is_null s.user_ref
    then (s ∷ same, buff)
    else (older s ∷ aged, noted ((older s).expire_s == 0) i buff')

-- The second loop, which takes the slots from the end; it compares the place `entries` in the buffer
-- with the last slot.
unfoldable pub end_expired : Managers → ℕ → List ℕ → Managers
end_expired m entries [] = m
end_expired m entries (slot ∷ slots) =
    let m' = end_session (end_expired m (suc entries) slots) slot in
    record m' { session = shrink_last m'.session entries }

-- The second loop takes the users' lock for each slot.
abbrev pub users_lock : Managers → List ℕ → Run (Unit {0})
users_lock m [] = done tt
users_lock m (slot ∷ slots) = take_lock m.user.locked

-- What `session_task` does with the sessions once a second.
unfoldable pub session_task : Managers → Run Managers
session_task m =
    let (sessions, buff) = age m.session.entries m.session.sessions 0 in
    users_lock m buff >>= λ _.
    done (end_expired (record m { session = record m.session { sessions = sessions } }) 0 buff)
