-- ===== src/Session/Tests.antt =====
-- The theorems on http_libs/http_session.c at tables with one user, and runs of the code.
use tiny_https_server.Prelude.{
  ℕ, zero, suc, ◌≤◌, ◌<◌, ◌≡◌, ◌≢◌, refl, true, false, none, some, [], ◌∷◌, ◌++◌, arith, Bytes,
  codes,
}
use tiny_https_server.Prelude.Run.{done}
use tiny_https_server.Session.{User, Session, Managers, name_size, no_session, session_at}
use tiny_https_server.Session.Fields.{strncpy, text, terminated, IsText}
use tiny_https_server.Session.Users.{IsReadable, user_at}
use tiny_https_server.Session.Logins.{
  http_session_login_user, http_session_get, http_session_get_username, http_session_logout_user,
  drop_ref, end_session, shrink_last, age, end_expired, session_task,
}
use tiny_https_server.Session.Logins.Slots.{IsValid}
use tiny_https_server.Session.Logins.RoundTrip.{IsUser, login_refuses, login_then_get}
use tiny_https_server.Session.Logins.Logout.{logout_ends}
use tiny_https_server.Session.Logins.Task.{tick, session_task_lem}

abbrev uuid : Bytes
uuid = codes "123e4567-e89b-12d3-a456-426614174000"

alice : User
unfolding strncpy
alice = record {
  name = strncpy name_size (codes "alice");
  password = strncpy name_size (codes "secret");
  refs = 0;
}

-- A full table of users, and sessions that `s` is the first of.
abbrev with_session : ℕ → Session → Managers
with_session n s = record {
  user = record {
    locked = false;
    capacity = 1;
    entries = 1;
    last = 1;
    users = alice ∷ [];
    work_capacity = 4;
    work = 0 ∷ [];
  };
  session = record {
    session_timeout = 900;
    capacity = 2;
    entries = n;
    last = n;
    sessions = s ∷ no_session ∷ [];
  };
}

abbrev idle : Managers
idle = with_session 0 no_session

abbrev busy : Managers
busy = with_session 1 (record { id = uuid; expire_s = 1; user_ref = some 0 })

alice_named : (text alice.name ≡ codes "alice") × (text alice.password ≡ codes "secret")
unfolding alice text strncpy
alice_named = (refl, refl)

readable : IsReadable idle.user
unfolding alice strncpy
readable = record { within = omega arith; names = names_end; passwords = passwords_end }
  where
    names_end : (i : ℕ) → terminated (user_at (alice ∷ []) i).name ≡ true
    names_end zero = refl
    names_end (suc i) = refl

    passwords_end : (i : ℕ) → terminated (user_at (alice ∷ []) i).password ≡ true
    passwords_end zero = refl
    passwords_end (suc i) = refl

alice-IsText : IsText (codes "alice")
alice-IsText = (omega arith, (omega arith, (omega arith, (omega arith, (omega arith, tt)))))

bob-IsText : IsText (codes "bob")
bob-IsText = (omega arith, (omega arith, (omega arith, tt)))

secret-IsText : IsText (codes "secret")
secret-IsText =
    (omega arith, (omega arith, (omega arith, (omega arith, (omega arith, (omega arith, tt))))))

alice-IsUser : IsUser idle.user 0 (codes "alice") (codes "secret")
alice-IsUser = record {
  below = omega arith;
  named = alice_named.0;
  keyed = alice_named.1;
  alone = λ j lt e. omega arith;
}

no_ids : (i : ℕ) → (session_at idle.session.sessions i).id ≢ uuid
no_ids zero e = cc
no_ids (suc zero) e = cc
no_ids (suc (suc i)) e = cc

idle-IsValid : IsValid idle.session
idle-IsValid = record {
  room = omega arith;
  slots = refl;
  last_le = omega arith;
  entries_le = omega arith;
  free = free_all;
  clear = λ i h. clear_all i;
}
  where
    free_all : (i : ℕ) → 0 ≤ i → (session_at idle.session.sessions i).user_ref ≡ none
    free_all zero h = refl
    free_all (suc zero) h = refl
    free_all (suc (suc i)) h = refl

    clear_all : (i : ℕ) → (session_at idle.session.sessions i).id ≡ []
    clear_all zero = refl
    clear_all (suc zero) = refl
    clear_all (suc (suc i)) = refl

busy-IsValid : IsValid busy.session
busy-IsValid = record {
  room = omega arith;
  slots = refl;
  last_le = omega arith;
  entries_le = omega arith;
  free = free_all;
  clear = clear_all;
}
  where
    free_all : (i : ℕ) → 1 ≤ i → (session_at busy.session.sessions i).user_ref ≡ none
    free_all zero h = absurd (omega arith)
    free_all (suc zero) h = refl
    free_all (suc (suc i)) h = refl

    clear_all :
        (i : ℕ)
        → (session_at busy.session.sessions i).user_ref ≡ none
        → (session_at busy.session.sessions i).id ≡ []
    clear_all zero h = cc
    clear_all (suc zero) h = refl
    clear_all (suc (suc i)) h = refl

others_differ : (j : ℕ) → j ≢ 0 → (session_at busy.session.sessions j).id ≢ uuid
others_differ zero ne e = ne refl
others_differ (suc zero) ne e = cc
others_differ (suc (suc j)) ne e = cc

not_bob : (i : ℕ) → i < 1 → text (user_at idle.user.users i).name ≢ codes "bob"
unfolding alice text strncpy
not_bob zero lt e = cc
not_bob (suc i) lt e = absurd (omega arith)

login_refuses_example :
    http_session_login_user idle (codes "bob") (codes "secret") uuid ≡ done (none, idle)
login_refuses_example =
    login_refuses idle (codes "bob") (codes "secret") uuid refl readable bob-IsText secret-IsText
      (λ i lt e. absurd (not_bob i lt e))

login_then_get_example :
    (e : ℕ) × (m' : Managers) × (http_session_login_user idle (codes "alice") (codes "secret") uuid
      ≡ done (some e, m'))
    × (http_session_get m' (some (uuid ++ codes "; theme=dark")) ≡ some e)
    × (http_session_get_username m' e ≡ done (codes "alice"))
    × IsValid m'.session
login_then_get_example =
    login_then_get idle (codes "alice") (codes "secret") uuid refl readable alice-IsText
      secret-IsText 0 alice-IsUser idle-IsValid refl no_ids (codes "; theme=dark")

logout_ends_example :
    (m' : Managers) × (http_session_logout_user busy (some (uuid ++ [])) ≡ done m')
    × ((rest' : Bytes) → http_session_get m' (some (uuid ++ rest')) ≡ none)
    × ((j : ℕ) → j ≢ 0 → session_at m'.session.sessions j ≡ session_at busy.session.sessions j)
    × IsValid m'.session
logout_ends_example = logout_ends busy uuid [] 0 0 refl busy-IsValid refl refl refl others_differ

session_task_lem_example :
    (m' : Managers) × (session_task busy ≡ done m')
    × IsValid m'.session
    × ((j : ℕ) → session_at m'.session.sessions j ≡ tick (session_at busy.session.sessions j))
session_task_lem_example = session_task_lem busy busy-IsValid refl

-- The session of the last second is over, and the table has no slot in use.
busy_over :
    session_task busy
    ≡ done (record (with_session 1 (record { id = []; expire_s = 0; user_ref = none })) {
      user = (drop_ref idle.user 0);
      session = record {
        session_timeout = 900;
        capacity = 2;
        entries = 1;
        last = 0;
        sessions = record { id = []; expire_s = 0; user_ref = none } ∷ no_session ∷ [];
      };
    })
unfolding session_task age end_expired end_session shrink_last drop_ref alice strncpy
busy_over = refl
