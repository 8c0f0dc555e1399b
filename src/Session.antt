-- ===== src/Session.antt =====
-- http_libs/http_session.c: the tables of users and of sessions. A function of the file is a function
-- on the two managers; each of them runs under its locks, so a call is one step.
-- `(size_t)-1`, INVALID_USER_ID and INVALID_SESSION_ID, is `none`. A session's `id` is the text that
-- its 37 bytes hold, `[]` once they are cleared.
pub mod Fields
pub mod Users
pub mod Logins
pub mod Store
mod Tests
use tiny_https_server.Prelude.{
  ◌||◌, ℕ, zero, suc, ◌+◌, ◌-◌, ◌*◌, ◌%◌, ◌^◌, ◌≡◌, Bool, true, false, ◌&&◌, not, Option, none,
  some, List, [], ◌∷◌, ◌++◌, ltb, leb, ◌==◌, if◌then◌else◌, length, get_elem?, get_or, set, take,
  replicate, Bytes, str_eq,
}
use tiny_https_server.Prelude.Run.{Run, done, blocked, fault, ◌>>=◌, ◌>>◌, read, take_lock}
use Fields.{strncpy, strcmp_field}

-- `struct user_t`, its two arrays of 126 bytes as they are.
pub record User : Type 0 where
  pub name : Bytes
  pub password : Bytes
  pub refs : ℕ

-- `struct http_session_t`
pub record Session : Type 0 where
  pub id : Bytes
  pub expire_s : ℕ
  pub user_ref : Option ℕ

-- `user_manager`, without the files. `locked` is whether the write lock is held by a call that has
-- returned. `work` is what was pushed on the work queue and not popped yet, in order, and
-- `work_capacity` the number of its slots.
pub record UserManager : Type 0 where
  pub locked : Bool
  pub capacity : ℕ
  pub entries : ℕ
  pub last : ℕ
  pub users : List User
  pub work_capacity : ℕ
  pub work : List ℕ

-- `session_manager`, without the worker.
pub record SessionManager : Type 0 where
  pub session_timeout : ℕ
  pub capacity : ℕ
  pub entries : ℕ
  pub last : ℕ
  pub sessions : List Session

pub record Managers : Type 0 where
  pub user : UserManager
  pub session : SessionManager

abbrev pub name_size : ℕ
name_size = 126

abbrev pub no_user : User
no_user = record { name = replicate name_size 0; password = replicate name_size 0; refs = 0 }

abbrev pub no_session : Session
no_session = record { id = []; expire_s = 0; user_ref = none }

abbrev pub session_at : List Session → ℕ → Session
session_at ss i = get_or ss i no_session

-- The loop of `user_get` over the first `n` users, from index `i` on.
pub user_get_loop : List User → ℕ → ℕ → Bytes → Run (Option ℕ)
user_get_loop us i zero name = done none
user_get_loop [] i (suc n) name = fault
user_get_loop (u ∷ us) i (suc n) name = do
  same ← read (strcmp_field u.name name)
  let rest = user_get_loop us (suc i) n name
  if same then done (some i) else rest

pub user_get : UserManager → Bytes → Run (Option ℕ)
unfolding user_get_loop
user_get m name = user_get_loop m.users 0 m.last name

-- The loop of `http_session_get_by_id`.
unfoldable pub get_by_id_loop : List Session → ℕ → Bytes → Option ℕ
get_by_id_loop [] i id = none
get_by_id_loop (s ∷ ss) i id =
    let rest = get_by_id_loop ss (suc i) id in
    if not (length s.id == 0) && str_eq s.id id then some i else rest

-- `http_session_get_by_id`; the array has `capacity` sessions.
unfoldable pub get_by_id : SessionManager → Bytes → Option ℕ
unfolding get_by_id_loop
get_by_id m id = get_by_id_loop m.sessions 0 id

-- The loop that looks for a user slot below `last`; it ends at `last`.
pub free_user : List User → ℕ → ℕ → ℕ
free_user us i zero = i
free_user [] i (suc n) = i
free_user (u ∷ us) i (suc n) =
    let rest = free_user us (suc i) n in if get_or u.name 0 0 == 0 then i else rest

-- The array of users after its growth in `http_session_register_user`: `realloc`, and a `memset` from
-- `last` on over as many users as the new capacity exceeds the LAST SESSION by. What `realloc` adds
-- and the `memset` leaves is `junk`.
pub grow_users : Managers → List User → Run UserManager
grow_users m junk =
    let u = m.user in
    let cap = u.capacity * 2 in
    let cleared = cap - m.session.last in
    if ltb cap m.session.last || ltb (cap - u.last) cleared
    then fault
    else done (record u {
      capacity = cap;
      users =
          take u.last u.users ++ (replicate cleared no_user ++ take (cap - u.last - cleared) junk);
    })

-- `http_session_register_user` once the slot is chosen.
pub store_user : Managers → UserManager → ℕ → Bytes → Bytes → Managers
store_user m u entry name password = record m {
  user = record u {
    locked = false;
    last = if entry == u.last then u.last + 1 else u.last;
    entries = u.entries + 1;
    users = set u.users entry (record (get_or u.users entry no_user) {
      name = strncpy name_size name;
      password = strncpy name_size password;
    });
    work = u.work ++ entry ∷ [];
  };
}

-- The answer once the user is stored: the `push` on a full queue of work waits.
pub push_work : ℕ → ℕ → Managers → Run (Bool × Managers)
push_work pending slots m = if ltb pending slots then done (true, m) else blocked

pub http_session_register_user : Managers → List User → Bytes → Bytes → Run (Bool × Managers)
unfolding grow_users free_user store_user user_get push_work
http_session_register_user m junk name password = do
  take_lock m.user.locked
  known ← user_get m.user name
  elim known [
    | some _ ↦ done (false, record m { user = record m.user { locked = true } })
    | none ↦
        if ltb m.user.entries m.user.capacity
        then push_work (length m.user.work) m.user.work_capacity
            (store_user m m.user (free_user m.user.users 0 m.user.last) name password)
        else (grow_users m junk >>= λ u.
            push_work (length u.work) u.work_capacity (store_user m u u.last name password))
  ]
