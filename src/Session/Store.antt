-- ===== src/Session/Store.antt =====
-- http_libs/http_session.c: the users in the files of the server's data, from the start of the
-- session engine to its stop. The directory is `none` while it does not exist. The records of
-- `users.db` are read from its beginning, as glibc opens a file for "a+", and written at its end.
pub mod Accounts
pub mod Saving
pub mod Restart
mod Tests
use tiny_https_server.Prelude.{
  ℕ, zero, suc, ◌+◌, ◌-◌, ◌*◌, Bool, true, false, ◌||◌, Option, none, some, List, [], ◌∷◌, ◌++◌,
  ◌==◌, if◌then◌else◌, length, get_or, take, replicate,
}
use tiny_https_server.Prelude.Run.{Run, done, take_lock, ◌>>=◌}
use tiny_https_server.Session.{User, UserManager, Managers, no_user, no_session}

-- `.meta.bin` and `users.db`.
pub record Files : Type 0 where
  pub meta : ℕ
  pub db : List User

-- The engine: `session_manager.running`, what the directory holds, and `user_entries` of its task.
pub record Engine : Type 0 where
  pub running : Bool
  pub managers : Managers
  pub files : Option Files
  pub user_entries : ℕ

-- The two static structures of a process that starts.
abbrev pub zeroed : Managers
zeroed = record {
  user = record {
    locked = false;
    capacity = 0;
    entries = 0;
    last = 0;
    users = [];
    work_capacity = 0;
    work = [];
  };
  session = record { session_timeout = 0; capacity = 0; entries = 0; last = 0; sessions = [] };
}

abbrev pub new_process : Option Files → Engine
new_process dir = record { running = false; managers = zeroed; files = dir; user_entries = 0 }

-- `load_user_db`: the files as it leaves them, and the users.
pub load_user_db : Option Files → ℕ → UserManager → Files × UserManager
load_user_db none default_capacity m = (
  record { meta = 0; db = [] },
  record m { capacity = default_capacity; users = replicate default_capacity no_user },
)
load_user_db (some f) default_capacity m =
    let db = if f.meta == 0 then [] else f.db in
    let users = take f.meta db in
    (
      record f { db = db },
      record m {
        entries = f.meta;
        last = f.meta;
        capacity = f.meta + default_capacity;
        users = users ++ replicate (f.meta + default_capacity - length users) no_user;
      },
    )

-- The number of seconds of `SESSION_DEFAULT_TIMEOUT`.
abbrev session_default_timeout : ℕ
session_default_timeout = 60 * 60

abbrev pub sessions_default_capacity : ℕ
sessions_default_capacity = 10

-- `http_session_engine_start`: what it answers, `none` for -1, and the engine. `entries` and `last`
-- of the sessions stay what they were.
pub http_session_engine_start : Engine → ℕ → ℕ → Option (Unit {0}) × Engine
unfolding load_user_db
http_session_engine_start e base_capacity session_timeout_s =
    let capacity = if base_capacity == 0 then sessions_default_capacity else base_capacity in
    let (files, user) = load_user_db e.files capacity e.managers.user in
    if e.running then (none, e) else (
      some tt,
      record {
        running = true;
        managers = record {
          user = record user { locked = false; work_capacity = capacity * 2; work = [] };
          session = record e.managers.session {
            session_timeout =
                if session_timeout_s == 0 then session_default_timeout else session_timeout_s;
            capacity = capacity;
            sessions = replicate capacity no_session;
          };
        };
        files = some files;
        user_entries = user.entries;
      },
    )

-- `empty` on the queue of work, whose head is its tail also when it is full.
abbrev pub work_empty : ℕ → List ℕ → Bool
work_empty n work = (length work == 0) || (length work == n)

-- The loop that pops the work and writes the users: what is left of it, and what is written.
pub write_work : ℕ → List User → List ℕ → List ℕ × List User
write_work n us [] = ([], [])
write_work n us (user_id ∷ work) =
    let (left, out) = write_work n us work in
    if work_empty n (user_id ∷ work)
    then (user_id ∷ work, [])
    else (left, get_or us user_id no_user ∷ out)

abbrev pub written : Files → ℕ → List User → Files
written f user_entries [] = f
written f user_entries (u ∷ out) = record { meta = user_entries; db = f.db ++ (u ∷ out) }

-- Each user is read under the users' lock.
abbrev pub reading_lock : Bool → List User → Run (Unit {0})
reading_lock locked [] = done tt
reading_lock locked (u ∷ out) = take_lock locked

abbrev pub saved_users : Engine → List ℕ × List User → Engine
saved_users e (left, out) =
    let m = e.managers in
    record e {
      managers = record m { user = record m.user { work = left } };
      user_entries = e.user_entries + length out;
      files = elim e.files [
        | none ↦ none
        | some f ↦ some (written f (e.user_entries + length out) out)
      ];
    }

-- What `session_task` does with the files once a second, and once more when the engine stops.
pub save_users : Engine → Run Engine
unfolding write_work
save_users e =
    let m = e.managers in
    let work = write_work m.user.work_capacity m.user.users m.user.work in
    reading_lock m.user.locked work.1 >>= λ _. done (saved_users e work)

-- The rest of the stop.
abbrev pub stopped : Engine → Engine
stopped e = record e {
  running = false;
  managers = record e.managers {
    user = record e.managers.user { users = []; work = [] };
    session = record e.managers.session { sessions = [] };
  };
}

-- `http_session_engine_stop`. `late` is whether `running` becomes false between the two tests of it
-- in the task, which then ends without another look at the work. It waits for the task.
pub http_session_engine_stop : Bool → Engine → Run Engine
unfolding save_users
http_session_engine_stop late e = do e' ← if late then done e else save_users e; done (stopped e')
