-- ===== src/Session/Store/Restart.antt =====
-- http_libs/http_session.c: the users after a stop of the engine and a start in a new process.
use mathlib.Core.Path.{subst}
use native.Mathlib.Decide.{dec_lt}
use tiny_https_server.Prelude.{
  ℕ, ◌+◌, ◌-◌, ◌*◌, ◌≤◌, ◌<◌, ◌≡◌, ◌≢◌, refl, sym, ap, ◌∙◌, true, false, some, [], ◌++◌, arith,
  ◌==◌, if◌then◌else◌, length, get_or, replicate, length-append, get_or-append_left,
  get_or-append_right, length-replicate, get_or-replicate, Bytes,
}
use tiny_https_server.Prelude.Run.{Run, done, ◌>>=◌}
use tiny_https_server.Session.{User, Session, UserManager, no_user, no_session}
use tiny_https_server.Session.Fields.{text, terminated}
use tiny_https_server.Session.Users.{IsReadable, user_at}
use tiny_https_server.Session.Logins.Slots.{IsValid}
use tiny_https_server.Session.Logins.RoundTrip.{IsUser}
use tiny_https_server.Session.Store.{
  Files, Engine, zeroed, sessions_default_capacity, new_process, load_user_db,
  http_session_engine_start, http_session_engine_stop, stopped,
}
use tiny_https_server.Session.Store.Saving.{Saved, save_users-Saved, kept, take_all}
use tiny_https_server.Session.Store.Accounts.{account, account_at, Synced}

-- The engine after a start in which the users of the table `m` are those that the files held.
pub record Restored (m : UserManager) (e : Engine) (f : Files) : Type 0 where
  pub synced : Synced e f
  pub sessions : IsValid e.managers.session
  pub unlocked : e.managers.user.locked ≡ false
  pub room : e.managers.user.entries < e.managers.user.capacity
  pub last_eq : e.managers.user.last ≡ m.last
  pub users :
      (u : ℕ) (name password : Bytes)
      → IsUser m u name password
      → IsUser e.managers.user u name password

-- A start with the files that hold the users of a table.
module _ (f : Files) (m : UserManager) (base timeout : ℕ) (s : Saved f m) (v : IsReadable m)
    (named : (i : ℕ) → i < m.last → get_or (user_at m.users i).name 0 0 ≢ 0) where
  abbrev capacity : ℕ
  capacity = if base == 0 then sessions_default_capacity else base

  abbrev loaded_users : UserManager
  loaded_users = record {
    locked = false;
    capacity = f.meta + capacity;
    entries = f.meta;
    last = f.meta;
    users = f.db ++ replicate (f.meta + capacity - length f.db) no_user;
    work_capacity = capacity * 2;
    work = [];
  }

  load_lem :
      load_user_db (some f) capacity zeroed.user ≡ (f, record loaded_users { work_capacity = 0 })
  unfolding load_user_db
  load_lem = simp (kept f.meta f.db s.meta_eq, take_all f.meta f.db s.meta_eq)

  abbrev restarted : Engine
  restarted = (http_session_engine_start (new_process (some f)) base timeout).1

  abbrev explicit : Engine
  explicit = record {
    running = true;
    managers = record { user = loaded_users; session = restarted.managers.session };
    files = some f;
    user_entries = f.meta;
  }

  abbrev made_of : Files × UserManager → Engine
  made_of l = record explicit {
    managers = record explicit.managers {
      user = record l.1 { locked = false; work_capacity = capacity * 2; work = [] };
    };
    files = some l.0;
    user_entries = l.1.entries;
  }

  restarted_lem : restarted ≡ explicit
  unfolding http_session_engine_start
  restarted_lem = ap made_of load_lem

  loaded_same : (i : ℕ) → i < m.last → account_at loaded_users.users i ≡ account_at m.users i
  loaded_same i lt =
      ap account (get_or-append_left f.db _ i no_user (omega (arith, s.last_eq))) ∙ s.same i lt

  unused_slot : (i : ℕ) → m.last ≤ i → user_at loaded_users.users i ≡ no_user
  unused_slot i le =
      let k : i ≡ length f.db + (i - length f.db) = omega (arith, s.last_eq) in
      ap (user_at loaded_users.users) k
      ∙ get_or-append_right f.db (replicate (f.meta + capacity - length f.db) no_user)
          (i - length f.db) no_user
      ∙ get_or-replicate _ (i - length f.db) no_user

  loaded-IsReadable : IsReadable loaded_users
  loaded-IsReadable = record {
    within = omega (
      arith,
      length-append f.db (replicate (f.meta + capacity - length f.db) no_user),
      s.meta_eq,
    );
    names = λ i. elim (dec_lt i m.last) [
      | yes lt ↦ ap (λ (a : Bytes × Bytes). terminated a.0) (loaded_same i lt) ∙ v.names i
      | no ge ↦ ap (λ (u : User). terminated u.name) (unused_slot i (omega arith))
    ];
    passwords = λ i. elim (dec_lt i m.last) [
      | yes lt ↦ ap (λ (a : Bytes × Bytes). terminated a.1) (loaded_same i lt) ∙ v.passwords i
      | no ge ↦ ap (λ (u : User). terminated u.password) (unused_slot i (omega arith))
    ];
  }

  explicit-Synced : Synced explicit f
  explicit-Synced = record {
    opened = refl;
    meta_eq = s.meta_eq;
    count_eq = s.meta_eq;
    entries_eq = refl;
    slots = omega (
      arith,
      length-append f.db (replicate (f.meta + capacity - length f.db) no_user),
      length-replicate {0} (f.meta + capacity - length f.db) no_user,
      s.meta_eq,
    );
    readable = loaded-IsReadable;
    named = λ i lt e.
        let below : i < m.last = omega (arith, s.meta_eq, s.last_eq) in
        named i below (sym (ap (λ (a : Bytes × Bytes). get_or a.0 0 0) (loaded_same i below)) ∙ e);
    last_eq = omega (arith, s.meta_eq);
    work_eq = refl;
    saved = λ i lt. ap account (sym (get_or-append_left f.db _ i no_user lt));
  }

  loaded-IsUser :
      (u : ℕ) (name password : Bytes)
      → IsUser m u name password
      → IsUser loaded_users u name password
  loaded-IsUser u name password w = record {
    below = omega (arith, w.below, s.meta_eq, s.last_eq);
    named = ap (λ (a : Bytes × Bytes). text a.0) (loaded_same u w.below) ∙ w.named;
    keyed = ap (λ (a : Bytes × Bytes). text a.1) (loaded_same u w.below) ∙ w.keyed;
    alone = λ j lt e.
        let below : j < m.last = omega (arith, s.meta_eq, s.last_eq) in
        w.alone j below (sym (ap (λ (a : Bytes × Bytes). text a.0) (loaded_same j below)) ∙ e);
  }

  some_room : 0 < capacity
  some_room = ground arith

  explicit-Restored : Restored m explicit f
  unfolding http_session_engine_start
  explicit-Restored = record {
    synced = explicit-Synced;
    sessions = record {
      room = some_room;
      slots = length-replicate {0} capacity no_session;
      last_le = omega arith;
      entries_le = omega arith;
      free = λ i le. ap (λ (t : Session). t.user_ref) (get_or-replicate capacity i no_session);
      clear = λ i _. ap (λ (t : Session). t.id) (get_or-replicate capacity i no_session);
    };
    unlocked = refl;
    room = omega (arith, some_room);
    last_eq = omega (arith, s.meta_eq, s.last_eq);
    users = loaded-IsUser;
  }

  restarted-Restored : Restored m restarted f
  restarted-Restored = subst (λ e. Restored m e f) (sym restarted_lem) explicit-Restored

module _ (e : Engine) (f : Files) (s : Synced e f) (base timeout : ℕ) where
  -- Where the users are in the files and in the queue of work, which is not full, and nobody holds the
  -- users' lock: a stop whose task looks at the work once more ends, and leaves files from which a new
  -- process loads as many users, and a name and a password that belong to a user belong to the same
  -- one after it. All users are in the files then, the table of sessions is valid, that of the users
  -- has room, and its lock is free.
  pub restart_keeps :
      length e.managers.user.work < e.managers.user.work_capacity
      → e.managers.user.locked ≡ false
      → (e' : Engine) × (f' : Files) × (http_session_engine_stop false e ≡ done e')
        × (e'.files ≡ some f')
        × Restored e.managers.user
            (http_session_engine_start (new_process e'.files) base timeout).1
            f'
  unfolding http_session_engine_stop
  restart_keeps h free =
      let (e', f', ran, at, saved) = save_users-Saved e f s h free in
      (
        stopped e',
        f',
        ap (λ (r : Run Engine). r >>= λ q. done (stopped q)) ran,
        at,
        subst
            (λ d.
              Restored e.managers.user (http_session_engine_start (new_process d) base timeout).1
                f')
            (sym at) (restarted-Restored f' e.managers.user base timeout saved s.readable s.named),
      )
