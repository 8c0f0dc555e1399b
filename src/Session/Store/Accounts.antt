-- ===== src/Session/Store/Accounts.antt =====
-- http_libs/http_session.c: the users in memory, in the queue of work and in the files.
use tiny_https_server.Prelude.{
  ℕ, zero, suc, ◌+◌, ◌<◌, ◌≡◌, ◌≢◌, refl, ap, ◌∙◌, true, false, some, List, [], ◌∷◌, ◌++◌, arith,
  length, get_or, length-set, get_or-set_any, length-append, Bytes, lt→ltb,
}
use tiny_https_server.Prelude.Run.{done}
use tiny_https_server.Session.{
  User, Managers, name_size, no_user, free_user, store_user, push_work, http_session_register_user,
}
use tiny_https_server.Session.Fields.{strncpy, text, terminated, IsText, terminated-strncpy}
use tiny_https_server.Session.Users.{IsReadable, user_at, user_get_missing}
use tiny_https_server.Session.Store.{Files, Engine}

-- What the files keep of a user: the name and the password.
abbrev pub account : User → Bytes × Bytes
account u = (u.name, u.password)

abbrev pub account_at : List User → ℕ → Bytes × Bytes
account_at us i = account (user_at us i)

-- `n` numbers from `d` on.
abbrev pub from : ℕ → ℕ → List ℕ
from d zero = []
from d (suc n) = d ∷ from (suc d) n

pub from-snoc : (d n : ℕ) → from d n ++ (d + n) ∷ [] ≡ from d (suc n)
from-snoc d zero = let e : d + 0 ≡ d = omega arith in ap (λ x. x ∷ []) e
from-snoc d (suc n) =
    let e : d + suc n ≡ suc d + n = omega arith in
    ap (λ x. d ∷ (from (suc d) n ++ x ∷ [])) e ∙ ap (◌∷◌ d) (from-snoc (suc d) n)

-- The engine runs with the files `f`, and these and the queue of work have all users between them:
-- the first users are those of `users.db`, and the others wait in the queue, in order.
pub record Synced (e : Engine) (f : Files) : Type 0 where
  pub opened : e.files ≡ some f
  pub meta_eq : f.meta ≡ length f.db
  pub count_eq : e.user_entries ≡ length f.db
  pub entries_eq : e.managers.user.entries ≡ e.managers.user.last
  pub slots : length e.managers.user.users ≡ e.managers.user.capacity
  pub readable : IsReadable e.managers.user
  pub named :
      (i : ℕ) → i < e.managers.user.last → get_or (user_at e.managers.user.users i).name 0 0 ≢ 0
  pub last_eq : e.managers.user.last ≡ length f.db + length e.managers.user.work
  pub work_eq : e.managers.user.work ≡ from (length f.db) (length e.managers.user.work)
  pub saved : (i : ℕ) → i < length f.db → account_at f.db i ≡ account_at e.managers.user.users i

-- With no nameless user the search for a slot ends at `last`.
free_user_lem :
    (us : List User) (i n : ℕ)
    → ((k : ℕ) → k < n → get_or (user_at us k).name 0 0 ≢ 0)
    → free_user us i n ≡ i + n
unfolding free_user
free_user_lem us i zero h = omega arith
free_user_lem [] i (suc n) h = absurd (h 0 (omega arith) refl)
free_user_lem (u ∷ us) i (suc n) h =
    ground (arith, h 0 (omega arith), free_user_lem us (suc i) n (λ k lt. h (suc k) (omega arith)))

first-strncpy : (n : ℕ) (s : Bytes) → IsText s → 0 < length s → get_or (strncpy (suc n) s) 0 0 ≢ 0
unfolding strncpy
first-strncpy n [] t h e = absurd (omega arith)
first-strncpy n (c ∷ s) t h e = omega (arith, t.0)

module _ (e : Engine) (f : Files) (s : Synced e f) (name password : Bytes) (tn : IsText name)
    (short : length name < name_size) (long : 0 < length name)
    (short' : length password < name_size) where
  abbrev m : Managers
  m = e.managers

  abbrev next : Managers
  next = store_user m m.user m.user.last name password

  abbrev stored : User
  stored = record (user_at m.user.users m.user.last) {
    name = strncpy name_size name;
    password = strncpy name_size password;
  }

  module _ (lt : m.user.last < m.user.capacity) where
    last_suc : next.user.last ≡ suc m.user.last
    unfolding store_user
    last_suc = ground arith

    inside : m.user.last < length m.user.users
    inside = omega (arith, s.slots)

    next-IsReadable : IsReadable next.user
    unfolding store_user
    next-IsReadable = record {
      within = omega (arith, last_suc, inside, length-set m.user.users m.user.last stored);
      names = λ i.
          get_or-set_any (λ u. terminated u.name ≡ true) m.user.users m.user.last stored i no_user
            inside (λ _. terminated-strncpy name_size name short) (λ ne. s.readable.names i);
      passwords = λ i.
          get_or-set_any (λ u. terminated u.password ≡ true) m.user.users m.user.last stored i
            no_user inside (λ _. terminated-strncpy name_size password short')
            (λ ne. s.readable.passwords i);
    }

    one_more : suc (length m.user.work) ≡ length (m.user.work ++ m.user.last ∷ [])
    one_more = omega (arith, length-append m.user.work (m.user.last ∷ []))

    -- A user more, in the next slot and in the queue of work.
    pub stored-Synced : Synced (record e { managers = next }) f
    unfolding store_user
    stored-Synced = record {
      opened = s.opened;
      meta_eq = s.meta_eq;
      count_eq = s.count_eq;
      entries_eq = omega (arith, s.entries_eq, last_suc);
      slots = length-set m.user.users m.user.last _ ∙ s.slots;
      readable = next-IsReadable;
      named = λ i h.
          get_or-set_any (λ u. get_or u.name 0 0 ≢ 0) m.user.users m.user.last stored i no_user
            inside (λ _. first-strncpy 125 name tn long)
            (λ ne. s.named i (omega (arith, last_suc)));
      last_eq = omega (arith, last_suc, s.last_eq, length-append m.user.work (m.user.last ∷ []));
      work_eq =
          ap (λ x. m.user.work ++ x ∷ []) s.last_eq
          ∙ ap (λ w. w ++ (length f.db + length m.user.work) ∷ []) s.work_eq
          ∙ from-snoc (length f.db) (length m.user.work)
          ∙ ap (from (length f.db)) one_more;
      saved = λ i h.
          get_or-set_any (λ u. account_at f.db i ≡ account u) m.user.users m.user.last stored i
            no_user inside (λ at. absurd (omega (arith, s.last_eq))) (λ ne. s.saved i h);
    }

    -- While nobody holds the users' lock, where the engine's users are in the files and in the queue
    -- of work, and none has the name, which is a text of at most 125 bytes and not empty, with a
    -- password of at most 125 bytes: where the table and the queue of work have room, registering the
    -- name answers true, and then too all users are in the files and in the queue, in order.
    pub register-Synced :
        (junk : List User)
        → m.user.locked ≡ false
        → length m.user.work < m.user.work_capacity
        → ((i : ℕ) → i < m.user.last → text (user_at m.user.users i).name ≢ name)
        → (m' : Managers) × (http_session_register_user m junk name password ≡ done (true, m'))
          × Synced (record e { managers = m' }) f
    unfolding http_session_register_user push_work
    register-Synced junk free slots new =
        let room : m.user.entries < m.user.capacity = omega (arith, s.entries_eq) in
        let slot : free_user m.user.users 0 m.user.last ≡ m.user.last =
          omega (arith, free_user_lem m.user.users 0 m.user.last s.named) in
        (
          next,
          simp (
            free,
            user_get_missing m.user name s.readable tn new,
            lt→ltb m.user.entries m.user.capacity room,
            slot,
            lt→ltb (length m.user.work) m.user.work_capacity slots,
          ),
          stored-Synced,
        )
