-- ===== src/Session/Users.antt =====
-- The user table of http_libs/http_session.c: what `user_get` finds, and what a registration does.
use tiny_https_server.Prelude.{
  ℕ, zero, suc, ◌+◌, ◌-◌, ◌*◌, ◌≤◌, ◌<◌, ◌≡◌, ◌≢◌, refl, ap, ◌∙◌, inl, inr, true, false, Option,
  none, some, List, [], ◌∷◌, arith, length, get_or, Bytes, str_eq, str_eq_sound, str_eq_refl,
  Bool-cases, lt→ltb, le→ltb,
}
use tiny_https_server.Prelude.Run.{done, blocked, fault}
use tiny_https_server.Session.{
  User, UserManager, Managers, no_user, user_get_loop, user_get, grow_users,
  http_session_register_user,
}
use tiny_https_server.Session.Fields.{text, terminated, IsText, strcmp_field_lem}

abbrev pub user_at : List User → ℕ → User
user_at us i = get_or us i no_user

-- Every user's two fields are terminated, and the array has the users below `last`.
pub record IsReadable (m : UserManager) : Type 0 where
  pub within : m.last ≤ length m.users
  pub names : (i : ℕ) → terminated (user_at m.users i).name ≡ true
  pub passwords : (i : ℕ) → terminated (user_at m.users i).password ≡ true

-- What `user_get` answers: the first user below `n` that has the name.
abbrev pub Finds : List User → ℕ → Bytes → Option ℕ → Type 0
Finds us n name none = (i : ℕ) → i < n → text (user_at us i).name ≢ name
Finds us n name (some i) =
    (i < n)
    × (text (user_at us i).name ≡ name)
    × ((j : ℕ) → j < i → text (user_at us j).name ≢ name)

abbrev shifted : ℕ → Option ℕ → Option ℕ
shifted k none = none
shifted k (some i) = some (k + i)

str_eq_ne : (s t : Bytes) → str_eq s t ≡ false → s ≢ t
str_eq_ne s t h e = cc (str_eq_refl t, ap (λ r. str_eq r t) e, h)

bump : Option ℕ → Option ℕ
bump none = none
bump (some i) = some (suc i)

shifted-bump : (k : ℕ) (r : Option ℕ) → shifted (suc k) r ≡ shifted k (bump r)
unfolding bump
shifted-bump k none = refl
shifted-bump k (some i) = ap some (omega arith)

Finds-bump :
    (u : User) (us : List User) (n : ℕ) (name : Bytes) (r : Option ℕ)
    → text u.name ≢ name
    → Finds us n name r
    → Finds (u ∷ us) (suc n) name (bump r)
unfolding bump
Finds-bump u us n name none ne f = all
  where
    all : (i : ℕ) → i < suc n → text (user_at (u ∷ us) i).name ≢ name
    all zero lt = ne
    all (suc i) lt = f i (omega arith)
Finds-bump u us n name (some i) ne f = (omega (arith, f.0), f.1, all)
  where
    all : (j : ℕ) → j < suc i → text (user_at (u ∷ us) j).name ≢ name
    all zero lt = ne
    all (suc j) lt = f.2 j (omega arith)

user_get_loop_lem :
    (us : List User) (k n : ℕ) (name : Bytes)
    → n ≤ length us
    → ((i : ℕ) → terminated (user_at us i).name ≡ true)
    → IsText name
    → (r : Option ℕ) × (user_get_loop us k n name ≡ done (shifted k r)) × Finds us n name r
unfolding user_get_loop
user_get_loop_lem us k zero name h t v = (none, refl, λ i lt. absurd (omega arith))
user_get_loop_lem [] k (suc n) name h t v = absurd (omega arith)
user_get_loop_lem (u ∷ us) k (suc n) name h t v =
    let first : k ≡ k + 0 = omega arith in
    let cmp = strcmp_field_lem u.name name (t 0) v in
    elim (Bool-cases (str_eq (text u.name) name)) [
      | inl hit ↦ (
        some 0,
        rw (cmp, hit) (ap (λ q. done (some q)) first),
        (omega arith, str_eq_sound _ _ hit, λ j lt. absurd (omega arith)),
      )
      | inr miss ↦
          let (r, eq, f) = user_get_loop_lem us (suc k) n name (omega arith) (λ i. t (suc i)) v in
          (
            bump r,
            rw (cmp, miss) (eq ∙ ap done (shifted-bump k r)),
            Finds-bump u us n name r (str_eq_ne _ _ miss) f,
          )
    ]

-- On a readable table `user_get` stays inside its arrays and finds the first user of that name.
pub user_get_lem :
    (m : UserManager) (name : Bytes)
    → IsReadable m
    → IsText name
    → (r : Option ℕ) × (user_get m name ≡ done r) × Finds m.users m.last name r
unfolding user_get
user_get_lem m name v t =
    let (r, eq, f) = user_get_loop_lem m.users 0 m.last name v.within v.names t in
    (r, eq ∙ ap done (unshifted r), f)
  where
    unshifted : (r : Option ℕ) → shifted 0 r ≡ r
    unshifted none = refl
    unshifted (some i) = ap some (omega arith)

-- `Finds` determines its answer where the name belongs to one user alone.
pub Finds-unique :
    (us : List User) (n : ℕ) (name : Bytes) (r : Option ℕ) (u : ℕ)
    → Finds us n name r
    → u < n
    → text (user_at us u).name ≡ name
    → ((j : ℕ) → j < n → text (user_at us j).name ≡ name → j ≡ u)
    → r ≡ some u
Finds-unique us n name none u f lt e one = absurd (f u lt e)
Finds-unique us n name (some i) u f lt e one = ap some (one i f.0 f.1)

pub user_get_missing :
    (m : UserManager) (name : Bytes)
    → IsReadable m
    → IsText name
    → ((i : ℕ) → i < m.last → text (user_at m.users i).name ≢ name)
    → user_get m name ≡ done none
user_get_missing m name v t new = let (r, eq, f) = user_get_lem m name v t in go r eq f
  where
    go :
        (r : Option ℕ)
        → user_get m name ≡ done r
        → Finds m.users m.last name r
        → user_get m name ≡ done none
    go none eq f = eq
    go (some i) eq f = absurd (new i f.0 f.1)

pub user_get_present :
    (m : UserManager) (name : Bytes) (u : ℕ)
    → IsReadable m
    → IsText name
    → u < m.last
    → text (user_at m.users u).name ≡ name
    → (i : ℕ) × (user_get m name ≡ done (some i))
user_get_present m name u v t lt e = let (r, eq, f) = user_get_lem m name v t in go r eq f
  where
    go :
        (r : Option ℕ)
        → user_get m name ≡ done r
        → Finds m.users m.last name r
        → (i : ℕ) × (user_get m name ≡ done (some i))
    go none eq f = absurd (f u lt e)
    go (some i) eq f = (i, eq)

-- While nobody holds the users' lock, on a readable table of users: registering a name that is
-- taken answers false and leaves the write lock of the users held, so every later registration
-- waits for ever.
pub register_taken_blocks :
    (m : Managers) (junk : List User) (name password : Bytes) (u : ℕ)
    → m.user.locked ≡ false
    → IsReadable m.user
    → IsText name
    → u < m.user.last
    → text (user_at m.user.users u).name ≡ name
    → (m' : Managers) × (http_session_register_user m junk name password ≡ done (false, m'))
      × ((junk' : List User) (name' password' : Bytes)
          → http_session_register_user m' junk' name' password' ≡ blocked)
unfolding http_session_register_user
register_taken_blocks m junk name password u open' v t lt e =
    let (i, eq) = user_get_present m.user name u v t lt e in
    (
      record m { user = record m.user { locked = true } },
      simp (open', eq),
      λ junk' name' password'. refl,
    )

-- While nobody holds the users' lock, on a readable table of users: registering a new name while
-- the table is full, and the last session is below the last user, writes behind the end of the
-- array that was grown.
pub register_full_overflows :
    (m : Managers) (junk : List User) (name password : Bytes)
    → m.user.locked ≡ false
    → IsReadable m.user
    → IsText name
    → ((i : ℕ) → i < m.user.last → text (user_at m.user.users i).name ≢ name)
    → m.user.entries ≡ m.user.capacity
    → m.session.last < m.user.last
    → m.user.last ≤ m.user.capacity
    → http_session_register_user m junk name password ≡ fault
unfolding http_session_register_user grow_users
register_full_overflows m junk name password open' v t new full less within = simp (
  open',
  user_get_missing m.user name v t new,
  le→ltb m.user.entries m.user.capacity (omega arith),
  le→ltb (m.user.capacity * 2) m.session.last (omega arith),
  lt→ltb (m.user.capacity * 2 - m.user.last) (m.user.capacity * 2 - m.session.last) (omega arith),
)
