-- ===== src/Session/Store/Saving.antt =====
-- http_libs/http_session.c: what the session task writes to the files of the users.
use native.Mathlib.Decide.{dec_lt}
use tiny_https_server.Prelude.{
  ℕ, zero, suc, ◌+◌, ◌-◌, ◌<◌, ◌≡◌, refl, sym, ap, ◌∙◌, true, false, Option, none, some, List, [],
  ◌∷◌, ◌++◌, arith, ◌==◌, if◌then◌else◌, length, take, length-append, get_or-append_left,
  get_or-append_right,
}
use tiny_https_server.Prelude.Run.{Run, done, take_lock, ◌>>=◌}
use tiny_https_server.Session.{no_user, User, UserManager}
use tiny_https_server.Session.Users.{user_at}
use tiny_https_server.Session.Store.{
  Files, Engine, work_empty, write_work, written, reading_lock, saved_users, save_users,
}
use tiny_https_server.Session.Store.Accounts.{account, account_at, from, Synced}

length-from : (d n : ℕ) → length (from d n) ≡ n
length-from d zero = refl
length-from d (suc n) = ap suc (length-from (suc d) n)

-- The work is written whole where the queue is not full.
write_work_lem :
    (n d k : ℕ) (us : List User)
    → k < n
    → ((write_work n us (from d k)).0 ≡ [])
      × (length (write_work n us (from d k)).1 ≡ k)
      × ((i : ℕ) → i < k → user_at (write_work n us (from d k)).1 i ≡ user_at us (d + i))
unfolding write_work
write_work_lem n d zero us h = (refl, refl, λ i lt. absurd (omega arith))
write_work_lem n d (suc k) us h =
    let (none_left, count, users) = write_work_lem n (suc d) k us (omega arith) in
    let len = length-from (suc d) k in
    let more : work_empty n (d ∷ from (suc d) k) ≡ false = ground (arith, len) in
    rw more (none_left, ap suc count, λ i lt. at us d k _ i lt users)
  where
    at :
        (us : List User) (d k : ℕ) (out : List User) (i : ℕ)
        → i < suc k
        → ((i : ℕ) → i < k → user_at out i ≡ user_at us (suc d + i))
        → user_at (user_at us d ∷ out) i ≡ user_at us (d + i)
    at us d k out zero lt h = let e : d ≡ d + 0 = omega arith in ap (user_at us) e
    at us d k out (suc i) lt h =
        let e : suc d + i ≡ d + suc i = omega arith in h i (omega arith) ∙ ap (user_at us) e

-- The files hold the users of the table, each of them.
pub record Saved (f : Files) (m : UserManager) : Type 0 where
  pub meta_eq : f.meta ≡ length f.db
  pub last_eq : m.last ≡ length f.db
  pub same : (i : ℕ) → i < m.last → account_at f.db i ≡ account_at m.users i

pub kept : (n : ℕ) (xs : List User) → n ≡ length xs → (if n == 0 then [] else xs) ≡ xs
kept n [] h = ground arith
kept n (x ∷ xs) h = ground arith

pub take_all : (n : ℕ) (xs : List User) → n ≡ length xs → take n xs ≡ xs
take_all zero [] h = refl
take_all zero (x ∷ xs) h = absurd (omega arith)
take_all (suc n) [] h = absurd (omega arith)
take_all (suc n) (x ∷ xs) h = ap (◌∷◌ x) (take_all n xs (omega arith))

module _ (e : Engine) (f : Files) (s : Synced e f)
    (h : length e.managers.user.work < e.managers.user.work_capacity) where
  abbrev us : List User
  us = e.managers.user.users

  abbrev out : List User
  out = (write_work e.managers.user.work_capacity us e.managers.user.work).1

  abbrev n : ℕ
  n = length e.managers.user.work

  out_lem : (length out ≡ n) × ((i : ℕ) → i < n → user_at out i ≡ user_at us (length f.db + i))
  out_lem =
      let (left, count, users) =
        write_work_lem e.managers.user.work_capacity (length f.db) n us h in
      let same = ap (λ w. (write_work e.managers.user.work_capacity us w).1) s.work_eq in
      (ap length same ∙ count, λ i lt. ap (λ l. user_at l i) same ∙ users i lt)

  all_same : (i : ℕ) → i < e.managers.user.last → account_at (f.db ++ out) i ≡ account_at us i
  all_same i lt = elim (dec_lt i (length f.db)) [
    | yes old ↦ ap account (get_or-append_left f.db out i no_user old) ∙ s.saved i old
    | no new ↦
        let k : i ≡ length f.db + (i - length f.db) = omega arith in
        ap (account_at (f.db ++ out)) k
        ∙ ap account (get_or-append_right f.db out (i - length f.db) no_user)
        ∙ ap account (out_lem.1 (i - length f.db) (omega (arith, s.last_eq)))
        ∙ ap (account_at us) (sym k)
  ]

  written-Saved :
      (o : List User) → o ≡ out → Saved (written f (e.user_entries + length o) o) e.managers.user
  written-Saved [] q = record {
    meta_eq = s.meta_eq;
    last_eq = omega (arith, s.last_eq, out_lem.0, ap length q);
    same = λ i lt. s.saved i (omega (arith, s.last_eq, out_lem.0, ap length q));
  }
  written-Saved (u ∷ o) q = record {
    meta_eq = omega (arith, s.count_eq, length-append f.db (u ∷ o));
    last_eq = omega (arith, s.last_eq, out_lem.0, ap length q, length-append f.db (u ∷ o));
    same = λ i lt. ap (λ l. account_at (f.db ++ l) i) q ∙ all_same i lt;
  }

  lock_lem :
      (ws : List User)
      → e.managers.user.locked ≡ false
      → reading_lock e.managers.user.locked ws ≡ done tt
  lock_lem [] free = refl
  lock_lem (w ∷ ws) free = ap take_lock free

  pub save_users-Saved :
      e.managers.user.locked ≡ false
      → (e' : Engine) × (f' : Files) × (save_users e ≡ done e')
        × (e'.files ≡ some f')
        × Saved f' e.managers.user
  unfolding save_users
  save_users-Saved free =
      let work = write_work e.managers.user.work_capacity us e.managers.user.work in
      (
        saved_users e work,
        written f (e.user_entries + length out) out,
        ap (λ (r : Run (Unit {0})). r >>= λ _. done (saved_users e work)) (lock_lem out free),
        rw s.opened refl,
        written-Saved out refl,
      )

-- The work of a full queue is left where it is.
full_left :
    (n : ℕ) (us : List User) (work : List ℕ) → length work ≡ n → write_work n us work ≡ (work, [])
unfolding write_work
full_left n us [] h = refl
full_left n us (user_id ∷ work) h =
    let full : work_empty n (user_id ∷ work) ≡ true = ground arith in rw full refl

-- Where the queue of work is full, the session task writes none of its users and leaves it full.
pub full_work_stays :
    (e : Engine)
    → length e.managers.user.work ≡ e.managers.user.work_capacity
    → save_users e ≡ done e
unfolding save_users
full_work_stays e h =
    ap
      (λ (l : List ℕ × List User).
        reading_lock e.managers.user.locked l.1 >>= λ _. done (saved_users e l))
      (full_left e.managers.user.work_capacity e.managers.user.users e.managers.user.work h)
    ∙ ap done (same e.files (e.user_entries + 0) (omega arith))
  where
    same :
        (d : Option Files) (n : ℕ)
        → n ≡ e.user_entries
        → record e { user_entries = n; files = elim d [ none ↦ none | some f ↦ some f ] }
          ≡ record e { files = d }
    same none n q = ap (λ k. record e { user_entries = k; files = none }) q
    same (some f) n q = ap (λ k. record e { user_entries = k; files = some f }) q
