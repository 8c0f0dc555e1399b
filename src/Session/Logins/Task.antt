-- ===== src/Session/Logins/Task.antt =====
-- http_libs/http_session.c: one second of the session task.
use mathlib.Core.Path.{subst}
use native.Mathlib.Decide.{dec_lt}
use tiny_https_server.Prelude.{
  ℕ, zero, suc, ◌+◌, ◌-◌, ◌≤◌, ◌<◌, ◌≡◌, refl, sym, ap, ◌∙◌, inl, inr, Bool, true, false, ◌&&◌, not,
  none, List, [], ◌∷◌, arith, ◌==◌, if◌then◌else◌, is_null, length, Option-cases,
}
use tiny_https_server.Prelude.Run.{Run, done, take_lock, ◌>>=◌}
use tiny_https_server.Session.{Session, Managers, session_at}
use tiny_https_server.Session.Logins.{older, noted, age, end_expired, users_lock, session_task}
use tiny_https_server.Session.Logins.Slots.{IsValid}
use tiny_https_server.Session.Logins.Expiry.{used, aged, age_one, age_lem}
use tiny_https_server.Session.Logins.Ended.{
  Between, among, not_among, ended, ended_if, Ended, end_expired-Ended,
}

-- A session of a user whose last second is over.
abbrev pub due : Session → Bool
due s = not (is_null s.user_ref) && ((older s).expire_s == 0)

-- A slot a second later: a session counts down, and at 0 it is over.
abbrev pub tick : Session → Session
tick s =
    if is_null s.user_ref then s else if (older s).expire_s == 0 then ended (older s) else older s

ended_or_older :
    (a b : Bool) (s t : Session)
    → ended_if (not a && b) (if a then s else t) ≡ (if a then s else if b then ended t else t)
ended_or_older true b s t = refl
ended_or_older false true s t = refl
ended_or_older false false s t = refl

length-age : (count : ℕ) (ss : List Session) (i : ℕ) → length (age count ss i).0 ≡ length ss
unfolding age
length-age zero ss i = refl
length-age (suc count) [] i = refl
length-age (suc count) (s ∷ ss) i = elim (Option-cases s.user_ref) [
  | inl e ↦ ap length (age_one count s ss i) ∙ rw e (ap suc (length-age (suc count) ss (suc i)))
  | inr (u, e) ↦ ap length (age_one count s ss i) ∙ rw e (ap suc (length-age count ss (suc i)))
]

age_buff :
    (count : ℕ) (s : Session) (ss : List Session) (i : ℕ)
    → (age (suc count) (s ∷ ss) i).1 ≡ (
        if is_null s.user_ref
        then (age (suc count) ss (suc i)).1
        else noted ((older s).expire_s == 0) i (age count ss (suc i)).1)
unfolding age
age_buff count s ss i = elim (Option-cases s.user_ref) [
  | inl e ↦ rw e refl
  | inr (u, e) ↦ rw e refl
]

-- The slots from `n` on have no session.
abbrev IsFreeFrom : ℕ → ℕ → List Session → Type 0
IsFreeFrom n i ss = (k : ℕ) → n ≤ i + k → (session_at ss k).user_ref ≡ none

looser : (n i : ℕ) (xs : List ℕ) → Between (suc i) n xs → Between i n xs
looser n i [] b = tt
looser n i (x ∷ xs) (lo, hi, b) = (omega arith, hi, b)

choice-Between :
    (n i : ℕ) (a b : Bool) (xs ys : List ℕ)
    → Between (suc i) n xs
    → Between (suc i) n ys
    → (a ≡ false → i < n)
    → Between i n (if a then xs else noted b i ys)
choice-Between n i true b xs ys hx hy lt = looser n i xs hx
choice-Between n i false true xs ys hx hy lt = (omega arith, lt refl, hy)
choice-Between n i false false xs ys hx hy lt = looser n i ys hy

free_later :
    (n i : ℕ) (s : Session) (ss : List Session) → IsFreeFrom n i (s ∷ ss) → IsFreeFrom n (suc i) ss
free_later n i s ss f k le = f (suc k) (omega arith)

used_below :
    (n i : ℕ) (s : Session) (ss : List Session)
    → IsFreeFrom n i (s ∷ ss)
    → is_null s.user_ref ≡ false
    → i < n
used_below n i s ss f h = elim (dec_lt i n) [
  | yes lt ↦ lt
  | no ge ↦ absurd (ground (arith, f 0 (omega arith)))
]

buff-Between :
    (n count : ℕ) (ss : List Session) (i : ℕ) → IsFreeFrom n i ss → Between i n (age count ss i).1
unfolding age
buff-Between n zero ss i f = tt
buff-Between n (suc count) [] i f = tt
buff-Between n (suc count) (s ∷ ss) i f = subst (Between i n) (sym (age_buff count s ss i)) (
    choice-Between n i (is_null s.user_ref) ((older s).expire_s == 0) _ _
      (buff-Between n (suc count) ss (suc i) (free_later n i s ss f))
      (buff-Between n count ss (suc i) (free_later n i s ss f)) (used_below n i s ss f))

used_le : (n i : ℕ) (ss : List Session) → IsFreeFrom n i ss → used ss ≤ n - i
used_le n i [] f = omega arith
used_le n i (s ∷ ss) f =
    ground (arith, used_le n (suc i) ss (free_later n i s ss f), used_below n i s ss f)

choice_here :
    (n i : ℕ) (a b : Bool) (xs ys : List ℕ)
    → Between (suc i) n xs
    → Between (suc i) n ys
    → among (if a then xs else noted b i ys) i ≡ not a && b
choice_here n i true b xs ys hx hy = not_among (suc i) n xs i hx (omega arith)
choice_here n i false true xs ys hx hy = ground arith
choice_here n i false false xs ys hx hy = not_among (suc i) n ys i hy (omega arith)

choice_later :
    (i k : ℕ) (a b : Bool) (xs ys : List ℕ) (d : Bool)
    → i < k
    → (a ≡ true → among xs k ≡ d)
    → (a ≡ false → among ys k ≡ d)
    → among (if a then xs else noted b i ys) k ≡ d
choice_later i k true b xs ys d lt hx hy = hx refl
choice_later i k false true xs ys d lt hx hy =
    let other : (i == k) ≡ false = ground arith in rw other (hy refl)
choice_later i k false false xs ys d lt hx hy = hy refl

nothing_due : (ss : List Session) (j : ℕ) → used ss ≡ 0 → due (session_at ss j) ≡ false
nothing_due [] j h = refl
nothing_due (s ∷ ss) zero h = ground arith
nothing_due (s ∷ ss) (suc j) h = nothing_due ss j (ground arith)

buff_among :
    (n count : ℕ) (ss : List Session) (i j : ℕ)
    → IsFreeFrom n i ss
    → used ss ≤ count
    → among (age count ss i).1 (i + j) ≡ due (session_at ss j)
unfolding age
buff_among n zero ss i j f h = sym (nothing_due ss j (omega arith))
buff_among n (suc count) [] i j f h = refl
buff_among n (suc count) (s ∷ ss) i zero f h =
    let here : i + 0 ≡ i = omega arith in
    ap (among (age (suc count) (s ∷ ss) i).1) here
    ∙ ap (λ l. among l i) (age_buff count s ss i)
    ∙ choice_here n i (is_null s.user_ref) ((older s).expire_s == 0) _ _
        (buff-Between n (suc count) ss (suc i) (free_later n i s ss f))
        (buff-Between n count ss (suc i) (free_later n i s ss f))
buff_among n (suc count) (s ∷ ss) i (suc j) f h =
    let here : i + suc j ≡ suc i + j = omega arith in
    ap (among (age (suc count) (s ∷ ss) i).1) here
    ∙ ap (λ l. among l (suc i + j)) (age_buff count s ss i)
    ∙ choice_later i (suc i + j) (is_null s.user_ref) ((older s).expire_s == 0) _ _
        (due (session_at ss j)) (omega arith)
        (λ a. buff_among n (suc count) ss (suc i) j (free_later n i s ss f) (ground arith))
        (λ a. buff_among n count ss (suc i) j (free_later n i s ss f) (ground arith))

aged_ref : (s : Session) → (aged s).user_ref ≡ s.user_ref
aged_ref s = elim (Option-cases s.user_ref) [ inl e ↦ rw e refl | inr (u, e) ↦ rw e refl ]

aged_id : (s : Session) → (aged s).id ≡ s.id
aged_id s = elim (Option-cases s.user_ref) [ inl e ↦ rw e refl | inr (u, e) ↦ rw e refl ]

module _ (m : Managers) (v : IsValid m.session) where
  abbrev swept : List Session × List ℕ
  swept = age m.session.entries m.session.sessions 0

  abbrev aged_m : Managers
  aged_m = record m { session = record m.session { sessions = swept.0 } }

  v_free : IsFreeFrom m.session.last 0 m.session.sessions
  v_free k le = v.free k (omega arith)

  few : used m.session.sessions ≤ m.session.entries
  few = omega (arith, used_le m.session.last 0 m.session.sessions v_free, v.last_le)

  aged_at : (j : ℕ) → session_at swept.0 j ≡ aged (session_at m.session.sessions j)
  aged_at j = age_lem m.session.entries m.session.sessions 0 j few

  aged-IsValid : IsValid aged_m.session
  aged-IsValid = record {
    room = v.room;
    slots = length-age m.session.entries m.session.sessions 0 ∙ v.slots;
    last_le = v.last_le;
    entries_le = v.entries_le;
    free = λ i le. ap (λ (s : Session). s.user_ref) (aged_at i) ∙ aged_ref _ ∙ v.free i le;
    clear = λ i e.
        ap (λ (s : Session). s.id) (aged_at i)
        ∙ aged_id _
        ∙ v.clear i (sym (aged_ref _) ∙ sym (ap (λ (s : Session). s.user_ref) (aged_at i)) ∙ e);
  }

  swept-Ended : Ended aged_m (end_expired aged_m 0 swept.1) 0 swept.1
  swept-Ended =
      end_expired-Ended aged_m 0 0 swept.1 aged-IsValid (omega arith)
        (buff-Between m.session.last m.session.entries m.session.sessions 0 v_free)

  among_at : (j : ℕ) → among swept.1 j ≡ due (session_at m.session.sessions j)
  among_at j =
      let here : j ≡ 0 + j = omega arith in
      ap (among swept.1) here
      ∙ buff_among m.session.last m.session.entries m.session.sessions 0 j v_free few

  lock_lem : (xs : List ℕ) → m.user.locked ≡ false → users_lock m xs ≡ done tt
  lock_lem [] free = refl
  lock_lem (x ∷ xs) free = ap take_lock free

  -- While nobody holds the users' lock: the task gets through a second of a valid table of sessions,
  -- which is valid after it, and each of its slots is the one before it a second later: a session of
  -- a user has a second less, modulo 2 ^ 64, and if it has none left then, its id is cleared and it
  -- belongs to nobody; a slot without a session is as it was.
  pub session_task_lem :
      m.user.locked ≡ false
      → (m' : Managers) × (session_task m ≡ done m')
        × IsValid m'.session
        × ((j : ℕ) → session_at m'.session.sessions j ≡ tick (session_at m.session.sessions j))
  unfolding session_task
  session_task_lem free = (
    end_expired aged_m 0 swept.1,
    ap (λ (r : Run (Unit {0})). r >>= λ _. done (end_expired aged_m 0 swept.1))
        (lock_lem swept.1 free),
    swept-Ended.valid,
    λ j.
        swept-Ended.slots j
        ∙ ap (λ b. ended_if b (session_at swept.0 j)) (among_at j)
        ∙ ap (ended_if (due (session_at m.session.sessions j))) (aged_at j)
        ∙ ended_or_older (is_null (session_at m.session.sessions j).user_ref)
            ((older (session_at m.session.sessions j)).expire_s == 0) _ _,
  )
