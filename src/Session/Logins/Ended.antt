-- ===== src/Session/Logins/Ended.antt =====
-- http_libs/http_session.c: the loop of `session_task` that ends the sessions whose time is over.
use native.Mathlib.Decide.{ℕ_discrete}
use tiny_https_server.Prelude.{
  ℕ, suc, ◌+◌, ◌≤◌, ◌<◌, ◌≡◌, ◌≢◌, refl, sym, ap, ◌∙◌, ◌⊎◌, inl, inr, Bool, true, false, ◌||◌, none,
  List, [], ◌∷◌, arith, ◌==◌, length, set, length-set, get_or-set_same, get_or-set_ne,
}
use tiny_https_server.Session.{Session, SessionManager, Managers, no_session, session_at}
use tiny_https_server.Session.Logins.{end_session, shrink_last, end_expired}
use tiny_https_server.Session.Logins.Slots.{IsValid}

-- Slots in order, from `a` on and below `n`.
abbrev pub Between : ℕ → ℕ → List ℕ → Type 0
Between a n [] = Unit {0}
Between a n (x ∷ xs) = (a ≤ x) × (x < n) × Between (suc x) n xs

abbrev pub among : List ℕ → ℕ → Bool
among [] j = false
among (x ∷ xs) j = (x == j) || among xs j

length-le-of_Between : (a n : ℕ) (xs : List ℕ) → Between a n xs → a ≤ n → a + length xs ≤ n
length-le-of_Between a n [] b h = omega arith
length-le-of_Between a n (x ∷ xs) (lo, hi, b) h =
    omega (arith, length-le-of_Between (suc x) n xs b (omega arith))

pub not_among : (a n : ℕ) (xs : List ℕ) (j : ℕ) → Between a n xs → j < a → among xs j ≡ false
not_among a n [] j b h = refl
not_among a n (x ∷ xs) j (lo, hi, b) h = ground (arith, not_among (suc x) n xs j b (omega arith))

-- A session that is over.
abbrev pub ended : Session → Session
ended s = record s { id = []; user_ref = none }

abbrev pub ended_if : Bool → Session → Session
ended_if true s = ended s
ended_if false s = s

-- A slot of a valid table is cleared.
abbrev cleared : SessionManager → ℕ → SessionManager
cleared m x = record m { sessions = set m.sessions x (ended (session_at m.sessions x)) }

cleared_at :
    (m : SessionManager) (x j : ℕ)
    → x < length m.sessions
    → session_at (cleared m x).sessions j ≡ ended_if (x == j) (session_at m.sessions j)
cleared_at m x j h = elim (ℕ_discrete x j) [
  | yes e ↦
      let same : (x == j) ≡ true = ground arith in
      get_or-set_same m.sessions x j (ended (session_at m.sessions x)) no_session h (sym e)
      ∙ ap (λ k. ended (session_at m.sessions k)) e
      ∙ ap (λ b. ended_if b (session_at m.sessions j)) (sym same)
  | no ne ↦
      let other : (x == j) ≡ false = ground arith in
      get_or-set_ne m.sessions x j (ended (session_at m.sessions x)) no_session ne
      ∙ ap (λ b. ended_if b (session_at m.sessions j)) (sym other)
]

ended_ref : (b : Bool) (s : Session) → s.user_ref ≡ none → (ended_if b s).user_ref ≡ none
ended_ref true s h = refl
ended_ref false s h = h

ended_id :
    (b : Bool) (s : Session)
    → (s.user_ref ≡ none → s.id ≡ [])
    → (ended_if b s).user_ref ≡ none
    → (ended_if b s).id ≡ []
ended_id true s c h = refl
ended_id false s c h = c h

cleared-IsValid :
    (m : SessionManager) (x : ℕ) → IsValid m → x < length m.sessions → IsValid (cleared m x)
cleared-IsValid m x v h = record {
  room = v.room;
  slots = length-set m.sessions x (ended (session_at m.sessions x)) ∙ v.slots;
  last_le = v.last_le;
  entries_le = v.entries_le;
  free = λ i le.
      ap (λ (s : Session). s.user_ref) (cleared_at m x i h)
      ∙ ended_ref (x == i) (session_at m.sessions i) (v.free i le);
  clear = λ i e.
      ap (λ (s : Session). s.id) (cleared_at m x i h)
      ∙ ended_id (x == i) (session_at m.sessions i) (v.clear i)
          (sym (ap (λ (s : Session). s.user_ref) (cleared_at m x i h)) ∙ e);
}

-- What the loop leaves, from the place `p` of the buffer on: a valid table in which the slots of the
-- buffer are cleared and the others are as they were, and whose last slot has moved to `p` if the
-- buffer reached up to it.
pub record Ended (m m' : Managers) (p : ℕ) (xs : List ℕ) : Type 0 where
  pub valid : IsValid m'.session
  pub slots :
      (j : ℕ)
      → session_at m'.session.sessions j ≡ ended_if (among xs j) (session_at m.session.sessions j)
  pub last :
      (m'.session.last ≡ m.session.last)
      ⊎ ((m'.session.last ≡ p) × (p + length xs ≡ m.session.last))

-- A table without its last slot, which is free.
shrunk-IsValid :
    (m : SessionManager) (p : ℕ)
    → IsValid m
    → suc p ≡ m.last
    → (session_at m.sessions p).user_ref ≡ none
    → IsValid (shrink_last m p)
unfolding shrink_last
shrunk-IsValid m p v h f = record {
  room = v.room;
  slots = v.slots;
  last_le = ground (arith, v.last_le);
  entries_le = v.entries_le;
  free = λ i le. elim (ℕ_discrete p i) [
    | yes e ↦ ap (λ k. (session_at m.sessions k).user_ref) (sym e) ∙ f
    | no ne ↦ v.free i (ground arith)
  ];
  clear = v.clear;
}

kept-IsValid : (m : SessionManager) (p : ℕ) → IsValid m → suc p ≢ m.last → IsValid (shrink_last m p)
unfolding shrink_last
kept-IsValid m p v h = record {
  room = v.room;
  slots = v.slots;
  last_le = ground (arith, v.last_le);
  entries_le = v.entries_le;
  free = λ i le. v.free i (ground arith);
  clear = v.clear;
}

ended_twice : (b c : Bool) (s : Session) → ended_if b (ended_if c s) ≡ ended_if (b || c) s
ended_twice true true s = refl
ended_twice true false s = refl
ended_twice false c s = refl

-- One slot of the buffer, after those behind it.
module _ (m m' : Managers) (p x : ℕ) (xs : List ℕ) (b : Between (suc x) m.session.last xs)
    (le : p ≤ x) (lt : x < m.session.last) (e : Ended m m' (suc p) xs) where
  behind : suc x + length xs ≤ m.session.last
  behind = length-le-of_Between (suc x) m.session.last xs b (omega (arith, lt))

  inside : x < length m'.session.sessions
  inside = elim e.last [
    | inl same ↦ omega (arith, e.valid.slots, e.valid.last_le, e.valid.entries_le, lt)
    | inr (at, sum) ↦ omega (arith, behind, e.valid.slots, e.valid.last_le, e.valid.entries_le)
  ]

  reached : suc p ≡ m'.session.last → (x ≡ p) × (p + suc (length xs) ≡ m.session.last)
  reached h = elim e.last [
    | inl same ↦ (omega (arith, le, lt), omega (arith, le, lt, behind))
    | inr (at, sum) ↦ (omega (arith, le, behind), omega (arith, sum))
  ]

  at_slot :
      (j : ℕ)
      → session_at (cleared m'.session x).sessions j
        ≡ ended_if (among (x ∷ xs) j) (session_at m.session.sessions j)
  at_slot j =
      cleared_at m'.session x j inside
      ∙ ap (ended_if (x == j)) (e.slots j)
      ∙ ended_twice (x == j) (among xs j) (session_at m.session.sessions j)

  free_last : x ≡ p → (session_at (cleared m'.session x).sessions p).user_ref ≡ none
  free_last h =
      let same : (x == p) ≡ true = ground arith in
      ap (λ (s : Session). s.user_ref)
        (cleared_at m'.session x p inside
          ∙ ap (λ c. ended_if c (session_at m'.session.sessions p)) same)

  abbrev next : SessionManager
  next = shrink_last (cleared m'.session x) p

  next-IsValid : IsValid next
  next-IsValid = elim (ℕ_discrete (suc p) m'.session.last) [
    | yes last ↦
        shrunk-IsValid (cleared m'.session x) p (cleared-IsValid m'.session x e.valid inside) last
          (free_last (reached last).0)
    | no inner ↦
        kept-IsValid (cleared m'.session x) p (cleared-IsValid m'.session x e.valid inside) inner
  ]

  next_last :
      (next.last ≡ m.session.last) ⊎ ((next.last ≡ p) × (p + suc (length xs) ≡ m.session.last))
  unfolding shrink_last
  next_last = elim (ℕ_discrete (suc p) m'.session.last) [
    | yes last ↦ inr (ground arith, (reached last).1)
    | no inner ↦ elim e.last [
      | inl same ↦ inl (ground arith)
      | inr (at, sum) ↦ absurd (inner (sym at))
    ]
  ]

  end_one :
      Ended m
        (let m'' = end_session m' x in record m'' { session = shrink_last m''.session p })
        p
        (x ∷ xs)
  unfolding end_session shrink_last
  end_one = record { valid = next-IsValid; slots = at_slot; last = next_last }

-- The second loop of the session task.
pub end_expired-Ended :
    (m : Managers) (p a : ℕ) (xs : List ℕ)
    → IsValid m.session
    → p ≤ a
    → Between a m.session.last xs
    → Ended m (end_expired m p xs) p xs
unfolding end_expired
end_expired-Ended m p a [] v le b = record { valid = v; slots = λ j. refl; last = inl refl }
end_expired-Ended m p a (x ∷ xs) v le (lo, hi, b) =
    end_one m (end_expired m (suc p) xs) p x xs b (omega arith) hi
      (end_expired-Ended m (suc p) (suc x) xs v (omega arith) b)
