-- ===== src/Session/Logins/Expiry.antt =====
-- The loop of `session_task` of http_libs/http_session.c that counts the sessions down.
use tiny_https_server.Prelude.{
  ℕ, zero, suc, ◌≤◌, ◌≡◌, refl, sym, ap, ◌∙◌, inl, inr, none, some, List, [], ◌∷◌, arith,
  if◌then◌else◌, is_null, Option-cases,
}
use tiny_https_server.Session.{Session, session_at}
use tiny_https_server.Session.Logins.{older, age}

-- The sessions that belong to a user.
abbrev pub used : List Session → ℕ
used [] = 0
used (s ∷ ss) = if is_null s.user_ref then used ss else suc (used ss)

-- A slot a second later.
abbrev pub aged : Session → Session
aged s = if is_null s.user_ref then s else older s

pub age_one :
    (count : ℕ) (s : Session) (ss : List Session) (i : ℕ)
    → (age (suc count) (s ∷ ss) i).0 ≡ (
        if is_null s.user_ref
        then s ∷ (age (suc count) ss (suc i)).0
        else older s ∷ (age count ss (suc i)).0)
unfolding age
age_one count s ss i = elim (Option-cases s.user_ref) [ inl e ↦ rw e refl | inr (u, e) ↦ rw e refl ]

unused : (ss : List Session) (j : ℕ) → used ss ≡ 0 → aged (session_at ss j) ≡ session_at ss j
unused [] j h = refl
unused (s ∷ ss) zero h = elim (Option-cases s.user_ref) [
  | inl e ↦ rw e refl
  | inr (u, e) ↦ absurd (ground arith)
]
unused (s ∷ ss) (suc j) h = elim (Option-cases s.user_ref) [
  | inl e ↦ unused ss j (ground arith)
  | inr (u, e) ↦ absurd (ground arith)
]

-- Where `entries` is no less than the number of sessions that belong to a user, the loop of the
-- session task takes one second from each of these, whatever its slot, and leaves every other slot.
pub age_lem :
    (count : ℕ) (ss : List Session) (i j : ℕ)
    → used ss ≤ count
    → session_at (age count ss i).0 j ≡ aged (session_at ss j)
unfolding age
age_lem zero ss i j h = sym (unused ss j (omega arith))
age_lem (suc count) [] i j h = refl
age_lem (suc count) (s ∷ ss) i j h = elim (Option-cases s.user_ref) [
  | inl e ↦
      ap (λ l. session_at l j) {y = s ∷ (age (suc count) ss (suc i)).0}
        (age_one count s ss i ∙ rw e refl)
      ∙ free_slot j e (λ k. age_lem (suc count) ss (suc i) k (ground arith))
  | inr (u, e) ↦
      ap (λ l. session_at l j) {y = older s ∷ (age count ss (suc i)).0}
        (age_one count s ss i ∙ rw e refl)
      ∙ busy_slot j u e (λ k. age_lem count ss (suc i) k (ground arith))
]
  where
    free_slot :
        (j : ℕ)
        → s.user_ref ≡ none
        → ((k : ℕ) → session_at (age (suc count) ss (suc i)).0 k ≡ aged (session_at ss k))
        → session_at (s ∷ (age (suc count) ss (suc i)).0) j ≡ aged (session_at (s ∷ ss) j)
    free_slot zero e rest = rw e refl
    free_slot (suc k) e rest = rest k

    busy_slot :
        (j u : ℕ)
        → s.user_ref ≡ some u
        → ((k : ℕ) → session_at (age count ss (suc i)).0 k ≡ aged (session_at ss k))
        → session_at (older s ∷ (age count ss (suc i)).0) j ≡ aged (session_at (s ∷ ss) j)
    busy_slot zero u e rest = rw e refl
    busy_slot (suc k) u e rest = rest k
