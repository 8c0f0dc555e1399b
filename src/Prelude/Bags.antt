-- ===== src/Prelude/Bags.antt =====
-- How often a number stands in a list, and taking the element at a place out of a list.
use Prim.Native.Nat.{ℕ, zero, suc, ◌+◌}
use mathlib.Core.Path.{◌≡◌, refl, ap}
use mathlib.Core.List.{List, [], ◌∷◌, ◌++◌}
use mathlib.Core.Option.{some}
use native.Mathlib.Omega.{arith}
use tiny_https_server.Prelude.Tests.{◌==◌, if◌then◌else◌}
use tiny_https_server.Prelude.Lists.{length, get_elem?}

abbrev pub times : List ℕ → ℕ → ℕ
times [] a = 0
times (b ∷ bs) a = (if b == a then 1 else 0) + times bs a

abbrev pub remove_at {ℓ} : {A : Type ℓ} → List A → ℕ → List A
remove_at [] i = []
remove_at (b ∷ bs) zero = bs
remove_at (b ∷ bs) (suc i) = b ∷ remove_at bs i

pub times-remove_at :
    (bs : List ℕ) (i b a : ℕ)
    → get_elem? bs i ≡ some b
    → (times bs a ≡ (if b == a then 1 else 0) + times (remove_at bs i) a)
      × (length bs ≡ suc (length (remove_at bs i)))
times-remove_at [] i b a h = cc
times-remove_at (c ∷ bs) zero b a h = (ground arith, refl)
times-remove_at (c ∷ bs) (suc i) b a h =
    let (t, l) = times-remove_at bs i b a h in (omega (arith, t), ap suc l)

pub times-append : (xs ys : List ℕ) (a : ℕ) → times (xs ++ ys) a ≡ times xs a + times ys a
times-append [] ys a = omega arith
times-append (x ∷ xs) ys a = omega (arith, times-append xs ys a)

pub append_assoc {ℓ} : {A : Type ℓ} (a b c : List A) → (a ++ b) ++ c ≡ a ++ (b ++ c)
append_assoc [] b c = refl
append_assoc (x ∷ a) b c = ap (x ∷◌) (append_assoc a b c)
