-- ===== src/Prelude/Lists.antt =====
-- Lists measured and indexed by native numbers, under the library's names.
use Prim.Native.Nat.{ℕ, zero, suc, ◌+◌, ◌-◌, ◌≤◌, ◌<◌, min}
use mathlib.Core.Path.{◌≡◌, refl, sym, ap, ◌∙◌, subst}
use mathlib.Core.Logic.{◌≢◌}
use mathlib.Core.List.{List, [], ◌∷◌, ◌++◌}
use mathlib.Core.Option.{Option, none, some}
use native.Mathlib.Omega.{arith}
use native.Mathlib.Decide.{ℕ_discrete}

module _ {ℓ} {A : Type ℓ} where
  abbrev pub length : List A → ℕ
  length [] = 0
  length (x ∷ xs) = suc (length xs)

  abbrev pub get_elem? : List A → ℕ → Option A
  get_elem? [] i = none
  get_elem? (x ∷ xs) zero = some x
  get_elem? (x ∷ xs) (suc i) = get_elem? xs i

  abbrev pub get_or : List A → ℕ → A → A
  get_or [] i d = d
  get_or (x ∷ xs) zero d = x
  get_or (x ∷ xs) (suc i) d = get_or xs i d

  -- A write out of bounds changes nothing.
  abbrev pub set : List A → ℕ → A → List A
  set [] i v = []
  set (x ∷ xs) zero v = v ∷ xs
  set (x ∷ xs) (suc i) v = x ∷ set xs i v

  abbrev pub take : ℕ → List A → List A
  take zero xs = []
  take (suc n) [] = []
  take (suc n) (x ∷ xs) = x ∷ take n xs

  abbrev pub drop : ℕ → List A → List A
  drop zero xs = xs
  drop (suc n) [] = []
  drop (suc n) (x ∷ xs) = drop n xs

  abbrev pub replicate : ℕ → A → List A
  replicate zero a = []
  replicate (suc n) a = a ∷ replicate n a

  pub length-append : (xs ys : List A) → length (xs ++ ys) ≡ length xs + length ys
  length-append [] ys = omega arith
  length-append (x ∷ xs) ys = omega (arith, length-append xs ys)

  pub length-set : (xs : List A) (i : ℕ) (v : A) → length (set xs i v) ≡ length xs
  length-set [] i v = refl
  length-set (x ∷ xs) zero v = refl
  length-set (x ∷ xs) (suc i) v = ap suc (length-set xs i v)

  pub length-replicate : (n : ℕ) (a : A) → length (replicate n a) ≡ n
  length-replicate zero a = refl
  length-replicate (suc n) a = ap suc (length-replicate n a)

  pub length-drop : (n : ℕ) (xs : List A) → length (drop n xs) ≡ length xs - n
  length-drop zero xs = omega arith
  length-drop (suc n) [] = omega arith
  length-drop (suc n) (x ∷ xs) = omega (arith, length-drop n xs)

  pub length-take : (n : ℕ) (xs : List A) → length (take n xs) ≡ min n (length xs)
  length-take zero xs = omega arith
  length-take (suc n) [] = omega arith
  length-take (suc n) (x ∷ xs) = omega (arith, length-take n xs)

  pub get_or-set_self :
      (xs : List A) (i : ℕ) (v d : A) → i < length xs → get_or (set xs i v) i d ≡ v
  get_or-set_self [] i v d h = absurd (omega arith)
  get_or-set_self (x ∷ xs) zero v d h = refl
  get_or-set_self (x ∷ xs) (suc i) v d h = get_or-set_self xs i v d (omega arith)

  pub get_or-set_same :
      (xs : List A) (i j : ℕ) (v d : A) → i < length xs → j ≡ i → get_or (set xs i v) j d ≡ v
  get_or-set_same [] i j v d h e = absurd (omega arith)
  get_or-set_same (x ∷ xs) zero zero v d h e = refl
  get_or-set_same (x ∷ xs) zero (suc j) v d h e = absurd (omega arith)
  get_or-set_same (x ∷ xs) (suc i) zero v d h e = absurd (omega arith)
  get_or-set_same (x ∷ xs) (suc i) (suc j) v d h e =
      get_or-set_same xs i j v d (omega arith) (omega arith)

  pub get_or-set_ne :
      (xs : List A) (i j : ℕ) (v d : A) → i ≢ j → get_or (set xs i v) j d ≡ get_or xs j d
  get_or-set_ne [] i j v d h = refl
  get_or-set_ne (x ∷ xs) zero zero v d h = absurd (h refl)
  get_or-set_ne (x ∷ xs) zero (suc j) v d h = refl
  get_or-set_ne (x ∷ xs) (suc i) zero v d h = refl
  get_or-set_ne (x ∷ xs) (suc i) (suc j) v d h = get_or-set_ne xs i j v d (λ e. h (ap suc e))

  -- A property of every element after a write of one.
  pub get_or-set_any :
      (P : A → Type 0) (xs : List A) (k : ℕ) (v : A) (i : ℕ) (d : A)
      → k < length xs
      → (i ≡ k → P v)
      → (i ≢ k → P (get_or xs i d))
      → P (get_or (set xs k v) i d)
  get_or-set_any P xs k v i d lt h g = elim (ℕ_discrete i k) [
    | yes e ↦ subst P (sym (get_or-set_same xs k i v d lt e)) (h e)
    | no ne ↦ subst P (sym (get_or-set_ne xs k i v d (λ q. ne (sym q)))) (g ne)
  ]

  pub get_or-replicate : (n i : ℕ) (a : A) → get_or (replicate n a) i a ≡ a
  get_or-replicate zero i a = refl
  get_or-replicate (suc n) zero a = refl
  get_or-replicate (suc n) (suc i) a = get_or-replicate n i a

  pub get_or-append_left :
      (xs ys : List A) (i : ℕ) (d : A) → i < length xs → get_or (xs ++ ys) i d ≡ get_or xs i d
  get_or-append_left [] ys i d h = absurd (omega arith)
  get_or-append_left (x ∷ xs) ys zero d h = refl
  get_or-append_left (x ∷ xs) ys (suc i) d h = get_or-append_left xs ys i d (omega arith)

  pub get_or-append_right :
      (xs ys : List A) (i : ℕ) (d : A) → get_or (xs ++ ys) (length xs + i) d ≡ get_or ys i d
  get_or-append_right [] ys i d = let e : 0 + i ≡ i = omega arith in ap (λ k. get_or ys k d) e
  get_or-append_right (x ∷ xs) ys i d =
      let e : suc (length xs) + i ≡ suc (length xs + i) = omega arith in
      ap (λ k. get_or ((x ∷ xs) ++ ys) k d) e ∙ get_or-append_right xs ys i d

  pub get_elem?_beyond : (xs : List A) (i : ℕ) → length xs ≤ i → get_elem? xs i ≡ none
  get_elem?_beyond [] i h = refl
  get_elem?_beyond (x ∷ xs) zero h = absurd (omega arith)
  get_elem?_beyond (x ∷ xs) (suc i) h = get_elem?_beyond xs i (omega arith)

  pub get_elem?-snoc_last : (xs : List A) (v : A) → get_elem? (xs ++ v ∷ []) (length xs) ≡ some v
  get_elem?-snoc_last [] v = refl
  get_elem?-snoc_last (x ∷ xs) v = get_elem?-snoc_last xs v

  pub get_elem?-snoc_ne :
      (xs : List A) (v : A) (i : ℕ) → i ≢ length xs → get_elem? (xs ++ v ∷ []) i ≡ get_elem? xs i
  get_elem?-snoc_ne [] v zero h = absurd (h refl)
  get_elem?-snoc_ne [] v (suc i) h = refl
  get_elem?-snoc_ne (x ∷ xs) v zero h = refl
  get_elem?-snoc_ne (x ∷ xs) v (suc i) h = get_elem?-snoc_ne xs v i (λ e. h (ap suc e))

  pub take-append-drop : (n : ℕ) (xs : List A) → take n xs ++ drop n xs ≡ xs
  take-append-drop zero xs = refl
  take-append-drop (suc n) [] = refl
  take-append-drop (suc n) (x ∷ xs) = rw (take-append-drop n xs)

  pub set-snoc_last : (xs : List A) (v w : A) → set (xs ++ v ∷ []) (length xs) w ≡ xs ++ w ∷ []
  set-snoc_last [] v w = refl
  set-snoc_last (x ∷ xs) v w = ap (◌∷◌ x) (set-snoc_last xs v w)

  pub get_or-snoc_last : (xs : List A) (v d : A) → get_or (xs ++ v ∷ []) (length xs) d ≡ v
  get_or-snoc_last [] v d = refl
  get_or-snoc_last (x ∷ xs) v d = get_or-snoc_last xs v d

  -- An array cut to its first `n` cells and extended by cells that hold the default.
  pub get_or-regrown_below :
      (xs : List A) (n k i : ℕ) (a : A)
      → n ≤ length xs
      → i < n
      → get_or (take n xs ++ replicate k a) i a ≡ get_or xs i a
  get_or-regrown_below xs zero k i a h lt = absurd (omega arith)
  get_or-regrown_below [] (suc n) k i a h lt = absurd (omega arith)
  get_or-regrown_below (x ∷ xs) (suc n) k zero a h lt = refl
  get_or-regrown_below (x ∷ xs) (suc n) k (suc i) a h lt =
      get_or-regrown_below xs n k i a (omega arith) (omega arith)

  pub get_or-regrown_above :
      (xs : List A) (n k i : ℕ) (a : A)
      → n ≤ length xs
      → n ≤ i
      → get_or (take n xs ++ replicate k a) i a ≡ a
  get_or-regrown_above xs zero k i a h le = get_or-replicate k i a
  get_or-regrown_above [] (suc n) k i a h le = absurd (omega arith)
  get_or-regrown_above (x ∷ xs) (suc n) k zero a h le = absurd (omega arith)
  get_or-regrown_above (x ∷ xs) (suc n) k (suc i) a h le =
      get_or-regrown_above xs n k i a (omega arith) (omega arith)
