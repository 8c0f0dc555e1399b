-- ===== src/Csv/Fields.antt =====
-- app/backend/csv.c: `CSV_getField` on the lines that fields make.
use mathlib.Core.Path.{subst}
use tiny_https_server.Prelude.{
  ℕ, zero, suc, ◌-◌, ◌<◌, ◌≡◌, ◌≢◌, refl, ap, ◌∙◌, Bool, true, false, ◌&&◌, not, none, some, List,
  [], ◌∷◌, ◌++◌, arith, ◌==◌, if◌then◌else◌, length, get_elem?, Bytes,
}
use tiny_https_server.Prelude.Run.{done, ◌>>=◌}
use tiny_https_server.Csv.{copy_field, field_found, field_loop, csv_get_field}

-- A field has neither a semicolon nor a line feed.
abbrev pub IsField : Bytes → Type 0
IsField [] = Unit {0}
IsField (c ∷ s) = (c ≢ b';') × (c ≢ 10) × IsField s

abbrev pub is_field : Bytes → Bool
is_field [] = true
is_field (c ∷ s) = not (c == b';') && (not (c == 10) && is_field s)

pub is_field-IsField : (s : Bytes) → is_field s ≡ true → IsField s
is_field-IsField [] h = tt
is_field-IsField (c ∷ s) h =
    (ground (arith, h), ground (arith, h), is_field-IsField s (ground (arith, h)))

abbrev pub AllFields : List Bytes → Type 0
AllFields [] = Unit {0}
AllFields (f ∷ fs) = IsField f × AllFields fs

-- What stands behind the first field.
abbrev pub rest_of_line : List Bytes → Bytes
rest_of_line [] = 10 ∷ []
rest_of_line (f ∷ fs) = b';' ∷ (f ++ rest_of_line fs)

copy_stops :
    (f : Bytes) (fs : List Bytes) (size : ℕ)
    → IsField f
    → length f < size
    → copy_field (f ++ rest_of_line fs) size ≡ done (f, size - length f)
unfolding copy_field
copy_stops [] [] size v lt = ground (arith, lt)
copy_stops [] (g ∷ fs) size v lt = ground (arith, lt)
copy_stops (c ∷ f) fs size (a, b, v) lt =
    ground (arith, a, b, lt, copy_stops f fs (size - 1) v (omega (arith, lt)))

-- The loop passes the bytes of a field.
passes :
    (f : Bytes) (s : Bytes) (num size : ℕ)
    → IsField f
    → 0 < num
    → field_loop false (f ++ s) num size ≡ field_loop false s num size
unfolding field_loop
passes [] s num size v lt = refl
passes (c ∷ f) s num size (a, b, v) lt = ground (arith, a, b, lt, passes f s num size v lt)

finds :
    (fs : List Bytes) (k size : ℕ) (f : Bytes)
    → AllFields fs
    → get_elem? fs k ≡ some f
    → length f < size
    → field_loop false (rest_of_line fs) (suc k) size ≡ done (some (length f), some f)
unfolding field_loop
finds [] k size f v h lt = cc
finds (g ∷ fs) zero size f (v, vs) h lt =
    let same : g ≡ f = cc in
    let left : (size - length f == 0) ≡ false = ground (arith, lt) in
    ap (λ t. copy_field (t ++ rest_of_line fs) size >>= λ r. done (field_found false r)) same
    ∙ ap (λ r. r >>= λ t. done (field_found false t))
        (copy_stops f fs size (subst IsField same v) lt)
    ∙ ap (λ b. done (if b then none else some (length f), some f)) left
finds (g ∷ fs) (suc k) size f (v, vs) h lt =
    let less : suc (suc k) - 1 ≡ suc k = omega arith in
    let not_zero : (suc (suc k) == 0) ≡ false = ground arith in
    let not_one : (suc (suc k) == 1) ≡ false = ground arith in
    let found = copy_field (g ++ rest_of_line fs) size >>= λ r. done (field_found false r) in
    let next = field_loop false (g ++ rest_of_line fs) (suc (suc k) - 1) size in
    ap (λ b. if b then found else if suc (suc k) == 1 then found else next) not_zero
    ∙ ap (λ b. if b then found else next) not_one
    ∙ ap (λ n. field_loop false (g ++ rest_of_line fs) n size) less
    ∙ passes g (rest_of_line fs) (suc k) size v (omega arith)
    ∙ finds fs k size f vs h lt

-- On a line of fields, the first of them not empty, `CSV_getField`, asked for a field behind the first
-- one, writes that field, and returns its length, if the array has room for it and a terminator.
pub get_field_lem :
    (id : Bytes) (fs : List Bytes) (k size : ℕ) (f : Bytes)
    → IsField id
    → 0 < length id
    → AllFields fs
    → get_elem? fs k ≡ some f
    → length f < size
    → csv_get_field (id ++ rest_of_line fs) (suc k) size ≡ done (some (length f), some f)
unfolding csv_get_field field_loop
get_field_lem [] fs k size f w some_id v h lt = absurd (omega (arith, some_id))
get_field_lem (c ∷ id) fs k size f (a, b, w) some_id v h lt = ground (
  arith,
  a,
  b,
  passes id (rest_of_line fs) (suc k) size w (omega arith),
  finds fs k size f v h lt,
)
