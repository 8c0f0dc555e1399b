-- ===== src/Csv/Loaded.antt =====
-- app/backend/csv.c: `CSV_load` on a file that is a first line and lines behind it.
use tiny_https_server.Prelude.{
  ℕ, zero, suc, ◌≤◌, ◌<◌, ◌≡◌, refl, ap, ◌∙◌, inl, inr, Bool, true, false, List, [], ◌∷◌, ◌++◌,
  arith, ◌==◌, if◌then◌else◌, length, length-append, Bytes, Bool-cases,
}
use tiny_https_server.Csv.{get_line, load_on, load_lines, grown, concat, csv_load}

-- A line: it ends with a line feed, and has no other.
abbrev pub is_line : Bytes → Bool
is_line [] = false
is_line (c ∷ s) = if c == 10 then length s == 0 else is_line s

abbrev pub AllLines : List Bytes → Type 0
AllLines [] = Unit {0}
AllLines (l ∷ ls) = (is_line l ≡ true) × AllLines ls

pub AllLines-snoc :
    (ls : List Bytes) (l : Bytes) → AllLines ls → is_line l ≡ true → AllLines (ls ++ l ∷ [])
AllLines-snoc [] l v h = (h, tt)
AllLines-snoc (k ∷ ls) l (h', v) h = (h', AllLines-snoc ls l v h)

-- What `getline` makes of a byte and the rest of the file.
abbrev split_at : ℕ → Bytes → Bytes × Bytes → Bytes × Bytes
split_at c s r = if c == 10 then (c ∷ [], s) else (c ∷ r.0, r.1)

split_end :
    (c : ℕ) (s rest : Bytes) (r : Bytes × Bytes)
    → (c == 10) ≡ true
    → length s ≡ 0
    → split_at c (s ++ rest) r ≡ (c ∷ s, rest)
split_end c [] rest r e z = ap (λ b. if b then (c ∷ [], rest) else (c ∷ r.0, r.1)) e
split_end c (d ∷ s) rest r e z = absurd (omega arith)

get_line_step : (c : ℕ) (s : Bytes) → get_line (c ∷ s) ≡ split_at c s (get_line s)
unfolding get_line
get_line_step c s = refl

-- A line is read whole, and no more than it.
get_line-line : (l rest : Bytes) → is_line l ≡ true → get_line (l ++ rest) ≡ (l, rest)
get_line-line [] rest h = cc
get_line-line (c ∷ s) rest h = get_line_step c (s ++ rest) ∙ (elim (Bool-cases (c == 10)) [
  | inl e ↦ split_end c s rest (get_line (s ++ rest)) e (ground (arith, e, h))
  | inr e ↦
      ap (split_at c (s ++ rest)) (get_line-line s rest (ground (arith, e, h)))
      ∙ ap (λ b. if b then (c ∷ [], s ++ rest) else (c ∷ s, rest)) e
])

load_one :
    (fuel entries size : ℕ) (l file : Bytes)
    → is_line l ≡ true
    → (load_lines (suc fuel) (l ++ file) entries size).0
      ≡ l ∷ (load_lines fuel file (suc entries) (grown (suc entries) size)).0
unfolding load_lines
load_one fuel entries size [] file h = cc
load_one fuel entries size (c ∷ s) file h =
    ap (λ r. (load_on (load_lines fuel) entries size r).0) (get_line-line (c ∷ s) file h)

load_lines-concat :
    (ls : List Bytes) (fuel entries size : ℕ)
    → AllLines ls
    → length ls < fuel
    → (load_lines fuel (concat ls) entries size).0 ≡ ls
unfolding load_lines concat get_line
load_lines-concat ls zero entries size v lt = absurd (omega arith)
load_lines-concat [] (suc fuel) entries size v lt = refl
load_lines-concat (l ∷ ls) (suc fuel) entries size (h, v) lt =
    load_one fuel entries size l (concat ls) h
    ∙ ap (◌∷◌ l)
        (load_lines-concat ls fuel (suc entries) (grown (suc entries) size) v (omega arith))

length-concat : (ls : List Bytes) → AllLines ls → length ls ≤ length (concat ls)
unfolding concat
length-concat [] v = omega arith
length-concat ([] ∷ ls) (h, v) = cc
length-concat ((c ∷ s) ∷ ls) (h, v) =
    omega (arith, length-concat ls v, length-append (c ∷ s) (concat ls))

-- The lines of the file are the lines of the table.
pub csv_load-lines :
    (atoi : Bytes → ℕ) (head : Bytes) (ls : List Bytes)
    → is_line head ≡ true
    → AllLines ls
    → (csv_load atoi (head ++ concat ls)).lines ≡ ls
unfolding csv_load
csv_load-lines atoi head ls h v =
    ap (λ (r : Bytes × Bytes). (load_lines (suc (length r.1)) r.1 0 10).0)
      (get_line-line head (concat ls) h)
    ∙ load_lines-concat ls (suc (length (concat ls))) 0 10 v (omega (arith, length-concat ls v))
