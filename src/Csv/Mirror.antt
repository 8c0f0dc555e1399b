-- ===== src/Csv/Mirror.antt =====
-- The file of a table of app/backend/csv.c follows its lines.
use tiny_https_server.Prelude.{
  ℕ, zero, suc, ◌+◌, ◌-◌, ◌≤◌, ◌<◌, ◌≡◌, refl, sym, ap, ◌∙◌, List, [], ◌∷◌, ◌++◌, arith, length,
  length-append, take, drop, Bytes, lt→ltb,
}
use tiny_https_server.Prelude.Run.{done}
use tiny_https_server.Response.{decimal}
use tiny_https_server.Csv.{Csv, grown, line_at, write_at, concat, remove_at, csv_append_new_line}

-- The file is a first line of the size that the table knows, and the lines behind it.
pub record IsMirror (csv : Csv) : Type 0 where
  pub head : Bytes
  pub sized : length head ≡ csv.hdr_size
  pub same : csv.file ≡ head ++ concat csv.lines

pub append_assoc : (a b c : Bytes) → (a ++ b) ++ c ≡ a ++ (b ++ c)
append_assoc [] b c = refl
append_assoc (x ∷ a) b c = ap (◌∷◌ x) (append_assoc a b c)

append_nil : (a : Bytes) → a ++ [] ≡ a
append_nil [] = refl
append_nil (x ∷ a) = ap (◌∷◌ x) (append_nil a)

pub concat-append : (ss : List Bytes) (s : Bytes) → concat (ss ++ s ∷ []) ≡ concat ss ++ s
unfolding concat
concat-append [] s = append_nil s
concat-append (t ∷ ss) s =
    ap (λ r. t ++ r) (concat-append ss s) ∙ sym (append_assoc t (concat ss) s)

-- A text of two parts, cut at or behind its first part.
take-append : (a b : Bytes) (n : ℕ) → take (length a + n) (a ++ b) ≡ a ++ take n b
take-append [] b n = ap (λ k. take k b) (omega arith)
take-append (x ∷ a) b n =
    ap (λ k. take k (x ∷ (a ++ b))) {x = suc (length a) + n} {y = suc (length a + n)} (omega arith)
    ∙ ap (◌∷◌ x) (take-append a b n)

drop-append : (a b : Bytes) (n : ℕ) → drop (length a + n) (a ++ b) ≡ drop n b
drop-append [] b n = ap (λ k. drop k b) (omega arith)
drop-append (x ∷ a) b n =
    ap (λ k. drop k (x ∷ (a ++ b))) {x = suc (length a) + n} {y = suc (length a + n)} (omega arith)
    ∙ drop-append a b n

take_whole : (a b : Bytes) (n : ℕ) → n ≡ length a → take n (a ++ b) ≡ a
take_whole a b n e =
    ap (λ k. take k (a ++ b)) {x = n} {y = length a + 0} (omega arith)
    ∙ take-append a b 0
    ∙ append_nil a

-- The lines before and behind one that goes.
pub split_lines :
    (lines : List Bytes) (i : ℕ)
    → i < length lines
    → (concat lines
        ≡ concat (take i (remove_at lines i))
          ++ (line_at lines i ++ concat (drop i (remove_at lines i))))
      × (concat (remove_at lines i)
          ≡ concat (take i (remove_at lines i)) ++ concat (drop i (remove_at lines i)))
      × (length (remove_at lines i) + 1 ≡ length lines)
unfolding concat
split_lines [] i lt = absurd (omega arith)
split_lines (s ∷ ss) zero lt = (refl, refl, omega arith)
split_lines (s ∷ ss) (suc i) lt =
    let (a, b, n) = split_lines ss i (omega arith) in
    let kept = concat (take i (remove_at ss i)) in
    let behind = concat (drop i (remove_at ss i)) in
    (
      ap (λ r. s ++ r) a ∙ sym (append_assoc s kept (line_at ss i ++ behind)),
      ap (λ r. s ++ r) b ∙ sym (append_assoc s kept behind),
      omega (arith, n),
    )

-- Writing `b` over the start of `l ++ b` behind `p`, and cutting the end off.
pub overwritten :
    (p l b : Bytes)
    → take (length (p ++ (l ++ b)) - length l) (write_at (p ++ (l ++ b)) (length p) b) ≡ p ++ b
overwritten p l b =
    let rest = drop (length p + length b) (p ++ (l ++ b)) in
    let front : take (length p) (p ++ (l ++ b)) ≡ p = take_whole p (l ++ b) (length p) refl in
    ap (λ r. take (length (p ++ (l ++ b)) - length l) (r ++ (b ++ rest))) front
    ∙ ap (take (length (p ++ (l ++ b)) - length l)) (sym (append_assoc p b rest))
    ∙ take_whole (p ++ b) rest (length (p ++ (l ++ b)) - length l)
        (omega (arith, length-append p (l ++ b), length-append l b, length-append p b))

pub drop_all : (n : ℕ) (xs : List Bytes) → length xs ≤ n → drop n xs ≡ []
drop_all zero [] h = refl
drop_all zero (x ∷ xs) h = absurd (omega arith)
drop_all (suc n) [] h = refl
drop_all (suc n) (x ∷ xs) h = drop_all n xs (omega arith)

pub length-concat_nil : (ss : List Bytes) → ss ≡ [] → length (concat ss) ≡ 0
unfolding concat
length-concat_nil ss e = ap (λ (r : List Bytes). length (concat r)) e

pub cut_end :
    (p l b : Bytes)
    → length b ≡ 0
    → take (length (p ++ (l ++ b)) - length l) (p ++ (l ++ b)) ≡ p ++ b
cut_end p l [] h =
    take_whole p (l ++ []) (length (p ++ (l ++ [])) - length l)
      (omega (arith, length-append p (l ++ []), ap length (append_nil l)))
    ∙ sym (append_nil p)
cut_end p l (x ∷ b) h = absurd (omega arith)

-- A line that is appended within nine digits is the last one, after its number, and the file follows.
pub append_mirrors :
    (csv : Csv) (line : Bytes)
    → IsMirror csv
    → length (decimal 11 (csv.last_id + 1)) < 10
    → (csv' : Csv) × (csv_append_new_line csv line ≡ done csv')
      × (csv'.lines
          ≡ csv.lines ++ (decimal 11 (csv.last_id + 1) ++ (b';' ∷ (line ++ 10 ∷ []))) ∷ [])
      × IsMirror csv'
unfolding csv_append_new_line
append_mirrors csv line v short =
    let id = decimal 11 (csv.last_id + 1) in
    let str = id ++ (b';' ∷ (line ++ 10 ∷ [])) in
    let fits : length str < 12 + length line =
      omega (arith, length-append id (b';' ∷ (line ++ 10 ∷ [])), length-append line (10 ∷ [])) in
    (
      record {
        last_id = csv.last_id + 1;
        hdr_size = csv.hdr_size;
        size = grown (length csv.lines) csv.size;
        lines = csv.lines ++ str ∷ [];
        file = csv.file ++ str;
      },
      rw (lt→ltb (length str) (12 + length line) fits) refl,
      refl,
      record {
        head = v.head;
        sized = v.sized;
        same =
            ap (λ f. f ++ str) v.same
            ∙ append_assoc v.head (concat csv.lines) str
            ∙ ap (λ r. v.head ++ r) (sym (concat-append csv.lines str));
      },
    )
