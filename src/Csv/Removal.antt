-- ===== src/Csv/Removal.antt =====
-- `CSV_removeLineById` of app/backend/csv.c: which line goes, and the file follows.
use native.Mathlib.Decide.{dec_lt, ℕ_discrete}
use tiny_https_server.Prelude.{
  ℕ, zero, suc, ◌+◌, ◌-◌, ◌≤◌, ◌<◌, ◌≡◌, ◌≢◌, ◌⊎◌, refl, sym, ap, ◌∙◌, inl, inr, ==_ne, true,
  Option, none, some, List, ◌++◌, arith, leb, ◌==◌, if◌then◌else◌, length, length-append, take,
  drop, Bytes, lt→ltb, le→ltb,
}
use tiny_https_server.Prelude.Run.{done, ◌>>=◌}
use tiny_https_server.Csv.{
  Csv, line_at, write_at, concat, remove_at, find_entry, entry_of, file_without, without,
  csv_remove_line_by_id,
}
use tiny_https_server.Csv.Mirror.{
  IsMirror, append_assoc, split_lines, overwritten, cut_end, drop_all, length-concat_nil,
}

module _ (atoi : Bytes → ℕ) where
  file_without_lem :
      (csv : Csv) (v : IsMirror csv) (i : ℕ)
      → i < length csv.lines
      → file_without atoi csv i ≡ v.head ++ concat (remove_at csv.lines i)
  file_without_lem csv v i lt =
      let (all, left, count) = split_lines csv.lines i lt in
      let kept = concat (take i (remove_at csv.lines i)) in
      let l = line_at csv.lines i in
      let b = concat (drop i (remove_at csv.lines i)) in
      let p = v.head ++ kept in
      let whole : csv.file ≡ p ++ (l ++ b) =
        v.same ∙ ap (λ r. v.head ++ r) all ∙ sym (append_assoc v.head kept (l ++ b)) in
      let pos : csv.hdr_size + length kept ≡ length p =
        omega (arith, length-append v.head kept, v.sized) in
      let right : p ++ b ≡ v.head ++ concat (remove_at csv.lines i) =
        append_assoc v.head kept b ∙ ap (λ r. v.head ++ r) (sym left) in
      elim (dec_lt i (length (remove_at csv.lines i))) [
        | yes more ↦ rw (lt→ltb i (length (remove_at csv.lines i)) more) (
            ap (λ f. take (length f - length l) (write_at f (csv.hdr_size + length kept) b)) whole
            ∙ ap (λ k. take (length (p ++ (l ++ b)) - length l) (write_at (p ++ (l ++ b)) k b)) pos
            ∙ overwritten p l b
            ∙ right)
        | no last ↦
            (let gone = length-concat_nil _ (drop_all i (remove_at csv.lines i) (omega arith)) in
              rw (le→ltb i (length (remove_at csv.lines i)) (omega arith))
                (ap (λ f. take (length f - length l) f) whole ∙ cut_end p l b gone ∙ right))
      ]

  find_entry_lem :
      (lines : List Bytes) (id k : ℕ)
      → ((find_entry atoi lines id k ≡ none) × ((e : ℕ) → e < k → atoi (line_at lines e) ≢ id))
        ⊎ ((e : ℕ) × (find_entry atoi lines id k ≡ some e)
            × (e < k)
            × (atoi (line_at lines e) ≡ id))
  unfolding find_entry
  find_entry_lem lines id zero = inl (refl, λ e lt. absurd (omega arith))
  find_entry_lem lines id (suc k) = elim (ℕ_discrete id (atoi (line_at lines k))) [
    | yes hit ↦ inr (k, rw (==_hit id (atoi (line_at lines k)) hit) refl, omega arith, sym hit)
    | no miss ↦ elim (find_entry_lem lines id k) [
      | inl (a, b) ↦ inl (rw (==_ne id (atoi (line_at lines k)) miss) a, all k miss b)
      | inr (e, a, lt, h) ↦
          inr (e, rw (==_ne id (atoi (line_at lines k)) miss) a, omega (arith, lt), h)
    ]
  ]
    where
      ==_hit : (a b : ℕ) → a ≡ b → (a == b) ≡ true
      ==_hit a b h = ground arith

      all :
          (k : ℕ)
          → id ≢ atoi (line_at lines k)
          → ((e : ℕ) → e < k → atoi (line_at lines e) ≢ id)
          → (e : ℕ) → e < suc k
          → atoi (line_at lines e) ≢ id
      all k miss b e lt h = elim (ℕ_discrete e k) [
        | yes same ↦ miss (sym h ∙ ap (λ i. atoi (line_at lines i)) same)
        | no ne ↦ b e (omega (arith, ne)) h
      ]

  abbrev bound : Csv → ℕ → ℕ
  bound csv id = if leb (length csv.lines) id then length csv.lines else id

  entry_of_past :
      (csv : Csv) (id : ℕ)
      → 0 < length csv.lines
      → atoi (line_at csv.lines (length csv.lines - 1)) < id
      → entry_of atoi csv id ≡ done none
  unfolding entry_of
  entry_of_past csv id lines past = ground arith

  entry_of_within :
      (csv : Csv) (id : ℕ)
      → 0 < length csv.lines
      → id ≤ atoi (line_at csv.lines (length csv.lines - 1))
      → entry_of atoi csv id ≡ done (find_entry atoi csv.lines id (bound csv id))
  unfolding entry_of
  entry_of_within csv id lines within =
      rw (==_ne (length csv.lines) 0 (λ e. absurd (omega arith)))
        (rw (le→ltb (atoi (line_at csv.lines (length csv.lines - 1))) id within) refl)

  bound_le : (csv : Csv) (id : ℕ) → bound csv id ≤ length csv.lines
  bound_le csv id = ground arith

  bound_above : (csv : Csv) (id e : ℕ) → e < length csv.lines → e < id → e < bound csv id
  bound_above csv id e lt lt' = ground arith

  -- What a removal answers: nothing, because the last line has a smaller id or no line among the
  -- first `id` has it; or the table without a line of that id, again with its file.
  abbrev pub Removed : Csv → ℕ → Option Csv → Type 0
  Removed csv id none =
      (atoi (line_at csv.lines (length csv.lines - 1)) < id)
      ⊎ ((e : ℕ) → e < length csv.lines → e < id → atoi (line_at csv.lines e) ≢ id)
  Removed csv id (some csv') =
      IsMirror csv'
      × (e : ℕ) × (e < length csv.lines)
      × (atoi (line_at csv.lines e) ≡ id)
      × (csv'.lines ≡ remove_at csv.lines e)

  -- On a table with lines whose file mirrors them, removing an id returns. It fails only if the last
  -- line's number is below the id, or none of the first `id` lines has that number; else one line
  -- with the number is gone, and the file mirrors the lines that are left.
  pub remove_mirrors :
      (csv : Csv) (id : ℕ)
      → IsMirror csv
      → 0 < length csv.lines
      → (r : Option Csv) × (csv_remove_line_by_id atoi csv id ≡ done r) × Removed csv id r
  unfolding csv_remove_line_by_id
  remove_mirrors csv id v some_line =
      elim (dec_lt (atoi (line_at csv.lines (length csv.lines - 1))) id) [
        | yes past ↦ (
          none,
          ap (λ o. o >>= λ entry. done (without atoi csv entry))
              (entry_of_past csv id some_line past),
          inl past,
        )
        | no within ↦ elim (find_entry_lem csv.lines id (bound csv id)) [
          | inl (miss, all) ↦ (
            none,
            answers none miss (omega arith),
            inr (λ e lt lt'. all e (bound_above csv id e lt lt')),
          )
          | inr (e, hit, lt, number) ↦
              (let below : e < length csv.lines = omega (arith, lt, bound_le csv id) in
                (
                  without atoi csv (some e),
                  answers (some e) hit (omega arith),
                  (
                    record {
                      head = v.head;
                      sized = v.sized;
                      same = file_without_lem csv v e below;
                    },
                    e,
                    below,
                    number,
                    refl,
                  ),
                ))
        ]
      ]
    where
      answers :
          (entry : Option ℕ)
          → find_entry atoi csv.lines id (bound csv id) ≡ entry
          → id ≤ atoi (line_at csv.lines (length csv.lines - 1))
          → csv_remove_line_by_id atoi csv id ≡ done (without atoi csv entry)
      answers entry e within =
          ap (λ o. o >>= λ entry'. done (without atoi csv entry'))
            (entry_of_within csv id some_line within ∙ ap done e)
