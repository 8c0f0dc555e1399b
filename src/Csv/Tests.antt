-- ===== src/Csv/Tests.antt =====
-- The theorems on app/backend/csv.c at a table of two lines, with decimal numbers for `atoi`.
use tiny_https_server.Prelude.{
  ℕ, ◌+◌, ◌-◌, ◌*◌, ◌≡◌, refl, ◌&&◌, some, Option, [], ◌∷◌, ◌++◌, arith, leb, if◌then◌else◌, Bytes,
  codes,
}
use tiny_https_server.Prelude.Run.{done}
use tiny_https_server.Csv.Fields.{is_field-IsField, get_field_lem}
use tiny_https_server.Csv.{
  csv_get_field, Csv, header, csv_load, csv_get_line, csv_remove_line_by_id, load_lines, get_line,
  concat,
}
use tiny_https_server.Csv.Mirror.{IsMirror}
use tiny_https_server.Csv.Removal.{Removed, remove_mirrors}

-- The number that a text starts with.
digits : ℕ → Bytes → ℕ
digits n [] = n
digits n (c ∷ s) =
    let rest = digits (n * 10 + (c - 48)) s in if leb 48 c && leb c 57 then rest else n

two_lines : Csv
two_lines = record {
  last_id = 2;
  hdr_size = 29;
  size = 10;
  lines = (codes "1;a" ++ 10 ∷ []) ∷ (codes "2;b" ++ 10 ∷ []) ∷ [];
  file = header ++ (codes "1;a" ++ 10 ∷ (codes "2;b" ++ 10 ∷ []));
}

two_lines-IsMirror : IsMirror two_lines
unfolding two_lines concat
two_lines-IsMirror = record { head = header; sized = refl; same = refl }

loaded : csv_load (digits 0) two_lines.file ≡ two_lines
unfolding csv_load load_lines get_line two_lines digits
loaded = refl

second_line : csv_get_line two_lines 1 ≡ some (codes "2;b" ++ 10 ∷ [])
unfolding csv_get_line two_lines
second_line = refl

get_field_lem_example :
    csv_get_field (codes "7;May;Sell;BTC" ++ 10 ∷ []) 2 16 ≡ done (some 4, some (codes "Sell"))
get_field_lem_example =
    get_field_lem (codes "7") (codes "May" ∷ codes "Sell" ∷ codes "BTC" ∷ []) 1 16 (codes "Sell")
      (is_field-IsField (codes "7") refl) (omega arith)
      (
        is_field-IsField (codes "May") refl,
        (is_field-IsField (codes "Sell") refl, (is_field-IsField (codes "BTC") refl, tt)),
      )
      refl (omega arith)

remove_mirrors_example :
    (r : Option Csv) × (csv_remove_line_by_id (digits 0) two_lines 1 ≡ done r)
    × Removed (digits 0) two_lines 1 r
unfolding two_lines
remove_mirrors_example = remove_mirrors (digits 0) two_lines 1 two_lines-IsMirror (omega arith)
