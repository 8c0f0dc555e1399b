-- ===== src/Csv.antt =====
-- app/backend/csv.c: a table as lines in memory that a file mirrors. `lines` are the first `entries`
-- of the array, so `entries` is their number; `file` is what the file holds; a call that fails
-- returns `none`. `atoi` is the library's, on lines that do not start with a minus.
pub mod Mirror
pub mod Removal
pub mod Fields
pub mod Loaded
mod Tests
use tiny_https_server.Prelude.{
  ℕ, zero, suc, ◌+◌, ◌-◌, Bool, true, false, ◌||◌, Option, none, some, List, [], ◌∷◌, ◌++◌, ltb,
  leb, ◌==◌, if◌then◌else◌, length, get_elem?, get_or, take, drop, Bytes, codes,
}
use tiny_https_server.Prelude.Run.{Run, done, fault, ◌>>=◌}
use tiny_https_server.Response.{decimal}

-- `csv_raw_t`
pub record Csv : Type 0 where
  pub last_id : ℕ
  pub hdr_size : ℕ
  pub size : ℕ
  pub lines : List Bytes
  pub file : Bytes

abbrev pub header : Bytes
header = codes "Id;Date;Type;Coin;Amount;Usd" ++ 10 ∷ []

unfoldable pub csv_create : Csv
csv_create = record { last_id = 0; hdr_size = 29; size = 10; lines = []; file = header }

-- `getline`: a line with its newline, and the rest; the last line of a file may have none.
unfoldable pub get_line : Bytes → Bytes × Bytes
get_line [] = ([], [])
get_line (c ∷ s) =
    let (line, rest) = get_line s in if c == 10 then (c ∷ [], s) else (c ∷ line, rest)

-- The array has ten more lines as soon as it is full.
abbrev pub grown : ℕ → ℕ → ℕ
grown entries size = if entries == size then size + 10 else size

-- The loop of `CSV_load`: the lines, and the size of the array; the fuel bounds its rounds.
abbrev pub load_on : (Bytes → ℕ → ℕ → List Bytes × ℕ) → ℕ → ℕ → Bytes × Bytes → List Bytes × ℕ
load_on rest entries size ([], _) = ([], size)
load_on rest entries size (c ∷ s, file) =
    let (lines, size') = rest file (suc entries) (grown (suc entries) size) in
    ((c ∷ s) ∷ lines, size')

unfoldable pub load_lines : ℕ → Bytes → ℕ → ℕ → List Bytes × ℕ
load_lines zero file entries size = ([], size)
load_lines (suc fuel) file entries size = load_on (load_lines fuel) entries size (get_line file)

abbrev pub line_at : List Bytes → ℕ → Bytes
line_at lines i = get_or lines i []

-- The file with a text written at an offset.
abbrev pub write_at : Bytes → ℕ → Bytes → Bytes
write_at file pos s = take pos file ++ (s ++ drop (pos + length s) file)

unfoldable pub concat : List Bytes → Bytes
concat [] = []
concat (s ∷ ss) = s ++ concat ss

abbrev pub remove_at : List Bytes → ℕ → List Bytes
remove_at [] i = []
remove_at (s ∷ ss) zero = ss
remove_at (s ∷ ss) (suc i) = s ∷ remove_at ss i

-- `CSV_appendNewLine`; the buffer has room for an id of nine digits.
unfoldable pub csv_append_new_line : Csv → Bytes → Run Csv
csv_append_new_line csv line =
    let id = decimal 11 (csv.last_id + 1) in
    let str = id ++ (b';' ∷ (line ++ 10 ∷ [])) in
    if ltb (length str) (12 + length line)
    then done (record {
      last_id = csv.last_id + 1;
      hdr_size = csv.hdr_size;
      size = grown (length csv.lines) csv.size;
      lines = csv.lines ++ str ∷ [];
      file = csv.file ++ str;
    })
    else fault

-- `CSV_getLine`
unfoldable pub csv_get_line : Csv → ℕ → Option Bytes
csv_get_line csv line = get_elem? csv.lines line

-- The copy of `CSV_getField` into an array of `size` bytes, at least one: what is copied, and what is
-- left of the size. At the line's terminator it goes on behind it.
unfoldable pub copy_field : Bytes → ℕ → Run (Bytes × ℕ)
copy_field [] size = if leb size 1 then done ([], 0) else fault
copy_field (c ∷ s) size =
    let rest = copy_field s (size - 1) >>= λ (field, left). done (c ∷ field, left) in
    if (c == b';') || (c == 10) then done ([], size) else if leb size 1 then done ([], 0) else rest

-- `j - i - 1` as an `int`; -1 is `none`. At the start of the line `j` is the length.
abbrev pub field_len : Bool → ℕ → Option ℕ
field_len true zero = none
field_len true (suc len) = some len
field_len false len = some len

-- The return value and what was written.
abbrev pub field_found : Bool → Bytes × ℕ → Option ℕ × Option Bytes
field_found first (field, left) =
    (if left == 0 then none else field_len first (length field), some field)

-- The loop of `CSV_getField`; `first` says that `i` is 0, where the copy starts at `i`.
unfoldable pub field_loop : Bool → Bytes → ℕ → ℕ → Run (Option ℕ × Option Bytes)
field_loop first [] num size = fault
field_loop first (c ∷ s) num size =
    let from = if first then c ∷ s else s in
    let found = copy_field from size >>= λ r. done (field_found first r) in
    let next = field_loop false s num size in
    let next' = field_loop false s (num - 1) size in
    if c == 10
    then done (none, none)
    else if num == 0
    then found
    else if c == b';'
    then (if num == 1 then found else next')
    else next

-- `CSV_getField`
unfoldable pub csv_get_field : Bytes → ℕ → ℕ → Run (Option ℕ × Option Bytes)
csv_get_field line num size = field_loop true line num size

module _ (atoi : Bytes → ℕ) where
  -- `CSV_load` of a file that is there.
  unfoldable pub csv_load : Bytes → Csv
  csv_load file =
      let (first, rest) = get_line file in
      let (lines, size) = load_lines (suc (length rest)) rest 0 10 in
      record {
        last_id = if length lines == 0 then 0 else atoi (line_at lines (length lines - 1));
        hdr_size = length first;
        size = size;
        lines = lines;
        file = file;
      }

  -- The loop `for(; entry >= 0 && id != atoi(lines[entry]); --entry)`, from `entry + 1`.
  unfoldable pub find_entry : List Bytes → ℕ → ℕ → Option ℕ
  find_entry lines id zero = none
  find_entry lines id (suc entry) =
      let rest = find_entry lines id entry in
      if id == atoi (line_at lines entry) then some entry else rest

  -- The search of `CSV_removeLineById` and `CSV_getLineById`; on a table without lines it reads in
  -- front of the array.
  unfoldable pub entry_of : Csv → ℕ → Run (Option ℕ)
  entry_of csv id =
      let entries = length csv.lines in
      if entries == 0
      then fault
      else if ltb (atoi (line_at csv.lines (entries - 1))) id
      then done none
      else done (find_entry csv.lines id (if leb entries id then entries else id))

  -- The file when the line `entry` goes: the lines behind it are written in its place, and the end
  -- is cut off.
  abbrev pub file_without : Csv → ℕ → Bytes
  file_without csv entry =
      let bytes = length (line_at csv.lines entry) in
      let lines = remove_at csv.lines entry in
      let kept = take entry lines in
      let behind = drop entry lines in
      let file =
        if ltb entry (length lines)
        then write_at csv.file (csv.hdr_size + length (concat kept)) (concat behind)
        else csv.file in
      take (length csv.file - bytes) file

  abbrev pub without : Csv → Option ℕ → Option Csv
  without csv none = none
  without csv (some entry) =
      some (record csv { lines = remove_at csv.lines entry; file = file_without csv entry })

  -- `CSV_removeLineById`
  unfoldable pub csv_remove_line_by_id : Csv → ℕ → Run (Option Csv)
  csv_remove_line_by_id csv id = entry_of csv id >>= λ entry. done (without csv entry)

  abbrev pub line_of : Csv → Option ℕ → Option Bytes
  line_of csv none = none
  line_of csv (some entry) = some (line_at csv.lines entry)

  -- `CSV_getLineById`
  unfoldable pub csv_get_line_by_id : Csv → ℕ → Run (Option Bytes)
  csv_get_line_by_id csv id = entry_of csv id >>= λ entry. done (line_of csv entry)
