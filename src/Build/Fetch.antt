-- ===== src/Build/Fetch.antt =====
-- cb.h: `fetch_local_files`, which copies the files of a directory that are missing in another one
-- or newer than there. A `string_t` is the text that it holds. The directories are the lists of
-- names that they give, and the times are those that `stat` gives.
pub mod Copies
use tiny_https_server.Prelude.{
  ℕ, zero, suc, ◌≡◌, refl, sym, ap, ◌∙◌, inl, inr, Bool, true, false, ◌&&◌, ◌||◌, not, Option, none,
  some, List, [], ◌∷◌, ◌++◌, ltb, ◌==◌, if◌then◌else◌, length, get_or, Bytes, str_eq, str_eq_sound,
  is_null, codes, map, arith, Bool-cases, Option-cases,
}

-- `is_file_older`: `none` for -1, and whether the file is newer than the other one.
unfoldable pub is_file_older : (Bytes → Option ℕ) → Bytes → Bytes → Option Bool
is_file_older mtime file other = elim (mtime file) [
  | none ↦ none
  | some t ↦ elim (mtime other) [ none ↦ none | some t' ↦ some (ltb t' t) ]
]

-- The names `.` and `..`.
unfoldable pub is_dots : Bytes → Bool
is_dots name =
    (get_or name 0 0 == b'.')
    && ((get_or name 1 0 == 0) || ((get_or name 1 0 == b'.') && (get_or name 2 0 == 0)))

-- The name, once for each file of the list that it is.
unfoldable pub listed : List Bytes → Bytes → List Bytes
listed [] name = []
listed (f ∷ fs) name = let rest = listed fs name in if str_eq f name then name ∷ rest else rest

-- The files to check: those of the directory, or of these the ones of a list.
unfoldable pub files_to_check : Option (List Bytes) → List Bytes → List Bytes
files_to_check files [] = []
files_to_check files (name ∷ names) =
    let rest = files_to_check files names in
    if is_dots name
    then rest
    else elim files [ none ↦ name ∷ rest | some fs ↦ listed fs name ++ rest ]

-- The first file of the destination that has the name.
unfoldable pub find_file : List Bytes → Bytes → Option Bytes
find_file [] file = none
find_file (d ∷ ds) file = let rest = find_file ds file in if str_eq file d then some d else rest

abbrev pub path_in : Bytes → Bytes → Bytes
path_in at file = at ++ (b'/' ∷ file)

-- `src_file`, `dst_file` and `copy` when the inner loop has ended.
unfoldable pub checked :
    (Bytes → Option ℕ) → Bytes → Bytes → List Bytes → Bytes × Bytes → Bytes → (Bytes × Bytes) × Bool
checked mtime src dst dst_files (src_file, dst_file) file = elim (find_file dst_files file) [
  | none ↦ ((src_file, dst_file), true)
  | some d ↦ (
    (path_in src file, path_in dst d),
    elim (is_file_older mtime (path_in src file) (path_in dst d)) [ none ↦ false | some b ↦ b ],
  )
]

-- A path that is still empty is made from the name.
abbrev pub or_path : Bytes → Bytes → Bytes → Bytes
or_path [] at file = path_in at file
or_path (b ∷ p) at file = b ∷ p

-- The loop over the files to check, with `src_file` and `dst_file`: the calls of `copy_file`.
unfoldable pub fetch_loop :
    (Bytes → Option ℕ)
    → Bytes
    → Bytes
    → List Bytes
    → Bytes × Bytes
    → List Bytes
    → List (Bytes × Bytes)
fetch_loop mtime src dst dst_files paths [] = []
fetch_loop mtime src dst dst_files paths (file ∷ files) =
    let ((src_file, dst_file), copy) = checked mtime src dst dst_files paths file in
    let copied = fetch_loop mtime src dst dst_files ([], []) files in
    let kept = fetch_loop mtime src dst dst_files (src_file, dst_file) files in
    if copy then (or_path src_file src file, or_path dst_file dst file) ∷ copied else kept

-- `fetch_local_files`: whether it succeeds, and what it copies. `none` is a directory that cannot be
-- opened.
unfoldable pub fetch_local_files :
    (Bytes → Option ℕ)
    → Bytes
    → Bytes
    → Option (List Bytes)
    → Option (List Bytes)
    → Option (List Bytes)
    → Bool × List (Bytes × Bytes)
fetch_local_files mtime src dst files src_names dst_names = elim src_names [
  | none ↦ (false, [])
  | some names ↦ elim dst_names [
    | none ↦ (false, [])
    | some ds ↦
        let dst_files = files_to_check none ds in
        (true, fetch_loop mtime src dst dst_files ([], []) (files_to_check files names))
  ]
]
