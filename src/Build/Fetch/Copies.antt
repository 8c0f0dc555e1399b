-- ===== src/Build/Fetch/Copies.antt =====
-- cb.h: what `fetch_local_files` copies.
use mathlib.Core.Path.{subst}
use tiny_https_server.Prelude.{
  ℕ, ◌≡◌, refl, sym, ap, ◌∙◌, inl, inr, Bool, true, false, ◌&&◌, ◌||◌, not, Option, none, some,
  List, [], ◌∷◌, ◌++◌, arith, ltb, if◌then◌else◌, Bytes, str_eq, str_eq_sound, is_null, map,
  Bool-cases, Option-cases,
}
use tiny_https_server.Build.Fetch.{is_file_older, find_file, path_in, checked, or_path, fetch_loop}

or_path_kept : (at x file : Bytes) → or_path (path_in at x) at file ≡ path_in at x
or_path_kept [] x file = refl
or_path_kept (b ∷ at) x file = refl

found_name : (ds : List Bytes) (file d : Bytes) → find_file ds file ≡ some d → file ≡ d
unfolding find_file
found_name [] file d e = cc
found_name (c ∷ ds) file d e = elim (Bool-cases (str_eq file c)) [
  | inl same ↦ cc (str_eq_sound file c same, first c ds file same, e)
  | inr other ↦ found_name ds file d (sym (next c ds file other) ∙ e)
]
  where
    first :
        (c : Bytes) (ds : List Bytes) (file : Bytes)
        → str_eq file c ≡ true
        → (if str_eq file c then some c else find_file ds file) ≡ some c
    first c ds file h = rw h refl

    next :
        (c : Bytes) (ds : List Bytes) (file : Bytes)
        → str_eq file c ≡ false
        → (if str_eq file c then some c else find_file ds file) ≡ find_file ds file
    next c ds file h = rw h refl

-- The name is one of the list.
abbrev pub has_name : List Bytes → Bytes → Bool
has_name [] file = false
has_name (d ∷ ds) file = str_eq file d || has_name ds file

has_lem : (ds : List Bytes) (file : Bytes) → has_name ds file ≡ not (is_null (find_file ds file))
unfolding find_file
has_lem [] file = refl
has_lem (d ∷ ds) file = ground (arith, has_lem ds file)

abbrev pub later : Option ℕ → Option ℕ → Bool
later (some t) (some t') = ltb t' t
later _ _ = false

module _ (mtime : Bytes → Option ℕ) (src dst : Bytes) (dst_files : List Bytes) where
  abbrev pub missing : Bytes → Bool
  missing file = not (has_name dst_files file)

  -- Both files have a time, and that of the source is the later one.
  abbrev pub newer : Bytes → Bool
  newer file = later (mtime (src ++ b'/' ∷ file)) (mtime (dst ++ b'/' ∷ file))

  -- The comparison of the code, -1 taken for no.
  abbrev asked : Option Bool → Bool
  asked none = false
  asked (some b) = b

  age_lem :
      (file : Bytes)
      → asked (is_file_older mtime (path_in src file) (path_in dst file)) ≡ newer file
  unfolding is_file_older
  age_lem file = by_times (mtime (path_in src file)) (mtime (path_in dst file)) refl refl
    where
      by_times :
          (t t' : Option ℕ)
          → mtime (path_in src file) ≡ t
          → mtime (path_in dst file) ≡ t'
          → asked (is_file_older mtime (path_in src file) (path_in dst file)) ≡ newer file
      by_times none t' e e' = simp (is_file_older, e)
      by_times (some a) none e e' = simp (is_file_older, e, e')
      by_times (some a) (some b) e e' = simp (is_file_older, e, e')

  abbrev pub wanted : List Bytes → List Bytes
  wanted [] = []
  wanted (file ∷ files) =
      let rest = wanted files in if missing file || newer file then file ∷ rest else rest

  -- No missing file comes directly behind one that is up to date.
  abbrev pub IsTidy : Bool → List Bytes → Type 0
  IsTidy stale [] = Unit {0}
  IsTidy stale (file ∷ files) =
      ((stale && missing file) ≡ false) × IsTidy (not (missing file || newer file)) files

  abbrev pub both_paths : Bytes → Bytes × Bytes
  both_paths file = (src ++ b'/' ∷ file, dst ++ b'/' ∷ file)

  checked-missing :
      (a b file : Bytes)
      → missing file ≡ true
      → checked mtime src dst dst_files (a, b) file ≡ ((a, b), true)
  unfolding checked
  checked-missing a b file h = elim (Option-cases (find_file dst_files file)) [
    | inl e ↦ simp (checked, e)
    | inr (d, e) ↦ cc (h, ap not (has_lem dst_files file), ap is_null e)
  ]

  checked_found :
      (a b file : Bytes)
      → missing file ≡ false
      → checked mtime src dst dst_files (a, b) file ≡ (both_paths file, newer file)
  unfolding checked
  checked_found a b file h = elim (Option-cases (find_file dst_files file)) [
    | inl e ↦ cc (h, ap not (has_lem dst_files file), ap is_null e)
    | inr (d, e) ↦
        let aged = age_lem file in
        let same = sym (found_name dst_files file d e) in
        let found : checked mtime src dst dst_files (a, b) file
            ≡ (both_paths file, asked (is_file_older mtime (path_in src file) (path_in dst file))) =
          simp (checked, e, same) in
        found ∙ ap (λ n. (both_paths file, n)) aged
  ]

  -- The paths of the file before are still there only behind a file that is up to date.
  abbrev held : Bool → Bytes → Bytes × Bytes
  held true before = both_paths before
  held false before = ([], [])

  abbrev loop : Bytes × Bytes → List Bytes → List (Bytes × Bytes)
  loop = fetch_loop mtime src dst dst_files

  abbrev after : (Bytes × Bytes) × Bool → Bytes → List Bytes → List (Bytes × Bytes)
  after c file files =
      if c.1
      then (or_path c.0.0 src file, or_path c.0.1 dst file) ∷ loop ([], []) files
      else loop c.0 files

  loop_ends : (paths : Bytes × Bytes) → loop paths [] ≡ []
  unfolding fetch_loop
  loop_ends paths = refl

  loop_step :
      (a b file : Bytes) (files : List Bytes)
      → loop (a, b) (file ∷ files) ≡ after (checked mtime src dst dst_files (a, b) file) file files
  unfolding fetch_loop
  loop_step a b file files = refl

  wanted_step :
      (b : Bool) (file : Bytes) (files : List Bytes)
      → (missing file || newer file) ≡ b
      → wanted (file ∷ files) ≡ (if b then file ∷ wanted files else wanted files)
  wanted_step b file files h = ap (λ c. if c then file ∷ wanted files else wanted files) h

  -- A file that is there, whatever the paths were.
  found_step :
      (a b file : Bytes) (files : List Bytes)
      → missing file ≡ false
      → loop (held (not (newer file)) file) files ≡ map both_paths (wanted files)
      → loop (a, b) (file ∷ files) ≡ map both_paths (wanted (file ∷ files))
  found_step a b file files there rest =
      loop_step a b file files
      ∙ ap (λ c. after c file files) (checked_found a b file there)
      ∙ by_age (newer file) refl
      ∙ ap (map both_paths)
          (sym (wanted_step (newer file) file files (ap (λ c. c || newer file) there)))
    where
      by_age :
          (n : Bool)
          → newer file ≡ n
          → after (both_paths file, n) file files
            ≡ map both_paths (if n then file ∷ wanted files else wanted files)
      by_age true e =
          ap (λ p. (p, or_path (path_in dst file) dst file) ∷ loop ([], []) files)
            (or_path_kept src file file)
          ∙ ap (λ p. (path_in src file, p) ∷ loop ([], []) files) (or_path_kept dst file file)
          ∙ ap (both_paths file ∷◌) (ap (λ n. loop (held (not n) file) files) (sym e) ∙ rest)
      by_age false e = ap (λ n. loop (held (not n) file) files) (sym e) ∙ rest

  rest-IsTidy :
      (file : Bytes) (files : List Bytes) (b : Bool)
      → missing file ≡ b
      → IsTidy (not (missing file || newer file)) files
      → IsTidy (not (b || newer file)) files
  rest-IsTidy file files b h t = subst (λ c. IsTidy (not (c || newer file)) files) h t

  fetch_held :
      (stale : Bool) (before : Bytes) (files : List Bytes)
      → IsTidy stale files
      → loop (held stale before) files ≡ map both_paths (wanted files)
  fetch_held stale before [] t = loop_ends (held stale before)
  fetch_held true before (file ∷ files) (there, t) =
      found_step (path_in src before) (path_in dst before) file files there
        (fetch_held (not (newer file)) file files (rest-IsTidy file files false there t))
  fetch_held false before (file ∷ files) (here, t) = elim (Bool-cases (missing file)) [
    | inl gone ↦
        loop_step [] [] file files
        ∙ ap (λ c. after c file files) (checked-missing [] [] file gone)
        ∙ ap (both_paths file ∷◌) (fetch_held false file files (rest-IsTidy file files true gone t))
        ∙ ap (map both_paths) (sym (wanted_step true file files (ap (λ c. c || newer file) gone)))
    | inr there ↦
        found_step [] [] file files there
          (fetch_held (not (newer file)) file files (rest-IsTidy file files false there t))
  ]

  -- Where no missing file comes directly behind one that is up to date: the loop copies the files
  -- that are missing or newer than in the destination, these and no other, each to its own name, in
  -- order.
  pub fetch_loop_lem :
      (files : List Bytes)
      → IsTidy false files
      → fetch_loop mtime src dst dst_files ([], []) files ≡ map both_paths (wanted files)
  fetch_loop_lem files t = fetch_held false [] files t

  -- A missing file that comes directly behind one that is up to date is not copied: the one before
  -- it is copied again in its place.
  pub fetch_stale :
      (x y : Bytes) (files : List Bytes)
      → missing x ≡ false
      → newer x ≡ false
      → missing y ≡ true
      → fetch_loop mtime src dst dst_files ([], []) (x ∷ y ∷ files)
        ≡ both_paths x ∷ fetch_loop mtime src dst dst_files ([], []) files
  fetch_stale x y files there old gone =
      loop_step [] [] x (y ∷ files)
      ∙ ap (λ c. after c x (y ∷ files)) (checked_found [] [] x there)
      ∙ ap (λ n. after (both_paths x, n) x (y ∷ files)) old
      ∙ loop_step (path_in src x) (path_in dst x) y files
      ∙ ap (λ c. after c y files) (checked-missing (path_in src x) (path_in dst x) y gone)
      ∙ ap (λ p. (p, or_path (path_in dst x) dst y) ∷ loop ([], []) files) (or_path_kept src x y)
      ∙ ap (λ p. (path_in src x, p) ∷ loop ([], []) files) (or_path_kept dst x y)
