-- ===== src/App/Portfolios/Listing.antt =====
-- app/backend/portfolio.c: the list of the coins of a portfolio.
use mathlib.Core.List.{append-nil}
use tiny_https_server.Prelude.{
  ℕ, suc, ◌+◌, ◌-◌, ◌*◌, ◌<◌, ◌≡◌, refl, sym, ap, ◌∙◌, inl, inr, Bool, true, false, Option, some,
  List, [], ◌∷◌, ◌++◌, map, arith, if◌then◌else◌, ltb, length, take, Bytes, codes, str_eq_refl,
  append_assoc, length-append, lt→ltb, Option-cases, Bool-cases,
}
use tiny_https_server.Prelude.Run.{Run, done, fault, ◌>>=◌}
use tiny_https_server.Session.{Managers}
use tiny_https_server.Session.Logins.{http_session_get_username}
use tiny_https_server.Coins.{Arithmetic, in_array}
use tiny_https_server.App.Accounts.{underscored, get_user_portfolio_path}
use tiny_https_server.App.Portfolios.{
  Entry, Directories, make_directory, open_directory, portfolio_create, coin_entry, coin_entries,
  closed, portfolio_get_coins_list,
}

-- Texts with a comma behind each, and with a comma between each two.
abbrev pub commas : List Bytes → Bytes
commas [] = []
commas (c ∷ cs) = (c ++ codes ",") ++ commas cs

abbrev pub between : Bytes → List Bytes → Bytes
between c [] = c
between c (d ∷ cs) = (c ++ codes ",") ++ between d cs

-- `cs` are the texts of the coins of the entries; an entry that `stat` does not take for a regular
-- file has none, whatever its `d_type` is.
pub data Texts (A : Arithmetic) (atoi : Bytes → ℕ) (junk heap : Bytes)
    (files : Bytes → Option Bytes) (portfolio : Bytes) : List Entry → List Bytes → Type 1 where
  no_entry : Texts A atoi junk heap files portfolio [] []
  no_coin :
      {name : Bytes} {d_reg : Bool} {es : List Entry} {cs : List Bytes}
      → coin_entry A atoi junk heap files portfolio (name, d_reg, false) ≡ done []
      → Texts A atoi junk heap files portfolio es cs
      → Texts A atoi junk heap files portfolio ((name, d_reg, false) ∷ es) cs
  coin :
      {name c : Bytes} {d_reg : Bool} {es : List Entry} {cs : List Bytes}
      → coin_entry A atoi junk heap files portfolio (name, d_reg, true) ≡ done (c ++ codes ",")
      → Texts A atoi junk heap files portfolio es cs
      → Texts A atoi junk heap files portfolio ((name, d_reg, true) ∷ es) (c ∷ cs)

take_init : (s : Bytes) (c : ℕ) → take (length (s ++ c ∷ []) - 1) (s ++ c ∷ []) ≡ s
take_init [] c = refl
take_init (b ∷ s) c =
    let n : length (s ++ c ∷ []) ≡ suc (length s) = omega (arith, length-append s (c ∷ [])) in
    let one : suc (length (s ++ c ∷ [])) - 1 ≡ suc (length (s ++ c ∷ []) - 1) = omega (arith, n) in
    ap (λ k. take k (b ∷ (s ++ c ∷ []))) one ∙ ap (◌∷◌ b) (take_init s c)

commas-between : (c : Bytes) (cs : List Bytes) → commas (c ∷ cs) ≡ between c cs ++ codes ","
commas-between c [] = append-nil (c ++ codes ",")
commas-between c (d ∷ cs) =
    ap ((c ++ codes ",") ++◌) (commas-between d cs)
    ∙ sym (append_assoc (c ++ codes ",") (between d cs) (codes ","))

module _ (A : Arithmetic) (atoi : Bytes → ℕ) (junk heap : Bytes) (files : Bytes → Option Bytes)
    (portfolio : Bytes) where
  abbrev TextsOf : List Entry → List Bytes → Type 1
  TextsOf = Texts A atoi junk heap files portfolio

  abbrev entry_run : Entry → Run Bytes
  entry_run = coin_entry A atoi junk heap files portfolio

  abbrev entries_run : List Entry → Run Bytes
  entries_run = coin_entries A atoi junk heap files portfolio

  one_entry :
      (e : Entry) (es : List Entry) (s rest : Bytes)
      → entry_run e ≡ done s
      → entries_run es ≡ done rest
      → entries_run (e ∷ es) ≡ done (s ++ rest)
  unfolding coin_entries
  one_entry e es s rest h hs =
      ap (λ r. r >>= λ s. entries_run es >>= λ rest. done (s ++ rest)) h
      ∙ ap (λ r. r >>= λ rest. done (s ++ rest)) hs

  coin_entries_lem :
      (es : List Entry) (cs : List Bytes) → TextsOf es cs → entries_run es ≡ done (commas cs)
  unfolding coin_entries
  coin_entries_lem _ _ no_entry = refl
  coin_entries_lem _ _ (no_coin {name} {d_reg} {es} {cs} e t) =
      one_entry (name, d_reg, false) es [] (commas cs) e (coin_entries_lem es cs t)
  coin_entries_lem _ _ (coin {name} {c} {d_reg} {es} {cs} e t) =
      one_entry (name, d_reg, true) es (c ++ codes ",") (commas cs) e (coin_entries_lem es cs t)

  closed_lem :
      (t : Bytes) → closed A atoi junk heap files (t ++ codes ",") ≡ (b'[' ∷ t) ++ b']' ∷ []
  unfolding closed
  closed_lem [] = refl
  closed_lem (b ∷ t) = ap (λ s. s ++ b']' ∷ []) (take_init (b'[' ∷ b ∷ t) b',')

  module _ (creatable : Bytes → Bool) (dirs : Directories) (es : List Entry)
      (there : dirs portfolio ≡ some es) where
    opened : open_directory creatable dirs portfolio ≡ (some es, dirs)
    unfolding open_directory
    opened = simp (open_directory, there)

    list_run :
        (s : Bytes)
        → entries_run es ≡ done s
        → length s + 1 < 8192
        → portfolio_get_coins_list A atoi junk heap files creatable dirs portfolio
          ≡ done (some (closed A atoi junk heap files s), dirs)
    unfolding portfolio_get_coins_list
    list_run s h lt =
        let fits : ltb (length (b'[' ∷ s)) (4096 * 2) ≡ true = lt→ltb _ _ (omega arith) in
        simp (portfolio_get_coins_list, opened, h, fits)

    -- Where the directory of a portfolio exists, and the texts of its coins fit into the buffer: the
    -- list is these texts, a comma between each two, in brackets, and no directory is made.
    pub coins_list_lem :
        (c : Bytes) (cs : List Bytes)
        → TextsOf es (c ∷ cs)
        → length (commas (c ∷ cs)) + 1 < 8192
        → portfolio_get_coins_list A atoi junk heap files creatable dirs portfolio
          ≡ done (some ((b'[' ∷ between c cs) ++ b']' ∷ []), dirs)
    coins_list_lem c cs t lt =
        list_run (commas (c ∷ cs)) (coin_entries_lem es (c ∷ cs) t) lt
        ∙ ap (λ s. done (some (closed A atoi junk heap files s), dirs)) (commas-between c cs)
        ∙ ap (λ s. done (some s, dirs)) (closed_lem (between c cs))

    -- Of a portfolio without coins the list is a closing bracket, and whatever the heap holds behind
    -- it.
    pub empty_list_unended :
        TextsOf es []
        → portfolio_get_coins_list A atoi junk heap files creatable dirs portfolio
          ≡ done (some (b']' ∷ heap), dirs)
    unfolding closed
    empty_list_unended t = list_run [] (coin_entries_lem es [] t) (omega arith)

length-map : (f : ℕ → ℕ) (s : Bytes) → length (map f s) ≡ length s
length-map f [] = refl
length-map f (b ∷ s) = ap suc (length-map f s)

open_known :
    (creatable : Bytes → Bool) (dirs : Directories) (path : Bytes) (es : List Entry)
    → dirs path ≡ some es
    → open_directory creatable dirs path ≡ (some es, dirs)
unfolding open_directory
open_known creatable dirs path es there = simp (open_directory, there)

-- What a creation that succeeds leaves.
created_exists :
    (creatable : Bytes → Bool) (dirs dirs' : Directories) (path name : Bytes)
    → portfolio_create creatable dirs path name ≡ (true, dirs')
    → (es : List Entry) × (dirs' (path ++ map underscored name) ≡ some es)
unfolding portfolio_create open_directory
created_exists creatable dirs dirs' path name made =
    let portfolio = path ++ map underscored name in
    elim (Option-cases (dirs portfolio)) [
      | inr (es, there) ↦
          let found : portfolio_create creatable dirs path name ≡ (true, dirs) =
            simp (portfolio_create, open_directory, there) in
          (es, ap (λ (r : Bool × Directories). r.1 portfolio) (sym made ∙ found) ∙ there)
      | inl gone ↦ elim (Bool-cases (creatable portfolio)) [
        | inl can ↦
            let new : portfolio_create creatable dirs path name
                ≡ (true, make_directory dirs portfolio) =
              simp (portfolio_create, open_directory, gone, can) in
            (
              [],
              ap (λ (r : Bool × Directories). r.1 portfolio) (sym made ∙ new)
                  ∙ ap (λ b. if b then some [] else dirs portfolio) (str_eq_refl portfolio),
            )
        | inr cannot ↦
            let failed : portfolio_create creatable dirs path name ≡ (false, dirs) =
              simp (portfolio_create, open_directory, gone, cannot) in
            cc (ap (λ (r : Bool × Directories). r.0) (sym made ∙ failed))
      ]
    ]

-- Where the path of the portfolios and the user's name have fewer than 256 bytes together, a user
-- whose portfolio was created under the name has it: the directory that a request of any of the
-- user's sessions opens exists, and no request makes it again.
pub created_portfolio_opens :
    (creatable : Bytes → Bool) (dirs dirs' : Directories) (path name : Bytes) (m : Managers)
    (session : ℕ)
    → portfolio_create creatable dirs path name ≡ (true, dirs')
    → http_session_get_username m session ≡ done name
    → length path + length name < 256
    → (portfolio : Bytes) × (es : List Entry) × (get_user_portfolio_path path m session
        ≡ done portfolio)
      × (open_directory creatable dirs' portfolio ≡ (some es, dirs'))
unfolding get_user_portfolio_path
created_portfolio_opens creatable dirs dirs' path name m session made who short =
    let (es, there) = created_exists creatable dirs dirs' path name made in
    let portfolio = path ++ map underscored name in
    let fits : ltb (length portfolio) 256 ≡ true =
      lt→ltb (length portfolio) 256
        (omega (arith, length-append path (map underscored name), length-map underscored name)) in
    (
      portfolio,
      es,
      ap (λ (r : Run Bytes). r >>= λ n. in_array 256 (path ++ map underscored n)) who
          ∙ ap (λ b. if b then done portfolio else fault) fits,
      open_known creatable dirs' portfolio es there,
    )
