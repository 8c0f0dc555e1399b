-- ===== src/App/Portfolios.antt =====
-- app/backend/portfolio.c and `crypto_get_coins` of app/app.c: the directories of the portfolios. A
-- directory is the list of its entries, each with whether it is a regular file; `creatable` is
-- whether a directory that cannot be opened is made by `mkdir`. `heap` is what `malloc` left behind
-- the first byte of the list.
pub mod Listing
mod Tests
use tiny_https_server.Prelude.{
  ℕ, suc, ◌+◌, ◌-◌, ◌*◌, Bool, true, false, Option, none, some, List, [], ◌∷◌, ◌++◌, map, ◌==◌,
  if◌then◌else◌, length, take, Bytes, codes, str_eq,
}
use tiny_https_server.Prelude.Run.{Run, done, blocked, fault, ◌>>=◌, read}
use tiny_https_server.Requests.{Request}
use tiny_https_server.Response.{Response}
use tiny_https_server.Response.Code
use tiny_https_server.Session.{Managers}
use tiny_https_server.Csv.{csv_load}
use tiny_https_server.Coins.{Arithmetic, in_array, coin_get_info}
use tiny_https_server.App.{reply, bad_request_reply, unauthorized_reply, session_of}
use tiny_https_server.App.Accounts.{underscored, get_user_portfolio_path}

-- A name, whether `d_type` is DT_REG, and whether `stat` takes the file for a regular one.
abbrev pub Entry : Type 0
Entry = Bytes × Bool × Bool

abbrev pub Directories : Type 0
Directories = Bytes → Option (List Entry)

abbrev pub make_directory : Directories → Bytes → Directories
make_directory dirs path p = if str_eq p path then some [] else dirs p

-- `OpenDirectory`: the entries, and the directories.
unfoldable pub open_directory :
    (Bytes → Bool) → Directories → Bytes → Option (List Entry) × Directories
open_directory creatable dirs path = elim (dirs path) [
  | some entries ↦ (some entries, dirs)
  | none ↦ if creatable path then (some [], make_directory dirs path) else (none, dirs)
]

-- `PortfolioCreate`: `true` for 0 and `false` for -1.
unfoldable pub portfolio_create : (Bytes → Bool) → Directories → Bytes → Bytes → Bool × Directories
portfolio_create creatable dirs path name =
    let (dir, dirs') = open_directory creatable dirs (path ++ map underscored name) in
    elim dir [ none ↦ (false, dirs') | some entries ↦ (true, dirs') ]

-- `PortfolioCountCoins`
unfoldable pub portfolio_count_coins : List Entry → ℕ
portfolio_count_coins [] = 0
portfolio_count_coins ((name, d_reg, s_reg) ∷ entries) =
    let count = portfolio_count_coins entries in if d_reg then suc count else count

-- The loop up to a full stop; without one it leaves the name.
unfoldable pub until_dot : Bytes → Run Bytes
until_dot [] = fault
until_dot (c ∷ s) =
    let rest = until_dot s >>= λ t. done (c ∷ t) in if c == b'.' then done [] else rest

module _ (A : Arithmetic) (atoi : Bytes → ℕ) (junk heap : Bytes)
    (files : Bytes → Option Bytes) where
  -- What one entry adds to the list.
  unfoldable pub coin_entry : Bytes → Entry → Run Bytes
  coin_entry portfolio (d_name, d_reg, s_reg) =
      in_array 256 (portfolio ++ b'/' ∷ d_name) >>= λ file.
      (if s_reg
        then (until_dot d_name >>= λ s. in_array 16 s >>= λ name. read (files file) >>= λ csv.
            coin_get_info A junk name (csv_load atoi csv) >>= λ coin. done (coin ++ codes ","))
        else done [])

  unfoldable pub coin_entries : Bytes → List Entry → Run Bytes
  coin_entries portfolio [] = done []
  coin_entries portfolio (e ∷ entries) =
      coin_entry portfolio e >>= λ s. coin_entries portfolio entries >>= λ rest. done (s ++ rest)

  -- The text of the array once the last byte is replaced; behind a bracket alone there is no
  -- terminator.
  unfoldable pub closed : Bytes → Bytes
  closed [] = b']' ∷ heap
  closed (c ∷ s) = take (length (b'[' ∷ c ∷ s) - 1) (b'[' ∷ c ∷ s) ++ b']' ∷ []

  -- `PortfolioGetCoinsList`, `none` for NULL, and the directories.
  unfoldable pub portfolio_get_coins_list :
      (Bytes → Bool) → Directories → Bytes → Run (Option Bytes × Directories)
  portfolio_get_coins_list creatable dirs portfolio =
      let (dir, dirs') = open_directory creatable dirs portfolio in
      elim dir [
        | none ↦ done (none, dirs')
        | some entries ↦
            (coin_entries portfolio entries >>= λ s.
            in_array (4096 * 2) (b'[' ∷ s) >>= λ _. done (some (closed s), dirs'))
      ]

  module _ (creatable : Bytes → Bool) (portfolios_path : Bytes) (m : Managers) where
    -- `crypto_get_coins` on the result of `http_session_get`.
    unfoldable pub get_coins :
        Option Bytes → Response → Directories → Option ℕ → Run (Response × Directories)
    get_coins args response dirs none = unauthorized_reply response >>= λ r. done (r, dirs)
    get_coins (some args) response dirs (some session) =
        bad_request_reply response >>= λ r. done (r, dirs)
    get_coins none response dirs (some session) = do
      portfolio ← get_user_portfolio_path portfolios_path m session
      (coins, dirs') ← portfolio_get_coins_list creatable dirs portfolio
      json ← read coins
      r ← reply response Code.ok (codes "application/json") (length json) json
      done (r, dirs')

    unfoldable pub crypto_get_coins :
        Request → Response → Directories → Run (Response × Directories)
    crypto_get_coins request response dirs =
        session_of m request >>= λ session. get_coins request.args response dirs session
