-- ===== src/App/Accounts.antt =====
-- app/app.c: the handlers of a coin's transactions. They work on the managers of users and sessions
-- and on the files.
pub mod Owned
mod Tests
use tiny_https_server.Prelude.{
  ℕ, ◌+◌, Bool, true, false, Option, none, some, List, [], ◌∷◌, ◌++◌, ◌==◌, if◌then◌else◌, length,
  Bytes, codes, map, is_null,
}
use tiny_https_server.Prelude.Run.{Run, done, ◌>>=◌}
use tiny_https_server.Requests.{Request}
use tiny_https_server.Response.{Response}
use tiny_https_server.Response.Code
use tiny_https_server.Session.{Managers}
use tiny_https_server.Session.Logins.{http_session_get_username}
use tiny_https_server.App.{reply, bad_request_reply, unauthorized_reply, session_of, extra}
use tiny_https_server.Coins.{
  Arithmetic, in_array, portfolio_add_coin_transactions, portfolio_get_coin_transactions,
}

abbrev pub underscored : ℕ → ℕ
underscored c = if c == b' ' then b'_' else c

-- `get_user_portfolio_path` into an array of 256 bytes.
unfoldable pub get_user_portfolio_path : Bytes → Managers → ℕ → Run Bytes
get_user_portfolio_path path m session =
    http_session_get_username m session >>= λ name. in_array 256 (path ++ map underscored name)

module _ (A : Arithmetic) (atoi : Bytes → ℕ) (portfolios_path : Bytes) (m : Managers) where
  abbrev pub Files : Type 0
  Files = Bytes → Option Bytes

  abbrev pub refused : Files → Run Response → Run (Response × Files)
  refused files run = run >>= λ r. done (r, files)

  -- The rest of `crypto_post_coin` on the result of `http_session_get`.
  unfoldable pub post_coin : Bytes → Response → Files → Option ℕ → Run (Response × Files)
  post_coin body response files none = refused files (unauthorized_reply response)
  post_coin body response files (some session) = do
    portfolio ← get_user_portfolio_path portfolios_path m session
    files' ← portfolio_add_coin_transactions A atoi portfolio body files
    r ← reply response Code.created (codes "application/json") (length body) body
    done (r, files')

  -- `crypto_post_coin`, with the managers as `http_session_get` finds them, and `m` the managers as
  -- `http_session_get_username` finds them later.
  unfoldable pub crypto_post_coin : Managers → Request → Response → Files → Run (Response × Files)
  crypto_post_coin before request response files =
      if extra request
      then refused files (bad_request_reply response)
      else (session_of before request >>= λ session. post_coin request.body response files session)

  abbrev pub coin_reply : Bytes → Response → Files → ℕ → Option Bytes → Run Response
  coin_reply junk response files session none = bad_request_reply response
  coin_reply junk response files session (some coin) = do
    portfolio ← get_user_portfolio_path portfolios_path m session
    json ← portfolio_get_coin_transactions A atoi junk portfolio coin files
    reply response Code.ok (codes "application/json") (length json) json

  abbrev pub get_coin : Bytes → Option Bytes → Response → Files → Option ℕ → Run Response
  get_coin junk args response files none = unauthorized_reply response
  get_coin junk args response files (some session) = coin_reply junk response files session args

  -- `crypto_get_coin`; it writes no file.
  unfoldable pub crypto_get_coin : Bytes → Request → Response → Files → Run Response
  crypto_get_coin junk request response files =
      session_of m request >>= λ session. get_coin junk request.args response files session
