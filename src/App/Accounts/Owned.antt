-- ===== src/App/Accounts/Owned.antt =====
-- What the handler of a new transaction of app/app.c may change.
use mathlib.Core.Path.{subst}
use tiny_https_server.Prelude.{
  ℕ, ◌≡◌, refl, sym, ap, ◌⊎◌, inl, inr, Bool, true, false, Option, none, some, ◌++◌, if◌then◌else◌,
  Bytes, codes, map, length,
}
use tiny_https_server.Prelude.Run.{Run, done, ◌>>=◌, take_lock}
use tiny_https_server.Requests.{Request}
use tiny_https_server.Response.{Response}
use tiny_https_server.Response.Code
use tiny_https_server.Session.{Managers, session_at}
use tiny_https_server.Session.Fields.{text}
use tiny_https_server.Session.Users.{user_at}
use tiny_https_server.Session.Logins.{http_session_get_username, name_of}
use tiny_https_server.App.{reply, bad_request_reply, unauthorized_reply, session_of, extra}
use tiny_https_server.Coins.{in_array, Arithmetic, csv_path, portfolio_add_coin_transactions}
use tiny_https_server.Coins.Owned.{bind_done, OnlyAt, add_transaction_owned, in_array_same}
use tiny_https_server.App.Sessions.{HasSession, session_of-HasSession}
use tiny_https_server.App.Accounts.{
  underscored, get_user_portfolio_path, refused, post_coin, crypto_post_coin,
}

module _ (A : Arithmetic) (atoi : Bytes → ℕ) (portfolios_path : Bytes) (m : Managers) where
  -- The user of the slot has the name.
  abbrev pub IsName : ℕ → Bytes → Type 0
  IsName session name =
      (u : ℕ) × ((session_at m.session.sessions session).user_ref ≡ some u)
      × (text (user_at m.user.users u).name ≡ name)

  IsName-of :
      (session : ℕ) (name : Bytes) (o : Option ℕ)
      → (session_at m.session.sessions session).user_ref ≡ o
      → name_of m.user.users o ≡ done name
      → IsName session name
  unfolding name_of
  IsName-of session name none e h = cc
  IsName-of session name (some u) e h = (u, e, cc)

  username-IsName :
      (session : ℕ) (name : Bytes)
      → http_session_get_username m session ≡ done name
      → IsName session name
  unfolding http_session_get_username
  username-IsName session name h =
      let (_, _, h') =
        bind_done (take_lock m.user.locked)
          (λ _. name_of m.user.users (session_at m.session.sessions session).user_ref) name h in
      IsName-of session name (session_at m.session.sessions session).user_ref refl h'

  -- Nothing was written, or the request has a session and one table of its user's directory was.
  pub Owned : Managers → Request → (Bytes → Option Bytes) → (Bytes → Option Bytes) → Type 0
  Owned before request files files' =
      ((p : Bytes) → files' p ≡ files p)
      ⊎ ((session : ℕ) × HasSession before request session
          × (name : Bytes) × IsName session name
          × (ticker : Bytes) × OnlyAt (csv_path (portfolios_path ++ map underscored name) ticker)
              files files')

  refused_same :
      (files files' : Bytes → Option Bytes) (run : Run Response) (r : Response)
      → refused A atoi portfolios_path m files run ≡ done (r, files')
      → (p : Bytes) → files' p ≡ files p
  refused_same files files' run r h p =
      let (r', e, h') = bind_done run (λ r'. done (r', files)) (r, files') h in
      let same : files ≡ files' = cc in ap (λ g. g p) (sym same)

  -- Whatever `crypto_post_coin` is sent: where it returns, it has written nothing, or what stands
  -- behind the request's first `Cookie: session_id=`, at most 36 bytes of it, is the id of a slot of
  -- the session table that it finds first, and at most one file was written, whose path is the
  -- directory of the portfolios, the name of the user of that slot in the table that it finds later,
  -- underscores for its blanks, a slash, a name and `.csv`.
  pub post_coin-Owned :
      (before : Managers) (request : Request) (response r : Response)
      (files files' : Bytes → Option Bytes)
      → crypto_post_coin A atoi portfolios_path m before request response files ≡ done (r, files')
      → Owned before request files files'
  unfolding crypto_post_coin post_coin get_user_portfolio_path Owned
  post_coin-Owned before request response r files files' h = by_extra (extra request) h
    where
      by_session :
          (o : Option ℕ)
          → session_of before request ≡ done o
          → post_coin A atoi portfolios_path m request.body response files o ≡ done (r, files')
          → Owned before request files files'
      by_session none e h' = inl (refused_same files files' (unauthorized_reply response) r h')
      by_session (some session) e h' =
          let (portfolio, e1, h1) =
            bind_done (get_user_portfolio_path portfolios_path m session) _ (r, files') h' in
          let (name, e0, e1') =
            bind_done (http_session_get_username m session)
              (λ n. in_array 256 (portfolios_path ++ map underscored n)) portfolio e1 in
          let (files'', e2, h2) =
            bind_done (portfolio_add_coin_transactions A atoi portfolio request.body files) _
              (r, files') h1 in
          let (r', e3, h3) =
            bind_done
              (reply response Code.created (codes "application/json") (length request.body)
                request.body)
              (λ r'. done (r', files'')) (r, files') h2 in
          let at : portfolio ≡ portfolios_path ++ map underscored name =
            in_array_same 256 (portfolios_path ++ map underscored name) portfolio e1' in
          let same : files'' ≡ files' = cc in
          let (ticker, only) =
            add_transaction_owned A atoi portfolio request.body files files'' e2 in
          inr (
            session,
            session_of-HasSession before request session e,
            name,
            username-IsName session name e0,
            ticker,
            subst (λ d. OnlyAt (csv_path d ticker) files files') at
                (subst (OnlyAt (csv_path portfolio ticker) files) same only),
          )

      by_extra :
          (b : Bool)
          → (if b
              then refused A atoi portfolios_path m files (bad_request_reply response)
              else (session_of before request >>= λ session.
                  post_coin A atoi portfolios_path m request.body response files session))
            ≡ done (r, files')
          → Owned before request files files'
      by_extra true h' = inl (refused_same files files' (bad_request_reply response) r h')
      by_extra false h' =
          let (o, e, h'') = bind_done (session_of before request) _ (r, files') h' in
          by_session o e h''
