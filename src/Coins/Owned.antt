-- ===== src/Coins/Owned.antt =====
-- Whose tables the handler of a new transaction writes.
use mathlib.Core.Path.{subst}
use tiny_https_server.Prelude.{
  ℕ, ◌≡◌, refl, sym, ap, ◌∙◌, false, Option, some, if◌then◌else◌, Bytes, codes, arith, str_eq, map,
}
use tiny_https_server.Prelude.Run.{Run, done, blocked, fault, ◌>>=◌}
use tiny_https_server.Csv.{Csv}
use tiny_https_server.Coins.{
  Arithmetic, in_array, behind, until_quote, csv_path, write_file, tolower, coin_add_transaction,
  portfolio_add_coin_transactions,
}

pub bind_done :
    {A B : Type 0} (m : Run A) (f : A → Run B) (b : B)
    → (m >>= f) ≡ done b
    → (a : A) × (m ≡ done a) × (f a ≡ done b)
bind_done (done a) f b h = (a, refl, h)
bind_done blocked f b h = cc
bind_done fault f b h = cc

pub in_array_same : (n : ℕ) (s t : Bytes) → in_array n s ≡ done t → t ≡ s
in_array_same n s t h = ground (arith, h)

-- Every file but the one at the path is as before.
abbrev pub OnlyAt : Bytes → (Bytes → Option Bytes) → (Bytes → Option Bytes) → Type 0
OnlyAt path files files' = (p : Bytes) → str_eq p path ≡ false → files' p ≡ files p

write_owned :
    (path : Bytes) (run : Run Csv) (files files' : Bytes → Option Bytes)
    → (run >>= λ csv. done (write_file files path csv.file)) ≡ done files'
    → OnlyAt path files files'
write_owned path run files files' h p other =
    let (csv, e, h') = bind_done run (λ csv. done (write_file files path csv.file)) files' h in
    let same : write_file files path csv.file ≡ files' = cc in
    ap (λ g. g p) (sym same) ∙ ap (λ b. if b then some csv.file else files p) other

module _ (A : Arithmetic) (atoi : Bytes → ℕ) where
  -- A new transaction writes the table of one coin of the portfolio and no other file.
  pub add_transaction_owned :
      (portfolio json : Bytes) (files files' : Bytes → Option Bytes)
      → portfolio_add_coin_transactions A atoi portfolio json files ≡ done files'
      → (ticker : Bytes) × OnlyAt (csv_path portfolio ticker) files files'
  unfolding portfolio_add_coin_transactions
  add_transaction_owned portfolio json files files' h =
      let (s, e1, h1) = bind_done (behind (codes "coin") 7 json) _ files' h in
      let (coin, e2, h2) = bind_done (until_quote s) _ files' h1 in
      let (ticker, e3, h3) = bind_done (in_array 32 (map tolower coin.0)) _ files' h2 in
      let (path, e4, h4) = bind_done (in_array 256 (csv_path portfolio ticker)) _ files' h3 in
      (
        ticker,
        subst (λ t. OnlyAt t files files') (in_array_same 256 (csv_path portfolio ticker) path e4)
            (write_owned path (coin_add_transaction A atoi ticker json (files path)) files files'
              h4),
      )
