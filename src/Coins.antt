-- ===== src/Coins.antt =====
-- app/backend/coin.c and app/backend/portfolio.c: the transactions of a coin in its table, and the
-- tables of a portfolio. The arithmetic of `float` and `double`, `strtod` and the conversion `%f` are
-- arguments. The files are a function from a path to the contents.
pub mod Owned
pub mod Counted
pub mod Digits
mod Tests
use tiny_https_server.Prelude.{
  ℕ, zero, suc, ◌+◌, ◌-◌, ◌*◌, Bool, true, false, ◌&&◌, ◌||◌, Option, none, some, List, [], ◌∷◌,
  ◌++◌, map, ltb, leb, ◌==◌, if◌then◌else◌, length, drop, take, Bytes, codes, str_eq, strstr,
}
use tiny_https_server.Prelude.Run.{Run, done, fault, ◌>>=◌, read}
use tiny_https_server.Csv.{Csv, csv_create, csv_load, csv_append_new_line, csv_get_field}

-- `F` is `float` and `D` is `double`; `strtod` answers the number and what stands behind it.
pub record Arithmetic : Type 1 where
  pub F : Type 0
  pub D : Type 0
  pub zero_f : F
  pub add : F → D → F
  pub sub : F → D → F
  pub div : F → F → F
  pub strtod : Bytes → D × Bytes
  pub show_f : F → Bytes
  pub show_d : D → Bytes

pub data Operation : Type 0 where
  buys sells yields bad : Operation

-- `Coin_operationType`; a text of the right length that is another word is a purchase.
unfoldable pub coin_operation_type : Bytes → Option ℕ → Operation
coin_operation_type str none = bad
coin_operation_type str (some len) =
    if len == 3
    then buys
    else if len == 4
    then (if str_eq (codes "Sell") str then sells else buys)
    else if len == 5
    then (if str_eq (codes "Yield") str then yields else buys)
    else bad

abbrev pub toupper : ℕ → ℕ
toupper c = if leb b'a' c && leb c b'z' then c - 32 else c

abbrev pub tolower : ℕ → ℕ
tolower c = if leb b'A' c && leb c b'Z' then c + 32 else c

-- A text in an array of `size` bytes, with its terminator.
abbrev pub in_array : ℕ → Bytes → Run Bytes
in_array size s = if ltb (length s) size then done s else fault

-- A pointer `n` bytes on.
abbrev pub skip : ℕ → Bytes → Run Bytes
skip n s = if leb n (length s) then done (drop n s) else fault

-- Behind the first place with the text, and `n` bytes from there on.
abbrev pub behind : Bytes → ℕ → Bytes → Run Bytes
behind mark n s = read (strstr s mark) >>= λ t. skip n t

-- The loops up to a quotation mark: what stands in front of it, and from it on.
unfoldable pub until_quote : Bytes → Run (Bytes × Bytes)
until_quote [] = fault
until_quote (c ∷ s) =
    let rest = until_quote s >>= λ (t, r). done (c ∷ t, r) in
    if c == b'"' then done ([], c ∷ s) else rest

abbrev pub or_old : Bytes → Option Bytes → Bytes
or_old old none = old
or_old old (some new) = new

-- A field in `tmp`, which keeps what it had when the line has no such field.
abbrev pub field : Bytes → Bytes → ℕ → ℕ → Run (Option ℕ × Bytes)
field tmp line num size = csv_get_field line num size >>= λ (len, new). done (len, or_old tmp new)

-- The line of a transaction.
abbrev pub transaction : Bytes → Bytes → Bytes → Bytes → Bytes → Bytes
transaction date type ticker amount price =
    date ++ (b';' ∷ (type ++ (b';' ∷ (ticker ++ (b';' ∷ (amount ++ (b';' ∷ price)))))))

-- The path of a coin's table.
abbrev pub csv_path : Bytes → Bytes → Bytes
csv_path portfolio ticker = portfolio ++ b'/' ∷ ticker ++ codes ".csv"

abbrev pub write_file : (Bytes → Option Bytes) → Bytes → Bytes → Bytes → Option Bytes
write_file files path contents p = if str_eq p path then some contents else files p

module _ (A : Arithmetic) where
  -- The sums of `Coin_getInfo`.
  pub record Totals : Type 0 where
    pub amount_coin : A.F
    pub total_buy_usd : A.F
    pub total_buy_coin : A.F
    pub total_sell_usd : A.F

  abbrev pub nothing : Totals
  nothing = record {
    amount_coin = A.zero_f;
    total_buy_usd = A.zero_f;
    total_buy_coin = A.zero_f;
    total_sell_usd = A.zero_f;
  }

  unfoldable pub tally : Totals → Operation → A.D → A.D → Totals
  tally t buys amount price = record {
    amount_coin = A.add t.amount_coin amount;
    total_buy_usd = A.add t.total_buy_usd price;
    total_buy_coin = A.add t.total_buy_coin amount;
    total_sell_usd = t.total_sell_usd;
  }
  tally t sells amount price = record t {
    amount_coin = A.sub t.amount_coin amount;
    total_sell_usd = A.add t.total_sell_usd price;
  }
  tally t yields amount price = record t {
    amount_coin = A.add t.amount_coin amount;
    total_buy_coin = A.add t.total_buy_coin amount;
  }
  tally t bad amount price = t

  -- A round of the loop; `junk` is what `tmp` has at first.
  unfoldable pub info_line : Bytes → Totals → Bytes → Run Totals
  info_line junk t line = do
    (_, amount) ← field junk line 4 16
    (_, price) ← field amount line 5 16
    (size, type) ← field price line 2 16
    done (tally t (coin_operation_type type size) (A.strtod amount).0 (A.strtod price).0)

  unfoldable pub info_lines : Bytes → List Bytes → Totals → Run Totals
  info_lines junk [] t = done t
  info_lines junk (line ∷ lines) t = info_line junk t line >>= λ t'. info_lines junk lines t'

  abbrev pub info_json : Bytes → Totals → Bytes
  info_json ticker t =
      codes "{\"symbol\":\""
      ++ ticker
      ++ codes "\",\"amount\":"
      ++ A.show_f t.amount_coin
      ++ codes ",\"avgPrice\":"
      ++ A.show_f (A.div t.total_buy_usd t.total_buy_coin)
      ++ codes ",\"totalBuy\":"
      ++ A.show_f t.total_buy_usd
      ++ codes ",\"totalSell\":"
      ++ A.show_f t.total_sell_usd
      ++ codes "}"

  -- `Coin_getInfo`, with the contents of the table.
  unfoldable pub coin_get_info : Bytes → Bytes → Csv → Run Bytes
  coin_get_info junk name csv = do
    ticker ← in_array 32 (map toupper name)
    t ← info_lines junk csv.lines nothing
    in_array (71 + 10 + 10 * 4) (info_json ticker t)

  -- The transaction of a request's JSON, as the line for the table; `ticker` is in capitals.
  unfoldable pub transaction_of : Bytes → Bytes → Run Bytes
  transaction_of ticker json = do
    s ← behind (codes "amount") 8 json
    let (amount, s1) = A.strtod s
    s2 ← behind (codes "type") 7 s1
    (type', s3) ← until_quote s2
    type ← in_array 8 type'
    s4 ← behind (codes "value") 7 s3
    let (price, s5) = A.strtod s4
    s6 ← behind (codes "date") 7 s5
    (date', _) ← until_quote s6
    date ← in_array 32 date'
    in_array 256 (transaction date type ticker (A.show_d amount) (A.show_d price))

  -- A round of the loop of `Coin_getTransactions`.
  unfoldable pub transaction_json : Bytes → Bytes → Bytes → Run Bytes
  transaction_json junk ticker line = do
    (_, amount) ← field junk line 4 32
    (_, value) ← field amount line 5 32
    (_, date) ← field value line 1 32
    done (
        codes "{\"coin\":\""
        ++ ticker
        ++ codes "\",\"amount\":"
        ++ A.show_d (A.strtod amount).0
        ++ codes ",\"value\":"
        ++ A.show_d (A.strtod value).0
        ++ codes ",\"date\":\""
        ++ date
        ++ codes "\"},")

  unfoldable pub transactions_json : Bytes → Bytes → List Bytes → Run Bytes
  transactions_json junk ticker [] = done []
  transactions_json junk ticker (line ∷ lines) = do
    s ← transaction_json junk ticker line
    rest ← transactions_json junk ticker lines
    done (s ++ rest)

  -- `Coin_getTransactions`: the bracket and the last comma are overwritten by the closing bracket.
  unfoldable pub coin_get_transactions : Bytes → Bytes → Csv → Run Bytes
  coin_get_transactions junk name csv = do
    ticker ← in_array 32 (map toupper name)
    s ← transactions_json junk ticker csv.lines
    json ← in_array (length csv.lines * (50 + 128)) (b'[' ∷ s)
    done (take (length json - 1) json ++ b']' ∷ [])

  module _ (atoi : Bytes → ℕ) where
    -- `CSV_load`, or `CSV_create` where there is no file.
    abbrev pub table : Option Bytes → Csv
    table none = csv_create
    table (some file) = csv_load atoi file

    -- `Coin_addTransacation`, with the table before and after.
    unfoldable pub coin_add_transaction : Bytes → Bytes → Option Bytes → Run Csv
    coin_add_transaction name json file = do
      ticker ← in_array 32 (map toupper name)
      transaction ← transaction_of ticker json
      csv_append_new_line (table file) transaction

    -- `PortfolioAddCoinTransactions`: the files afterwards.
    unfoldable pub portfolio_add_coin_transactions :
        Bytes → Bytes → (Bytes → Option Bytes) → Run (Bytes → Option Bytes)
    portfolio_add_coin_transactions portfolio json files = do
      s ← behind (codes "coin") 7 json
      (coin, _) ← until_quote s
      ticker ← in_array 32 (map tolower coin)
      path ← in_array 256 (csv_path portfolio ticker)
      csv ← coin_add_transaction ticker json (files path)
      done (write_file files path csv.file)

    -- `PortfolioGetCoinTransactions`; without the file the table that is read was never loaded.
    unfoldable pub portfolio_get_coin_transactions :
        Bytes → Bytes → Bytes → (Bytes → Option Bytes) → Run Bytes
    portfolio_get_coin_transactions junk portfolio coin files = do
      ticker ← in_array 32 (map tolower coin)
      path ← in_array 256 (csv_path portfolio ticker)
      file ← read (files path)
      coin_get_transactions junk coin (csv_load atoi file)
