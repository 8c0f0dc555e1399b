-- ===== src/App/Portfolios/Tests.antt =====
-- The theorems on the directories of the portfolios, at a portfolio of one coin.
use tiny_https_server.Prelude.{
  ℕ, ◌-◌, ◌≡◌, refl, true, false, Option, none, some, List, [], ◌∷◌, ◌++◌, arith, Bytes, codes,
  str_eq, if◌then◌else◌,
}
use tiny_https_server.Prelude.Run.{done}
use tiny_https_server.Session.{Managers, no_session}
use tiny_https_server.Session.Fields.{text}
use tiny_https_server.Session.Logins.{http_session_get_username, name_of}
use tiny_https_server.Csv.{
  header, csv_load, load_lines, get_line, csv_get_field, field_loop, copy_field,
}
use tiny_https_server.Coins.{coin_get_info, info_lines, info_line, tally, coin_operation_type}
use tiny_https_server.Coins.Digits.{digits}
use tiny_https_server.App.Accounts.{get_user_portfolio_path}
use tiny_https_server.App.Portfolios.{
  Entry, Directories, make_directory, open_directory, portfolio_create, portfolio_count_coins,
  until_dot, coin_entry, portfolio_get_coins_list,
}
use tiny_https_server.App.Portfolios.Listing.{
  no_entry, no_coin, coin, between, coins_list_lem, created_portfolio_opens,
}

abbrev one_digit : Bytes → ℕ
one_digit [] = 0
one_digit (c ∷ s) = c - 48

abbrev files : Bytes → Option Bytes
files path =
    if str_eq path (codes "p/bob_b/btc.csv")
    then some (header ++ (codes "1;May;Buy;BTC;2;9" ++ 10 ∷ []))
    else none

abbrev entries : List Entry
entries = (codes ".", false, false) ∷ (codes "btc.csv", false, true) ∷ []

abbrev dirs : Directories
dirs path = if str_eq path (codes "p/bob_b") then some entries else none

abbrev btc : Bytes
btc = codes "{\"symbol\":\"BTC\",\"amount\":2,\"avgPrice\":9,\"totalBuy\":9,\"totalSell\":0}"

btc_entry :
    coin_entry digits one_digit [] [] files (codes "p/bob_b") (codes "btc.csv", false, true)
    ≡ done (btc ++ codes ",")
unfolding coin_entry until_dot coin_get_info info_lines info_line csv_load load_lines get_line
    csv_get_field field_loop copy_field tally coin_operation_type
btc_entry = refl

dot_entry :
    coin_entry digits one_digit [] [] files (codes "p/bob_b") (codes ".", false, false) ≡ done []
unfolding coin_entry
dot_entry = refl

coins_list_lem_example :
    portfolio_get_coins_list digits one_digit [] [] files (λ path. false) dirs (codes "p/bob_b")
    ≡ done (some ((b'[' ∷ between btc []) ++ b']' ∷ []), dirs)
coins_list_lem_example =
    coins_list_lem digits one_digit [] [] files (codes "p/bob_b") (λ path. false) dirs entries refl
      btc [] (no_coin dot_entry (coin btc_entry no_entry)) (omega arith)

abbrev managers : Managers
managers = record {
  user = record {
    locked = false;
    capacity = 1;
    entries = 1;
    last = 1;
    users = record { name = codes "bob b" ++ 0 ∷ []; password = 0 ∷ []; refs = 1 } ∷ [];
    work_capacity = 4;
    work = [];
  };
  session = record {
    session_timeout = 900;
    capacity = 2;
    entries = 1;
    last = 1;
    sessions = record { id = codes "5f"; expire_s = 900; user_ref = some 0 } ∷ no_session ∷ [];
  };
}

abbrev no_directories : Directories
no_directories path = none

-- The entry of a symbolic link is listed and not counted.
link_uncounted : portfolio_count_coins entries ≡ 0
unfolding portfolio_count_coins
link_uncounted = refl

created :
    portfolio_create (λ path. true) no_directories (codes "p/") (codes "bob b")
    ≡ (true, make_directory no_directories (codes "p/bob_b"))
unfolding portfolio_create open_directory
created = refl

bob : http_session_get_username managers 0 ≡ done (codes "bob b")
unfolding http_session_get_username name_of text
bob = refl

created_portfolio_opens_example :
    (portfolio : Bytes) × (es : List Entry) × (get_user_portfolio_path (codes "p/") managers 0
      ≡ done portfolio)
    × (open_directory (λ path. true) (make_directory no_directories (codes "p/bob_b")) portfolio
        ≡ (some es, make_directory no_directories (codes "p/bob_b")))
created_portfolio_opens_example =
    created_portfolio_opens (λ path. true) no_directories
      (make_directory no_directories (codes "p/bob_b")) (codes "p/") (codes "bob b") managers 0
      created bob (omega arith)
