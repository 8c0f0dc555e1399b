-- ===== src/App/Accounts/Tests.antt =====
-- A new transaction of app/app.c, for a user with a session and no table.
use tiny_https_server.Prelude.{◌≡◌, refl, false, Option, none, some, [], ◌∷◌, ◌++◌, Bytes, codes}
use tiny_https_server.Prelude.Run.{done}
use tiny_https_server.Requests.{Request, http_get_cookie, cookie_loop}
use tiny_https_server.Response.{
  Response, blank, decimal, http_set_response_code, http_set_content_type, http_set_body, crlf,
}
use tiny_https_server.Session.{Managers, no_session, get_by_id, get_by_id_loop}
use tiny_https_server.Session.Fields.{text}
use tiny_https_server.Session.Logins.{http_session_get, http_session_get_username}
use tiny_https_server.App.{session_of}
use tiny_https_server.Csv.{csv_create, csv_append_new_line}
use tiny_https_server.Coins.{
  write_file, until_quote, transaction_of, coin_add_transaction, portfolio_add_coin_transactions,
}
use tiny_https_server.Coins.Digits.{digits}
use tiny_https_server.App.Accounts.{get_user_portfolio_path, post_coin, crypto_post_coin}
use tiny_https_server.App.Accounts.Owned.{Owned, post_coin-Owned}

abbrev managers : Managers
managers = record {
  user = record {
    locked = false;
    capacity = 1;
    entries = 1;
    last = 1;
    users = record { name = codes "bob b" ++ 0 ∷ []; password = 0 ∷ []; refs = 1 } ∷ [];
    work_capacity = 4;
    work = [];
  };
  session = record {
    session_timeout = 900;
    capacity = 2;
    entries = 1;
    last = 1;
    sessions = record { id = codes "5f"; expire_s = 900; user_ref = some 0 } ∷ no_session ∷ [];
  };
}

abbrev transaction : Bytes
transaction = codes "{\"coin\":\"Btc\",\"amount\":2,\"type\":\"Buy\",\"value\":9,\"date\":\"May\"}"

abbrev request : Request
request = record {
  method = codes "POST";
  url = codes "/coin";
  url_suffix = none;
  args = none;
  version = codes "HTTP/1.1";
  body = transaction;
  raw = some (codes "Cookie: session_id=5f");
}

abbrev no_files : Bytes → Option Bytes
no_files path = none

abbrev written : Bytes → Option Bytes
written =
    write_file no_files (codes "p/bob_b/btc.csv")
      (codes "Id;Date;Type;Coin;Amount;Usd" ++ 10 ∷ (codes "1;May;Buy;BTC;2;9" ++ 10 ∷ []))

abbrev posted : Response
posted = record blank {
  code = 201;
  status_line = codes "Created";
  content_type = crlf ++ codes "Content-Type: application/json; charset=utf-8";
  payload_size = 61;
  payload = some transaction;
}

transaction_posted :
    crypto_post_coin digits (λ s. 0) (codes "p/") managers managers request blank no_files
    ≡ done (posted, written)
unfolding crypto_post_coin session_of http_get_cookie cookie_loop http_session_get get_by_id
    get_by_id_loop post_coin get_user_portfolio_path http_session_get_username text
    portfolio_add_coin_transactions until_quote coin_add_transaction transaction_of csv_create
    csv_append_new_line decimal http_set_response_code http_set_content_type http_set_body
transaction_posted = refl

post_coin-Owned_example :
    Owned digits (λ s. 0) (codes "p/") managers managers request no_files written
post_coin-Owned_example =
    post_coin-Owned digits (λ s. 0) (codes "p/") managers managers request blank posted no_files
      written transaction_posted
