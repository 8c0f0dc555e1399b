-- ===== src/Coins/Tests.antt =====
-- A purchase and a sale in the table of a coin.
use tiny_https_server.Prelude.{ℕ, Bytes, length, refl, [], ◌∷◌, ◌++◌, codes}
use tiny_https_server.Csv.{Csv, header, concat}
use tiny_https_server.Csv.Mirror.{IsMirror}

abbrev table : Csv
table = record { last_id = 0; hdr_size = 29; size = 10; lines = []; file = header }

abbrev sold : Csv
sold = record table {
  last_id = 1;
  lines = (codes "1;May;Sell;BTC;3;9" ++ 10 ∷ []) ∷ [];
  file = header ++ (codes "1;May;Sell;BTC;3;9" ++ 10 ∷ []);
}

-- The bytes of a text as one number.
abbrev measured : Bytes → ℕ
measured s = length s

table-IsMirror : IsMirror table
unfolding concat
table-IsMirror = record { head = header; sized = refl; same = refl }
