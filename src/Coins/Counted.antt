-- ===== src/Coins/Counted.antt =====
-- What `Coin_getInfo` adds up after `Coin_addTransacation`.
use tiny_https_server.Prelude.{◌+◌, List, [], ◌∷◌, ◌++◌, length, Bytes}
use tiny_https_server.Prelude.Run.{Run, done}
use tiny_https_server.Csv.{Csv, grown}

abbrev lines_of : Run Csv → List Bytes
lines_of (done c) = c.lines
lines_of _ = []

-- The table with a line more.
abbrev grown_by : Csv → Bytes → Csv
grown_by csv str = record {
  last_id = csv.last_id + 1;
  hdr_size = csv.hdr_size;
  size = grown (length csv.lines) csv.size;
  lines = csv.lines ++ str ∷ [];
  file = csv.file ++ str;
}

abbrev file_of : Run Csv → Bytes
file_of (done c) = c.file
file_of _ = []
