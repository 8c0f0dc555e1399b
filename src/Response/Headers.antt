-- ===== src/Response/Headers.antt =====
-- `http_add_header_entry` of server/http.c: what it keeps, and when it stays inside its buffer.
use tiny_https_server.Prelude.{ℕ, ◌+◌, ◌<◌, ◌≡◌, ◌≢◌, ◌↔◌, some, arith, length, Bytes}
use tiny_https_server.Prelude.Run.{done, fault}
use tiny_https_server.Response.{Response, blank, entry, http_add_header_entry}

-- The length that the code computes for an entry.
abbrev pub entry_len : Bytes → Bytes → ℕ
entry_len name value = length name + 2 + length value + 2

-- On a response whose `header_size` is 0, as that of every request is, an entry takes the place of
-- all entries before it, and `header_size` stays 0: of several cookies or headers the last one is
-- sent.
pub header_replaced :
    (r r' : Response) (name value : Bytes)
    → r.header_size ≡ 0
    → http_add_header_entry r name value ≡ done r'
    → (r'.header_buf ≡ some (entry name value)) × (r'.header_size ≡ 0)
unfolding http_add_header_entry
header_replaced r r' name value z e = ground arith

-- The first entry of a response is written inside the buffer exactly if it has fewer than 128 bytes:
-- a longer one gets a buffer without room for the terminator.
pub first_entry_fits :
    (name value : Bytes)
    → (http_add_header_entry blank name value ≢ fault) ↔ (entry_len name value < 128)
unfolding http_add_header_entry
first_entry_fits name value = ground arith
