-- ===== src/Reception.antt =====
-- server/http.c: how a task receives a request, `http_get_request_header` and
-- `http_get_request_body`. A buffer is the list of all its bytes, those that were never written
-- included; memory that `realloc` adds has the bytes `heap`, by their offset. What waits in
-- `con->requests` is the list of the data that will come, each with its bytes received; a `pop` that
-- finds none is blocked. `atoi`, of the C library and converted to `size_t`, is an argument.
use tiny_https_server.Prelude.{
  ℕ, zero, suc, ◌+◌, ◌-◌, ◌*◌, Bool, true, false, Option, none, some, List, [], ◌∷◌, ◌++◌, ◌==◌,
  ltb, leb, if◌then◌else◌, length, take, drop, set, Bytes, codes,
}
use tiny_https_server.Prelude.Run.{Run, done, blocked, fault, ◌>>=◌, read}

-- `rcv_data_t`.
pub record RcvData : Type 0 where
  pub size : ℕ
  pub bytes_received : ℕ
  pub payload : Bytes

-- The comparison of a memory area with a text, byte by byte up to the first that differs; `none`
-- where it leaves the buffer.
abbrev pub matches : Bytes → Bytes → Option Bool
matches memory [] = some true
matches [] (p ∷ ps) = none
matches (c ∷ memory) (p ∷ ps) = let rest = matches memory ps in if c == p then rest else some false

abbrev pub step_over : Bool → Run (Option ℕ) → Run (Option ℕ)
step_over true rest = done none
step_over false (done none) = done none
step_over false (done (some i)) = done (some (suc i))
step_over false blocked = blocked
step_over false fault = fault

abbrev pub found_at : Option Bool → Bool → Run (Option ℕ) → Run (Option ℕ)
found_at none nul rest = fault
found_at (some true) nul rest = done (some 0)
found_at (some false) nul rest = step_over nul rest

-- `strstr` in memory, as the offset of the text found; it stops at a NUL, and where there is none it
-- leaves the buffer.
abbrev pub find : Bytes → Bytes → Run (Option ℕ)
find [] needle = fault
find (c ∷ memory) needle =
    let rest = find memory needle in found_at (matches (c ∷ memory) needle) (c == 0) rest

-- "\r\n\r\n" and "Content-Length: ".
abbrev pub header_mark : Bytes
header_mark = 13 ∷ 10 ∷ 13 ∷ 10 ∷ []

abbrev pub length_mark : Bytes
length_mark = codes "Content-Length: "

-- The test on the last four bytes; `bytes_received - 4` is in the buffer if there are four.
abbrev pub ends_header : RcvData → Run Bool
ends_header d =
    if ltb d.bytes_received 4
    then fault
    else read (matches (drop (d.bytes_received - 4) d.payload) header_mark)

abbrev pub behind_mark : Option ℕ → Option ℕ
behind_mark none = none
behind_mark (some i) = some (i + 4)

-- The first half of a round of the loop: the end of the header, if it is there.
abbrev pub header_test : RcvData → Run (Option ℕ)
header_test d = ends_header d >>= λ ends.
    if ends
    then done (some d.bytes_received)
    else find d.payload header_mark >>= λ r. done (behind_mark r)

-- `n` bytes of fresh memory from the offset `at` on.
abbrev pub fresh : (ℕ → ℕ) → ℕ → ℕ → Bytes
fresh heap at zero = []
fresh heap at (suc n) = heap at ∷ fresh heap (suc at) n

abbrev pub realloc : (ℕ → ℕ) → Bytes → ℕ → Bytes
realloc heap payload n = take n payload ++ fresh heap (length payload) (n - length payload)

-- The data's size becomes `n`.
abbrev pub resized : (ℕ → ℕ) → RcvData → ℕ → RcvData
resized heap d n = record d { size = n; payload = realloc heap d.payload n }

-- `memcpy` to an offset of a buffer.
abbrev pub memcpy : Bytes → ℕ → Bytes → Run Bytes
memcpy payload at bytes =
    if leb (at + length bytes) (length payload)
    then done (take at payload ++ bytes ++ drop (at + length bytes) payload)
    else fault

-- The data that was popped goes behind what was received.
abbrev pub append_data : RcvData → Bytes → Run RcvData
append_data d bytes = memcpy d.payload d.bytes_received bytes >>= λ payload.
    done (record d { bytes_received = d.bytes_received + length bytes; payload = payload })

module _ (heap : ℕ → ℕ) where
  unfoldable pub http_get_request_header : List Bytes → RcvData → Run (ℕ × RcvData × List Bytes)
  http_get_request_header [] d =
      header_test d >>= λ r. elim r [ none ↦ blocked | some end ↦ done (end, d, []) ]
  http_get_request_header (bytes ∷ queue) d = header_test d >>= λ r. elim r [
    | none ↦
        append_data (resized heap d (d.size * 2)) bytes >>= λ d'. http_get_request_header queue d'
    | some end ↦ done (end, d, bytes ∷ queue)
  ]

  -- The loop of `http_get_request_body`.
  unfoldable pub body_loop : List Bytes → RcvData → Run (RcvData × List Bytes)
  body_loop [] d = if ltb d.bytes_received (d.size - 1) then blocked else done (d, [])
  body_loop (bytes ∷ queue) d =
      let rest = append_data d bytes >>= λ d'. body_loop queue d' in
      if ltb d.bytes_received (d.size - 1) then rest else done (d, bytes ∷ queue)

  -- `payload[i] = 0`
  abbrev pub terminate : ℕ → RcvData → Run RcvData
  terminate i d =
      if ltb i (length d.payload) then done (record d { payload = set d.payload i 0 }) else fault

  abbrev pub made_room : RcvData → RcvData
  made_room d = if d.bytes_received == d.size then resized heap d (d.size + 1) else d

  -- `http_get_request_body` from the length on.
  abbrev pub receive_rest : ℕ → ℕ → List Bytes → RcvData → Run (ℕ × RcvData × List Bytes)
  receive_rest header_end content_len queue d =
      if d.bytes_received == header_end + content_len
      then (terminate (header_end + content_len) (made_room d) >>= λ d'.
          done (content_len, d', queue))
      else body_loop queue (resized heap d (header_end + content_len + 1)) >>= λ (d', queue').
          terminate (header_end + content_len) d' >>= λ d''. done (content_len, d'', queue')

  abbrev pub receive_body :
      (Bytes → ℕ) → ℕ → List Bytes → RcvData → Option ℕ → Run (ℕ × RcvData × List Bytes)
  receive_body atoi header_end queue d none = done (0, d, queue)
  receive_body atoi header_end queue d (some at) =
      receive_rest header_end (atoi (drop (at + 16) d.payload)) queue d

  unfoldable pub http_get_request_body :
      (Bytes → ℕ) → ℕ → List Bytes → RcvData → Run (ℕ × RcvData × List Bytes)
  http_get_request_body atoi header_end queue d =
      find d.payload length_mark >>= λ r. receive_body atoi header_end queue d r

  -- The two calls of `http_process_request`: where the body starts, its length, and the data.
  unfoldable pub receive_request :
      (Bytes → ℕ) → List Bytes → RcvData → Run (ℕ × ℕ × RcvData × List Bytes)
  receive_request atoi queue d = http_get_request_header queue d >>= λ (header_end, d', queue').
      http_get_request_body atoi header_end queue' d' >>= λ (len, d'', queue'').
      done (header_end, len, d'', queue'')
