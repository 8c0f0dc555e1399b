-- ===== src/Connections.antt =====
-- server/http.c: the listener. `connection_t`, `http_server_t` as far as the listener uses it,
-- `http_open_connection`, `http_close_connection`, `http_server_worker`, `http_server_start` and
-- `http_server_stop`. The results of the system calls and of the TLS library are arguments; -1 as a
-- descriptor or as a timeout is `none`. A connection without TLS state is one without a descriptor.
pub mod Table
pub mod Opened
pub mod Idle
pub mod Stop
mod Tests
use tiny_https_server.Prelude.{
  ℕ, zero, suc, ◌+◌, ◌-◌, ◌*◌, ◌/◌, Bool, true, false, ◌&&◌, Option, none, some, List, [], ◌∷◌,
  ◌++◌, ltb, leb, ◌==◌, if◌then◌else◌, length, get_or, set, replicate, Bytes, is_null,
}

-- `requests` is the queue's contents.
pub record Connection : Type 0 where
  pub fd : Option ℕ
  pub timeout : Option ℕ
  pub running : Bool
  pub requests : List Bytes

-- `tasks` are the calls of `async(http_process_request, ...)`: the connection and the first data.
pub record Server : Type 0 where
  pub timeout : ℕ
  pub max_connections : ℕ
  pub nfds : ℕ
  pub pfds : List (Option ℕ)
  pub connections : List Connection
  pub tasks : List (ℕ × Bytes)

-- What `SSL_read` delivers on a slot that is readable, and whether the last read succeeded; or the
-- other results of `poll`.
pub data Revents : Type 0 where
  quiet : Revents
  readable : List Bytes → Bool → Revents
  hung_up : Revents

-- A round of the listener, or the end of a request's task on a connection: `poll` fails, or times out, or reports events on the connections and
-- perhaps a new client, with its descriptor and the result of `SSL_accept`.
pub data Round : Type 0 where
  fails : Round
  idle : Round
  ready : (ℕ → Revents) → Option (Option ℕ × Bool) → Round
  task_ends : ℕ → Round

abbrev pub no_connection : Connection
no_connection = record { fd = none; timeout = none; running = false; requests = [] }

abbrev pub con : Server → ℕ → Connection
con s i = get_or s.connections i no_connection

abbrev pub pfd : Server → ℕ → Option ℕ
pfd s i = get_or s.pfds i none

-- The ticks that a connection may be idle.
abbrev pub ticks : ℕ → Option ℕ
ticks timeout = some (10 * 1000 / timeout)

-- `http_open_connection`, where `SSL_accept` succeeds.
abbrev pub http_open_connection : Option ℕ → ℕ → Connection
http_open_connection fd timeout = record {
  fd = fd;
  timeout = ticks timeout;
  running = false;
  requests = [];
}

abbrev pub http_close_connection : Connection → Connection
http_close_connection c = record c { fd = none; timeout = none; requests = [] }

abbrev pub put : Server → ℕ → Connection → Server
put s i c = record s { connections = set s.connections i c }

-- Closing a connection in the listener: the slot is free again, and the last slot is given up.
unfoldable pub close_slot : Server → ℕ → Server
close_slot s i = record s {
  connections = set s.connections i (http_close_connection (con s i));
  pfds = set s.pfds i none;
  nfds = if suc i == s.nfds then s.nfds - 1 else s.nfds;
}

-- One slot when `poll` timed out.
abbrev pub tick_to : Server → ℕ → Option ℕ → Server
tick_to s i none = s
tick_to s i (some zero) = put s i (record (con s i) { timeout = none })
tick_to s i (some (suc zero)) = close_slot s i
tick_to s i (some (suc (suc t))) = put s i (record (con s i) { timeout = some (suc t) })

pub tick_slot : Server → ℕ → Server
tick_slot s i = tick_to s i (con s i).timeout

-- `for(nfds_t i = 1; i < this->nfds; i++)` with a body; the fuel bounds the rounds.
unfoldable pub each_slot : (Server → ℕ → Server) → ℕ → ℕ → Server → Server
each_slot body zero i s = s
each_slot body (suc fuel) i s =
    let rest = each_slot body fuel (suc i) (body s i) in if ltb i s.nfds then rest else s

unfoldable pub tick : Server → Server
tick s = each_slot tick_slot s.nfds 1 s

-- One block of data: it is queued for the task that runs on the connection, or starts one. On a full
-- queue the `push` waits until the task pops; what follows is what the listener does once it has, so
-- `requests` is what is queued and what waited for a slot.
unfoldable pub receive : Server → ℕ → Bytes → Server
receive s i data' =
    if (con s i).running
    then put s i (record (con s i) { requests = (con s i).requests ++ data' ∷ [] })
    else record (put s i (record (con s i) { running = true })) {
      tasks = s.tasks ++ (i, data') ∷ [];
    }

unfoldable pub receive_all : Server → ℕ → List Bytes → Server
receive_all s i [] = s
receive_all s i (data' ∷ rest) = receive_all (receive s i data') i rest

-- One slot when `poll` reported events.
abbrev pub served : Server → ℕ → Revents → Server
served s i quiet = s
served s i (readable blocks true) =
    let s' = receive_all s i blocks in put s' i (record (con s' i) { timeout = ticks s.timeout })
served s i (readable blocks false) =
    let s' = receive_all s i blocks in if (con s' i).running then s' else close_slot s' i
served s i hung_up = close_slot s i

unfoldable pub serve_slot : (ℕ → Revents) → Server → ℕ → Server
serve_slot revents s i = served s i (revents i)

-- The first free slot from `i` on below `max_connections`.
unfoldable pub free_slot : List (Option ℕ) → ℕ → Option ℕ
free_slot [] i = none
free_slot (fd ∷ fds) i = let rest = free_slot fds (suc i) in if is_null fd then some i else rest

abbrev pub tail_of : List (Option ℕ) → List (Option ℕ)
tail_of [] = []
tail_of (fd ∷ fds) = fds

unfoldable pub open_slot : Server → ℕ → Option ℕ → Server
open_slot s i connfd = record s {
  connections = set s.connections i (http_open_connection connfd s.timeout);
  pfds = set s.pfds i connfd;
  nfds = if leb s.nfds i then s.nfds + 1 else s.nfds;
}

-- A new client, where `accept` did not return 0, in the slot that the search found.
abbrev pub opened_in : Server → Option ℕ → Bool → Option ℕ → Server
opened_in s connfd accepted none = s
opened_in s connfd accepted (some i) = if accepted then open_slot s i connfd else s

unfoldable pub accept_client : Server → Option ℕ → Bool → Server
accept_client s connfd accepted = opened_in s connfd accepted (free_slot (tail_of s.pfds) 1)

abbrev pub is_zero : Option ℕ → Bool
is_zero none = false
is_zero (some n) = n == 0

unfoldable pub serve_listener : Server → Option (Option ℕ × Bool) → Server
serve_listener s none = s
serve_listener s (some (connfd, accepted)) =
    if is_zero connfd then s else accept_client s connfd accepted

-- The end of a request in `http_process_request`: the task ends if `empty` is true of its queue,
-- which has 10 slots and is `empty` when it is full, and otherwise takes the next block.
abbrev pub next_block : Connection → List Bytes → Connection
next_block c [] = record c { running = false }
next_block c (b ∷ bs) =
    if length (b ∷ bs) == 10 then record c { running = false } else record c { requests = bs }

unfoldable pub end_task : Server → ℕ → Server
end_task s i =
    if ltb i s.max_connections then put s i (next_block (con s i) (con s i).requests) else s

-- A round of the loop of `http_server_worker`.
unfoldable pub http_server_worker : Server → Round → Server
http_server_worker s fails = s
http_server_worker s idle = tick s
http_server_worker s (task_ends i) = end_task s i
http_server_worker s (ready revents client) =
    serve_listener (each_slot (serve_slot revents) s.nfds 1 s) client

unfoldable pub rounds : Server → List Round → Server
rounds s [] = s
rounds s (r ∷ rs) = rounds (http_server_worker s r) rs

-- `http_server_start` where every call on its socket `fd` succeeds.
unfoldable pub http_server_start : ℕ → ℕ → ℕ → Server
http_server_start timeout max_connections fd =
    let max = if max_connections == 0 then 1 else max_connections in
    record {
      timeout = timeout;
      max_connections = max;
      nfds = 1;
      pfds = some fd ∷ replicate (max - 1) none;
      connections =
          record { fd = some fd; timeout = none; running = false; requests = [] }
          ∷ replicate (max - 1) no_connection;
      tasks = [];
    }

-- The loop of `http_server_stop`.
unfoldable pub stop_slot : Server → ℕ → Server
stop_slot s i = if is_null (con s i).fd then s else put s i (http_close_connection (con s i))

unfoldable pub http_server_stop : Server → Server
http_server_stop s = each_slot stop_slot s.nfds 1 s
