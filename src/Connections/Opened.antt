-- ===== src/Connections/Opened.antt =====
-- The listener of server/http.c from its start on: new clients, and its rounds.
use mathlib.Core.Path.{subst}
use native.Mathlib.Decide.{dec_lt}
use tiny_https_server.Prelude.{
  ℕ, zero, suc, ◌+◌, ◌-◌, ◌≤◌, ◌<◌, ◌≡◌, ◌≢◌, refl, sym, ap, ◌∙◌, ◌⊎◌, inl, inr, Bool, true, false,
  Option, none, some, List, [], ◌∷◌, arith, leb, ◌==◌, if◌then◌else◌, length, get_or, set,
  replicate, Bytes, length-set, length-replicate, get_or-set_ne, get_or-replicate, Bool-cases,
  lt→ltb, le→ltb,
}
use tiny_https_server.Connections.{
  Connection, Server, Round, task_ends, fails, idle, ready, no_connection, con, pfd,
  http_open_connection, tick_slot, each_slot, tick, serve_slot, free_slot, tail_of, open_slot,
  opened_in, accept_client, is_zero, serve_listener, next_block, end_task, http_server_worker,
  rounds, http_server_start,
}
use tiny_https_server.Connections.Table.{
  IsTable, fd_of, both_mirror, each_slot-IsTable, tick_slot-IsTable, serve_slot-IsTable,
  put-IsTable,
}

-- The slot that the search finds is free, and no slot before it is.
free_slot_lem :
    (fds : List (Option ℕ)) (k : ℕ)
    → (free_slot fds k ≡ none)
      ⊎ ((d : ℕ) × (free_slot fds k ≡ some (k + d))
          × (d < length fds)
          × ((j : ℕ) → j < d → get_or fds j none ≢ none))
unfolding free_slot
free_slot_lem [] k = inl refl
free_slot_lem (none ∷ fds) k =
    inr (0, ap some {x = k} (omega arith), omega arith, λ j lt. absurd (omega arith))
free_slot_lem (some fd ∷ fds) k = elim (free_slot_lem fds (suc k)) [
  | inl e ↦ inl e
  | inr (d, e, lt, all) ↦
      inr (suc d, e ∙ ap some {x = suc k + d} (omega arith), omega arith, busy d all)
]
  where
    busy :
        (d : ℕ)
        → ((j : ℕ) → j < d → get_or fds j none ≢ none)
        → (j : ℕ) → j < suc d
        → get_or (some fd ∷ fds) j none ≢ none
    busy d all zero lt e = cc
    busy d all (suc j) lt e = all j (omega arith) e

-- Opening the first free slot: it is at most the slot behind the last one that `poll` is given.
open_slot-IsTable :
    (s : Server) (d : ℕ) (connfd : Option ℕ)
    → IsTable s
    → 1 + d < s.max_connections
    → 1 + d ≤ s.nfds
    → IsTable (open_slot s (1 + d) connfd)
unfolding open_slot
open_slot-IsTable s d connfd v lt le = record {
  low = ground (arith, v.low);
  high = ground (arith, v.high);
  pfds_len = length-set s.pfds (1 + d) connfd ∙ v.pfds_len;
  cons_len = length-set s.connections (1 + d) _ ∙ v.cons_len;
  mirror = both_mirror s (1 + d) (http_open_connection connfd s.timeout) v lt;
  behind = empty_behind;
}
  where
    above :
        (j : ℕ)
        → (if leb s.nfds (1 + d) then s.nfds + 1 else s.nfds) ≤ j
        → (s.nfds ≤ j) × (j ≢ 1 + d)
    above j h = (ground arith, λ e. ground arith)

    empty_behind :
        (j : ℕ)
        → (if leb s.nfds (1 + d) then s.nfds + 1 else s.nfds) ≤ j
        → get_or (set s.pfds (1 + d) connfd) j none ≡ none
    empty_behind j h =
        get_or-set_ne s.pfds (1 + d) j connfd none (λ e. (above j h).1 (sym e))
        ∙ v.behind j (above j h).0

get_or-tail_of :
    (fds : List (Option ℕ)) (j : ℕ) → get_or (tail_of fds) j none ≡ get_or fds (suc j) none
get_or-tail_of [] j = refl
get_or-tail_of (fd ∷ fds) j = refl

length-tail_of : (fds : List (Option ℕ)) → length (tail_of fds) ≡ length fds - 1
length-tail_of [] = refl
length-tail_of (fd ∷ fds) = omega arith

accept_client-IsTable :
    (s : Server) (connfd : Option ℕ) (accepted : Bool)
    → IsTable s
    → IsTable (accept_client s connfd accepted)
unfolding accept_client
accept_client-IsTable s connfd accepted v = elim (free_slot_lem (tail_of s.pfds) 1) [
  | inl e ↦ subst (λ o. IsTable (opened_in s connfd accepted o)) (sym e) v
  | inr (d, e, lt, all) ↦
      (let room : 1 + d < s.max_connections = omega (arith, length-tail_of s.pfds, v.pfds_len) in
        subst (λ o. IsTable (opened_in s connfd accepted o)) (sym e)
          (go (1 + d) accepted (open_slot-IsTable s d connfd v room (within d all))))
]
  where
    within : (d : ℕ) → ((j : ℕ) → j < d → get_or (tail_of s.pfds) j none ≢ none) → 1 + d ≤ s.nfds
    within d all = elim (dec_lt s.nfds (1 + d)) [
      | yes past ↦ absurd (
          all (s.nfds - 1) (omega (arith, v.low)) (
            get_or-tail_of s.pfds (s.nfds - 1)
            ∙ ap (λ k. pfd s k) {x = suc (s.nfds - 1)} {y = s.nfds} (omega (arith, v.low))
            ∙ v.behind s.nfds (omega arith)))
      | no ok ↦ omega arith
    ]

    go :
        (i : ℕ) (b : Bool)
        → IsTable (open_slot s i connfd)
        → IsTable (if b then open_slot s i connfd else s)
    go i true w = w
    go i false w = v

serve_listener-IsTable :
    (s : Server) (client : Option (Option ℕ × Bool)) → IsTable s → IsTable (serve_listener s client)
unfolding serve_listener
serve_listener-IsTable s none v = v
serve_listener-IsTable s (some (connfd, accepted)) v = elim (Bool-cases (is_zero connfd)) [
  | inl z ↦ rw z v
  | inr nz ↦ rw nz (accept_client-IsTable s connfd accepted v)
]

end_task-IsTable : (s : Server) (i : ℕ) → IsTable s → IsTable (end_task s i)
unfolding end_task
end_task-IsTable s i v = elim (dec_lt i s.max_connections) [
  | yes lt ↦
      rw (lt→ltb i s.max_connections lt)
        (put-IsTable s i _ v lt (same_fd (con s i) (con s i).requests))
  | no ge ↦ rw (le→ltb i s.max_connections (omega arith)) v
]
  where
    same_fd : (c : Connection) (bs : List Bytes) → (next_block c bs).fd ≡ c.fd
    same_fd c [] = refl
    same_fd c (b ∷ bs) = elim (Bool-cases (length (b ∷ bs) == 10)) [
      | inl on ↦ rw on refl
      | inr off ↦ rw off refl
    ]

pub http_server_worker-IsTable :
    (s : Server) (r : Round) → IsTable s → IsTable (http_server_worker s r)
unfolding http_server_worker tick
http_server_worker-IsTable s fails v = v
http_server_worker-IsTable s (task_ends i) v = end_task-IsTable s i v
http_server_worker-IsTable s idle v =
    each_slot-IsTable tick_slot tick_slot-IsTable s.nfds 1 s v (omega arith)
http_server_worker-IsTable s (ready revents client) v =
    serve_listener-IsTable (each_slot (serve_slot revents) s.nfds 1 s) client (
      each_slot-IsTable (serve_slot revents) (serve_slot-IsTable revents) s.nfds 1 s v
        (omega arith))

http_server_start-IsTable : (timeout max fd : ℕ) → IsTable (http_server_start timeout max fd)
unfolding http_server_start
http_server_start-IsTable timeout max fd = record {
  low = omega arith;
  high = ground arith;
  pfds_len =
      ground (arith, length-replicate {A = Option ℕ} ((if max == 0 then 1 else max) - 1) none);
  cons_len = ground (arith, length-replicate ((if max == 0 then 1 else max) - 1) no_connection);
  mirror = agree;
  behind = nobody;
}
  where
    agree :
        (i : ℕ)
        → get_or (some fd ∷ replicate ((if max == 0 then 1 else max) - 1) none) i none
          ≡ (get_or
              (record { fd = some fd; timeout = none; running = false; requests = [] }
                ∷ replicate ((if max == 0 then 1 else max) - 1) no_connection)
              i
              no_connection).fd
    agree zero = refl
    agree (suc i) = get_or-replicate _ i none ∙ sym (ap fd_of (get_or-replicate _ i no_connection))

    nobody :
        (i : ℕ)
        → 1 ≤ i
        → get_or (some fd ∷ replicate ((if max == 0 then 1 else max) - 1) none) i none ≡ none
    nobody zero h = absurd (omega arith)
    nobody (suc i) h = get_or-replicate _ i none

rounds-IsTable : (rs : List Round) (s : Server) → IsTable s → IsTable (rounds s rs)
unfolding rounds
rounds-IsTable [] s v = v
rounds-IsTable (r ∷ rs) s v =
    rounds-IsTable rs (http_server_worker s r) (http_server_worker-IsTable s r v)

-- After a start and any rounds of the listener and ends of tasks, whatever the descriptors, the data
-- and the failures:
-- both tables have a slot for every connection that is allowed, they agree on who is open, and no
-- connection is open behind the slots that `poll` is given.
pub started-IsTable :
    (timeout max fd : ℕ) (rs : List Round) → IsTable (rounds (http_server_start timeout max fd) rs)
started-IsTable timeout max fd rs =
    rounds-IsTable rs (http_server_start timeout max fd) (http_server_start-IsTable timeout max fd)
