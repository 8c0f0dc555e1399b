-- ===== src/Connections/Tests.antt =====
-- The theorems on the listener of server/http.c at a server with two slots for clients.
use tiny_https_server.Prelude.{
  suc, ◌-◌, ◌<◌, ◌≡◌, refl, true, none, some, List, [], ◌∷◌, arith, replicate, codes, ltb,
  if◌then◌else◌,
}
use tiny_https_server.Connections.{
  Server, Round, quiet, readable, fails, idle, ready, con, rounds, http_server_start,
  http_server_stop, http_server_worker, each_slot, serve_slot, serve_listener, accept_client,
  open_slot, free_slot, receive_all, receive,
}
use tiny_https_server.Connections.Table.{IsTable}
use tiny_https_server.Connections.Opened.{started-IsTable}
use tiny_https_server.Connections.Idle.{idle_closes}
use tiny_https_server.Connections.Stop.{stop_closes_all}

-- Two clients come, a third finds no slot, and the first sends data.
abbrev history : List Round
history =
    ready (λ i. quiet) (some (some 7, true))
    ∷ ready (λ i. quiet) (some (some 8, true))
    ∷ ready (λ i. if ltb i 2 then readable (codes "GET" ∷ []) true else quiet) (some (some 9, true))
    ∷ fails
    ∷ []

abbrev here : Server
here = rounds (http_server_start 5000 3 4) history

first_stays :
    ((con here 1).fd ≡ some 7)
    × ((con here 1).timeout ≡ some 2)
    × (here.nfds ≡ 3)
    × (here.tasks ≡ (1, codes "GET") ∷ [])
unfolding rounds http_server_start http_server_worker each_slot serve_slot serve_listener
    accept_client open_slot free_slot receive_all receive
first_stays = (refl, refl, refl, refl)

started-IsTable_example : IsTable here
started-IsTable_example = started-IsTable 5000 3 4 history

idle_closes_example :
    (2 ≡ suc 1 → (con (rounds here (replicate 2 idle)) 1).fd ≡ none)
    × (2 < suc 1
        → ((con (rounds here (replicate 2 idle)) 1).fd ≡ some 7)
          × ((con (rounds here (replicate 2 idle)) 1).timeout ≡ some (suc 1 - 2)))
idle_closes_example =
    idle_closes 2 1 here 1 7 (started-IsTable 5000 3 4 history) (omega arith) first_stays.0
      first_stays.1 (omega arith)

stop_closes_all_example : (con (http_server_stop here) 2).fd ≡ none
stop_closes_all_example = stop_closes_all 5000 3 4 history 2 (omega arith)
