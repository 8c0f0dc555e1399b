-- ===== src/Connections/Stop.antt =====
-- `http_server_stop` of server/http.c: nobody stays connected.
use native.Mathlib.Decide.{dec_lt, ℕ_discrete}
use tiny_https_server.Prelude.{
  ℕ, zero, suc, ◌+◌, ◌≤◌, ◌<◌, ◌≡◌, refl, sym, ap, ◌∙◌, ◌⊎◌, inl, inr, none, List, arith, length,
  length-set, get_or-set_same, get_or-set_ne, lt→ltb, le→ltb, Option-cases,
}
use tiny_https_server.Connections.{
  Connection, Server, Round, no_connection, con, http_close_connection, each_slot, stop_slot,
  http_server_stop, rounds, http_server_start,
}
use tiny_https_server.Connections.Table.{IsTable}
use tiny_https_server.Connections.Opened.{started-IsTable}

-- The loop keeps the sizes, and leaves the slots without a connection as they are.
stop_slot_nfds :
    (s : Server) (k : ℕ)
    → ((stop_slot s k).nfds ≡ s.nfds) × (length (stop_slot s k).connections ≡ length s.connections)
unfolding stop_slot
stop_slot_nfds s k = elim (Option-cases (con s k).fd) [
  | inl e ↦ rw e (refl, refl)
  | inr (f, e) ↦ rw e (refl, length-set s.connections k _)
]

stop_slot_closed :
    (s : Server) (k j : ℕ)
    → k < length s.connections
    → (j ≡ k) ⊎ ((con s j).fd ≡ none)
    → (con (stop_slot s k) j).fd ≡ none
unfolding stop_slot
stop_slot_closed s k j lt or = elim (Option-cases (con s k).fd) [
  | inl e ↦ rw e (elim or [ inl same ↦ ap (λ i. (con s i).fd) same ∙ e | inr h ↦ h ])
  | inr (f, e) ↦ rw e (elim (ℕ_discrete j k) [
    | yes same ↦
        ap (λ (c : Connection). c.fd) (get_or-set_same s.connections k j _ no_connection lt same)
    | no ne ↦
        ap (λ (c : Connection). c.fd)
          (get_or-set_ne s.connections k j (http_close_connection (con s k)) no_connection
            (λ q. ne (sym q)))
        ∙ (elim or [ inl same ↦ absurd (ne same) | inr h ↦ h ])
  ])
]

-- Whoever is closed before the loop, or is met by it, is closed after it.
stops :
    (fuel k : ℕ) (s : Server) (j : ℕ)
    → s.nfds ≤ length s.connections
    → s.nfds ≤ fuel + k
    → ((k ≤ j) × (j < s.nfds)) ⊎ ((con s j).fd ≡ none)
    → (con (each_slot stop_slot fuel k s) j).fd ≡ none
unfolding each_slot
stops zero k s j room enough (inl h) = absurd (omega (arith, h.0, h.1))
stops zero k s j room enough (inr h) = h
stops (suc fuel) k s j room enough or = elim (dec_lt k s.nfds) [
  | yes lt ↦
      (let (n, l) = stop_slot_nfds s k in
        rw (lt→ltb k s.nfds lt) (
          stops fuel (suc k) (stop_slot s k) j (omega (arith, n, l)) (omega (arith, n))
            (next lt or)))
  | no ge ↦ rw (le→ltb k s.nfds (omega arith)) (done_with ge or)
]
  where
    next :
        k < s.nfds
        → ((k ≤ j) × (j < s.nfds)) ⊎ ((con s j).fd ≡ none)
        → ((suc k ≤ j) × (j < (stop_slot s k).nfds)) ⊎ ((con (stop_slot s k) j).fd ≡ none)
    next lt (inr h) = inr (stop_slot_closed s k j (omega arith) (inr h))
    next lt (inl h) = elim (ℕ_discrete j k) [
      | yes same ↦ inr (stop_slot_closed s k j (omega arith) (inl same))
      | no ne ↦ inl (omega (arith, h.0, ne), omega (arith, h.1, (stop_slot_nfds s k).0))
    ]

    done_with :
        ¬ (k < s.nfds) → ((k ≤ j) × (j < s.nfds)) ⊎ ((con s j).fd ≡ none) → (con s j).fd ≡ none
    done_with ge (inl h) = absurd (omega (arith, h.0, h.1, ge))
    done_with ge (inr h) = h

-- After a start, any rounds of the listener and ends of tasks, and a stop, no slot of the connections from the first
-- on holds an open connection.
pub stop_closes_all :
    (timeout max fd : ℕ) (rs : List Round) (j : ℕ)
    → 1 ≤ j
    → (con (http_server_stop (rounds (http_server_start timeout max fd) rs)) j).fd ≡ none
unfolding http_server_stop
stop_closes_all timeout max fd rs j pos =
    let s = rounds (http_server_start timeout max fd) rs in
    let v = started-IsTable timeout max fd rs in
    stops s.nfds 1 s j (omega (arith, v.high, v.cons_len)) (omega arith) (known s v)
  where
    known : (s : Server) → IsTable s → ((1 ≤ j) × (j < s.nfds)) ⊎ ((con s j).fd ≡ none)
    known s v = elim (dec_lt j s.nfds) [
      | yes lt ↦ inl (pos, lt)
      | no ge ↦ inr (sym (v.mirror j) ∙ v.behind j (omega arith))
    ]
