-- ===== src/Connections/Idle.antt =====
-- The timeouts of the listener of server/http.c: how long an idle connection stays open.
use mathlib.Core.Path.{subst}
use native.Mathlib.Decide.{dec_lt, ℕ_discrete}
use tiny_https_server.Prelude.{
  ℕ, zero, suc, ◌+◌, ◌-◌, ◌≤◌, ◌<◌, ◌≡◌, ◌≢◌, refl, ap, ◌∙◌, Option, none, some, arith, length,
  replicate, get_or-set_same, get_or-set_ne, lt→ltb, le→ltb,
}
use tiny_https_server.Connections.{
  Connection, Server, idle, no_connection, con, http_close_connection, close_slot, tick_to,
  tick_slot, each_slot, tick, http_server_worker, rounds,
}
use tiny_https_server.Connections.Table.{IsTable, tick_slot-IsTable}
use tiny_https_server.Connections.Opened.{http_server_worker-IsTable}

-- What a tick does to a connection.
abbrev tick_con : Connection → Option ℕ → Connection
tick_con c none = c
tick_con c (some zero) = record c { timeout = none }
tick_con c (some (suc zero)) = http_close_connection c
tick_con c (some (suc (suc t))) = record c { timeout = some (suc t) }

tick_slot_other : (s : Server) (k j : ℕ) → k ≢ j → con (tick_slot s k) j ≡ con s j
unfolding tick_slot close_slot
tick_slot_other s k j ne = go (con s k).timeout
  where
    go : (t : Option ℕ) → con (tick_to s k t) j ≡ con s j
    go none = refl
    go (some zero) = get_or-set_ne s.connections k j _ no_connection ne
    go (some (suc zero)) = get_or-set_ne s.connections k j _ no_connection ne
    go (some (suc (suc t))) = get_or-set_ne s.connections k j _ no_connection ne

tick_slot_self :
    (s : Server) (k : ℕ)
    → k < length s.connections
    → con (tick_slot s k) k ≡ tick_con (con s k) (con s k).timeout
unfolding tick_slot close_slot
tick_slot_self s k lt = go (con s k).timeout refl
  where
    go : (t : Option ℕ) → (con s k).timeout ≡ t → con (tick_to s k t) k ≡ tick_con (con s k) t
    go none e = refl
    go (some zero) e = get_or-set_same s.connections k k _ no_connection lt refl
    go (some (suc zero)) e = get_or-set_same s.connections k k _ no_connection lt refl
    go (some (suc (suc t))) e = get_or-set_same s.connections k k _ no_connection lt refl

tick_slot_nfds : (s : Server) (k : ℕ) → suc k ≢ s.nfds → (tick_slot s k).nfds ≡ s.nfds
unfolding tick_slot close_slot
tick_slot_nfds s k ne = go (con s k).timeout
  where
    go : (t : Option ℕ) → (tick_to s k t).nfds ≡ s.nfds
    go none = refl
    go (some zero) = refl
    go (some (suc zero)) = ground arith
    go (some (suc (suc t))) = refl

-- The loop leaves the slots before it as they are.
passed : (fuel k : ℕ) (s : Server) (i : ℕ) → i < k → con (each_slot tick_slot fuel k s) i ≡ con s i
unfolding each_slot
passed zero k s i lt = refl
passed (suc fuel) k s i lt = elim (dec_lt k s.nfds) [
  | yes h ↦ rw (lt→ltb k s.nfds h) (
      passed fuel (suc k) (tick_slot s k) i (omega arith)
      ∙ tick_slot_other s k i (λ e. absurd (omega arith)))
  | no ge ↦ rw (le→ltb k s.nfds (omega arith)) refl
]

reached :
    (fuel k : ℕ) (s : Server) (i : ℕ)
    → IsTable s
    → 1 ≤ k
    → k ≤ i
    → i < s.nfds
    → s.nfds ≤ fuel + k
    → con (each_slot tick_slot fuel k s) i ≡ tick_con (con s i) (con s i).timeout
unfolding each_slot
reached zero k s i v pos le lt enough = absurd (omega arith)
reached (suc fuel) k s i v pos le lt enough =
    rw (lt→ltb k s.nfds (omega arith)) (elim (ℕ_discrete k i) [
      | yes e ↦
          subst
            (λ j.
              con (each_slot tick_slot fuel (suc k) (tick_slot s k)) j
              ≡ tick_con (con s j) (con s j).timeout)
            e
            (passed fuel (suc k) (tick_slot s k) k (omega arith)
              ∙ tick_slot_self s k (omega (arith, v.cons_len, v.high)))
      | no ne ↦
          (let other = tick_slot_other s k i ne in
            let same = tick_slot_nfds s k (λ e. absurd (omega (arith, ne))) in
            reached fuel (suc k) (tick_slot s k) i (tick_slot-IsTable s k v pos (omega arith))
              (omega arith) (omega (arith, ne)) (omega (arith, same)) (omega (arith, same))
            ∙ ap (λ (c : Connection). tick_con c c.timeout) other)
    ])

tick_at :
    (s : Server) (i : ℕ)
    → IsTable s
    → 1 ≤ i
    → i < s.nfds
    → con (tick s) i ≡ tick_con (con s i) (con s i).timeout
unfolding tick
tick_at s i v pos lt = reached s.nfds 1 s i v (omega arith) pos lt (omega arith)

-- An open connection is among the slots that `poll` is given.
polled : (s : Server) (i f : ℕ) → IsTable s → (con s i).fd ≡ some f → i < s.nfds
polled s i f v e = elim (dec_lt i s.nfds) [
  | yes lt ↦ lt
  | no ge ↦ cc (v.behind i (omega arith), v.mirror i, e)
]

-- In a table that has its invariant, of rounds in which `poll` times out, one directly after the
-- other: a connection with `t + 1` ticks left is closed after `t + 1` of them, and after each smaller
-- number of them it is open under its descriptor and has as many ticks left as rounds are missing.
pub idle_closes :
    (n t : ℕ) (s : Server) (i f : ℕ)
    → IsTable s
    → 1 ≤ i
    → (con s i).fd ≡ some f
    → (con s i).timeout ≡ some (suc t)
    → n ≤ suc t
    → (n ≡ suc t → (con (rounds s (replicate n idle)) i).fd ≡ none)
      × (n < suc t
          → ((con (rounds s (replicate n idle)) i).fd ≡ some f)
            × ((con (rounds s (replicate n idle)) i).timeout ≡ some (suc t - n)))
unfolding rounds http_server_worker
idle_closes zero t s i f v pos open' left le =
    (λ e. absurd (omega arith), λ lt. (open', left ∙ ap some {x = suc t} (omega arith)))
idle_closes (suc zero) zero s i f v pos open' left le = (λ e. closed, λ lt. absurd (omega arith))
  where
    closed : (con (tick s) i).fd ≡ none
    closed =
        ap (λ (c : Connection). c.fd)
          (tick_at s i v pos (polled s i f v open') ∙ ap (tick_con (con s i)) left)
idle_closes (suc (suc n)) zero s i f v pos open' left le = absurd (omega arith)
idle_closes (suc n) (suc t) s i f v pos open' left le =
    let at = tick_at s i v pos (polled s i f v open') ∙ ap (tick_con (con s i)) left in
    let rest =
      idle_closes n t (tick s) i f (http_server_worker-IsTable s idle v) pos
        (ap (λ (c : Connection). c.fd) at ∙ open') (ap (λ (c : Connection). c.timeout) at)
        (omega arith) in
    (
      λ e. rest.0 (omega arith),
      λ lt. ((rest.1 (omega arith)).0, (rest.1 (omega arith)).1 ∙ ap some (omega arith)),
    )
