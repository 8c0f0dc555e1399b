-- ===== src/Connections/Table.antt =====
-- The listener of server/http.c keeps its two tables together: what `poll` is given stays what is
-- open.
use native.Mathlib.Decide.{dec_lt, ℕ_discrete}
use tiny_https_server.Prelude.{
  ℕ, zero, suc, ◌-◌, ◌≤◌, ◌<◌, ◌≡◌, ◌≢◌, refl, sym, ap, ◌∙◌, inl, inr, true, false, Option, none,
  some, List, [], ◌∷◌, arith, ◌==◌, if◌then◌else◌, length, get_or, set, Bytes, length-set,
  get_or-set_same, get_or-set_ne, Bool-cases, lt→ltb, le→ltb,
}
use tiny_https_server.Connections.{
  Connection, Server, Revents, quiet, readable, hung_up, no_connection, con, pfd,
  http_close_connection, put, close_slot, tick_to, tick_slot, each_slot, receive, receive_all,
  served, serve_slot,
}

-- The two tables have a slot for every connection that is allowed, agree on who is open, and hold
-- nobody from `nfds` on, which bounds the slots that `poll` is given.
pub record IsTable (s : Server) : Type 0 where
  pub low : 1 ≤ s.nfds
  pub high : s.nfds ≤ s.max_connections
  pub pfds_len : length s.pfds ≡ s.max_connections
  pub cons_len : length s.connections ≡ s.max_connections
  pub mirror : (i : ℕ) → pfd s i ≡ (con s i).fd
  pub behind : (i : ℕ) → s.nfds ≤ i → pfd s i ≡ none

abbrev pub fd_of : Connection → Option ℕ
fd_of c = c.fd

-- A change of a connection that leaves its descriptor.
pub put-IsTable :
    (s : Server) (i : ℕ) (c : Connection)
    → IsTable s
    → i < s.max_connections
    → c.fd ≡ (con s i).fd
    → IsTable (put s i c)
put-IsTable s i c v lt same = record {
  low = v.low;
  high = v.high;
  pfds_len = v.pfds_len;
  cons_len = length-set s.connections i c ∙ v.cons_len;
  mirror = mirrored;
  behind = v.behind;
}
  where
    mirrored : (j : ℕ) → pfd s j ≡ (con (put s i c) j).fd
    mirrored j = elim (ℕ_discrete j i) [
      | yes e ↦
          v.mirror j
          ∙ ap (λ k. (con s k).fd) e
          ∙ sym same
          ∙ sym (
              ap fd_of
                (get_or-set_same s.connections i j c no_connection (omega (arith, v.cons_len)) e))
      | no ne ↦
          v.mirror j
          ∙ sym (ap fd_of (get_or-set_ne s.connections i j c no_connection (λ e. ne (sym e))))
    ]

-- A change of a slot in both tables.
pub both_mirror :
    (s : Server) (i : ℕ) (c : Connection)
    → IsTable s
    → i < s.max_connections
    → (j : ℕ)
    → get_or (set s.pfds i c.fd) j none ≡ (get_or (set s.connections i c) j no_connection).fd
both_mirror s i c v lt j = elim (ℕ_discrete j i) [
  | yes e ↦
      get_or-set_same s.pfds i j c.fd none (omega (arith, v.pfds_len)) e
      ∙ sym (
          ap fd_of
            (get_or-set_same s.connections i j c no_connection (omega (arith, v.cons_len)) e))
  | no ne ↦
      get_or-set_ne s.pfds i j c.fd none (λ e. ne (sym e))
      ∙ v.mirror j
      ∙ sym (ap fd_of (get_or-set_ne s.connections i j c no_connection (λ e. ne (sym e))))
]

pub close_slot-IsTable :
    (s : Server) (i : ℕ) → IsTable s → 1 ≤ i → i < s.nfds → IsTable (close_slot s i)
unfolding close_slot
close_slot-IsTable s i v pos lt = record {
  low = ground arith;
  high = ground (arith, v.high);
  pfds_len = length-set s.pfds i none ∙ v.pfds_len;
  cons_len = length-set s.connections i _ ∙ v.cons_len;
  mirror = both_mirror s i (http_close_connection (con s i)) v (omega (arith, v.high));
  behind = empty_behind;
}
  where
    lost : (j : ℕ) → (if suc i == s.nfds then s.nfds - 1 else s.nfds) ≤ j → j ≢ i → s.nfds ≤ j
    lost j h ne = ground arith

    empty_behind :
        (j : ℕ)
        → (if suc i == s.nfds then s.nfds - 1 else s.nfds) ≤ j
        → get_or (set s.pfds i none) j none ≡ none
    empty_behind j h = elim (ℕ_discrete j i) [
      | yes e ↦ get_or-set_same s.pfds i j none none (omega (arith, v.pfds_len, v.high)) e
      | no ne ↦ get_or-set_ne s.pfds i j none none (λ e. ne (sym e)) ∙ v.behind j (lost j h ne)
    ]

-- A body that keeps the tables may run on every slot.
pub each_slot-IsTable :
    (body : Server → ℕ → Server)
    → ((s : Server) (i : ℕ) → IsTable s → 1 ≤ i → i < s.nfds → IsTable (body s i))
    → (fuel i : ℕ) (s : Server) → IsTable s
    → 1 ≤ i
    → IsTable (each_slot body fuel i s)
unfolding each_slot
each_slot-IsTable body keep zero i s v pos = v
each_slot-IsTable body keep (suc fuel) i s v pos = elim (dec_lt i s.nfds) [
  | yes lt ↦
      rw (lt→ltb i s.nfds lt)
        (each_slot-IsTable body keep fuel (suc i) (body s i) (keep s i v pos lt) (omega arith))
  | no ge ↦ rw (le→ltb i s.nfds (omega arith)) v
]

pub tick_slot-IsTable :
    (s : Server) (i : ℕ) → IsTable s → 1 ≤ i → i < s.nfds → IsTable (tick_slot s i)
unfolding tick_slot
tick_slot-IsTable s i v pos lt = go (con s i).timeout
  where
    go : (t : Option ℕ) → IsTable (tick_to s i t)
    go none = v
    go (some zero) = put-IsTable s i _ v (omega (arith, v.high)) refl
    go (some (suc zero)) = close_slot-IsTable s i v pos lt
    go (some (suc (suc t))) = put-IsTable s i _ v (omega (arith, v.high)) refl

-- Data neither opens nor closes a connection.
receive-IsTable :
    (s : Server) (i : ℕ) (data' : Bytes)
    → IsTable s
    → i < s.nfds
    → IsTable (receive s i data') × ((receive s i data').nfds ≡ s.nfds)
unfolding receive
receive-IsTable s i data' v lt = elim (Bool-cases (con s i).running) [
  | inl on ↦ rw on (put-IsTable s i _ v (omega (arith, v.high)) refl, refl)
  | inr off ↦
      (let w =
          put-IsTable s i (record (con s i) { running = true }) v (omega (arith, v.high)) refl in
        rw off (
          record {
            low = w.low;
            high = w.high;
            pfds_len = w.pfds_len;
            cons_len = w.cons_len;
            mirror = w.mirror;
            behind = w.behind;
          },
          refl,
        ))
]

receive_all-IsTable :
    (blocks : List Bytes) (s : Server) (i : ℕ)
    → IsTable s
    → i < s.nfds
    → IsTable (receive_all s i blocks) × ((receive_all s i blocks).nfds ≡ s.nfds)
unfolding receive_all
receive_all-IsTable [] s i v lt = (v, refl)
receive_all-IsTable (data' ∷ rest) s i v lt =
    let (w, e) = receive-IsTable s i data' v lt in
    let (x, e') = receive_all-IsTable rest (receive s i data') i w (omega (arith, e)) in (x, e' ∙ e)

pub serve_slot-IsTable :
    (revents : ℕ → Revents) (s : Server) (i : ℕ)
    → IsTable s
    → 1 ≤ i
    → i < s.nfds
    → IsTable (serve_slot revents s i)
unfolding serve_slot
serve_slot-IsTable revents s i v pos lt = go (revents i)
  where
    go : (r : Revents) → IsTable (served s i r)
    go quiet = v
    go hung_up = close_slot-IsTable s i v pos lt
    go (readable blocks true) =
        let (w, n) = receive_all-IsTable blocks s i v lt in
        put-IsTable (receive_all s i blocks) i _ w (omega (arith, w.high, n)) refl
    go (readable blocks false) =
        let (w, n) = receive_all-IsTable blocks s i v lt in
        elim (Bool-cases (con (receive_all s i blocks) i).running) [
          | inl on ↦ rw on w
          | inr off ↦
              rw off (close_slot-IsTable (receive_all s i blocks) i w pos (omega (arith, n)))
        ]
