-- ===== src/Session/Logins/Slots.antt =====
-- The session table of http_libs/http_session.c keeps its invariant.
use tiny_https_server.Prelude.{
  ℕ, zero, suc, ◌+◌, ◌-◌, ◌*◌, ◌≤◌, ◌<◌, ◌≡◌, ◌≢◌, refl, sym, ap, ◌∙◌, ◌⊎◌, inl, inr, none, some,
  List, [], ◌∷◌, arith, ◌==◌, if◌then◌else◌, length, take, replicate, Bytes, length-set,
  length-take, length-replicate, length-append, get_or-set_self, get_or-set_ne,
  get_or-regrown_above, get_or-regrown_below, lt→ltb, le→ltb, Option-cases,
}
use native.Mathlib.Decide.{dec_lt, ℕ_discrete}
use tiny_https_server.Session.{Session, SessionManager, no_session, session_at}
use tiny_https_server.Session.Logins.{free_session, grow_sessions, choose_session, start_session}

-- The slots are those of the capacity; the ones from `last` on are free; `entries` is no less than
-- `last`; and a free slot has no id.
pub record IsValid (m : SessionManager) : Type 0 where
  pub room : 0 < m.capacity
  pub slots : length m.sessions ≡ m.capacity
  pub last_le : m.last ≤ m.entries
  pub entries_le : m.entries ≤ m.capacity
  pub free : (i : ℕ) → m.last ≤ i → (session_at m.sessions i).user_ref ≡ none
  pub clear :
      (i : ℕ) → (session_at m.sessions i).user_ref ≡ none → (session_at m.sessions i).id ≡ []

-- The slot that the search finds: `d` slots on, at the end or free.
free_session_lem :
    (ss : List Session) (i n : ℕ)
    → (d : ℕ) × (free_session ss i n ≡ i + d)
      × (d ≤ n)
      × ((d ≡ n) ⊎ ((session_at ss d).user_ref ≡ none))
unfolding free_session
free_session_lem ss i zero = (0, omega arith, omega arith, inl refl)
free_session_lem [] i (suc n) = (0, omega arith, omega arith, inr refl)
free_session_lem (s ∷ ss) i (suc n) = elim (Option-cases s.user_ref) [
  | inl e ↦ (0, rw e (omega arith), omega arith, inr e)
  | inr (u, e) ↦
      let (d, at, le, or) = free_session_lem ss (suc i) n in
      (suc d, ground arith, omega arith, elim or [ inl e ↦ inl (ap suc e) | inr f ↦ inr f ])
]

-- A slot that a new session may take, in the table that has room for it.
pub record HasRoom (m : SessionManager) (m' : SessionManager) (e : ℕ) : Type 0 where
  pub slots : length m'.sessions ≡ m'.capacity
  pub last_eq : m'.last ≡ m.last
  pub entries_eq : m'.entries ≡ m.entries
  pub grown : m.capacity ≤ m'.capacity
  pub below : e ≤ m.last
  pub more : m.entries < m'.capacity
  pub taken_free : (session_at m'.sessions e).user_ref ≡ none
  pub same : (i : ℕ) → i < m.last → session_at m'.sessions i ≡ session_at m.sessions i
  pub fresh :
      (i : ℕ)
      → m.last ≤ i
      → ((session_at m'.sessions i).user_ref ≡ none) × ((session_at m'.sessions i).id ≡ [])

found_free :
    (m : SessionManager)
    → IsValid m
    → (session_at m.sessions (free_session m.sessions 0 m.last)).user_ref ≡ none
found_free m v =
    let (d, at, le, or) = free_session_lem m.sessions 0 m.last in
    elim or [
      | inl e ↦ v.free _ (omega arith)
      | inr f ↦ let here : free_session m.sessions 0 m.last ≡ d = omega (arith, at) in rw here f
    ]

pub choose_session-HasRoom :
    (m : SessionManager) → IsValid m → HasRoom m (choose_session m).1 (choose_session m).0
unfolding choose_session grow_sessions
choose_session-HasRoom m v = elim (dec_lt m.entries m.capacity) [
  | yes lt ↦ rw (lt→ltb _ _ lt) (record {
    slots = v.slots;
    last_eq = refl;
    entries_eq = refl;
    grown = omega arith;
    below = let (d, at, le, or) = free_session_lem m.sessions 0 m.last in omega arith;
    more = lt;
    taken_free = found_free m v;
    same = λ i h. refl;
    fresh = λ i h. (v.free i h, v.clear i (v.free i h));
  })
  | no full ↦ rw (le→ltb m.entries m.capacity (omega arith)) (record {
    slots = omega (
      arith,
      length-append (take m.last m.sessions) (replicate (m.capacity * 2 - m.last) no_session),
      length-take m.last m.sessions,
      length-replicate {0} (m.capacity * 2 - m.last) no_session,
      v.room,
      v.slots,
    );
    last_eq = refl;
    entries_eq = refl;
    grown = omega arith;
    below = omega arith;
    more = omega arith;
    taken_free =
        ap (λ (s : Session). s.user_ref)
          (get_or-regrown_above m.sessions m.last _ m.last no_session (omega arith) (omega arith));
    same = λ i h. get_or-regrown_below m.sessions m.last _ i no_session (omega arith) h;
    fresh = λ i h.
        let e =
          get_or-regrown_above m.sessions m.last (m.capacity * 2 - m.last) i no_session
            (omega arith) h in
        (ap (λ (s : Session). s.user_ref) e, ap (λ (s : Session). s.id) e);
  })
]

-- What a table holds after a session has started in the slot `e`.
module _ (m m' : SessionManager) (e u : ℕ) (uuid : Bytes) (v : IsValid m) (r : HasRoom m m' e) where
  open r use {below, more}

  pub started_self :
      (session_at (start_session m' e u uuid).sessions e)
      ≡ record { id = uuid; expire_s = m'.session_timeout; user_ref = some u }
  unfolding start_session
  started_self =
      get_or-set_self m'.sessions e _ no_session (omega (arith, r.slots, r.last_eq, v.last_le))

  pub started_other :
      (i : ℕ) → i ≢ e → session_at (start_session m' e u uuid).sessions i ≡ session_at m'.sessions i
  unfolding start_session
  started_other i ne = get_or-set_ne m'.sessions e i _ no_session (λ q. ne (sym q))

  abbrev last' : ℕ
  last' = if e == m'.last then m'.last + 1 else m'.last

  last'_above : (m.last ≤ last') × (e < last') × (last' ≤ m.entries + 1)
  last'_above = (
    ground (arith, r.last_eq),
    ground (arith, r.last_eq, r.below),
    ground (arith, r.last_eq, r.below, v.last_le),
  )

  ref_of :
      (i : ℕ)
      → m.last ≤ i
      → i ≢ e
      → (session_at (start_session m' e u uuid).sessions i).user_ref ≡ none
  ref_of i h ne = ap (λ (s : Session). s.user_ref) (started_other i ne) ∙ (r.fresh i h).0

  id_of :
      (i : ℕ)
      → (session_at (start_session m' e u uuid).sessions i).user_ref ≡ none
      → (session_at (start_session m' e u uuid).sessions i).id ≡ []
  id_of i h = elim (ℕ_discrete i e) [
    | yes same' ↦ cc (
      ap (λ (s : Session). s.user_ref) started_self,
      ap (λ k. (session_at (start_session m' e u uuid).sessions k).user_ref) same',
      h,
    )
    | no ne ↦ ap (λ (s : Session). s.id) (started_other i ne) ∙ (elim (dec_lt i m.last) [
      | yes lt ↦
          ap (λ (s : Session). s.id) (r.same i lt)
          ∙ v.clear i
              (sym (ap (λ (s : Session). s.user_ref) (started_other i ne ∙ r.same i lt)) ∙ h)
      | no ge ↦ (r.fresh i (omega arith)).1
    ])
  ]

  pub start_session-IsValid : IsValid (start_session m' e u uuid)
  unfolding start_session
  start_session-IsValid = record {
    room = omega (arith, v.room, r.grown);
    slots = length-set m'.sessions e _ ∙ r.slots;
    last_le = omega (arith, last'_above, r.entries_eq);
    entries_le = omega (arith, r.more, r.entries_eq);
    free = λ i h. ref_of i (omega (arith, last'_above)) (λ q. absurd (omega (arith, last'_above)));
    clear = id_of;
  }
