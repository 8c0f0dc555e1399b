-- ===== src/Queue/Threads/Shutdown.antt =====
-- `queue_destroy` of libs/queue.c waits until nobody is pending.
use tiny_https_server.Prelude.{
  ℕ, zero, suc, ◌+◌, ◌≡◌, refl, true, false, some, List, [], ◌∷◌, arith, lt→ltb, length, get_elem?,
  ◌<◌, ap, sym, ◌∙◌,
}
use mathlib.Core.Path.{subst}
use tiny_https_server.Queue.{push_wakes, queue_destroy, freed}
use tiny_https_server.Queue.Threads.{
  System, Event, pop_resumes, push_resumes, destroys, step, run, remove_at, push_resumed,
}
use tiny_https_server.Queue.Threads.Order.{Orderly, pop_wakes_dead, push_wakes_dead}

module _ {A : Type 0} where
  -- Each of `n` calls that wait in `pop` and of `m` in `push` wakes up once, in any order.
  pub data Wakes : ℕ → ℕ → List (Event A) → Type 0 where
    nobody : Wakes 0 0 []
    popper : {n m : ℕ} {es : List (Event A)} → Wakes n m es → Wakes (suc n) m (pop_resumes ∷ es)
    pusher :
        {n m i : ℕ} {es : List (Event A)}
        → i < suc m
        → Wakes n m es
        → Wakes n (suc m) (push_resumes i ∷ es)

  -- A system whose queue is dead and that counts its waiting calls.
  record IsDying (s : System A) (n m : ℕ) : Type 0 where
    dead : s.queue.alive ≡ false
    poppers : s.poppers ≡ n
    pushers : length s.pushers ≡ m
    counts : s.queue.pending ≡ n + m

  resume_pop-IsDying :
      (s : System A) (n m : ℕ) → IsDying s (suc n) m → IsDying (step s pop_resumes) n m
  unfolding step
  resume_pop-IsDying s n m v =
      rw (lt→ltb 0 s.poppers (omega arith), pop_wakes_dead s.queue v.dead)
        (record { dead = v.dead; poppers = omega arith; pushers = v.pushers; counts = omega arith })

  removed :
      (xs : List A) (i m : ℕ)
      → i < suc m
      → length xs ≡ suc m
      → (x : A) × (get_elem? xs i ≡ some x) × (length (remove_at xs i) ≡ m)
  removed [] i m lt e = absurd (omega arith)
  removed (x ∷ xs) zero m lt e = (x, refl, omega arith)
  removed (x ∷ xs) (suc i) zero lt e = absurd (omega arith)
  removed (x ∷ xs) (suc i) (suc m) lt e =
      let (y, at, rest) = removed xs i m (omega arith) (omega arith) in (y, at, ap suc rest)

  resume_push-IsDying :
      (s : System A) (n m i : ℕ)
      → i < suc m
      → IsDying s n (suc m)
      → IsDying (step s (push_resumes i)) n m
  unfolding step
  resume_push-IsDying s n m i lt v =
      let (x, at, rest) = removed s.pushers i m lt v.pushers in
      let stepped : step s (push_resumes i) ≡ push_resumed s i x (push_wakes s.queue (some x)) =
        simp (step, at) in
      subst (λ t. IsDying t n m)
        (sym (stepped ∙ ap (push_resumed s i x) (push_wakes_dead s.queue (some x) v.dead)))
        (record {
          dead = v.dead;
          poppers = v.poppers;
          pushers = rest;
          counts = omega (arith, v.counts);
        })

  drain :
      (n m : ℕ) (es : List (Event A)) (s : System A)
      → Wakes n m es
      → IsDying s n m
      → IsDying (run s es) 0 0
  unfolding run
  drain _ _ _ s nobody v = v
  drain _ _ _ s (popper {n} {m} {es} w) v =
      drain n m es (step s pop_resumes) w (resume_pop-IsDying s n m v)
  drain _ _ _ s (pusher {n} {m} {i} {es} lt w) v =
      drain n m es (step s (push_resumes i)) w (resume_push-IsDying s n m i lt v)

  -- Once the queue is destroyed, the loop of `queue_destroy` ends as soon as every call that waits
  -- has woken up once, in whatever order: then nobody is pending and nobody waits.
  pub destroy_ends :
      (s : System A) (es : List (Event A))
      → Orderly s
      → Wakes s.poppers (length s.pushers) es
      → let t = run s (destroys ∷ es) in
        (freed t.queue ≡ true) × (t.poppers ≡ 0) × (length t.pushers ≡ 0)
  unfolding run step queue_destroy freed
  destroy_ends s es (xs, v) wakes =
      let dying : IsDying (step s destroys) s.poppers (length s.pushers) = record {
        dead = refl;
        poppers = refl;
        pushers = refl;
        counts = v.counts;
      } in
      let w = drain s.poppers (length s.pushers) es (step s destroys) wakes dying in
      ground (arith, w)
