-- ===== src/Locks/Deadline.antt =====
-- When a timed wait of libs/lock.h is over.
use tiny_https_server.Prelude.{ℕ, ◌+◌, ◌*◌, ◌/◌, ◌%◌, ◌<◌, ◌≡◌, ap, arith, if◌then◌else◌, lt→ltb}
use tiny_https_server.Locks.{TimeSpec, Wait, until, later_by, lock_timedwait}

abbrev pub nanoseconds : TimeSpec → ℕ
nanoseconds t = t.tv_sec * 1000000000 + t.tv_nsec

later_by_lem :
    (time : TimeSpec) (sec nsec : ℕ)
    → time.tv_nsec < 1000000000
    → nsec < 1000000000
    → ((later_by time sec nsec).tv_nsec < 1000000000)
      × (nanoseconds (later_by time sec nsec) ≡ nanoseconds time + sec * 1000000000 + nsec)
unfolding later_by
later_by_lem time sec nsec h h' = (ground arith, ground arith)

-- A wait of at least a millisecond is over that many milliseconds after the clock's time, and the
-- time that the library gets is a valid one: its nanoseconds are less than a second.
pub lock_timedwait_lem :
    (wait_ms : ℕ) (time : TimeSpec)
    → 0 < wait_ms
    → time.tv_nsec < 1000000000
    → (t : TimeSpec) × (lock_timedwait wait_ms time ≡ until t)
      × (t.tv_nsec < 1000000000)
      × (nanoseconds t ≡ nanoseconds time + wait_ms * 1000000)
unfolding lock_timedwait
lock_timedwait_lem wait_ms time some_wait h =
    let sec = wait_ms / 1000 in
    let nsec = (wait_ms % 1000) * 1000000 in
    let (small, sum) = later_by_lem time sec nsec h (omega arith) in
    (
      later_by time sec nsec,
      ap (λ b. if b then until (later_by time sec nsec) else Wait.for_signal)
          (lt→ltb 0 wait_ms some_wait),
      small,
      omega (arith, sum),
    )
