-- ===== src/Locks.antt =====
-- libs/lock.h: `lock_timedwait`, which turns a wait in milliseconds into the time at which it is
-- over. The time of the clock and that of `pthread_cond_timedwait` are seconds and nanoseconds. The
-- other functions of the file are calls of the library of threads with the same arguments.
pub mod Deadline
mod Tests
use tiny_https_server.Prelude.{ℕ, ◌+◌, ◌-◌, ◌*◌, ◌/◌, ◌%◌, ltb, if◌then◌else◌}

-- `struct timespec`
pub record TimeSpec : Type 0 where
  pub tv_sec : ℕ
  pub tv_nsec : ℕ

-- What the call waits with: `pthread_cond_timedwait` until a time, or `lock_wait`.
pub data Wait : Type 0 where
  until : TimeSpec → Wait
  for_signal : Wait

-- The two branches on `t > nsec`, where `t` is what is left of the clock's second.
unfoldable pub later_by : TimeSpec → ℕ → ℕ → TimeSpec
later_by time sec nsec =
    let t = 1000000000 - time.tv_nsec in
    if ltb nsec t
    then record { tv_sec = time.tv_sec + sec; tv_nsec = time.tv_nsec + nsec }
    else record { tv_sec = time.tv_sec + (sec + 1); tv_nsec = nsec - t }

-- A wait below zero is one of zero.
unfoldable pub lock_timedwait : ℕ → TimeSpec → Wait
lock_timedwait wait_ms time =
    if ltb 0 wait_ms
    then until (later_by time (wait_ms / 1000) ((wait_ms % 1000) * 1000000))
    else for_signal
