-- ===== src/Locks/Tests.antt =====
-- A wait of libs/lock.h over the end of a second.
use tiny_https_server.Prelude.{◌≡◌, ◌<◌, ◌+◌, ◌*◌, arith, refl}
use tiny_https_server.Locks.{TimeSpec, until, lock_timedwait, later_by}
use tiny_https_server.Locks.Deadline.{nanoseconds, lock_timedwait_lem}

abbrev now : TimeSpec
now = record { tv_sec = 7; tv_nsec = 800000000 }

next_second : lock_timedwait 1200 now ≡ until (record { tv_sec = 9; tv_nsec = 0 })
unfolding lock_timedwait later_by
next_second = refl

lock_timedwait_lem_example :
    (t : TimeSpec) × (lock_timedwait 1200 now ≡ until t)
    × (t.tv_nsec < 1000000000)
    × (nanoseconds t ≡ nanoseconds now + 1200 * 1000000)
lock_timedwait_lem_example = lock_timedwait_lem 1200 now (omega arith) (omega arith)
