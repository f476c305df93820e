-- ===== src/Clock.antt =====
-- The clock of locks and leases (src/memoryWriteAheadSharedRuntime.ts):
-- getMemoryWriteAheadLockClockMs and getMemoryWriteAheadLockAgeMs. The time itself,
-- `performance.timeOrigin + performance.now()` or `Date.now()` in whole milliseconds, is an argument.
use memory_write_ahead_vfs.Base.{
  ℕ, ◌+◌, ◌-◌, ◌%◌, ◌≤◌, ◌<◌, ◌≡◌, Option, none, some, max, leb, if◌then◌else◌, arith, ℤ, pos,
  pos_part, is_positive, ◌^◌,
}

-- 0x7fffffff
abbrev pub lock_clock_modulo_ms : ℕ
lock_clock_modulo_ms = 2 ^ 31 - 1

unfoldable pub get_memory_write_ahead_lock_clock_ms : ℕ → ℕ
get_memory_write_ahead_lock_clock_ms now = max 1 (now % lock_clock_modulo_ms)

-- `none` is null: there is no heartbeat. A slot never holds more than the modulus.
unfoldable pub get_memory_write_ahead_lock_age_ms : ℤ → ℕ → Option ℕ
get_memory_write_ahead_lock_age_ms heartbeat_ms now_ms =
    if is_positive heartbeat_ms
    then some (
        if leb (pos_part heartbeat_ms) now_ms
        then now_ms - pos_part heartbeat_ms
        else now_ms + (lock_clock_modulo_ms - pos_part heartbeat_ms))
    else none

-- The clock never shows 0, the mark of a missing heartbeat, and fits an int32 slot.
pub clock_bounds :
    (now : ℕ)
    → (1 ≤ get_memory_write_ahead_lock_clock_ms now)
      × (get_memory_write_ahead_lock_clock_ms now < lock_clock_modulo_ms)
unfolding get_memory_write_ahead_lock_clock_ms
clock_bounds now = omega arith

-- Across the wrap-around of the clock too, the age of a heartbeat stamped at `t` and read `d`
-- milliseconds later, less than a period, is `d` to within one millisecond.
pub age-clock :
    (t d : ℕ)
    → d + 1 < lock_clock_modulo_ms
    → (age : ℕ) × (get_memory_write_ahead_lock_age_ms
          (pos (get_memory_write_ahead_lock_clock_ms t))
          (get_memory_write_ahead_lock_clock_ms (t + d))
        ≡ some age)
      × (age ≤ d + 1)
      × (d ≤ age + 1)
unfolding get_memory_write_ahead_lock_age_ms get_memory_write_ahead_lock_clock_ms
age-clock t d h = (
  (if leb (max 1 (t % lock_clock_modulo_ms)) (max 1 ((t + d) % lock_clock_modulo_ms))
      then max 1 ((t + d) % lock_clock_modulo_ms) - max 1 (t % lock_clock_modulo_ms)
      else max 1 ((t + d) % lock_clock_modulo_ms)
        + (lock_clock_modulo_ms - max 1 (t % lock_clock_modulo_ms))),
  ground arith,
  ground arith,
  ground arith,
)
