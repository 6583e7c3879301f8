-- ===== src/Time/Tests.antt =====
-- The clock theorems at a clock that rolls over every 10 units.
use nuhal.Common.{zero, ℕ, suc, ◌+◌, ◌-◌, ◌*◌, ◌%◌, ◌^◌, ◌≤◌, ◌<◌, ◌≡◌, arith, some, ok, Returns}
use nuhal.Time.{time_delay}
use nuhal.Time.Elapsed.{reading, stamp_after, elapsed_is_true_time}
use nuhal.Time.Host.{Timespec, time_period, ms_of, elapsed_ms_after, elapsed_ms_after-true_time}
use nuhal.Time.Delay.{time_delay_ends}

-- Read every 7 units, from 5 on.
abbrev sevens : ℕ → ℕ
sevens n = 5 + 7 * n

forward : (n : ℕ) → sevens n ≤ sevens (suc n)
forward n = omega arith

often : (n : ℕ) → sevens (suc n) < sevens n + 10
often n = omega arith

-- The readings 5, 2, 9, 6, 3 count 28 units.
elapsed_is_true_time_example :
    Returns (stamp_after 10 sevens 4) (λ s. s.elapsed_time ≡ (sevens 4 - sevens 0) % 2 ^ 32)
elapsed_is_true_time_example =
    elapsed_is_true_time 10 sevens (omega arith) (omega arith) forward often 4

time_delay_ends_example :
    (m : ℕ) × (time_delay (reading 10 sevens) 10 3 0 20 ≡ ok (some (suc m)))
    × (sevens 0 + 20 ≤ sevens m)
    × (sevens m < sevens 0 + 20 + 10)
time_delay_ends_example =
    time_delay_ends 10 sevens (omega arith) (omega arith) forward often 20 (omega arith) 2
      (omega arith)

-- One second before the host's counter of milliseconds rolls over, and after it.
abbrev around_rollover : ℕ → Timespec
around_rollover zero = record { tv_sec = 4294967; tv_nsec = 0 }
around_rollover (suc n) = record { tv_sec = 4294968; tv_nsec = 5000000 }

far : (n : ℕ) → ms_of (around_rollover n) < 2 ^ 64
far zero = omega arith
far (suc n) = omega arith

onwards : (n : ℕ) → ms_of (around_rollover n) ≤ ms_of (around_rollover (suc n))
onwards zero = omega arith
onwards (suc n) = omega arith

close : (n : ℕ) → ms_of (around_rollover (suc n)) < ms_of (around_rollover n) + time_period
close zero = omega arith
close (suc n) = omega arith

elapsed_ms_after-true_time_example :
    Returns
      (elapsed_ms_after around_rollover 2)
      (λ s. s.elapsed_time ≡ (ms_of (around_rollover 2) - ms_of (around_rollover 0)) % 2 ^ 32)
elapsed_ms_after-true_time_example = elapsed_ms_after-true_time around_rollover far onwards close 2
