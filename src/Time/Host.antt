-- ===== src/Time/Host.antt =====
-- nuhal_linux/src/time_host.c: the clock of the host, and a stamp that is read on it. The answers of
-- clock_gettime are a parameter; `none` is a failure of it.
use nuhal.Common.{
  ℕ, zero, suc, ◌+◌, ◌-◌, ◌*◌, ◌/◌, ◌%◌, ◌^◌, ◌≤◌, ◌<◌, ◌≡◌, refl, arith, Option, some, Outcome, ok,
  ◌>>=◌, require, errno, Returns,
}
use native.Mathlib.Nat.{mod-eq_of_lt}
use nuhal.Time.{TimeElapsed, elapsed_init, time_elapsed}
use nuhal.Time.Elapsed.{reading, stamp_after, elapsed_is_true_time}

-- `struct timespec` of POSIX
pub record Timespec : Type 0 where
  pub tv_sec : ℕ
  pub tv_nsec : ℕ

-- `time_period_ms` and `time_period_us`
abbrev pub time_period : ℕ
time_period = 2 ^ 32 - 1

-- `unsigned long` has 64 bits.
unfoldable pub time_current_ms : Option Timespec → Outcome ℕ
time_current_ms answer = do
  ts ← require answer errno
  ok ((ts.tv_sec * 1000 + ts.tv_nsec / 1000000) % 2 ^ 64 % time_period)

unfoldable pub time_current_us : Option Timespec → Outcome ℕ
time_current_us answer = do
  ts ← require answer errno
  ok ((ts.tv_sec * 1000000 + ts.tv_nsec / 1000) % 2 ^ 64 % time_period)

-- The milliseconds of a time.
abbrev pub ms_of : Timespec → ℕ
ms_of ts = ts.tv_sec * 1000 + ts.tv_nsec / 1000000

module _ (clock_gettime : ℕ → Timespec) where
  -- A stamp after its start and `n` calls of `time_elapsed_ms`.
  unfoldable pub elapsed_ms_after : ℕ → Outcome TimeElapsed
  elapsed_ms_after zero = do now ← time_current_ms (some (clock_gettime 0)); ok (elapsed_init now)
  elapsed_ms_after (suc n) = do
    s ← elapsed_ms_after n
    now ← time_current_ms (some (clock_gettime (suc n)))
    (_, s') ← time_elapsed time_period (some s) now
    ok s'

  abbrev ms : ℕ → ℕ
  ms n = ms_of (clock_gettime n)

  module _ (far : (n : ℕ) → ms_of (clock_gettime n) < 2 ^ 64) where
    current : (n : ℕ) → time_current_ms (some (clock_gettime n)) ≡ ok (reading time_period ms n)
    unfolding time_current_ms
    current n = rw (mod-eq_of_lt (far n)) refl

    elapsed_ms_after-stamp_after : (n : ℕ) → elapsed_ms_after n ≡ stamp_after time_period ms n
    unfolding elapsed_ms_after stamp_after
    elapsed_ms_after-stamp_after zero = rw (current 0) refl
    elapsed_ms_after-stamp_after (suc n) = rw (elapsed_ms_after-stamp_after n, current (suc n)) refl

    -- On the Linux host, if the times that clock_gettime answers fit 64 bits in milliseconds, do
    -- not go back, and are less than UINT32_MAX milliseconds apart from one reading to the next, a
    -- stamp holds after every reading the milliseconds since its start, modulo 2^32.
    pub elapsed_ms_after-true_time :
        ((n : ℕ) → ms_of (clock_gettime n) ≤ ms_of (clock_gettime (suc n)))
        → ((n : ℕ) → ms_of (clock_gettime (suc n)) < ms_of (clock_gettime n) + time_period)
        → (n : ℕ)
        → Returns
            (elapsed_ms_after n)
            (λ s. s.elapsed_time ≡ (ms_of (clock_gettime n) - ms_of (clock_gettime 0)) % 2 ^ 32)
    elapsed_ms_after-true_time forward often n =
        rw (elapsed_ms_after-stamp_after n)
          (elapsed_is_true_time time_period ms (omega arith) (omega arith) forward often n)
