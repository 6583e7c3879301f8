-- ===== src/Time.antt =====
-- nuhal_all/src/time.c: elapsed time from a clock that rolls over. The clock and its period are the
-- platform's: `clock n` is what the n-th reading of `time_current_ms` (or `_us`) returns, and
-- `period` what `time_period_ms` (or `_us`) returns. A function that reads the clock takes the number
-- of the next reading.
pub mod Elapsed
pub mod Delay
pub mod Running
pub mod Host
pub mod Tiva
mod Tests
use nuhal.Common.{
  ℕ, zero, suc, ◌/◌, none, some, leb, ltb, if◌then◌else◌, add32, sub32, Option, Outcome, ok,
  undefined, ◌>>=◌, Ptr, require, stamp_is_null, ◌==◌,
}

-- `struct time_elapsed`; the wrappers for ms and us hold nothing else.
pub record TimeElapsed : Type 0 where
  pub curr_time : ℕ
  pub prev_time : ℕ
  pub elapsed_time : ℕ

-- `time_elapsed_ms_init` and `time_elapsed_us_init`, at the reading `now`.
unfoldable pub elapsed_init : ℕ → TimeElapsed
elapsed_init now = record { curr_time = now; prev_time = 0; elapsed_time = 0 }

-- What `time_elapsed` adds: the time from the reading `prev` to the reading `curr`.
abbrev pub since : ℕ → ℕ → ℕ → ℕ
since period prev curr = if leb prev curr then sub32 curr prev else add32 (sub32 period prev) curr

-- `time_elapsed`, with the result and the new `*stamp`.
unfoldable pub time_elapsed : ℕ → Ptr TimeElapsed → ℕ → Outcome (ℕ × TimeElapsed)
time_elapsed period stamp currtime = do
  s ← require stamp stamp_is_null
  let prev = s.curr_time
  let total = add32 s.elapsed_time (since period prev currtime)
  ok (total, record { curr_time = currtime; prev_time = prev; elapsed_time = total })

-- `time_frequency_to_period_us` and `_ms`; a division by zero is undefined.
unfoldable pub frequency_to_period_us : ℕ → Outcome ℕ
frequency_to_period_us hz = if hz == 0 then undefined else ok (1000000 / hz)

unfoldable pub frequency_to_period_ms : ℕ → Outcome ℕ
frequency_to_period_ms hz = do us ← frequency_to_period_us hz; ok (us / 1000)

module _ (clock : ℕ → ℕ) (period : ℕ) where
  -- The waiting loop of `time_delay_ms` and `time_delay_us` with `fuel` rounds left, `n` being the
  -- next reading: the number of the reading after the loop, or `none` where the fuel ran out.
  unfoldable pub delay_loop : ℕ → TimeElapsed → ℕ → ℕ → Outcome (Option ℕ)
  delay_loop zero s n duration = ok none
  delay_loop (suc fuel) s n duration = do
    (t, s') ← time_elapsed period (some s) (clock n)
    let rest = delay_loop fuel s' (suc n) duration
    if ltb t duration then rest else ok (some (suc n))

  -- `time_delay_ms` and `time_delay_us`.
  unfoldable pub time_delay : ℕ → ℕ → ℕ → Outcome (Option ℕ)
  time_delay fuel n duration = delay_loop fuel (elapsed_init (clock n)) (suc n) duration
