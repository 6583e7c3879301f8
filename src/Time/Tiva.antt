-- ===== src/Time/Tiva.antt =====
-- nuhal_tiva/src/time_tiva.c: the clock of the microcontroller. What SysTickPeriodGet, SysTickValueGet
-- and tiva_clock_hz return are parameters; the tick counts down from the period, in 24 bits.
use native.Mathlib.Nat.{div-div-eq-div-mul, mul-div-mul_right, le-div_iff_mul-le, div-mul-le_self}
use nuhal.Common.{
  Returns, ne→==, ℕ, ◌-◌, ◌*◌, ◌/◌, ◌^◌, ◌≤◌, ◌<◌, ◌≡◌, refl, ◌∙◌, arith, ◌==◌, if◌then◌else◌, u32,
  sub32, Outcome, ok, undefined, ap,
}

-- `((ticks << 8) / (hz / unit)) >> 8`; a division by zero is undefined.
unfoldable pub scaled_ticks : ℕ → ℕ → ℕ → Outcome ℕ
scaled_ticks ticks hz unit =
    if hz / unit == 0 then undefined else ok (u32 (ticks * 2 ^ 8) / (hz / unit) / 2 ^ 8)

module _ (systick_period clock_hz : ℕ) where
  unfoldable pub tiva_time_current_ms : ℕ → Outcome ℕ
  tiva_time_current_ms systick_value =
      scaled_ticks (sub32 systick_period systick_value) clock_hz 1000

  unfoldable pub tiva_time_current_us : ℕ → Outcome ℕ
  tiva_time_current_us systick_value =
      scaled_ticks (sub32 systick_period systick_value) clock_hz 1000000

  unfoldable pub tiva_time_period_ms : Outcome ℕ
  tiva_time_period_ms = scaled_ticks systick_period clock_hz 1000

  unfoldable pub tiva_time_period_us : Outcome ℕ
  tiva_time_period_us = scaled_ticks systick_period clock_hz 1000000

div-le-div : (a b k : ℕ) → 0 < k → a ≤ b → a / k ≤ b / k
div-le-div a b k positive h = (le-div_iff_mul-le positive).1 (omega (arith, div-mul-le_self a k, h))

-- Of 24 bits of ticks, the shifts to the left and back change nothing.
scaled_ticks-div :
    (ticks hz unit : ℕ)
    → ticks < 2 ^ 24
    → 0 < hz / unit
    → scaled_ticks ticks hz unit ≡ ok (ticks / (hz / unit))
unfolding scaled_ticks
scaled_ticks-div ticks hz unit small positive =
    rw (ne→== (hz / unit) 0 (λ e. omega (arith, e, positive)), fits)
      (ap ok (
        div-div-eq-div-mul (ticks * 2 ^ 8) (hz / unit) (2 ^ 8)
        ∙ mul-div-mul_right ticks (hz / unit) (omega arith)))
  where
    fits : u32 (ticks * 2 ^ 8) ≡ ticks * 2 ^ 8
    fits = omega (arith, small)

module _ (systick_period clock_hz value : ℕ) (small : systick_period < 2 ^ 24)
    (inside : value ≤ systick_period) (fast : 0 < clock_hz / 1000000) where
  ticks_lem : sub32 systick_period value ≡ systick_period - value
  ticks_lem = omega (arith, small, inside)

  -- On the Tiva, with a tick period of less than 24 bits, a tick value of at most the period and a
  -- clock of at least 1 MHz, the current time in ms and in us is the number of ticks since the
  -- roll-over divided by the ticks in a ms and in a us, rounded down, as it is without the shifts,
  -- and is at most the period that is reported in the same unit.
  pub tiva_time_current-period :
      Returns (tiva_time_current_ms systick_period clock_hz value) (λ now.
        (now ≡ (systick_period - value) / (clock_hz / 1000))
        × Returns (tiva_time_period_ms systick_period clock_hz) (λ period. now ≤ period))
      × Returns (tiva_time_current_us systick_period clock_hz value) (λ now.
        (now ≡ (systick_period - value) / (clock_hz / 1000000))
        × Returns (tiva_time_period_us systick_period clock_hz) (λ period. now ≤ period))
  unfolding tiva_time_current_ms tiva_time_current_us tiva_time_period_ms tiva_time_period_us
  tiva_time_current-period = (
    rw
        (
          ticks_lem,
          scaled_ticks-div (systick_period - value) clock_hz 1000 (omega (arith, small)) slower,
          scaled_ticks-div systick_period clock_hz 1000 small slower,
        )
        (
          refl,
          div-le-div (systick_period - value) systick_period (clock_hz / 1000) slower (omega arith),
        ),
    rw
        (
          ticks_lem,
          scaled_ticks-div (systick_period - value) clock_hz 1000000 (omega (arith, small)) fast,
          scaled_ticks-div systick_period clock_hz 1000000 small fast,
        )
        (
          refl,
          div-le-div (systick_period - value) systick_period (clock_hz / 1000000) fast
              (omega arith),
        ),
  )
    where
      slower : 0 < clock_hz / 1000
      slower = omega (arith, fast)
