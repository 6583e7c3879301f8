-- ===== src/Tiva/Clock.antt =====
-- The clock of nuhal_tiva/src/time_tiva.c after the set-up of nuhal_tiva/src/tiva.c.
use nuhal.Common.{
  ℕ, ◌-◌, ◌/◌, ◌^◌, ◌≤◌, ◌<◌, ◌≡◌, refl, ◌∙◌, arith, true, false, ◌==◌, bit_or, Returns, Settles,
  Bool-cases, inl, inr, ne→==, clock_not_set,
}
use nuhal.Time.Tiva.{
  tiva_time_current_ms, tiva_time_current_us, tiva_time_period_ms, tiva_time_period_us,
  tiva_time_current-period,
}
use nuhal.Tiva.{
  systick_period_set, systick_enable, fpu_enable, fpu_lazy_stacking_enable, int_master_enable,
  clock_set, Processor, systick_max, set_clock, trap_division, tiva_setup, tiva_clock_hz,
}

-- What SysTickPeriodGet returns is what the last SysTickPeriodSet was handed, and no other call or
-- register of the set-up changes it. SysCtlClockGet reports `hz`.
pub record HasTick {S : Type 0} (cpu : Processor S) (hz : ℕ) : Type 0 where
  pub period : S → ℕ
  pub sets : (s : S) (ticks : ℕ) → period (cpu.call (systick_period_set ticks) s) ≡ ticks
  pub enabled : (s : S) → period (cpu.call systick_enable s) ≡ period s
  pub floats : (s : S) → period (cpu.call fpu_enable s) ≡ period s
  pub lazy : (s : S) → period (cpu.call fpu_lazy_stacking_enable s) ≡ period s
  pub interrupts : (s : S) → period (cpu.call int_master_enable s) ≡ period s
  pub reading : (a : ℕ) (s : S) → period (cpu.read_register a s).1 ≡ period s
  pub writing : (a x : ℕ) (s : S) → period (cpu.write_register a x s) ≡ period s
  pub reports : (s : S) → (cpu.clock_get s).0 ≡ hz

-- The time in ms and in us that is read off at a value of the counter, and its bound.
abbrev pub ReadsOff : (period hz value : ℕ) → Type 0
ReadsOff period hz value =
    Returns (tiva_time_current_ms period hz value) (λ now.
      (now ≡ (systick_max - value) / (hz / 1000))
      × Returns (tiva_time_period_ms period hz) (λ most. now ≤ most))
    × Returns (tiva_time_current_us period hz value) (λ now.
      (now ≡ (systick_max - value) / (hz / 1000000))
      × Returns (tiva_time_period_us period hz) (λ most. now ≤ most))

reads_off :
    (period hz value : ℕ)
    → period ≡ systick_max
    → 1000000 ≤ hz
    → value < 2 ^ 24
    → ReadsOff period hz value
reads_off period hz value e fast inside = rw e (
    tiva_time_current-period systick_max hz value (omega arith) (omega (arith, inside))
      (omega (arith, fast)))

module _ {S : Type 0} (cpu : Processor S) {hz : ℕ} (tick : HasTick cpu hz) where
  -- On a processor where SysCtlClockGet reports hz, at least 1 MHz, and where SysTickPeriodGet
  -- returns what SysTickPeriodSet was last handed, tiva_setup from the initial clock_freq 0 ends.
  -- It returns on a TM4C123, and then tiva_clock_hz is hz, and at any value of the counter of 24
  -- bits time_current_ms and time_current_us return the ticks since the roll-over divided by the
  -- ticks in a ms and in a us, rounded down, and at most what time_period_ms and time_period_us
  -- return; on any other processor it ends in the error that the clock is not set.
  pub tiva_setup-ReadsOff :
      (value : ℕ) (s : S)
      → 1000000 ≤ hz
      → value < 2 ^ 24
      → Settles
          (tiva_setup cpu 0 s)
          (λ (clock_freq, s').
            (cpu.class_is_tm4c123 ≡ true)
            × (tiva_clock_hz clock_freq ≡ hz)
            × ReadsOff (tick.period s') clock_freq value)
          (λ e. (e ≡ clock_not_set) × (cpu.class_is_tm4c123 ≡ false))
  unfolding tiva_setup set_clock trap_division
  tiva_setup-ReadsOff value s fast inside = elim (Bool-cases cpu.class_is_tm4c123) [
    | inr other ↦ rw (tiva_setup, set_clock, other) (refl, refl)
    | inl tm4c123 ↦
        rw (tiva_setup, set_clock, tm4c123, tick.reports (cpu.call (clock_set setting) s), running)
          (refl, refl, reads_off _ hz value kept fast inside)
  ]
    where
      setting : ℕ
      setting = bit_or (bit_or (bit_or cpu.use_pll cpu.xtal_16mhz) cpu.osc_main) cpu.sysdiv_2_5

      running : (0 == hz) ≡ false
      running = ne→== 0 hz (λ e. omega (arith, e, fast))

      set_to : S → S
      set_to s1 = cpu.call fpu_lazy_stacking_enable (
          cpu.call fpu_enable
            (cpu.call systick_enable (cpu.call (systick_period_set systick_max) s1)))

      ends : S → S
      ends s1 = cpu.call int_master_enable (trap_division cpu (set_to s1))

      set_to-period : (s1 : S) → tick.period (set_to s1) ≡ systick_max
      set_to-period s1 = tick.lazy _ ∙ tick.floats _ ∙ tick.enabled _ ∙ tick.sets _ _

      kept : tick.period (ends (cpu.clock_get (cpu.call (clock_set setting) s)).1) ≡ systick_max
      kept = tick.interrupts _ ∙ tick.writing _ _ _ ∙ tick.reading _ _ ∙ set_to-period _
