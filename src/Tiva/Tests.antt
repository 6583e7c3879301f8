-- ===== src/Tiva/Tests.antt =====
-- A processor at 80 MHz that notes its tick period, its calls and its registers.
use nuhal.Common.{
  ℕ, ◌≡◌, refl, arith, Bool, true, false, List, [], ◌∷◌, ok, err, Settles, clock_not_set, undefined,
}
use nuhal.Tiva.{
  SetupCall, clock_set, systick_period_set, systick_enable, fpu_enable, fpu_lazy_stacking_enable,
  int_master_enable, Processor, set_clock, trap_division, tiva_setup, tiva_clock_hz,
  tiva_clock_hz_to_counts,
}
use nuhal.Tiva.Clock.{HasTick, ReadsOff, tiva_setup-ReadsOff}

record Chip : Type 0 where
  ticks : ℕ
  ctrl : ℕ
  calls : List SetupCall

abbrev period_after : SetupCall → ℕ → ℕ
period_after (systick_period_set n) ticks = n
period_after (clock_set n) ticks = ticks
period_after systick_enable ticks = ticks
period_after fpu_enable ticks = ticks
period_after fpu_lazy_stacking_enable ticks = ticks
period_after int_master_enable ticks = ticks

unfoldable cpu : Bool → Processor Chip
cpu class = record {
  class_is_tm4c123 = class;
  use_pll = 0;
  xtal_16mhz = 0x540;
  osc_main = 0;
  sysdiv_2_5 = 0xC1000000;
  nvic_cfg_ctrl = 0xE000ED14;
  nvic_cfg_ctrl_div0 = 16;
  call = λ c s. record s { ticks = period_after c s.ticks; calls = c ∷ s.calls };
  clock_get = λ s. (80000000, s);
  read_register = λ a s. (s.ctrl, s);
  write_register = λ a x s. record s { ctrl = x };
}

abbrev reset : Chip
reset = record { ticks = 0; ctrl = 0x200; calls = [] }

set_up :
    tiva_setup (cpu true) 0 reset
    ≡ ok (
      80000000,
      record {
        ticks = 0xFFFFFF;
        ctrl = 0x210;
        calls =
            int_master_enable
            ∷ fpu_lazy_stacking_enable
            ∷ fpu_enable
            ∷ systick_enable
            ∷ systick_period_set 0xFFFFFF
            ∷ clock_set 0xC1000540
            ∷ [];
      },
    )
unfolding tiva_setup set_clock trap_division cpu
set_up = refl

not_set_up : tiva_setup (cpu false) 0 reset ≡ err clock_not_set
unfolding tiva_setup set_clock cpu
not_set_up = refl

counts : tiva_clock_hz_to_counts 80000000 1000 ≡ ok 80000
unfolding tiva_clock_hz_to_counts
counts = refl

no_counts : tiva_clock_hz_to_counts 80000000 0 ≡ undefined
unfolding tiva_clock_hz_to_counts
no_counts = refl

cpu-HasTick : HasTick (cpu true) 80000000
unfolding cpu
cpu-HasTick = record {
  period = λ s. s.ticks;
  sets = λ s ticks. refl;
  enabled = λ s. refl;
  floats = λ s. refl;
  lazy = λ s. refl;
  interrupts = λ s. refl;
  reading = λ a s. refl;
  writing = λ a x s. refl;
  reports = λ s. refl;
}

tiva_setup-ReadsOff_example :
    Settles
      (tiva_setup (cpu true) 0 reset)
      (λ (clock_freq, s').
        ((cpu true).class_is_tm4c123 ≡ true)
        × (tiva_clock_hz clock_freq ≡ 80000000)
        × ReadsOff (cpu-HasTick.period s') clock_freq 6000000)
      (λ e. (e ≡ clock_not_set) × ((cpu true).class_is_tm4c123 ≡ false))
tiva_setup-ReadsOff_example =
    tiva_setup-ReadsOff (cpu true) cpu-HasTick 6000000 reset (omega arith) (omega arith)
