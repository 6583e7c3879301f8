-- ===== src/Tiva.antt =====
-- nuhal_tiva/src/tiva.c: the set-up of the processor and its clock frequency, the static `clock_freq`,
-- which is passed on as a number. The calls of TivaWare, its constants and the registers come as a
-- record over a state `S` of the hardware. `tiva_peripheral_enable` is in Pin/Setup.
pub mod Clock
mod Tests
use nuhal.Common.{
  ℕ, ◌/◌, Bool, true, false, ◌==◌, if◌then◌else◌, bit_or, Outcome, ok, err, undefined, ◌>>=◌,
  clock_not_set,
}

-- The calls of the set-up, with what is handed to them.
pub data SetupCall : Type 0 where
  clock_set systick_period_set : ℕ → SetupCall
  systick_enable fpu_enable fpu_lazy_stacking_enable int_master_enable : SetupCall

pub record Processor (S : Type 0) : Type 0 where
  pub class_is_tm4c123 : Bool
  pub use_pll : ℕ
  pub xtal_16mhz : ℕ
  pub osc_main : ℕ
  pub sysdiv_2_5 : ℕ
  pub nvic_cfg_ctrl : ℕ
  pub nvic_cfg_ctrl_div0 : ℕ
  pub call : SetupCall → S → S
  pub clock_get : S → ℕ × S
  pub read_register : ℕ → S → ℕ × S
  pub write_register : ℕ → ℕ → S → S

-- `SYSTICK_MAX`
abbrev pub systick_max : ℕ
systick_max = 0x00FFFFFF

module _ {S : Type 0} (cpu : Processor S) where
  -- The first `if` of `tiva_setup`: the new `clock_freq`.
  unfoldable pub set_clock : ℕ → S → ℕ × S
  set_clock clock_freq s = elim cpu.class_is_tm4c123 [
    | true ↦ cpu.clock_get (
        cpu.call
          (clock_set
            (bit_or (bit_or (bit_or cpu.use_pll cpu.xtal_16mhz) cpu.osc_main) cpu.sysdiv_2_5))
          s)
    | false ↦ (clock_freq, s)
  ]

  -- `HWREG(NVIC_CFG_CTRL) |= NVIC_CFG_CTRL_DIV0`
  unfoldable pub trap_division : S → S
  trap_division s =
      let (ctrl, s) = cpu.read_register cpu.nvic_cfg_ctrl s in
      cpu.write_register cpu.nvic_cfg_ctrl (bit_or ctrl cpu.nvic_cfg_ctrl_div0) s

  -- `tiva_setup`, from a value of `clock_freq`, with the new one.
  unfoldable pub tiva_setup : ℕ → S → Outcome (ℕ × S)
  tiva_setup clock_freq s =
      let (clock_freq, s) = set_clock clock_freq s in
      if 0 == clock_freq
      then err clock_not_set
      else (let s = cpu.call (systick_period_set systick_max) s in
          let s =
            cpu.call fpu_lazy_stacking_enable (cpu.call fpu_enable (cpu.call systick_enable s)) in
          ok (clock_freq, cpu.call int_master_enable (trap_division s)))

-- `tiva_clock_hz`
abbrev pub tiva_clock_hz : ℕ → ℕ
tiva_clock_hz clock_freq = clock_freq

-- `tiva_clock_hz_to_counts`; a division by zero is undefined.
unfoldable pub tiva_clock_hz_to_counts : ℕ → ℕ → Outcome ℕ
tiva_clock_hz_to_counts clock_freq hz =
    if hz == 0 then undefined else ok (tiva_clock_hz clock_freq / hz)
