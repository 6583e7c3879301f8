-- ===== src/Uart/Tiva/Drained.antt =====
-- The characters that `uart_open` of nuhal_tiva/src/uart_tiva.c drops, and the delays between them.
use nuhal.Common.{
  ℕ, zero, suc, ◌+◌, ◌*◌, ◌^◌, ◌≤◌, ◌<◌, ◌≡◌, inl, inr, refl, arith, true, false, length,
  Bool-cases, Returns, Returns-ok,
}
use nuhal.Time.Running.{IsRunning, delay, delay-Returns}
use nuhal.Uart.Tiva.{UartLib}
use nuhal.Uart.Tiva.Control.{drain}

-- The tables have eight entries. Of the characters that come in while the port is opened, `noise s`
-- are left, at most `limit`, and one that is taken is gone.
pub record IsOpenable {S : Type 0} (lib : UartLib S) (limit : ℕ) : Type 0 where
  pub bases : length lib.uart_bases ≡ 8
  pub sysctls : length lib.sysctl_uarts ≡ 8
  pub ints : length lib.int_uarts ≡ 8
  pub noise : S → ℕ
  pub bounded : (s : S) → noise s ≤ limit
  pub taking :
      (base : ℕ) (s : S)
      → (lib.chars_avail base s).0 ≡ true
      → noise (lib.char_get base (lib.chars_avail base s).1).1 < noise s
  pub ticking : (s : S) → noise (lib.time_current_us s).1 ≤ noise s

module _ {S : Type 0} (lib : UartLib S) where
  -- The state in which the hardware has just told that no character is in.
  abbrev pub IsDrained : ℕ → S → Type 0
  IsDrained base s' =
      (s : S) × ((lib.chars_avail base s).0 ≡ false) × (s' ≡ (lib.chars_avail base s).1)

  module _ {limit : ℕ} (openable : IsOpenable lib limit) {slow most : ℕ}
      (running : IsRunning lib.time_current_us lib.time_period_us slow most) (byte_us : ℕ)
      (short : byte_us + slow < 2 ^ 32) where
    -- The rounds that a delay of one byte may need.
    abbrev pub delay_need : ℕ
    delay_need = byte_us * (most + 1) + most

    pub byte_delay :
        (fuel : ℕ) (s : S)
        → delay_need < fuel
        → Returns
            (delay lib.time_current_us lib.time_period_us fuel byte_us s)
            (λ s'. openable.noise s' ≤ openable.noise s)
    byte_delay fuel s enough =
        delay-Returns lib.time_current_us lib.time_period_us running
          (λ s'. openable.noise s' ≤ openable.noise s)
          (λ s' h. omega (arith, h, openable.ticking s')) fuel byte_us s (omega arith) short enough

    pub drain-Returns :
        (base fuel : ℕ) (s : S)
        → openable.noise s + delay_need < fuel
        → Returns (drain lib base byte_us fuel s) (IsDrained base)
    unfolding drain
    drain-Returns base zero s enough = absurd (omega (arith, enough))
    drain-Returns base (suc fuel) s enough = elim (Bool-cases (lib.chars_avail base s).0) [
      | inr empty ↦ rw (drain, empty) (s, empty, refl)
      | inl some_char ↦
          let s1 = (lib.char_get base (lib.chars_avail base s).1).1 in
          let less = openable.taking base s some_char in
          let (s2, e, kept) =
            Returns-ok (delay lib.time_current_us lib.time_period_us fuel byte_us s1) _
              (byte_delay fuel s1 (omega (arith, less, enough))) in
          rw (drain, some_char, e) (drain-Returns base fuel s2 (omega (arith, less, kept, enough)))
    ]
