-- ===== src/Led/Tiva/Tests.antt =====
-- The LED of the board on a port F whose pins are levels.
use nuhal.Common.{
  ℕ, zero, suc, ◌*◌, ◌<◌, ◌≤◌, ◌⊎◌, inl, ◌≡◌, refl, sym, ap, arith, Bool, true, false, not, ◌==◌,
  eq→==, ne→==, if◌then◌else◌, [], ◌∷◌, ok, load, ok_inj, Returns, ◌>>=◌, u32, add32,
}
use mathlib.Core.Path.{Path}
use nuhal.Time.{since}
use nuhal.Time.Running.{IsRunning}
use nuhal.Pin.{pin_port, pin_number}
use nuhal.Pin.Setup.{Tivaware, pin_read, pin_base, pin_mask}
use nuhal.Led.Signals.{IsLed, GoesOn, led_error_fatal, led_error_startup, led_errors-GoesOn}
use nuhal.Led.Tiva.{led_set, led_get}
use nuhal.Led.Tiva.SetGet.{IsPort, led_set-led_get, board-IsLed}

-- The number of a pin, from the address of its data register.
abbrev pin_at : ℕ → ℕ
pin_at address =
    if address == 0x40025004
    then 0
    else if address == 0x40025008
    then 1
    else if address == 0x40025010
    then 2
    else if address == 0x40025020
    then 3
    else if address == 0x40025040
    then 4
    else if address == 0x40025080
    then 5
    else if address == 0x40025100
    then 6
    else 7

abbrev port_f : Tivaware (ℕ → Bool)
port_f = record {
  port_bases = 0 ∷ 0 ∷ 0 ∷ 0 ∷ 0 ∷ 0x40025000 ∷ [];
  sysctl_ports = [];
  port_pins = 1 ∷ 2 ∷ 4 ∷ 8 ∷ 16 ∷ 32 ∷ 64 ∷ 128 ∷ [];
  gpio_o_data = 0;
  gpio_o_lock = 0x520;
  gpio_o_cr = 0x524;
  gpio_lock_key = 0x4c4f434b;
  peripheral_ready = λ p s. (true, s);
  call = λ c s. s;
  read_register = λ address s. (if s (pin_at address) then 1 else 0, s);
  write_register = λ address v s j. if pin_at address == j then not (v == 0) else s j;
}

-- The pin that an access through a mask reaches.
abbrev place : ℕ → ℕ
place mask = pin_at (add32 0x40025000 (add32 0 (u32 (mask * 4))))

decoded : (i mask : ℕ) → load port_f.port_pins i ≡ ok mask → place mask ≡ i
decoded zero mask e = ap place (sym (ok_inj 1 mask e))
decoded (suc zero) mask e = ap place (sym (ok_inj 2 mask e))
decoded (suc (suc zero)) mask e = ap place (sym (ok_inj 4 mask e))
decoded (suc (suc (suc zero))) mask e = ap place (sym (ok_inj 8 mask e))
decoded (suc (suc (suc (suc zero)))) mask e = ap place (sym (ok_inj 16 mask e))
decoded (suc (suc (suc (suc (suc zero))))) mask e = ap place (sym (ok_inj 32 mask e))
decoded (suc (suc (suc (suc (suc (suc zero)))))) mask e = ap place (sym (ok_inj 64 mask e))
decoded (suc (suc (suc (suc (suc (suc (suc zero))))))) mask e = ap place (sym (ok_inj 128 mask e))
decoded (suc (suc (suc (suc (suc (suc (suc (suc i)))))))) mask e = absurd (ground arith)

port_f-IsPort : IsPort port_f 0x40025000
port_f-IsPort = record {
  level = λ s i. s i;
  reads = λ s i mask e. rw (decoded i mask e) (high (s i));
  reading = λ s i mask j e. refl;
  writes = λ s i mask value e. rw (decoded i mask e, eq→== i i refl) (bit value);
  writing = λ s i mask j value e ne. rw (decoded i mask e, ne→== i j ne) refl;
}
  where
    high : (b : Bool) → not ((if b then 1 else 0) == 0) ≡ b
    high true = refl
    high false = refl

    bit : (b : Bool) → not ((if b then 0xFF else 0) == 0) ≡ b
    bit true = refl
    bit false = refl

led_set-led_get_example :
    Returns (led_set port_f 5 (λ i. true) >>= λ s'. led_get port_f s') (λ (got, _). got ≡ 5)
led_set-led_get_example =
    led_set-led_get port_f 0x40025000 port_f-IsPort 5 (λ i. true) refl refl refl refl (omega arith)

-- A clock that shows 0 and 1 in turn, by the level of pin 7.
abbrev clock : (ℕ → Bool) → ℕ × (ℕ → Bool)
clock s = (if s 7 then 1 else 0, λ j. if j == 7 then not (s 7) else s j)

clock-IsRunning : IsRunning clock 2 1 0
clock-IsRunning = record {
  last = λ s. if s 7 then 0 else 1;
  stalls = λ s. 0;
  stalls_most = λ s. omega arith;
  ticks = λ s. tick (s 7);
}
  where
    tick :
        (second : Bool)
        → Path ℕ (if not second then 0 else 1) (if second then 1 else 0)
          × (since 2 (if second then 0 else 1) (if second then 1 else 0) ≤ 1)
          × ((0 < since 2 (if second then 0 else 1) (if second then 1 else 0)) ⊎ (0 < 0))
    tick true = (refl, omega arith, inl (omega arith))
    tick false = (refl, omega arith, inl (omega arith))

port_f-IsLed : IsLed (led_set port_f) clock
unfolding led_get pin_read pin_base pin_mask pin_port pin_number
port_f-IsLed =
    board-IsLed port_f 0x40025000 port_f-IsPort clock refl refl refl refl (λ color s shown. shown)

led_errors-GoesOn_example :
    GoesOn
      (led_set port_f)
      clock
      2
      501
      port_f-IsLed
      clock-IsRunning
      (omega arith)
      (omega arith)
      (led_error_fatal (led_set port_f) clock 2 501)
      4
      3
      (λ i. true)
    × GoesOn
        (led_set port_f)
        clock
        2
        501
        port_f-IsLed
        clock-IsRunning
        (omega arith)
        (omega arith)
        (led_error_startup (led_set port_f) clock 2 501)
        1
        3
        (λ i. true)
led_errors-GoesOn_example =
    led_errors-GoesOn (led_set port_f) clock 2 501 port_f-IsLed clock-IsRunning (omega arith)
      (omega arith) 3 (λ i. true)
