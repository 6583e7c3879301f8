-- ===== src/Pin/Setup.antt =====
-- nuhal_tiva/src/pin_tiva.c: the set-up of pins, and reading and writing them. TivaWare and the registers
-- are the vendor's: the constants of its headers, its calls and the registers come as a record, over a
-- state `S` of the hardware.
use nuhal.Common.{
  ℕ, zero, suc, ◌*◌, Bool, true, false, not, ◌&&◌, ◌||◌, List, [], ◌∷◌, leb, ◌==◌, if◌then◌else◌,
  bit_and, bit_or, u32, add32, set, Outcome, ok, err, ◌>>=◌, Ptr, require, load, null_ptr,
  invalid_port, invalid_pin, pin_assigned, jtag_pin, invalid_peripheral, not_enabled,
}
use nuhal.Pin.{pin_port, pin_number}

-- `enum pin_type`; the last constructor is any other value.
pub data PinType : Type 0 where
  uart output input input_pull_up can ssi qei pwm other_type : PinType

-- `struct pin_configuration`
pub record PinConfiguration : Type 0 where
  pub pin : ℕ
  pub type : PinType

-- The calls of TivaWare, with a pin or with a port's base address and a pin mask.
pub data Call : Type 0 where
  enable : ℕ → Call
  configure : ℕ → Call
  type_uart type_output type_input type_can type_ssi type_qei type_pwm : ℕ → ℕ → Call
  direction_in pull_up : ℕ → ℕ → Call

pub record Tivaware (S : Type 0) : Type 0 where
  pub port_bases : List ℕ
  pub sysctl_ports : List ℕ
  pub port_pins : List ℕ
  pub gpio_o_data : ℕ
  pub gpio_o_lock : ℕ
  pub gpio_o_cr : ℕ
  pub gpio_lock_key : ℕ
  pub peripheral_ready : ℕ → S → Bool × S
  pub call : Call → S → S
  pub read_register : ℕ → S → ℕ × S
  pub write_register : ℕ → ℕ → S → S

module _ {S : Type 0} (tw : Tivaware S) where
  -- The loop of `tiva_peripheral_enable` of nuhal_tiva/src/tiva.c, with `count` rounds left: `count`
  -- after it.
  unfoldable pub wait_ready : ℕ → ℕ → S → ℕ × S
  wait_ready zero peripheral s = let (_, s) = tw.peripheral_ready peripheral s in (0, s)
  wait_ready (suc count) peripheral s =
      let (ready, s) = tw.peripheral_ready peripheral s in
      elim ready [ true ↦ (suc count, s) | false ↦ wait_ready count peripheral s ]

  -- `tiva_peripheral_enable`
  unfoldable pub peripheral_enable : ℕ → S → Outcome S
  peripheral_enable peripheral s = do
    let (ready, s) = tw.peripheral_ready peripheral s
    if ready then ok s else do
      let (count, s) = wait_ready 100 peripheral (tw.call (enable peripheral) s)
      if 0 == count then err not_enabled else ok s

  unfoldable pub pin_base : ℕ → Outcome ℕ
  pin_base pin = load tw.port_bases (pin_port pin)

  unfoldable pub pin_mask : ℕ → Outcome ℕ
  pin_mask pin = load tw.port_pins (pin_number pin)

  -- The `switch` of `pin_configure`.
  unfoldable pub set_type : ℕ → ℕ → ℕ → PinType → S → Outcome S
  set_type pin base mask uart s = ok (tw.call (type_uart base mask) (tw.call (configure pin) s))
  set_type pin base mask output s = ok (tw.call (type_output base mask) s)
  set_type pin base mask input s =
      ok (tw.call (direction_in base mask) (tw.call (type_input base mask) s))
  set_type pin base mask input_pull_up s = ok (
      tw.call (pull_up base mask)
        (tw.call (direction_in base mask) (tw.call (type_input base mask) s)))
  set_type pin base mask can s = ok (tw.call (type_can base mask) (tw.call (configure pin) s))
  set_type pin base mask ssi s = ok (tw.call (type_ssi base mask) (tw.call (configure pin) s))
  set_type pin base mask qei s = ok (tw.call (type_qei base mask) (tw.call (configure pin) s))
  set_type pin base mask pwm s = ok (tw.call (type_pwm base mask) (tw.call (configure pin) s))
  set_type pin base mask other_type s = err invalid_peripheral

  -- The unlocking of the two pins that are locked as non-maskable interrupts.
  unfoldable pub unlock : ℕ → ℕ → ℕ → ℕ → S → S
  unlock port number base mask s =
      if port == 3 && number == 7 || port == 5 && number == 0
      then (let s = tw.write_register (add32 base tw.gpio_o_lock) tw.gpio_lock_key s in
          let (cr, s) = tw.read_register (add32 base tw.gpio_o_cr) s in
          tw.write_register (add32 base tw.gpio_o_cr) (bit_or cr mask) s)
      else s

  -- `pin_configure`, with the static table of the pins that are assigned, and the hardware.
  unfoldable pub pin_configure : ℕ → PinType → List ℕ → S → Outcome (List ℕ × S)
  pin_configure pin type assigned s = do
    let port = pin_port pin
    let number = pin_number pin
    if leb 6 port then err invalid_port else if leb 8 number then err invalid_pin else do
      base ← pin_base pin
      mask ← pin_mask pin
      a ← load assigned port
      if not (0 == bit_and a mask) then err pin_assigned else do
        sysctl ← load tw.sysctl_ports port
        s ← peripheral_enable sysctl s
        if port == 2 && leb number 3 then err jtag_pin else do
          s ← set_type pin base mask type (unlock port number base mask s)
          ok (set assigned port (bit_or a mask), s)

  -- The loop of `pin_setup`.
  unfoldable pub configure_each : List PinConfiguration → List ℕ → S → Outcome (List ℕ × S)
  configure_each [] assigned s = ok (assigned, s)
  configure_each (c ∷ table) assigned s = do
    (assigned, s) ← pin_configure c.pin c.type assigned s
    configure_each table assigned s

  -- `pin_setup`, of a table of exactly `length` entries.
  unfoldable pub pin_setup : Ptr (List PinConfiguration) → List ℕ → S → Outcome (List ℕ × S)
  pin_setup table assigned s = do t ← require table null_ptr; configure_each t assigned s

  unfoldable pub pin_write : ℕ → Bool → S → Outcome S
  pin_write pin value s = do
    base ← pin_base pin
    mask ← pin_mask pin
    ok (
        tw.write_register (add32 base (add32 tw.gpio_o_data (u32 (mask * 4))))
          (if value then 0xFF else 0) s)

  unfoldable pub pin_read : ℕ → S → Outcome (Bool × S)
  pin_read pin s = do
    base ← pin_base pin
    mask ← pin_mask pin
    let (v, s) = tw.read_register (add32 base (add32 tw.gpio_o_data (u32 (mask * 4)))) s
    ok (not (v == 0), s)

  unfoldable pub pin_invert : ℕ → S → Outcome S
  pin_invert pin s = do (value, s) ← pin_read pin s; pin_write pin (not value) s
