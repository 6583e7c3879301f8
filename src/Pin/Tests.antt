-- ===== src/Pin/Tests.antt =====
-- Tables of pins on a board with TivaWare's constants, whose calls are noted.
use nuhal.Common.{
  ℕ, ◌≡◌, ◌≢◌, refl, arith, true, some, List, [], ◌∷◌, ok, err, pin_assigned, jtag_pin, load,
}
use nuhal.Pin.{pin, pin_port, pin_number}
use nuhal.Pin.Setup.{
  Tivaware, PinConfiguration, output, Call, type_output, pin_base, pin_mask, set_type, unlock,
  pin_configure, configure_each, pin_setup, peripheral_enable,
}
use nuhal.Pin.Distinct.{Distinct, pin_setup-Distinct}

-- The last call first.
abbrev pub board : Tivaware (List Call)
board = record {
  port_bases = 0x40004000 ∷ 0x40005000 ∷ 0x40006000 ∷ 0x40007000 ∷ 0x40024000 ∷ 0x40025000 ∷ [];
  sysctl_ports = 0xf0000800 ∷ 0xf0000801 ∷ 0xf0000802 ∷ 0xf0000803 ∷ 0xf0000804 ∷ 0xf0000805 ∷ [];
  port_pins = 1 ∷ 2 ∷ 4 ∷ 8 ∷ 16 ∷ 32 ∷ 64 ∷ 128 ∷ [];
  gpio_o_data = 0;
  gpio_o_lock = 0x520;
  gpio_o_cr = 0x524;
  gpio_lock_key = 0x4c4f434b;
  peripheral_ready = λ p calls. (true, calls);
  call = λ c calls. c ∷ calls;
  read_register = λ address calls. (0, calls);
  write_register = λ address v calls. calls;
}

abbrev entry : ℕ → ℕ → PinConfiguration
entry port number = record { pin = pin port number; type = output }

abbrev none_assigned : List ℕ
none_assigned = 0 ∷ 0 ∷ 0 ∷ 0 ∷ 0 ∷ 0 ∷ []

-- 'F' is 70 and 'C' is 67.
leds :
    pin_setup board (some (entry 70 1 ∷ entry 70 3 ∷ entry 70 2 ∷ [])) none_assigned []
    ≡ ok (
      0 ∷ 0 ∷ 0 ∷ 0 ∷ 0 ∷ 14 ∷ [],
      type_output 0x40025000 4 ∷ type_output 0x40025000 8 ∷ type_output 0x40025000 2 ∷ [],
    )
unfolding pin_setup configure_each pin_configure pin_base pin_mask peripheral_enable set_type unlock
    pin pin_port pin_number
leds = refl

twice : pin_setup board (some (entry 70 1 ∷ entry 70 1 ∷ [])) none_assigned [] ≡ err pin_assigned
unfolding pin_setup configure_each pin_configure pin_base pin_mask peripheral_enable set_type unlock
    pin pin_port pin_number
twice = refl

jtag : pin_setup board (some (entry 67 0 ∷ [])) none_assigned [] ≡ err jtag_pin
unfolding pin_setup configure_each pin_configure pin_base pin_mask peripheral_enable set_type unlock
    pin pin_port pin_number
jtag = refl

masks : (i mask : ℕ) → load board.port_pins i ≡ ok mask → mask ≢ 0
masks i mask h e = ground arith

pin_setup-Distinct_example : Distinct board (entry 70 1 ∷ entry 70 3 ∷ entry 70 2 ∷ [])
pin_setup-Distinct_example =
    pin_setup-Distinct board (entry 70 1 ∷ entry 70 3 ∷ entry 70 2 ∷ []) none_assigned
      (0 ∷ 0 ∷ 0 ∷ 0 ∷ 0 ∷ 14 ∷ []) []
      (type_output 0x40025000 4 ∷ type_output 0x40025000 8 ∷ type_output 0x40025000 2 ∷ []) masks
      leds
