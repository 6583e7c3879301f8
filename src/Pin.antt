-- ===== src/Pin.antt =====
-- nuhal_tiva/src/pin_tiva.c and nuhal_tiva/include/nuhal/pin_tiva.h: how a pin is packed into a number.
pub mod Setup
pub mod Distinct
mod Tests
use nuhal.Common.{
  zero, suc, refl, ℕ, ◌+◌, ◌-◌, ◌*◌, ◌/◌, ◌^◌, ◌≤◌, ◌<◌, ◌≡◌, arith, bit_and, bit_or, u8, u32,
}
use nuhal.Common.Bits.{bit_and-low, bit_or-add, bit_or_digit}

-- `PIN(port, number)`, the port being a character from 'A' on.
unfoldable pub pin : ℕ → ℕ → ℕ
pin port number = u32 (bit_or ((port - 65) * 2 ^ 16) (number * 4 * 2 ^ 8))

unfoldable pub pin_port : ℕ → ℕ
pin_port p = u8 (bit_and (p / 2 ^ 16) 0xff)

unfoldable pub pin_number : ℕ → ℕ
pin_number p = u8 (bit_and (p / 2 ^ 8) 0xff / 4)

or_comm : (n a b : ℕ) → a ≤ n → b ≤ n → bit_or a b ≡ bit_or b a
or_comm zero zero zero h k = refl
or_comm zero zero (suc b) h k = absurd (omega arith)
or_comm zero (suc a) b h k = absurd (omega arith)
or_comm (suc n) a b h k = ground (
  arith,
  bit_or_digit a b,
  bit_or_digit b a,
  or_comm n (a / 2) (b / 2) (omega arith) (omega arith),
)

-- A pin of the six ports and eight numbers is unpacked into what it was packed from.
pin_port-pin_number :
    (port number : ℕ)
    → 65 ≤ port
    → port < 65 + 6
    → number < 8
    → (pin_port (pin port number) ≡ port - 65) × (pin_number (pin port number) ≡ number)
unfolding pin pin_port pin_number
pin_port-pin_number port number lo hi small = ground (
  arith,
  or_comm ((port - 65) * 2 ^ 16 + number * 4 * 2 ^ 8) ((port - 65) * 2 ^ 16) (number * 4 * 2 ^ 8)
      (omega arith) (omega arith),
  bit_or-add 16 (number * 4 * 2 ^ 8) (port - 65),
  bit_and-low 8 (port - 65),
  bit_and-low 8 (((port - 65) * 2 ^ 16 + number * 4 * 2 ^ 8) / 2 ^ 8),
)
