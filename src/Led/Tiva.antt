-- ===== src/Led/Tiva.antt =====
-- nuhal_tiva/src/led_tiva.c: the LED of the board, whose three colours are pins of port F.
pub mod SetGet
mod Tests
use nuhal.Common.{
  ℕ, ◌==◌, not, if◌then◌else◌, bit_and, bit_or, u8, some, List, [], ◌∷◌, Outcome, ok, ◌>>=◌,
}
use nuhal.Led.{LedColor}
use nuhal.Pin.{pin}
use nuhal.Pin.Setup.{Tivaware, PinConfiguration, output, pin_setup, pin_write, pin_read}

-- `PIN_LED_RED`, `PIN_LED_GREEN` and `PIN_LED_BLUE`; 70 is 'F'.
abbrev pub pin_led_red : ℕ
pin_led_red = 0x50400

abbrev pub pin_led_green : ℕ
pin_led_green = 0x50c00

abbrev pub pin_led_blue : ℕ
pin_led_blue = 0x50800

abbrev pub led_pin_table : List PinConfiguration
led_pin_table =
    record { pin = pin_led_red; type = output }
    ∷ record { pin = pin_led_green; type = output }
    ∷ record { pin = pin_led_blue; type = output }
    ∷ []

module _ {S : Type 0} (tw : Tivaware S) where
  unfoldable pub led_setup : List ℕ → S → Outcome (List ℕ × S)
  led_setup assigned s = pin_setup tw (some led_pin_table) assigned s

  unfoldable pub led_set : LedColor → S → Outcome S
  led_set color s = do
    s ← pin_write tw pin_led_red (not (bit_and color 4 == 0)) s
    s ← pin_write tw pin_led_blue (not (bit_and color 1 == 0)) s
    pin_write tw pin_led_green (not (bit_and color 2 == 0)) s

  unfoldable pub led_get : S → Outcome (LedColor × S)
  led_get s = do
    (red, s) ← pin_read tw pin_led_red s
    (green, s) ← pin_read tw pin_led_green s
    (blue, s) ← pin_read tw pin_led_blue s
    let result = bit_or 0 (if red then 4 else 0)
    let result = bit_or result (if green then 2 else 0)
    ok (u8 (bit_or result (if blue then 1 else 0)), s)
