-- ===== src/Led.antt =====
-- nuhal_all/src/led.c: colours in a stream; and nuhal_linux/src/led_host.c, the LED of the host.
pub mod Stream
pub mod Host
pub mod Tiva
pub mod Signals
mod Tests
use nuhal.Common.{
  ℕ, some, List, [], ◌∷◌, ltb, if◌then◌else◌, u8, Outcome, ok, err, ◌>>=◌, Ptr, require, null_ptr,
  invalid_color, unknown_color,
}
use nuhal.Bytestream.{Bytestream, inject_u8, extract_u8}

-- `enum led_color`, whose variables hold any unsigned value; the enumerators are the first eight.
abbrev pub LedColor : Type 0
LedColor = ℕ

abbrev pub led_color_black : LedColor
led_color_black = 0

abbrev pub led_color_red : LedColor
led_color_red = 4

abbrev pub led_color_blue : LedColor
led_color_blue = 1

abbrev pub led_color_white : LedColor
led_color_white = 7

unfoldable pub led_color_inject : Ptr Bytestream → LedColor → Outcome Bytestream
led_color_inject bs color = do
  b ← require bs null_ptr
  if ltb 7 color then err invalid_color else inject_u8 (some b) (u8 color)

unfoldable pub led_color_extract : Ptr Bytestream → Outcome (LedColor × Bytestream)
led_color_extract bs = do
  b ← require bs null_ptr
  (color, b) ← extract_u8 (some b)
  if ltb 7 color then err invalid_color else ok (color, b)

-- The host's LED: its colour, and the colours whose names were printed, the last one first.
pub record LedHost : Type 0 where
  pub color : LedColor
  pub printed : List LedColor

abbrev pub led_host_start : LedHost
led_host_start = record { color = led_color_black; printed = [] }

unfoldable pub led_set : LedHost → LedColor → Outcome LedHost
led_set led new_color =
    if ltb 7 new_color
    then err unknown_color
    else ok (record { color = new_color; printed = new_color ∷ led.printed })

abbrev pub led_get : LedHost → LedColor
led_get led = led.color

-- `led_set` of each colour in turn.
unfoldable pub set_each : LedHost → List LedColor → Outcome LedHost
set_each led [] = ok led
set_each led (c ∷ colors) = do led' ← led_set led c; set_each led' colors
