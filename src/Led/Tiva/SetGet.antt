-- ===== src/Led/Tiva/SetGet.antt =====
-- What led_set of nuhal_tiva/src/led_tiva.c shows, led_get reads back.
use nuhal.Common.{
  ℕ, zero, suc, ◌*◌, ◌≤◌, ◌≡◌, ◌≢◌, refl, ◌∙◌, arith, Bool, not, ◌==◌, if◌then◌else◌, bit_and,
  bit_or, u8, u32, add32, ok, load, Returns, Returns-ok, Returns-split, ◌>>=◌,
}
use nuhal.Pin.{pin_port, pin_number}
use nuhal.Pin.Setup.{Tivaware, pin_base, pin_mask, pin_write, pin_read}
use nuhal.Led.{LedColor}
use nuhal.Led.Signals.{IsLed}
use nuhal.Led.Tiva.{pin_led_red, pin_led_green, pin_led_blue, led_set, led_get}

-- The register of a port through which the bits of a mask, and these only, are read and written.
abbrev data_of : {S : Type 0} → Tivaware S → ℕ → ℕ → ℕ
data_of tw base mask = add32 base (add32 tw.gpio_o_data (u32 (mask * 4)))

-- The data register as the data sheet has it; `level s i` is whether the port's pin `i` is high.
pub record IsPort {S : Type 0} (tw : Tivaware S) (base : ℕ) : Type 0 where
  pub level : S → ℕ → Bool
  pub reads :
      (s : S) (i mask : ℕ)
      → load tw.port_pins i ≡ ok mask
      → not ((tw.read_register (data_of tw base mask) s).0 == 0) ≡ level s i
  pub reading :
      (s : S) (i mask j : ℕ)
      → load tw.port_pins i ≡ ok mask
      → level (tw.read_register (data_of tw base mask) s).1 j ≡ level s j
  pub writes :
      (s : S) (i mask : ℕ) (value : Bool)
      → load tw.port_pins i ≡ ok mask
      → level (tw.write_register (data_of tw base mask) (if value then 0xFF else 0) s) i ≡ value
  pub writing :
      (s : S) (i mask j : ℕ) (value : Bool)
      → load tw.port_pins i ≡ ok mask
      → i ≢ j
      → level (tw.write_register (data_of tw base mask) (if value then 0xFF else 0) s) j ≡ level s j

-- The bits of a colour, put together again.
bits_of_color :
    (color : LedColor)
    → color ≤ 7
    → u8 (
        bit_or
          (bit_or
            (bit_or 0 (if not (bit_and color 4 == 0) then 4 else 0))
            (if not (bit_and color 2 == 0) then 2 else 0))
          (if not (bit_and color 1 == 0) then 1 else 0))
      ≡ color
bits_of_color zero h = refl
bits_of_color (suc zero) h = refl
bits_of_color (suc (suc zero)) h = refl
bits_of_color (suc (suc (suc zero))) h = refl
bits_of_color (suc (suc (suc (suc zero)))) h = refl
bits_of_color (suc (suc (suc (suc (suc zero))))) h = refl
bits_of_color (suc (suc (suc (suc (suc (suc zero)))))) h = refl
bits_of_color (suc (suc (suc (suc (suc (suc (suc zero))))))) h = refl
bits_of_color (suc (suc (suc (suc (suc (suc (suc (suc c)))))))) h = absurd (omega arith)

module _ {S : Type 0} (tw : Tivaware S) (base : ℕ) (port : IsPort tw base) where
  -- The level of one pin, written and read through its mask.
  pin_write-sets :
      (p i mask : ℕ) (value : Bool) (s : S)
      → pin_base tw p ≡ ok base
      → pin_mask tw p ≡ ok mask
      → load tw.port_pins i ≡ ok mask
      → Returns
          (pin_write tw p value s)
          (λ s'. (port.level s' i ≡ value) × ((j : ℕ) → i ≢ j → port.level s' j ≡ port.level s j))
  unfolding pin_write
  pin_write-sets p i mask value s eb em e =
      rw (eb, em) (port.writes s i mask value e, λ j ne. port.writing s i mask j value e ne)

  pin_read-gets :
      (p i mask : ℕ) (s : S)
      → pin_base tw p ≡ ok base
      → pin_mask tw p ≡ ok mask
      → load tw.port_pins i ≡ ok mask
      → Returns
          (pin_read tw p s)
          (λ (value, s'). (value ≡ port.level s i) × ((j : ℕ) → port.level s' j ≡ port.level s j))
  unfolding pin_read
  pin_read-gets p i mask s eb em e =
      rw (eb, em) (port.reads s i mask e, λ j. port.reading s i mask j e)

  -- On the board, where the data registers of port F behave as the data sheet says and the masks
  -- of the pins 1, 2 and 3 are 2, 4 and 8, setting the LED to any of the eight colours and reading
  -- it gives the colour back.
  pub led_set-led_get :
      (color : LedColor) (s : S)
      → load tw.port_bases 5 ≡ ok base
      → load tw.port_pins 1 ≡ ok 2
      → load tw.port_pins 2 ≡ ok 4
      → load tw.port_pins 3 ≡ ok 8
      → color ≤ 7
      → Returns (led_set tw color s >>= λ s'. led_get tw s') (λ (got, _). got ≡ color)
  unfolding led_set led_get pin_base pin_mask pin_port pin_number
  led_set-led_get color s eb e1 e2 e3 h =
      let (s1, w1, (red, keep1)) =
        Returns-ok (pin_write tw pin_led_red (not (bit_and color 4 == 0)) s) _
          (pin_write-sets pin_led_red 1 2 (not (bit_and color 4 == 0)) s eb e1 e1) in
      let (s2, w2, (blue, keep2)) =
        Returns-ok (pin_write tw pin_led_blue (not (bit_and color 1 == 0)) s1) _
          (pin_write-sets pin_led_blue 2 4 (not (bit_and color 1 == 0)) s1 eb e2 e2) in
      let (s3, w3, (green, keep3)) =
        Returns-ok (pin_write tw pin_led_green (not (bit_and color 2 == 0)) s2) _
          (pin_write-sets pin_led_green 3 8 (not (bit_and color 2 == 0)) s2 eb e3 e3) in
      let ((r, s4), r1, (is_red, kept4)) =
        Returns-ok (pin_read tw pin_led_red s3) _ (pin_read-gets pin_led_red 1 2 s3 eb e1 e1) in
      let ((g, s5), r2, (is_green, kept5)) =
        Returns-ok (pin_read tw pin_led_green s4) _ (pin_read-gets pin_led_green 3 8 s4 eb e3 e3) in
      let ((b, s6), r3, (is_blue, kept6)) =
        Returns-ok (pin_read tw pin_led_blue s5) _ (pin_read-gets pin_led_blue 2 4 s5 eb e2 e2) in
      rw
        (
          w1,
          w2,
          w3,
          r1,
          r2,
          r3,
          is_red ∙ (keep3 1 (omega arith) ∙ (keep2 1 (omega arith) ∙ red)),
          is_green ∙ (kept4 3 ∙ green),
          is_blue ∙ (kept5 2 ∙ (kept4 2 ∙ (keep3 2 (omega arith) ∙ blue))),
        )
        (bits_of_color color h)

  -- The board's LED shows a colour where `led_get` gives it: it works under the signals of led.c.
  pub board-IsLed :
      (clock : S → ℕ × S)
      → load tw.port_bases 5 ≡ ok base
      → load tw.port_pins 1 ≡ ok 2
      → load tw.port_pins 2 ≡ ok 4
      → load tw.port_pins 3 ≡ ok 8
      → ((color : LedColor) (s : S)
          → Returns (led_get tw s) (λ (got, _). got ≡ color)
          → Returns (led_get tw (clock s).1) (λ (got, _). got ≡ color))
      → IsLed (led_set tw) clock
  board-IsLed clock eb e1 e2 e3 keeps = record {
    shows = λ color s. Returns (led_get tw s) (λ (got, _). got ≡ color);
    sets = λ color s known.
        Returns-split (led_set tw color s) (led_get tw) (λ (got, _). got ≡ color)
          (led_set-led_get color s eb e1 e2 e3 known);
    keeps = keeps;
  }
