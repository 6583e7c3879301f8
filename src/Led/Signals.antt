-- ===== src/Led/Signals.antt =====
-- The error signals of nuhal_all/src/led.c, over the LED of a platform and its clock. The loops never
-- end: what stands for one is the state after so many rounds of it.
use nuhal.Common.{
  ℕ, zero, suc, ◌+◌, ◌*◌, ◌^◌, ◌≤◌, ◌<◌, ◌≡◌, refl, arith, Outcome, ok, ◌>>=◌, Returns, Returns-ok,
}
use nuhal.Time.Running.{IsRunning, delay, delay-Returns}
use nuhal.Led.{LedColor, led_color_white, led_color_red, led_color_blue}

-- A LED that works: `shows color s` is that it has a colour in a state.
pub record IsLed {S : Type 0} (set : LedColor → S → Outcome S) (clock : S → ℕ × S) : Type 1 where
  pub shows : LedColor → S → Type 0
  pub sets : (color : LedColor) (s : S) → color ≤ 7 → Returns (set color s) (shows color)
  pub keeps : (color : LedColor) (s : S) → shows color s → shows color (clock s).1

module _ {S : Type 0} (set : LedColor → S → Outcome S) (clock : S → ℕ × S) (period fuel : ℕ) where
  unfoldable pub led_error_basic : S → Outcome S
  led_error_basic s = set led_color_white s

  -- `led_set(color); time_delay_ms(500);`
  unfoldable pub blink : LedColor → S → Outcome S
  blink color s = do s ← set color s; delay clock period fuel 500 s

  -- `led_error_fatal`
  unfoldable pub led_error_fatal : ℕ → S → Outcome S
  led_error_fatal zero s = ok s
  led_error_fatal (suc rounds) s = do
    s ← blink led_color_white s
    s ← blink led_color_red s
    led_error_fatal rounds s

  -- `led_error_startup`
  unfoldable pub led_error_startup : ℕ → S → Outcome S
  led_error_startup zero s = ok s
  led_error_startup (suc rounds) s = do
    s ← blink led_color_white s
    s ← blink led_color_blue s
    led_error_startup rounds s

  module _ (led : IsLed set clock) {slow most : ℕ} (running : IsRunning clock period slow most)
      (short : 500 + slow < 2 ^ 32) (enough : 500 * (most + 1) + most < fuel) where
    blink-shows : (color : LedColor) (s : S) → color ≤ 7 → Returns (blink color s) (led.shows color)
    unfolding blink
    blink-shows color s known =
        let (s1, e, shown) = Returns-ok (set color s) (led.shows color) (led.sets color s known) in
        rw e (
          delay-Returns clock period running (led.shows color) (led.keeps color) fuel 500 s1 shown
            short enough)

    -- After so many rounds of the loop, the next one is white through a delay, and then `second`.
    abbrev pub GoesOn : (ℕ → S → Outcome S) → LedColor → ℕ → S → Type 0
    GoesOn loop second rounds s = Returns (loop rounds s) λ s1.
        Returns (blink led_color_white s1) λ s2.
          led.shows led_color_white s2
          × Returns (blink second s2) λ s3. led.shows second s3 × (loop (suc rounds) s ≡ ok s3)

    -- One round.
    round_shows :
        (second : LedColor) (s : S)
        → second ≤ 7
        → (s1 : S) × (s2 : S) × (blink led_color_white s ≡ ok s1)
          × led.shows led_color_white s1
          × (blink second s1 ≡ ok s2)
          × led.shows second s2
    round_shows second s known =
        let (s1, e1, white) =
          Returns-ok (blink led_color_white s) _ (blink-shows led_color_white s (omega arith)) in
        let (s2, e2, other) = Returns-ok (blink second s1) _ (blink-shows second s1 known) in
        (s1, s2, e1, white, e2, other)

    loop-GoesOn :
        (loop : ℕ → S → Outcome S) (second : LedColor) (rounds : ℕ) (s : S)
        → second ≤ 7
        → ((s : S) → loop 0 s ≡ ok s)
        → ((n : ℕ) (s : S)
            → loop (suc n) s ≡ (blink led_color_white s >>= λ s. blink second s >>= λ s. loop n s))
        → GoesOn loop second rounds s
    loop-GoesOn loop second zero s known start next =
        let (s1, s2, e1, white, e2, other) = round_shows second s known in
        rw (start s, next 0 s, e1, e2) (white, (other, start s2))
    loop-GoesOn loop second (suc n) s known start next =
        let (s1, s2, e1, white, e2, other) = round_shows second s known in
        rw (next (suc n) s, next n s, e1, e2) (loop-GoesOn loop second n s2 known start next)

    -- Over an LED that shows each of the eight colours that it is set to until it is set again,
    -- and a clock that runs, with less than 2^32 ms for 500 ms and the longest round, and more
    -- rounds for a delay than 500 ms may need: any number of rounds of the loop of
    -- led_error_fatal, and of that of led_error_startup, is gone through without an error, and one
    -- more round is to set the LED to white, which it shows after the delay, and then to red, or
    -- to blue for led_error_startup, which it shows after the second delay.
    pub led_errors-GoesOn :
        (rounds : ℕ) (s : S)
        → GoesOn led_error_fatal led_color_red rounds s
          × GoesOn led_error_startup led_color_blue rounds s
    unfolding led_error_fatal led_error_startup
    led_errors-GoesOn rounds s = (
      loop-GoesOn led_error_fatal led_color_red rounds s (omega arith) (λ s. refl) (λ n s. refl),
      loop-GoesOn led_error_startup led_color_blue rounds s (omega arith) (λ s. refl) (λ n s. refl),
    )
