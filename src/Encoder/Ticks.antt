-- ===== src/Encoder/Ticks.antt =====
-- `encoder_ticks` as a signed distance from the zero angle.
use nuhal.Common.{
  ℕ, suc, ◌+◌, ◌-◌, ◌/◌, ◌^◌, ◌≤◌, ◌<◌, ◌≡◌, ◌⊎◌, arith, some, ℤ, pos, negsuc, Returns,
}
use nuhal.Encoder.{Orientation, up_up, Encoder, EncoderRaw, encoder_ticks}

-- An encoder whose counts fit an int32_t, with a zero angle among them.
pub record IsValid (e : Encoder) : Type 0 where
  pub counts : 2 ≤ e.ticks_per_rev
  pub fits : e.ticks_per_rev < 2 ^ 31
  pub zero_in : e.zero_angle_ticks ≤ e.ticks_per_rev

-- From -ceil(n/2) up to, and not with, floor(n/2).
abbrev pub InRange : ℕ → ℤ → Type 0
InRange n (pos k) = k < n / 2
InRange n (negsuc k) = suc k ≤ n - n / 2

-- A signed distance as a count upwards.
abbrev pub offset : ℕ → ℤ → ℕ
offset n (pos k) = k
offset n (negsuc k) = n - suc k

-- Two counts that differ by whole revolutions.
abbrev pub SameAngle : ℕ → ℕ → ℕ → Type 0
SameAngle n a b = (a ≡ b) ⊎ (a ≡ b + n) ⊎ (b ≡ a + n) ⊎ (a ≡ b + n + n)

-- Going by `z` from the zero angle ends at the count `s`: upwards where counts go with the angle,
-- downwards where they go against it.
abbrev pub Stands : Orientation → ℕ → ℕ → ℕ → ℤ → Type 0
Stands up_up n zero_at s z = SameAngle n (zero_at + offset n z) s
Stands _ n zero_at s z = SameAngle n (s + offset n z) zero_at

-- For a valid encoder and a count of it, encoder_ticks returns a value from -ceil(n/2) to
-- floor(n/2) - 1, and it is the way from the zero angle to the count, in the direction of the
-- orientation.
pub encoder_ticks_lem :
    (e : Encoder) (raw : EncoderRaw)
    → IsValid e
    → raw.single < e.ticks_per_rev
    → Returns (encoder_ticks (some e) raw) (λ z.
      InRange e.ticks_per_rev z
      × Stands e.orientation e.ticks_per_rev e.zero_angle_ticks raw.single z)
unfolding encoder_ticks
encoder_ticks_lem e raw v h = ground (arith, v.counts, v.fits, v.zero_in)
