-- ===== src/Encoder/Zero.antt =====
-- `encoder_zero_raw` as a calibration for `encoder_ticks`.
use nuhal.Common.{
  ℕ, suc, ◌+◌, ◌-◌, ◌≤◌, ◌<◌, ◌≡◌, ◌≢◌, false, arith, some, ℤ, pos, negsuc, ok, Returns,
}
use nuhal.Floats.{FloatOps, two_f, pi_f, neg_pi_f}
use nuhal.Common.Modular.{mod_once}
use nuhal.Encoder.{
  up_up, other, Encoder, EncoderRaw, encoder_ticks, zero_of_ticks, encoder_zero_raw,
}
use nuhal.Encoder.Ticks.{IsValid, InRange, offset}

-- At the zero that is computed for `z` ticks, the ticks are `z` again.
pub zero_of_ticks-ticks :
    (e : Encoder) (raw : EncoderRaw) (z : ℤ)
    → IsValid e
    → raw.single < e.ticks_per_rev
    → InRange e.ticks_per_rev z
    → e.orientation ≢ other
    → Returns (zero_of_ticks e raw.single z) (λ at.
      (at ≤ e.ticks_per_rev)
      × (encoder_ticks (some (record e { zero_angle_ticks = at })) raw ≡ ok z))
unfolding zero_of_ticks encoder_ticks
zero_of_ticks-ticks e raw (pos k) v h r o =
    ground (arith, v.counts, v.fits, mod_once (raw.single + k) e.ticks_per_rev)
zero_of_ticks-ticks e raw (negsuc k) v h r o =
    ground
      (arith, v.counts, v.fits, mod_once (raw.single + (e.ticks_per_rev - suc k)) e.ticks_per_rev)

-- Where the angle stands exactly at the count, the zero of a valid encoder that counts upwards
-- comes out as ticks_per_rev and not as 0.
pub zero_of_ticks-full_turn :
    (e : Encoder) (raw : EncoderRaw) (z : ℤ)
    → IsValid e
    → InRange e.ticks_per_rev z
    → e.orientation ≡ up_up
    → offset e.ticks_per_rev z ≡ raw.single
    → zero_of_ticks e raw.single z ≡ ok e.ticks_per_rev
unfolding zero_of_ticks
zero_of_ticks-full_turn e raw (pos k) v r o h = ground (arith, v.counts, v.fits)
zero_of_ticks-full_turn e raw (negsuc k) v r o h = ground (arith, v.counts, v.fits)

-- For a valid encoder of known orientation and a count of it, if the radians are in range and
-- convert to z ticks within half a revolution, then encoder_zero_raw returns a zero of at most
-- ticks_per_rev against which encoder_ticks reads the count as z ticks.
pub encoder_zero_raw-ticks :
    (F : FloatOps) (e : Encoder) (raw : EncoderRaw) (radians : ℕ) (z : ℤ)
    → IsValid e
    → raw.single < e.ticks_per_rev
    → e.orientation ≢ other
    → F.less_equal radians neg_pi_f ≡ false
    → F.less pi_f radians ≡ false
    → F.to_int (F.div (F.mul radians (F.of_int (pos e.ticks_per_rev))) (F.mul two_f pi_f)) ≡ some z
    → InRange e.ticks_per_rev z
    → Returns (encoder_zero_raw F (some e) raw radians) (λ at.
      (at ≤ e.ticks_per_rev)
      × (encoder_ticks (some (record e { zero_angle_ticks = at })) raw ≡ ok z))
unfolding encoder_zero_raw
encoder_zero_raw-ticks F e raw radians z v h o lo hi c r =
    rw (lo, hi, c) (zero_of_ticks-ticks e raw z v h r o)
