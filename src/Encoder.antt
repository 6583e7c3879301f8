-- ===== src/Encoder.antt =====
-- nuhal_all/src/encoder.c: from raw counts to signed ticks round a zero, and back.
pub mod Ticks
pub mod Zero
pub mod Serial
mod Tests
use nuhal.Common.{
  ℕ, zero, suc, ◌/◌, ◌%◌, ◌^◌, ◌||◌, none, some, ltb, ◌==◌, if◌then◌else◌, add32, sub32, ℤ, pos,
  negsuc, to_i32, of_i32,
}
use nuhal.Common.{
  Outcome, ok, err, undefined, ◌>>=◌, Ptr, require, null_ptr, out_of_range, unknown_orientation,
}
use nuhal.Floats.{FloatOps, two_f, pi_f, neg_pi_f}

-- `enum encoder_orientation`; `other` is a value of the enum's type that names no enumerator.
pub data Orientation : Type 0 where
  up_up up_down other : Orientation

-- `struct encoder`
pub record Encoder : Type 0 where
  pub ticks_per_rev : ℕ
  pub zero_angle_ticks : ℕ
  pub orientation : Orientation

-- `struct encoder_raw`
pub record EncoderRaw : Type 0 where
  pub multi : ℕ
  pub single : ℕ

-- `angle_full`, from 0 to ticks_per_rev.
unfoldable pub angle_full : Encoder → ℕ → ℕ
angle_full enc ticks =
    if ltb enc.zero_angle_ticks ticks
    then elim enc.orientation [
      | up_up ↦ sub32 ticks enc.zero_angle_ticks
      | _ ↦ sub32 enc.ticks_per_rev (sub32 ticks enc.zero_angle_ticks)
    ]
    else elim enc.orientation [
      | up_up ↦ sub32 enc.ticks_per_rev (sub32 enc.zero_angle_ticks ticks)
      | _ ↦ sub32 enc.zero_angle_ticks ticks
    ]

-- `-x` for an int32_t; there is no negative of the least one.
unfoldable pub neg_i32 : ℤ → Outcome ℤ
neg_i32 (pos zero) = ok (pos 0)
neg_i32 (pos (suc n)) = ok (negsuc n)
neg_i32 (negsuc n) = if suc n == 2 ^ 31 then undefined else ok (pos (suc n))

unfoldable pub encoder_ticks : Ptr Encoder → EncoderRaw → Outcome ℤ
unfolding angle_full neg_i32
encoder_ticks enc raw = do
  e ← require enc null_ptr
  let full = angle_full e raw.single
  let upper = to_i32 (e.ticks_per_rev / 2)
  if ltb full (of_i32 upper)
      then ok (to_i32 full)
      else neg_i32 (to_i32 (sub32 e.ticks_per_rev full))

-- `uticks`: the ticks counted upwards from 0.
unfoldable pub uticks : Encoder → ℤ → ℕ
uticks e (pos n) = of_i32 (pos n)
uticks e (negsuc n) = add32 (of_i32 (negsuc n)) e.ticks_per_rev

-- The raw count of the zero angle, for a count that stands `ticks` from it.
unfoldable pub zero_of_ticks : Encoder → ℕ → ℤ → Outcome ℕ
unfolding uticks
zero_of_ticks e single ticks = elim e.orientation [
  | up_up ↦ ok (
      if ltb (uticks e ticks) single
      then sub32 single (uticks e ticks)
      else sub32 (add32 e.ticks_per_rev single) (uticks e ticks))
  | up_down ↦
      if e.ticks_per_rev == 0
      then undefined
      else ok (add32 single (uticks e ticks) % e.ticks_per_rev)
  | other ↦ err unknown_orientation
]

module _ (F : FloatOps) where
  open F use {mul, div, less, less_equal, of_int, to_int}

  unfoldable pub encoder_radians : Ptr Encoder → ℤ → Outcome ℕ
  encoder_radians enc ticks = do
    e ← require enc null_ptr
    ok (div (mul (mul two_f pi_f) (of_int ticks)) (of_int (pos e.ticks_per_rev)))

  unfoldable pub encoder_zero_raw : Ptr Encoder → EncoderRaw → ℕ → Outcome ℕ
  unfolding zero_of_ticks
  encoder_zero_raw enc raw radians = do
    e ← require enc null_ptr
    if less_equal radians neg_pi_f || less pi_f radians
        then err out_of_range
        else elim (to_int (div (mul radians (of_int (pos e.ticks_per_rev))) (mul two_f pi_f))) [
          | none ↦ undefined
          | some ticks ↦ zero_of_ticks e raw.single ticks
        ]
