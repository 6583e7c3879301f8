-- ===== src/Encoder/Tests.antt =====
-- The encoder theorems at an encoder of 100 counts.
use nuhal.Common.{
  ℕ, ◌≤◌, ◌≡◌, ◌≢◌, refl, arith, false, some, List, [], ◌∷◌, pos, negsuc, ok, Returns,
}
use nuhal.Floats.{FloatOps}
use nuhal.Bytestream.{Bytestream}
use nuhal.Bytestream.Codec.{IsValid}
use nuhal.Encoder.{up_up, up_down, other, Encoder, EncoderRaw, encoder_ticks, encoder_zero_raw}
use nuhal.Encoder.Ticks
use nuhal.Encoder.Ticks.{InRange, Stands, encoder_ticks_lem}
use nuhal.Encoder.Zero.{encoder_zero_raw-ticks}
use nuhal.Encoder.Serial.{EncoderJoints, EncoderGimbal}

abbrev upwards : Encoder
upwards = record { ticks_per_rev = 100; zero_angle_ticks = 90; orientation = up_up }

abbrev downwards : Encoder
downwards = record { ticks_per_rev = 100; zero_angle_ticks = 10; orientation = up_down }

abbrev at_five : EncoderRaw
at_five = record { multi = 0; single = 5 }

upwards-IsValid : Ticks.IsValid upwards
upwards-IsValid = record { counts = omega arith; fits = omega arith; zero_in = omega arith }

downwards-IsValid : Ticks.IsValid downwards
downwards-IsValid = record { counts = omega arith; fits = omega arith; zero_in = omega arith }

-- 15 counts past the zero angle at 90.
encoder_ticks_lem_example :
    Returns (encoder_ticks (some upwards) at_five) (λ z. InRange 100 z × Stands up_up 100 90 5 z)
encoder_ticks_lem_example = encoder_ticks_lem upwards at_five upwards-IsValid (omega arith)

-- Arithmetic that converts every angle to -3 ticks.
abbrev toy : FloatOps
toy = record {
  add = λ a b. a;
  sub = λ a b. a;
  mul = λ a b. a;
  div = λ a b. a;
  fmod = λ a b. a;
  less = λ a b. false;
  less_equal = λ a b. false;
  of_int = λ z. 0;
  to_int = λ a. some (negsuc 2);
}

up_down-known : up_down ≢ other
up_down-known e = ground arith

encoder_zero_raw-ticks_example : Returns (encoder_zero_raw toy (some downwards) at_five 7) (λ at.
    (at ≤ 100)
    × (encoder_ticks (some (record downwards { zero_angle_ticks = at })) at_five ≡ ok (negsuc 2)))
encoder_zero_raw-ticks_example =
    encoder_zero_raw-ticks toy downwards at_five 7 (negsuc 2) downwards-IsValid (omega arith)
      up_down-known refl refl refl (omega arith)

abbrev zeros : List ℕ
zeros = 0 ∷ 0 ∷ 0 ∷ 0 ∷ 0 ∷ 0 ∷ 0 ∷ 0 ∷ 0 ∷ 0 ∷ 0 ∷ 0 ∷ 0 ∷ 0 ∷ 0 ∷ 0 ∷ 0 ∷ 0 ∷ 0 ∷ []

-- A buffer of 17 bytes, 2 bytes into an object, one byte of it taken.
abbrev stream : Bytestream
stream = record { memory = zeros; data_ptr = some 2; capacity = 17; size = 1 }

stream-IsValid : IsValid 2 stream
stream-IsValid = record {
  base = refl;
  room = omega arith;
  within = omega arith;
  small = omega arith;
}

abbrev joints : EncoderJoints
joints = record {
  before_ticks = negsuc 4;
  before_radians = 0x3f800000;
  after_ticks = pos 9;
  after_radians = 0;
}

abbrev old_joints : EncoderJoints
old_joints = record {
  before_ticks = pos 1;
  before_radians = 1;
  after_ticks = pos 1;
  after_radians = 1;
}

abbrev gimbal : EncoderGimbal
gimbal = record {
  x_ticks = pos 1;
  y_ticks = negsuc 1;
  z_ticks = pos 3;
  x_radians = 4;
  y_radians = 5;
  z_radians = 6;
}
