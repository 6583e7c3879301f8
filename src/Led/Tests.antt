-- ===== src/Led/Tests.antt =====
-- Colours in a concrete stream, and on the host's LED.
use nuhal.Common.{refl, arith, some, [], ◌∷◌}
use nuhal.Bytestream.{Bytestream}
use nuhal.Bytestream.Codec.{IsValid}

abbrev stream : Bytestream
stream = record { memory = 9 ∷ 8 ∷ 1 ∷ []; data_ptr = some 1; capacity = 2; size = 0 }

stream-IsValid : IsValid 1 stream
stream-IsValid = record {
  base = refl;
  room = omega arith;
  within = omega arith;
  small = omega arith;
}
