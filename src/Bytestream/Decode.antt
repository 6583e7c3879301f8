-- ===== src/Bytestream/Decode.antt =====
-- The built-in types: the value that an extraction computes from the bytes.
use nuhal.Common.{
  ℕ, ◌+◌, ◌*◌, ◌/◌, ◌%◌, ◌^◌, ◌<◌, ◌≡◌, ◌∙◌, ap, List, arith, leb, leb→le, Bool-cases, inl, inr,
  u16, u32, bit_or, ℤ, to_i32, of_i32, IsI32, to_i32-of_i32, of_i32-lt,
}
use nuhal.Common.Bits.{bit_or-add}
use nuhal.Bytestream.{extract_u8, extract_u16, extract_u32, extract_i32, extract_f}
use nuhal.Memory.{Holds, byte_at, load_of_lt}
use nuhal.Bytestream.Codec.{Extracts}
use nuhal.Bytestream.Integers.{verify_args-IsValid, be8, be16, be32}

-- The values that the extractions compute from the bytes at an address.
abbrev pub decode_u8 : List ℕ → ℕ → ℕ
decode_u8 m i = byte_at m i

abbrev pub decode_u16 : List ℕ → ℕ → ℕ
decode_u16 m i = u16 (bit_or (byte_at m (i + 1)) (byte_at m i * 2 ^ 8))

abbrev pub decode_u32 : List ℕ → ℕ → ℕ
decode_u32 m i =
    bit_or
      (bit_or (bit_or (byte_at m (i + 3)) (u32 (byte_at m (i + 2) * 2 ^ 8)))
        (u32 (byte_at m (i + 1) * 2 ^ 16)))
      (u32 (byte_at m i * 2 ^ 24))

abbrev pub decode_i32 : List ℕ → ℕ → ℤ
decode_i32 m i = to_i32 (decode_u32 m i)

pub extract_u8-Extracts : Extracts extract_u8 1 decode_u8
unfolding extract_u8
extract_u8-Extracts p b v = elim (Bool-cases (leb (b.size + 1) b.capacity)) [
  | inl fits ↦
      ground (
        arith,
        v.base,
        v.within,
        v.small,
        v.room,
        leb→le _ _ fits,
        load_of_lt b.memory (p + b.size),
      )
  | inr short ↦ ground (arith, v.base, v.within, v.small)
]

pub extract_u16-Extracts : Extracts extract_u16 2 decode_u16
unfolding extract_u16
extract_u16-Extracts p b v = elim (Bool-cases (leb (b.size + 2) b.capacity)) [
  | inl fits ↦ ground (
    arith,
    v.base,
    v.within,
    v.small,
    v.room,
    leb→le _ _ fits,
    load_of_lt b.memory (p + b.size),
    load_of_lt b.memory (p + b.size + 1),
  )
  | inr short ↦ ground (arith, v.base, v.within, v.small)
]

pub extract_u32-Extracts : Extracts extract_u32 4 decode_u32
unfolding extract_u32
extract_u32-Extracts p b v = elim (Bool-cases (leb (b.size + 4) b.capacity)) [
  | inl fits ↦ ground (
    arith,
    v.base,
    v.within,
    v.small,
    v.room,
    leb→le _ _ fits,
    load_of_lt b.memory (p + b.size),
    load_of_lt b.memory (p + b.size + 1),
    load_of_lt b.memory (p + b.size + 2),
    load_of_lt b.memory (p + b.size + 3),
  )
  | inr short ↦ ground (arith, v.base, v.within, v.small)
]

pub extract_i32-Extracts : Extracts extract_i32 4 decode_i32
unfolding extract_i32
extract_i32-Extracts p b v = ground (arith, extract_u32-Extracts p b v)

pub extract_f-Extracts : Extracts extract_f 4 decode_u32
unfolding extract_f
extract_f-Extracts p b v =
    ground (arith, verify_args-IsValid p b 4 (omega arith) v, extract_u32-Extracts p b v)

-- The bytes that an injection writes decode to the value.
pub decode_u8-be8 : (m : List ℕ) (i v : ℕ) → Holds m i (be8 v) → decode_u8 m i ≡ v
decode_u8-be8 m i v h = ground arith

pub decode_u16-be16 : (m : List ℕ) (i v : ℕ) → v < 2 ^ 16 → Holds m i (be16 v) → decode_u16 m i ≡ v
decode_u16-be16 m i v h bytes =
    ground (arith, bytes.0, bytes.1.0, bit_or-add 8 (v % 256) (v / 256 % 256) (omega arith))

join32 :
    (a b c d : ℕ)
    → a < 256
    → b < 256
    → c < 256
    → d < 256
    → bit_or (bit_or (bit_or d (u32 (c * 2 ^ 8))) (u32 (b * 2 ^ 16))) (u32 (a * 2 ^ 24))
      ≡ d + c * 2 ^ 8 + b * 2 ^ 16 + a * 2 ^ 24
join32 a b c d ha hb hc hd = ground (
  arith,
  bit_or-add 8 d c,
  bit_or-add 16 (d + c * 2 ^ 8) b,
  bit_or-add 24 (d + c * 2 ^ 8 + b * 2 ^ 16) a,
)

pub decode_u32-be32 : (m : List ℕ) (i v : ℕ) → v < 2 ^ 32 → Holds m i (be32 v) → decode_u32 m i ≡ v
decode_u32-be32 m i v h bytes = ground (
  arith,
  bytes.0,
  bytes.1.0,
  bytes.1.1.0,
  bytes.1.1.1.0,
  join32 (v / 2 ^ 24 % 256) (v / 2 ^ 16 % 256) (v / 2 ^ 8 % 256) (v % 256),
)

pub decode_i32-be32 :
    (m : List ℕ) (i : ℕ) (z : ℤ) → IsI32 z → Holds m i (be32 (of_i32 z)) → decode_i32 m i ≡ z
decode_i32-be32 m i z h bytes =
    ap to_i32 (decode_u32-be32 m i (of_i32 z) (of_i32-lt z) bytes) ∙ to_i32-of_i32 z h
