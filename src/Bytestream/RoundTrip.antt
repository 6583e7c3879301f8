-- ===== src/Bytestream/RoundTrip.antt =====
-- nuhal_all/src/bytestream.c: injecting a value of a built-in type, and then extracting it.
use nuhal.Common.{
  ℕ, ◌+◌, ◌^◌, ◌<◌, ◌≡◌, some, leb, if◌then◌else◌, ok, err, ◌>>=◌, overflow, ℤ, IsI32, of_i32,
}
use nuhal.Bytestream.{
  Bytestream, inject_u8, extract_u8, inject_u16, extract_u16, inject_u32, extract_u32, inject_i32,
  extract_i32,
}
use nuhal.Bytestream.Codec.{IsValid, put_bytes, rewind, round_trip}
use nuhal.Bytestream.Integers.{be8, be16, be32}
use nuhal.Bytestream.Builtin.{u8_codec, u16_codec, u32_codec, i32_codec}

-- A byte that is injected into a valid stream: where there is room for it, exactly it is written
-- at the cursor, and extracting from where the writer started gives it back and leaves the cursor
-- where the writer left it; where there is none, the outcome is the overflow error.
pub inject_u8-extract_u8 :
    (v : ℕ) (p : ℕ) (b : Bytestream)
    → v < 2 ^ 8
    → IsValid p b
    → (inject_u8 (some b) v >>= λ w. extract_u8 (some (rewind w b.size)))
      ≡ (if leb (b.size + 1) b.capacity then ok (v, put_bytes p b (be8 v)) else err overflow)
inject_u8-extract_u8 = round_trip u8_codec

-- A uint16_t that is injected into a valid stream: where its 2 bytes, the most significant first,
-- fit, exactly they are written at the cursor, and extracting from where the writer started gives
-- the value back and leaves the cursor where the writer left it; where the room is less, the
-- outcome is the overflow error.
pub inject_u16-extract_u16 :
    (v : ℕ) (p : ℕ) (b : Bytestream)
    → v < 2 ^ 16
    → IsValid p b
    → (inject_u16 (some b) v >>= λ w. extract_u16 (some (rewind w b.size)))
      ≡ (if leb (b.size + 2) b.capacity then ok (v, put_bytes p b (be16 v)) else err overflow)
inject_u16-extract_u16 = round_trip u16_codec

-- A uint32_t that is injected into a valid stream: where its 4 bytes, the most significant first,
-- fit, exactly they are written at the cursor, and extracting from where the writer started gives
-- the value back and leaves the cursor where the writer left it; where the room is less, the
-- outcome is the overflow error.
pub inject_u32-extract_u32 :
    (v : ℕ) (p : ℕ) (b : Bytestream)
    → v < 2 ^ 32
    → IsValid p b
    → (inject_u32 (some b) v >>= λ w. extract_u32 (some (rewind w b.size)))
      ≡ (if leb (b.size + 4) b.capacity then ok (v, put_bytes p b (be32 v)) else err overflow)
inject_u32-extract_u32 = round_trip u32_codec

-- An int32_t, a negative one included, that is injected into a valid stream: where its 4 bytes,
-- the most significant first, fit, exactly they are written at the cursor, and extracting from
-- where the writer started gives the value back and leaves the cursor where the writer left it;
-- where the room is less, the outcome is the overflow error.
pub inject_i32-extract_i32 :
    (v : ℤ) (p : ℕ) (b : Bytestream)
    → IsI32 v
    → IsValid p b
    → (inject_i32 (some b) v >>= λ w. extract_i32 (some (rewind w b.size))) ≡ (
        if leb (b.size + 4) b.capacity
        then ok (v, put_bytes p b (be32 (of_i32 v)))
        else err overflow)
inject_i32-extract_i32 = round_trip i32_codec
