-- ===== src/Bytestream.antt =====
-- nuhal_all/src/bytestream.c: a cursor over a byte buffer, and the injection and extraction of the
-- built-in types. `memory` is the whole object that `data` points into, and `data` the offset of
-- the pointer in it (`none` for NULL), since a packet's stream points into the middle of the
-- packet's bytes. A C function that changes `*bs` returns the new stream.
pub mod Codec
pub mod Integers
pub mod Decode
pub mod Builtin
pub mod RoundTrip
pub mod Strings
mod Tests
use nuhal.Common.{
  ℕ, ◌+◌, ◌*◌, ◌/◌, ◌^◌, some, List, ltb, if◌then◌else◌, bit_and, bit_or, u8, u16, u32, add_size, ℤ,
  to_i32, of_i32,
}
use nuhal.Common.{Outcome, ok, err, ◌>>=◌, Ptr, require, load, store, null_ptr, overflow}

-- `struct bytestream`
pub record Bytestream : Type 0 where
  pub memory : List ℕ
  pub data_ptr : Ptr ℕ
  pub capacity : ℕ
  pub size : ℕ

-- `verify_args`, with the stream and the address of its bytes, which the caller then uses.
unfoldable pub verify_args : Ptr Bytestream → ℕ → Outcome (ℕ × Bytestream)
verify_args bs len = do
  b ← require bs null_ptr
  p ← require b.data_ptr null_ptr
  if ltb b.capacity (add_size b.size len) then err overflow else ok (p, b)

-- `bytestream_init`: `memory` and `data` together are the pointer argument.
unfoldable pub init : Ptr Bytestream → List ℕ → Ptr ℕ → ℕ → Outcome Bytestream
init out memory data_ptr len = do
  p ← require data_ptr null_ptr
  o ← require out null_ptr
  ok (record o { memory = memory; data_ptr = some p; capacity = len; size = 0 })

unfoldable pub inject_u8 : Ptr Bytestream → ℕ → Outcome Bytestream
unfolding verify_args
inject_u8 bs u = do
  (p, b) ← verify_args bs 1
  m ← store b.memory (p + b.size) u
  ok (record b { memory = m; size = add_size b.size 1 })

unfoldable pub extract_u8 : Ptr Bytestream → Outcome (ℕ × Bytestream)
unfolding verify_args
extract_u8 bs = do
  (p, b) ← verify_args bs 1
  u ← load b.memory (p + b.size)
  ok (u, record b { size = add_size b.size 1 })

unfoldable pub extract_u16 : Ptr Bytestream → Outcome (ℕ × Bytestream)
unfolding verify_args
extract_u16 bs = do
  (p, b) ← verify_args bs 2
  lo ← load b.memory (p + add_size b.size 1)
  hi ← load b.memory (p + b.size)
  ok (u16 (bit_or lo (hi * 2 ^ 8)), record b { size = add_size b.size 2 })

unfoldable pub inject_u16 : Ptr Bytestream → ℕ → Outcome Bytestream
unfolding verify_args
inject_u16 bs u = do
  (p, b) ← verify_args bs 2
  m ← store b.memory (p + add_size b.size 1) (u8 (bit_and u 0x00ff))
  m ← store m (p + b.size) (u8 (bit_and u 0xff00 / 2 ^ 8))
  ok (record b { memory = m; size = add_size b.size 2 })

unfoldable pub extract_u32 : Ptr Bytestream → Outcome (ℕ × Bytestream)
unfolding verify_args
extract_u32 bs = do
  (p, b) ← verify_args bs 4
  d ← load b.memory (p + add_size b.size 3)
  c ← load b.memory (p + add_size b.size 2)
  e ← load b.memory (p + add_size b.size 1)
  a ← load b.memory (p + b.size)
  ok (
    bit_or (bit_or (bit_or d (u32 (c * 2 ^ 8))) (u32 (e * 2 ^ 16))) (u32 (a * 2 ^ 24)),
    record b { size = add_size b.size 4 },
  )

unfoldable pub inject_u32 : Ptr Bytestream → ℕ → Outcome Bytestream
unfolding verify_args
inject_u32 bs u = do
  (p, b) ← verify_args bs 4
  m ← store b.memory (p + add_size b.size 3) (u8 (bit_and u 0x000000ff))
  m ← store m (p + add_size b.size 2) (u8 (bit_and u 0x0000ff00 / 2 ^ 8))
  m ← store m (p + add_size b.size 1) (u8 (bit_and u 0x00ff0000 / 2 ^ 16))
  m ← store m (p + b.size) (u8 (bit_and u 0xff000000 / 2 ^ 24))
  ok (record b { memory = m; size = add_size b.size 4 })

unfoldable pub extract_i32 : Ptr Bytestream → Outcome (ℤ × Bytestream)
extract_i32 bs = do (u, b) ← extract_u32 bs; ok (to_i32 u, b)

unfoldable pub inject_i32 : Ptr Bytestream → ℤ → Outcome Bytestream
inject_i32 bs i = inject_u32 bs (of_i32 i)

-- A float is its 32-bit pattern, so each `memcpy` between a float and a uint32_t is the identity.
abbrev pub Float : Type 0
Float = ℕ

unfoldable pub extract_f : Ptr Bytestream → Outcome (Float × Bytestream)
extract_f bs = do (p, b) ← verify_args bs 4; extract_u32 bs

unfoldable pub inject_f : Ptr Bytestream → Float → Outcome Bytestream
inject_f bs f = inject_u32 bs f
