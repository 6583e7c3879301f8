-- ===== src/Bytestream/Integers.antt =====
-- The built-in types: the big-endian bytes that an injection writes.
use nuhal.Common.{
  ℕ, ◌+◌, ◌/◌, ◌%◌, ◌^◌, ◌<◌, ◌≡◌, some, List, [], ◌∷◌, arith, leb, if◌then◌else◌, set, length-set,
  set-set_comm, u8, bit_and, ℤ, of_i32, of_i32-lt,
}
use nuhal.Common.Bits.{bit_and-low, bit_and-shift}
use nuhal.Common.{ok, err, overflow}
use nuhal.Bytestream.{
  Bytestream, verify_args, inject_u8, inject_u16, inject_u32, inject_i32, inject_f,
}
use nuhal.Memory.{overwrite, set-overwrite}
use nuhal.Bytestream.Codec.{IsValid, put_bytes, Injects}

-- What `verify_args` lets through, and what it reports.
pub verify_args-IsValid :
    (p : ℕ) (b : Bytestream) (n : ℕ)
    → n < 2 ^ 63
    → IsValid p b
    → verify_args (some b) n ≡ (if leb (b.size + n) b.capacity then ok (p, b) else err overflow)
unfolding verify_args
verify_args-IsValid p b n h v = ground (arith, v.base, v.within, v.small)

abbrev pub be8 : ℕ → List ℕ
be8 v = v ∷ []

abbrev pub be16 : ℕ → List ℕ
be16 v = (v / 256 % 256) ∷ (v % 256) ∷ []

abbrev pub be32 : ℕ → List ℕ
be32 v = (v / 2 ^ 24 % 256) ∷ (v / 2 ^ 16 % 256) ∷ (v / 2 ^ 8 % 256) ∷ (v % 256) ∷ []

pub inject_u8-Injects : (v : ℕ) → Injects (λ bs. inject_u8 bs v) (be8 v)
unfolding inject_u8 put_bytes overwrite
inject_u8-Injects v p b valid = ground (arith, valid.base, valid.within, valid.small, valid.room)

mask16 :
    (v : ℕ) → (u8 (bit_and v 0x00ff) ≡ v % 256) × (u8 (bit_and v 0xff00 / 2 ^ 8) ≡ v / 256 % 256)
mask16 v = omega (arith, bit_and-low 8 v, bit_and-shift 8 v 0xff00, bit_and-low 8 (v / 2 ^ 8))

pub inject_u16-Injects : (v : ℕ) → Injects (λ bs. inject_u16 bs v) (be16 v)
unfolding inject_u16 put_bytes overwrite
inject_u16-Injects v p b valid = ground (
  arith,
  valid.base,
  valid.within,
  valid.small,
  valid.room,
  mask16 v,
  length-set b.memory (p + b.size + 1) (v % 256),
  set-set_comm b.memory (p + b.size + 1) (p + b.size) (v % 256) (v / 256 % 256),
)

mask32 :
    (v : ℕ)
    → v < 2 ^ 32
    → (u8 (bit_and v 0x000000ff) ≡ v % 256)
      × (u8 (bit_and v 0x0000ff00 / 2 ^ 8) ≡ v / 2 ^ 8 % 256)
      × (u8 (bit_and v 0x00ff0000 / 2 ^ 16) ≡ v / 2 ^ 16 % 256)
      × (u8 (bit_and v 0xff000000 / 2 ^ 24) ≡ v / 2 ^ 24 % 256)
mask32 v h = omega (
  arith,
  bit_and-low 8 v,
  bit_and-shift 8 v 0xff00,
  bit_and-low 8 (v / 2 ^ 8),
  bit_and-shift 16 v 0xff0000,
  bit_and-low 8 (v / 2 ^ 16),
  bit_and-shift 24 v 0xff000000,
  bit_and-low 8 (v / 2 ^ 24),
)

add_one_each : (i : ℕ) → (i + 1 + 1 ≡ i + 2) × (i + 2 + 1 ≡ i + 3)
add_one_each i = omega arith

-- Four bytes written from the last to the first are the run of bytes.
set_four_down :
    (m : List ℕ) (i a b c d : ℕ)
    → set (set (set (set m (i + 3) d) (i + 2) c) (i + 1) b) i a ≡ overwrite m i (a ∷ b ∷ c ∷ d ∷ [])
unfolding overwrite
set_four_down m i a b c d = cc (
  set-overwrite m (i + 2) (i + 3) c (d ∷ []) (omega arith),
  set-overwrite m (i + 1) (i + 2) b (c ∷ d ∷ []) (omega arith),
  set-overwrite m i (i + 1) a (b ∷ c ∷ d ∷ []) (omega arith),
  (add_one_each i).0,
  (add_one_each i).1,
)

pub inject_u32-Injects : (v : ℕ) → v < 2 ^ 32 → Injects (λ bs. inject_u32 bs v) (be32 v)
unfolding inject_u32 put_bytes
inject_u32-Injects v h p b valid = ground (
  arith,
  valid.base,
  valid.within,
  valid.small,
  valid.room,
  mask32 v h,
  length-set b.memory (p + b.size + 3) (v % 256),
  length-set (set b.memory (p + b.size + 3) (v % 256)) (p + b.size + 2) (v / 2 ^ 8 % 256),
  length-set (set (set b.memory (p + b.size + 3) (v % 256)) (p + b.size + 2) (v / 2 ^ 8 % 256))
      (p + b.size + 1) (v / 2 ^ 16 % 256),
  set_four_down b.memory (p + b.size) (v / 2 ^ 24 % 256) (v / 2 ^ 16 % 256) (v / 2 ^ 8 % 256)
      (v % 256),
)

pub inject_i32-Injects : (z : ℤ) → Injects (λ bs. inject_i32 bs z) (be32 (of_i32 z))
unfolding inject_i32
inject_i32-Injects z = inject_u32-Injects (of_i32 z) (of_i32-lt z)

pub inject_f-Injects : (f : ℕ) → f < 2 ^ 32 → Injects (λ bs. inject_f bs f) (be32 f)
unfolding inject_f
inject_f-Injects f h = inject_u32-Injects f h
