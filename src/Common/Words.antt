-- ===== src/Common/Words.antt =====
-- Unsigned machine integers as their values, with the wrap-around written out, and int32_t as ℤ.
use Prim.Native.Nat.{ℕ, ◌+◌, ◌-◌, ◌%◌, ◌^◌, ◌<◌}
use mathlib.Core.Path.{◌≡◌}
use native.Mathlib.Omega.{arith}
use nuhal.Common.Tests.{ltb, if◌then◌else◌}

abbrev pub u8 : ℕ → ℕ
u8 n = n % 256

abbrev pub u16 : ℕ → ℕ
u16 n = n % 2 ^ 16

abbrev pub u32 : ℕ → ℕ
u32 n = n % 2 ^ 32

abbrev pub add32 : ℕ → ℕ → ℕ
add32 a b = (a + b) % 2 ^ 32

-- `-` on ℕ stops at 0, so the modulus is added first.
abbrev pub sub32 : ℕ → ℕ → ℕ
sub32 a b = (a + 2 ^ 32 - b) % 2 ^ 32

-- size_t of the x86-64 host.
abbrev pub add_size : ℕ → ℕ → ℕ
add_size a b = (a + b) % 2 ^ 64

abbrev pub sub_size : ℕ → ℕ → ℕ
sub_size a b = (a + 2 ^ 64 - b) % 2 ^ 64

-- `negsuc n` is -(n + 1).
pub data ℤ : Type 0 where
  pos : ℕ → ℤ
  negsuc : ℕ → ℤ

-- `(int32_t)w` for a uint32_t: two's complement.
abbrev pub to_i32 : ℕ → ℤ
to_i32 w = if ltb w (2 ^ 31) then pos w else negsuc (2 ^ 32 - w - 1)

-- `(uint32_t)z` for an int32_t.
abbrev pub of_i32 : ℤ → ℕ
of_i32 (pos n) = n % 2 ^ 32
of_i32 (negsuc n) = 2 ^ 32 - 1 - n % 2 ^ 32

-- The values of int32_t.
abbrev pub IsI32 : ℤ → Type 0
IsI32 (pos n) = n < 2 ^ 31
IsI32 (negsuc n) = n < 2 ^ 31

pub to_i32-of_i32 : (z : ℤ) → IsI32 z → to_i32 (of_i32 z) ≡ z
to_i32-of_i32 (pos n) h = ground arith
to_i32-of_i32 (negsuc n) h = ground arith

pub of_i32-lt : (z : ℤ) → of_i32 z < 2 ^ 32
of_i32-lt (pos n) = omega arith
of_i32-lt (negsuc n) = omega arith
