-- ===== src/Floats.antt =====
-- The arithmetic of `float`, which the hardware supplies: a record of operations on 32-bit patterns,
-- which the functions that compute with floats take as a parameter. Comparisons are Boolean, so
-- nothing is assumed of NaN. The constants are the patterns of the literals in the source.
use nuhal.Common.{ℕ, Bool, Option, ℤ}

pub record FloatOps : Type 0 where
  pub add : ℕ → ℕ → ℕ
  pub sub : ℕ → ℕ → ℕ
  pub mul : ℕ → ℕ → ℕ
  pub div : ℕ → ℕ → ℕ
  pub fmod : ℕ → ℕ → ℕ
  pub less : ℕ → ℕ → Bool
  pub less_equal : ℕ → ℕ → Bool
  pub of_int : ℤ → ℕ
  pub to_int : ℕ → Option ℤ  -- to int32_t; `none` where the value does not fit, which is undefined

abbrev pub zero_f : ℕ
zero_f = 0

abbrev pub two_f : ℕ
two_f = 0x40000000

-- `PI` of nuhal/utilities.h, and `-PI`.
abbrev pub pi_f : ℕ
pi_f = 0x40490fdb

abbrev pub neg_pi_f : ℕ
neg_pi_f = 0xc0490fdb
