-- ===== src/Common/Modular.antt =====
-- Remainders by a variable.
use Prim.Native.Nat.{ℕ, zero, suc, ◌+◌, ◌-◌, ◌*◌, ◌%◌, ◌^◌, ◌≤◌, ◌<◌}
use mathlib.Core.Path.{◌≡◌, ap, ◌∙◌}
use mathlib.Core.Logic.{◌⊎◌, inl, inr}
use native.Mathlib.Decide.{dec_lt}
use native.Mathlib.Nat.{
  mod-eq_of_lt, mod-eq-sub-mod, mod-add-mod, mod-lt, mod-mod_of_dvd, pow-suc, zero-add,
  add-mod_right,
}
use native.Mathlib.Omega.{arith}

-- Below twice the modulus a remainder subtracts it at most once.
pub mod_once : (a n : ℕ) → a < n + n → 0 < n → (a % n ≡ a) × (a < n) ⊎ (a % n ≡ a - n) × (n ≤ a)
mod_once a n h p = elim (dec_lt a n) [
  | yes lo ↦ inl (mod-eq_of_lt lo, lo)
  | no hi ↦ inr (
    mod-eq-sub-mod {n = a} {m = n} (omega arith) ∙ mod-eq_of_lt {n = a - n} {m = n} (omega arith),
    omega arith,
  )
]

-- A step of 1 to `c` that comes back to the same remainder is a whole turn.
pub mod_turn : (r d c : ℕ) → 0 < d → d ≤ c → (r + d) % c ≡ r % c → d ≡ c
mod_turn r d c p h e =
    ground (arith, mod-add-mod r c d, mod_once (r % c + d) c, mod-lt r {m = c} (omega arith))

pub mod_turn_back : (r d c : ℕ) → d ≡ c → (r + d) % c ≡ r % c
mod_turn_back r d c e = rw e (add-mod_right r c)

pow_split : (d k : ℕ) → 2 ^ (d + k) ≡ 2 ^ k * 2 ^ d
pow_split zero k = rw zero-add (omega arith)
pow_split (suc d) k =
    ap (λ t. 2 ^ t) shift
    ∙ (pow-suc 2 (d + k)
        ∙ (rw (pow_split d k) (omega (arith, ap (λ (t : ℕ). 2 ^ k * t) (pow-suc 2 d)))))
  where
    shift : suc d + k ≡ suc (d + k)
    shift = omega arith

-- A uint32_t that wraps keeps its low bits.
pub wrap-low : (k i : ℕ) → k ≤ 32 → i % 2 ^ 32 % 2 ^ k ≡ i % 2 ^ k
wrap-low k i h =
    mod-mod_of_dvd (2 ^ k) {b = 2 ^ 32} i
      ∣ (2 ^ (32 - k), ap (λ t. 2 ^ t) whole ∙ pow_split (32 - k) k) ∣₁
  where
    whole : 32 ≡ 32 - k + k
    whole = omega arith
