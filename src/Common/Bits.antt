-- ===== src/Common/Bits.antt =====
-- Masks, shifts and unions of bit fields at variables, as arithmetic.
use Prim.Native.Nat.{ℕ, zero, suc, ◌+◌, ◌-◌, ◌*◌, ◌/◌, ◌%◌, ◌^◌, ◌≤◌, ◌<◌, min, max}
use Prim.Native.Nat.{bit_and, bit_or, digits, bit_and-bitwise, bit_or-bitwise}
use mathlib.Core.Path.{◌≡◌, refl, sym, ap, ◌∙◌, ◌≡⟨◌⟩◌, ◌∎}
use native.Mathlib.Nat.{
  pow-suc, one-le-pow, div-eq_of_lt-le, mod-eq-sub-div-mul, div-add-mod', mod-lt, div-one,
  div-div-eq-div-mul,
}
use native.Mathlib.Omega.{arith}

-- The digits of a number are reached with any fuel that is not below it.
module _ (rest : ℕ → ℕ) (join : ℕ → ℕ → ℕ) where
  digits_enough : (n m a b : ℕ) → a ≤ n → a ≤ m → digits rest join n a b ≡ digits rest join m a b
  digits_enough zero zero zero b p q = refl
  digits_enough zero (suc m) zero b p q = refl
  digits_enough (suc n) zero zero b p q = refl
  digits_enough (suc n) (suc m) zero b p q = refl
  digits_enough zero m (suc a) b p q = absurd (omega arith)
  digits_enough (suc n) zero (suc a) b p q = absurd (omega arith)
  digits_enough (suc n) (suc m) (suc a) b p q =
      rw (digits_enough n m (suc a / 2) (b / 2) (omega arith) (omega arith))

-- One binary digit at a time.
pub bit_and_digit : (a b : ℕ) → bit_and a b ≡ bit_and (a / 2) (b / 2) * 2 + min (a % 2) (b % 2)
bit_and_digit zero b = omega (arith, bit_and-bitwise 0 b, bit_and-bitwise 0 (b / 2))
bit_and_digit (suc a) b = omega (
  arith,
  bit_and-bitwise (suc a) b,
  bit_and-bitwise (suc a / 2) (b / 2),
  digits_enough (λ _. 0) min a (suc a / 2) (suc a / 2) (b / 2) (omega arith) (omega arith),
)

pub bit_or_digit : (a b : ℕ) → bit_or a b ≡ bit_or (a / 2) (b / 2) * 2 + max (a % 2) (b % 2)
bit_or_digit zero b = omega (arith, bit_or-bitwise 0 b, bit_or-bitwise 0 (b / 2))
bit_or_digit (suc a) b = omega (
  arith,
  bit_or-bitwise (suc a) b,
  bit_or-bitwise (suc a / 2) (b / 2),
  digits_enough (λ y. y) max a (suc a / 2) (suc a / 2) (b / 2) (omega arith) (omega arith),
)

bit_and-zero_below : (n a : ℕ) → a ≤ n → bit_and a 0 ≡ 0
bit_and-zero_below n zero h = refl
bit_and-zero_below zero (suc a) h = absurd (omega arith)
bit_and-zero_below (suc n) (suc a) h =
    omega (arith, bit_and_digit (suc a) 0, bit_and-zero_below n (suc a / 2) (omega arith))

pub bit_and-zero : (a : ℕ) → bit_and a 0 ≡ 0
bit_and-zero a = bit_and-zero_below a a (omega arith)

bit_or-zero_left : (b : ℕ) → bit_or 0 b ≡ b
bit_or-zero_left b = bit_or-bitwise 0 b

-- Twice a power, on either side of a product.
double_pow : (q k : ℕ) → q * 2 ^ suc k ≡ 2 * (q * 2 ^ k)
double_pow q k = omega (arith, ap (λ (t : ℕ). q * t) (pow-suc 2 k))

-- A number given by its quotient and remainder.
pub mod_of_parts : (n m q r : ℕ) → n ≡ q * m + r → r < m → n % m ≡ r
mod_of_parts n m q r e h =
    let d : n / m ≡ q = div-eq_of_lt-le m (omega arith) (grind arith) in
    omega (arith, mod-eq-sub-div-mul n m, ap (λ (t : ℕ). t * m) d)

-- `x & (2^k - 1)` is the remainder by `2^k`.
pub bit_and-low : (k x : ℕ) → bit_and x (2 ^ k - 1) ≡ x % 2 ^ k
bit_and-low zero x = rw bit_and-zero (omega arith)
bit_and-low (suc k) x =
    bit_and_digit x (2 ^ suc k - 1)
    ∙ (ground (arith, bit_and-low k (x / 2), pow-suc 2 k, one-le-pow k 2)
        ∙ sym (
            mod_of_parts x (2 ^ suc k) (x / 2 / 2 ^ k) (x / 2 % 2 ^ k * 2 + x % 2)
              (omega (arith, double_pow (x / 2 / 2 ^ k) k, div-add-mod' (x / 2) (2 ^ k)))
              (omega
                (arith, pow-suc 2 k, mod-lt (x / 2) {m = 2 ^ k} (one-le-pow k 2 (omega arith))))))

-- `(a & b) >> k` masks what is left of both.
pub bit_and-shift : (k a b : ℕ) → bit_and a b / 2 ^ k ≡ bit_and (a / 2 ^ k) (b / 2 ^ k)
bit_and-shift zero a b = rw (div-one, div-one, div-one)
bit_and-shift (suc k) a b =
    bit_and a b / 2 ^ suc k
    ≡⟨ halve (bit_and a b) ⟩ bit_and a b / 2 / 2 ^ k
    ≡⟨ ap (λ t. t / 2 ^ k) (omega (arith, bit_and_digit a b)) ⟩ bit_and (a / 2) (b / 2) / 2 ^ k
    ≡⟨ bit_and-shift k (a / 2) (b / 2) ⟩ bit_and (a / 2 / 2 ^ k) (b / 2 / 2 ^ k)
    ≡⟨ (rw (halve a, halve b)) ⟩ bit_and (a / 2 ^ suc k) (b / 2 ^ suc k) ∎
  where
    halve : (n : ℕ) → n / 2 ^ suc k ≡ n / 2 / 2 ^ k
    halve n = sym (div-div-eq-div-mul n 2 (2 ^ k) ∙ ap (λ t. n / t) (omega (arith, pow-suc 2 k)))

-- `lo | (hi << k)` is a sum where `lo` fits in `k` bits.
pub bit_or-add : (k lo hi : ℕ) → lo < 2 ^ k → bit_or lo (hi * 2 ^ k) ≡ lo + hi * 2 ^ k
bit_or-add zero zero hi h = bit_or-zero_left (hi * 1) ∙ omega arith
bit_or-add zero (suc lo) hi h = absurd (omega arith)
bit_or-add (suc k) lo hi h = ground (
  arith,
  bit_or_digit lo (hi * 2 ^ suc k),
  double_pow hi k,
  pow-suc 2 k,
  bit_or-add k (lo / 2) hi (omega (arith, pow-suc 2 k)),
)

-- A union that has nothing in common with a mask is of parts that have nothing in common with it.
and_or_zero_below :
    (n a b m : ℕ)
    → a ≤ n
    → b ≤ n
    → bit_and (bit_or a b) m ≡ 0
    → (bit_and a m ≡ 0) × (bit_and b m ≡ 0)
and_or_zero_below zero a b m h k e =
    let a_zero : a ≡ 0 = omega arith in
    let b_zero : b ≡ 0 = omega arith in
    (rw a_zero (bit_and-bitwise 0 m), rw b_zero (bit_and-bitwise 0 m))
and_or_zero_below (suc n) a b m h k e =
    let half : bit_or a b / 2 ≡ bit_or (a / 2) (b / 2) = omega (arith, bit_or_digit a b) in
    let digit : bit_or a b % 2 ≡ max (a % 2) (b % 2) = omega (arith, bit_or_digit a b) in
    let none : (bit_and (bit_or a b / 2) (m / 2) ≡ 0) × (min (bit_or a b % 2) (m % 2) ≡ 0) =
      omega (arith, bit_and_digit (bit_or a b) m, e) in
    let (l, r) =
      and_or_zero_below n (a / 2) (b / 2) (m / 2) (omega arith) (omega arith)
        (ap (λ t. bit_and t (m / 2)) (sym half) ∙ none.0) in
    (
      omega (arith, l, bit_and_digit a m, digit, none.1),
      omega (arith, r, bit_and_digit b m, digit, none.1),
    )

pub and_or_zero : (a b m : ℕ) → bit_and (bit_or a b) m ≡ 0 → (bit_and a m ≡ 0) × (bit_and b m ≡ 0)
and_or_zero a b m e = and_or_zero_below (a + b) a b m (omega arith) (omega arith) e

bit_and_self_below : (n a : ℕ) → a ≤ n → bit_and a a ≡ a
bit_and_self_below zero a h = let e : a ≡ 0 = omega arith in rw e (bit_and-bitwise 0 0)
bit_and_self_below (suc n) a h =
    omega (arith, bit_and_digit a a, bit_and_self_below n (a / 2) (omega arith))

pub bit_and_self : (a : ℕ) → bit_and a a ≡ a
bit_and_self a = bit_and_self_below a a (omega arith)
