-- ===== src/Queue/Capacity.antt =====
-- The capacities of `queue_init`, and its test of bits.
use nuhal.Common.{
  ℕ, zero, suc, ◌-◌, ◌*◌, ◌/◌, ◌%◌, ◌^◌, ◌≤◌, ◌<◌, ◌≡◌, ◌≢◌, refl, arith, List, [], length, ok, err,
  bad_capacity, bit_and, sub32,
}
use nuhal.Common.Bits.{bit_and_digit}
use native.Mathlib.Decide.{ℕ_discrete, dec_lt}
use native.Mathlib.Nat.{pow-suc, pow-le-pow_right}
use nuhal.Queue.{Queue, init}
use nuhal.Queue.Invariant.{IsValid}
use nuhal.Queue.Refinement.{contents}

bit_and_self : (n a : ℕ) → a ≤ n → bit_and a a ≡ a
bit_and_self n zero h = refl
bit_and_self zero (suc a) h = absurd (omega arith)
bit_and_self (suc n) (suc a) h =
    omega (arith, bit_and_digit (suc a) (suc a), bit_and_self n (suc a / 2) (omega arith))

-- A number of which the test finds no bit in common with its predecessor.
power_of_test : (n c : ℕ) → c ≤ n → 2 ≤ c → bit_and (c - 1) c ≡ 0 → (k : ℕ) × (1 ≤ k) × (c ≡ 2 ^ k)
power_of_test zero c h p e = absurd (omega arith)
power_of_test (suc n) c h p e = elim (ℕ_discrete (c % 2) 1) [
  | yes odd ↦
      let same : (c - 1) / 2 ≡ c / 2 = omega arith in
      absurd (ground (arith, bit_and_digit (c - 1) c, bit_and_self (c / 2) (c / 2), same))
  | no even ↦
      let half : (c - 1) / 2 ≡ c / 2 - 1 = omega arith in
      let less : bit_and (c / 2 - 1) (c / 2) ≡ 0 = ground (arith, bit_and_digit (c - 1) c, half) in
      elim (ℕ_discrete (c / 2) 1) [
        | yes one ↦ (1, omega arith, omega arith)
        | no more ↦
            let (k, lo, e') = power_of_test n (c / 2) (omega arith) (omega arith) less in
            (suc k, omega arith, omega (arith, pow-suc 2 k))
      ]
]

test_of_power : (k : ℕ) → bit_and (2 ^ k - 1) (2 ^ k) ≡ 0
test_of_power zero = refl
test_of_power (suc k) =
    let half : (2 ^ suc k - 1) / 2 ≡ 2 ^ k - 1 = omega (arith, pow-suc 2 k) in
    let whole : 2 ^ suc k / 2 ≡ 2 ^ k = omega (arith, pow-suc 2 k) in
    ground
      (arith, bit_and_digit (2 ^ suc k - 1) (2 ^ suc k), half, whole, test_of_power k, pow-suc 2 k)

-- The queue that is made.
abbrev pub fresh : ℕ → ℕ → List ℕ → Queue
fresh capacity item_size buffer = record {
  mask = capacity - 1;
  item_size = item_size;
  buffer = buffer;
  write_index = 0;
  read_index = 0;
}

-- A power of two from 2 to 2^31 gives a valid empty queue, if the buffer holds that many items and
-- their bytes can be counted in a uint32_t.
pub init_accepts :
    (k item_size : ℕ) (buffer : List ℕ)
    → 1 ≤ k
    → k < 32
    → 2 ^ k * item_size ≤ length buffer
    → 2 ^ k * item_size < 2 ^ 32
    → (init (2 ^ k) item_size buffer ≡ ok (fresh (2 ^ k) item_size buffer))
      × IsValid k (fresh (2 ^ k) item_size buffer)
      × (contents (fresh (2 ^ k) item_size buffer) ≡ [])
unfolding init
init_accepts k size buffer lo hi room small =
    let two : 2 ≤ 2 ^ k = pow-le-pow_right {n = 2} (omega arith) lo in
    let top : 2 ^ k ≤ 2 ^ 31 = pow-le-pow_right {n = 2} (omega arith) {j = 31} (omega arith) in
    let before : sub32 (2 ^ k) 1 ≡ 2 ^ k - 1 = omega arith in
    (
      ground (arith, before, test_of_power k),
      record {
        bits = omega arith;
        masks = omega arith;
        room = room;
        small = small;
        write_small = omega arith;
        read_small = omega arith;
        not_over = omega arith;
      },
      refl,
    )

-- A uint32_t capacity that is no power of two above 1 is refused with the bad-capacity error.
pub init_refuses :
    (capacity item_size : ℕ) (buffer : List ℕ)
    → capacity < 2 ^ 32
    → ((k : ℕ) → 1 ≤ k → capacity ≢ 2 ^ k)
    → init capacity item_size buffer ≡ err bad_capacity
unfolding init
init_refuses capacity size buffer h not_power = elim (dec_lt capacity 2) [
  | yes few ↦ ground arith
  | no many ↦
      let before : sub32 capacity 1 ≡ capacity - 1 = omega arith in
      let bits : bit_and (capacity - 1) capacity ≢ 0 = λ e.
        let (k, lo, power) = power_of_test capacity capacity (omega arith) (omega arith) e in
        not_power k lo power in
      ground (arith, before, bits)
]
