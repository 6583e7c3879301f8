-- ===== src/Queue/Invariant.antt =====
-- The invariant of `struct queue`, and what its masks and wrapping indices mean under it.
use nuhal.Common.{
  ℕ, ◌+◌, ◌*◌, ◌%◌, ◌^◌, ◌≤◌, ◌<◌, ◌≡◌, ◌∙◌, ap, arith, some, length, ok, ◌==◌, bit_and, sub32,
  add32,
}
use nuhal.Common.Bits.{bit_and-low}
use nuhal.Common.Modular.{wrap-low, mod_turn, mod_turn_back}
use nuhal.Queue.{Queue, queue_index, is_full, is_empty}

-- The number of items stored.
abbrev pub count : Queue → ℕ
count q = sub32 q.write_index q.read_index

-- A queue of `2 ^ k` slots, one of which stays free.
pub record IsValid (k : ℕ) (q : Queue) : Type 0 where
  pub bits : k ≤ 32
  pub masks : q.mask + 1 ≡ 2 ^ k
  pub room : 2 ^ k * q.item_size ≤ length q.buffer
  pub small : 2 ^ k * q.item_size < 2 ^ 32
  pub write_small : q.write_index < 2 ^ 32
  pub read_small : q.read_index < 2 ^ 32
  pub not_over : count q < 2 ^ k

module _ {k : ℕ} {q : Queue} (v : IsValid k q) where
  -- A masked index is the remainder by the capacity, also where the index has wrapped.
  pub queue_index-mod : (i : ℕ) → queue_index q i ≡ i % 2 ^ k
  unfolding queue_index
  queue_index-mod i = ap (bit_and i) (omega (arith, v.masks)) ∙ bit_and-low k i

  pub queue_index-wrap : (i : ℕ) → queue_index q (i % 2 ^ 32) ≡ i % 2 ^ k
  queue_index-wrap i = queue_index-mod (i % 2 ^ 32) ∙ wrap-low k i v.bits

  -- The producer's slot lies `count` slots after the consumer's.
  pub write-slot : queue_index q q.write_index ≡ (q.read_index + count q) % 2 ^ k
  write-slot =
      ap (queue_index q) (omega (arith, v.write_small, v.read_small))
      ∙ queue_index-wrap (q.read_index + count q)

  next-slot : queue_index q (add32 q.write_index 1) ≡ (q.read_index + (count q + 1)) % 2 ^ k
  next-slot =
      ap (queue_index q) (omega (arith, v.write_small, v.read_small))
      ∙ queue_index-wrap (q.read_index + (count q + 1))

  -- The two tests are tests of the number of items.
  pub is_full_lem : is_full (some q) ≡ ok (count q + 1 == 2 ^ k)
  unfolding is_full
  is_full_lem = ground (
    arith,
    next-slot,
    queue_index-mod q.read_index,
    mod_turn q.read_index (count q + 1) (2 ^ k),
    mod_turn_back q.read_index (count q + 1) (2 ^ k),
    v.not_over,
  )

  pub is_empty_lem : is_empty (some q) ≡ ok (count q == 0)
  unfolding is_empty
  is_empty_lem = ground (
    arith,
    write-slot,
    queue_index-mod q.read_index,
    mod_turn q.read_index (count q) (2 ^ k),
    v.not_over,
  )
