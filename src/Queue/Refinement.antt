-- ===== src/Queue/Refinement.antt =====
-- The items that a queue of nuhal_all/src/queue.c holds, and what its operations may return beside a
-- bounded FIFO of items.
pub mod Push
pub mod Pop
use nuhal.Common.{
  ℕ, ◌+◌, ◌-◌, ◌*◌, ◌^◌, ◌≤◌, ◌<◌, ◌≡◌, arith, Bool, true, false, Option, none, some, List, length,
  Ptr,
}
use native.Mathlib.Nat.{mod-lt, one-le-pow, pow-le-pow_right}
use nuhal.Memory.{overwrite}
use nuhal.Queue.{Queue, queue_index}
use nuhal.Queue.Fifo
use nuhal.Queue.Fifo.{Item}
use nuhal.Queue.Invariant.{IsValid, count, queue_index-mod}
use nuhal.Queue.Window.{window, length-window, slot_le}

-- The items stored, the oldest first.
abbrev pub contents : Queue → List Item
contents q = window q.item_size (q.mask + 1) q.buffer (queue_index q q.read_index) (count q)

pub length-contents : (q : Queue) → length (contents q) ≡ count q
length-contents q =
    length-window q.item_size (q.mask + 1) q.buffer (queue_index q q.read_index) (count q)

-- What a pop shows: a flag, and the target of `out` with the item's bytes at its start.
abbrev pub filled : Ptr (List ℕ) → Item → Ptr (List ℕ)
filled none item = none
filled (some dst) item = some (overwrite dst 0 item)

abbrev pub popped_view : Ptr (List ℕ) → Option Item × List Item → Bool × Ptr (List ℕ) × List Item
popped_view out (none, rest) = (false, out, rest)
popped_view out (some item, rest) = (true, filled out item, rest)

-- The target of `out`, if there is one, has room for an item.
abbrev pub TakesItem : ℕ → Ptr (List ℕ) → Type 0
TakesItem size none = Unit
TakesItem size (some dst) = size ≤ length dst

-- What a push and a pop of a queue of `2 ^ k` slots may return: the FIFO's answer, beside a valid
-- queue that holds the FIFO's items.
abbrev pub PushesAsFifo : ℕ → Queue → Item → Bool × Queue → Type 0
PushesAsFifo k q item (b, q') =
    IsValid k q'
    × ((b, contents q') ≡ Fifo.push (2 ^ k) (contents q) item)
    × (q'.item_size ≡ q.item_size)

abbrev pub PopsAsFifo : ℕ → Queue → Ptr (List ℕ) → Bool × Ptr (List ℕ) × Queue → Type 0
PopsAsFifo k q out (b, out', q') =
    IsValid k q'
    × ((b, out', contents q') ≡ popped_view out (Fifo.pop (contents q)))
    × (q'.item_size ≡ q.item_size)

module _ {k : ℕ} {q : Queue} (v : IsValid k q) where
  pub cap_pos : 0 < 2 ^ k
  cap_pos = one-le-pow k 2 (omega arith)

  pub cap_le : 2 ^ k ≤ 2 ^ 32
  cap_le = pow-le-pow_right (omega arith) v.bits

  -- Every slot lies inside the buffer and below 2^32.
  pub slot_fits :
      (i : ℕ)
      → (queue_index q i < 2 ^ k)
        × (queue_index q i * q.item_size + q.item_size ≤ length q.buffer)
        × (queue_index q i * q.item_size + q.item_size < 2 ^ 32)
  slot_fits i =
      let lo : queue_index q i < 2 ^ k =
        omega (arith, queue_index-mod v i, mod-lt i {m = 2 ^ k} cap_pos) in
      omega (arith, lo, slot_le (queue_index q i) (2 ^ k) q.item_size lo, v.room, v.small)
