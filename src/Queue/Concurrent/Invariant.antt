-- ===== src/Queue/Concurrent/Invariant.antt =====
-- What holds between any two turns of the two sides of nuhal_all/src/queue.c.
use nuhal.Common.{ℕ, ◌+◌, ◌*◌, ◌%◌, ◌^◌, ◌≤◌, ◌<◌, ◌≡◌, ◌≢◌, sym, ◌∙◌, ap, ◌++◌, arith, length}
use native.Mathlib.Nat.{mod-add-mod}
use nuhal.Memory.{slice}
use nuhal.Queue.{Queue, queue_index}
use nuhal.Queue.Invariant.{IsValid, count, queue_index-mod, write-slot}
use nuhal.Queue.Window.{other_slot}
use nuhal.Queue.Refinement.{contents, slot_fits}
use nuhal.Queue.Concurrent.{
  Producer, between_pushes, pushing, Consumer, between_pops, popping, System,
}

-- The first byte of the producer's slot, and of the consumer's.
abbrev pub write_base : Queue → ℕ
write_base q = queue_index q q.write_index * q.item_size

abbrev pub read_base : Queue → ℕ
read_base q = queue_index q q.read_index * q.item_size

-- In a push, the producer's slot is free and holds the bytes copied so far.
abbrev pub PushIsValid : ℕ → Queue → Producer → Type 0
PushIsValid k q between_pushes = Unit
PushIsValid k q (pushing src i) =
    (length src ≡ q.item_size)
    × (i ≤ q.item_size)
    × (count q + 1 < 2 ^ k)
    × (slice q.buffer (write_base q) i ≡ slice src 0 i)

-- In a pop, the consumer's slot is taken, and `*out` holds the bytes copied so far.
abbrev pub PopIsValid : Queue → Consumer → Type 0
PopIsValid q between_pops = Unit
PopIsValid q (popping dst i) =
    (length dst ≡ q.item_size)
    × (i ≤ q.item_size)
    × (0 < count q)
    × (slice dst 0 i ≡ slice q.buffer (read_base q) i)

-- Nothing is lost, doubled, torn or reordered: the items sent are those received, and then those in
-- the queue.
pub record IsConsistent (k size : ℕ) (s : System) : Type 0 where
  pub valid : IsValid k s.queue
  pub sized : s.queue.item_size ≡ size
  pub push : PushIsValid k s.queue s.producer
  pub pop : PopIsValid s.queue s.consumer
  pub fifo : s.sent ≡ s.received ++ contents s.queue

module _ {k : ℕ} {q : Queue} (v : IsValid k q) where
  -- The producer's slot is the one behind the items.
  pub write-slot_after :
      queue_index q q.write_index ≡ (queue_index q q.read_index + count q) % (q.mask + 1)
  write-slot_after =
      write-slot v
      ∙ (sym (mod-add-mod q.read_index (2 ^ k) (count q))
          ∙ (ap (λ t. (t + count q) % 2 ^ k) (sym (queue_index-mod v q.read_index))
              ∙ ap (λ t. (queue_index q q.read_index + count q) % t) (sym v.masks)))

  pub slots_ne : 0 < count q → queue_index q q.read_index ≢ queue_index q q.write_index
  slots_ne some_item e =
      other_slot (queue_index q q.read_index) (count q) (q.mask + 1)
        (omega (arith, v.masks, (slot_fits v q.read_index).0)) some_item
        (omega (arith, v.masks, v.not_over)) (sym (e ∙ write-slot_after))
