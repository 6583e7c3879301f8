-- ===== src/Queue/Refinement/Push.antt =====
-- `queue_push_nonblock` beside the push of the bounded FIFO.
use nuhal.Common.{
  ℕ, suc, ◌+◌, ◌*◌, ◌%◌, ◌^◌, ◌≤◌, ◌≡◌, ◌≢◌, ◌∙◌, refl, sym, ap, arith, true, false, some, List, [],
  ◌∷◌, ◌++◌, length, ok, add32, eq→==, Returns,
}
use native.Mathlib.Decide.{ℕ_discrete}
use native.Mathlib.Nat.{mod-add-mod}
use mathlib.Core.Path.{ap₂}
use nuhal.Memory.{overwrite, length-overwrite, slice, length-slice}
use nuhal.Queue.{Queue, queue_index, push_nonblock}
use nuhal.Queue.Fifo
use nuhal.Queue.Fifo.{Item}
use nuhal.Queue.Invariant.{IsValid, count, queue_index-mod, write-slot, is_full_lem}
use nuhal.Queue.Copy.{copy_in_lem}
use nuhal.Queue.Window.{window, window-write}
use nuhal.Queue.Refinement.{contents, length-contents, PushesAsFifo, cap_le, slot_fits}

-- The queue after an item has been copied to the producer's slot.
abbrev pub pushed : Queue → List ℕ → Queue
pushed q src = record q {
  buffer = overwrite q.buffer (queue_index q q.write_index * q.item_size) (slice src 0 q.item_size);
  write_index = add32 q.write_index 1;
}

module _ {k : ℕ} {q : Queue} (v : IsValid k q) where
  -- A full queue is left alone.
  pub push_nonblock_full :
      (src : List ℕ) → count q + 1 ≡ 2 ^ k → push_nonblock (some q) (some src) ≡ ok (false, q)
  unfolding push_nonblock
  push_nonblock_full src e = rw (is_full_lem v, eq→== (count q + 1) (2 ^ k) e)

  push_nonblock_room :
      (src : List ℕ)
      → q.item_size ≤ length src
      → count q + 1 ≢ 2 ^ k
      → push_nonblock (some q) (some src) ≡ ok (true, pushed q src)
  unfolding push_nonblock
  push_nonblock_room src s ne = ground (
    arith,
    is_full_lem v,
    slot_fits v q.write_index,
    copy_in_lem q.buffer (queue_index q q.write_index * q.item_size) src q.item_size,
  )

  pushed-IsValid : (src : List ℕ) → count q + 1 ≢ 2 ^ k → IsValid k (pushed q src)
  pushed-IsValid src ne = record {
    bits = v.bits;
    masks = v.masks;
    room = omega (
      arith,
      v.room,
      length-overwrite q.buffer (queue_index q q.write_index * q.item_size)
          (slice src 0 q.item_size),
    );
    small = v.small;
    write_small = omega arith;
    read_small = v.read_small;
    not_over = omega (arith, v.not_over, v.write_small, v.read_small, cap_le v);
  }

  contents-pushed :
      (src : List ℕ)
      → count q + 1 ≢ 2 ^ k
      → contents (pushed q src) ≡ contents q ++ slice src 0 q.item_size ∷ []
  unfolding queue_index
  contents-pushed src ne =
      ap₂
        (λ slot n.
          window q.item_size (q.mask + 1) (overwrite q.buffer (slot * q.item_size) item)
            (queue_index q q.read_index) n)
        slot_at one_more
      ∙ window-write q.item_size (q.mask + 1) q.buffer item (length-slice src 0 q.item_size)
          (count q) (queue_index q q.read_index)
          (omega (arith, v.masks, (slot_fits v q.read_index).0))
          (omega (arith, v.masks, v.not_over)) (rw v.masks v.room)
    where
      item : List ℕ
      item = slice src 0 q.item_size

      slot_at : queue_index q q.write_index ≡ (queue_index q q.read_index + count q) % (q.mask + 1)
      slot_at =
          write-slot v
          ∙ (sym (mod-add-mod q.read_index (2 ^ k) (count q))
              ∙ (ap (λ t. (t + count q) % 2 ^ k) (sym (queue_index-mod v q.read_index))
                  ∙ ap (λ t. (queue_index q q.read_index + count q) % t) (sym v.masks)))

      one_more : count (pushed q src) ≡ suc (count q)
      one_more = omega (arith, v.not_over, v.write_small, v.read_small, cap_le v, ne)

  -- On a valid queue, queue_push_nonblock from an object of at least an item's size never leaves
  -- the queue's objects, says whether it stored the item as the bounded FIFO of 2^k - 1 items
  -- does, leaves the queue holding that FIFO's items, and keeps the invariant and the item size.
  pub push_nonblock_refines :
      (src : List ℕ)
      → q.item_size ≤ length src
      → Returns (push_nonblock (some q) (some src)) (PushesAsFifo k q (slice src 0 q.item_size))
  unfolding Fifo.push
  push_nonblock_refines src s = elim (ℕ_discrete (count q + 1) (2 ^ k)) [
    | yes e ↦ rw (push_nonblock_full src e) (v, ground (arith, length-contents q), refl)
    | no ne ↦
        rw (push_nonblock_room src s ne)
          (pushed-IsValid src ne, ground (arith, length-contents q, contents-pushed src ne), refl)
  ]
