-- ===== src/Queue/Refinement/Pop.antt =====
-- `queue_pop_nonblock` beside the pop of the FIFO.
use nuhal.Common.{
  ℕ, suc, ◌+◌, ◌*◌, ◌%◌, ◌^◌, ◌≡◌, ◌≢◌, ◌∙◌, refl, sym, ap, arith, true, false, none, some, List,
  [], ◌∷◌, ok, add32, eq→==, Returns, Ptr,
}
use native.Mathlib.Decide.{ℕ_discrete}
use native.Mathlib.Nat.{mod-add-mod}
use nuhal.Memory.{slice}
use nuhal.Queue.{Queue, queue_index, pop_nonblock}
use nuhal.Queue.Fifo
use nuhal.Queue.Fifo.{Item}
use nuhal.Queue.Invariant.{IsValid, count, queue_index-mod, queue_index-wrap, is_empty_lem}
use nuhal.Queue.Copy.{copy_out_lem}
use nuhal.Queue.Window.{window}
use nuhal.Queue.Refinement.{contents, filled, TakesItem, PopsAsFifo, slot_fits}

-- The queue after its oldest item has gone.
abbrev pub popped : Queue → Queue
popped q = record q { read_index = add32 q.read_index 1 }

module _ {k : ℕ} {q : Queue} (v : IsValid k q) where
  pub popped-IsValid : count q ≢ 0 → IsValid k (popped q)
  popped-IsValid ne = record {
    bits = v.bits;
    masks = v.masks;
    room = v.room;
    small = v.small;
    write_small = v.write_small;
    read_small = omega arith;
    not_over = omega (arith, v.not_over, v.write_small, v.read_small, ne);
  }

  pub contents-popped :
      count q ≢ 0
      → contents q
        ≡ slice q.buffer (queue_index q q.read_index * q.item_size) q.item_size
          ∷ contents (popped q)
  unfolding queue_index
  contents-popped ne =
      ap (window q.item_size (q.mask + 1) q.buffer (queue_index q q.read_index)) one_less
      ∙ ap
          (λ s.
            slice q.buffer (queue_index q q.read_index * q.item_size) q.item_size
            ∷ window q.item_size (q.mask + 1) q.buffer s (count (popped q)))
          next
    where
      one_less : count q ≡ suc (count (popped q))
      one_less = omega (arith, v.not_over, v.write_small, v.read_small, ne)

      next : (queue_index q q.read_index + 1) % (q.mask + 1) ≡ queue_index q (add32 q.read_index 1)
      next =
          ap (λ t. (queue_index q q.read_index + 1) % t) v.masks
          ∙ (ap (λ t. (t + 1) % 2 ^ k) (queue_index-mod v q.read_index)
              ∙ (mod-add-mod q.read_index (2 ^ k) 1 ∙ sym (queue_index-wrap v (q.read_index + 1))))

  contents-empty : count q ≡ 0 → contents q ≡ []
  contents-empty e = ap (window q.item_size (q.mask + 1) q.buffer (queue_index q q.read_index)) e

  pub pop_nonblock_none :
      (out : Ptr (List ℕ)) → count q ≡ 0 → pop_nonblock (some q) out ≡ ok (false, out, q)
  unfolding pop_nonblock
  pop_nonblock_none out e = rw (is_empty_lem v, eq→== (count q) 0 e)

  pop_nonblock_one :
      (out : Ptr (List ℕ))
      → TakesItem q.item_size out
      → count q ≢ 0
      → pop_nonblock (some q) out
        ≡ ok (
          true,
          filled out (slice q.buffer (queue_index q q.read_index * q.item_size) q.item_size),
          popped q,
        )
  unfolding pop_nonblock
  pop_nonblock_one none fits ne = ground (arith, is_empty_lem v)
  pop_nonblock_one (some dst) fits ne = ground (
    arith,
    is_empty_lem v,
    slot_fits v q.read_index,
    copy_out_lem dst q.buffer (queue_index q q.read_index * q.item_size) q.item_size,
  )

  -- On a valid queue, queue_pop_nonblock with a NULL `out`, or one with room for an item, hands
  -- over the oldest item as the FIFO does and leaves the queue holding the rest, or finds the
  -- queue empty and leaves `*out` and the stored items as they are; it keeps the invariant and the
  -- item size.
  pub pop_nonblock_refines :
      (out : Ptr (List ℕ))
      → TakesItem q.item_size out
      → Returns (pop_nonblock (some q) out) (PopsAsFifo k q out)
  unfolding Fifo.pop
  pop_nonblock_refines out fits = elim (ℕ_discrete (count q) 0) [
    | yes e ↦ rw (pop_nonblock_none out e) (v, ground (arith, contents-empty e), refl)
    | no ne ↦
        rw (pop_nonblock_one out fits ne)
          (popped-IsValid ne, ground (arith, contents-popped ne), refl)
  ]
