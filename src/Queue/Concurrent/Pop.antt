-- ===== src/Queue/Concurrent/Pop.antt =====
-- The consumer's steps keep what holds between turns.
use nuhal.Common.{
  ℕ, ◌+◌, ◌<◌, ◌≡◌, ◌≢◌, refl, sym, ◌∙◌, ap, List, [], ◌∷◌, ◌++◌, arith, length-set,
  length-replicate, set, ok, Returns, eq→==, ne→==, u32,
}
use native.Mathlib.Decide.{ℕ_discrete}
use nuhal.Memory.{slice, byte_at, load_of_lt, store_of_lt, slice_whole}
use nuhal.Queue.{Queue, queue_index, copy_out}
use nuhal.Queue.Fifo.{Item}
use nuhal.Queue.Invariant.{IsValid, count, is_empty_lem}
use nuhal.Queue.Refinement.{contents, slot_fits}
use nuhal.Queue.Refinement.Pop.{popped, popped-IsValid, contents-popped}
use nuhal.Queue.Concurrent.{
  Producer, between_pushes, pushing, Consumer, between_pops, popping, pop_step,
}
use nuhal.Queue.Concurrent.Slots.{slice-set_start, slice-snoc_at}
use nuhal.Queue.Concurrent.Invariant.{read_base, PushIsValid, PopIsValid}

module _ {k : ℕ} {q : Queue} (v : IsValid k q) where
  -- A pop makes room, and leaves the bytes of the producer's slot.
  push-popped : (p : Producer) → 0 < count q → PushIsValid k q p → PushIsValid k (popped q) p
  unfolding queue_index
  push-popped between_pushes some_item w = w
  push-popped (pushing src i) some_item (exact, i_le, room, copied) =
      (exact, i_le, omega (arith, v.not_over, v.write_small, v.read_small, some_item), copied)

  -- One more byte of the item that is read.
  pop-byte_out :
      (dst : List ℕ) (i : ℕ)
      → i < q.item_size
      → PopIsValid q (popping dst i)
      → PopIsValid q (popping (set dst i (byte_at q.buffer (read_base q + i))) (i + 1))
  pop-byte_out dst i h (exact, i_le, some_item, copied) = (
    omega (arith, exact, length-set dst i (byte_at q.buffer (read_base q + i))),
    omega arith,
    some_item,
    slice-set_start dst i (byte_at q.buffer (read_base q + i)) (omega (arith, exact))
        ∙ (ap (λ (t : List ℕ). t ++ byte_at q.buffer (read_base q + i) ∷ []) copied
            ∙ sym (slice-snoc_at q.buffer (read_base q) i)),
  )

-- What a consumer's step may lead to while the producer stands still.
abbrev pub PopKeeps : ℕ → Queue → Producer → Queue × Consumer × List Item → Type 0
PopKeeps k q p (q', c, done) =
    IsValid k q'
    × (q'.item_size ≡ q.item_size)
    × PushIsValid k q' p
    × PopIsValid q' c
    × (contents q ≡ done ++ contents q')

module _ {k : ℕ} {q : Queue} (v : IsValid k q) (p : Producer) (w : PushIsValid k q p) where
  pop_step-starts : Returns (pop_step q between_pops) (PopKeeps k q p)
  unfolding pop_step slice
  pop_step-starts = elim (ℕ_discrete (count q) 0) [
    | yes e ↦ rw (is_empty_lem v, eq→== (count q) 0 e) (v, refl, w, tt, refl)
    | no ne ↦
        rw (is_empty_lem v, ne→== (count q) 0 ne)
          (v, refl, w, (length-replicate q.item_size 0, omega arith, omega arith, refl), refl)
  ]

  pop_step-goes_on :
      (dst : Item) (i : ℕ)
      → PopIsValid q (popping dst i)
      → Returns (pop_step q (popping dst i)) (PopKeeps k q p)
  unfolding pop_step copy_out
  pop_step-goes_on dst i h = elim (ℕ_discrete i q.item_size) [
    | yes e ↦
        rw (eq→== i q.item_size e)
          (popped-IsValid v (omega (arith, h.2)), refl, push-popped v p h.2 w, tt, contents_read e)
    | no ne ↦
        rw (ne→== i q.item_size ne, copies ne)
          (v, refl, w, pop-byte_out v dst i (omega (arith, h.1, ne)) h, refl)
  ]
    where
      copies :
          i ≢ q.item_size
          → copy_out dst q.buffer (u32 (read_base q)) i 1
            ≡ ok (set dst i (byte_at q.buffer (read_base q + i)))
      copies ne = ground (
        arith,
        h.0,
        h.1,
        slot_fits v q.read_index,
        load_of_lt q.buffer (read_base q + i),
        store_of_lt dst i (byte_at q.buffer (read_base q + i)),
      )

      contents_read : i ≡ q.item_size → contents q ≡ dst ∷ contents (popped q)
      contents_read e =
          contents-popped v (omega (arith, h.2))
          ∙ ap (λ (t : List ℕ). t ∷ contents (popped q))
              (ap (slice q.buffer (read_base q)) (sym e)
                ∙ (sym h.3 ∙ (ap (slice dst 0) (e ∙ sym h.0) ∙ slice_whole dst)))

  pub pop_step-PopKeeps : (c : Consumer) → PopIsValid q c → Returns (pop_step q c) (PopKeeps k q p)
  pop_step-PopKeeps between_pops h = pop_step-starts
  pop_step-PopKeeps (popping dst i) h = pop_step-goes_on dst i h
