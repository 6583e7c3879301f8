-- ===== src/Queue/Concurrent/Push.antt =====
-- The producer's steps keep what holds between turns.
use nuhal.Common.{
  ℕ, suc, ◌+◌, ◌*◌, ◌^◌, ◌<◌, ◌≡◌, ◌≢◌, refl, sym, ◌∙◌, ap, List, [], ◌∷◌, ◌++◌, arith, length,
  length-set, set, ok, add32, Returns, eq→==, ne→==, append-nil, u32,
}
use native.Mathlib.Decide.{ℕ_discrete}
use nuhal.Memory.{slice, byte_at, load_of_lt, store_of_lt, slice_whole}
use nuhal.Queue.{Queue, queue_index, copy_in}
use nuhal.Queue.Fifo.{Item}
use nuhal.Queue.Invariant.{IsValid, count, is_full_lem}
use nuhal.Queue.Refinement.{contents, slot_fits, cap_le}
use nuhal.Queue.Window.{window}
use nuhal.Queue.Concurrent.{
  Producer, between_pushes, pushing, Consumer, between_pops, popping, push_step,
}
use nuhal.Queue.Concurrent.Slots.{
  slice-set_next, slice-set_other, window-set_other, window-snoc, slice-snoc_start,
}
use nuhal.Queue.Concurrent.Invariant.{
  write_base, PushIsValid, PopIsValid, write-slot_after, slots_ne,
}

-- The queue with one more byte of an item in the producer's slot.
abbrev byte_in : Queue → List ℕ → ℕ → Queue
byte_in q src i = record q { buffer = set q.buffer (write_base q + i) (byte_at src i) }

-- The queue with the producer's slot handed over.
abbrev sent_on : Queue → Queue
sent_on q = record q { write_index = add32 q.write_index 1 }

module _ {k : ℕ} {q : Queue} (v : IsValid k q) where
  byte_in-IsValid : (src : List ℕ) (i : ℕ) → IsValid k (byte_in q src i)
  byte_in-IsValid src i = record {
    bits = v.bits;
    masks = v.masks;
    room = omega (arith, v.room, length-set q.buffer (write_base q + i) (byte_at src i));
    small = v.small;
    write_small = v.write_small;
    read_small = v.read_small;
    not_over = v.not_over;
  }

  contents-byte_in :
      (src : List ℕ) (i : ℕ) → i < q.item_size → contents (byte_in q src i) ≡ contents q
  unfolding queue_index
  contents-byte_in src i h =
      ap
        (λ slot.
          window q.item_size (q.mask + 1) (set q.buffer (slot * q.item_size + i) (byte_at src i))
            (queue_index q q.read_index) (count q))
        (write-slot_after v)
      ∙ window-set_other q.item_size (q.mask + 1) q.buffer i (byte_at src i) (count q)
          (queue_index q q.read_index) (omega (arith, v.masks, (slot_fits v q.read_index).0))
          (omega (arith, v.masks, v.not_over)) h

  -- The producer's bytes are not in the slot that the consumer reads.
  pop-byte_in :
      (src : List ℕ) (i : ℕ) (c : Consumer)
      → i < q.item_size
      → PopIsValid q c
      → PopIsValid (byte_in q src i) c
  unfolding queue_index
  pop-byte_in src i between_pops h w = w
  pop-byte_in src i (popping dst j) h (exact, j_le, some_item, copied) = (
    exact,
    j_le,
    some_item,
    copied
        ∙ sym (
            slice-set_other q.item_size (queue_index q q.read_index) (queue_index q q.write_index) i
              j (byte_at src i) q.buffer (slots_ne v some_item) h j_le),
  )

  push-byte_in :
      (src : List ℕ) (i : ℕ)
      → i < q.item_size
      → PushIsValid k q (pushing src i)
      → PushIsValid k (byte_in q src i) (pushing src (i + 1))
  unfolding queue_index
  push-byte_in src i h (exact, i_le, room, copied) = (
    exact,
    omega arith,
    room,
    ap (slice (set q.buffer (write_base q + i) (byte_at src i)) (write_base q)) (omega arith)
        ∙ (slice-set_next q.buffer (write_base q) i (byte_at src i)
              (omega (arith, (slot_fits v q.write_index).1))
            ∙ (ap (λ (t : List ℕ). t ++ byte_at src i ∷ []) copied ∙ sym (slice-snoc_start src i))),
  )

  sent_on-IsValid : count q + 1 < 2 ^ k → IsValid k (sent_on q)
  sent_on-IsValid room = record {
    bits = v.bits;
    masks = v.masks;
    room = v.room;
    small = v.small;
    write_small = omega arith;
    read_small = v.read_small;
    not_over = omega (arith, v.not_over, v.write_small, v.read_small, cap_le v);
  }

  one_more : count q + 1 < 2 ^ k → count (sent_on q) ≡ suc (count q)
  one_more room = omega (arith, v.not_over, v.write_small, v.read_small, cap_le v)

  contents-sent_on :
      (src : List ℕ)
      → PushIsValid k q (pushing src q.item_size)
      → contents (sent_on q) ≡ contents q ++ src ∷ []
  unfolding queue_index
  contents-sent_on src (exact, _, room, copied) =
      ap (window q.item_size (q.mask + 1) q.buffer (queue_index q q.read_index)) (one_more room)
      ∙ (window-snoc q.item_size (q.mask + 1) q.buffer (count q) (queue_index q q.read_index)
            (omega (arith, v.masks, (slot_fits v q.read_index).0))
          ∙ ap (λ (t : List ℕ). contents q ++ t ∷ [])
              (ap (λ slot. slice q.buffer (slot * q.item_size) q.item_size)
                  (sym (write-slot_after v))
                ∙ (copied ∙ (ap (slice src 0) (sym exact) ∙ slice_whole src))))

  pop-sent_on : (c : Consumer) → count q + 1 < 2 ^ k → PopIsValid q c → PopIsValid (sent_on q) c
  unfolding queue_index
  pop-sent_on between_pops room w = w
  pop-sent_on (popping dst j) room (exact, j_le, some_item, copied) =
      (exact, j_le, omega (arith, one_more room), copied)

-- What a producer's step may lead to while the consumer stands still.
abbrev pub PushKeeps : ℕ → Queue → Consumer → Queue × Producer × List Item → Type 0
PushKeeps k q c (q', p, done) =
    IsValid k q'
    × (q'.item_size ≡ q.item_size)
    × PushIsValid k q' p
    × PopIsValid q' c
    × (contents q' ≡ contents q ++ done)

module _ {k : ℕ} {q : Queue} (v : IsValid k q) (c : Consumer) (w : PopIsValid q c) where
  push_step-starts :
      (item : Item)
      → length item ≡ q.item_size
      → Returns (push_step q between_pushes item) (PushKeeps k q c)
  unfolding push_step slice
  push_step-starts item exact = elim (ℕ_discrete (count q + 1) (2 ^ k)) [
    | yes e ↦
        rw (is_full_lem v, eq→== (count q + 1) (2 ^ k) e)
          (v, refl, tt, w, sym (append-nil (contents q)))
    | no ne ↦
        rw (is_full_lem v, ne→== (count q + 1) (2 ^ k) ne)
          (
            v,
            refl,
            (exact, omega arith, omega (arith, v.not_over, ne), refl),
            w,
            sym (append-nil (contents q)),
          )
  ]

  push_step-goes_on :
      (src item : Item) (i : ℕ)
      → PushIsValid k q (pushing src i)
      → Returns (push_step q (pushing src i) item) (PushKeeps k q c)
  unfolding push_step copy_in
  push_step-goes_on src item i h = elim (ℕ_discrete i q.item_size) [
    | yes e ↦
        rw (eq→== i q.item_size e) (
          sent_on-IsValid v h.2,
          refl,
          tt,
          pop-sent_on v c h.2 w,
          contents-sent_on v src (rw e at h),
        )
    | no ne ↦
        rw (ne→== i q.item_size ne, copies ne)
          (
            byte_in-IsValid v src i,
            refl,
            push-byte_in v src i (omega (arith, h.1, ne)) h,
            pop-byte_in v src i c (omega (arith, h.1, ne)) w,
            contents-byte_in v src i (omega (arith, h.1, ne)) ∙ sym (append-nil (contents q)),
          )
  ]
    where
      copies :
          i ≢ q.item_size
          → copy_in q.buffer (u32 (write_base q)) src i 1 ≡ ok (byte_in q src i).buffer
      copies ne = ground (
        arith,
        h.0,
        h.1,
        slot_fits v q.write_index,
        load_of_lt src i,
        store_of_lt q.buffer (write_base q + i) (byte_at src i),
      )

  pub push_step-PushKeeps :
      (p : Producer) (item : Item)
      → length item ≡ q.item_size
      → PushIsValid k q p
      → Returns (push_step q p item) (PushKeeps k q c)
  push_step-PushKeeps between_pushes item exact h = push_step-starts item exact
  push_step-PushKeeps (pushing src i) item exact h = push_step-goes_on src item i h
