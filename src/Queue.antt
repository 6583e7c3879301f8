-- ===== src/Queue.antt =====
-- nuhal_all/src/queue.c: the circular buffer of one producer and one consumer, as calls that run to
-- their end. `data` is the caller's object from the pointer on; the indices run freely through
-- uint32_t and are masked where they are used.
pub mod Invariant
pub mod Fifo
pub mod Copy
pub mod Window
pub mod Refinement
pub mod Capacity
pub mod Client
pub mod Blocking
pub mod Concurrent
mod Tests
use nuhal.Common.{
  ℕ, zero, suc, ◌+◌, ◌*◌, Bool, true, false, not, ◌||◌, none, some, List, ◌==◌, leb, if◌then◌else◌,
  bit_and, u32, add32, sub32,
}
use nuhal.Common.{
  Outcome, ok, err, ◌>>=◌, Ptr, require, load, store, bad_capacity, null_pointer, queue_is_null,
  queue_is_full, queue_is_empty,
}

-- `struct queue`
pub record Queue : Type 0 where
  pub mask : ℕ
  pub item_size : ℕ
  pub buffer : List ℕ
  pub write_index : ℕ
  pub read_index : ℕ

unfoldable pub queue_index : Queue → ℕ → ℕ
queue_index q curr = bit_and curr q.mask

-- `queue_init`
unfoldable pub init : ℕ → ℕ → List ℕ → Outcome Queue
init capacity item_size buffer =
    if not (0 == bit_and (sub32 capacity 1) capacity) || leb capacity 1
    then err bad_capacity
    else ok (record {
      mask = sub32 capacity 1;
      item_size = item_size;
      buffer = buffer;
      write_index = 0;
      read_index = 0;
    })

unfoldable pub is_full : Ptr Queue → Outcome Bool
is_full queue = do
  q ← require queue queue_is_null
  ok (queue_index q (add32 q.write_index 1) == queue_index q q.read_index)

unfoldable pub is_empty : Ptr Queue → Outcome Bool
is_empty queue = do
  q ← require queue queue_is_null
  ok (queue_index q q.read_index == queue_index q q.write_index)

-- The copying loops, with `n` rounds left: `dst[base + i] = src[i]`, and `dst[i] = src[base + i]`,
-- where the index into the queue's data is a uint32_t.
unfoldable pub copy_in : List ℕ → ℕ → List ℕ → ℕ → ℕ → Outcome (List ℕ)
copy_in dst base src i zero = ok dst
copy_in dst base src i (suc n) = do
  x ← load src i
  dst' ← store dst (u32 (base + i)) x
  copy_in dst' base src (i + 1) n

unfoldable pub copy_out : List ℕ → List ℕ → ℕ → ℕ → ℕ → Outcome (List ℕ)
copy_out dst src base i zero = ok dst
copy_out dst src base i (suc n) = do
  x ← load src (u32 (base + i))
  dst' ← store dst i x
  copy_out dst' src base (i + 1) n

-- `queue_push_nonblock`
unfoldable pub push_nonblock : Ptr Queue → Ptr (List ℕ) → Outcome (Bool × Queue)
push_nonblock queue item = do
  q ← require queue null_pointer
  src ← require item null_pointer
  full ← is_full (some q)
  if full then ok (false, q) else do
    let base = u32 (queue_index q q.write_index * q.item_size)
    buffer ← copy_in q.buffer base src 0 q.item_size
    ok (true, record q { buffer = buffer; write_index = add32 q.write_index 1 })

-- `queue_pop_nonblock`; what `out` points to comes back beside the queue.
unfoldable pub pop_nonblock : Ptr Queue → Ptr (List ℕ) → Outcome (Bool × Ptr (List ℕ) × Queue)
pop_nonblock queue out = do
  q ← require queue null_pointer
  empty ← is_empty (some q)
  if empty then ok (false, out, q) else do
    let base = u32 (queue_index q q.read_index * q.item_size)
    out' ← elim out [
      | none ↦ ok none
      | some dst ↦ do dst' ← copy_out dst q.buffer base 0 q.item_size; ok (some dst')
    ]
    ok (true, out', record q { read_index = add32 q.read_index 1 })

-- `queue_push_error`
unfoldable pub push_error : Ptr Queue → Ptr (List ℕ) → Outcome Queue
push_error queue item = do
  (pushed, q) ← push_nonblock queue item
  if pushed then ok q else err queue_is_full

-- `queue_pop_error`
unfoldable pub pop_error : Ptr Queue → Ptr (List ℕ) → Outcome (Ptr (List ℕ) × Queue)
pop_error queue out = do
  (popped, out', q) ← pop_nonblock queue out
  if popped then ok (out', q) else err queue_is_empty
