-- ===== src/Queue/Concurrent.antt =====
-- nuhal_all/src/queue.c with its two sides interleaved: `queue_push_nonblock` and `queue_pop_nonblock`
-- run at once, each in steps that touch memory of the other side once. The accesses are volatile and
-- in program order, and a uint32_t is read and written in one go.
pub mod Slots
pub mod Invariant
mod Push
mod Pop
pub mod Turns
mod Tests
use nuhal.Common.{
  ℕ, ◌+◌, ◌*◌, some, List, [], ◌∷◌, ◌++◌, ◌==◌, if◌then◌else◌, u32, add32, replicate, Outcome, ok,
  ◌>>=◌,
}
use nuhal.Queue.{Queue, queue_index, is_full, is_empty, copy_in, copy_out}
use nuhal.Queue.Fifo.{Item}

-- Where the producer stands: outside a push, or in one with `i` bytes of the item copied.
pub data Producer : Type 0 where
  between_pushes : Producer
  pushing : Item → ℕ → Producer

-- Where the consumer stands: outside a pop, or in one with `i` bytes copied to `*out`.
pub data Consumer : Type 0 where
  between_pops : Consumer
  popping : Item → ℕ → Consumer

-- The queue, its two sides, the items whose push has returned true, and those that were popped.
pub record System : Type 0 where
  pub queue : Queue
  pub producer : Producer
  pub consumer : Consumer
  pub sent : List Item
  pub received : List Item

-- The next step of a push: the test for a full queue, one byte, or the advance of the write index.
unfoldable pub push_step : Queue → Producer → Item → Outcome (Queue × Producer × List Item)
push_step q between_pushes item = do
  full ← is_full (some q)
  if full then ok (q, between_pushes, []) else ok (q, pushing item 0, [])
push_step q (pushing src i) item =
    if i == q.item_size
    then ok (record q { write_index = add32 q.write_index 1 }, between_pushes, src ∷ [])
    else do
      buffer ← copy_in q.buffer (u32 (queue_index q q.write_index * q.item_size)) src i 1
      ok (record q { buffer = buffer }, pushing src (i + 1), [])

-- The next step of a pop into a buffer of the item's size.
unfoldable pub pop_step : Queue → Consumer → Outcome (Queue × Consumer × List Item)
pop_step q between_pops = do
  empty ← is_empty (some q)
  if empty then ok (q, between_pops, []) else ok (q, popping (replicate q.item_size 0) 0, [])
pop_step q (popping dst i) =
    if i == q.item_size
    then ok (record q { read_index = add32 q.read_index 1 }, between_pops, dst ∷ [])
    else do
      dst' ← copy_out dst q.buffer (u32 (queue_index q q.read_index * q.item_size)) i 1
      ok (q, popping dst' (i + 1), [])

-- Who goes next; the item is the producer's next one, if it is about to push.
pub data Turn : Type 0 where
  produce : Item → Turn
  consume : Turn

unfoldable pub take_turn : System → Turn → Outcome System
take_turn s (produce item) = do
  (q, p, done) ← push_step s.queue s.producer item
  ok (record s { queue = q; producer = p; sent = s.sent ++ done })
take_turn s consume = do
  (q, c, done) ← pop_step s.queue s.consumer
  ok (record s { queue = q; consumer = c; received = s.received ++ done })

unfoldable pub run_turns : System → List Turn → Outcome System
run_turns s [] = ok s
run_turns s (t ∷ ts) = do s' ← take_turn s t; run_turns s' ts
