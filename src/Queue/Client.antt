-- ===== src/Queue/Client.antt =====
-- A client that pushes items and pops them into a buffer of its own, call after call.
pub mod Behaviour
use nuhal.Common.{
  ℕ, Bool, none, some, List, [], ◌∷◌, if◌then◌else◌, replicate, Outcome, ok, ◌>>=◌, Ptr,
}
use nuhal.Queue.{Queue, push_nonblock, pop_nonblock}
use nuhal.Queue.Fifo.{Item, Op, put, get, Reply, stored, received}

-- What a pop hands over: the contents of the client's buffer, if there was an item.
abbrev pub handed : Bool → Ptr (List ℕ) → Ptr Item
handed popped out = if popped then out else none

unfoldable pub run : Queue → List Op → Outcome (List Reply)
run q [] = ok []
run q (put x ∷ ops) = do
  (b, q') ← push_nonblock (some q) (some x)
  rest ← run q' ops
  ok (stored b ∷ rest)
run q (get ∷ ops) = do
  (b, out, q') ← pop_nonblock (some q) (some (replicate q.item_size 0))
  rest ← run q' ops
  ok (received (handed b out) ∷ rest)
