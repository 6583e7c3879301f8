-- ===== src/Queue/Fifo.antt =====
-- What a queue promises: at most `cap - 1` items, first in, first out.
use nuhal.Common.{
  ℕ, suc, Bool, true, false, Option, none, some, List, [], ◌∷◌, ◌++◌, ◌==◌, if◌then◌else◌, length,
}

abbrev pub Item : Type 0
Item = List ℕ

unfoldable pub push : ℕ → List Item → Item → Bool × List Item
push cap items x = if suc (length items) == cap then (false, items) else (true, items ++ x ∷ [])

unfoldable pub pop : List Item → Option Item × List Item
pop [] = (none, [])
pop (x ∷ items) = (some x, items)

-- What a client asks of a queue, and what it sees of each call.
pub data Op : Type 0 where
  put : Item → Op
  get : Op

pub data Reply : Type 0 where
  stored : Bool → Reply
  received : Option Item → Reply

unfoldable pub run : ℕ → List Item → List Op → List Reply
run cap items [] = []
run cap items (put x ∷ ops) = let (b, rest) = push cap items x in stored b ∷ run cap rest ops
run cap items (get ∷ ops) = let (x, rest) = pop items in received x ∷ run cap rest ops
