-- ===== src/Queue/Client/Behaviour.antt =====
-- What the client of nuhal_all/src/queue.c sees of a valid queue and of the bounded FIFO.
use nuhal.Common.{
  ℕ, zero, suc, ◌+◌, ◌*◌, ◌%◌, ◌^◌, ◌≡◌, ◌∙◌, refl, sym, ap, arith, Bool, none, some, List, [], ◌∷◌,
  length, length-replicate, replicate, Ptr, ok, Returns, Returns-ok,
}
use nuhal.Memory.{slice, slice_whole, length-slice, overwrite_whole}
use nuhal.Queue.{Queue, queue_index, push_nonblock, pop_nonblock}
use nuhal.Queue.Fifo
use nuhal.Queue.Fifo.{Item, Op, put, get, Reply, stored, received}
use nuhal.Queue.Invariant.{IsValid, count}
use nuhal.Queue.Refinement.{contents, popped_view, PushesAsFifo, PopsAsFifo}
use nuhal.Queue.Refinement.Push.{push_nonblock_refines}
use nuhal.Queue.Refinement.Pop.{pop_nonblock_refines}
use nuhal.Queue.Window.{window}
use mathlib.Core.Path.{subst}
use nuhal.Queue.Client.{run, handed}

-- Every item that is pushed has the queue's item size.
abbrev pub AllSized : ℕ → List Op → Type 0
AllSized size [] = Unit
AllSized size (put x ∷ ops) = (length x ≡ size) × AllSized size ops
AllSized size (get ∷ ops) = AllSized size ops

-- Every item of a list has the size.
abbrev ItemsSized : ℕ → List Item → Type 0
ItemsSized size [] = Unit
ItemsSized size (x ∷ items) = (length x ≡ size) × ItemsSized size items

-- One call of each kind, as the client sees it.
after_push :
    (k : ℕ) (q : Queue) (x : Item)
    → IsValid k q
    → length x ≡ q.item_size
    → (r : Bool × Queue) × (push_nonblock (some q) (some x) ≡ ok r) × PushesAsFifo k q x r
after_push k q x v e =
    let whole : slice x 0 q.item_size ≡ x = subst (λ n. slice x 0 n ≡ x) e (slice_whole x) in
    Returns-ok (push_nonblock (some q) (some x)) (PushesAsFifo k q x) (
      subst (λ y. Returns (push_nonblock (some q) (some x)) (PushesAsFifo k q y)) whole
        (push_nonblock_refines v x (omega arith)))

after_pop :
    (k : ℕ) (q : Queue)
    → IsValid k q
    → let out = some (replicate {A = ℕ} q.item_size 0) in
      (r : Bool × Ptr Item × Queue) × (pop_nonblock (some q) out ≡ ok r) × PopsAsFifo k q out r
after_pop k q v =
    Returns-ok (pop_nonblock (some q) (some (replicate q.item_size 0)))
      (PopsAsFifo k q (some (replicate q.item_size 0)))
      (pop_nonblock_refines v (some (replicate q.item_size 0))
        (omega (arith, length-replicate {A = ℕ} q.item_size 0)))

-- What the client's buffer shows is the item.
handed_lem :
    (size : ℕ) (items : List Item)
    → ItemsSized size items
    → let (b, out, _) = popped_view (some (replicate size 0)) (Fifo.pop items) in
      handed b out ≡ (Fifo.pop items).0
unfolding Fifo.pop
handed_lem size [] h = refl
handed_lem size (x ∷ items) h =
    ap some (overwrite_whole (replicate size 0) x (length-replicate size 0 ∙ sym h.0))

popped_view_rest : (out : Ptr Item) (t : Ptr Item × List Item) → (popped_view out t).2 ≡ t.1
popped_view_rest out (none, rest) = refl
popped_view_rest out (some x, rest) = refl

window-ItemsSized : (size cap : ℕ) (m : List ℕ) (s n : ℕ) → ItemsSized size (window size cap m s n)
window-ItemsSized size cap m s zero = tt
window-ItemsSized size cap m s (suc n) =
    (length-slice m (s * size) size, window-ItemsSized size cap m ((s + 1) % cap) n)

-- Any sequence of pushes of whole items and pops gives on a valid queue, with no undefined access
-- and no error, exactly the replies of the bounded FIFO that starts with the queue's items.
pub run_refines :
    (ops : List Op) (k : ℕ) (q : Queue)
    → IsValid k q
    → AllSized q.item_size ops
    → run q ops ≡ ok (Fifo.run (2 ^ k) (contents q) ops)
unfolding run Fifo.run
run_refines [] k q v sized = refl
run_refines (put x ∷ ops) k q v sized =
    let (r, e, p) = after_push k q x v sized.0 in
    let ih : run r.1 ops ≡ ok (Fifo.run (2 ^ k) (contents r.1) ops) =
      run_refines ops k r.1 p.0 (rw p.2 sized.1) in
    rw e (rw ih (ground (arith, p.1)))
run_refines (get ∷ ops) k q v sized =
    let (r, e, p) = after_pop k q v in
    let ih : run r.2 ops ≡ ok (Fifo.run (2 ^ k) (contents r.2) ops) =
      run_refines ops k r.2 p.0 (rw p.2 sized) in
    let shown : handed r.0 r.1 ≡ (Fifo.pop (contents q)).0 =
      ap (λ t. handed t.0 t.1) p.1
      ∙ handed_lem q.item_size (contents q) (
          window-ItemsSized q.item_size (q.mask + 1) q.buffer (queue_index q q.read_index)
            (count q)) in
    let left : contents r.2 ≡ (Fifo.pop (contents q)).1 =
      ap (λ t. t.2) p.1
      ∙ popped_view_rest (some (replicate q.item_size 0)) (Fifo.pop (contents q)) in
    rw (e, ih, shown, left)
