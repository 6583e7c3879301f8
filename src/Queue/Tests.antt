-- ===== src/Queue/Tests.antt =====
-- Runs of the queue, and the theorems at concrete queues.
use nuhal.Common.{◌≡◌, refl, arith, true, false, none, some, List, [], ◌∷◌, ok, Returns, replicate}
use nuhal.Memory.{slice}
use nuhal.Queue.{
  Queue, queue_index, init, push_nonblock, pop_nonblock, copy_in, copy_out, is_full, is_empty,
}
use nuhal.Queue.Fifo
use nuhal.Queue.Fifo.{Op, put, get, Reply, stored, received}
use nuhal.Queue.Invariant.{IsValid}
use nuhal.Queue.Refinement.{contents, PushesAsFifo, PopsAsFifo}
use nuhal.Queue.Refinement.Push.{push_nonblock_refines}
use nuhal.Queue.Refinement.Pop.{pop_nonblock_refines}
use nuhal.Queue.Capacity.{fresh, init_accepts}
use nuhal.Queue.Client.{run}
use nuhal.Queue.Client.Behaviour.{run_refines}

-- Four slots of two bytes. The consumer's index is about to wrap, and the producer's has wrapped: the
-- items are 40 41 in the last slot and 10 11 in the first.
abbrev wrapped : Queue
wrapped = record {
  mask = 3;
  item_size = 2;
  buffer = 10 ∷ 11 ∷ 20 ∷ 21 ∷ 30 ∷ 31 ∷ 40 ∷ 41 ∷ [];
  write_index = 1;
  read_index = 4294967295;
}

wrapped-IsValid : IsValid 2 wrapped
wrapped-IsValid = record {
  bits = omega arith;
  masks = refl;
  room = omega arith;
  small = omega arith;
  write_small = omega arith;
  read_small = omega arith;
  not_over = omega arith;
}

abbrev script : List Op
script = put (1 ∷ 2 ∷ []) ∷ put (3 ∷ 4 ∷ []) ∷ get ∷ get ∷ put (5 ∷ 6 ∷ []) ∷ get ∷ get ∷ get ∷ []

contents-wrapped : contents wrapped ≡ (40 ∷ 41 ∷ []) ∷ (10 ∷ 11 ∷ []) ∷ []
unfolding slice queue_index
contents-wrapped = refl

-- The third item fills the queue, whose fourth slot stays free.
run-wrapped :
    run wrapped script
    ≡ ok (
        stored true
        ∷ stored false
        ∷ received (some (40 ∷ 41 ∷ []))
        ∷ received (some (10 ∷ 11 ∷ []))
        ∷ stored true
        ∷ received (some (1 ∷ 2 ∷ []))
        ∷ received (some (5 ∷ 6 ∷ []))
        ∷ received none
        ∷ [])
unfolding run push_nonblock pop_nonblock copy_in copy_out is_full is_empty queue_index
run-wrapped = refl

run_refines_example : run wrapped script ≡ ok (Fifo.run 4 (contents wrapped) script)
run_refines_example = run_refines script 2 wrapped wrapped-IsValid (refl, (refl, (refl, tt)))

push_nonblock_refines_example :
    Returns
      (push_nonblock (some wrapped) (some (1 ∷ 2 ∷ 3 ∷ [])))
      (PushesAsFifo 2 wrapped (1 ∷ 2 ∷ []))
unfolding slice
push_nonblock_refines_example = push_nonblock_refines wrapped-IsValid (1 ∷ 2 ∷ 3 ∷ []) (omega arith)

pop_nonblock_refines_example :
    Returns
      (pop_nonblock (some wrapped) (some (0 ∷ 0 ∷ 7 ∷ [])))
      (PopsAsFifo 2 wrapped (some (0 ∷ 0 ∷ 7 ∷ [])))
pop_nonblock_refines_example =
    pop_nonblock_refines wrapped-IsValid (some (0 ∷ 0 ∷ 7 ∷ [])) (omega arith)

init_accepts_example :
    (init 4 2 (replicate 8 0) ≡ ok (fresh 4 2 (replicate 8 0)))
    × IsValid 2 (fresh 4 2 (replicate 8 0))
    × (contents (fresh 4 2 (replicate 8 0)) ≡ [])
init_accepts_example =
    init_accepts 2 2 (replicate 8 0) (omega arith) (omega arith) (omega arith) (omega arith)
