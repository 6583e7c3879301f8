-- ===== src/Queue/Concurrent/Tests.antt =====
-- A schedule of the two sides of a queue of four slots of two bytes, each in the middle of its copy
-- when the other runs.
use nuhal.Common.{◌≡◌, refl, arith, List, [], ◌∷◌, ok, Outcome, Returns, ◌>>=◌}
use nuhal.Memory.{slice}
use nuhal.Queue.{queue_index, copy_in, copy_out, is_full, is_empty}
use nuhal.Queue.Fifo.{Item}
use nuhal.Queue.Concurrent.{
  System, Turn, produce, consume, between_pushes, between_pops, run_turns, take_turn, push_step,
  pop_step,
}
use nuhal.Queue.Concurrent.Invariant.{IsConsistent}
use nuhal.Queue.Concurrent.Turns.{run_turns-IsConsistent}

-- One item is stored, in the last slot; the indices are about to wrap.
abbrev one_item : System
one_item = record {
  queue = record {
    mask = 3;
    item_size = 2;
    buffer = 10 ∷ 11 ∷ 20 ∷ 21 ∷ 30 ∷ 31 ∷ 40 ∷ 41 ∷ [];
    write_index = 0;
    read_index = 4294967295;
  };
  producer = between_pushes;
  consumer = between_pops;
  sent = (40 ∷ 41 ∷ []) ∷ [];
  received = [];
}

abbrev schedule : List Turn
schedule =
    produce (1 ∷ 2 ∷ [])
    ∷ consume
    ∷ produce (1 ∷ 2 ∷ [])
    ∷ consume
    ∷ consume
    ∷ consume
    ∷ consume
    ∷ produce (1 ∷ 2 ∷ [])
    ∷ produce (1 ∷ 2 ∷ [])
    ∷ consume
    ∷ consume
    ∷ consume
    ∷ consume
    ∷ []

-- The consumer finds the queue empty until the producer's last step, and then pops the item.
abbrev received_in : Outcome System → Outcome (List Item)
received_in m = do s ← m; ok s.received

received-schedule :
    received_in (run_turns one_item schedule) ≡ ok ((40 ∷ 41 ∷ []) ∷ (1 ∷ 2 ∷ []) ∷ [])
unfolding run_turns take_turn push_step pop_step is_full is_empty queue_index copy_in copy_out
received-schedule = refl

one_item-IsConsistent : IsConsistent 2 2 one_item
unfolding slice queue_index
one_item-IsConsistent = record {
  valid = record {
    bits = omega arith;
    masks = refl;
    room = omega arith;
    small = omega arith;
    write_small = omega arith;
    read_small = omega arith;
    not_over = omega arith;
  };
  sized = refl;
  push = tt;
  pop = tt;
  fifo = refl;
}

run_turns-IsConsistent_example : Returns (run_turns one_item schedule) (IsConsistent 2 2)
run_turns-IsConsistent_example =
    run_turns-IsConsistent one_item schedule
      (refl, (tt, (refl, (tt, (tt, (tt, (tt, (refl, (refl, (tt, (tt, (tt, (tt, tt)))))))))))))
      one_item-IsConsistent
