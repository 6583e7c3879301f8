-- ===== src/Queue/Blocking/Tests.antt =====
-- The blocking calls at concrete queues of two slots of one byte.
use nuhal.Common.{
  ℕ, zero, suc, ◌+◌, ◌*◌, ◌≤◌, ◌<◌, ◌≡◌, refl, arith, true, some, [], ◌∷◌, ok, err, timeout,
}
use nuhal.Memory.{slice}
use nuhal.Time.Elapsed.{reading}
use nuhal.Queue.{Queue}
use nuhal.Queue.Invariant.{IsValid}
use nuhal.Queue.Refinement.{PushesAsFifo}
use nuhal.Queue.Blocking.{push_block}
use nuhal.Queue.Blocking.Waits.{push_block_waits}
use nuhal.Queue.Blocking.TimesOut.{push_block_times_out}

abbrev full : Queue
full = record { mask = 1; item_size = 1; buffer = 7 ∷ 0 ∷ []; write_index = 1; read_index = 0 }

abbrev drained : Queue
drained = record full { read_index = 1 }

full-IsValid : IsValid 1 full
full-IsValid = record {
  bits = omega arith;
  masks = refl;
  room = omega arith;
  small = omega arith;
  write_small = omega arith;
  read_small = omega arith;
  not_over = omega arith;
}

drained-IsValid : IsValid 1 drained
drained-IsValid = record {
  bits = omega arith;
  masks = refl;
  room = omega arith;
  small = omega arith;
  write_small = omega arith;
  read_small = omega arith;
  not_over = omega arith;
}

-- Full at the first attempt, and drained by the consumer before the second.
abbrev draining : ℕ → Queue
draining zero = full
draining (suc zero) = full
draining (suc (suc n)) = drained

draining-IsValid : (n : ℕ) → IsValid 1 (draining n)
draining-IsValid zero = full-IsValid
draining-IsValid (suc zero) = full-IsValid
draining-IsValid (suc (suc n)) = drained-IsValid

one_byte : (n : ℕ) → (draining n).item_size ≤ 1
one_byte zero = omega arith
one_byte (suc zero) = omega arith
one_byte (suc (suc n)) = omega arith

abbrev clock : ℕ → ℕ
clock n = 3 * n

push_block_waits_example :
    (j : ℕ) × (q : Queue) × (push_block clock 100 2 (λ n. some (draining n)) (some (9 ∷ [])) 0
      ≡ ok (some q))
    × PushesAsFifo 1 (draining j) (slice (9 ∷ []) 0 (draining j).item_size) (true, q)
push_block_waits_example =
    push_block_waits clock 100 1 draining draining-IsValid 1 2 (9 ∷ []) (omega arith) one_byte
      (omega arith)

forward : (n : ℕ) → clock n ≤ clock (suc n)
forward n = omega arith

often : (n : ℕ) → clock (suc n) < clock n + 100
often n = omega arith

push_block_times_out_example :
    push_block (reading 100 clock) 100 4 (λ n. some full) (some (9 ∷ [])) 10 ≡ err timeout
push_block_times_out_example =
    push_block_times_out 100 clock 1 (λ n. full) (λ n. full-IsValid) 10 3 (9 ∷ []) (omega arith)
      (omega arith) forward often (omega arith) (omega arith) (λ n. refl) (omega arith)
