-- ===== src/Queue/Blocking/Waits.antt =====
-- The blocking calls with no timeout, and with one.
use nuhal.Common.{
  ℕ, zero, suc, ◌+◌, ◌^◌, ◌≤◌, ◌<◌, ◌≡◌, refl, ◌∙◌, ap, arith, Bool, true, false, Option, some,
  List, length, Outcome, ok, err, undefined, unfinished, ◌>>=◌, Ptr, Returns, Returns-ok,
}
use mathlib.Core.Path.{subst, sym}
use native.Mathlib.Nat.{add-zero}
use nuhal.Memory.{slice}
use nuhal.Time.{TimeElapsed, elapsed_init}
use nuhal.Queue.{Queue, push_nonblock, pop_nonblock}
use nuhal.Queue.Invariant.{IsValid, count}
use nuhal.Queue.Fifo
use nuhal.Queue.Refinement.{length-contents, PushesAsFifo, PopsAsFifo, TakesItem}
use nuhal.Queue.Refinement.Push.{push_nonblock_refines}
use nuhal.Queue.Refinement.Pop.{pop_nonblock_refines}
use nuhal.Queue.Blocking.{goes_on, block_loop, push_block, pop_block, pop_attempt}

module _ (clock : ℕ → ℕ) (period : ℕ) {A : Type 0} (attempt : ℕ → Outcome (Bool × A)) where
  abbrev pub Succeeds : Outcome (Option A) → Type 0
  Succeeds r = (j : ℕ) × (a : A) × (r ≡ ok (some a)) × (attempt j ≡ ok (true, a))

  -- A round with no timeout whose attempt has returned.
  round_waits :
      (n fuel : ℕ) (s : TimeElapsed) (done : Bool) (a : A)
      → attempt n ≡ ok (done, a)
      → (done ≡ false → Succeeds (block_loop clock period attempt fuel s (suc n) 0))
      → Succeeds (block_loop clock period attempt (suc fuel) s n 0)
  unfolding block_loop goes_on
  round_waits n fuel s true a e more = (n, a, rw e refl, e)
  round_waits n fuel s false a e more = rw e (more refl)

  -- With no timeout the loop waits for an attempt that succeeds.
  pub loop_waits :
      (i n fuel : ℕ) (s : TimeElapsed)
      → i < fuel
      → ((j : ℕ) → Returns (attempt j) (λ _. Unit))
      → Returns (attempt (n + i)) (λ (done, _). done ≡ true)
      → Succeeds (block_loop clock period attempt fuel s n 0)
  loop_waits i n zero s h all hit = absurd (omega arith)
  loop_waits zero n (suc fuel) s h all hit =
      let ((done, a), e, _) = Returns-ok (attempt n) (λ _. Unit) (all n) in
      let hit' : Returns (attempt n) (λ (done, _). done ≡ true) =
        subst (λ k. Returns (attempt k) (λ (done, _). done ≡ true)) (add-zero n) hit in
      let yes : done ≡ true = rw e at hit' in
      round_waits n fuel s done a e λ no. absurd (ground arith)
  loop_waits (suc i) n (suc fuel) s h all hit =
      let ((done, a), e, _) = Returns-ok (attempt n) (λ _. Unit) (all n) in
      round_waits n fuel s done a e λ _.
        loop_waits i (suc n) fuel s (omega arith) all
          (subst (λ k. Returns (attempt k) (λ (done, _). done ≡ true)) shift hit)
    where
      shift : n + suc i ≡ suc n + i
      shift = omega arith

-- The three results of a pop, taken together and apart again.
apart : Outcome (Bool × (Ptr (List ℕ) × Queue)) → Outcome (Bool × Ptr (List ℕ) × Queue)
apart m = m >>= λ (done, r). ok (done, r.0, r.1)

apart_together :
    (m : Outcome (Bool × Ptr (List ℕ) × Queue))
    → apart (m >>= λ (done, out, q). ok (done, (out, q))) ≡ m
unfolding apart
apart_together (ok m) = refl
apart_together (err e) = refl
apart_together undefined = refl
apart_together unfinished = refl

module _ (clock : ℕ → ℕ) (period k : ℕ) (seen : ℕ → Queue)
    (valid : (n : ℕ) → IsValid k (seen n)) where
  push_has_room :
      (n : ℕ) (src : List ℕ)
      → (seen n).item_size ≤ length src
      → count (seen n) + 1 < 2 ^ k
      → Returns (push_nonblock (some (seen n)) (some src)) (λ (done, _). done ≡ true)
  unfolding Fifo.push
  push_has_room n src size room =
      let (r, e, p) =
        Returns-ok (push_nonblock (some (seen n)) (some src))
          (PushesAsFifo k (seen n) (slice src 0 (seen n).item_size))
          (push_nonblock_refines (valid n) src size) in
      rw e (ground (arith, p.1, length-contents (seen n)))

  -- With a timeout of 0, if every attempt finds a valid queue and the source holds an item of its
  -- size, and one of the first attempts that the fuel allows finds room, queue_push_block returns
  -- after an attempt that pushed the item onto the queue that it found, as the bounded FIFO does.
  pub push_block_waits :
      (i fuel : ℕ) (src : List ℕ)
      → i < fuel
      → ((n : ℕ) → (seen n).item_size ≤ length src)
      → count (seen (1 + i)) + 1 < 2 ^ k
      → (j : ℕ) × (q : Queue) × (push_block clock period fuel (λ n. some (seen n)) (some src) 0
          ≡ ok (some q))
        × PushesAsFifo k (seen j) (slice src 0 (seen j).item_size) (true, q)
  unfolding push_block
  push_block_waits i fuel src h sizes room =
      let (j, q, e, hit) =
        loop_waits clock period (λ n. push_nonblock (some (seen n)) (some src)) i 1 fuel
          (elapsed_init (clock 0)) h (λ n. returns n)
          (push_has_room (1 + i) src (sizes (1 + i)) room) in
      (j, q, e, rw hit at (refines j))
    where
      refines :
          (n : ℕ)
          → Returns
              (push_nonblock (some (seen n)) (some src))
              (PushesAsFifo k (seen n) (slice src 0 (seen n).item_size))
      refines n = push_nonblock_refines (valid n) src (sizes n)

      returns : (n : ℕ) → Returns (push_nonblock (some (seen n)) (some src)) (λ _. Unit)
      returns n =
          let (r, e, p) = Returns-ok (push_nonblock (some (seen n)) (some src)) _ (refines n) in
          rw e tt

  pop_has_item :
      (n : ℕ) (out : Ptr (List ℕ))
      → TakesItem (seen n).item_size out
      → 0 < count (seen n)
      → Returns (pop_attempt (λ n. some (seen n)) out n) (λ (done, _). done ≡ true)
  unfolding Fifo.pop
  pop_has_item n out fits item =
      let (r, e, p) =
        Returns-ok (pop_nonblock (some (seen n)) out) (PopsAsFifo k (seen n) out)
          (pop_nonblock_refines (valid n) out fits) in
      rw e (ground (arith, p.1, length-contents (seen n)))

  -- With a timeout of 0, if every attempt finds a valid queue whose item fits `out` or `out` is
  -- NULL, and one of the first attempts that the fuel allows finds an item, queue_pop_block
  -- returns after an attempt that popped the oldest item of the queue that it found.
  pub pop_block_waits :
      (i fuel : ℕ) (out : Ptr (List ℕ))
      → i < fuel
      → ((n : ℕ) → TakesItem (seen n).item_size out)
      → 0 < count (seen (1 + i))
      → (j : ℕ) × (r : Ptr (List ℕ) × Queue) × (pop_block clock period fuel
            (λ n. some (seen n))
            out
            0
          ≡ ok (some r))
        × PopsAsFifo k (seen j) out (true, r.0, r.1)
  unfolding pop_block apart
  pop_block_waits i fuel out h fits item =
      let (j, r, e, hit) =
        loop_waits clock period (pop_attempt (λ n. some (seen n)) out) i 1 fuel
          (elapsed_init (clock 0)) h (λ n. returns n)
          (pop_has_item (1 + i) out (fits (1 + i)) item) in
      (j, r, e, taken j r hit)
    where
      refines : (n : ℕ) → Returns (pop_nonblock (some (seen n)) out) (PopsAsFifo k (seen n) out)
      refines n = pop_nonblock_refines (valid n) out (fits n)

      returns : (n : ℕ) → Returns (pop_attempt (λ n. some (seen n)) out n) (λ _. Unit)
      returns n =
          let (r, e, p) = Returns-ok (pop_nonblock (some (seen n)) out) _ (refines n) in rw e tt

      taken :
          (n : ℕ) (r : Ptr (List ℕ) × Queue)
          → pop_attempt (λ n. some (seen n)) out n ≡ ok (true, r)
          → PopsAsFifo k (seen n) out (true, r.0, r.1)
      taken n r hit =
          let e : pop_nonblock (some (seen n)) out ≡ ok (true, r.0, r.1) =
            sym (apart_together (pop_nonblock (some (seen n)) out)) ∙ ap apart hit in
          rw e at (refines n)
