-- ===== src/Queue/Blocking/TimesOut.antt =====
-- The blocking calls with a timeout, over a clock that counts true time.
use nuhal.Common.{
  ℕ, zero, suc, ◌+◌, ◌-◌, ◌^◌, ◌≤◌, ◌<◌, ◌≡◌, refl, sym, ◌∙◌, ap, arith, Bool, false, Option, some,
  List, ltb, le→ltb, lt→ltb, ne→==, add32, Outcome, ok, err, Ptr, timeout, Returns, Returns-ok,
}
use mathlib.Core.Path.{subst}
use native.Mathlib.Decide.{dec_lt}
use native.Mathlib.Nat.{zero-add, add-zero}
use nuhal.Queue.Refinement.Push.{push_nonblock_full}
use nuhal.Queue.Refinement.Pop.{pop_nonblock_none}
use nuhal.Time.{since, TimeElapsed, elapsed_init, time_elapsed}
use nuhal.Time.Elapsed.{reading, later, Counts, step_lem}
use nuhal.Queue.{Queue, push_nonblock}
use nuhal.Queue.Invariant.{IsValid, count}
use nuhal.Queue.Blocking.{goes_on, block_loop, push_block, pop_block, pop_attempt}

module _ (period : ℕ) (t : ℕ → ℕ) {A : Type 0} (attempt : ℕ → Outcome (Bool × A)) where
  module _ (small : period < 2 ^ 32) (positive : 0 < period) (forward : (n : ℕ) → t n ≤ t (suc n))
      (often : (n : ℕ) → t (suc n) < t n + period) (limit : ℕ) (some_limit : 0 < limit)
      (room : limit + period < 2 ^ 32)
      (fails : (n : ℕ) → Returns (attempt n) (λ (done, _). done ≡ false)) where
    loop : ℕ → TimeElapsed → ℕ → Outcome (Option A)
    loop fuel s n = block_loop (reading period t) period attempt fuel s n limit

    At : ℕ → TimeElapsed → Type 0
    At = Counts period t small positive forward often

    since_start : (n : ℕ) → t 0 ≤ t n
    since_start = later period t small positive forward often

    -- The stamp after one more reading.
    next : ℕ → TimeElapsed → TimeElapsed
    next n s = record {
      curr_time = reading period t (suc n);
      prev_time = s.curr_time;
      elapsed_time = add32 s.elapsed_time (since period s.curr_time (reading period t (suc n)));
    }

    next-At : (n : ℕ) (s : TimeElapsed) → At n s → At (suc n) (next n s)
    unfolding next At time_elapsed
    next-At n s c = step_lem period t small positive forward often n s c

    test :
        (n : ℕ) (s : TimeElapsed)
        → At n s
        → t n < t 0 + limit
        → goes_on (reading period t) period s (suc n) limit
          ≡ ok (ltb (t (suc n) - t 0) limit, next n s)
    unfolding goes_on time_elapsed next At
    test n s c h = rw (ne→== limit 0 (λ e. omega (arith, e, some_limit))) (
        ap (λ k. ok (ltb k limit, next n s))
          ((next-At n s c).1 ∙ omega (arith, often n, h, since_start (suc n))))

    -- A round ends the loop, or its attempt fails and the loop goes on.
    round :
        (fuel n : ℕ) (s : TimeElapsed)
        → At n s
        → t n < t 0 + limit
        → (t (suc n) < t 0 + limit → loop fuel (next n s) (suc (suc n)) ≡ err timeout)
        → loop (suc fuel) s (suc n) ≡ err timeout
    unfolding block_loop loop
    round fuel n s c h more = elim (dec_lt (t (suc n)) (t 0 + limit)) [
      | no hi ↦
          rw (test n s c h, le→ltb (t (suc n) - t 0) limit (omega (arith, hi, since_start (suc n))))
            refl
      | yes lo ↦
          let ((done, a), e, failed) =
            Returns-ok (attempt (suc n)) (λ (done, _). done ≡ false) (fails (suc n)) in
          rw
            (
              test n s c h,
              lt→ltb (t (suc n) - t 0) limit (omega (arith, lo, since_start (suc n))),
              e,
              failed,
            )
            (more lo)
    ]

    loop_times_out :
        (fuel n : ℕ) (s : TimeElapsed)
        → At n s
        → t n < t 0 + limit
        → t 0 + limit ≤ t (suc (n + fuel))
        → loop (suc fuel) s (suc n) ≡ err timeout
    loop_times_out zero n s c h enough =
        round zero n s c h
          λ lo. absurd (omega (arith, lo, subst (λ k. t 0 + limit ≤ t (suc k)) (add-zero n) enough))
    loop_times_out (suc fuel) n s c h enough = round (suc fuel) n s c h λ lo.
        loop_times_out fuel (suc n) (next n s) (next-At n s c) lo
          (subst (λ k. t 0 + limit ≤ t (suc k)) shift enough)
      where
        shift : n + suc fuel ≡ suc n + fuel
        shift = omega arith

    pub block_loop-times_out :
        (fuel : ℕ)
        → t 0 + limit ≤ t (suc fuel)
        → block_loop
            (reading period t)
            period
            attempt
            (suc fuel)
            (elapsed_init (reading period t 0))
            1
            limit
          ≡ err timeout
    unfolding loop At elapsed_init
    block_loop-times_out fuel enough =
        loop_times_out fuel 0 (elapsed_init (reading period t 0)) (refl, omega arith)
          (omega (arith, some_limit))
          (subst (λ k. t 0 + limit ≤ t (suc k)) (sym (zero-add fuel)) enough)

module _ (period : ℕ) (t : ℕ → ℕ) (k : ℕ) (seen : ℕ → Queue)
    (valid : (n : ℕ) → IsValid k (seen n)) where
  -- With a timeout above 0, where every attempt finds a valid queue that is full, queue_push_block
  -- ends with the timeout error, given a round for each reading of the clock up to one that is the
  -- timeout after the start; the clock counts true time modulo its period, is read once in a
  -- period at least, and a period and the timeout together are below 2^32.
  pub push_block_times_out :
      (limit fuel : ℕ) (src : List ℕ)
      → period < 2 ^ 32
      → 0 < period
      → ((n : ℕ) → t n ≤ t (suc n))
      → ((n : ℕ) → t (suc n) < t n + period)
      → 0 < limit
      → limit + period < 2 ^ 32
      → ((n : ℕ) → count (seen n) + 1 ≡ 2 ^ k)
      → t 0 + limit ≤ t (suc fuel)
      → push_block (reading period t) period (suc fuel) (λ n. some (seen n)) (some src) limit
        ≡ err timeout
  unfolding push_block
  push_block_times_out limit fuel src small positive forward often some_limit room full enough =
      block_loop-times_out period t (λ n. push_nonblock (some (seen n)) (some src)) small positive
        forward often limit some_limit room
        (λ n. rw (push_nonblock_full (valid n) src (full n)) refl) fuel enough

  -- With a timeout above 0, where every attempt finds a valid queue that is empty, queue_pop_block
  -- ends with the timeout error, given a round for each reading of the clock up to one that is the
  -- timeout after the start; the clock counts true time modulo its period, is read once in a
  -- period at least, and a period and the timeout together are below 2^32.
  pub pop_block_times_out :
      (limit fuel : ℕ) (out : Ptr (List ℕ))
      → period < 2 ^ 32
      → 0 < period
      → ((n : ℕ) → t n ≤ t (suc n))
      → ((n : ℕ) → t (suc n) < t n + period)
      → 0 < limit
      → limit + period < 2 ^ 32
      → ((n : ℕ) → count (seen n) ≡ 0)
      → t 0 + limit ≤ t (suc fuel)
      → pop_block (reading period t) period (suc fuel) (λ n. some (seen n)) out limit ≡ err timeout
  unfolding pop_block
  pop_block_times_out limit fuel out small positive forward often some_limit room empty enough =
      block_loop-times_out period t (pop_attempt (λ n. some (seen n)) out) small positive forward
        often limit some_limit room (λ n. rw (pop_nonblock_none (valid n) out (empty n)) refl) fuel
        enough
