-- ===== src/Queue/Blocking.antt =====
-- `queue_push_block` and `queue_pop_block` of nuhal_all/src/queue.c. The clock is the platform's, as in
-- Time. The other side of the queue runs between the attempts: `seen n` is the queue that the
-- attempt with number n finds, which a failed attempt leaves as it is.
pub mod Waits
pub mod TimesOut
mod Tests
use nuhal.Common.{
  not, ℕ, zero, suc, Bool, true, Option, none, some, List, ltb, ◌==◌, if◌then◌else◌, Outcome, ok,
  err, ◌>>=◌, Ptr, timeout,
}
use nuhal.Time.{TimeElapsed, elapsed_init, time_elapsed}
use nuhal.Queue.{Queue, push_nonblock, pop_nonblock}

-- `queue_pop_nonblock` with what it changes as one value.
abbrev pub pop_attempt :
    (ℕ → Ptr Queue) → Ptr (List ℕ) → ℕ → Outcome (Bool × (Ptr (List ℕ) × Queue))
pop_attempt seen out n = pop_nonblock (seen n) out >>= λ (done, out', q). ok (done, (out', q))

module _ (clock : ℕ → ℕ) (period : ℕ) where
  -- The test `timeout == 0 || time_elapsed_ms(&stamp) < timeout`, and the stamp after it; `n` is the
  -- number of the reading, which a timeout of 0 does without.
  unfoldable pub goes_on : TimeElapsed → ℕ → ℕ → Outcome (Bool × TimeElapsed)
  goes_on s n limit =
      if limit == 0
      then ok (true, s)
      else do (t, s') ← time_elapsed period (some s) (clock n); ok (ltb t limit, s')

  module _ {A : Type 0} (attempt : ℕ → Outcome (Bool × A)) where
    -- The loop of both functions with `fuel` rounds left: what the attempt that succeeds leaves, or
    -- `none` where the fuel ran out.
    unfoldable pub block_loop : ℕ → TimeElapsed → ℕ → ℕ → Outcome (Option A)
    block_loop zero s n limit = ok none
    block_loop (suc fuel) s n limit = do
      (more, s') ← goes_on s n limit
      let rest = block_loop fuel s' (suc n) limit
      if not more then err timeout else do (done, a) ← attempt n; if done then ok (some a) else rest

  -- `queue_push_block`
  unfoldable pub push_block : ℕ → (ℕ → Ptr Queue) → Ptr (List ℕ) → ℕ → Outcome (Option Queue)
  push_block fuel seen item limit =
      block_loop (λ n. push_nonblock (seen n) item) fuel (elapsed_init (clock 0)) 1 limit

  -- `queue_pop_block`
  unfoldable pub pop_block :
      ℕ → (ℕ → Ptr Queue) → Ptr (List ℕ) → ℕ → Outcome (Option (Ptr (List ℕ) × Queue))
  pop_block fuel seen out limit =
      block_loop {A = Ptr (List ℕ) × Queue} (pop_attempt seen out) fuel (elapsed_init (clock 0)) 1
        limit
