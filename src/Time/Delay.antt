-- ===== src/Time/Delay.antt =====
-- The waiting loops of nuhal_all/src/time.c, over a clock that counts true time.
use nuhal.Common.{
  ℕ, zero, suc, ◌+◌, ◌-◌, ◌^◌, ◌≤◌, ◌<◌, ◌≡◌, refl, sym, ◌∙◌, ap, arith, some, ok, Outcome, lt→ltb,
  le→ltb, Option, add32,
}
use mathlib.Core.Path.{subst}
use native.Mathlib.Nat.{add-zero, zero-add}
use native.Mathlib.Decide.{dec_lt}
use nuhal.Time.{TimeElapsed, elapsed_init, time_elapsed, delay_loop, time_delay, since}
use nuhal.Time.Elapsed.{reading, advance, later}

module _ (period : ℕ) (t : ℕ → ℕ) where
  module _ (small : period < 2 ^ 32) (positive : 0 < period) (forward : (n : ℕ) → t n ≤ t (suc n))
      (often : (n : ℕ) → t (suc n) < t n + period) (duration : ℕ)
      (room : duration + period < 2 ^ 32) where
    -- The loop has ended after the reading `m`, the first that is `duration` after the start.
    Ends : Outcome (Option ℕ) → Type 0
    Ends r =
        (m : ℕ) × (r ≡ ok (some (suc m))) × (t 0 + duration ≤ t m) × (t m < t 0 + duration + period)

    -- One more reading: the loop's stamp after it, and whether the loop goes on.
    round :
        (n : ℕ) (s : TimeElapsed)
        → s.elapsed_time ≡ t n - t 0
        → s.curr_time ≡ reading period t n
        → t n ≤ t 0 + duration
        → add32 s.elapsed_time (since period s.curr_time (reading period t (suc n)))
          ≡ t (suc n) - t 0
    round n s pe pc h =
        ap (λ b. add32 s.elapsed_time (since period b (reading period t (suc n)))) pc
        ∙ (rw (advance period t small positive forward often n)
            (omega (arith, pe, later period t small positive forward often n, forward n, often n)))

    loop : ℕ → TimeElapsed → ℕ → Outcome (Option ℕ)
    loop fuel s n = delay_loop (reading period t) period fuel s n duration

    since_start : (k : ℕ) → t 0 ≤ t k
    since_start = later period t small positive forward often

    -- A round ends the loop, or goes on with the stamp of the reading `suc n`.
    round-Ends :
        (fuel n : ℕ) (s : TimeElapsed)
        → s.elapsed_time ≡ t n - t 0
        → s.curr_time ≡ reading period t n
        → t n ≤ t 0 + duration
        → (t (suc n) < t 0 + duration
            → Ends (
                loop fuel
                  record {
                    curr_time = reading period t (suc n);
                    prev_time = s.curr_time;
                    elapsed_time = t (suc n) - t 0;
                  }
                  (suc (suc n))))
        → Ends (loop (suc fuel) s (suc n))
    unfolding delay_loop time_elapsed Ends loop
    round-Ends fuel n s pe pc h more =
        elim (dec_lt (t (suc n)) (t 0 + duration)) as (λ _. Ends (loop (suc fuel) s (suc n))) [
          | no hi ↦ (
            suc n,
            rw
                (
                  round n s pe pc h,
                  le→ltb (t (suc n) - t 0) duration (omega (arith, hi, since_start (suc n))),
                )
                refl,
            omega (arith, hi),
            omega (arith, often n, h),
          )
          | yes lo ↦
              rw
                (
                  round n s pe pc h,
                  lt→ltb (t (suc n) - t 0) duration (omega (arith, lo, since_start (suc n))),
                )
                (more lo)
        ]

    loop-Ends :
        (fuel n : ℕ) (s : TimeElapsed)
        → s.elapsed_time ≡ t n - t 0
        → s.curr_time ≡ reading period t n
        → t n ≤ t 0 + duration
        → t 0 + duration ≤ t (suc (n + fuel))
        → Ends (loop (suc fuel) s (suc n))
    loop-Ends zero n s pe pc h enough = round-Ends zero n s pe pc h λ lo.
        absurd (omega (arith, lo, subst (λ k. t 0 + duration ≤ t (suc k)) (add-zero n) enough))
    loop-Ends (suc fuel) n s pe pc h enough = round-Ends (suc fuel) n s pe pc h λ lo.
        loop-Ends fuel (suc n)
          (record {
            curr_time = reading period t (suc n);
            prev_time = s.curr_time;
            elapsed_time = t (suc n) - t 0;
          })
          refl refl (omega (arith, lo))
          (subst (λ k. t 0 + duration ≤ t (suc k)) (shift fuel n) enough)
      where
        shift : (fuel n : ℕ) → n + suc fuel ≡ suc n + fuel
        shift fuel n = omega arith

    -- On a clock that counts true time modulo its period (positive, below 2^32) and is read once
    -- in a period at least, and for a duration that leaves one period of room below 2^32, the
    -- delay returns, given one round of its loop for each reading up to one that is the duration
    -- after the start: at a reading by which the duration has passed, and less than a period more.
    pub time_delay_ends :
        (fuel : ℕ)
        → t 0 + duration ≤ t (suc fuel)
        → (m : ℕ) × (time_delay (reading period t) period (suc fuel) 0 duration ≡ ok (some (suc m)))
          × (t 0 + duration ≤ t m)
          × (t m < t 0 + duration + period)
    unfolding time_delay Ends elapsed_init loop
    time_delay_ends fuel enough =
        loop-Ends fuel 0 (elapsed_init (reading period t 0)) (omega arith) refl (omega arith)
          (subst (λ k. t 0 + duration ≤ t (suc k)) (sym (zero-add fuel)) enough)
