-- ===== src/Time/Elapsed.antt =====
-- `time_elapsed` of nuhal_all/src/time.c, over a clock that counts true time.
use nuhal.Common.{
  add32, ℕ, zero, suc, ◌+◌, ◌-◌, ◌%◌, ◌^◌, ◌≤◌, ◌<◌, ◌≡◌, refl, ◌∙◌, ap, arith, some, ok, Returns,
  Returns-ok, Outcome, ◌>>=◌,
}
use nuhal.Common.Modular.{mod_once}
use mathlib.Core.Path.{sym}
use mathlib.Core.Logic.{◌⊎◌, inl, inr}
use native.Mathlib.Nat.{mod-add-mod, mod-lt}
use nuhal.Time.{since, TimeElapsed, elapsed_init, time_elapsed}

-- A clock that counts true time `t` and rolls over at `period`.
module _ (period : ℕ) (t : ℕ → ℕ) where
  abbrev pub reading : ℕ → ℕ
  reading n = t n % period

  -- The stamp after the readings 1 to n of a stamp that was started at the reading 0.
  unfoldable pub stamp_after : ℕ → Outcome TimeElapsed
  stamp_after zero = ok (elapsed_init (reading 0))
  stamp_after (suc n) = do
    s ← stamp_after n
    (_, s') ← time_elapsed period (some s) (reading (suc n))
    ok s'

  module _ (small : period < 2 ^ 32) (positive : 0 < period) (forward : (n : ℕ) → t n ≤ t (suc n))
      (often : (n : ℕ) → t (suc n) < t n + period) where
    since_lem :
        (c c' d : ℕ)
        → c < period
        → d < period
        → (c' ≡ c + d) × (c + d < period) ⊎ (c' ≡ c + d - period) × (period ≤ c + d)
        → since period c c' ≡ d
    since_lem c c' d hc hd h = ground arith

    -- Between two readings less than a period apart, the step that is added is the true time.
    true_step : (a d : ℕ) → d < period → since period (a % period) ((a + d) % period) ≡ d
    true_step a d h =
        since_lem (a % period) ((a + d) % period) d (mod-lt a {m = period} positive) h wrapped
      where
        wrapped :
            ((a + d) % period ≡ a % period + d) × (a % period + d < period)
            ⊎ ((a + d) % period ≡ a % period + d - period) × (period ≤ a % period + d)
        wrapped =
            elim (mod_once (a % period + d) period (omega (arith, mod-lt a {m = period} positive))
              positive) [
                | inl (e, l) ↦ inl (sym (mod-add-mod a period d) ∙ e, l)
                | inr (e, l) ↦ inr (sym (mod-add-mod a period d) ∙ e, l)
              ]

    pub advance : (n : ℕ) → since period (reading n) (reading (suc n)) ≡ t (suc n) - t n
    advance n =
        ap (λ b. since period (reading n) (b % period)) split
        ∙ true_step (t n) (t (suc n) - t n) (omega (arith, forward n, often n))
      where
        split : t (suc n) ≡ t n + (t (suc n) - t n)
        split = omega (arith, forward n)

    pub later : (n : ℕ) → t 0 ≤ t n
    later zero = omega arith
    later (suc n) = omega (arith, later n, forward n)

    abbrev pub Counts : ℕ → TimeElapsed → Type 0
    Counts n s = (s.curr_time ≡ reading n) × (s.elapsed_time ≡ (t n - t 0) % 2 ^ 32)

    pub step_lem :
        (n : ℕ) (s : TimeElapsed)
        → Counts n s
        → Returns (time_elapsed period (some s) (reading (suc n))) (λ (_, s'). Counts (suc n) s')
    unfolding time_elapsed
    step_lem n s (c, e) = (
      refl,
      ap (λ b. add32 s.elapsed_time (since period b (reading (suc n)))) c
          ∙ (rw (advance n) (omega (arith, e, later n, forward n))),
    )

    stamp-Counts : (n : ℕ) → Returns (stamp_after n) (Counts n)
    unfolding stamp_after elapsed_init
    stamp-Counts zero = (refl, omega arith)
    stamp-Counts (suc n) =
        let (s, e, p) = Returns-ok (stamp_after n) (Counts n) (stamp-Counts n) in
        let (_, e', p') =
          Returns-ok (time_elapsed period (some s) (reading (suc n))) (λ (_, s'). Counts (suc n) s')
            (step_lem n s p) in
        rw (e, e') p'

    -- On a clock that counts true time modulo its period (positive, below 2^32), a stamp that is
    -- read again before a whole period has passed since its last reading holds after every reading
    -- the true time since its start, modulo 2^32, whatever the number of rollovers.
    pub elapsed_is_true_time :
        (n : ℕ) → Returns (stamp_after n) (λ s. s.elapsed_time ≡ (t n - t 0) % 2 ^ 32)
    elapsed_is_true_time n =
        let (s, e, p) = Returns-ok (stamp_after n) (Counts n) (stamp-Counts n) in rw e p.1
