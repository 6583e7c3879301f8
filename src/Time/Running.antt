-- ===== src/Time/Running.antt =====
-- A clock whose readings change a state, and the waiting loops of nuhal_all/src/time.c over it.
use nuhal.Common.{
  ℕ, zero, suc, ◌+◌, ◌-◌, ◌*◌, ◌^◌, ◌≤◌, ◌<◌, ◌≡◌, ◌⊎◌, inl, inr, refl, sym, ap, arith, Bool, true,
  false, ltb, ok, unfinished, Outcome, ◌>>=◌, add32, some, Returns,
}
use native.Mathlib.Nat.{mod-eq_of_lt, suc-mul, mul-le-mul_right}
use nuhal.Time.{TimeElapsed, elapsed_init, time_elapsed, since}

module _ {S : Type 0} (clock : S → ℕ × S) (period : ℕ) where
  -- The waiting loop of `time_delay_ms` and `time_delay_us`, where each reading changes the state.
  unfoldable pub delay_rounds : ℕ → TimeElapsed → ℕ → S → Outcome S
  delay_rounds zero stamp duration s = unfinished
  delay_rounds (suc fuel) stamp duration s = do
    let (now, s) = clock s
    (t, stamp) ← time_elapsed period (some stamp) now
    elim (ltb t duration) [ true ↦ delay_rounds fuel stamp duration s | false ↦ ok s ]

  -- `time_delay_ms` and `time_delay_us`
  unfoldable pub delay : ℕ → ℕ → S → Outcome S
  delay fuel duration s = let (now, s) = clock s in delay_rounds fuel (elapsed_init now) duration s

-- A clock that runs: `last s` is the reading before the state `s`. A reading is at most `slow` units
-- later than the one before, and at most `stalls s` more readings show no later time.
pub record IsRunning {S : Type 0} (clock : S → ℕ × S) (period slow most : ℕ) : Type 0 where
  pub last : S → ℕ
  pub stalls : S → ℕ
  pub stalls_most : (s : S) → stalls s ≤ most
  pub ticks :
      (s : S)
      → (last (clock s).1 ≡ (clock s).0)
        × (since period (last s) (clock s).0 ≤ slow)
        × ((0 < since period (last s) (clock s).0) ⊎ (stalls (clock s).1 < stalls s))

pub exact_sum : (a b : ℕ) → a + b < 2 ^ 32 → add32 a b ≡ a + b
exact_sum a b h = mod-eq_of_lt h

pub not_over : (limit t n : ℕ) → t ≡ n → ltb limit t ≡ false → n ≤ limit
not_over limit t n e h = ground arith

-- A round that shows a later time, or one of the `most` that need not.
pub fewer_rounds :
    (limit e d most k k' : ℕ)
    → e + d ≤ limit
    → k' ≤ most
    → (0 < d) ⊎ (k' < k)
    → (limit - (e + d)) * (most + 1) + k' < (limit - e) * (most + 1) + k
fewer_rounds limit e d most k k' fits le (inl later) = omega (
  arith,
  le,
  suc-mul (limit - (e + d)) (most + 1),
  mul-le-mul_right {m = suc (limit - (e + d))} {n = limit - e} (most + 1)
      (omega (arith, fits, later)),
)
fewer_rounds limit e d most k k' fits le (inr fewer) =
    omega (
      arith,
      fewer,
      mul-le-mul_right {m = limit - (e + d)} {n = limit - e} (most + 1) (omega arith),
    )

module _ {S : Type 0} (clock : S → ℕ × S) (period : ℕ) {slow most : ℕ}
    (running : IsRunning clock period slow most) (P : S → Type 0)
    (keep : (s : S) → P s → P (clock s).1) where
  -- The test of the duration: another round, or the end.
  goes_on :
      (b : Bool) (s : S) (again : Outcome S)
      → P s
      → (b ≡ true → Returns again P)
      → Returns (elim b [ true ↦ again | false ↦ ok s ]) P
  goes_on true s again h rest = rest refl
  goes_on false s again h rest = h

  delay_rounds-Returns :
      (fuel : ℕ) (stamp : TimeElapsed) (duration : ℕ) (s : S)
      → P s
      → duration + slow < 2 ^ 32
      → stamp.curr_time ≡ running.last s
      → stamp.elapsed_time ≤ duration
      → (duration - stamp.elapsed_time) * (most + 1) + running.stalls s < fuel
      → Returns (delay_rounds clock period fuel stamp duration s) P
  unfolding delay_rounds time_elapsed
  delay_rounds-Returns zero stamp duration s h small cur early enough =
      absurd (omega (arith, enough))
  delay_rounds-Returns (suc fuel) stamp duration s h small cur early enough =
      let (shown, close, later) = running.ticks s in
      let d = since period stamp.curr_time (clock s).0 in
      let d_here = ap (λ c. since period c (clock s).0) cur in
      let total = exact_sum stamp.elapsed_time d (omega (arith, early, small, close, d_here)) in
      goes_on (ltb (add32 stamp.elapsed_time d) duration) (clock s).1 _ (keep s h) λ more.
        let early' : stamp.elapsed_time + d ≤ duration = not_yet duration _ _ total more in
        let fewer =
          fewer_rounds duration stamp.elapsed_time d most (running.stalls s)
            (running.stalls (clock s).1) early' (running.stalls_most (clock s).1)
            (rw d_here later) in
        delay_rounds-Returns fuel
          (record {
            curr_time = (clock s).0;
            prev_time = stamp.curr_time;
            elapsed_time = add32 stamp.elapsed_time d;
          })
          duration (clock s).1 (keep s h) small (sym shown) (omega (arith, total, early'))
          (omega (arith, ap (λ t. (duration - t) * (most + 1)) total, fewer, enough))
    where
      not_yet : (duration t n : ℕ) → t ≡ n → ltb t duration ≡ true → n ≤ duration
      not_yet duration t n e h = ground arith

  -- With a round for each unit and each reading that shows no later one, a delay returns, and what
  -- reading the clock keeps still holds.
  pub delay-Returns :
      (fuel duration : ℕ) (s : S)
      → P s
      → duration + slow < 2 ^ 32
      → duration * (most + 1) + most < fuel
      → Returns (delay clock period fuel duration s) P
  unfolding delay elapsed_init
  delay-Returns fuel duration s h small enough =
      delay_rounds-Returns fuel (elapsed_init (clock s).0) duration (clock s).1 (keep s h) small
        (sym (running.ticks s).0) (omega arith)
        (omega (
          arith,
          enough,
          running.stalls_most (clock s).1,
          ap (λ t. t * (most + 1)) (none_yet duration),
        ))
    where
      none_yet : (n : ℕ) → n - 0 ≡ n
      none_yet n = omega arith
