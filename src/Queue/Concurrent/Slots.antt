-- ===== src/Queue/Concurrent/Slots.antt =====
-- Bytes of one slot of the circular buffer, written one at a time while the other slots are read.
use nuhal.Common.{
  ℕ, zero, suc, ◌+◌, ◌*◌, ◌%◌, ◌≤◌, ◌<◌, ◌≡◌, ◌≢◌, inl, refl, sym, ◌∙◌, ap, List, [], ◌∷◌, ◌++◌,
  arith, length, set, get_elem?-set_self,
}
use mathlib.Core.Path.{ap₂}
use native.Mathlib.Nat.{mod-add-mod, add-zero, mod-eq_of_lt, mod-lt}
use nuhal.Memory.{slice, slice-set_disjoint, byte_at}
use nuhal.Queue.Window.{window, other_slot, apart}

slice-snoc : (m : List ℕ) (b i : ℕ) → slice m b (suc i) ≡ slice m b i ++ byte_at m (b + i) ∷ []
unfolding slice
slice-snoc m b zero = ap (λ k. byte_at m k ∷ []) (omega arith)
slice-snoc m b (suc i) =
    ap (λ (t : List ℕ). byte_at m b ∷ t)
      (slice-snoc m (b + 1) i ∙ ap (λ k. slice m (b + 1) i ++ byte_at m k ∷ []) (omega arith))

pub slice-snoc_start : (m : List ℕ) (i : ℕ) → slice m 0 (i + 1) ≡ slice m 0 i ++ byte_at m i ∷ []
slice-snoc_start m i =
    ap (slice m 0) (omega arith)
    ∙ (slice-snoc m 0 i ∙ ap (λ k. slice m 0 i ++ byte_at m k ∷ []) (omega arith))

-- A byte behind the first `i` of a run extends the run.
pub slice-set_next :
    (m : List ℕ) (b i x : ℕ)
    → b + i < length m
    → slice (set m (b + i) x) b (suc i) ≡ slice m b i ++ x ∷ []
slice-set_next m b i x h =
    slice-snoc (set m (b + i) x) b i
    ∙ ap₂ (λ (t : List ℕ) y. t ++ y ∷ []) (slice-set_disjoint m (b + i) x b i (inl (omega arith)))
        (ground (arith, get_elem?-set_self m (b + i) x h))

pub slice-set_start :
    (m : List ℕ) (i x : ℕ) → i < length m → slice (set m i x) 0 (i + 1) ≡ slice m 0 i ++ x ∷ []
slice-set_start m i x h =
    ap₂ (λ t n. slice t 0 n) (ap (λ k. set m k x) (omega arith)) (omega arith)
    ∙ slice-set_next m 0 i x (omega arith)

pub slice-snoc_at :
    (m : List ℕ) (b i : ℕ) → slice m b (i + 1) ≡ slice m b i ++ byte_at m (b + i) ∷ []
slice-snoc_at m b i = ap (slice m b) (omega arith) ∙ slice-snoc m b i

-- A byte of another slot is written.
pub slice-set_other :
    (size s j i n x : ℕ) (m : List ℕ)
    → s ≢ j
    → i < size
    → n ≤ size
    → slice (set m (j * size + i) x) (s * size) n ≡ slice m (s * size) n
slice-set_other size s j i n x m ne h k =
    slice-set_disjoint m (j * size + i) x (s * size) n (ground (arith, apart s j size ne))

module _ (size cap : ℕ) where
  -- Going on from the slot after `s`.
  shift : (s n : ℕ) → (s + suc n) % cap ≡ ((s + 1) % cap + n) % cap
  shift s n = ap (λ t. t % cap) (omega arith) ∙ sym (mod-add-mod (s + 1) cap n)

  pub window-set_other :
      (m : List ℕ) (i x n s : ℕ)
      → s < cap
      → n < cap
      → i < size
      → window size cap (set m ((s + n) % cap * size + i) x) s n ≡ window size cap m s n
  window-set_other m i x zero s hs hn hi = refl
  window-set_other m i x (suc n) s hs hn hi =
      ap₂ (λ (y : List ℕ) ys. y ∷ ys)
        (slice-set_other size s ((s + suc n) % cap) i size x m
          (λ e. other_slot s (suc n) cap hs (omega arith) hn (sym e)) hi (omega arith))
        (ap (λ t. window size cap (set m (t * size + i) x) ((s + 1) % cap) n) (shift s n)
          ∙ window-set_other m i x n ((s + 1) % cap) (mod-lt (s + 1) (omega arith)) (omega arith)
              hi)

  pub window-snoc :
      (m : List ℕ) (n s : ℕ)
      → s < cap
      → window size cap m s (suc n)
        ≡ window size cap m s n ++ slice m ((s + n) % cap * size) size ∷ []
  window-snoc m zero s hs =
      ap (λ t. slice m (t * size) size ∷ []) (sym (rw add-zero (mod-eq_of_lt hs)))
  window-snoc m (suc n) s hs =
      ap (λ t. slice m (s * size) size ∷ t)
        (window-snoc m n ((s + 1) % cap) (mod-lt (s + 1) (omega arith))
          ∙ ap (λ t. window size cap m ((s + 1) % cap) n ++ slice m (t * size) size ∷ [])
              (sym (shift s n)))
