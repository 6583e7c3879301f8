-- ===== src/Queue/Window.antt =====
-- The items that stand in a run of slots of the circular buffer.
use nuhal.Common.{
  ℕ, zero, suc, ◌+◌, ◌*◌, ◌%◌, ◌≤◌, ◌<◌, ◌≡◌, ◌≢◌, ◌⊎◌, inl, inr, refl, sym, ◌∙◌, ap, List, [], ◌∷◌,
  ◌++◌, arith, length,
}
use nuhal.Common.Modular.{mod_once}
use mathlib.Core.Path.{ap₂}
use native.Mathlib.Nat.{mod-add-mod, add-zero, mod-eq_of_lt, mod-lt, mul-le-mul_right}
use native.Mathlib.Decide.{dec_lt}
use nuhal.Memory.{overwrite, overwrite-Holds, slice, slice_of_Holds, slice-overwrite_disjoint}

-- Going once round from slot `s`, no later slot comes back to it.
pub other_slot : (s d c : ℕ) → s < c → 0 < d → d < c → (s + d) % c ≢ s
other_slot s d c h p q = ground (arith, mod_once (s + d) c)

-- A slot ends where the next begins, so slots' bytes do not overlap.
pub slot_le : (a b size : ℕ) → a < b → a * size + size ≤ b * size
slot_le a b size h = omega (arith, mul-le-mul_right {m = suc a} {n = b} size h)

pub apart : (a b size : ℕ) → a ≢ b → (a * size + size ≤ b * size) ⊎ (b * size + size ≤ a * size)
apart a b size h = elim (dec_lt a b) [
  | yes lo ↦ inl (slot_le a b size lo)
  | no hi ↦ inr (slot_le b a size (omega arith))
]

module _ (size cap : ℕ) where
  -- The `n` items from slot `s` on, going round after `cap` slots.
  abbrev pub window : List ℕ → ℕ → ℕ → List (List ℕ)
  window m s zero = []
  window m s (suc n) = slice m (s * size) size ∷ window m ((s + 1) % cap) n

  pub length-window : (m : List ℕ) (s n : ℕ) → length (window m s n) ≡ n
  length-window m s zero = refl
  length-window m s (suc n) = ap suc (length-window m ((s + 1) % cap) n)

  module _ (m item : List ℕ) (exact : length item ≡ size) where
    slice-write_self :
        (s : ℕ)
        → s * size + size ≤ length m
        → slice (overwrite m (s * size) item) (s * size) size ≡ item
    slice-write_self s room =
        ap (slice (overwrite m (s * size) item) (s * size)) (sym exact)
        ∙ slice_of_Holds _ _ item (overwrite-Holds m (s * size) item (omega arith))

    slice-write_other :
        (s j : ℕ)
        → s ≢ j
        → slice (overwrite m (j * size) item) (s * size) size ≡ slice m (s * size) size
    slice-write_other s j ne =
        slice-overwrite_disjoint m (j * size) item (s * size) size
          (ground (arith, apart s j size ne))

    -- Writing to the slot behind a run of items adds the item at the run's end.
    pub window-write :
        (n s : ℕ)
        → s < cap
        → n < cap
        → cap * size ≤ length m
        → window (overwrite m ((s + n) % cap * size) item) s (suc n) ≡ window m s n ++ item ∷ []
    window-write zero s hs hn room =
        let at : (s + 0) % cap ≡ s = rw add-zero (mod-eq_of_lt hs) in
        rw at
          (ap (λ (x : List ℕ). x ∷ []) (slice-write_self s (omega (arith, slot_le s cap size hs))))
    window-write (suc n) s hs hn room =
        ap₂ (λ (x : List ℕ) xs. x ∷ xs)
          (slice-write_other s ((s + suc n) % cap)
            (λ e. other_slot s (suc n) cap hs (omega arith) hn (sym e)))
          (ap (λ t. window (overwrite m (t * size) item) ((s + 1) % cap) (suc n)) shift
            ∙ window-write n ((s + 1) % cap) (mod-lt (s + 1) (omega arith)) (omega arith) room)
      where
        shift : (s + suc n) % cap ≡ ((s + 1) % cap + n) % cap
        shift = ap (λ t. t % cap) (omega arith) ∙ sym (mod-add-mod (s + 1) cap n)
