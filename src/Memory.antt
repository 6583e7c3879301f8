-- ===== src/Memory.antt =====
-- The bytes that stand in an object from an address on, and what writing a run of bytes does to them.
use nuhal.Common.{
  ℕ, zero, suc, ◌+◌, ◌≤◌, ◌<◌, ◌≡◌, ◌⊎◌, inl, inr, refl, sym, ◌∙◌, ap, none, some, List, [], ◌∷◌,
  ◌++◌, arith, length, get_elem?, set, length-set, get_elem?-set_self, get_elem?-set_ne,
  set-set_comm, get_elem?_of_lt, ok, load, store,
}
use mathlib.Core.Path.{ap₂}

-- `bytes` stand in `m` from the address `i` on.
abbrev pub Holds : List ℕ → ℕ → List ℕ → Type 0
Holds m i [] = Unit
Holds m i (x ∷ xs) = (get_elem? m i ≡ some x) × Holds m (i + 1) xs

-- `m` with `bytes` written from the address `i` on.
unfoldable pub overwrite : List ℕ → ℕ → List ℕ → List ℕ
overwrite m i [] = m
overwrite m i (x ∷ xs) = overwrite (set m i x) (i + 1) xs

pub overwrite-nothing : (m : List ℕ) (i : ℕ) → overwrite m i [] ≡ m
unfolding overwrite
overwrite-nothing m i = refl

pub length-overwrite : (m : List ℕ) (i : ℕ) (xs : List ℕ) → length (overwrite m i xs) ≡ length m
unfolding overwrite
length-overwrite m i [] = refl
length-overwrite m i (x ∷ xs) = length-overwrite (set m i x) (i + 1) xs ∙ length-set m i x

pub overwrite-append :
    (m : List ℕ) (i : ℕ) (xs ys : List ℕ)
    → overwrite m i (xs ++ ys) ≡ overwrite (overwrite m i xs) (i + length xs) ys
unfolding overwrite
overwrite-append m i [] ys = ap (λ k. overwrite m k ys) (omega arith)
overwrite-append m i (x ∷ xs) ys =
    overwrite-append (set m i x) (i + 1) xs ys
    ∙ ap (λ k. overwrite (overwrite (set m i x) (i + 1) xs) k ys) (omega arith)

-- What stands below the written range stays.
pub get_elem?-overwrite_lt :
    (m : List ℕ) (i j : ℕ) (xs : List ℕ) → j < i → get_elem? (overwrite m i xs) j ≡ get_elem? m j
unfolding overwrite
get_elem?-overwrite_lt m i j [] h = refl
get_elem?-overwrite_lt m i j (x ∷ xs) h =
    get_elem?-overwrite_lt (set m i x) (i + 1) j xs (omega arith)
    ∙ get_elem?-set_ne m i j x (omega arith)

-- What stands above the written range stays.
pub get_elem?-overwrite_ge :
    (m : List ℕ) (i j : ℕ) (xs : List ℕ)
    → i + length xs ≤ j
    → get_elem? (overwrite m i xs) j ≡ get_elem? m j
unfolding overwrite
get_elem?-overwrite_ge m i j [] h = refl
get_elem?-overwrite_ge m i j (x ∷ xs) h =
    get_elem?-overwrite_ge (set m i x) (i + 1) j xs (omega arith)
    ∙ get_elem?-set_ne m i j x (omega arith)

-- The written bytes stand where they were written.
pub overwrite-Holds :
    (m : List ℕ) (i : ℕ) (xs : List ℕ) → i + length xs ≤ length m → Holds (overwrite m i xs) i xs
unfolding overwrite
overwrite-Holds m i [] h = tt
overwrite-Holds m i (x ∷ xs) h = (
  get_elem?-overwrite_lt (set m i x) (i + 1) i xs (omega arith)
      ∙ get_elem?-set_self m i x (omega arith),
  overwrite-Holds (set m i x) (i + 1) xs (omega (arith, length-set m i x)),
)

pub Holds-append_left : (m : List ℕ) (i : ℕ) (xs ys : List ℕ) → Holds m i (xs ++ ys) → Holds m i xs
Holds-append_left m i [] ys h = tt
Holds-append_left m i (x ∷ xs) ys h = (h.0, Holds-append_left m (i + 1) xs ys h.1)

pub Holds-append_right :
    (m : List ℕ) (i : ℕ) (xs ys : List ℕ) → Holds m i (xs ++ ys) → Holds m (i + length xs) ys
Holds-append_right m i [] ys h = let e : i ≡ i + 0 = omega arith in rw e at h
Holds-append_right m i (x ∷ xs) ys h =
    let e : i + 1 + length xs ≡ i + suc (length xs) = omega arith in
    rw e at (Holds-append_right m (i + 1) xs ys h.1)

-- A byte written just below a run of bytes that was written earlier extends the run.
pub set-overwrite :
    (m : List ℕ) (i j a : ℕ) (xs : List ℕ)
    → i < j
    → set (overwrite m j xs) i a ≡ overwrite (set m i a) j xs
unfolding overwrite
set-overwrite m i j a [] h = refl
set-overwrite m i j a (x ∷ xs) h =
    set-overwrite (set m j x) i (j + 1) a xs (omega arith)
    ∙ ap (λ k. overwrite k (j + 1) xs) (set-set_comm m j i x a (omega arith))

-- The byte at an address, 0 outside the object.
abbrev pub byte_at : List ℕ → ℕ → ℕ
byte_at m i = elim (get_elem? m i) [ none ↦ 0 | some x ↦ x ]

-- The `n` bytes from an address on.
unfoldable pub slice : List ℕ → ℕ → ℕ → List ℕ
slice m i zero = []
slice m i (suc n) = byte_at m i ∷ slice m (i + 1) n

pub length-slice : (m : List ℕ) (i n : ℕ) → length (slice m i n) ≡ n
unfolding slice
length-slice m i zero = refl
length-slice m i (suc n) = ap suc (length-slice m (i + 1) n)

-- Bytes that are held are the slice.
pub slice_of_Holds : (m : List ℕ) (i : ℕ) (xs : List ℕ) → Holds m i xs → slice m i (length xs) ≡ xs
unfolding slice
slice_of_Holds m i [] h = refl
slice_of_Holds m i (x ∷ xs) h = ground (arith, h.0, slice_of_Holds m (i + 1) xs h.1)

-- A slice below or above a written range stays.
pub slice-overwrite_disjoint :
    (m : List ℕ) (i : ℕ) (xs : List ℕ) (j n : ℕ)
    → (j + n ≤ i) ⊎ (i + length xs ≤ j)
    → slice (overwrite m i xs) j n ≡ slice m j n
unfolding slice
slice-overwrite_disjoint m i xs j zero h = refl
slice-overwrite_disjoint m i xs j (suc n) (inl h) = ground (
  arith,
  get_elem?-overwrite_lt m i j xs (omega arith),
  slice-overwrite_disjoint m i xs (j + 1) n (inl (omega arith)),
)
slice-overwrite_disjoint m i xs j (suc n) (inr h) = ground (
  arith,
  get_elem?-overwrite_ge m i j xs h,
  slice-overwrite_disjoint m i xs (j + 1) n (inr (omega arith)),
)

pub slice-set_disjoint :
    (m : List ℕ) (a x b n : ℕ) → (b + n ≤ a) ⊎ (a < b) → slice (set m a x) b n ≡ slice m b n
unfolding overwrite
slice-set_disjoint m a x b n h = slice-overwrite_disjoint m a (x ∷ []) b n (ground arith)

pub load_of_lt : (m : List ℕ) (i : ℕ) → i < length m → load m i ≡ ok (byte_at m i)
load_of_lt m i h = let (x, e) = get_elem?_of_lt m i h in ground arith

pub store_of_lt : (m : List ℕ) (i v : ℕ) → i < length m → store m i v ≡ ok (set m i v)
store_of_lt m i v h = ground arith

pub slice_tail : (x : ℕ) (m : List ℕ) (i n : ℕ) → slice (x ∷ m) (i + 1) n ≡ slice m i n
unfolding slice
slice_tail x m i zero = refl
slice_tail x m i (suc n) = ground (arith, slice_tail x m (i + 1) n, byte_at_tail i)
  where
    byte_at_tail : (j : ℕ) → get_elem? (x ∷ m) (j + 1) ≡ get_elem? m j
    byte_at_tail j = let e : j + 1 ≡ suc j = omega arith in ap (get_elem? (x ∷ m)) e

-- A whole object is its slice from 0.
pub slice_whole : (m : List ℕ) → slice m 0 (length m) ≡ m
unfolding slice
slice_whole [] = refl
slice_whole (x ∷ m) = ap (λ (t : List ℕ). x ∷ t) (slice_tail x m 0 (length m) ∙ slice_whole m)

-- An object overwritten from 0 with as many bytes as it has.
pub overwrite_whole : (m xs : List ℕ) → length m ≡ length xs → overwrite m 0 xs ≡ xs
overwrite_whole m xs e =
    sym (slice_whole (overwrite m 0 xs))
    ∙ (ap (slice (overwrite m 0 xs) 0) (length-overwrite m 0 xs ∙ e)
        ∙ slice_of_Holds (overwrite m 0 xs) 0 xs (overwrite-Holds m 0 xs (omega arith)))

-- A slice in two parts, and the first part of a slice.
pub slice-append : (m : List ℕ) (i a b : ℕ) → slice m i (a + b) ≡ slice m i a ++ slice m (i + a) b
unfolding slice
slice-append m i zero b = ap₂ (slice m) (omega arith) (omega arith)
slice-append m i (suc a) b =
    ap (slice m i) shift
    ∙ ap (λ (t : List ℕ). byte_at m i ∷ t)
        (slice-append m (i + 1) a b ∙ ap (λ k. slice m (i + 1) a ++ slice m k b) (omega arith))
  where
    shift : suc a + b ≡ suc (a + b)
    shift = omega arith

pub slice-slice : (m : List ℕ) (i n k : ℕ) → k ≤ n → slice (slice m i n) 0 k ≡ slice m i k
unfolding slice
slice-slice m i n zero h = refl
slice-slice m i zero (suc k) h = absurd (omega arith)
slice-slice m i (suc n) (suc k) h =
    ap (λ (t : List ℕ). byte_at m i ∷ t)
      (slice_tail (byte_at m i) (slice m (i + 1) n) 0 k ∙ slice-slice m (i + 1) n k (omega arith))
