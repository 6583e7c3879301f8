-- ===== src/Protocol/Checksum.antt =====
-- The checksum of nuhal_all/src/protocol.c.
use nuhal.Common.{
  ℕ, zero, suc, ◌+◌, ◌-◌, ◌%◌, ◌≤◌, ◌<◌, ◌≡◌, ◌≢◌, inr, refl, sym, ◌∙◌, ap, arith, List, [], ◌∷◌,
  length, set, get_elem?-set_self, get_elem?-set_ne, ok, undefined, load, u8, eq→==, ne→==,
}
use mathlib.Core.Path.{ap₂}
use nuhal.Memory.{slice, byte_at, load_of_lt, slice-set_disjoint}
use nuhal.Protocol.{checksum_loop, checksum}

-- The sum of bytes modulo 256.
abbrev pub sum8 : List ℕ → ℕ
sum8 [] = 0
sum8 (x ∷ xs) = (x + sum8 xs) % 256

pub sum8-lt : (xs : List ℕ) → sum8 xs < 256
sum8-lt [] = omega arith
sum8-lt (x ∷ xs) = omega arith

checksum_loop_lem :
    (rounds : ℕ) (m : List ℕ) (len i n sum : ℕ)
    → i + n ≡ len
    → len ≤ length m
    → len < 256
    → n < rounds
    → sum < 256
    → checksum_loop rounds m len i sum ≡ ok ((sum + sum8 (slice m i n)) % 256)
unfolding checksum_loop slice
checksum_loop_lem zero m len i n sum e room small lt sum_lt = absurd (omega arith)
checksum_loop_lem (suc rounds) m len i zero sum e room small lt sum_lt =
    rw (checksum_loop, eq→== i len (omega (arith, e))) (ap ok (omega (arith, sum_lt)))
checksum_loop_lem (suc rounds) m len i (suc n) sum e room small lt sum_lt =
    let next : (i + 1) % 256 ≡ i + 1 = omega (arith, e, small) in
    rw
      (checksum_loop, ne→== i len (omega (arith, e)), load_of_lt m i (omega (arith, e, room)), next)
      (checksum_loop_lem rounds m len (i + 1) n (u8 (sum + byte_at m i)) (omega (arith, e)) room
          small (omega arith) (omega arith)
        ∙ ap ok (omega arith))

-- The checksum of a packet of at least the header's two bytes is the sum of the others.
pub checksum_lem :
    (m : List ℕ) (len : ℕ)
    → load m 0 ≡ ok len
    → 2 ≤ len
    → len ≤ length m
    → len < 256
    → checksum m ≡ ok (sum8 (slice m 2 (len - 2)))
unfolding checksum
checksum_lem m len first two room small =
    rw (first, ne→== 0 len (omega (arith, two)))
      (checksum_loop_lem 256 m len 2 (len - 2) 0 (omega (arith, two)) room small
          (omega (arith, small)) (omega arith)
        ∙ ap ok (omega (arith, sum8-lt (slice m 2 (len - 2)))))

-- One byte of the data that changes changes the sum.
pub sum8-change :
    (m : List ℕ) (i n k x : ℕ)
    → k < n
    → i + n ≤ length m
    → byte_at m (i + k) < 256
    → x < 256
    → x ≢ byte_at m (i + k)
    → sum8 (slice (set m (i + k) x) i n) ≢ sum8 (slice m i n)
unfolding slice
sum8-change m i zero k x lt room small small' ne = absurd (omega arith)
sum8-change m i (suc n) zero x lt room small small' ne =
    let at : i + 0 ≡ i = omega arith in
    λ e. differs (byte_at m i) (sum8 (slice m (i + 1) n)) (rw at at small) small' (rw at at ne) (
      ap₂ (λ a b. (a + b) % 256)
        (sym (ground (arith, at, get_elem?-set_self m i x (omega (arith, room)))))
        (sym (
          ap (λ j. sum8 (slice (set m j x) (i + 1) n)) at
          ∙ ap sum8 (slice-set_disjoint m i x (i + 1) n (inr (omega arith)))))
      ∙ e)
  where
    differs : (y s : ℕ) → y < 256 → x < 256 → x ≢ y → (x + s) % 256 ≢ (y + s) % 256
    differs y s h h' ne e = omega (arith, h, h', ne, e)
sum8-change m i (suc n) (suc k) x lt room small small' ne =
    let at : i + suc k ≡ i + 1 + k = omega arith in
    λ e.
      sum8-change m (i + 1) n k x (omega arith) (omega (arith, room)) (rw at at small) small'
        (rw at at ne)
        (ap (λ j. sum8 (slice (set m j x) (i + 1) n)) (sym at)
          ∙ same (byte_at m i) _ _ (sum8-lt (slice (set m (i + suc k) x) (i + 1) n))
              (sum8-lt (slice m (i + 1) n))
              (ap (λ b. (b + sum8 (slice (set m (i + suc k) x) (i + 1) n)) % 256) (sym first) ∙ e))
  where
    first : byte_at (set m (i + suc k) x) i ≡ byte_at m i
    first = ground (arith, get_elem?-set_ne m (i + suc k) i x (omega arith))

    same : (y s t : ℕ) → s < 256 → t < 256 → (y + s) % 256 ≡ (y + t) % 256 → s ≡ t
    same y s t h h' e = omega (arith, h, h', e)

-- With the length 1 the loop's index runs past the length, and on to the end of the packet.
load_past : (m : List ℕ) (i : ℕ) → length m ≤ i → load m i ≡ undefined
load_past [] i h = refl
load_past (x ∷ m) zero h = absurd (omega arith)
load_past (x ∷ m) (suc i) h = load_past m i (omega arith)

checksum_loop_one :
    (rounds : ℕ) (m : List ℕ) (i n sum : ℕ)
    → length m ≡ 255
    → 2 ≤ i
    → i + n ≡ 255
    → n < rounds
    → checksum_loop rounds m 1 i sum ≡ undefined
unfolding checksum_loop
checksum_loop_one zero m i n sum size two e lt = absurd (omega arith)
checksum_loop_one (suc rounds) m i zero sum size two e lt =
    rw (checksum_loop, ne→== i 1 (omega (arith, two)), load_past m i (omega (arith, size, e))) refl
checksum_loop_one (suc rounds) m i (suc n) sum size two e lt =
    let next : (i + 1) % 256 ≡ i + 1 = omega (arith, e) in
    rw
      (checksum_loop, ne→== i 1 (omega (arith, two)), load_of_lt m i (omega (arith, e, size)), next)
      (checksum_loop_one rounds m (i + 1) n (u8 (sum + byte_at m i)) size (omega arith)
        (omega (arith, e)) (omega arith))

-- A packet whose length byte is 1 has no checksum: the loop runs past the length and reads behind
-- the last byte of the packet.
pub checksum_one : (m : List ℕ) → length m ≡ 255 → load m 0 ≡ ok 1 → checksum m ≡ undefined
unfolding checksum
checksum_one m size first =
    rw first (checksum_loop_one 256 m 2 253 0 size (omega arith) (omega arith) (omega arith))
