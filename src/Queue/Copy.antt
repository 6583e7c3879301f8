-- ===== src/Queue/Copy.antt =====
-- The copying loops of nuhal_all/src/queue.c.
use nuhal.Common.{
  ℕ, zero, suc, ◌+◌, ◌^◌, ◌≤◌, ◌≡◌, refl, ◌∙◌, ap, List, arith, length, length-set, set, ok,
}
use nuhal.Memory.{overwrite, slice, byte_at, load_of_lt, store_of_lt}
use nuhal.Queue.{copy_in, copy_out}

copy_in_from :
    (m : List ℕ) (base : ℕ) (src : List ℕ) (i n : ℕ)
    → i + n ≤ length src
    → base + i + n ≤ length m
    → base + i + n ≤ 2 ^ 32
    → copy_in m base src i n ≡ ok (overwrite m (base + i) (slice src i n))
unfolding copy_in overwrite slice
copy_in_from m base src i zero s d w = refl
copy_in_from m base src i (suc n) s d w = ground (
  arith,
  load_of_lt src i,
  store_of_lt m (base + i) (byte_at src i),
  length-set m (base + i) (byte_at src i),
  copy_in_from (set m (base + i) (byte_at src i)) base src (i + 1) n,
)

-- Inside both objects, copying an item in overwrites its slot with the item's bytes.
pub copy_in_lem :
    (m : List ℕ) (base : ℕ) (src : List ℕ) (n : ℕ)
    → n ≤ length src
    → base + n ≤ length m
    → base + n ≤ 2 ^ 32
    → copy_in m base src 0 n ≡ ok (overwrite m base (slice src 0 n))
copy_in_lem m base src n s d w =
    copy_in_from m base src 0 n (omega arith) (omega arith) (omega arith)
    ∙ ap (λ k. ok (overwrite m k (slice src 0 n))) (omega arith)

copy_out_from :
    (dst src : List ℕ) (base i n : ℕ)
    → base + i + n ≤ length src
    → i + n ≤ length dst
    → base + i + n ≤ 2 ^ 32
    → copy_out dst src base i n ≡ ok (overwrite dst i (slice src (base + i) n))
unfolding copy_out overwrite slice
copy_out_from dst src base i zero s d w = refl
copy_out_from dst src base i (suc n) s d w = ground (
  arith,
  load_of_lt src (base + i),
  store_of_lt dst i (byte_at src (base + i)),
  length-set dst i (byte_at src (base + i)),
  copy_out_from (set dst i (byte_at src (base + i))) src base (i + 1) n,
)

-- Inside both objects, copying an item out writes its bytes to the start of the target.
pub copy_out_lem :
    (dst src : List ℕ) (base n : ℕ)
    → base + n ≤ length src
    → n ≤ length dst
    → base + n ≤ 2 ^ 32
    → copy_out dst src base 0 n ≡ ok (overwrite dst 0 (slice src base n))
copy_out_lem dst src base n s d w =
    copy_out_from dst src base 0 n (omega arith) (omega arith) (omega arith)
    ∙ ap (λ k. ok (overwrite dst 0 (slice src k n))) (omega arith)
