-- ===== src/Bytestream/Strings.antt =====
-- nuhal_all/src/bytestream.c: C strings and arrays of bytes in a stream. A `char *` or `uint8_t *`
-- argument is the object that it points into, from the pointer on.
pub mod Laws
use nuhal.Common.{
  ℕ, zero, suc, ◌+◌, none, some, List, [], ◌∷◌, leb, if◌then◌else◌, add_size, sub_size,
}
use nuhal.Common.{
  Outcome, ok, err, undefined, ◌>>=◌, Ptr, require, store, null_ptr, buffer_overrun,
  string_not_terminated, string_too_long,
}
use nuhal.Utilities.{strlen}
use nuhal.Bytestream.{Bytestream, verify_args}
use nuhal.Common.{drop}

-- `memcpy(&m[i], src, n)`
unfoldable pub memcpy : List ℕ → ℕ → List ℕ → ℕ → Outcome (List ℕ)
memcpy m i src zero = ok m
memcpy m i [] (suc n) = undefined
memcpy m i (x ∷ src) (suc n) = do m' ← store m i x; memcpy m' (i + 1) src n

-- `bs ? bs->capacity - bs->size - 1 : 0`
unfoldable pub max_string : Ptr Bytestream → ℕ
max_string none = 0
max_string (some b) = sub_size (sub_size b.capacity b.size) 1

-- The length is taken before `str` is compared with NULL.
pub inject_string : Ptr Bytestream → Ptr (List ℕ) → Outcome Bytestream
unfolding max_string
inject_string bs str = do
  n ← elim str [ none ↦ undefined | some s ↦ strlen s (max_string bs) ]
  let len = add_size n 1
  (p, b) ← verify_args bs len
  s ← require str null_ptr
  m ← memcpy b.memory (p + b.size) s len
  ok (record b { memory = m; size = add_size b.size len })

-- The string goes to the object `str`, which comes back with the stream.
pub extract_string : Ptr Bytestream → Ptr (List ℕ) → ℕ → Outcome (List ℕ × Bytestream)
extract_string bs str len = do
  (p, b) ← verify_args bs 0
  s ← require str null_ptr
  in_len ← strlen (drop (p + b.size) b.memory) b.capacity
  if leb b.capacity in_len
      then err string_not_terminated
      else if leb len in_len
      then err string_too_long
      else do
        t ← memcpy s 0 (drop (p + b.size) b.memory) in_len
        t ← store t in_len 0
        ok (t, record b { size = add_size b.size (add_size in_len 1) })

pub inject_u8_array : Ptr Bytestream → Ptr (List ℕ) → ℕ → Outcome Bytestream
inject_u8_array bs bytes len = do
  b ← require bs null_ptr
  xs ← require bytes null_ptr
  if leb (sub_size b.capacity b.size) len then err buffer_overrun else elim b.data_ptr [
    | none ↦ undefined
    | some p ↦ do
      m ← memcpy b.memory (p + b.size) xs len
      ok (record b { memory = m; size = add_size b.size len })
  ]
