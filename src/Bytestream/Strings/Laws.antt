-- ===== src/Bytestream/Strings/Laws.antt =====
-- Strings and byte arrays in a stream: what fits, what is cut off, what is read past its end.
use nuhal.Common.{
  ℕ, zero, suc, ◌+◌, ◌-◌, ◌≤◌, ◌<◌, ◌≡◌, refl, ◌∙◌, ap, some, List, [], ◌∷◌, ◌++◌, arith, length,
  set, length-set, length-append, length-take, take, drop, ltb, ltb→lt, if◌then◌else◌, Bool-cases,
  inl, inr,
}
use nuhal.Common.{ok, err, undefined, buffer_overrun}
use nuhal.Utilities.Length.{IsText, strlen-terminated, strlen-long, strlen-runs_out}
use nuhal.Bytestream.{Bytestream}
use nuhal.Memory.{overwrite}
use nuhal.Bytestream.Codec.{IsValid, put_bytes}
use nuhal.Bytestream.Integers.{verify_args-IsValid}
use nuhal.Bytestream.Strings.{memcpy, inject_string, extract_string, inject_u8_array}

-- A copy whose source and target lie inside their objects.
pub memcpy-eq-overwrite :
    (m : List ℕ) (i : ℕ) (xs : List ℕ) (n : ℕ)
    → n ≤ length xs
    → i + n ≤ length m
    → memcpy m i xs n ≡ ok (overwrite m i (take n xs))
unfolding memcpy overwrite
memcpy-eq-overwrite m i xs zero h k = refl
memcpy-eq-overwrite m i [] (suc n) h k = absurd (omega arith)
memcpy-eq-overwrite m i (x ∷ xs) (suc n) h k =
    ground (arith, memcpy-eq-overwrite (set m i x) (i + 1) xs n, length-set m i x)

take-append : (xs ys : List ℕ) → take (length xs) (xs ++ ys) ≡ xs
take-append [] ys = refl
take-append (x ∷ xs) ys = ap (λ (t : List ℕ). x ∷ t) (take-append xs ys)

take-append_lt : (n : ℕ) (xs ys : List ℕ) → n ≤ length xs → take n (xs ++ ys) ≡ take n xs
take-append_lt zero xs ys h = refl
take-append_lt (suc n) [] ys h = absurd (omega arith)
take-append_lt (suc n) (x ∷ xs) ys h =
    ap (λ (t : List ℕ). x ∷ t) (take-append_lt n xs ys (omega arith))

terminated : (text rest : List ℕ) → take (length text + 1) (text ++ 0 ∷ rest) ≡ text ++ 0 ∷ []
terminated [] rest = refl
terminated (c ∷ text) rest =
    ap (λ k. take k (c ∷ text ++ 0 ∷ rest)) add_suc
    ∙ ap (λ (t : List ℕ). c ∷ t) (terminated text rest)
  where
    add_suc : suc (length text) + 1 ≡ suc (length text + 1)
    add_suc = omega arith

-- A text that fits into a valid stream with its terminator is written with it.
pub inject_string-fits :
    (text rest : List ℕ) (p : ℕ) (b : Bytestream)
    → IsText text
    → IsValid p b
    → b.size + length text + 1 ≤ b.capacity
    → inject_string (some b) (some (text ++ 0 ∷ rest)) ≡ ok (put_bytes p b (text ++ 0 ∷ []))
unfolding inject_string put_bytes
inject_string-fits text rest p b t v h = ground (
  arith,
  v.small,
  v.within,
  strlen-terminated text rest (b.capacity - b.size - 1),
  verify_args-IsValid p b (length text + 1) (omega (arith, v.small)) v,
  memcpy-eq-overwrite b.memory (p + b.size) (text ++ 0 ∷ rest) (length text + 1)
      (omega (arith, length-append text (0 ∷ rest))) (omega (arith, v.room)),
  terminated text rest,
  length-append text (0 ∷ []),
)

-- A text that does not fit into a valid stream with some room left is cut off where the buffer
-- ends: no error is reported, and no terminator is written.
pub inject_string-cut :
    (text rest : List ℕ) (p : ℕ) (b : Bytestream)
    → IsText text
    → IsValid p b
    → b.size < b.capacity
    → b.capacity ≤ b.size + length text
    → inject_string (some b) (some (text ++ 0 ∷ rest))
      ≡ ok (put_bytes p b (take (b.capacity - b.size) text))
unfolding inject_string put_bytes
inject_string-cut text rest p b t v room h = ground (
  arith,
  v.small,
  v.within,
  strlen-long text (0 ∷ rest) (b.capacity - b.size - 1),
  verify_args-IsValid p b (b.capacity - b.size) (omega (arith, v.small)) v,
  memcpy-eq-overwrite b.memory (p + b.size) (text ++ 0 ∷ rest) (b.capacity - b.size)
      (omega (arith, length-append text (0 ∷ rest))) (omega (arith, v.room)),
  take-append_lt (b.capacity - b.size) text (0 ∷ rest) (omega arith),
  length-take (b.capacity - b.size) text,
)

-- Where the object ends with no terminator from the cursor on and holds from there no more than
-- the capacity, extract_string reads past the end of the object.
pub extract_string-unterminated :
    (p n : ℕ) (b : Bytestream) (out : List ℕ)
    → IsValid p b
    → IsText (drop (p + b.size) b.memory)
    → length (drop (p + b.size) b.memory) ≤ b.capacity
    → extract_string (some b) (some out) n ≡ undefined
unfolding extract_string
extract_string-unterminated p n b out v t h = ground (
  arith,
  v.within,
  verify_args-IsValid p b 0 (omega arith) v,
  strlen-runs_out (drop (p + b.size) b.memory) b.capacity t h,
)

-- An array of at least n bytes goes into a valid stream with its first n bytes where a byte of
-- room stays free; n bytes that would fill the buffer exactly are refused like those that do not
-- fit.
pub inject_u8_array_lem :
    (p n : ℕ) (b : Bytestream) (xs : List ℕ)
    → IsValid p b
    → n ≤ length xs
    → inject_u8_array (some b) (some xs) n
      ≡ (if ltb (b.size + n) b.capacity then ok (put_bytes p b (take n xs)) else err buffer_overrun)
unfolding inject_u8_array put_bytes
inject_u8_array_lem p n b xs v h = elim (Bool-cases (ltb (b.size + n) b.capacity)) [
  | inl fits ↦ ground (
    arith,
    v.base,
    v.small,
    v.within,
    ltb→lt _ _ fits,
    memcpy-eq-overwrite b.memory (p + b.size) xs n h (omega (arith, v.room, ltb→lt _ _ fits)),
    length-take n xs,
  )
  | inr full ↦ ground (arith, v.small, v.within)
]
