-- ===== src/Bytestream/Codec.antt =====
-- What an injection and an extraction of any type promise, and how they follow one another.
pub mod Products
use nuhal.Common.{
  ℕ, ◌+◌, ◌^◌, ◌≤◌, ◌<◌, ◌≡◌, sym, ◌∙◌, ap, some, List, ◌++◌, arith, leb, leb→le, if◌then◌else◌,
  length, length-append, Bool-cases, inl, inr,
}
use nuhal.Common.{Outcome, ok, err, ◌>>=◌, Ptr, overflow}
use nuhal.Bytestream.{Bytestream}
use nuhal.Memory.{Holds, overwrite, length-overwrite, overwrite-append, overwrite-Holds}

-- The stream's buffer lies in memory at `p`, and its cursor in the buffer.
pub record IsValid (p : ℕ) (b : Bytestream) : Type 0 where
  pub base : b.data_ptr ≡ some p
  pub room : p + b.capacity ≤ length b.memory
  pub within : b.size ≤ b.capacity
  pub small : b.capacity < 2 ^ 63

-- The stream after `xs` was written at its cursor.
unfoldable pub put_bytes : ℕ → Bytestream → List ℕ → Bytestream
put_bytes p b xs = record b {
  memory = overwrite b.memory (p + b.size) xs;
  size = b.size + length xs;
}

-- The stream after `n` bytes were read.
abbrev pub advance : Bytestream → ℕ → Bytestream
advance b n = record b { size = b.size + n }

-- `f` writes exactly the bytes `xs`, or reports an overflow where they do not fit.
abbrev pub Injects : (Ptr Bytestream → Outcome Bytestream) → List ℕ → Type 0
Injects f xs =
    (p : ℕ) (b : Bytestream)
    → IsValid p b
    → f (some b)
      ≡ (if leb (b.size + length xs) b.capacity then ok (put_bytes p b xs) else err overflow)

-- `f` reads exactly `n` bytes and decodes them, or reports an overflow where fewer are left.
abbrev pub Extracts :
    {A : Type 0} → (Ptr Bytestream → Outcome (A × Bytestream)) → ℕ → (List ℕ → ℕ → A) → Type 0
Extracts f n decode =
    (p : ℕ) (b : Bytestream)
    → IsValid p b
    → f (some b) ≡ (
        if leb (b.size + n) b.capacity
        then ok (decode b.memory (p + b.size), advance b n)
        else err overflow)

pub put_bytes-IsValid :
    {p : ℕ} {b : Bytestream} (xs : List ℕ)
    → IsValid p b
    → b.size + length xs ≤ b.capacity
    → IsValid p (put_bytes p b xs)
unfolding put_bytes
put_bytes-IsValid {p} {b} xs v h = record {
  base = v.base;
  room = omega (arith, length-overwrite b.memory (p + b.size) xs, v.room);
  within = h;
  small = v.small;
}

pub advance-IsValid :
    {p : ℕ} {b : Bytestream} (n : ℕ)
    → IsValid p b
    → b.size + n ≤ b.capacity
    → IsValid p (advance b n)
advance-IsValid n v h = record { base = v.base; room = v.room; within = h; small = v.small }

pub put_bytes-append :
    (p : ℕ) (b : Bytestream) (xs ys : List ℕ)
    → put_bytes p (put_bytes p b xs) ys ≡ put_bytes p b (xs ++ ys)
unfolding put_bytes
put_bytes-append p b xs ys = λ i. record b { memory = memory i; size = size i }
  where
    memory :
        overwrite (overwrite b.memory (p + b.size) xs) (p + (b.size + length xs)) ys
        ≡ overwrite b.memory (p + b.size) (xs ++ ys)
    memory =
        ap (λ k. overwrite (overwrite b.memory (p + b.size) xs) k ys) (omega arith)
        ∙ sym (overwrite-append b.memory (p + b.size) xs ys)

    size : b.size + length xs + length ys ≡ b.size + length (xs ++ ys)
    size = omega (arith, length-append xs ys)

-- One injection after another writes both runs of bytes.
pub Injects-then :
    (f g : Ptr Bytestream → Outcome Bytestream) (xs ys : List ℕ)
    → Injects f xs
    → Injects g ys
    → Injects (λ bs. f bs >>= λ b. g (some b)) (xs ++ ys)
unfolding put_bytes
Injects-then f g xs ys hf hg p b v = elim (Bool-cases (leb (b.size + length xs) b.capacity)) [
  | inl fits ↦ ground (
    arith,
    hf p b v,
    hg p (put_bytes p b xs) (put_bytes-IsValid xs v (leb→le _ _ fits)),
    put_bytes-append p b xs ys,
    length-append xs ys,
  )
  | inr short ↦ ground (arith, hf p b v, length-append xs ys)
]

-- A serialised type: its two functions, the bytes that they agree on, and what each promises.
pub record Codec (A : Type 0) : Type 1 where
  pub inject : A → Ptr Bytestream → Outcome Bytestream
  pub extract : Ptr Bytestream → Outcome (A × Bytestream)
  pub IsValue : A → Type 0
  pub width : ℕ
  pub encode : A → List ℕ
  pub decode : List ℕ → ℕ → A
  pub injects : (a : A) → IsValue a → Injects (inject a) (encode a)
  pub extracts : Extracts extract width decode
  pub length-encode : (a : A) → length (encode a) ≡ width
  pub decode-encode :
      (m : List ℕ) (i : ℕ) (a : A) → IsValue a → Holds m i (encode a) → decode m i ≡ a

-- The stream with its cursor moved back to `n`, for a reader that starts there.
abbrev pub rewind : Bytestream → ℕ → Bytestream
rewind b n = record b { size = n }

pub rewind-IsValid : {p n : ℕ} {b : Bytestream} → IsValid p b → n ≤ b.size → IsValid p (rewind b n)
rewind-IsValid v h = record {
  base = v.base;
  room = v.room;
  within = omega (arith, v.within);
  small = v.small;
}

module _ {A : Type 0} (c : Codec A) where
  -- A value that fits is injected, and a reader that starts where the writer started extracts it
  -- and ends where the writer ended; one that does not fit is an overflow.
  pub round_trip :
      (a : A) (p : ℕ) (b : Bytestream)
      → c.IsValue a
      → IsValid p b
      → (c.inject a (some b) >>= λ w. c.extract (some (rewind w b.size))) ≡ (
          if leb (b.size + c.width) b.capacity
          then ok (a, put_bytes p b (c.encode a))
          else err overflow)
  unfolding put_bytes
  round_trip a p b value v = elim (Bool-cases (leb (b.size + c.width) b.capacity)) [
    | inl fits ↦
        let room : b.size + length (c.encode a) ≤ b.capacity =
          omega (arith, leb→le _ _ fits, c.length-encode a) in
        let valid : IsValid p (rewind (put_bytes p b (c.encode a)) b.size) =
          rewind-IsValid (put_bytes-IsValid (c.encode a) v room) (omega arith) in
        ground (
          arith,
          c.injects a value p b v,
          c.length-encode a,
          c.extracts p (rewind (put_bytes p b (c.encode a)) b.size) valid,
          c.decode-encode (overwrite b.memory (p + b.size) (c.encode a)) (p + b.size) a value
              (overwrite-Holds b.memory (p + b.size) (c.encode a) (omega (arith, v.room))),
        )
    | inr short ↦ ground (arith, c.injects a value p b v, c.length-encode a)
  ]
