-- ===== src/Bytestream/Codec/Products.antt =====
-- Codecs of composite types, and the C functions that write and read their fields in turn.
use nuhal.Common.{
  ℕ, ◌+◌, ◌≡◌, refl, ◌∙◌, ap, some, List, ◌++◌, arith, leb, leb→le, Bool-cases, inl, inr,
  if◌then◌else◌, length, length-append,
}
use mathlib.Core.Path.{ap₂, fun_ext}
use nuhal.Common.{Outcome, ok, err, undefined, unfinished, ◌>>=◌, Ptr, overflow}
use nuhal.Bytestream.{Bytestream}
use nuhal.Memory.{Holds, Holds-append_left, Holds-append_right}
use nuhal.Bytestream.Codec.{
  IsValid, put_bytes, advance, advance-IsValid, Extracts, Injects-then, Codec, rewind, round_trip,
}

pub >>=-assoc :
    {A B C : Type 0} (m : Outcome A) (f : A → Outcome B) (g : B → Outcome C)
    → (m >>= f >>= g) ≡ (m >>= λ a. f a >>= g)
>>=-assoc (ok a) f g = refl
>>=-assoc (err e) f g = refl
>>=-assoc undefined f g = refl
>>=-assoc unfinished f g = refl

-- One field after another.
module _ {A B : Type 0} (c : Codec A) (d : Codec B) where
  abbrev pub pair_extract : Ptr Bytestream → Outcome ((A × B) × Bytestream)
  pair_extract bs = do (x, b) ← c.extract bs; (y, b) ← d.extract (some b); ok ((x, y), b)

  abbrev pub pair_decode : List ℕ → ℕ → A × B
  pair_decode m i = (c.decode m i, d.decode m (i + c.width))

  pub pair-Extracts : Extracts pair_extract (c.width + d.width) pair_decode
  pair-Extracts p b v = elim (Bool-cases (leb (b.size + c.width) b.capacity)) [
    | inl fits ↦ ground (
      arith,
      c.extracts p b v,
      d.extracts p (advance b c.width) (advance-IsValid c.width v (leb→le _ _ fits)),
    )
    | inr short ↦ ground (arith, c.extracts p b v)
  ]

  pub pair_decode-encode :
      (m : List ℕ) (i : ℕ) (t : A × B)
      → c.IsValue t.0 × d.IsValue t.1
      → Holds m i (c.encode t.0 ++ d.encode t.1)
      → pair_decode m i ≡ t
  pair_decode-encode m i (x, y) value bytes =
      let rest : Holds m (i + c.width) (d.encode y) =
        rw (c.length-encode x) at (Holds-append_right m i (c.encode x) (d.encode y) bytes) in
      ap₂ (λ a b. (a, b))
        (c.decode-encode m i x value.0 (Holds-append_left m i (c.encode x) (d.encode y) bytes))
        (d.decode-encode m (i + c.width) y value.1 rest)

  pub pair_length : (t : A × B) → length (c.encode t.0 ++ d.encode t.1) ≡ c.width + d.width
  pair_length (x, y) =
      omega (arith, length-append (c.encode x) (d.encode y), c.length-encode x, d.length-encode y)

  abbrev pub pair : Codec (A × B)
  pair = record {
    inject = λ t bs. c.inject t.0 bs >>= λ b. d.inject t.1 (some b);
    extract = pair_extract;
    IsValue = λ t. c.IsValue t.0 × d.IsValue t.1;
    width = c.width + d.width;
    encode = λ t. c.encode t.0 ++ d.encode t.1;
    decode = pair_decode;
    injects = λ t value.
        Injects-then (c.inject t.0) (d.inject t.1) (c.encode t.0) (d.encode t.1)
          (c.injects t.0 value.0) (d.injects t.1 value.1);
    extracts = pair-Extracts;
    length-encode = pair_length;
    decode-encode = pair_decode-encode;
  }

-- A record of C whose fields are those of a tuple.
module _ {R T : Type 0} (to : R → T) (from : T → R) (same : (r : R) → from (to r) ≡ r) where
  pub fields-Extracts :
      (c : Codec T)
      → Extracts
          (λ bs. c.extract bs >>= λ (t, b). ok (from t, b))
          c.width
          (λ m i. from (c.decode m i))
  fields-Extracts c p b v = ground (arith, c.extracts p b v)

  abbrev pub fields : Codec T → Codec R
  fields c = record {
    inject = λ r. c.inject (to r);
    extract = λ bs. c.extract bs >>= λ (t, b). ok (from t, b);
    IsValue = λ r. c.IsValue (to r);
    width = c.width;
    encode = λ r. c.encode (to r);
    decode = λ m i. from (c.decode m i);
    injects = λ r. c.injects (to r);
    extracts = fields-Extracts c;
    length-encode = λ r. c.length-encode (to r);
    decode-encode = λ m i r value bytes. ap from (c.decode-encode m i (to r) value bytes) ∙ same r;
  }

-- The C functions `inject(&bs, &value)` and `extract(&bs, &out)` behave as a codec does.
pub record Implements {R : Type 0} (inject : Ptr Bytestream → Ptr R → Outcome Bytestream)
    (extract : Ptr Bytestream → Ptr R → Outcome (R × Bytestream)) (c : Codec R) : Type 0 where
  pub injects_as : (b : Bytestream) (r : R) → inject (some b) (some r) ≡ c.inject r (some b)
  pub extracts_as : (b : Bytestream) (old : R) → extract (some b) (some old) ≡ c.extract (some b)

-- What is injected is extracted again, whatever the record held before; a value that does not fit
-- is an overflow.
pub Implements-round_trip :
    {R : Type 0} (inject : Ptr Bytestream → Ptr R → Outcome Bytestream)
    (extract : Ptr Bytestream → Ptr R → Outcome (R × Bytestream)) (c : Codec R)
    → Implements inject extract c
    → (r old : R) (p : ℕ) (b : Bytestream) → c.IsValue r
    → IsValid p b
    → (inject (some b) (some r) >>= λ w. extract (some (rewind w b.size)) (some old)) ≡ (
        if leb (b.size + c.width) b.capacity
        then ok (r, put_bytes p b (c.encode r))
        else err overflow)
Implements-round_trip inject extract c i r old p b value v = rw (i.injects_as b r) (
    ap (λ k. c.inject r (some b) >>= k) (fun_ext λ w. i.extracts_as (rewind w b.size) old)
    ∙ round_trip c r p b value v)
