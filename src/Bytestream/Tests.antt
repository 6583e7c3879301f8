-- ===== src/Bytestream/Tests.antt =====
-- The stream's theorems at concrete streams.
use nuhal.Common.{ℕ, ◌≡◌, refl, arith, some, List, [], ◌∷◌, ok, undefined, ◌>>=◌}
use nuhal.Utilities.Length.{IsText}
use nuhal.Bytestream.{Bytestream, inject_u32, extract_u32}
use nuhal.Bytestream.Codec.{IsValid, put_bytes, rewind}
use nuhal.Bytestream.RoundTrip.{inject_u32-extract_u32}
use nuhal.Bytestream.Strings.{inject_string, extract_string}
use nuhal.Bytestream.Strings.Laws.{
  inject_string-fits, inject_string-cut, extract_string-unterminated,
}

-- Five bytes of buffer, 2 bytes into an object, one of them taken.
abbrev stream : Bytestream
stream = record {
  memory = 9 ∷ 9 ∷ 1 ∷ 5 ∷ 5 ∷ 5 ∷ 5 ∷ 9 ∷ [];
  data_ptr = some 2;
  capacity = 5;
  size = 1;
}

stream-IsValid : IsValid 2 stream
stream-IsValid = record {
  base = refl;
  room = omega arith;
  within = omega arith;
  small = omega arith;
}

-- The same with one byte of room left.
abbrev nearly_full : Bytestream
nearly_full = record stream { size = 4 }

nearly_full-IsValid : IsValid 2 nearly_full
nearly_full-IsValid = record {
  base = refl;
  room = omega arith;
  within = omega arith;
  small = omega arith;
}

inject_u32-extract_u32_example :
    (inject_u32 (some stream) 0xfe030201 >>= λ w. extract_u32 (some (rewind w 1)))
    ≡ ok (0xfe030201, put_bytes 2 stream (254 ∷ 3 ∷ 2 ∷ 1 ∷ []))
inject_u32-extract_u32_example =
    inject_u32-extract_u32 0xfe030201 2 stream (omega arith) stream-IsValid

abbrev abc : List ℕ
abc = 97 ∷ 98 ∷ 99 ∷ []

abc-IsText : IsText abc
abc-IsText = (λ e. omega (arith, e), (λ e. omega (arith, e), (λ e. omega (arith, e), tt)))

inject_string-fits_example :
    inject_string (some stream) (some (97 ∷ 98 ∷ 99 ∷ 0 ∷ 7 ∷ []))
    ≡ ok (put_bytes 2 stream (97 ∷ 98 ∷ 99 ∷ 0 ∷ []))
inject_string-fits_example =
    inject_string-fits abc (7 ∷ []) 2 stream abc-IsText stream-IsValid (omega arith)

inject_string-cut_example :
    inject_string (some nearly_full) (some (97 ∷ 98 ∷ 99 ∷ 0 ∷ []))
    ≡ ok (put_bytes 2 nearly_full (97 ∷ []))
inject_string-cut_example =
    inject_string-cut abc [] 2 nearly_full abc-IsText nearly_full-IsValid (omega arith)
      (omega arith)

-- The buffer is the whole object, and no '\0' is in it.
abbrev text_stream : Bytestream
text_stream = record { memory = abc; data_ptr = some 0; capacity = 3; size = 0 }

text_stream-IsValid : IsValid 0 text_stream
text_stream-IsValid = record {
  base = refl;
  room = omega arith;
  within = omega arith;
  small = omega arith;
}

extract_string-unterminated_example :
    extract_string (some text_stream) (some (0 ∷ 0 ∷ 0 ∷ 0 ∷ [])) 4 ≡ undefined
extract_string-unterminated_example =
    extract_string-unterminated 0 4 text_stream (0 ∷ 0 ∷ 0 ∷ 0 ∷ []) text_stream-IsValid abc-IsText
      (omega arith)
