-- ===== src/Led/Stream.antt =====
-- Colours in a stream.
use nuhal.Common.{
  ℕ, ◌+◌, ◌≡◌, arith, some, [], ◌∷◌, leb, ltb, if◌then◌else◌, Bool-cases, inl, inr, ok, err, ◌>>=◌,
  invalid_color, overflow,
}
use nuhal.Memory.{byte_at}
use nuhal.Bytestream.{Bytestream}
use nuhal.Bytestream.Codec.{IsValid, put_bytes, rewind, advance}
use nuhal.Bytestream.Integers.{be8, inject_u8-Injects}
use nuhal.Bytestream.Decode.{extract_u8-Extracts}
use nuhal.Bytestream.RoundTrip.{inject_u8-extract_u8}
use nuhal.Led.{led_color_inject, led_color_extract}

-- On a valid stream, injecting a colour and extracting it from where the writer started gives the
-- colour back and leaves its byte in the stream if a byte fits, is the overflow error if none
-- does, and for a value above 7 is the invalid-colour error.
pub led_color_inject-led_color_extract :
    (color p : ℕ) (b : Bytestream)
    → IsValid p b
    → (led_color_inject (some b) color >>= λ w. led_color_extract (some (rewind w b.size))) ≡ (
        if ltb 7 color
        then err invalid_color
        else if leb (b.size + 1) b.capacity
        then ok (color, put_bytes p b (color ∷ []))
        else err overflow)
unfolding led_color_inject led_color_extract
led_color_inject-led_color_extract color p b v = elim (Bool-cases (ltb 7 color)) [
  | inl bad ↦ ground (arith, bad)
  | inr good ↦ ground (
    arith,
    inject_u8-extract_u8 color p b (ground arith) v,
    inject_u8-Injects color p b v,
    extract_u8-Extracts p (rewind (put_bytes p b (be8 color)) b.size),
  )
]

-- On a valid stream, extracting a colour returns the byte at the cursor and moves past it if the
-- byte is at most 7, is the invalid-colour error for any other byte, and the overflow error where
-- no byte is left.
pub led_color_extract-checks :
    (p : ℕ) (b : Bytestream)
    → IsValid p b
    → led_color_extract (some b) ≡ (
        if leb (b.size + 1) b.capacity
        then if ltb 7 (byte_at b.memory (p + b.size))
          then err invalid_color
          else ok (byte_at b.memory (p + b.size), advance b 1)
        else err overflow)
unfolding led_color_extract
led_color_extract-checks p b v = ground (arith, extract_u8-Extracts p b v)
