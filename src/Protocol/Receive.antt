-- ===== src/Protocol/Receive.antt =====
-- `protocol_read_block` of nuhal_all/src/protocol.c on a line on which a packet comes in.
use nuhal.Common.{
  ℕ, ◌+◌, ◌-◌, ◌*◌, ◌^◌, ◌≤◌, ◌<◌, ◌≡◌, ◌≢◌, inl, inr, refl, sym, ◌∙◌, ap, arith, Bool, true, false,
  some, List, [], ◌∷◌, ◌++◌, length, ok, load, u32, add32, sub32, get_elem?-set_self,
  get_elem?-set_ne, length-set, set, ne→==, Ptr, Outcome, ◌>>=◌, ◌==◌, if◌then◌else◌, u8, Settles,
  Settles-bind, Settles-errors, read_timeout,
}
use mathlib.Core.Path.{ap₂, subst}
use nuhal.Memory.{
  overwrite, slice, length-overwrite, get_elem?-overwrite_lt, overwrite-Holds, slice_of_Holds,
}
use nuhal.Bytestream
use nuhal.Uart.{Port, no_term, read_block}
use nuhal.Uart
use nuhal.Uart.Line.{IsLine, Received, Received-then}
use nuhal.Uart.Expected.{ReadsExpected, read_block_error-Expected}
use nuhal.Protocol.{
  Packet, zero_packet, or_spare, packet_stream_init, read_block_error, verify_checksum,
}
use nuhal.Protocol.Checksum.{sum8}
use nuhal.Protocol.Header.{Claims, opened, verify_checksum_accepts}
use nuhal.Protocol.Send.{frame}

-- The bytes of an object after the two bytes of a header and the data were read into it.
abbrev arrived : List ℕ → ℕ → ℕ → List ℕ → List ℕ
arrived m len c payload = overwrite (overwrite m 0 (len ∷ c ∷ [])) 2 payload

module _ (m payload : List ℕ) (len c : ℕ) (size : length m ≡ 255) (fits : len ≡ length payload + 2)
    (most : len ≤ 255) where
  header_at :
      (load (overwrite m 0 (len ∷ c ∷ [])) 0 ≡ ok len)
      × (load (overwrite m 0 (len ∷ c ∷ [])) 1 ≡ ok c)
  unfolding overwrite
  header_at = (
    ground (
      arith,
      get_elem?-set_ne (set m 0 len) 1 0 c (omega arith),
      get_elem?-set_self m 0 len (omega (arith, size)),
    ),
    ground (arith, get_elem?-set_self (set m 0 len) 1 c (omega (arith, length-set m 0 len, size))),
  )

  load-arrived :
      (i v : ℕ)
      → i < 2
      → load (overwrite m 0 (len ∷ c ∷ [])) i ≡ ok v
      → load (arrived m len c payload) i ≡ ok v
  load-arrived i v lo h =
      ground (arith, h, get_elem?-overwrite_lt (overwrite m 0 (len ∷ c ∷ [])) 2 i payload lo)

  slice-arrived : slice (arrived m len c payload) 2 (length payload) ≡ payload
  slice-arrived = slice_of_Holds (arrived m len c payload) 2 payload (
      overwrite-Holds (overwrite m 0 (len ∷ c ∷ [])) 2 payload
        (omega (arith, length-overwrite m 0 (len ∷ c ∷ []), size, fits, most)))

  arrived-Claims : 3 ≤ len → Claims len c (arrived m len c payload)
  arrived-Claims least = record {
    size =
        length-overwrite (overwrite m 0 (len ∷ c ∷ [])) 2 payload
        ∙ (length-overwrite m 0 (len ∷ c ∷ []) ∙ size);
    length_byte = load-arrived 0 len (omega arith) header_at.0;
    checksum_byte = load-arrived 1 c (omega arith) header_at.1;
    least = least;
    most = most;
  }

module _ {S : Type 0} (port : Port S) (line : IsLine port) (payload rest : List ℕ) where
  -- The packet's data are what came in, and its stream stands behind the command byte.
  abbrev pub Receives : S → Bool × Packet × S → Type 0
  Receives s (success, p, s') =
      (success ≡ true)
      × (slice p.stream.memory 2 (length payload) ≡ payload)
      × (p ≡ opened p.stream.memory (length payload))
      × (length p.stream.memory ≡ 255)
      × Received line s (frame payload) s'
      × (line.incoming s' ≡ rest)

  module _ (m : List ℕ) (size : length m ≡ 255) (command : 1 ≤ length payload)
      (fits : length payload ≤ 253) where
    whole : List ℕ
    whole = arrived m (length payload + 2) (sum8 payload) payload

    data_at : slice whole 2 (length payload) ≡ payload
    unfolding whole
    data_at =
        slice-arrived m payload (length payload + 2) (sum8 payload) size refl (omega (arith, fits))

    length-whole : length whole ≡ 255
    unfolding whole
    length-whole =
        (arrived-Claims m payload (length payload + 2) (sum8 payload) size refl
          (omega (arith, fits)) (omega (arith, command))).size

    accepts :
        (p : Packet)
        → p.stream.memory ≡ whole
        → verify_checksum (some p) (length payload) ≡ ok (opened whole (length payload))
    unfolding whole
    accepts p at =
        ap (verify_checksum (some p)) two_less
        ∙ (verify_checksum_accepts p
              (subst (Claims (length payload + 2) (sum8 payload)) (sym at) (
                arrived-Claims m payload (length payload + 2) (sum8 payload) size refl
                  (omega (arith, fits)) (omega (arith, command))))
              (sym (ap sum8 (ap₂ (λ t n. slice t 2 n) at (sym two_less) ∙ data_at)))
            ∙ ap₂ (λ t n. ok (opened t n)) at (sym two_less))
      where
        two_less : length payload ≡ length payload + 2 - 2
        two_less = omega arith

    -- The second read, after the header came in.
    data_part :
        (fuel timeout : ℕ) (s s1 : S)
        → Received line s ((length payload + 2) ∷ sum8 payload ∷ []) s1
        → line.incoming s1 ≡ payload ++ rest
        → timeout < 2 ^ 31
        → length payload + line.patience s1 ≤ fuel
        → Settles
            (Uart.read_block_error port fuel
                (overwrite m 0 ((length payload + 2) ∷ sum8 payload ∷ []))
                2
                (length payload)
                timeout
                no_term
                true
                s1
              >>= λ (n, m2, s2).
                  let p : Packet = record {
                    stream = record { memory = m2; data_ptr = some 2; capacity = 253; size = 0 };
                  } in
                  if n == 0
                  then ok (false, p, s2)
                  else (verify_checksum (some p) (length payload) >>= λ p. ok (true, p, s2)))
            (Receives s)
            (λ e. e ≡ read_timeout)
    unfolding whole
    data_part fuel timeout s s1 got left limit patient =
        Settles-bind call _ expected (Receives s) (λ e. e ≡ read_timeout)
          (Settles-errors call expected (λ e. (e ≡ read_timeout) × (timeout ≢ 0))
            (λ e. e ≡ read_timeout)
            (read_block_error-Expected port line 2 timeout true payload rest fuel
              (overwrite m 0 ((length payload + 2) ∷ sum8 payload ∷ [])) s1 (inr refl) left limit
              (omega (
                arith,
                length-overwrite m 0 ((length payload + 2) ∷ sum8 payload ∷ []),
                size,
                fits,
              ))
              (omega (arith, fits)) patient)
            λ e h. h.0)
          λ (n, m2, s2) (e, em, got', left').
            rw
              (
                ne→== n 0 (omega (arith, e, command)),
                accepts
                    (record {
                      stream = record { memory = m2; data_ptr = some 2; capacity = 253; size = 0 };
                    })
                    em,
              )
              (
                refl,
                data_at,
                refl,
                length-whole,
                Received-then line s s1 s2 ((length payload + 2) ∷ sum8 payload ∷ []) payload got
                    got',
                left',
              )
      where
        call : Outcome (ℕ × List ℕ × S)
        call =
            Uart.read_block_error port fuel
              (overwrite m 0 ((length payload + 2) ∷ sum8 payload ∷ [])) 2 (length payload) timeout
              no_term true s1

        expected : ℕ × List ℕ × S → Type 0
        expected =
            ReadsExpected port line 2 timeout true payload rest
              (overwrite m 0 ((length payload + 2) ∷ sum8 payload ∷ [])) s1

  -- A frame that comes in is received, or it is the read timeout of its data.
  pub read_block_error-Receives :
      (fuel : ℕ) (out : Ptr Packet) (s : S)
      → length (or_spare out zero_packet).stream.memory ≡ 255
      → 1 ≤ length payload
      → length payload ≤ 253
      → line.incoming s ≡ frame payload ++ rest
      → 255 + line.patience s ≤ fuel
      → Settles
          (read_block_error fuel (some port) out 0 true s)
          (Receives s)
          (λ e. e ≡ read_timeout)
  unfolding read_block_error packet_stream_init Bytestream.init Uart.read_block
  read_block_error-Receives fuel out s size command fits i patient =
      let m = (or_spare out zero_packet).stream.memory in
      let len = length payload + 2 in
      let c = sum8 payload in
      Settles-bind (Uart.read_block_error port fuel m 0 2 0 no_term false s) _
        (ReadsExpected port line 0 0 false (len ∷ c ∷ []) (payload ++ rest) m s) (Receives s)
        (λ e. e ≡ read_timeout)
        (Settles-errors (Uart.read_block_error port fuel m 0 2 0 no_term false s)
          (ReadsExpected port line 0 0 false (len ∷ c ∷ []) (payload ++ rest) m s)
          (λ e. (e ≡ read_timeout) × (0 ≢ 0)) (λ e. e ≡ read_timeout)
          (read_block_error-Expected port line 0 0 false (len ∷ c ∷ []) (payload ++ rest) fuel m s
            (inl refl) i (omega arith) (omega (arith, size)) (omega arith) (omega (arith, patient)))
          λ e h. h.0)
        λ (n, m1, s1) (e, em, got, left).
          rw
            (
              em,
              (header_at m payload len c size refl (omega (arith, fits))).0,
              ne→== 0 len (omega arith),
              two_less,
              byte,
            )
            (data_part m size command fits fuel (add32 (u32 (10 * length payload)) 0) s s1 got left
              (omega (arith, fits)) (omega (arith, patient, fits, got.2)))
    where
      two_less : sub32 (length payload + 2) 2 ≡ length payload
      two_less = omega (arith, fits)

      byte : u8 (length payload) ≡ length payload
      byte = omega (arith, fits)
