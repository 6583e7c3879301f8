-- ===== src/Protocol/Exchange.antt =====
-- nuhal_all/src/protocol.c at both ends of a line: what one end sends the other receives, and a request
-- with its response.
use nuhal.Common.{
  ℕ, zero, suc, ◌+◌, ◌≤◌, ◌<◌, ◌≡◌, ◌≢◌, ◌⊎◌, inl, inr, refl, sym, ◌∙◌, ap, arith, Bool, true, not,
  some, List, [], ◌++◌, length, ok, err, append-nil, append_split, eq→==, ne→==, Ptr, ◌>>=◌, ◌==◌,
  if◌then◌else◌, Outcome, Settles, Settles-bind, Settles-mono, Settles-errors, Message,
  read_timeout, write_timeout, downstream_error, response_mismatch,
}
use native.Mathlib.Decide.{ℕ_discrete}
use nuhal.Memory.{slice, byte_at, length-slice, load_of_lt}
use nuhal.Uart.{Port}
use nuhal.Uart.Line.{IsLine, CanWrite}
use nuhal.Protocol.{
  Packet, zero_packet, or_spare, packet_command, validate_response, write_block, read_block_error,
  request_timeout,
}
use nuhal.Protocol.Header.{opened}
use nuhal.Protocol.Send.{frame, payload_of, IsBuilt, Sends, write_block-Sends}
use nuhal.Protocol.Receive.{Receives, read_block_error-Receives}

module _ {S T : Type 0} (near : Port S) (near_line : IsLine near) (far : Port T)
    (far_line : IsLine far) where
  -- Where protocol_write_block has sent a packet with a command that fits its 255 bytes, and just
  -- the bytes it put on its line come in on the other end's line, protocol_read_block_error with
  -- no timeout for the header, into any packet or none, ends with enough rounds for both and on
  -- lines that do what uart.h promises, the sending one of writes too: it has read all of them and
  -- holds the same command and data with its stream behind the command byte, or it is the read
  -- timeout error of the data.
  pub write_block-read_block :
      CanWrite near near_line
      → (fuel : ℕ) (p p' : Packet) (s s' : S) (out : Ptr Packet) (t : T) → IsBuilt p
      → 255 + near_line.patience s < fuel
      → write_block fuel (some near) (some p) s ≡ ok (p', s')
      → near_line.outgoing s' ≡ near_line.outgoing s ++ far_line.incoming t
      → length (or_spare out zero_packet).stream.memory ≡ 255
      → 255 + far_line.patience t ≤ fuel
      → Settles
          (read_block_error fuel (some far) out 0 true t)
          (λ (success, r, t').
            (success ≡ true)
            × (r ≡ opened r.stream.memory p.stream.size)
            × (payload_of p ≡ slice r.stream.memory 2 p.stream.size)
            × (far_line.incoming t' ≡ []))
          (λ e. e ≡ read_timeout)
  write_block-read_block can fuel p p' s s' out t built patient sent link size patient' =
      Settles-mono (read_block_error fuel (some far) out 0 true t) _ _ (λ e. e ≡ read_timeout)
        (read_block_error-Receives far far_line (payload_of p) [] fuel out t size
          (omega (arith, count, built.command)) (omega (arith, count, built.fits))
          (came ∙ sym (append-nil (frame (payload_of p)))) patient')
        λ (success, r, t') (done, bytes, at, _, _, left). (
          done,
          at ∙ ap (opened r.stream.memory) count,
          sym bytes ∙ ap (slice r.stream.memory 2) count,
          left,
        )
    where
      count : length (payload_of p) ≡ p.stream.size
      count = length-slice p.stream.memory 2 p.stream.size

      on_line : Sends near near_line p s (p', s')
      on_line = rw sent at (write_block-Sends near near_line can fuel p s built patient)

      came : far_line.incoming t ≡ frame (payload_of p)
      came =
          (append_split (near_line.outgoing s) (far_line.incoming t) (near_line.outgoing s)
            (frame (payload_of p)) refl (sym link ∙ on_line.0.0)).1

-- The first byte of a packet's data is its command.
command_of :
    (m payload : List ℕ) (n : ℕ) → 1 ≤ n → slice m 2 n ≡ payload → byte_at m 2 ≡ byte_at payload 0
unfolding slice
command_of m payload zero h e = absurd (omega arith)
command_of m payload (suc n) h e = ap (λ t. byte_at t 0) e

-- What a response with the command `got` to a request with the command `asked` comes to.
abbrev verdict : ℕ → ℕ → Outcome {0} Unit
verdict asked got =
    if 255 == got
    then err downstream_error
    else if not (asked == got)
    then err response_mismatch
    else ok tt

validate_response_lem :
    (q r : Packet)
    → length q.stream.memory ≡ 255
    → length r.stream.memory ≡ 255
    → validate_response (some q) (some r)
      ≡ verdict (byte_at q.stream.memory 2) (byte_at r.stream.memory 2)
unfolding validate_response packet_command
validate_response_lem q r size size' =
    rw
      (
        load_of_lt q.stream.memory 2 (omega (arith, size)),
        load_of_lt r.stream.memory 2 (omega (arith, size')),
      )
      refl

module _ {S : Type 0} (port : Port S) (line : IsLine port) (q : Packet)
    (payload rest : List ℕ) where
  -- The command of the request and of the response.
  abbrev asked : ℕ
  asked = byte_at (payload_of q) 0

  abbrev got : ℕ
  got = byte_at payload 0

  -- The request is out, and the response in, with the request's command.
  abbrev pub Answered : S → Bool × Packet × Packet × S → Type 0
  Answered s (success, q', r, s') =
      (success ≡ true)
      × (got ≡ asked)
      × (got ≢ 255)
      × (slice r.stream.memory 2 (length payload) ≡ payload)
      × (line.outgoing s' ≡ line.outgoing s ++ frame (payload_of q))
      × (line.incoming s' ≡ rest)

  -- A timeout of one of the two ways, an error that the other end reports, or a wrong command.
  abbrev pub Fails : Message → Type 0
  Fails e =
      (e ≡ write_timeout)
      ⊎ (e ≡ read_timeout)
      ⊎ (e ≡ downstream_error) × (got ≡ 255)
      ⊎ (e ≡ response_mismatch) × (got ≢ asked)

  verdict-Settles :
      (s : S) (q' r : Packet) (s' : S)
      → (got ≡ asked → got ≢ 255 → Answered s (true, q', r, s'))
      → Settles (verdict asked got >>= λ _. ok (true, q', r, s')) (Answered s) Fails
  verdict-Settles s q' r s' fine = elim (ℕ_discrete 255 got) [
    | yes down ↦ rw (eq→== 255 got down) (inr (inr (inl (refl, sym down))))
    | no up ↦ elim (ℕ_discrete asked got) [
      | yes same ↦ rw (ne→== 255 got up, eq→== asked got same) (fine (sym same) λ e. up (sym e))
      | no other ↦
          rw (ne→== 255 got up, ne→== asked got other) (inr (inr (inr (refl, λ e. other (sym e)))))
    ]
  ]

  -- A request with timeout errors and no timeout for the header, on a line that does what uart.h
  -- promises, of writes too, and on which a frame of 1 to 253 bytes of data comes in, ends with
  -- enough rounds: true, with the request's frame sent, exactly the response's frame taken off the
  -- line, its data in the packet, and its command that of the request and not 0xFF; or a write or
  -- read timeout; or the error for a response with the command 0xFF; or the mismatch error for a
  -- response with another command.
  pub request_timeout-Answered :
      CanWrite port line
      → (fuel : ℕ) (out : Ptr Packet) (devnull : Packet) (s : S) → IsBuilt q
      → length (or_spare out devnull).stream.memory ≡ 255
      → 1 ≤ length payload
      → length payload ≤ 253
      → line.incoming s ≡ frame payload ++ rest
      → 255 + line.patience s < fuel
      → Settles (request_timeout fuel (some port) (some q) out devnull 0 true s) (Answered s) Fails
  unfolding request_timeout
  request_timeout-Answered can fuel out devnull s built size command fits i patient =
      Settles-bind (write_block fuel (some port) (some q) s) _ (Sends port line q s) (Answered s)
        Fails
        (Settles-errors (write_block fuel (some port) (some q) s) (Sends port line q s)
          (λ e. e ≡ write_timeout) Fails (write_block-Sends port line can fuel q s built patient)
          λ e h. inl h)
        λ (q', s1) (sent, same, n, _, size').
          Settles-bind (read_block_error fuel (some port) (some (or_spare out devnull)) 0 true s1) _
            (Receives port line payload rest s1) (Answered s) Fails
            (Settles-errors
              (read_block_error fuel (some port) (some (or_spare out devnull)) 0 true s1)
              (Receives port line payload rest s1) (λ e. e ≡ read_timeout) Fails
              (read_block_error-Receives port line payload rest fuel (some (or_spare out devnull))
                s1 size command fits (sent.1 ∙ i) (omega (arith, patient, sent.2)))
              λ e h. inr (inl h))
            λ (success, r, s2) (done, bytes, _, size'', received, left).
              rw
                (
                  done,
                  validate_response_lem q' r size' size'',
                  command_of q'.stream.memory (payload_of q) q.stream.size built.command
                      (ap (slice q'.stream.memory 2) (sym n) ∙ same),
                  command_of r.stream.memory payload (length payload) command bytes,
                )
                (verdict-Settles s q' r s2 λ e ne. (refl, e, ne, bytes, received.1 ∙ sent.0, left))
