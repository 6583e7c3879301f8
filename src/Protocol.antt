-- ===== src/Protocol.antt =====
-- nuhal_all/src/protocol.c and nuhal_all/include/nuhal/protocol.h: packets with a length and a checksum
-- over a UART. A packet's stream points into the packet's own bytes, so `memory` of the stream is
-- `_data`. The port is the record of Uart, over the state `S` of its line and clock, and `fuel` the
-- rounds of each loop that waits for the line.
pub mod Checksum
pub mod Header
pub mod Send
pub mod Receive
pub mod Exchange
pub mod Broadcast
mod Tests
use nuhal.Common.{
  ℕ, zero, suc, ◌+◌, ◌*◌, Bool, true, false, none, some, List, not, ltb, ◌==◌, if◌then◌else◌, u8,
  u32, add32, sub32, replicate, Outcome, ok, err, unfinished, ◌>>=◌, Ptr, require, load, store,
  null_ptr, invalid_checksum, downstream_error, response_mismatch, timeout,
}
use nuhal.Bytestream
use nuhal.Bytestream.{Bytestream, inject_u8, extract_u8}
use nuhal.Uart
use nuhal.Uart.{Port, no_term}

-- `struct protocol_packet`
pub record Packet : Type 0 where
  pub stream : Bytestream

-- `= {0}`
abbrev pub zero_packet : Packet
zero_packet = record {
  stream = record { memory = replicate 255 0; data_ptr = none; capacity = 0; size = 0 };
}

-- `if(!out) { out = &spare; }`
abbrev pub or_spare : Ptr Packet → Packet → Packet
or_spare none spare = spare
or_spare (some p) spare = p

-- The loop of `protocol_checksum`: its index is a uint8_t.
unfoldable pub checksum_loop : ℕ → List ℕ → ℕ → ℕ → ℕ → Outcome ℕ
checksum_loop zero m length i sum = unfinished
checksum_loop (suc rounds) m length i sum = elim (i == length) [
  | true ↦ ok sum
  | false ↦ do x ← load m i; checksum_loop rounds m length (u8 (i + 1)) (u8 (sum + x))
]

-- `protocol_checksum`, of a packet's bytes; a uint8_t takes at most 256 rounds to come round.
unfoldable pub checksum : List ℕ → Outcome ℕ
checksum m = do length ← load m 0; if 0 == length then ok 0xCC else checksum_loop 256 m length 2 0

-- `protocol_header_init`
unfoldable pub header_init : Ptr Packet → Outcome (ℕ × Packet)
header_init packet = do
  p ← require packet null_ptr
  m ← store p.stream.memory 0 (u8 (p.stream.size + 2))
  c ← checksum m
  m ← store m 1 c
  length ← load m 0
  ok (length, record p { stream = record p.stream { memory = m; capacity = p.stream.size } })

-- `protocol_verify_checksum`
unfoldable pub verify_checksum : Ptr Packet → ℕ → Outcome Packet
verify_checksum out data_length = do
  p ← require out null_ptr
  let m = p.stream.memory
  c ← checksum m
  expected ← load m 1
  if not (c == expected) then err invalid_checksum else do
    b ← Bytestream.init (some p.stream) m (some 2) data_length
    length ← load m 0
    if ltb 0 length
        then (do (_, b) ← extract_u8 (some b); ok (record p { stream = b }))
        else ok (record p { stream = b })

-- `protocol_packet_stream_init`
unfoldable pub packet_stream_init : Packet → Outcome Packet
packet_stream_init p = do
  b ← Bytestream.init (some p.stream) p.stream.memory (some 2) 253
  ok (record p { stream = b })

-- `protocol_packet_init`
unfoldable pub packet_init : Ptr Packet → ℕ → Outcome Packet
packet_init out command = do
  p ← require out null_ptr
  p ← packet_stream_init p
  b ← inject_u8 (some p.stream) command
  ok (record p { stream = b })

-- `protocol_packet_command`
unfoldable pub packet_command : Ptr Packet → Outcome ℕ
packet_command pkt = do p ← require pkt null_ptr; load p.stream.memory 2

-- `protocol_validate_response`
unfoldable pub validate_response : Ptr Packet → Ptr Packet → Outcome {0} Unit
validate_response request response = do
  q ← require request null_ptr
  r ← require response null_ptr
  req_cmd ← packet_command (some q)
  resp_cmd ← packet_command (some r)
  if 0xFF == resp_cmd
      then err downstream_error
      else if not (req_cmd == resp_cmd)
      then err response_mismatch
      else ok tt

module _ {S : Type 0} where
  -- `protocol_write_block`
  unfoldable pub write_block : ℕ → Ptr (Port S) → Ptr Packet → S → Outcome (Packet × S)
  write_block fuel port packet s = do
    port ← require port null_ptr
    p ← require packet null_ptr
    (length, p) ← header_init (some p)
    (_, s) ← Uart.write_block port fuel p.stream.memory 0 length (u32 (length * 10 + 100)) s
    ok (p, s)

  -- `protocol_read_block_error`; the packet is what `*out` holds at the end, or `temp` if `out` is
  -- NULL.
  unfoldable pub read_block_error :
      ℕ → Ptr (Port S) → Ptr Packet → ℕ → Bool → S → Outcome (Bool × Packet × S)
  read_block_error fuel port out timeout_ms timeout_error s = do
    port ← require port null_ptr
    p ← packet_stream_init (or_spare out zero_packet)
    (_, m, s) ←
        Uart.read_block port fuel p.stream.memory 0 2
          (if 0 == timeout_ms then 0 else add32 timeout_ms 20) no_term s
    first ← load m 0
    let length = if 0 == first then 2 else first
    let data_length = sub32 length 2
    (read, m, s) ←
        Uart.read_block_error port fuel m 2 data_length (add32 (u32 (10 * data_length)) timeout_ms)
          no_term timeout_error s
    let p = record p { stream = record p.stream { memory = m } }
    if read == 0
        then ok (false, p, s)
        else do p ← verify_checksum (some p) (u8 data_length); ok (true, p, s)

  -- `protocol_read_block`
  unfoldable pub read_block : ℕ → Ptr (Port S) → Ptr Packet → ℕ → S → Outcome (Packet × S)
  read_block fuel port out timeout_ms s = do
    (_, p, s) ← read_block_error fuel port out timeout_ms true s
    ok (p, s)

  -- `protocol_read_nonblock`
  unfoldable pub read_nonblock : ℕ → Ptr (Port S) → Ptr Packet → S → Outcome (Bool × Packet × S)
  read_nonblock fuel port out s = do
    port ← require port null_ptr
    p ← require out null_ptr
    (available, s) ← port.data_available s
    if not available
        then ok (false, p, s)
        else do (p, s) ← read_block fuel (some port) (some p) 100 s; ok (true, p, s)

  -- `protocol_request_timeout`: the packets are those of `in` and of `out`, or of the static
  -- `devnull` if `out` is NULL.
  unfoldable pub request_timeout :
      ℕ
      → Ptr (Port S)
      → Ptr Packet
      → Ptr Packet
      → Packet
      → ℕ
      → Bool
      → S
      → Outcome (Bool × Packet × Packet × S)
  request_timeout fuel port request out devnull timeout_ms timeout_error s = do
    port ← require port null_ptr
    q ← require request null_ptr
    let r = or_spare out devnull
    (q, s) ← write_block fuel (some port) (some q) s
    (success, r, s) ← read_block_error fuel (some port) (some r) timeout_ms timeout_error s
    if success
        then (do _ ← validate_response (some q) (some r); ok (true, q, r, s))
        else if timeout_error
        then err timeout
        else ok (false, q, r, s)

  -- `protocol_request`
  unfoldable pub request :
      ℕ → Ptr (Port S) → Ptr Packet → Ptr Packet → Packet → S → Outcome (Packet × Packet × S)
  request fuel port query out devnull s = do
    (_, q, r, s) ← request_timeout fuel port query out devnull 100 true s
    ok (q, r, s)

  -- `protocol_error_response`
  unfoldable pub error_response : ℕ → Ptr (Port S) → S → Outcome S
  error_response fuel port s = do
    port ← require port null_ptr
    out ← packet_init (some zero_packet) 0xFF
    (_, s) ← write_block fuel (some port) (some out) s
    ok s
