-- ===== src/Protocol/Broadcast.antt =====
-- `protocol_broadcast_timeout` of nuhal_all/src/protocol.c: up to three ports, whose bytes are
-- interleaved. All ports share the state `S`; `fuel` is the rounds of the loop that reads.
pub mod Ends
mod Tests
pub mod Verified
pub mod Calls
pub mod Sizes
pub mod Whole
use nuhal.Common.{
  ℕ, zero, suc, ◌+◌, ◌-◌, Bool, true, false, not, ◌&&◌, ◌||◌, none, some, List, [], ◌∷◌, length,
  take, ltb, ◌==◌, if◌then◌else◌, u8, replicate, Outcome, ok, err, undefined, unfinished, ◌>>=◌,
  Ptr, require, load, null_ptr, bad_port_count, length_mismatch, unknown_broadcast, data_too_long,
  invalid_length, timeout,
}
use nuhal.Time.{TimeElapsed, elapsed_init, time_elapsed}
use nuhal.Uart.{Port, deposit, start}
use nuhal.Protocol.{Packet, header_init, verify_checksum, validate_response, packet_stream_init}

-- `enum protocol_broadcast_type`; the last constructor is any other value.
pub data BroadcastType : Type 0 where
  broadcast anycast other_type : BroadcastType

-- What is kept for each port: the packet that comes in, its length once that is known (1 before), and
-- the number of bytes read.
pub record Lane : Type 0 where
  pub packet : Packet
  pub length : ℕ
  pub index : ℕ
  pub length_set : Bool

-- The loop over `btype`, with `n` ports left: the packets from pkt[1] on, and those that are sent.
unfoldable pub header_each :
    BroadcastType → ℕ → Packet → List Packet → ℕ → Outcome (List Packet × List Packet)
header_each btype out_length outpack pkt zero = ok (pkt, [])
header_each broadcast out_length outpack pkt (suc n) = do
  (pkt, outs) ← header_each broadcast out_length outpack pkt n
  ok (pkt, outpack ∷ outs)
header_each anycast out_length outpack [] (suc n) = undefined
header_each anycast out_length outpack (p ∷ pkt) (suc n) = do
  (l, p) ← header_init (some p)
  if not (l == out_length)
      then err length_mismatch
      else do (pkt, outs) ← header_each anycast out_length outpack pkt n; ok (p ∷ pkt, p ∷ outs)
header_each other_type out_length outpack pkt (suc n) = err unknown_broadcast

-- The first `n` elements of an array, which has to have them.
abbrev pub firsts : {A : Type 0} → ℕ → List A → Outcome (List A)
firsts n xs = if ltb (length xs) n then undefined else ok (take n xs)

unfoldable pub init_each : List Packet → Outcome (List Lane)
init_each [] = ok []
init_each (p ∷ packets) = do
  p ← packet_stream_init p
  lanes ← init_each packets
  ok (record { packet = p; length = 1; index = 0; length_set = false } ∷ lanes)

-- The length of a packet is set when its first byte has come.
unfoldable pub set_length : Lane → Outcome Lane
set_length lane =
    if not lane.length_set && ltb 0 lane.index
    then (do
      l ← load lane.packet.stream.memory 0
      ok (record lane { length = l; length_set = true }))
    else ok lane

unfoldable pub set_lengths : List Lane → Outcome (List Lane)
set_lengths [] = ok []
set_lengths (lane ∷ lanes) = do lane ← set_length lane; lanes ← set_lengths lanes; ok (lane ∷ lanes)

unfoldable pub more_to_read : List Lane → Bool
more_to_read [] = false
more_to_read (lane ∷ lanes) = ltb lane.index lane.length || more_to_read lanes

-- The last loop: every response is verified and validated; a length of less than the header's is an
-- error.
unfoldable pub check_each : List Packet → List Lane → Outcome (List Packet)
check_each [] [] = ok []
check_each [] (lane ∷ lanes) = undefined
check_each (out ∷ outs) [] = undefined
check_each (out ∷ outs) (lane ∷ lanes) = if ltb lane.length 2 then err invalid_length else do
  p ← verify_checksum (some lane.packet) (lane.length - 2)
  _ ← validate_response (some out) (some p)
  rest ← check_each outs lanes
  ok (p ∷ rest)

abbrev pub drop_first : List Packet → List Packet
drop_first [] = []
drop_first (p ∷ packets) = packets

module _ {S : Type 0} where
  -- One byte to every port; how many bytes a port took is not looked at.
  unfoldable pub write_row : ℕ → List (Port S) → List Packet → S → Outcome S
  write_row i [] outs s = ok s
  write_row i (port ∷ ports) [] s = undefined
  write_row i (port ∷ ports) (out ∷ outs) s = do
    x ← load out.stream.memory i
    (_, s) ← port.write_nonblock s (x ∷ [])
    write_row i ports outs s

  unfoldable pub write_rows : ℕ → ℕ → List (Port S) → List Packet → S → Outcome S
  write_rows i zero ports outs s = ok s
  write_rows i (suc n) ports outs s = do
    s ← write_row i ports outs s
    write_rows (i + 1) n ports outs s

  -- Up to 12 bytes from every port.
  unfoldable pub read_row : List (Port S) → List Lane → S → Outcome (List Lane × S)
  read_row [] lanes s = ok ([], s)
  read_row (port ∷ ports) [] s = undefined
  read_row (port ∷ ports) (lane ∷ lanes) s = do
    (bytes, s) ← port.read_nonblock s 12
    m ← deposit lane.packet.stream.memory lane.index bytes
    let p = record lane.packet { stream = record lane.packet.stream { memory = m } }
    (lanes, s) ← read_row ports lanes s
    ok (record lane { packet = p; index = u8 (lane.index + length bytes) } ∷ lanes, s)

  -- The loop that reads until every packet is complete, over the clock of the port `clock`.
  unfoldable pub read_all :
      Port S → ℕ → List (Port S) → List Lane → TimeElapsed → ℕ → S → Outcome (List Lane × S)
  read_all clock zero ports lanes stamp limit s = unfinished
  read_all clock (suc fuel) ports lanes stamp limit s = do
    (lanes, s) ← read_row ports lanes s
    lanes ← set_lengths lanes
    let (now, s) = clock.time_current_ms s
    (t, stamp) ← time_elapsed clock.time_period_ms (some stamp) now
    if ltb limit t then err timeout else elim (more_to_read lanes) [
      | true ↦ read_all clock fuel ports lanes stamp limit s
      | false ↦ ok (lanes, s)
    ]

  -- `protocol_broadcast_timeout`: `pkt` and the responses afterwards. Without a `response` the packets
  -- are local ones, which hold `garbage` at first.
  unfoldable pub broadcast_timeout :
      ℕ
      → Ptr (List (Port S))
      → ℕ
      → Ptr (List Packet)
      → Ptr (List Packet)
      → List Packet
      → BroadcastType
      → ℕ
      → S
      → Outcome (List Packet × List Packet × S)
  broadcast_timeout fuel ports num_ports pkt response garbage btype limit s = do
    pkt ← require pkt null_ptr
    ports ← require ports null_ptr
    if ltb 3 num_ports || num_ports == 0 then err bad_port_count else do
      first ← load pkt 0
      (out_length, first) ← header_init (some first)
      (rest, outs) ← header_each btype out_length first (drop_first pkt) (num_ports - 1)
      if ltb 253 out_length then err data_too_long else do
        ports ← firsts num_ports ports
        clock ← load ports 0
        s ← write_rows 0 out_length ports (first ∷ outs) s
        packets ←
            firsts num_ports (elim response as (λ _. List Packet) [ none ↦ garbage | some r ↦ r ])
        lanes ← init_each packets
        let (stamp, s) = start clock s
        (lanes, s) ← read_all clock fuel ports lanes stamp limit s
        responses ← check_each (first ∷ outs) lanes
        ok (first ∷ rest, responses, s)

  -- `protocol_broadcast`
  unfoldable pub broadcast_default :
      ℕ
      → Ptr (List (Port S))
      → ℕ
      → Ptr (List Packet)
      → Ptr (List Packet)
      → List Packet
      → BroadcastType
      → S
      → Outcome (List Packet × List Packet × S)
  broadcast_default fuel ports num_ports pkt response garbage btype s =
      broadcast_timeout fuel ports num_ports pkt response garbage btype 200 s
