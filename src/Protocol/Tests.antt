-- ===== src/Protocol/Tests.antt =====
-- Packets of three bytes of data on concrete lines.
use nuhal.Common.{
  ℕ, ◌+◌, ◌≡◌, refl, arith, List, [], ◌∷◌, some, none, true, ok, err, replicate, set,
  invalid_checksum, read_timeout, Settles, ◌-◌,
}
use nuhal.Memory.{slice}
use nuhal.Bytestream
use nuhal.Bytestream.{Bytestream, inject_u8, verify_args}
use nuhal.Time.{elapsed_init, time_elapsed}
use nuhal.Uart
use nuhal.Uart.{in_time, read_loop, read_block_error, read_block, write_loop, ends}
use nuhal.Uart.Wire.{Wire, wire_port, wire-IsLine, wire-CanWrite, write_wire}
use nuhal.Protocol
use nuhal.Protocol.{
  Packet, zero_packet, or_spare, packet_init, packet_stream_init, checksum, checksum_loop,
  header_init, verify_checksum, request, request_timeout, validate_response, packet_command,
}
use nuhal.Protocol.Checksum.{sum8}
use nuhal.Protocol.Header.{Claims, opened, verify_checksum-detects}
use nuhal.Protocol.Send.{payload_of, IsBuilt}
use nuhal.Protocol.Exchange.{write_block-read_block, request_timeout-Answered, Answered, Fails}

-- The command 0x21 and the bytes 200 and 100.
abbrev query_bytes : List ℕ
query_bytes = 0 ∷ 0 ∷ 33 ∷ 200 ∷ 100 ∷ replicate 250 0

abbrev query : Packet
query = record {
  stream = record { memory = query_bytes; data_ptr = some 2; capacity = 253; size = 3 };
}

query-IsBuilt : IsBuilt query
query-IsBuilt = record { memory_size = refl; command = omega arith; fits = omega arith }

abbrev sent_bytes : List ℕ
sent_bytes = 5 ∷ 77 ∷ 33 ∷ 200 ∷ 100 ∷ replicate 250 0

query_sent : Packet
query_sent = record {
  stream = record { memory = sent_bytes; data_ptr = some 2; capacity = 3; size = 3 };
}

abbrev out_wire : Wire
out_wire = record { pending = []; sent = 9 ∷ []; silent = 1; now = 0 }

write_query :
    Protocol.write_block 300 (some wire_port) (some query) out_wire
    ≡ ok (
      query_sent,
      record { pending = []; sent = 9 ∷ 5 ∷ 77 ∷ 33 ∷ 200 ∷ 100 ∷ []; silent = 0; now = 4 },
    )
unfolding Protocol.write_block header_init checksum checksum_loop Uart.write_block write_loop
    in_time elapsed_init time_elapsed wire_port write_wire slice query_sent
write_query = refl

abbrev in_wire : Wire
in_wire = record { pending = 5 ∷ 77 ∷ 33 ∷ 200 ∷ 100 ∷ []; sent = []; silent = 0; now = 0 }

-- The same frame with the command 0xFF, which is what protocol_error_response sends.
error_frame :
    Protocol.error_response 300
      (some wire_port)
      (record { pending = []; sent = []; silent = 0; now = 0 })
    ≡ ok (record { pending = []; sent = 3 ∷ 255 ∷ 255 ∷ []; silent = 0; now = 2 })
unfolding Protocol.error_response packet_init packet_stream_init Bytestream.init inject_u8
    verify_args Protocol.write_block header_init checksum checksum_loop Uart.write_block write_loop
    in_time elapsed_init time_elapsed wire_port write_wire slice
error_frame = refl

write_block-read_block_example :
    Settles
      (Protocol.read_block_error 300 (some wire_port) none 0 true in_wire)
      (λ (success, r, t').
        (success ≡ true)
        × (r ≡ opened r.stream.memory 3)
        × (payload_of query ≡ slice r.stream.memory 2 3)
        × (wire-IsLine.incoming t' ≡ []))
      (λ e. e ≡ read_timeout)
unfolding wire-IsLine
write_block-read_block_example =
    write_block-read_block wire_port wire-IsLine wire_port wire-IsLine wire-CanWrite 300 query
      query_sent out_wire
      (record { pending = []; sent = 9 ∷ 5 ∷ 77 ∷ 33 ∷ 200 ∷ 100 ∷ []; silent = 0; now = 4 }) none
      in_wire query-IsBuilt (omega arith) write_query refl refl (omega arith)

-- The response with the query's command and one byte.
abbrev answering_wire : Wire
answering_wire = record { pending = 4 ∷ 40 ∷ 33 ∷ 7 ∷ 1 ∷ []; sent = []; silent = 0; now = 0 }

request_timeout-Answered_example :
    Settles
      (request_timeout 300 (some wire_port) (some query) none zero_packet 0 true answering_wire)
      (Answered wire_port wire-IsLine query (33 ∷ 7 ∷ []) (1 ∷ []) answering_wire)
      (Fails wire_port wire-IsLine query (33 ∷ 7 ∷ []) (1 ∷ []))
unfolding wire-IsLine
request_timeout-Answered_example =
    request_timeout-Answered wire_port wire-IsLine query (33 ∷ 7 ∷ []) (1 ∷ []) wire-CanWrite 300
      none zero_packet answering_wire query-IsBuilt refl (omega arith) (omega arith) refl
      (omega arith)

sent-Claims : Claims 5 (sum8 (slice query_sent.stream.memory 2 (5 - 2))) query_sent.stream.memory
unfolding query_sent slice
sent-Claims = record {
  size = refl;
  length_byte = refl;
  checksum_byte = refl;
  least = omega arith;
  most = omega arith;
}

verify_checksum-detects_example :
    verify_checksum
      (some record {
        stream = record query_sent.stream { memory = set query_sent.stream.memory (2 + 1) 201 };
      })
      (5 - 2)
    ≡ err invalid_checksum
unfolding query_sent
verify_checksum-detects_example =
    verify_checksum-detects query_sent 5 1 201 sent-Claims (omega arith) (omega arith) (omega arith)
      (λ e. omega (arith, e))
