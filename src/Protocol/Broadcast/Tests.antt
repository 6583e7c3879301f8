-- ===== src/Protocol/Broadcast/Tests.antt =====
-- Broadcasts to one port on a concrete line.
use nuhal.Common.{
  ℕ, ◌≡◌, ◌≤◌, ◌<◌, ◌⊎◌, refl, [], ◌∷◌, some, none, ok, err, replicate, Bool, true, false, not,
  if◌then◌else◌, length, inl, arith, bad_port_count, timeout,
}
use nuhal.Memory.{slice, overwrite}
use nuhal.Bytestream
use nuhal.Bytestream.{Bytestream, verify_args}
use nuhal.Time.{elapsed_init, time_elapsed, since}
use nuhal.Uart.Wire.{Wire, wire_port, read_wire, write_wire}
use nuhal.Protocol.{
  Packet, zero_packet, checksum, checksum_loop, header_init, verify_checksum, packet_stream_init,
  validate_response, packet_command,
}
use nuhal.Protocol.Broadcast.{
  broadcast, broadcast_timeout, header_each, init_each, set_length, set_lengths, more_to_read,
  check_each, write_row, write_rows, read_row, read_all,
}
use nuhal.Protocol.Broadcast.Ends.{Ends, read_all-Ends}
use nuhal.Time.Running.{IsRunning}
use nuhal.Uart.{Port}
use nuhal.Protocol.Broadcast.Verified.{Answers}
use nuhal.Protocol.Broadcast.Whole.{broadcast_timeout-Ends}

-- The command 0x21 alone.
abbrev query : Packet
query = record {
  stream = record {
    memory = 0 ∷ 0 ∷ 33 ∷ replicate 252 0;
    data_ptr = some 2;
    capacity = 253;
    size = 1;
  };
}

-- The response with the same command.
abbrev answered : Wire
answered = record { pending = 3 ∷ 33 ∷ 33 ∷ []; sent = []; silent = 0; now = 0 }

abbrev mute : Wire
mute = record { pending = []; sent = []; silent = 0; now = 0 }

no_ports :
    broadcast_timeout 9 (some (wire_port ∷ [])) 0 (some (query ∷ [])) none [] broadcast 3 mute
    ≡ err bad_port_count
unfolding broadcast_timeout
no_ports = refl

no_answer :
    broadcast_timeout 9
      (some (wire_port ∷ []))
      1
      (some (query ∷ []))
      none
      (zero_packet ∷ [])
      broadcast
      3
      mute
    ≡ err timeout
unfolding broadcast_timeout header_init checksum checksum_loop header_each write_rows write_row
    init_each packet_stream_init Bytestream.init read_all read_row set_lengths set_length
    more_to_read elapsed_init time_elapsed wire_port read_wire write_wire slice overwrite
no_answer = refl

good_answer :
    broadcast_timeout 9
      (some (wire_port ∷ []))
      1
      (some (query ∷ []))
      none
      (zero_packet ∷ [])
      broadcast
      3
      answered
    ≡ ok (
      record {
        stream = record {
          memory = 3 ∷ 33 ∷ 33 ∷ replicate 252 0;
          data_ptr = some 2;
          capacity = 1;
          size = 1;
        };
      }
          ∷ [],
      record {
        stream = record {
          memory = 3 ∷ 33 ∷ 33 ∷ replicate 252 0;
          data_ptr = some 2;
          capacity = 1;
          size = 1;
        };
      }
          ∷ [],
      record { pending = []; sent = 3 ∷ 33 ∷ 33 ∷ []; silent = 0; now = 2 },
    )
unfolding broadcast_timeout header_init checksum checksum_loop header_each write_rows write_row
    init_each packet_stream_init Bytestream.init read_all read_row set_lengths set_length
    more_to_read check_each verify_checksum validate_response packet_command Bytestream.extract_u8
    verify_args elapsed_init time_elapsed wire_port read_wire write_wire slice overwrite
good_answer = refl

-- No byte comes in, and the clock, of period 9, reads 5 and 0 in turn.
abbrev silent_port : Port Bool
silent_port = record {
  read_nonblock = λ b n. ok ([], b);
  write_nonblock = λ b bytes. ok (length bytes, b);
  wait_for_data = λ b t. ok (false, b);
  data_available = λ b. ok (false, b);
  time_current_ms = λ b. (if b then 0 else 5, not b);
  time_period_ms = 9;
}

unfoldable silent-IsRunning : IsRunning silent_port.time_current_ms 9 5 0
silent-IsRunning = record {
  last = λ b. if b then 5 else 0;
  stalls = λ b. 0;
  stalls_most = λ b. omega arith;
  ticks = ticks;
}
  where
    ticks :
        (b : Bool)
        → Path ℕ (if not b then 5 else 0) (if b then 0 else 5)
          × (since 9 (if b then 5 else 0) (if b then 0 else 5) ≤ 5)
          × ((0 < since 9 (if b then 5 else 0) (if b then 0 else 5)) ⊎ (0 < 0))
    ticks true = (refl, omega arith, inl (omega arith))
    ticks false = (refl, omega arith, inl (omega arith))

read_all-Ends_example :
    Ends
      (read_all silent_port 4
        (silent_port ∷ [])
        (record { packet = zero_packet; length = 1; index = 0; length_set = false } ∷ [])
        (elapsed_init 0)
        3
        false)
      (λ _. Unit)
unfolding elapsed_init silent-IsRunning
read_all-Ends_example =
    read_all-Ends silent_port silent-IsRunning (silent_port ∷ [])
      (record { packet = zero_packet; length = 1; index = 0; length_set = false } ∷ [])
      (elapsed_init 0) 3 4 false ((λ b n. (refl, omega arith)), tt) (omega arith) refl (omega arith)
      (omega arith)

broadcast_timeout-Ends_example :
    Ends
      (broadcast_timeout 4
        (some (silent_port ∷ []))
        1
        (some (query ∷ []))
        none
        (zero_packet ∷ [])
        broadcast
        3
        false)
      (Answers 1)
broadcast_timeout-Ends_example =
    broadcast_timeout-Ends silent_port silent-IsRunning 4 1 3 [] (query ∷ []) none
      (zero_packet ∷ []) broadcast false ((λ b n. (refl, omega arith)), tt) ((λ b bytes. tt), tt)
      (omega arith, tt) (omega arith, tt) (omega arith) (omega arith)
