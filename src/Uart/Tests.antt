-- ===== src/Uart/Tests.antt =====
-- The blocking calls on a concrete line.
use nuhal.Common.{◌≡◌, refl, arith, [], ◌∷◌, true, false, ok, err, read_timeout, Settles}
use nuhal.Memory.{overwrite, slice}
use nuhal.Time.{elapsed_init, time_elapsed}
use nuhal.Uart.{no_term, cr, read_block_error, read_loop, write_block, write_loop, in_time, ends}
use nuhal.Uart.Wire.{Wire, wire_port, wire-IsLine, wire-CanWrite, read_wire, write_wire}
use nuhal.Uart.Read
use nuhal.Uart.Write

abbrev quiet_wire : Wire
quiet_wire = record { pending = 1 ∷ 2 ∷ 3 ∷ 4 ∷ 5 ∷ []; sent = []; silent = 2; now = 0 }

-- Two calls find nothing, one brings three bytes, and one the fourth.
read_four :
    read_block_error wire_port 6 (0 ∷ 0 ∷ 0 ∷ 0 ∷ 0 ∷ 0 ∷ []) 1 4 9 no_term true quiet_wire
    ≡ ok
        (4, 0 ∷ 1 ∷ 2 ∷ 3 ∷ 4 ∷ 0 ∷ [], record { pending = 5 ∷ []; sent = []; silent = 0; now = 5 })
unfolding read_block_error read_loop in_time time_elapsed elapsed_init ends wire_port read_wire
    overwrite
read_four = refl

read_four_late :
    read_block_error wire_port 6 (0 ∷ 0 ∷ 0 ∷ 0 ∷ 0 ∷ 0 ∷ []) 1 4 3 no_term true quiet_wire
    ≡ err read_timeout
unfolding read_block_error read_loop in_time time_elapsed elapsed_init ends wire_port read_wire
    overwrite
read_four_late = refl

-- A carriage return in the middle of the bytes that come at once does not end the read.
read_line :
    read_block_error wire_port 6
      (0 ∷ 0 ∷ 0 ∷ 0 ∷ 0 ∷ [])
      0
      5
      0
      cr
      false
      record { pending = 97 ∷ 13 ∷ 98 ∷ 99 ∷ 100 ∷ []; sent = []; silent = 0; now = 0 }
    ≡ ok (5, 97 ∷ 13 ∷ 98 ∷ 99 ∷ 100 ∷ [], record { pending = []; sent = []; silent = 0; now = 1 })
unfolding read_block_error read_loop in_time time_elapsed elapsed_init ends wire_port read_wire
    overwrite
read_line = refl

write_four :
    write_block wire_port 6 (9 ∷ 1 ∷ 2 ∷ 3 ∷ 4 ∷ []) 1 4 0 quiet_wire
    ≡ ok (
      4,
      record { pending = 1 ∷ 2 ∷ 3 ∷ 4 ∷ 5 ∷ []; sent = 1 ∷ 2 ∷ 3 ∷ 4 ∷ []; silent = 0; now = 1 },
    )
unfolding write_block write_loop in_time time_elapsed elapsed_init wire_port write_wire slice
write_four = refl

read_block_error-Settles_example :
    Settles
      (read_block_error wire_port 6 (0 ∷ 0 ∷ 0 ∷ 0 ∷ 0 ∷ 0 ∷ []) 1 4 9 no_term true quiet_wire)
      (Read.ReadsBlock wire_port wire-IsLine 1 4 9 true (0 ∷ 0 ∷ 0 ∷ 0 ∷ 0 ∷ 0 ∷ []) quiet_wire)
      (Read.TimesOut wire_port wire-IsLine 1 4 9 true)
unfolding wire-IsLine
read_block_error-Settles_example =
    Read.read_block_error-Settles wire_port wire-IsLine 1 4 9 true 6 (0 ∷ 0 ∷ 0 ∷ 0 ∷ 0 ∷ 0 ∷ [])
      quiet_wire (omega arith) (omega arith) (omega arith) (omega arith) (omega arith)

write_block-Settles_example :
    Settles
      (write_block wire_port 7 (9 ∷ 1 ∷ 2 ∷ 3 ∷ 4 ∷ []) 1 4 9 quiet_wire)
      (Write.WritesAll wire_port wire-IsLine (9 ∷ 1 ∷ 2 ∷ 3 ∷ 4 ∷ []) 1 4 9 quiet_wire)
      (Write.TimesOut wire_port wire-IsLine (9 ∷ 1 ∷ 2 ∷ 3 ∷ 4 ∷ []) 1 4 9)
unfolding wire-IsLine
write_block-Settles_example =
    Write.write_block-Settles wire_port wire-IsLine (9 ∷ 1 ∷ 2 ∷ 3 ∷ 4 ∷ []) 1 4 9 wire-CanWrite 7
      quiet_wire (omega arith) (omega arith) (omega arith)
