-- ===== src/Uart/Terminator/Tests.antt =====
-- A line that hands over a byte at a time.
use nuhal.Common.{
  ℕ, ◌+◌, ◌≤◌, ◌≡◌, ◌≢◌, inr, refl, sym, arith, true, ok, [], ◌∷◌, ◌++◌, length, take, drop, min,
  Returns, Settles, read_timeout, ltb, length-take, take-drop,
}
use mathlib.Core.Path.{Path}
use nuhal.Memory.{overwrite}
use nuhal.Time.{elapsed_init, time_elapsed}
use nuhal.Uart.{Port, lf, other_term, read_block_error, read_loop, in_time, ends}
use nuhal.Uart.Wire.{Wire}
use nuhal.Uart.Line.{IsLine}
use nuhal.Uart.Terminator.Reads.{ReadsLine, read_block_error-ReadsLine}

unfoldable drip : Port Wire
drip = record {
  read_nonblock =
      λ w n. ok (take (min 1 n) w.pending, record w { pending = drop (min 1 n) w.pending });
  write_nonblock = λ w bytes. ok (length bytes, record w { sent = w.sent ++ bytes });
  wait_for_data = λ w timeout. ok (true, w);
  data_available = λ w. ok (ltb 0 (length w.pending), w);
  time_current_ms = λ w. (w.now, record w { now = w.now + 1 });
  time_period_ms = 4294967295;
}

drip-IsLine : IsLine drip
unfolding drip
drip-IsLine = record {
  incoming = λ w. w.pending;
  outgoing = λ w. w.sent;
  patience = λ w. 0;
  reads = λ w n. (
    omega (arith, length-take (min 1 n) w.pending),
    sym (take-drop (min 1 n) w.pending),
    refl,
    omega arith,
    λ none asked more. absurd (omega (arith, length-take (min 1 n) w.pending, none, asked, more)),
  );
  waits = λ w timeout _ _. (refl, refl, omega arith);
  ticks = λ w. (refl, refl, omega arith);
}

one : (w : Wire) (n : ℕ) → Returns (drip.read_nonblock w n) (λ (bytes, _). length bytes ≤ 1)
unfolding drip
one w n = omega (arith, length-take (min 1 n) w.pending)

-- "ab", the end of the line, and "c".
abbrev two_lines : Wire
two_lines = record { pending = 97 ∷ 98 ∷ 10 ∷ 99 ∷ []; sent = []; silent = 0; now = 0 }

read_a_line :
    read_block_error drip 5 (0 ∷ 0 ∷ 0 ∷ 0 ∷ 0 ∷ []) 0 5 9 lf true two_lines
    ≡ ok
        (3, 97 ∷ 98 ∷ 10 ∷ 0 ∷ 0 ∷ [], record { pending = 99 ∷ []; sent = []; silent = 0; now = 4 })
unfolding read_block_error read_loop in_time time_elapsed elapsed_init ends drip overwrite
read_a_line = refl

lf_known : lf ≢ other_term
lf_known e = absurd (ground arith)

read_block_error-ReadsLine_example :
    Settles
      (read_block_error drip 5 (0 ∷ 0 ∷ 0 ∷ 0 ∷ 0 ∷ []) 0 5 9 lf true two_lines)
      (ReadsLine drip drip-IsLine 0 5 9 lf true lf_known one
        (inr refl)
        (97 ∷ 98 ∷ 10 ∷ [])
        (0 ∷ 0 ∷ 0 ∷ 0 ∷ 0 ∷ [])
        two_lines)
      (λ e. (e ≡ read_timeout) × (Path ℕ 9 0 → ⊥))
unfolding drip-IsLine
read_block_error-ReadsLine_example =
    read_block_error-ReadsLine drip drip-IsLine 0 5 9 lf true lf_known one (inr refl) 5
      (0 ∷ 0 ∷ 0 ∷ 0 ∷ 0 ∷ []) two_lines (omega arith) (omega arith) (omega arith) (omega arith)
      refl refl (omega arith)
