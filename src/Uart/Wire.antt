-- ===== src/Uart/Wire.antt =====
-- A line that moves a few bytes at a time, after it has been silent for some calls: one that does what
-- a platform promises of a line that works.
use nuhal.Common.{
  ℕ, zero, suc, ◌+◌, ◌≤◌, ◌<◌, ◌≡◌, refl, sym, arith, true, ok, List, [], ◌++◌, length, take, drop,
  min, Outcome, ltb, Returns, length-take, take-drop, append-nil,
}
use nuhal.Memory.{slice}
use nuhal.Uart.{Port}
use nuhal.Uart.Line.{IsLine, CanWrite}

pub record Wire : Type 0 where
  pub pending : List ℕ
  pub sent : List ℕ
  pub silent : ℕ
  pub now : ℕ

-- At most three bytes go at once.
unfoldable pub read_wire : Wire → ℕ → Outcome (List ℕ × Wire)
read_wire w n = elim w.silent [
  | zero ↦ ok (take (min 3 n) w.pending, record w { pending = drop (min 3 n) w.pending })
  | suc k ↦ ok ([], record w { silent = k })
]

unfoldable pub write_wire : Wire → List ℕ → Outcome (ℕ × Wire)
write_wire w bytes = elim w.silent [
  | zero ↦
      ok (min 3 (length bytes), record w { sent = w.sent ++ slice bytes 0 (min 3 (length bytes)) })
  | suc k ↦ ok (0, record w { silent = k })
]

unfoldable pub wire_port : Port Wire
wire_port = record {
  read_nonblock = read_wire;
  write_nonblock = write_wire;
  wait_for_data = λ w timeout. ok (true, w);
  data_available = λ w. ok (ltb 0 (length w.pending), w);
  time_current_ms = λ w. (w.now, record w { now = w.now + 1 });
  time_period_ms = 4294967295;
}

unfoldable pub wire-IsLine : IsLine wire_port
unfolding wire_port read_wire write_wire slice
wire-IsLine = record {
  incoming = λ w. w.pending;
  outgoing = λ w. w.sent;
  patience = λ w. w.silent;
  reads = λ w n. reads w w.silent n refl;
  waits = λ w timeout _ _. (refl, refl, omega arith);
  ticks = λ w. (refl, refl, omega arith);
}
  where
    reads :
        (w : Wire) (k n : ℕ)
        → w.silent ≡ k
        → Returns (read_wire w n) λ (bytes, w').
          (length bytes ≤ n)
          × (w.pending ≡ bytes ++ w'.pending)
          × (w'.sent ≡ w.sent)
          × (w'.silent ≤ w.silent)
          × (length bytes ≡ 0 → 0 < n → 0 < length w.pending → w'.silent < w.silent)
    reads w zero n e = rw e (
      omega (arith, length-take (min 3 n) w.pending),
      sym (take-drop (min 3 n) w.pending),
      refl,
      omega arith,
      λ none asked more. absurd (omega (arith, length-take (min 3 n) w.pending, none, asked, more)),
    )
    reads w (suc k) n e =
        rw e (omega arith, refl, refl, omega (arith, e), λ none asked more. omega (arith, e))

unfoldable pub wire-CanWrite : CanWrite wire_port wire-IsLine
unfolding wire_port wire-IsLine write_wire slice
wire-CanWrite = record { writes = λ w bytes. writes w w.silent bytes refl }
  where
    writes :
        (w : Wire) (k : ℕ) (bytes : List ℕ)
        → w.silent ≡ k
        → Returns (write_wire w bytes) λ (n, w').
          (n ≤ length bytes)
          × (w'.sent ≡ w.sent ++ slice bytes 0 n)
          × (w'.pending ≡ w.pending)
          × (w'.silent ≤ w.silent)
          × (n ≡ 0 → 0 < length bytes → w'.silent < w.silent)
    writes w zero bytes e =
        rw e (omega arith, refl, refl, omega arith, λ none more. absurd (omega arith))
    writes w (suc k) bytes e = rw e (
      omega arith,
      sym (append-nil w.sent),
      refl,
      omega (arith, e),
      λ none more. omega (arith, e),
    )
