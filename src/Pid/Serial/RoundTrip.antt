-- ===== src/Pid/Serial/RoundTrip.antt =====
-- nuhal_all/src/pid.c: injecting what the controller keeps, and then extracting it.
use nuhal.Common.{ℕ, ◌+◌, ◌≡◌, refl, some, leb, if◌then◌else◌, ok, err, ◌>>=◌, overflow}
use nuhal.Bytestream.{Bytestream}
use nuhal.Bytestream.Codec.{IsValid, put_bytes, rewind}
use nuhal.Bytestream.Codec.Products.{Implements, Implements-round_trip, >>=-assoc}
use nuhal.Pid.{PidGains}
use nuhal.Pid.Serial.{
  PidDebugInfo, pid_gains_inject, pid_gains_extract, pid_state_inject, pid_state_extract,
  pid_signals_inject, pid_signals_extract, pid_debug_info_inject, pid_debug_info_extract,
  gains_codec, debug_info_codec,
}

gains-Implements : Implements pid_gains_inject pid_gains_extract gains_codec
unfolding pid_gains_inject pid_gains_extract
gains-Implements = record { injects_as = λ b r. refl; extracts_as = λ b old. simp >>=-assoc }

debug_info-Implements : Implements pid_debug_info_inject pid_debug_info_extract debug_info_codec
unfolding pid_debug_info_inject pid_debug_info_extract pid_state_inject pid_state_extract
    pid_signals_inject pid_signals_extract
debug_info-Implements = record {
  injects_as = λ b r. simp >>=-assoc;
  extracts_as = λ b old. simp >>=-assoc;
}

-- The gains of the controller, 28 bytes of 32-bit patterns: where they fit in a valid stream, a
-- reader that starts where the writer did gets them back and ends where the writer ended;
-- otherwise the outcome is the overflow error.
pub pid_gains-round_trip :
    (r old : PidGains) (p : ℕ) (b : Bytestream)
    → gains_codec.IsValue r
    → IsValid p b
    → (pid_gains_inject (some b) (some r) >>= λ w.
        pid_gains_extract (some (rewind w b.size)) (some old))
      ≡ (if leb (b.size + 28) b.capacity
          then ok (r, put_bytes p b (gains_codec.encode r))
          else err overflow)
pid_gains-round_trip = Implements-round_trip _ _ gains_codec gains-Implements

-- The debugging information of the controller, 26 bytes with the state and the signals in it and
-- every field within its width: where they fit in a valid stream, a reader that starts where the
-- writer did gets them back and ends where the writer ended; otherwise the outcome is the overflow
-- error.
pub pid_debug_info-round_trip :
    (r old : PidDebugInfo) (p : ℕ) (b : Bytestream)
    → debug_info_codec.IsValue r
    → IsValid p b
    → (pid_debug_info_inject (some b) (some r) >>= λ w.
        pid_debug_info_extract (some (rewind w b.size)) (some old))
      ≡ (if leb (b.size + 26) b.capacity
          then ok (r, put_bytes p b (debug_info_codec.encode r))
          else err overflow)
pid_debug_info-round_trip = Implements-round_trip _ _ debug_info_codec debug_info-Implements
