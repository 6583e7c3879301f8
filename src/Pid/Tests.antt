-- ===== src/Pid/Tests.antt =====
-- The controller's theorems at concrete gains, with the integers as a toy arithmetic.
use nuhal.Common.{
  ℕ, ◌+◌, ◌-◌, ◌*◌, ◌≡◌, refl, arith, false, some, none, ok, ◌>>=◌, ltb, leb, replicate, Returns,
}
use nuhal.Floats.{FloatOps}
use nuhal.Bytestream.{Bytestream}
use nuhal.Bytestream.Codec.{IsValid, put_bytes, rewind}
use nuhal.Pid.{
  PidGains, PidState, saturate_output, saturate_none, antiwindup_none, antiwindup_saturate,
  pid_compute,
}
use nuhal.Pid.Bounds.{pid_compute-saturates, pid_compute-integral_bounds}
use nuhal.Pid.Serial.{
  PidSignals, PidDebugInfo, pid_debug_info_inject, pid_debug_info_extract, debug_info_codec,
}
use nuhal.Pid.Serial.RoundTrip.{pid_debug_info-round_trip}

-- Natural numbers in place of floats.
abbrev toy : FloatOps
toy = record {
  add = λ a b. a + b;
  sub = λ a b. a - b;
  mul = λ a b. a * b;
  div = λ a b. a;
  fmod = λ a b. a;
  less = ltb;
  less_equal = leb;
  of_int = λ z. 0;
  to_int = λ a. none;
}

toy-irreflexive : (x : ℕ) → ltb x x ≡ false
toy-irreflexive x = ground arith

abbrev gains : PidGains
gains = record { kp = 2; ki = 1; kd = 0; u_max = 10; u_min = 1; i_max = 6; i_min = 1 }

abbrev state : PidState
state = record { p_error = 1; i_error = 5; d_error = 0 }

pid_compute-saturates_example :
    Returns
      (pid_compute toy (some gains) (some state) 9 2 saturate_output antiwindup_none)
      (λ (u, _). (ltb 10 u ≡ false) × (ltb u 1 ≡ false))
pid_compute-saturates_example =
    pid_compute-saturates toy toy-irreflexive gains state 9 2 antiwindup_none refl

pid_compute-integral_bounds_example :
    Returns
      (pid_compute toy (some gains) (some state) 9 2 saturate_none antiwindup_saturate)
      (λ (_, t). (ltb 6 t.i_error ≡ false) × (ltb t.i_error 1 ≡ false))
pid_compute-integral_bounds_example =
    pid_compute-integral_bounds toy toy-irreflexive gains state 9 2 saturate_none refl

-- A buffer of 28 bytes.
abbrev stream : Bytestream
stream = record { memory = replicate 28 0; data_ptr = some 0; capacity = 28; size = 0 }

stream-IsValid : IsValid 0 stream
stream-IsValid = record {
  base = refl;
  room = omega arith;
  within = omega arith;
  small = omega arith;
}

abbrev signals : PidSignals
signals = record { reference = 0x40000000; measurement = 0xbf800000; effort = 3 }

abbrev info : PidDebugInfo
info = record { state = state; signals = signals; sequence = 255; missed = 1 }

abbrev old_info : PidDebugInfo
old_info = record info { sequence = 0 }

pid_debug_info-round_trip_example :
    (pid_debug_info_inject (some stream) (some info) >>= λ w.
    pid_debug_info_extract (some (rewind w 0)) (some old_info))
    ≡ ok (info, put_bytes 0 stream (debug_info_codec.encode info))
pid_debug_info-round_trip_example =
    pid_debug_info-round_trip info old_info 0 stream
      (
        (omega arith, (omega arith, omega arith)),
        ((omega arith, (omega arith, omega arith)), (omega arith, omega arith)),
      )
      stream-IsValid
