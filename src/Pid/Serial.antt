-- ===== src/Pid/Serial.antt =====
-- nuhal_all/src/pid.c: gains, state, signals and debugging information in a stream.
pub mod RoundTrip
use nuhal.Common.{ℕ, refl, some, Outcome, ok, ◌>>=◌, Ptr, require, null_ptr}
use nuhal.Bytestream.{Bytestream, Float, inject_f, extract_f, inject_u8, extract_u8}
use nuhal.Bytestream.Codec.{Codec}
use nuhal.Bytestream.Codec.Products.{pair, fields}
use nuhal.Bytestream.Builtin.{f_codec, u8_codec}
use nuhal.Pid.{PidGains, PidState}

-- `struct pid_signals`
pub record PidSignals : Type 0 where
  pub reference : Float
  pub measurement : Float
  pub effort : Float

-- `struct pid_debug_info`
pub record PidDebugInfo : Type 0 where
  pub state : PidState
  pub signals : PidSignals
  pub sequence : ℕ
  pub missed : ℕ

pub pid_gains_inject : Ptr Bytestream → Ptr PidGains → Outcome Bytestream
pid_gains_inject bs value = do
  b ← require bs null_ptr
  v ← require value null_ptr
  b ← inject_f (some b) v.kp
  b ← inject_f (some b) v.ki
  b ← inject_f (some b) v.kd
  b ← inject_f (some b) v.u_max
  b ← inject_f (some b) v.u_min
  b ← inject_f (some b) v.i_max
  inject_f (some b) v.i_min

pub pid_gains_extract : Ptr Bytestream → Ptr PidGains → Outcome (PidGains × Bytestream)
pid_gains_extract bs out = do
  b ← require bs null_ptr
  o ← require out null_ptr
  (kp, b) ← extract_f (some b)
  (ki, b) ← extract_f (some b)
  (kd, b) ← extract_f (some b)
  (u_max, b) ← extract_f (some b)
  (u_min, b) ← extract_f (some b)
  (i_max, b) ← extract_f (some b)
  (i_min, b) ← extract_f (some b)
  ok (
    record o {
      kp = kp;
      ki = ki;
      kd = kd;
      u_max = u_max;
      u_min = u_min;
      i_max = i_max;
      i_min = i_min;
    },
    b,
  )

pub pid_state_inject : Ptr Bytestream → Ptr PidState → Outcome Bytestream
pid_state_inject bs value = do
  b ← require bs null_ptr
  v ← require value null_ptr
  b ← inject_f (some b) v.p_error
  b ← inject_f (some b) v.i_error
  inject_f (some b) v.d_error

pub pid_state_extract : Ptr Bytestream → Ptr PidState → Outcome (PidState × Bytestream)
pid_state_extract bs out = do
  b ← require bs null_ptr
  o ← require out null_ptr
  (p_error, b) ← extract_f (some b)
  (i_error, b) ← extract_f (some b)
  (d_error, b) ← extract_f (some b)
  ok (record o { p_error = p_error; i_error = i_error; d_error = d_error }, b)

pub pid_signals_inject : Ptr Bytestream → Ptr PidSignals → Outcome Bytestream
pid_signals_inject bs value = do
  b ← require bs null_ptr
  v ← require value null_ptr
  b ← inject_f (some b) v.reference
  b ← inject_f (some b) v.measurement
  inject_f (some b) v.effort

pub pid_signals_extract : Ptr Bytestream → Ptr PidSignals → Outcome (PidSignals × Bytestream)
pid_signals_extract bs out = do
  b ← require bs null_ptr
  o ← require out null_ptr
  (reference, b) ← extract_f (some b)
  (measurement, b) ← extract_f (some b)
  (effort, b) ← extract_f (some b)
  ok (record o { reference = reference; measurement = measurement; effort = effort }, b)

pub pid_debug_info_inject : Ptr Bytestream → Ptr PidDebugInfo → Outcome Bytestream
pid_debug_info_inject bs value = do
  b ← require bs null_ptr
  v ← require value null_ptr
  b ← pid_state_inject (some b) (some v.state)
  b ← pid_signals_inject (some b) (some v.signals)
  b ← inject_u8 (some b) v.sequence
  inject_u8 (some b) v.missed

pub pid_debug_info_extract : Ptr Bytestream → Ptr PidDebugInfo → Outcome (PidDebugInfo × Bytestream)
pid_debug_info_extract bs out = do
  b ← require bs null_ptr
  o ← require out null_ptr
  (state, b) ← pid_state_extract (some b) (some o.state)
  (signals, b) ← pid_signals_extract (some b) (some o.signals)
  (sequence, b) ← extract_u8 (some b)
  (missed, b) ← extract_u8 (some b)
  ok (record o { state = state; signals = signals; sequence = sequence; missed = missed }, b)

abbrev pub gains_codec : Codec PidGains
gains_codec =
    fields (λ r. (r.kp, (r.ki, (r.kd, (r.u_max, (r.u_min, (r.i_max, r.i_min)))))))
      (λ (f0, (f1, (f2, (f3, (f4, (f5, f6)))))). record {
        kp = f0;
        ki = f1;
        kd = f2;
        u_max = f3;
        u_min = f4;
        i_max = f5;
        i_min = f6;
      })
      (λ r. refl)
      (pair f_codec
        (pair f_codec (pair f_codec (pair f_codec (pair f_codec (pair f_codec f_codec))))))

abbrev pub state_codec : Codec PidState
state_codec =
    fields (λ r. (r.p_error, (r.i_error, r.d_error)))
      (λ (f0, (f1, f2)). record { p_error = f0; i_error = f1; d_error = f2 }) (λ r. refl)
      (pair f_codec (pair f_codec f_codec))

abbrev pub signals_codec : Codec PidSignals
signals_codec =
    fields (λ r. (r.reference, (r.measurement, r.effort)))
      (λ (f0, (f1, f2)). record { reference = f0; measurement = f1; effort = f2 }) (λ r. refl)
      (pair f_codec (pair f_codec f_codec))

abbrev pub debug_info_codec : Codec PidDebugInfo
debug_info_codec =
    fields (λ r. (r.state, (r.signals, (r.sequence, r.missed))))
      (λ (f0, (f1, (f2, f3))). record { state = f0; signals = f1; sequence = f2; missed = f3 })
      (λ r. refl) (pair state_codec (pair signals_codec (pair u8_codec u8_codec)))
