-- ===== src/Encoder/Serial.antt =====
-- nuhal_all/src/encoder.c: the readings of the joint and gimbal encoders in a stream.
use nuhal.Common.{ℕ, ◌+◌, ◌≡◌, refl, some, ℤ, leb, if◌then◌else◌}
use nuhal.Common.{Outcome, ok, err, ◌>>=◌, Ptr, require, null_ptr, overflow}
use nuhal.Bytestream.{Bytestream, Float, inject_i32, extract_i32, inject_f, extract_f}
use nuhal.Bytestream.Codec.{Codec, IsValid, put_bytes, rewind}
use nuhal.Bytestream.Codec.Products.{pair, fields, Implements, Implements-round_trip, >>=-assoc}
use nuhal.Bytestream.Builtin.{i32_codec, f_codec}

-- `struct encoder_joints`
pub record EncoderJoints : Type 0 where
  pub before_ticks : ℤ
  pub before_radians : Float
  pub after_ticks : ℤ
  pub after_radians : Float

-- `struct encoder_gimbal`
pub record EncoderGimbal : Type 0 where
  pub x_ticks : ℤ
  pub y_ticks : ℤ
  pub z_ticks : ℤ
  pub x_radians : Float
  pub y_radians : Float
  pub z_radians : Float

pub encoder_joints_inject : Ptr Bytestream → Ptr EncoderJoints → Outcome Bytestream
encoder_joints_inject bs enc = do
  b ← require bs null_ptr
  e ← require enc null_ptr
  b ← inject_i32 (some b) e.before_ticks
  b ← inject_f (some b) e.before_radians
  b ← inject_i32 (some b) e.after_ticks
  inject_f (some b) e.after_radians

pub encoder_joints_extract :
    Ptr Bytestream → Ptr EncoderJoints → Outcome (EncoderJoints × Bytestream)
encoder_joints_extract bs out = do
  b ← require bs null_ptr
  o ← require out null_ptr
  (before_ticks, b) ← extract_i32 (some b)
  (before_radians, b) ← extract_f (some b)
  (after_ticks, b) ← extract_i32 (some b)
  (after_radians, b) ← extract_f (some b)
  ok (
    record o {
      before_ticks = before_ticks;
      before_radians = before_radians;
      after_ticks = after_ticks;
      after_radians = after_radians;
    },
    b,
  )

pub encoder_gimbal_inject : Ptr Bytestream → Ptr EncoderGimbal → Outcome Bytestream
encoder_gimbal_inject bs enc = do
  b ← require bs null_ptr
  e ← require enc null_ptr
  b ← inject_i32 (some b) e.x_ticks
  b ← inject_i32 (some b) e.y_ticks
  b ← inject_i32 (some b) e.z_ticks
  b ← inject_f (some b) e.x_radians
  b ← inject_f (some b) e.y_radians
  inject_f (some b) e.z_radians

pub encoder_gimbal_extract :
    Ptr Bytestream → Ptr EncoderGimbal → Outcome (EncoderGimbal × Bytestream)
encoder_gimbal_extract bs out = do
  b ← require bs null_ptr
  o ← require out null_ptr
  (x_ticks, b) ← extract_i32 (some b)
  (y_ticks, b) ← extract_i32 (some b)
  (z_ticks, b) ← extract_i32 (some b)
  (x_radians, b) ← extract_f (some b)
  (y_radians, b) ← extract_f (some b)
  (z_radians, b) ← extract_f (some b)
  ok (
    record o {
      x_ticks = x_ticks;
      y_ticks = y_ticks;
      z_ticks = z_ticks;
      x_radians = x_radians;
      y_radians = y_radians;
      z_radians = z_radians;
    },
    b,
  )

abbrev pub joints_codec : Codec EncoderJoints
joints_codec =
    fields (λ r. (r.before_ticks, (r.before_radians, (r.after_ticks, r.after_radians))))
      (λ (bt, (br, (at, ar))). record {
        before_ticks = bt;
        before_radians = br;
        after_ticks = at;
        after_radians = ar;
      })
      (λ r. refl) (pair i32_codec (pair f_codec (pair i32_codec f_codec)))

joints-Implements : Implements encoder_joints_inject encoder_joints_extract joints_codec
unfolding encoder_joints_inject encoder_joints_extract
joints-Implements = record { injects_as = λ b r. refl; extracts_as = λ b old. simp >>=-assoc }

abbrev pub gimbal_codec : Codec EncoderGimbal
gimbal_codec =
    fields (λ r. (r.x_ticks, (r.y_ticks, (r.z_ticks, (r.x_radians, (r.y_radians, r.z_radians))))))
      (λ (xt, (yt, (zt, (xr, (yr, zr))))). record {
        x_ticks = xt;
        y_ticks = yt;
        z_ticks = zt;
        x_radians = xr;
        y_radians = yr;
        z_radians = zr;
      })
      (λ r. refl)
      (pair i32_codec (pair i32_codec (pair i32_codec (pair f_codec (pair f_codec f_codec)))))

gimbal-Implements : Implements encoder_gimbal_inject encoder_gimbal_extract gimbal_codec
unfolding encoder_gimbal_inject encoder_gimbal_extract
gimbal-Implements = record { injects_as = λ b r. refl; extracts_as = λ b old. simp >>=-assoc }

-- A joint reading with every field within its 32 bits, in a valid stream: where its 16 bytes fit,
-- a reader that starts where the writer did gets the reading back, whatever its own record held,
-- and ends where the writer ended; where they do not fit, the outcome is the overflow error.
pub encoder_joints-round_trip :
    (r old : EncoderJoints) (p : ℕ) (b : Bytestream)
    → joints_codec.IsValue r
    → IsValid p b
    → (encoder_joints_inject (some b) (some r) >>= λ w.
        encoder_joints_extract (some (rewind w b.size)) (some old))
      ≡ (if leb (b.size + 16) b.capacity
          then ok (r, put_bytes p b (joints_codec.encode r))
          else err overflow)
encoder_joints-round_trip = Implements-round_trip _ _ joints_codec joints-Implements

-- A gimbal reading with every field within its 32 bits, in a valid stream: where its 24 bytes fit,
-- a reader that starts where the writer did gets the reading back, whatever its own record held,
-- and ends where the writer ended; where they do not fit, the outcome is the overflow error.
pub encoder_gimbal-round_trip :
    (r old : EncoderGimbal) (p : ℕ) (b : Bytestream)
    → gimbal_codec.IsValue r
    → IsValid p b
    → (encoder_gimbal_inject (some b) (some r) >>= λ w.
        encoder_gimbal_extract (some (rewind w b.size)) (some old))
      ≡ (if leb (b.size + 24) b.capacity
          then ok (r, put_bytes p b (gimbal_codec.encode r))
          else err overflow)
encoder_gimbal-round_trip = Implements-round_trip _ _ gimbal_codec gimbal-Implements
