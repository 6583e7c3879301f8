-- ===== src/Pid.antt =====
-- nuhal_all/src/pid.c: one step of the controller, over the float operations of the platform.
pub mod Bounds
pub mod Serial
mod Tests
use nuhal.Common.{Bool, ◌&&◌, ◌||◌, if◌then◌else◌, Outcome, ok, ◌>>=◌, Ptr, require, null_ptr}
use nuhal.Bytestream.{Float}
use nuhal.Floats.{FloatOps, zero_f}

-- `enum saturate_type`
pub data SaturateType : Type 0 where
  saturate_output saturate_none : SaturateType

-- `enum antiwindup_type`
pub data AntiwindupType : Type 0 where
  antiwindup_none antiwindup_back_calculate antiwindup_saturate : AntiwindupType

-- `struct pid_gains`
pub record PidGains : Type 0 where
  pub kp : Float
  pub ki : Float
  pub kd : Float
  pub u_max : Float
  pub u_min : Float
  pub i_max : Float
  pub i_min : Float

-- `struct pid_state`
pub record PidState : Type 0 where
  pub p_error : Float
  pub i_error : Float
  pub d_error : Float

module _ (F : FloatOps) where
  open F use {add, sub, mul, less}

  -- `kp * p_error + ki * i_error + kd * d_error`
  unfoldable pub control : PidGains → Float → Float → Float → Float
  control g p_error i_error d_error =
      add (add (mul g.kp p_error) (mul g.ki i_error)) (mul g.kd d_error)

  -- Whether back-calculation lets the integral error accumulate.
  unfoldable pub accumulates : PidGains → Float → Float → Bool
  accumulates g error u_prospective =
      less g.u_min u_prospective && less u_prospective g.u_max
      || less error zero_f && less g.u_max u_prospective
      || less zero_f error && less u_prospective g.u_min

  -- The new `i_error`, by the kind of anti-windup.
  unfoldable pub integrate : AntiwindupType → PidGains → PidState → Float → Float → Float
  unfolding control accumulates
  integrate antiwindup_back_calculate g st error d_error =
      let i_prospective = add st.i_error error in
      if accumulates g error (control g error i_prospective d_error)
      then i_prospective
      else st.i_error
  integrate antiwindup_saturate g st error d_error =
      let i_prospective = add st.i_error error in
      if less g.i_max i_prospective
      then g.i_max
      else if less i_prospective g.i_min
      then g.i_min
      else i_prospective
  integrate antiwindup_none g st error d_error = add st.i_error error

  -- What is returned for the true control signal.
  unfoldable pub saturated : SaturateType → PidGains → Float → Float
  saturated saturate_output g u =
      if less g.u_max u then g.u_max else if less u g.u_min then g.u_min else u
  saturated saturate_none g u = u

  -- `pid_compute`: the control signal, and the new `*st`.
  unfoldable pub pid_compute :
      Ptr PidGains
      → Ptr PidState
      → Float
      → Float
      → SaturateType
      → AntiwindupType
      → Outcome (Float × PidState)
  unfolding integrate saturated
  pid_compute gains st reference measurement saturate antiwindup = do
    s ← require st null_ptr
    g ← require gains null_ptr
    let error = sub reference measurement
    let d_error = sub error s.p_error
    let i_error = integrate antiwindup g s error d_error
    ok (
      saturated saturate g (control g error i_error d_error),
      record { p_error = error; i_error = i_error; d_error = d_error },
    )
