-- ===== src/Pid/Bounds.antt =====
-- The controller's bounds, for any float arithmetic in which no number is less than itself.
use nuhal.Common.{ℕ, ◌≡◌, false, some, arith, Returns}
use nuhal.Bytestream.{Float}
use nuhal.Floats.{FloatOps}
use nuhal.Pid.{
  PidGains, PidState, SaturateType, saturate_output, AntiwindupType, antiwindup_saturate,
  pid_compute,
}

module _ (F : FloatOps) (irreflexive : (x : ℕ) → F.less x x ≡ false) where
  -- With saturation of the output, the control signal is neither above u_max nor below u_min, if
  -- the limits are not crossed and no float is less than itself, whatever the anti-windup, the
  -- state and the inputs.
  pub pid_compute-saturates :
      (g : PidGains) (s : PidState) (reference measurement : Float) (antiwindup : AntiwindupType)
      → F.less g.u_max g.u_min ≡ false
      → Returns
          (pid_compute F (some g) (some s) reference measurement saturate_output antiwindup)
          (λ (u, _). (F.less g.u_max u ≡ false) × (F.less u g.u_min ≡ false))
  unfolding pid_compute
  pid_compute-saturates g s r m a h = ground (arith, irreflexive g.u_max, irreflexive g.u_min)

  -- With saturating anti-windup, the integral error stays between i_min and i_max, if these are
  -- not crossed and no float is less than itself.
  pub pid_compute-integral_bounds :
      (g : PidGains) (s : PidState) (reference measurement : Float) (saturate : SaturateType)
      → F.less g.i_max g.i_min ≡ false
      → Returns
          (pid_compute F (some g) (some s) reference measurement saturate antiwindup_saturate)
          (λ (_, t). (F.less g.i_max t.i_error ≡ false) × (F.less t.i_error g.i_min ≡ false))
  unfolding pid_compute
  pid_compute-integral_bounds g s r m sat h =
      ground (arith, irreflexive g.i_max, irreflexive g.i_min)
