-- ===== src/Engine/Ramp.antt =====
-- The profiled revolutions, for targets that the command stream set.
use univac.Base.{◌≡◌, refl, true, false, Bool, Option, some, List, arith, if◌then◌else◌}
use univac.Text.{Text}
use univac.Floats.{Floating, FloatLaws, clamp, clamp_bounds}
use univac.Floats.Math.{MathLib}
use univac.Tcp.{JsonPayload, rpm_in_range, initial_session, receive_all}
use univac.Tcp.Safety.{receive_all-InRange}
use univac.Engine.Bridge.{
  RampState, BridgeEngine, BridgeTargets, BridgeTelemetry, execute_s_curve_profile,
}
use univac.Engine.Loop.{current_rpm_of, safe_target_rpm, execute_bridge_loop}

module _ {F : Type 0} ⦃fl : Floating F⦄ (laws : FloatLaws fl) (m : MathLib F) where
  either-InRange :
      (b : Bool) (x y : F × RampState F)
      → rpm_in_range x.0 ≡ true
      → rpm_in_range y.0 ≡ true
      → rpm_in_range (if b then x else y).0 ≡ true
  either-InRange true x y h k = h
  either-InRange false x y h k = k

  clamp-InRange : (x : F) → rpm_in_range (clamp (fl.neg (fl.lit 2000 1)) (fl.lit 12000 1) x) ≡ true
  clamp-InRange x = ground (
    arith,
    clamp_bounds laws (fl.neg (fl.lit 2000 1)) (fl.lit 12000 1) x (laws.neg_lit_refl 2000 1)
        (laws.lit_mono 12000 12000 1 (omega arith)) (laws.neg_lit 2000 12000 1),
  )

  execute_s_curve_profile-InRange :
      (target current dt : F) (s : RampState F)
      → rpm_in_range target ≡ true
      → rpm_in_range (execute_s_curve_profile target current dt s).0 ≡ true
  unfolding execute_s_curve_profile
  execute_s_curve_profile-InRange target current dt s h = either-InRange _ _ _ h (clamp-InRange _)

  safe_target_rpm-InRange :
      (t : BridgeTargets F) (tel : BridgeTelemetry F) (r : F)
      → t.target_rpm ≡ some r
      → rpm_in_range r ≡ true
      → rpm_in_range (safe_target_rpm m t tel) ≡ true
  unfolding safe_target_rpm
  safe_target_rpm-InRange t tel r h k =
      ground (arith, laws.neg_lit 2000 2500 1, laws.lit_mono 2500 12000 1 (omega arith))

  execute-InRange :
      (t : BridgeTargets F) (tel : BridgeTelemetry F) (dt r : F) (e : BridgeEngine F)
      → t.target_rpm ≡ some r
      → rpm_in_range r ≡ true
      → (x : F) × ((execute_bridge_loop m t tel dt e).0.active_rpm_cap ≡ some (fl.round 1 x))
        × (rpm_in_range x ≡ true)
  unfolding execute_bridge_loop
  execute-InRange t tel dt r e h k = (
    _,
    refl,
    execute_s_curve_profile-InRange (safe_target_rpm m t tel) (current_rpm_of e tel) dt e.ramp
        (safe_target_rpm-InRange t tel r h k),
  )

  -- Whatever bytes a client of the command port sends, cut in whatever way: if the revolutions of
  -- the session are the engine's target, the revolutions that the engine profiles lie in
  -- [-200, 1200] in every cycle, for any telemetry, time step and state of the ramp; the wire
  -- carries them rounded to one digit.
  pub receive_all-execute_bridge_loop :
      (loads : Text → Option (JsonPayload F)) (chunks : List Text) (t : BridgeTargets F)
      (tel : BridgeTelemetry F) (dt : F) (e : BridgeEngine F)
      → t.target_rpm ≡ some (receive_all loads chunks initial_session).setpoints.rpm
      → (x : F) × ((execute_bridge_loop m t tel dt e).0.active_rpm_cap ≡ some (fl.round 1 x))
        × (rpm_in_range x ≡ true)
  receive_all-execute_bridge_loop loads chunks t tel dt e h =
      execute-InRange t tel dt _ e h (receive_all-InRange loads laws chunks).rpm
