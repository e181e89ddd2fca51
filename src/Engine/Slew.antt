-- ===== src/Engine/Slew.antt =====
-- The limits of the motion predictor.
use univac.Base.{◌≡◌, Bool, true, false, if◌then◌else◌, arith}
use univac.Floats.{Floating, FloatLaws, clamp}
use univac.Floats.Math.{MathLib, MathLaws}
use univac.Engine.Bridge.{zero_f}
use univac.Engine.Limits.{Between, clamp_symmetric}
use univac.Engine.Predictor.{Predictor, ManeuverTelemetry, maneuver, next_accel, slewed_rudder}

module _ {F : Type 0} ⦃fl : Floating F⦄ (laws : FloatLaws fl) (m : MathLib F)
    (mlaws : MathLaws fl m) where
  clamp_or_zero :
      (b : Bool) (c x : F)
      → fl.le zero_f c ≡ true
      → fl.le (fl.neg c) zero_f ≡ true
      → Between laws m mlaws (fl.neg c) c (if b then clamp (fl.neg c) c x else zero_f)
  clamp_or_zero true c x h k = clamp_symmetric laws m mlaws c x h
  clamp_or_zero false c x h k = (k, h)

  next_accel-Between :
      (error dt a : F)
      → Between laws m mlaws (fl.neg (fl.lit 500 1)) (fl.lit 500 1) (next_accel error dt a)
  unfolding next_accel
  next_accel-Between error dt a =
      clamp_or_zero (fl.le (fl.lit 1 1) (fl.abs error)) (fl.lit 500 1) _
        (laws.lit_mono 0 500 1 (omega arith)) (laws.neg_lit 500 0 1)

  -- With a rudder stop that is not negative: whatever the telemetry and the predictor's state are,
  -- the commanded rudder lies between the stops, and the acceleration that is kept for the next
  -- call between -50 and 50.
  pub maneuver-Between :
      (target_rpm target_yaw_rate rpm speed : F) (t : ManeuverTelemetry F) (dt : F)
      (p : Predictor F)
      → fl.le zero_f p.max_rudder_deg ≡ true
      → let (out, q) = maneuver m target_rpm target_yaw_rate rpm speed t dt p in
        Between laws m mlaws (fl.neg p.max_rudder_deg) p.max_rudder_deg out.final_rudder_pos
        × Between laws m mlaws (fl.neg (fl.lit 500 1)) (fl.lit 500 1) q.current_accel
  unfolding maneuver slewed_rudder
  maneuver-Between target_rpm target_yaw_rate rpm speed t dt p h =
      (clamp_symmetric laws m mlaws p.max_rudder_deg _ h, next_accel-Between _ dt p.current_accel)
