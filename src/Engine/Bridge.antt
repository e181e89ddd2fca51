-- ===== src/Engine/Bridge.antt =====
-- bridge_execution_engine.py, UnivacReplacementBridgeEngine. The first import of its `try` names a
-- class that wave_matrix_processor.py does not define, so the subsystems are never built and
-- `subsystems_online` is False: their branches are not modelled. Of the upstream packet only the
-- entry that the serializers read is kept.
use univac.Base.{Bool, ◌&&◌, Option, List, [], ◌∷◌, ◌++◌, or_default, if◌then◌else◌}
use univac.Text.{Text, codes}
use univac.Floats.{Floating, clamp}
use univac.Floats.Math.{MathLib}
use univac.Config.Profile.{lookup}

-- The dimensions that the constructor takes from the profile.
pub record Vessel (F : Type 0) : Type 0 where
  pub diameter : F
  pub inertia_prop : F
  pub draft : F
  pub max_torque : F
  pub max_rudder_deg : F
  pub rudder_arm_z : F

pub record NotchRegisters (F : Type 0) : Type 0 where
  pub notch_x1 : F
  pub notch_x2 : F
  pub notch_y1 : F
  pub notch_y2 : F

pub record RampState (F : Type 0) : Type 0 where
  pub current_accel : F
  pub current_ramp_rpm : F

pub record BridgeEngine (F : Type 0) : Type 0 where
  pub vessel : Vessel F
  pub elevation_history : List F
  pub notch : NotchRegisters F
  pub integral_speed_error : F
  pub ramp : RampState F
  pub current_rpm_state : F
  pub last_known_lat_rad : F
  pub last_known_lon_rad : F

pub record BridgeTargets (F : Type 0) : Type 0 where
  pub target_rpm : Option F
  pub target_yaw_rate : Option F

-- The keys of the telemetry that are read without the subsystems.
pub record BridgeTelemetry (F : Type 0) : Type 0 where
  pub rpm : Option F
  pub speed_ms : Option F
  pub gps_valid : Option Bool
  pub latitude_rad : Option F
  pub longitude_rad : Option F
  pub depth : Option F
  pub bow_sensor_meters : Option F
  pub yaw_rate_rads : Option F
  pub roll_rate_rads : Option F

-- np.roll(h, -1), with the last place overwritten.
abbrev pub shift_in : {F : Type 0} → F → List F → List F
shift_in x [] = []
shift_in x (y ∷ l) = l ++ (x ∷ [])

module _ {F : Type 0} ⦃fl : Floating F⦄ where
  abbrev pub zero_f : F
  zero_f = fl.lit 0 1

  -- a == b
  abbrev pub equals : F → F → Bool
  equals a b = fl.le a b && fl.le b a

  unfoldable pub vessel_of : List (Text × F) → Vessel F
  vessel_of p = record {
    diameter = or_default (lookup (codes "diameter") p) (fl.lit 34 1);
    inertia_prop = or_default (lookup (codes "inertia_prop") p) (fl.lit 5000 1);
    draft = or_default (lookup (codes "draft") p) (fl.lit 65 1);
    max_torque = or_default (lookup (codes "max_torque") p) (fl.lit 900000 1);
    max_rudder_deg = or_default (lookup (codes "max_rudder_deg") p) (fl.lit 350 1);
    rudder_arm_z = or_default (lookup (codes "rudder_arm_z") p) (fl.lit 28 1);
  }

  unfoldable pub new_engine : List (Text × F) → BridgeEngine F
  new_engine vessel_profile = record {
    vessel = vessel_of vessel_profile;
    elevation_history = zero_f ∷ zero_f ∷ zero_f ∷ zero_f ∷ zero_f ∷ [];
    notch = record { notch_x1 = zero_f; notch_x2 = zero_f; notch_y1 = zero_f; notch_y2 = zero_f };
    integral_speed_error = zero_f;
    ramp = record { current_accel = zero_f; current_ramp_rpm = zero_f };
    current_rpm_state = zero_f;
    last_known_lat_rad = zero_f;
    last_known_lon_rad = zero_f;
  }

  unfoldable pub ar_weights : List F
  ar_weights =
      fl.lit 842 3 ∷ fl.neg (fl.lit 441 3) ∷ fl.lit 198 3 ∷ fl.neg (fl.lit 48 3) ∷ fl.lit 9 3 ∷ []

  -- The ramp behind the first `if` of `_execute_s_curve_profile`.
  abbrev pub seeded_ramp : F → RampState F → F
  seeded_ramp current_rpm s =
      if equals s.current_ramp_rpm zero_f then current_rpm else s.current_ramp_rpm

  -- `_execute_s_curve_profile`: the profiled revolutions, and the new ramp.
  unfoldable pub execute_s_curve_profile : F → F → F → RampState F → F × RampState F
  execute_s_curve_profile target_rpm current_rpm dt s =
      let ramp = seeded_ramp current_rpm s in
      let error = fl.sub target_rpm ramp in
      let jerk_direction = if fl.lt zero_f error then fl.lit 10 1 else fl.neg (fl.lit 10 1) in
      let accel =
        clamp (fl.neg (fl.lit 500 1)) (fl.lit 500 1)
          (fl.add s.current_accel (fl.mul (fl.mul jerk_direction (fl.lit 50 1)) dt)) in
      let next = fl.add ramp (fl.mul accel dt) in
      if fl.lt (fl.abs error) (fl.lit 1 1)
      then (target_rpm, record { current_accel = zero_f; current_ramp_rpm = ramp })
      else (
        clamp (fl.neg (fl.lit 2000 1)) (fl.lit 12000 1) next,
        record { current_accel = accel; current_ramp_rpm = next },
      )

  -- `_calculate_wave_ventilation` on the shifted history.
  unfoldable pub wave_ventilation : MathLib F → F → List F → F
  wave_ventilation m diameter elevation_history =
      let submergence = fl.add (fl.lit 35 1) (m.dot ar_weights elevation_history) in
      if fl.le diameter submergence
      then fl.lit 10 1
      else if fl.le submergence zero_f
      then fl.lit 5 2
      else m.square (m.sin (fl.mul (fl.div fl.pi (fl.lit 20 1)) (fl.div submergence diameter)))

  -- The filtered angle of `_execute_feature_43_notch_filter`.
  unfoldable pub notch_output : MathLib F → F → F → NotchRegisters F → F
  notch_output m rudder_cmd_deg dt r =
      let one = fl.lit 10 1 in
      let two = fl.lit 20 1 in
      let tan_coef = m.tan (fl.div (fl.mul (fl.lit 82 2) dt) two) in
      let narrow = fl.mul (fl.mul two (fl.lit 5 2)) tan_coef in
      let broad = fl.mul (fl.mul two (fl.lit 70 2)) tan_coef in
      let squared = m.square tan_coef in
      let b0 = fl.add (fl.add one narrow) squared in
      let b1 = fl.sub (fl.mul two squared) two in
      let b2 = fl.add (fl.sub one narrow) squared in
      let a0 = fl.add (fl.add one broad) squared in
      let a1 = fl.sub (fl.mul two squared) two in
      let a2 = fl.add (fl.sub one broad) squared in
      fl.sub
        (fl.sub
          (fl.add (fl.add (fl.mul (fl.div b0 a0) rudder_cmd_deg) (fl.mul (fl.div b1 a0) r.notch_x1))
            (fl.mul (fl.div b2 a0) r.notch_x2))
          (fl.mul (fl.div a1 a0) r.notch_y1))
        (fl.mul (fl.div a2 a0) r.notch_y2)

  -- `_execute_feature_43_notch_filter`: the filtered angle, and the shifted registers.
  unfoldable pub execute_notch_filter : MathLib F → F → F → NotchRegisters F → F × NotchRegisters F
  execute_notch_filter m rudder_cmd_deg dt r =
      let filtered_rudder = notch_output m rudder_cmd_deg dt r in
      (
        filtered_rudder,
        record {
          notch_x1 = rudder_cmd_deg;
          notch_x2 = r.notch_x1;
          notch_y1 = filtered_rudder;
          notch_y2 = r.notch_y1;
        },
      )

  -- K_bend * rho * omega ** 2 * D ** 5
  unfoldable pub bending_factor : MathLib F → Vessel F → F → F
  bending_factor m v omega =
      fl.mul (fl.mul (fl.mul (fl.lit 15 3) (fl.lit 10250 1)) (m.square omega)) (m.fifth v.diameter)

  -- `_enforce_propeller_shear_protection`
  unfoldable pub enforce_propeller_shear_protection : MathLib F → Vessel F → F → F → F
  enforce_propeller_shear_protection m v target_yaw_rate current_omega =
      let max_allowable_moment = fl.mul v.max_torque (fl.lit 85 2) in
      if fl.lt max_allowable_moment
          (fl.mul (bending_factor m v current_omega) (fl.abs target_yaw_rate))
        && fl.lt (fl.lit 1 1) current_omega
      then m.copysign (fl.div max_allowable_moment (bending_factor m v current_omega))
          target_yaw_rate
      else target_yaw_rate

  -- (x * 2.0 * math.pi) / 60.0
  abbrev pub as_omega : F → F
  as_omega x = fl.div (fl.mul (fl.mul x (fl.lit 20 1)) fl.pi) (fl.lit 600 1)
