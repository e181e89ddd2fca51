-- ===== src/Engine/Loop.antt =====
-- bridge_execution_engine.py, `execute_bridge_loop` with the subsystems offline. Of the report the
-- entries are kept that other code reads; the dynamic draft, the roll moment and the rounded
-- positions are not modelled.
use univac.Base.{Bool, true, none, some, List, [], ◌∷◌, or_default, if◌then◌else◌}
use univac.Floats.{Floating, min_of, max_of, clamp}
use univac.Floats.Math.{MathLib}
use univac.Serializers.Actuator.{EngineOutput}
use univac.Engine.Bridge.{
  Vessel, NotchRegisters, BridgeEngine, BridgeTargets, BridgeTelemetry, shift_in, zero_f,
  execute_s_curve_profile, wave_ventilation, execute_notch_filter, bending_factor,
  enforce_propeller_shear_protection, as_omega,
}

-- What the main loop gives a cycle.
pub record Cycle (F : Type 0) : Type 0 where
  pub targets : BridgeTargets F
  pub telemetry : BridgeTelemetry F
  pub dt : F

-- The propulsion part of a cycle.
pub record Propulsion (F : Type 0) : Type 0 where
  pub final_motor_torque : F
  pub new_integral : F

module _ {F : Type 0} ⦃fl : Floating F⦄ where
  abbrev pub current_rpm_of : BridgeEngine F → BridgeTelemetry F → F
  current_rpm_of e t = or_default t.rpm e.current_rpm_state

  -- The last known position: a fix is taken over, and without one the position stays.
  unfoldable pub position_of : BridgeEngine F → BridgeTelemetry F → F × F
  position_of e t =
      if or_default t.gps_valid true
      then (
        or_default t.latitude_rad e.last_known_lat_rad,
        or_default t.longitude_rad e.last_known_lon_rad,
      )
      else (e.last_known_lat_rad, e.last_known_lon_rad)

  -- fr_depth > 0.85
  unfoldable pub is_shallow : MathLib F → BridgeTelemetry F → Bool
  is_shallow m t =
      let fr_depth = fl.div (or_default t.speed_ms zero_f) (
        m.sqrt (fl.mul (fl.lit 981 2) (max_of (fl.lit 5 1) (or_default t.depth (fl.lit 500 1))))) in
      fl.lt (fl.lit 85 2) fr_depth

  unfoldable pub safe_target_rpm : MathLib F → BridgeTargets F → BridgeTelemetry F → F
  safe_target_rpm m targets t =
      let rpm = or_default targets.target_rpm zero_f in
      if is_shallow m t then min_of rpm (fl.lit 2500 1) else rpm

  -- (220.0 * speed_error) + (10.0 * integral)
  abbrev pub base_torque : F → F → F
  base_torque speed_error integral =
      fl.add (fl.mul (fl.lit 2200 1) speed_error) (fl.mul (fl.lit 100 1) integral)

  -- The torque, with the integrator held while it would saturate.
  unfoldable pub propulsion : F → F → F → F → F → Propulsion F
  propulsion max_torque integral beta_v dt speed_error =
      let advance = fl.lt (fl.abs (base_torque speed_error integral)) max_torque in
      let new_integral = if advance then fl.add integral (fl.mul speed_error dt) else integral in
      record {
        final_motor_torque =
            clamp (fl.neg max_torque) max_torque
              (fl.mul (base_torque speed_error new_integral) beta_v);
        new_integral = new_integral;
      }

  -- max_rudder_deg * math.exp(-0.015 * abs(current_omega))
  unfoldable pub rudder_cap : MathLib F → Vessel F → F → F
  rudder_cap m v current_omega =
      fl.mul v.max_rudder_deg (m.exp (fl.mul (fl.neg (fl.lit 15 3)) (fl.abs current_omega)))

  -- The angle in front of the notch filter; the trims of the offline subsystems are 0.0.
  unfoldable pub steering_order : MathLib F → Vessel F → BridgeTargets F → BridgeTelemetry F → F → F
  steering_order m v targets t current_omega =
      let safe_yaw_rate =
        enforce_propeller_shear_protection m v (or_default targets.target_yaw_rate zero_f)
          current_omega in
      let delta_steering =
        fl.mul (fl.lit 18 1) (fl.sub safe_yaw_rate (or_default t.yaw_rate_rads zero_f)) in
      let delta_stabilization =
        fl.mul (fl.neg (fl.lit 25 1)) (or_default t.roll_rate_rads zero_f) in
      fl.add (fl.add (m.degrees (fl.add delta_steering delta_stabilization)) zero_f) zero_f

  unfoldable pub structural_load_pct : MathLib F → Vessel F → BridgeTelemetry F → F → F
  structural_load_pct m v t current_omega =
      let yaw = or_default t.yaw_rate_rads zero_f in
      let m_bend = fl.mul (bending_factor m v current_omega) yaw in
      let m_gyro = fl.mul (fl.mul v.inertia_prop current_omega) yaw in
      fl.mul
        (fl.div (fl.add (fl.abs m_bend) (fl.abs m_gyro)) (fl.div (fl.lit 15000000 1) (fl.lit 25 1)))
        (fl.lit 1000 1)

  -- The clamped position of the rudder, and the filter's registers with it written back.
  unfoldable pub steering_gear :
      MathLib F → Vessel F → F → F → F → NotchRegisters F → F × NotchRegisters F
  steering_gear m v order current_omega dt r =
      let (filtered, registers) = execute_notch_filter m order dt r in
      let cap = rudder_cap m v current_omega in
      let final_rudder_pos = clamp (fl.neg cap) cap filtered in
      (final_rudder_pos, record registers { notch_y1 = final_rudder_pos })

  -- `execute_bridge_loop`: the report, as the serializers read it, and the new state.
  unfoldable pub execute_bridge_loop :
      MathLib F
      → BridgeTargets F
      → BridgeTelemetry F
      → F
      → BridgeEngine F
      → EngineOutput F × BridgeEngine F
  execute_bridge_loop m targets t dt e =
      let current_rpm = current_rpm_of e t in
      let current_omega = as_omega current_rpm in
      let (lat, lon) = position_of e t in
      let history = shift_in (or_default t.bow_sensor_meters zero_f) e.elevation_history in
      let beta_v = wave_ventilation m e.vessel.diameter history in
      let (profiled_target_rpm, ramp) =
        execute_s_curve_profile (safe_target_rpm m targets t) current_rpm dt e.ramp in
      let p : Propulsion F =
        propulsion e.vessel.max_torque e.integral_speed_error beta_v dt
          (fl.sub (as_omega profiled_target_rpm) current_omega) in
      let (final_rudder_pos, notch) =
        steering_gear m e.vessel (steering_order m e.vessel targets t current_omega) current_omega
          dt e.notch in
      let load = structural_load_pct m e.vessel t current_omega in
      (
        record {
          command_rudder_angle_deg = some (fl.round 2 final_rudder_pos);
          command_motor_torque_nm = some (fl.round 1 p.final_motor_torque);
          active_rpm_cap = some (fl.round 1 profiled_target_rpm);
          telemetry_structural_load_pct = none;
          upstream_autonomy_telemetry = some (record {
            water_insight_link =
                some (record { structural_fatigue_load_percentage = some (fl.round 1 load) });
          });
        },
        record {
          vessel = e.vessel;
          elevation_history = history;
          notch = notch;
          integral_speed_error = p.new_integral;
          ramp = ramp;
          current_rpm_state = current_rpm;
          last_known_lat_rad = lat;
          last_known_lon_rad = lon;
        },
      )

  abbrev pub run_cycles : MathLib F → List (Cycle F) → BridgeEngine F → BridgeEngine F
  run_cycles m [] e = e
  run_cycles m (c ∷ l) e = run_cycles m l (execute_bridge_loop m c.targets c.telemetry c.dt e).1
