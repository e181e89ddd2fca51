-- ===== src/Engine/Predictor.antt =====
-- hydro_coordinated_predictor.py. The weights and the filter matrices that no method reads are left
-- out, and so are the inertia, the thrust coefficient, and the wave number that is not used.
use univac.Base.{Option, some, or_default, ◌>>=◌, if◌then◌else◌}
use univac.Floats.{Floating, max_of, min_of, clamp}
use univac.Floats.Math.{MathLib}
use univac.Engine.Bridge.{zero_f, equals, as_omega}

pub record Predictor (F : Type 0) : Type 0 where
  pub diameter : F
  pub draft : F
  pub max_torque : F
  pub max_rudder_deg : F
  pub current_accel : F

-- The keys of the telemetry; `depth` and `amps` are only looked up.
pub record ManeuverTelemetry (F : Type 0) : Type 0 where
  pub rpm : Option F
  pub depth : Option F
  pub amps : Option F
  pub speed_ms : Option F
  pub wave_amp_m : Option F
  pub wave_freq_hz : Option F
  pub wave_phase_rad : Option F
  pub roll_rad : Option F
  pub roll_rate_rads : Option F
  pub yaw_rate_rads : Option F
  pub rudder_deg : Option F

pub record Maneuver (F : Type 0) : Type 0 where
  pub final_torque : F
  pub final_rudder_pos : F
  pub beta : F

module _ {F : Type 0} ⦃fl : Floating F⦄ where
  unfoldable pub predict_wave_impact :
      MathLib F → (wave_freq_hz vessel_speed_ms heading_rad : F) → F
  predict_wave_impact m wave_freq_hz vessel_speed_ms heading_rad =
      let omega_w = fl.mul (fl.mul (fl.lit 20 1) fl.pi) wave_freq_hz in
      let c_p = fl.div (fl.lit 981 2) omega_w in
      let relative_velocity = fl.add c_p (fl.mul vessel_speed_ms (m.cos heading_rad)) in
      if fl.le wave_freq_hz (fl.lit 1 2)
      then zero_f
      else fl.div (fl.lit 1500 1) (max_of (fl.lit 1 1) relative_velocity)

  -- The load torque, and the ventilation factor.
  unfoldable pub calculate_wave_torque_limit :
      MathLib F → Predictor F → (current_rpm wave_amplitude wave_phase : F) → F × F
  calculate_wave_torque_limit m p current_rpm wave_amplitude wave_phase =
      let n = fl.div current_rpm (fl.lit 600 1) in
      let dynamic_depth = fl.add p.draft (fl.mul wave_amplitude (m.sin wave_phase)) in
      let submergence_ratio = max_of zero_f (fl.div dynamic_depth p.diameter) in
      let beta = min_of (fl.lit 10 1) (m.tanh (fl.mul (fl.lit 15 1) submergence_ratio)) in
      let q_h =
        fl.mul (fl.mul (fl.mul (fl.lit 4 2) (fl.lit 10250 1)) (m.square n)) (m.fifth p.diameter) in
      if equals n zero_f then (zero_f, fl.lit 10 1) else (fl.mul q_h beta, beta)

  unfoldable pub calculate_rrs_command :
      MathLib F → (target_yaw_rate current_yaw_rate roll_angle_rad roll_rate_rads : F) → F
  calculate_rrs_command m target_yaw_rate current_yaw_rate roll_angle_rad roll_rate_rads =
      let yaw_error = fl.sub target_yaw_rate current_yaw_rate in
      let rudder_steer = fl.mul (fl.lit 120 1) yaw_error in
      let rudder_stabilize =
        fl.add (fl.mul (fl.neg (fl.lit 85 1)) roll_angle_rad)
          (fl.mul (fl.neg (fl.lit 42 1)) roll_rate_rads) in
      m.degrees (fl.add rudder_steer rudder_stabilize)

  -- The acceleration behind the `if` on the error.
  unfoldable pub next_accel : (error dt current_accel : F) → F
  next_accel error dt current_accel =
      let direction = if fl.lt zero_f error then fl.lit 10 1 else fl.neg (fl.lit 10 1) in
      if fl.le (fl.lit 1 1) (fl.abs error)
      then clamp (fl.neg (fl.lit 500 1)) (fl.lit 500 1)
          (fl.add current_accel (fl.mul (fl.mul direction (fl.lit 50 1)) dt))
      else zero_f

  -- The slew limit, and then the stops.
  unfoldable pub slewed_rudder : (max_rudder_deg current_rudder demanded dt : F) → F
  slewed_rudder max_rudder_deg current_rudder demanded dt =
      let max_move = fl.mul (fl.lit 150 1) dt in
      let clamped_rudder =
        fl.add current_rudder (clamp (fl.neg max_move) max_move (fl.sub demanded current_rudder)) in
      clamp (fl.neg max_rudder_deg) max_rudder_deg clamped_rudder

  unfoldable pub maneuver :
      MathLib F
      → (target_rpm target_yaw_rate current_rpm vessel_speed_ms : F) → ManeuverTelemetry F
      → F
      → Predictor F
      → Maneuver F × Predictor F
  maneuver m target_rpm target_yaw_rate current_rpm vessel_speed_ms t dt p =
      let wave_freq = or_default t.wave_freq_hz (fl.lit 1 1) in
      let impact_delay = predict_wave_impact m wave_freq vessel_speed_ms zero_f in
      let predicted_phase =
        fl.add (or_default t.wave_phase_rad zero_f)
          (fl.mul (fl.mul (fl.mul (fl.lit 20 1) fl.pi) wave_freq) impact_delay) in
      let (q_h, beta) =
        calculate_wave_torque_limit m p current_rpm (or_default t.wave_amp_m zero_f)
          predicted_phase in
      let accel = next_accel (fl.sub target_rpm current_rpm) dt p.current_accel in
      let profiled_target_omega = as_omega (fl.add current_rpm (fl.mul accel dt)) in
      let torque_error =
        fl.mul (fl.lit 1800 1) (fl.sub profiled_target_omega (as_omega current_rpm)) in
      let dynamic_max_torque = fl.mul p.max_torque beta in
      let demanded_rudder =
        calculate_rrs_command m target_yaw_rate (or_default t.yaw_rate_rads zero_f)
          (or_default t.roll_rad zero_f) (or_default t.roll_rate_rads zero_f) in
      (
        record {
          final_torque =
              clamp (fl.neg dynamic_max_torque) dynamic_max_torque (fl.add torque_error q_h);
          final_rudder_pos =
              slewed_rudder p.max_rudder_deg (or_default t.rudder_deg zero_f) demanded_rudder dt;
          beta = beta;
        },
        record p { current_accel = accel },
      )

  -- `execute_maneuver`, none where one of the four required keys is missing.
  unfoldable pub execute_maneuver :
      MathLib F
      → (target_rpm target_yaw_rate : F) → ManeuverTelemetry F
      → F
      → Predictor F
      → Option (Maneuver F × Predictor F)
  execute_maneuver m target_rpm target_yaw_rate t dt p = t.rpm >>= λ current_rpm.
      t.depth >>= λ depth. t.amps >>= λ amps. t.speed_ms >>= λ vessel_speed_ms.
      some (maneuver m target_rpm target_yaw_rate current_rpm vessel_speed_ms t dt p)
