-- ===== src/Engine/Waves.antt =====
-- hydrodynamics/wave_matrix_processor.py. The predictor's weights and the notch filter are those
-- that the bridge engine copies, digit by digit, and are shared with it. The inertia, which no
-- formula reads, is left out.
use univac.Base.{Bool, Option, some, List, [], ◌∷◌, or_default, ◌>>=◌, if◌then◌else◌}
use univac.Floats.{Floating, max_of, clamp}
use univac.Floats.Math.{MathLib}
use univac.Engine.Bridge.{NotchRegisters, shift_in, zero_f, ar_weights, execute_notch_filter}

pub record WaveProcessor (F : Type 0) : Type 0 where
  pub diameter : F
  pub max_torque : F
  pub elevation_history : List F
  pub notch : NotchRegisters F

-- A missing key is none.
pub record WaveMetrics (F : Type 0) : Type 0 where
  pub bow_sensor_meters : Option F
  pub nominal_calculated_torque_nm : Option F
  pub unfiltered_rudder_deg : Option F
  pub nominal_shaft_depth_meters : Option F

-- The entry Aegis_SeaMachines_Interlock of the upstream telemetry.
pub record WaveInterlock (F : Type 0) : Type 0 where
  pub subsurface_aeration_warning : Bool
  pub hydrodynamic_efficiency_multiplier : F
  pub predicted_stern_swell_meters : F
  pub suggested_external_colregs_slew_rate_modifier : F
  pub wave_induced_rudder_torque_load_nm : F

pub record WaveReport (F : Type 0) : Type 0 where
  pub command_motor_torque_nm : F
  pub command_rudder_angle_deg : F
  pub internal_ventilation_index : F
  pub upstream_autonomy_telemetry : WaveInterlock F

module _ {F : Type 0} ⦃fl : Floating F⦄ where
  unfoldable pub new_processor : F → F → WaveProcessor F
  new_processor diameter max_torque = record {
    diameter = diameter;
    max_torque = max_torque;
    elevation_history = zero_f ∷ zero_f ∷ zero_f ∷ zero_f ∷ zero_f ∷ [];
    notch = record { notch_x1 = zero_f; notch_x2 = zero_f; notch_y1 = zero_f; notch_y2 = zero_f };
  }

  -- The forecast, and the shifted history.
  unfoldable pub execute_feature_40_ar_filter : MathLib F → F → List F → F × List F
  execute_feature_40_ar_filter m raw_bow_reading history =
      let shifted = shift_in raw_bow_reading history in (m.dot ar_weights shifted, shifted)

  unfoldable pub execute_feature_41_ventilation_profile : MathLib F → F → F → F → F
  execute_feature_41_ventilation_profile m diameter predicted_stern_elevation nominal_depth =
      let absolute_submergence = fl.add nominal_depth predicted_stern_elevation in
      if fl.le diameter absolute_submergence
      then fl.lit 10 1
      else if fl.le absolute_submergence zero_f
      then fl.lit 5 2
      else m.square
          (m.sin (fl.mul (fl.div fl.pi (fl.lit 20 1)) (fl.div absolute_submergence diameter)))

  unfoldable pub execute_feature_42_torque_attenuation : MathLib F → F → F → F → F
  execute_feature_42_torque_attenuation m max_torque base_torque beta_v =
      clamp (fl.neg max_torque) max_torque
        (if fl.lt beta_v (fl.lit 90 2) then fl.mul base_torque (m.square beta_v) else base_torque)

  unfoldable pub wave_interlock : F → F → F → F → WaveInterlock F
  wave_interlock beta_v predicted_elevation safe_rudder rudder_in_deg = record {
    subsurface_aeration_warning = fl.lt beta_v (fl.lit 85 2);
    hydrodynamic_efficiency_multiplier = fl.round 3 beta_v;
    predicted_stern_swell_meters = fl.round 2 predicted_elevation;
    suggested_external_colregs_slew_rate_modifier = fl.round 2 (max_of (fl.lit 2 1) beta_v);
    wave_induced_rudder_torque_load_nm =
        fl.round 1 (fl.mul (fl.abs (fl.sub safe_rudder rudder_in_deg)) (fl.lit 31500 1));
  }

  -- `process_wave_matrix` where the three required keys are present.
  unfoldable pub wave_matrix :
      MathLib F → F → F → F → F → F → WaveProcessor F → WaveReport F × WaveProcessor F
  wave_matrix m raw_bow base_torque_nm rudder_in_deg nominal_shaft_depth dt p =
      let (predicted_elevation, history) =
        execute_feature_40_ar_filter m raw_bow p.elevation_history in
      let beta_v =
        execute_feature_41_ventilation_profile m p.diameter predicted_elevation
          nominal_shaft_depth in
      let safe_torque =
        execute_feature_42_torque_attenuation m p.max_torque base_torque_nm beta_v in
      let (safe_rudder, registers) = execute_notch_filter m rudder_in_deg dt p.notch in
      (
        record {
          command_motor_torque_nm = fl.round 1 safe_torque;
          command_rudder_angle_deg = fl.round 2 safe_rudder;
          internal_ventilation_index = fl.round 3 beta_v;
          upstream_autonomy_telemetry =
              wave_interlock beta_v predicted_elevation safe_rudder rudder_in_deg;
        },
        record p { elevation_history = history; notch = registers },
      )

  -- `process_wave_matrix`, none where a key is missing: KeyError, before anything has changed.
  unfoldable pub process_wave_matrix :
      MathLib F → WaveMetrics F → F → WaveProcessor F → Option (WaveReport F × WaveProcessor F)
  process_wave_matrix m input_metrics dt p = input_metrics.bow_sensor_meters >>= λ raw_bow.
      input_metrics.nominal_calculated_torque_nm >>= λ base_torque_nm.
      input_metrics.unfiltered_rudder_deg >>= λ rudder_in_deg. some (
        wave_matrix m raw_bow base_torque_nm rudder_in_deg
          (or_default input_metrics.nominal_shaft_depth_meters (fl.lit 40 1)) dt p)
