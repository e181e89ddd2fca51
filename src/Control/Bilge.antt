-- ===== src/Control/Bilge.antt =====
-- control_core/bilge_gating_subroutine.py: the gate of overboard discharge.
use univac.Base.{
  ℕ, ◌≡◌, ◌↔◌, ◌⊎◌, inl, inr, Bool, true, false, not, ◌&&◌, ◌||◌, Option, arith, or_default,
  if◌then◌else◌, Bool-cases,
}
use univac.Floats.{Floating}

pub data ValveState : Type 0 where
  secured discharging_overboard recirculating_fault : ValveState

-- What `telemetry_log_message` says.
pub data BilgeMessage (F : Type 0) : Type 0 where
  pumping_inactive heavy_hull_sloshing : BilgeMessage F
  bilge_oil_critical discharging_clean_water : F → BilgeMessage F

pub record BilgeTelemetry (F : Type 0) : Type 0 where
  pub roll_rate_rads : Option F
  pub pitch_angle_rad : Option F
  pub bilge_pump_active_relay : Option Bool

pub record BilgeGate (F : Type 0) : Type 0 where
  pub ppm_limit : F
  pub valve_state : ValveState
  pub total_liters_discharged : F
  pub last_execution_time : F

pub record GateAnswer (F : Type 0) : Type 0 where
  pub gating_valve_state_string : ValveState
  pub actuator_overboard_valve_open : ℕ
  pub actuator_recirculation_valve_open : ℕ
  pub total_clean_water_discharged_liters : F
  pub telemetry_log_message : BilgeMessage F

module _ {F : Type 0} ⦃fl : Floating F⦄ where
  unfoldable pub new_gate : F → F → BilgeGate F
  new_gate critical_oil_threshold_ppm now = record {
    ppm_limit = critical_oil_threshold_ppm;
    valve_state = secured;
    total_liters_discharged = fl.lit 0 1;
    last_execution_time = now;
  }

  -- (roll_rate > 0.12) or (pitch_angle > 0.08)
  abbrev pub is_sloshing_severe : BilgeTelemetry F → Bool
  is_sloshing_severe t =
      fl.lt (fl.lit 12 2) (fl.abs (or_default t.roll_rate_rads (fl.lit 0 1)))
      || fl.lt (fl.lit 8 2) (fl.abs (or_default t.pitch_angle_rad (fl.lit 0 1)))

  abbrev pub pump_active : BilgeTelemetry F → Bool
  pump_active t = or_default t.bilge_pump_active_relay false

  -- The end of the handler: the new state and the answer.
  abbrev pub gate_step :
      BilgeGate F → F → ValveState → F → ℕ → ℕ → BilgeMessage F → BilgeGate F × GateAnswer F
  gate_step g now state total overboard recirc message = (
    record g { valve_state = state; total_liters_discharged = total; last_execution_time = now },
    record {
      gating_valve_state_string = state;
      actuator_overboard_valve_open = overboard;
      actuator_recirculation_valve_open = recirc;
      total_clean_water_discharged_liters = fl.round 1 total;
      telemetry_log_message = message;
    },
  )

  unfoldable pub evaluate_discharge_safety_matrix :
      F → BilgeTelemetry F → F → BilgeGate F → BilgeGate F × GateAnswer F
  evaluate_discharge_safety_matrix now t ocm_ppm_sensor g =
      let dt = fl.sub now g.last_execution_time in
      let total = g.total_liters_discharged in
      if not (pump_active t)
      then gate_step g now secured total 0 0 pumping_inactive
      else if fl.le g.ppm_limit ocm_ppm_sensor
      then gate_step g now recirculating_fault total 0 1 (bilge_oil_critical ocm_ppm_sensor)
      else if is_sloshing_severe t && fl.lt (fl.lit 80 1) ocm_ppm_sensor
      then gate_step g now recirculating_fault total 0 1 heavy_hull_sloshing
      else gate_step g now discharging_overboard (fl.add total (fl.mul (fl.lit 50 1) dt)) 1 0
          (discharging_clean_water ocm_ppm_sensor)

  -- Water goes overboard exactly when the pump runs, the oil is not at the limit, and either it is
  -- not over 8 PPM, or neither the roll rate is over 0.12 rad/s nor the pitch over 0.08 rad, either
  -- way. The other valve is open exactly when the pump runs and water does not go overboard, so
  -- that both are never open; the volume is counted only of water that went overboard.
  pub evaluate_discharge_safety_matrix_iff :
      (now : F) (t : BilgeTelemetry F) (ppm : F) (g : BilgeGate F)
      → let (g', out) = evaluate_discharge_safety_matrix now t ppm g in
        ((out.actuator_overboard_valve_open ≡ 1) ↔ (
          (or_default t.bilge_pump_active_relay false ≡ true)
          × (fl.le g.ppm_limit ppm ≡ false)
          × ((fl.lt (fl.lit 80 1) ppm ≡ false)
              ⊎ ((fl.lt (fl.lit 12 2) (fl.abs (or_default t.roll_rate_rads (fl.lit 0 1))) ≡ false)
                  × (fl.lt (fl.lit 8 2) (fl.abs (or_default t.pitch_angle_rad (fl.lit 0 1)))
                      ≡ false)))))
        × ((out.actuator_recirculation_valve_open ≡ 1) ↔ (
            (or_default t.bilge_pump_active_relay false ≡ true)
            × (out.actuator_overboard_valve_open ≡ 0)))
        × ((out.actuator_overboard_valve_open ≡ 1)
            ⊎ (g'.total_liters_discharged ≡ g.total_liters_discharged))
  unfolding evaluate_discharge_safety_matrix
  evaluate_discharge_safety_matrix_iff now t ppm g =
      let roll = fl.lt (fl.lit 12 2) (fl.abs (or_default t.roll_rate_rads (fl.lit 0 1))) in
      let pitch = fl.lt (fl.lit 8 2) (fl.abs (or_default t.pitch_angle_rad (fl.lit 0 1))) in
      elim (Bool-cases (pump_active t)) [
        | inr idle ↦ ground arith
        | inl running ↦ elim (Bool-cases roll) [
          | inl rolling ↦ ground arith
          | inr still ↦ elim (Bool-cases pitch) [
            | inl pitching ↦ ground arith
            | inr level ↦ ground arith
          ]
        ]
      ]
