-- ===== src/Plant/Infrastructure.antt =====
-- control_core/base_infrastructure_core.py: who commands the shore plant, and the bounded state of
-- its actuators. `int(v)` of a relay's value is the integer itself; the time of a resolved step is
-- not modelled.
use univac.Base.{
  ℕ, ◌==◌, Bool, true, false, not, Option, List, [], ◌∷◌, or_default, to_bit, if◌then◌else◌,
}
use univac.Base.Int.{ℤ, pos, negsuc}
use univac.Text.{Text, codes, strip, upper, equal, member}
use univac.Floats.{Floating, clamp}

-- The keys that are read of either dictionary of inputs.
pub record PlantInputs (F : Type 0) : Type 0 where
  pub crane_hoist_power : Option F
  pub crane_hook_lock : Option ℤ
  pub blast_door_actuator : Option ℤ
  pub substation_breaker : Option ℤ
  pub sump_pump_override : Option ℤ
  pub dehumidifier_setpoint : Option F
  pub climate_heating_valve : Option ℤ

-- `base_telemetry_cache`, which always holds all its keys.
pub record PlantCache (F : Type 0) : Type 0 where
  pub crane_hoist_power_pct : F
  pub crane_hook_lock_solenoid : ℕ
  pub blast_door_actuator_state : ℕ
  pub substation_breaker_relay : ℕ
  pub sump_pump_override_relay : ℕ
  pub hvac_dehumidifier_setpoint : F
  pub climate_heating_valve_open : ℕ

pub record Plant (F : Type 0) : Type 0 where
  pub active_routing_mode : Text
  pub base_telemetry_cache : PlantCache F
  pub last_update_time : F

pub data PlantSource : Type 0 where
  network_remote_console plant_mainframe_pass_through : PlantSource

pub record PlantReport (F : Type 0) : Type 0 where
  pub active_authority_mode : Text
  pub resolved_infrastructure_source : PlantSource
  pub dispatched_actuator_cache : PlantCache F

unfoldable pub routing_modes : List Text
routing_modes = codes "UNIVAC_DIRECT" ∷ codes "NETWORK_OVERRIDE" ∷ []

abbrev nonzero : ℤ → Bool
nonzero (pos n) = not (n == 0)
nonzero (negsuc n) = true

-- `1 if int(inputs.get(key, default)) != 0 else 0`
unfoldable pub relay : Option ℤ → ℕ → ℕ
relay v default = to_bit (nonzero (or_default v (pos default)))

module _ {F : Type 0} ⦃fl : Floating F⦄ where
  unfoldable pub new_plant : F → Plant F
  new_plant now = record {
    active_routing_mode = codes "UNIVAC_DIRECT";
    base_telemetry_cache = record {
      crane_hoist_power_pct = fl.lit 0 1;
      crane_hook_lock_solenoid = 1;
      blast_door_actuator_state = 0;
      substation_breaker_relay = 1;
      sump_pump_override_relay = 0;
      hvac_dehumidifier_setpoint = fl.lit 450 1;
      climate_heating_valve_open = 0;
    };
    last_update_time = now;
  }

  -- The bounded values of the source that has the authority.
  unfoldable pub resolve_inputs : PlantInputs F → PlantCache F
  resolve_inputs i = record {
    crane_hoist_power_pct =
        clamp (fl.neg (fl.lit 1000 1)) (fl.lit 1000 1)
          (or_default i.crane_hoist_power (fl.lit 0 1));
    crane_hook_lock_solenoid = relay i.crane_hook_lock 1;
    blast_door_actuator_state = relay i.blast_door_actuator 0;
    substation_breaker_relay = relay i.substation_breaker 1;
    sump_pump_override_relay = relay i.sump_pump_override 0;
    hvac_dehumidifier_setpoint =
        clamp (fl.lit 200 1) (fl.lit 850 1) (or_default i.dehumidifier_setpoint (fl.lit 450 1));
    climate_heating_valve_open = relay i.climate_heating_valve 0;
  }

  -- `set_base_routing_authority`: whether it was accepted, and the new state.
  unfoldable pub set_base_routing_authority : F → Text → Plant F → Bool × Plant F
  set_base_routing_authority now requested_mode p =
      let sanitized = strip (upper requested_mode) in
      if member sanitized routing_modes
      then if equal p.active_routing_mode sanitized
        then (true, p)
        else (true, record p { active_routing_mode = sanitized; last_update_time = now })
      else (false, p)

  unfoldable pub is_network : Plant F → Bool
  is_network p = equal p.active_routing_mode (codes "NETWORK_OVERRIDE")

  -- `execute_infrastructure_update_step`: the report, and the new state.
  unfoldable pub execute_infrastructure_update_step :
      PlantInputs F → PlantInputs F → Plant F → PlantReport F × Plant F
  execute_infrastructure_update_step network_commands legacy_mainframe_inputs p =
      let source = if is_network p then network_commands else legacy_mainframe_inputs in
      (
        record {
          active_authority_mode = p.active_routing_mode;
          resolved_infrastructure_source =
              if is_network p then network_remote_console else plant_mainframe_pass_through;
          dispatched_actuator_cache = resolve_inputs source;
        },
        record p { base_telemetry_cache = resolve_inputs source },
      )

  -- `get_infrastructure_snapshot`
  abbrev pub get_infrastructure_snapshot : Plant F → PlantCache F
  get_infrastructure_snapshot p = p.base_telemetry_cache

-- The calls, in the order in which they take the lock.
pub data PlantCall (F : Type 0) : Type 0 where
  request_mode : F → Text → PlantCall F
  update_step : PlantInputs F → PlantInputs F → PlantCall F

module _ {F : Type 0} ⦃fl : Floating F⦄ where
  unfoldable pub plant_call : PlantCall F → Plant F → Plant F
  plant_call (request_mode now mode) p = (set_base_routing_authority now mode p).1
  plant_call (update_step network mainframe) p =
      (execute_infrastructure_update_step network mainframe p).1

  abbrev pub plant_calls : List (PlantCall F) → Plant F → Plant F
  plant_calls [] p = p
  plant_calls (c ∷ l) p = plant_calls l (plant_call c p)
