-- ===== src/Plant/Facility.antt =====
-- The shore plant over any run of calls, and what its ledger is given.
use univac.Base.{
  ℕ, ◌≡◌, ◌≤◌, ◌⊎◌, inl, inr, refl, true, Option, some, List, [], ◌∷◌, arith, Bool-cases,
  or_default, if◌then◌else◌,
}
use univac.Text.{Text, codes, equal, member}
use univac.Text.Laws.{equal_iff}
use univac.Floats.{Floating, FloatLaws, clamp_bounds}
use univac.Ledger.Shore.{ActuatorCache, ShoreSnapshot, shore_snapshot}
use univac.Plant.Infrastructure.{
  PlantInputs, PlantCache, Plant, network_remote_console, plant_mainframe_pass_through, PlantReport,
  routing_modes, relay, new_plant, resolve_inputs, set_base_routing_authority, is_network,
  execute_infrastructure_update_step, PlantCall, request_mode, update_step, plant_call, plant_calls,
}
use univac.Base.Int.{ℤ}

relay_le : (v : Option ℤ) (d : ℕ) → relay v d ≤ 1
unfolding relay
relay_le v d = ground arith

module _ {F : Type 0} ⦃fl : Floating F⦄ where
  -- The limits of the machinery.
  abbrev pub WithinLimits : PlantCache F → Type 0
  WithinLimits c =
      (fl.le (fl.neg (fl.lit 1000 1)) c.crane_hoist_power_pct ≡ true)
      × (fl.le c.crane_hoist_power_pct (fl.lit 1000 1) ≡ true)
      × (fl.le (fl.lit 200 1) c.hvac_dehumidifier_setpoint ≡ true)
      × (fl.le c.hvac_dehumidifier_setpoint (fl.lit 850 1) ≡ true)
      × (c.crane_hook_lock_solenoid ≤ 1)
      × (c.blast_door_actuator_state ≤ 1)
      × (c.substation_breaker_relay ≤ 1)
      × (c.sump_pump_override_relay ≤ 1)
      × (c.climate_heating_valve_open ≤ 1)

  resolve_inputs-WithinLimits :
      (laws : FloatLaws fl) (i : PlantInputs F) → WithinLimits (resolve_inputs i)
  unfolding resolve_inputs
  resolve_inputs-WithinLimits laws i =
      let (c0, c1) =
        clamp_bounds laws (fl.neg (fl.lit 1000 1)) (fl.lit 1000 1)
          (or_default i.crane_hoist_power (fl.lit 0 1)) (laws.neg_lit_refl 1000 1)
          (laws.lit_mono 1000 1000 1 (omega arith)) (laws.neg_lit 1000 1000 1) in
      let (h0, h1) =
        clamp_bounds laws (fl.lit 200 1) (fl.lit 850 1)
          (or_default i.dehumidifier_setpoint (fl.lit 450 1))
          (laws.lit_mono 200 200 1 (omega arith)) (laws.lit_mono 850 850 1 (omega arith))
          (laws.lit_mono 200 850 1 (omega arith)) in
      (
        c0,
        c1,
        h0,
        h1,
        relay_le i.crane_hook_lock 1,
        relay_le i.blast_door_actuator 0,
        relay_le i.substation_breaker 1,
        relay_le i.sump_pump_override 0,
        relay_le i.climate_heating_valve 0,
      )

  new_plant-WithinLimits :
      (laws : FloatLaws fl) (now : F) → WithinLimits (new_plant now).base_telemetry_cache
  unfolding new_plant
  new_plant-WithinLimits laws now = (
    laws.neg_lit 1000 0 1,
    laws.lit_mono 0 1000 1 (omega arith),
    laws.lit_mono 200 450 1 (omega arith),
    laws.lit_mono 450 850 1 (omega arith),
    omega arith,
    omega arith,
    omega arith,
    omega arith,
    omega arith,
  )

  set_base_routing_authority-cache :
      (now : F) (mode : Text) (p : Plant F)
      → (set_base_routing_authority now mode p).1.base_telemetry_cache ≡ p.base_telemetry_cache
  unfolding set_base_routing_authority
  set_base_routing_authority-cache now mode p = ground arith

  plant_call-WithinLimits :
      (laws : FloatLaws fl) (c : PlantCall F) (p : Plant F)
      → WithinLimits p.base_telemetry_cache
      → WithinLimits (plant_call c p).base_telemetry_cache
  unfolding plant_call execute_infrastructure_update_step
  plant_call-WithinLimits laws (request_mode now mode) p h =
      rw (set_base_routing_authority-cache now mode p) h
  plant_call-WithinLimits laws (update_step n m) p h =
      resolve_inputs-WithinLimits laws (if is_network p then n else m)

  plant_calls-keeps :
      (laws : FloatLaws fl) (l : List (PlantCall F)) (p : Plant F)
      → WithinLimits p.base_telemetry_cache
      → WithinLimits (plant_calls l p).base_telemetry_cache
  plant_calls-keeps laws [] p h = h
  plant_calls-keeps laws (c ∷ l) p h =
      plant_calls-keeps laws l (plant_call c p) (plant_call-WithinLimits laws c p h)

  -- From the start on, whatever modes are requested and whatever either source commands, the
  -- cached crane power lies between -100 and 100 percent, the humidity between 20 and 85 percent,
  -- and each relay is 0 or 1.
  pub plant_calls-WithinLimits :
      (laws : FloatLaws fl) (now : F) (l : List (PlantCall F))
      → WithinLimits (plant_calls l (new_plant now)).base_telemetry_cache
  plant_calls-WithinLimits laws now l =
      plant_calls-keeps laws l (new_plant now) (new_plant-WithinLimits laws now)

  plant_call-member :
      (c : PlantCall F) (p : Plant F)
      → member p.active_routing_mode routing_modes ≡ true
      → member (plant_call c p).active_routing_mode routing_modes ≡ true
  unfolding plant_call set_base_routing_authority execute_infrastructure_update_step
  plant_call-member (request_mode now mode) p h = ground arith
  plant_call-member (update_step n m) p h = h

  plant_calls-member :
      (l : List (PlantCall F)) (p : Plant F)
      → member p.active_routing_mode routing_modes ≡ true
      → member (plant_calls l p).active_routing_mode routing_modes ≡ true
  plant_calls-member [] p h = h
  plant_calls-member (c ∷ l) p h = plant_calls-member l (plant_call c p) (plant_call-member c p h)

  new_plant-member : (now : F) → member (new_plant now).active_routing_mode routing_modes ≡ true
  unfolding new_plant routing_modes member equal
  new_plant-member now = refl

  -- The report and the ledger's dictionary of one step.
  abbrev pub dictionary_of : PlantCache F → ActuatorCache F
  dictionary_of c = record {
    crane_hoist_power_pct = some c.crane_hoist_power_pct;
    crane_hook_lock_solenoid = some c.crane_hook_lock_solenoid;
    blast_door_actuator_state = some c.blast_door_actuator_state;
    substation_breaker_relay = some c.substation_breaker_relay;
    sump_pump_override_relay = some c.sump_pump_override_relay;
    hvac_dehumidifier_setpoint = some c.hvac_dehumidifier_setpoint;
    climate_heating_valve_open = some c.climate_heating_valve_open;
  }

  -- What the audit logger queues of a report.
  abbrev pub ledger_entry : F → PlantReport F → ShoreSnapshot F
  ledger_entry now r =
      shore_snapshot now (some r.active_authority_mode)
        (some (dictionary_of r.dispatched_actuator_cache))

  -- The entry of the ledger names the mode and holds the bounded values of the source.
  abbrev pub Entered : ShoreSnapshot F → Text → PlantCache F → Type 0
  Entered e mode c =
      (e.mode ≡ mode)
      × (e.crane_pwr ≡ c.crane_hoist_power_pct)
      × (e.hook_locked ≡ c.crane_hook_lock_solenoid)
      × (e.door_state ≡ c.blast_door_actuator_state)
      × (e.breaker_state ≡ c.substation_breaker_relay)
      × (e.sump_state ≡ c.sump_pump_override_relay)
      × (e.hvac_humidity ≡ c.hvac_dehumidifier_setpoint)
      × (e.heat_valve ≡ c.climate_heating_valve_open)

  step-Entered :
      (t : F) (n m : PlantInputs F) (p : Plant F)
      → let (report, p') = execute_infrastructure_update_step n m p in
        Entered (ledger_entry t report) p.active_routing_mode p'.base_telemetry_cache
  unfolding execute_infrastructure_update_step shore_snapshot
  step-Entered t n m p = (refl, refl, refl, refl, refl, refl, refl, refl)

  -- The single source of a step.
  abbrev pub SingleSource : PlantInputs F → PlantInputs F → Plant F → Type 0
  SingleSource n m p =
      let (report, p') = execute_infrastructure_update_step n m p in
      ((p.active_routing_mode ≡ codes "NETWORK_OVERRIDE")
        × (report.resolved_infrastructure_source ≡ network_remote_console)
        × (p'.base_telemetry_cache ≡ resolve_inputs n))
      ⊎ ((p.active_routing_mode ≡ codes "UNIVAC_DIRECT")
          × (report.resolved_infrastructure_source ≡ plant_mainframe_pass_through)
          × (p'.base_telemetry_cache ≡ resolve_inputs m))

  member-SingleSource :
      (n m : PlantInputs F) (p : Plant F)
      → member p.active_routing_mode routing_modes ≡ true
      → SingleSource n m p
  unfolding execute_infrastructure_update_step is_network routing_modes member
  member-SingleSource n m p h =
      elim (Bool-cases (equal p.active_routing_mode (codes "NETWORK_OVERRIDE"))) [
        | inl net ↦ inl (
          (equal_iff p.active_routing_mode (codes "NETWORK_OVERRIDE")).0 net,
          rw net refl,
          rw net refl,
        )
        | inr other ↦ inr (
          (equal_iff p.active_routing_mode (codes "UNIVAC_DIRECT")).0 (ground arith),
          rw other refl,
          rw other refl,
        )
      ]

  -- Whatever was called before, a step obeys exactly one source, the network in the mode
  -- NETWORK_OVERRIDE and the mainframe in UNIVAC_DIRECT, and no third mode is reached; the entry
  -- that the audit ledger is given holds that mode and the actuators' new values.
  pub plant_calls-SingleSource :
      (now t : F) (l : List (PlantCall F)) (n m : PlantInputs F)
      → let p = plant_calls l (new_plant now) in
        let (report, p') = execute_infrastructure_update_step n m p in
        SingleSource n m p
        × Entered (ledger_entry t report) p.active_routing_mode p'.base_telemetry_cache
  plant_calls-SingleSource now t l n m =
      let p = plant_calls l (new_plant now) in
      (
        member-SingleSource n m p (plant_calls-member l (new_plant now) (new_plant-member now)),
        step-Entered t n m p,
      )
