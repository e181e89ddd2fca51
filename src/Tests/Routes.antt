-- ===== src/Tests/Routes.antt =====
-- The router, the listener and the plant, with the numbers of Floats.Milli.
use univac.Base.{◌≡◌, refl, true, false, none, some, List, [], ◌∷◌, map}
use univac.Base.Int.{ℤ, pos, magnitude, neg_ℤ, ◌-ℤ◌}
use univac.Text.{
  Text, codes, contains, upper, upper_char, strip, strip_left, strip_right, is_space, split, equal,
}
use univac.Text.Hex.{hex02, hex_onto, hex_digit}
use univac.Text.Number.{int16, unsigned_hex, hex_digits, hex_digit_value}
use univac.Nmea.{is_field, frame, fields, validate_checksum, check_parts, checksum_of, xor_from}
use univac.Floats.Milli.{milli, milli_laws, read_number}
use univac.Floats.MilliMath.{milli_math}
use univac.Feedback.{
  initial, process_hardware_feedback, process_fields, use_feedback, read_feedback, track,
  decode_status_flags, flags_of, mask_faults,
}
use univac.Serializers.Actuator.{EngineOutput}
use univac.Serializers.Weapon.{weapon_serializer, serialize_jammer_suppression_commands}
use univac.Serializers.Weapons.{ReadsEach}
use univac.Routing.Router.{
  Router, RouterEvent, serial_line, engine_output, sender_round, start_services, new_bridge_router,
  ingest_raw_serial_line, ingest_hardware_feedback_line, ordered_rudder, router_run, router_step,
  start_router_services, router_wire, stop_router_services, get_synchronized_telemetry,
}
use univac.Routing.Udp.{start_interface}
use univac.Routing.Listener.{PortEvent, stop_close, port_check, port_round, open_failed, read_bytes}
use univac.Routing.Forward.{TimedRound}
use univac.Routing.Latch.{router_run-fault_latched, feedback_run, feedback_run-fault_dropped}
use univac.Routing.Wire.{stop_router_services-silent}
use univac.Plant.Infrastructure.{
  PlantInputs, PlantCall, request_mode, update_step, new_plant, plant_calls,
  execute_infrastructure_update_step,
}
use univac.Plant.Facility.{
  WithinLimits, plant_calls-WithinLimits, SingleSource, Entered, ledger_entry,
  plant_calls-SingleSource,
}
use univac.Plant.Jammer.{
  PartnerTelemetry, Mount, jammer_system, locate_all, allocate_idle_weapons, allocation_of,
}
use univac.Plant.Suppression.{InReach, turned, addressed, allocate_idle_weapons-Reads}
use univac.Sensors.Aviation.{new_aviation_bridge, ingest_aerospace}
use univac.Sensors.AviationFrames.{IsSynced, ingest_aerospace-IsSynced}

-- A feedback with the register 1: a pressure drop.
abbrev pressure_drop : Text
pressure_drop = frame (codes "PUNVCAK,0.0,0001,25.0")

abbrev depth_line : Text
depth_line = frame (codes "SDDBT,24.6,f,8.40,M,4.1,F")

abbrev router : Router ℤ
router = new_bridge_router (codes "UNVC")

abbrev linked : Router ℤ
linked = router_run (start_services ∷ []) (ingest_raw_serial_line depth_line (pos 1000) router)

abbrev later_on : List (RouterEvent ℤ)
later_on = serial_line depth_line (pos 2000) ∷ sender_round true ∷ []

pressure_drop_seen :
    (process_hardware_feedback linked.receiver pressure_drop
      (ordered_rudder linked)
      (pos 20)).latest_status.hardware_faults_active
    ≡ true
unfolding router_step start_router_services start_interface ingest_raw_serial_line new_bridge_router
    ordered_rudder initial process_hardware_feedback process_fields use_feedback read_feedback track
    decode_status_flags flags_of mask_faults int16 unsigned_hex hex_digits hex_digit_value
    validate_checksum check_parts checksum_of xor_from frame fields strip strip_left strip_right
    is_space contains split equal upper upper_char hex02 hex_onto hex_digit read_number magnitude
    neg_ℤ ◌-ℤ◌
pressure_drop_seen = refl

router_run-fault_latched_example :
    (get_synchronized_telemetry (
      router_run later_on (
        ingest_hardware_feedback_line pressure_drop
          (pos 20)
          linked))).entries.hardware_fault_triggered
    ≡ true
router_run-fault_latched_example =
    router_run-fault_latched router depth_line (pos 1000) (start_services ∷ []) later_on
      pressure_drop (pos 20) pressure_drop_seen

feedback_run-fault_dropped_example :
    let r : Router ℤ =
      ingest_raw_serial_line depth_line
        (pos 1000)
        (feedback_run ((pressure_drop, pos 20) ∷ []) (new_bridge_router (codes "UNVC"))) in
    ((get_synchronized_telemetry r).entries.hardware_fault_triggered ≡ false)
    × ((get_synchronized_telemetry r).entries.rudder_deg ≡ some (milli.lit 0 1))
feedback_run-fault_dropped_example =
    feedback_run-fault_dropped (codes "UNVC") ((pressure_drop, pos 20) ∷ []) depth_line (pos 1000)

abbrev halted : EngineOutput ℤ
halted = record {
  command_rudder_angle_deg = some (pos 0);
  command_motor_torque_nm = none;
  active_rpm_cap = none;
  telemetry_structural_load_pct = none;
  upstream_autonomy_telemetry = none;
}

stop_router_services-silent_example :
    router_wire
      (engine_output halted ∷ start_services ∷ sender_round true ∷ [])
      (stop_router_services linked)
    ≡ []
stop_router_services-silent_example =
    stop_router_services-silent (engine_output halted ∷ start_services ∷ sender_round true ∷ [])
      linked

-- The port opens at the second attempt; the line that the stop waits for comes late.
abbrev port_rounds : List (TimedRound ℤ)
port_rounds = (pos 0, open_failed) ∷ (pos 10, read_bytes depth_line) ∷ []

abbrev behind_stop : List (PortEvent ℤ)
behind_stop = port_round (pos 20) (read_bytes depth_line) ∷ port_check ∷ stop_close ∷ []

abbrev crane_down : PlantInputs ℤ
crane_down = record {
  crane_hoist_power = some (pos 250_000);
  crane_hook_lock = some (pos 7);
  blast_door_actuator = none;
  substation_breaker = none;
  sump_pump_override = none;
  dehumidifier_setpoint = some (pos 5_000);
  climate_heating_valve = none;
}

abbrev calls : List (PlantCall ℤ)
calls = request_mode (pos 5) (codes " network_override ") ∷ update_step crane_down crane_down ∷ []

plant_calls-WithinLimits_example :
    WithinLimits (plant_calls calls (new_plant (pos 0))).base_telemetry_cache
plant_calls-WithinLimits_example = plant_calls-WithinLimits milli_laws (pos 0) calls

plant_calls-SingleSource_example :
    let p = plant_calls calls (new_plant (pos 0)) in
    let (report, p') = execute_infrastructure_update_step crane_down crane_down p in
    SingleSource crane_down crane_down p
    × Entered (ledger_entry (pos 9) report) p.active_routing_mode p'.base_telemetry_cache
plant_calls-SingleSource_example =
    plant_calls-SingleSource (pos 0) (pos 9) calls crane_down crane_down

abbrev consort : PartnerTelemetry ℤ
consort = record { x_m = pos 15_000_000; y_m = pos 5_000_000; strobe_deg = pos 315_000 }

abbrev mounts : List (Mount ℤ)
mounts =
    record { id = codes "MAIN_5IN_MK45"; is_engaged = true; current_azimuth = pos 12_000 }
    ∷ record { id = codes "PORT_CIWS_MK15"; is_engaged = false; current_azimuth = pos 270_000 }
    ∷ []

allocate_idle_weapons-Reads_example :
    let s = weapon_serializer (codes "unvc") in
    let system =
      locate_all milli_math ((pos 45_000, consort) ∷ []) (jammer_system (pos 0) (pos 0)) in
    let j = system.computed_jammer_state in
    InReach j
    × ReadsEach
        (turned s j)
        (serialize_jammer_suppression_commands s
          (map allocation_of (allocate_idle_weapons system mounts)))
        (addressed j mounts)
unfolding weapon_serializer is_field contains upper upper_char
allocate_idle_weapons-Reads_example =
    allocate_idle_weapons-Reads milli_laws milli_math (pos 0) (pos 0) ((pos 45_000, consort) ∷ [])
      (weapon_serializer (codes "unvc")) mounts refl

abbrev fix_line : Text
fix_line = frame (codes "AVNC,38.9,-77.0,1200.0,1300.0,90.0,15.0,0000")

ingest_aerospace-IsSynced_example : IsSynced (
    ingest_aerospace milli_math
      ((fix_line, pos 1000) ∷ (codes "noise", pos 1100) ∷ [])
      (new_aviation_bridge (codes "avnc") (pos 0)))
ingest_aerospace-IsSynced_example =
    ingest_aerospace-IsSynced milli_math (codes "avnc") (pos 0)
      ((fix_line, pos 1000) ∷ (codes "noise", pos 1100) ∷ [])
