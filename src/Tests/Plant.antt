-- ===== src/Tests/Plant.antt =====
-- The control core, the supervisors, the encoders and the parsers, with the numbers of Floats.Milli.
use univac.Base.{inl, ◌+◌, ◌*◌, ◌^◌, ◌≡◌, refl, Bool, true, false, none, some, [], ◌∷◌, arith}
use univac.Base.Int.{ℤ, pos, magnitude, ◌-ℤ◌}
use univac.Text.{codes, strip, strip_left, strip_right, is_space, upper, upper_char, equal, member}
use univac.Floats.Milli.{milli}
use univac.Control.Authority.{
  ValveCommands, no_commands, new_router, request_all, Follows, request_all-Follows,
}
use univac.Control.Bilge.{
  BilgeTelemetry, new_gate, evaluate_discharge_safety_matrix, evaluate_discharge_safety_matrix_iff,
}
use univac.Control.Anchor.{
  WeaponMetrics, new_interlock, weapon_is_awake, evaluate_anchor_safety_matrix,
  anchor_authority_iff,
}
use univac.Control.Flags.{ChannelTelemetry}
use univac.Control.Warnings.{HullTelemetry, WarningRegistry}
use univac.Watchdog.{has_key}
use univac.Watchdog.Threads.{poke_watchdog, start_watchdog, new_watchdog, watch, monitor_round}
use univac.Watchdog.Ledgers.{new_ledger_watchdog, ledger_step, log_write_success, checker_round}
use univac.Watchdog.Trips.{monitor_round_iff}
use univac.Watchdog.Backlog.{checker_round_iff}
use univac.Encoders.Gray.{decode_cray_gray_word}
use univac.Encoders.GrayRound.{gray_code, decode_cray_gray_word-gray_code}
use univac.Sensors.Encoder.{WeaponParser, new_weapon_parser}
use univac.Sensors.Instruments.{Instruments, new_instruments}

abbrev open_overboard : ValveCommands
open_overboard = record {
  actuator_overboard_valve_open = some 1;
  actuator_recirculation_valve_open = none;
}

request_all-Follows_example :
    Follows
      (request_all ((pos 1, codes "replacement ") ∷ []) (new_router (pos 0)))
      no_commands
      open_overboard
      no_commands
request_all-Follows_example =
    request_all-Follows (pos 0) ((pos 1, codes "replacement ") ∷ []) no_commands open_overboard
      no_commands

abbrev pumping : BilgeTelemetry ℤ
pumping = record {
  roll_rate_rads = some (pos 10);
  pitch_angle_rad = none;
  bilge_pump_active_relay = some true;
}

evaluate_discharge_safety_matrix_iff_example :
    (evaluate_discharge_safety_matrix
      (pos 1000)
      pumping
      (pos 3200)
      (new_gate (pos 14800) (pos 0))).1.actuator_overboard_valve_open
    ≡ 1
unfolding new_gate magnitude
evaluate_discharge_safety_matrix_iff_example =
    (evaluate_discharge_safety_matrix_iff (pos 1000) pumping (pos 3200)
        (new_gate (pos 14800) (pos 0))).0.1
      (refl, refl, inl refl)

abbrev mount : Bool → WeaponMetrics ℤ
mount sync = record {
  azimuth_rate_rads = none;
  elevation_rate_rads = none;
  bus_sync_active = some sync;
  engagement_sequence_active = none;
}

anchor_authority_iff_example :
    (evaluate_anchor_safety_matrix
      (mount false)
      false
      (evaluate_anchor_safety_matrix (mount true) true new_interlock).0
        ).1.sea_machines_anchor_authority_allowed
    ≡ false
unfolding weapon_is_awake magnitude
anchor_authority_iff_example =
    (anchor_authority_iff ((mount true, true) ∷ []) (mount false) false).0

abbrev narrows : ChannelTelemetry ℤ
narrows = record { distance_to_bank_meters = some (pos 5000); shallow_water_slowdown_active = none }

abbrev shoal : HullTelemetry ℤ
shoal = record {
  depth = some (pos 7000);
  computer_temperature_c = none;
  magazine_temperature_c = none;
  roll_angle_rad = none;
  distance_to_obstacle_meters = none;
  speed_ms = none;
}

abbrev registry : WarningRegistry ℤ
registry = record { draft = pos 6500; active_warning_mask = 0; fault_messages = [] }

monitor_round_iff_example :
    member
      (codes "MAIN_CORE_MATH")
      (monitor_round (pos 2500) (
        watch
          (start_watchdog (pos 100) ∷ poke_watchdog (codes "MAIN_CORE_MATH") (pos 900) ∷ [])
          (new_watchdog (pos 1000) (pos 0)))).tripped_subsystems
    ≡ true
unfolding new_watchdog has_key equal ◌-ℤ◌
monitor_round_iff_example =
    (monitor_round_iff (pos 1000) (pos 0) (pos 2500) (codes "MAIN_CORE_MATH")
      (start_watchdog (pos 100) ∷ poke_watchdog (codes "MAIN_CORE_MATH") (pos 900) ∷ []) refl).0

checker_round_iff_example :
    member
      (strip (upper (codes "flag_halyard_audit")))
      (checker_round (pos 9000) (
        ledger_step
          (log_write_success (codes "flag_halyard_audit") 501 (pos 8000))
          (new_ledger_watchdog (pos 2000) (pos 0)))).tripped_ledgers
    ≡ true
unfolding strip strip_left strip_right is_space upper upper_char new_ledger_watchdog has_key equal
    ◌-ℤ◌
checker_round_iff_example =
    checker_round_iff (pos 2000) (pos 0) (pos 8000) (pos 9000) (codes "flag_halyard_audit") 501 []
      refl

decode_cray_gray_word-gray_code_example :
    (decode_cray_gray_word {F = ℤ} ⦃fl = milli⦄ (gray_code 7 + 3 * 2 ^ 4) 4).decoded_binary_integer
    ≡ 7
decode_cray_gray_word-gray_code_example = decode_cray_gray_word-gray_code milli 4 7 3 (omega arith)

abbrev parser : WeaponParser ℤ
parser = new_weapon_parser

abbrev bridge : Instruments ℤ
bridge = new_instruments
