-- ===== src/Tests/Engine.antt =====
-- The control laws and the boot profile, with the numbers of Floats.Milli.
use univac.Base.{ℕ, ◌≡◌, ◌↔◌, refl, true, Option, none, some, List, [], ◌∷◌, ◌++◌, if◌then◌else◌}
use univac.Base.Int.{ℤ, pos, negsuc, neg_ℤ, ◌*ℤ◌, magnitude}
use univac.Text.{Text, codes, equal, contains, upper, upper_char}
use univac.Nmea.{is_field}
use univac.Floats.Milli.{milli, milli_laws}
use univac.Floats.MilliMath.{milli_math, milli_math_laws}
use univac.Config.Profile.{
  ConfigValue, config_number, config_string, file_missing, fallback_profile,
  load_system_specifications,
}
use univac.Config.Loading.{IsSound, load_system_specifications-IsSound}
use univac.Tcp.{
  JsonValue, JsonPayload, json_number, json_object, initial_session, receive_all, rpm_in_range,
}
use univac.Routing.Router.{
  RouterEvent, start_services, sender_round, new_bridge_router, router_wire,
}
use univac.Routing.Wire.{AllCommanded}
use univac.Serializers.Actuator.{
  asymmetric_serializer, channel_fields, serialize_asymmetric_actuator_channels,
}
use univac.Serializers.Packets.{Reads}
use univac.Engine.Bridge.{BridgeTargets, BridgeTelemetry, new_engine}
use univac.Engine.Loop.{Cycle, execute_bridge_loop}
use univac.Engine.Limits.{WithinProfile, Between}
use univac.Engine.Wire.{bridge_events, bridge_wire-WithinProfile}
use univac.Engine.Ramp.{receive_all-execute_bridge_loop}
use univac.Engine.Stabilizer.{Stabilizer, RollTelemetry, DeckWeaponState, channels_of}
use univac.Engine.Firing.{stabilize, is_engaged, stabilizer_packets-Reads}

abbrev ahead : BridgeTargets ℤ
ahead = record { target_rpm = some (pos 300_000); target_yaw_rate = some (pos 20) }

abbrev at_sea : BridgeTelemetry ℤ
at_sea = record {
  rpm = some (pos 250_000);
  speed_ms = some (pos 7_000);
  gps_valid = none;
  latitude_rad = none;
  longitude_rad = none;
  depth = some (pos 40_000);
  bow_sensor_meters = none;
  yaw_rate_rads = some (pos 10);
  roll_rate_rads = none;
}

abbrev one_cycle : List (Cycle ℤ × List (RouterEvent ℤ))
one_cycle =
    (
      record { targets = ahead; telemetry = at_sea; dt = pos 20 },
      start_services ∷ sender_round true ∷ [],
    )
    ∷ []

bridge_wire-WithinProfile_example :
    AllCommanded (WithinProfile milli_laws milli_math milli_math_laws fallback_profile) (
      router_wire
        (bridge_events milli_math one_cycle (new_engine fallback_profile))
        (new_bridge_router (codes "UNVC")))
unfolding load_system_specifications ◌*ℤ◌ magnitude
bridge_wire-WithinProfile_example =
    bridge_wire-WithinProfile milli_laws milli_math milli_math_laws file_missing fallback_profile
      (codes "UNVC") one_cycle refl (((pos 250_000, refl, refl), (tt, (tt, tt)), tt))

load_system_specifications-IsSound_example : IsSound {F = ℤ} fallback_profile
unfolding load_system_specifications
load_system_specifications-IsSound_example =
    load_system_specifications-IsSound milli_laws file_missing fallback_profile refl

-- The beam is a text that is no number.
abbrev bad_beam : List (Text × ConfigValue ℤ)
bad_beam =
    (codes "diameter", config_number (pos 3_400))
    ∷ (codes "inertia_prop", config_number (pos 500_000))
    ∷ (codes "inertia_roll", config_number (pos 850_000))
    ∷ (codes "inertia_yaw", config_number (pos 4_500_000))
    ∷ (codes "draft", config_number (pos 6_500))
    ∷ (codes "rudder_arm_z", config_number (pos 2_800))
    ∷ (codes "max_torque", config_number (pos 90_000_000))
    ∷ (codes "max_rudder_deg", config_number (pos 35_000))
    ∷ (codes "hull_length", config_number (pos 45_000))
    ∷ (codes "beam", config_string (codes "wide"))
    ∷ []

abbrev order : List (Text × JsonValue ℤ)
order =
    (codes "rpm", json_number (pos 300_000)) ∷ (codes "target_yaw_rate", json_number (pos 20)) ∷ []

abbrev loads : Text → Option (JsonPayload ℤ)
loads t = if equal t (codes "ok") then some (json_object order) else none

abbrev chunks : List Text
chunks = codes "o" ∷ (codes "k" ++ (10 ∷ [])) ∷ []

-- The engine's target is what the client ordered.
abbrev ordered : BridgeTargets ℤ
ordered = record {
  target_rpm = some (receive_all loads chunks initial_session).setpoints.rpm;
  target_yaw_rate = none;
}

receive_all-execute_bridge_loop_example :
    (x : ℤ) × ((execute_bridge_loop milli_math ordered at_sea
        (pos 20)
        (new_engine fallback_profile)).0.active_rpm_cap
      ≡ some (milli.round 1 x))
    × (rpm_in_range x ≡ true)
receive_all-execute_bridge_loop_example =
    receive_all-execute_bridge_loop milli_laws milli_math loads chunks ordered at_sea (pos 20)
      (new_engine fallback_profile) refl

abbrev rolling : RollTelemetry ℤ
rolling = record {
  speed_ms = some (pos 7_200);
  yaw_rate_rads = some (pos 30);
  roll_angle_rad = some (negsuc 79);
  roll_rate_rads = some (pos 10);
}

abbrev engaged : DeckWeaponState ℤ
engaged = record {
  engagement_sequence_active = some true;
  target_elevation_deg = some (pos 35_000);
}

abbrev deck : Stabilizer ℤ
deck = record { max_actuator = pos 35_000; roll_history = pos 10 ∷ [] }

stabilizer_packets-Reads_example :
    let r = stabilize milli_math none rolling engaged deck in
    let x = asymmetric_serializer (codes "unvc") in
    let (port, stbd) = serialize_asymmetric_actuator_channels x (channels_of r) (pos 12_500) in
    let low = milli.round 2 (negsuc 34_999) in
    let limit = milli.round 2 (pos 35_000) in
    (bit : ℕ) × Reads port (channel_fields x.port_header r.port_actuator_deg (pos 12_500) bit)
    × Reads stbd (channel_fields x.stbd_header r.stbd_actuator_deg (pos 12_500) bit)
    × Between milli_laws milli_math milli_math_laws low limit r.port_actuator_deg
    × Between milli_laws milli_math milli_math_laws low limit r.stbd_actuator_deg
    × ((bit ≡ 1) ↔ (is_engaged engaged ≡ true))
unfolding neg_ℤ is_field contains asymmetric_serializer upper upper_char
stabilizer_packets-Reads_example =
    stabilizer_packets-Reads milli_laws milli_math milli_math_laws none rolling engaged deck
      (asymmetric_serializer (codes "unvc")) (pos 12_500) refl refl refl
