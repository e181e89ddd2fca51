-- ===== src/Serializers/Actuator.antt =====
-- network_layer/actuator_serial_serializer.py, the sentence of bridge_network_interface.py, and
-- network_layer/asymmetric_network_serializer.py.
use univac.Base.{
  ℕ, Bool, true, false, Option, none, List, [], ◌∷◌, ◌++◌, take, or_default, to_bit, if◌then◌else◌,
}
use univac.Text.{Text, codes, upper}
use univac.Text.Decimal.{decimal}
use univac.Floats.{Floating}
use univac.Nmea.{frame, payload_of}

pub record InsightLink (F : Type 0) : Type 0 where
  pub structural_fatigue_load_percentage : Option F

pub record UpstreamTelemetry (F : Type 0) : Type 0 where
  pub water_insight_link : Option (InsightLink F)

-- The keys of the engine's output that the serializers read.
pub record EngineOutput (F : Type 0) : Type 0 where
  pub command_rudder_angle_deg : Option F
  pub command_motor_torque_nm : Option F
  pub active_rpm_cap : Option F
  pub telemetry_structural_load_pct : Option F
  pub upstream_autonomy_telemetry : Option (UpstreamTelemetry F)

-- ActuatorSerialOutputSerializer
pub record ActuatorSerializer : Type 0 where
  pub code : Text

unfoldable pub actuator_serializer : Text → ActuatorSerializer
actuator_serializer manufacturer_code = record { code = take 4 (upper manufacturer_code) }

-- The keys of the roll stabilizer's output that the two-channel serializer reads.
pub data TrackingMode : Type 0 where
  apex_combat_lock_active nominal_storm_damping other_mode : TrackingMode

pub record StabilizerOutput (F : Type 0) : Type 0 where
  pub command_port_actuator_deg : Option F
  pub command_stbd_actuator_deg : Option F
  pub stabilization_state : Option TrackingMode

-- AsymmetricNetworkSerializer
pub record AsymmetricSerializer : Type 0 where
  pub port_header : Text
  pub stbd_header : Text

unfoldable pub asymmetric_serializer : Text → AsymmetricSerializer
asymmetric_serializer prefix_manufacturer =
    let base_prefix = take 5 (upper prefix_manufacturer) in
    record { port_header = base_prefix ++ codes "PRT"; stbd_header = base_prefix ++ codes "STB" }

abbrev pub is_combat_lock : TrackingMode → Bool
is_combat_lock apex_combat_lock_active = true
is_combat_lock _ = false

-- `1 if tracking_mode == "APEX_COMBAT_LOCK_ACTIVE" else 0`
unfoldable pub combat_lock_bit : {F : Type 0} → StabilizerOutput F → ℕ
combat_lock_bit out =
    to_bit (is_combat_lock (or_default out.stabilization_state nominal_storm_damping))

module _ {F : Type 0} ⦃fl : Floating F⦄ where
  abbrev pub rudder_of : EngineOutput F → F
  rudder_of out = or_default out.command_rudder_angle_deg (fl.lit 0 1)

  unfoldable pub rudder_fields : ActuatorSerializer → EngineOutput F → Text → List Text
  rudder_fields s out message_type =
      let direction = if fl.le (fl.lit 0 0) (rudder_of out) then codes "R" else codes "L" in
      (codes "P" ++ (s.code ++ upper message_type))
      ∷ fl.fixed 2 (fl.abs (rudder_of out))
      ∷ direction
      ∷ fl.fixed 1 (fl.lit 150 1)
      ∷ []

  -- `serialize_rudder_command`
  unfoldable pub serialize_rudder_command : ActuatorSerializer → EngineOutput F → Text → Text
  serialize_rudder_command s out message_type =
      frame (payload_of (rudder_fields s out message_type))

  abbrev insight_of : EngineOutput F → InsightLink F
  insight_of out =
      let upstream : UpstreamTelemetry F =
        or_default out.upstream_autonomy_telemetry (record { water_insight_link = none }) in
      or_default upstream.water_insight_link (record { structural_fatigue_load_percentage = none })

  unfoldable pub propulsion_fields : ActuatorSerializer → EngineOutput F → Text → List Text
  propulsion_fields s out message_type =
      (codes "P" ++ (s.code ++ upper message_type))
      ∷ fl.fixed 1 (or_default out.command_motor_torque_nm (fl.lit 0 1))
      ∷ fl.fixed 1 (or_default out.active_rpm_cap (fl.lit 5500 1))
      ∷ fl.fixed 1 (or_default (insight_of out).structural_fatigue_load_percentage (fl.lit 0 1))
      ∷ []

  -- `serialize_propulsion_command`
  unfoldable pub serialize_propulsion_command : ActuatorSerializer → EngineOutput F → Text → Text
  serialize_propulsion_command s out message_type =
      frame (payload_of (propulsion_fields s out message_type))

  unfoldable pub actuator_fields : EngineOutput F → List Text
  actuator_fields out =
      codes "PVCMD"
      ∷ fl.fixed 1 (or_default out.command_motor_torque_nm (fl.lit 0 1))
      ∷ fl.fixed 2 (rudder_of out)
      ∷ fl.fixed 1 (or_default out.active_rpm_cap (fl.lit 0 1))
      ∷ fl.fixed 1 (or_default out.telemetry_structural_load_pct (fl.lit 0 1))
      ∷ []

  -- `serialize_to_actuator_sentence` of BridgeActuatorNetworkInterface
  unfoldable pub serialize_to_actuator_sentence : EngineOutput F → Text
  serialize_to_actuator_sentence out = frame (payload_of (actuator_fields out))

  unfoldable pub channel_fields : Text → F → F → ℕ → List Text
  channel_fields header angle depth_slew_cap combat_lock_bit =
      header ∷ fl.fixed 2 angle ∷ fl.fixed 1 depth_slew_cap ∷ decimal combat_lock_bit ∷ []

  -- `serialize_asymmetric_actuator_channels`
  unfoldable pub serialize_asymmetric_actuator_channels :
      AsymmetricSerializer → StabilizerOutput F → F → Text × Text
  serialize_asymmetric_actuator_channels s out depth_slew_cap =
      let port_angle = or_default out.command_port_actuator_deg (fl.lit 0 1) in
      let stbd_angle = or_default out.command_stbd_actuator_deg (fl.lit 0 1) in
      (
        frame (
            payload_of
              (channel_fields s.port_header port_angle depth_slew_cap (combat_lock_bit out))),
        frame (
            payload_of
              (channel_fields s.stbd_header stbd_angle depth_slew_cap (combat_lock_bit out))),
      )
