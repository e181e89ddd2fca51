-- ===== src/Routing/Router.antt =====
-- BridgeNetworkRouter. `parse_sentence` answers the parser's own dictionary, so after the first line
-- the router's live cache and the parser's cache are one object; before it the live cache is the
-- dictionary of the constructor. Both are modelled, with the reference that says which is live.
use univac.Base.{Bool, true, false, Option, none, some, List, [], ◌∷◌, ◌++◌, if◌then◌else◌}
use univac.Text.{Text, codes}
use univac.Floats.{Floating}
use univac.Serializers.Actuator.{
  EngineOutput, ActuatorSerializer, actuator_serializer, serialize_rudder_command,
  serialize_propulsion_command, rudder_of,
}
use univac.Feedback.{Receiver, initial, process_hardware_feedback}
use univac.Sensors.Instruments.{Instruments, new_instruments, parse_sentence}
use univac.Routing.Udp.{
  UdpInterface, new_interface, update_latest_commands, start_interface, stop_interface,
  network_tx_round,
}

-- The two entries that the router writes into the live cache; none and false while absent.
pub record RouterEntries (F : Type 0) : Type 0 where
  pub rudder_deg : Option F
  pub hardware_fault_triggered : Bool

pub data CacheRef : Type 0 where
  constructor_dictionary parser_dictionary : CacheRef

pub record Router (F : Type 0) : Type 0 where
  pub parser : Instruments F
  pub parser_entries : RouterEntries F
  pub constructor_entries : RouterEntries F
  pub live_telemetry_cache : CacheRef
  pub serializer : ActuatorSerializer
  pub receiver : Receiver F
  pub udp_interface : UdpInterface F
  pub latest_engine_commands : Option (EngineOutput F)
  pub is_active : Bool

-- A copy of the live cache: the instruments only once a line was parsed.
pub record Snapshot (F : Type 0) : Type 0 where
  pub instruments : Option (Instruments F)
  pub entries : RouterEntries F

-- The calls of the router, and the rounds of its sender thread.
pub data RouterEvent (F : Type 0) : Type 0 where
  serial_line : Text → F → RouterEvent F
  engine_output : EngineOutput F → RouterEvent F
  feedback_line : Text → F → RouterEvent F
  sender_round : Bool → RouterEvent F
  start_services stop_services : RouterEvent F

module _ {F : Type 0} where
  abbrev pub live_entries : Router F → RouterEntries F
  live_entries r = elim r.live_telemetry_cache [
    | constructor_dictionary ↦ r.constructor_entries
    | parser_dictionary ↦ r.parser_entries
  ]

  -- Writing the two entries into the dictionary that is live.
  unfoldable pub write_live : RouterEntries F → Router F → Router F
  write_live e r = elim r.live_telemetry_cache [
    | constructor_dictionary ↦ record r { constructor_entries = e }
    | parser_dictionary ↦ record r { parser_entries = e }
  ]

  -- `get_synchronized_telemetry`
  unfoldable pub get_synchronized_telemetry : Router F → Snapshot F
  get_synchronized_telemetry r = record {
    instruments = elim r.live_telemetry_cache [
      | constructor_dictionary ↦ none
      | parser_dictionary ↦ some r.parser
    ];
    entries = live_entries r;
  }

  unfoldable pub start_router_services : Router F → Router F
  start_router_services r =
      if r.is_active
      then r
      else record r { is_active = true; udp_interface = start_interface r.udp_interface }

  unfoldable pub stop_router_services : Router F → Router F
  stop_router_services r = record r {
    is_active = false;
    udp_interface = stop_interface r.udp_interface;
  }

module _ {F : Type 0} ⦃fl : Floating F⦄ where
  unfoldable pub new_bridge_router : Text → Router F
  new_bridge_router manufacturer_code = record {
    parser = new_instruments;
    parser_entries = record { rudder_deg = some (fl.lit 0 1); hardware_fault_triggered = false };
    constructor_entries = record { rudder_deg = none; hardware_fault_triggered = false };
    live_telemetry_cache = constructor_dictionary;
    serializer = actuator_serializer manufacturer_code;
    receiver = initial manufacturer_code;
    udp_interface = new_interface;
    latest_engine_commands = none;
    is_active = false;
  }

  unfoldable pub ingest_raw_serial_line : Text → F → Router F → Router F
  ingest_raw_serial_line raw_nmea_string current_time r = record r {
    parser = parse_sentence raw_nmea_string current_time r.parser;
    live_telemetry_cache = parser_dictionary;
  }

  -- `route_calculated_loop_outputs`: the two packets, and the new state.
  unfoldable pub route_calculated_loop_outputs :
      EngineOutput F → Router F → (Text × Text) × Router F
  route_calculated_loop_outputs out r = (
    (
      serialize_rudder_command r.serializer out (codes "STR"),
      serialize_propulsion_command r.serializer out (codes "PRP"),
    ),
    record r {
      latest_engine_commands = some out;
      udp_interface = update_latest_commands out r.udp_interface;
    },
  )

  -- self.latest_engine_commands.get('command_rudder_angle_deg', 0.0)
  unfoldable pub ordered_rudder : Router F → F
  ordered_rudder r = elim r.latest_engine_commands [ none ↦ fl.lit 0 1 | some out ↦ rudder_of out ]

  -- `ingest_hardware_feedback_line`; the report is the receiver's new status.
  unfoldable pub ingest_hardware_feedback_line : Text → F → Router F → Router F
  ingest_hardware_feedback_line raw_feedback_string dt r =
      let node = process_hardware_feedback r.receiver raw_feedback_string (ordered_rudder r) dt in
      let triggered =
        if node.latest_status.hardware_faults_active
        then true
        else (live_entries r).hardware_fault_triggered in
      write_live
        (record {
          rudder_deg = some node.latest_status.measured_rudder_deg;
          hardware_fault_triggered = triggered;
        })
        (record r { receiver = node })

  unfoldable pub router_step : RouterEvent F → Router F → Router F
  router_step (serial_line raw now) r = ingest_raw_serial_line raw now r
  router_step (engine_output out) r = (route_calculated_loop_outputs out r).1
  router_step (feedback_line raw dt) r = ingest_hardware_feedback_line raw dt r
  router_step (sender_round taken) r = r
  router_step start_services r = start_router_services r
  router_step stop_services r = stop_router_services r

  abbrev pub router_run : List (RouterEvent F) → Router F → Router F
  router_run [] r = r
  router_run (e ∷ l) r = router_run l (router_step e r)

  -- What a step puts on the UDP wire, and the wire of a run.
  unfoldable pub router_sent : RouterEvent F → Router F → List Text
  router_sent (sender_round taken) r = network_tx_round taken r.udp_interface
  router_sent _ r = []

  abbrev pub router_wire : List (RouterEvent F) → Router F → List Text
  router_wire [] r = []
  router_wire (e ∷ l) r = router_sent e r ++ router_wire l (router_step e r)
