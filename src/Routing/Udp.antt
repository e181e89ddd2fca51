-- ===== src/Routing/Udp.antt =====
-- BridgeActuatorNetworkInterface: the latest commands, the sender thread's rounds, start and stop.
-- `latest_command_data` is none while it is the empty dictionary; the socket is the flag that it is
-- open. The pacing of the rounds is not modelled.
use univac.Base.{Bool, true, false, ◌&&◌, Option, none, some, List, [], ◌∷◌, if◌then◌else◌}
use univac.Text.{Text}
use univac.Floats.{Floating}
use univac.Serializers.Actuator.{EngineOutput, serialize_to_actuator_sentence}

pub record UdpInterface (F : Type 0) : Type 0 where
  pub is_running : Bool
  pub is_open : Bool
  pub latest_command_data : Option (EngineOutput F)

module _ {F : Type 0} where
  unfoldable pub new_interface : UdpInterface F
  new_interface = record { is_running = false; is_open = true; latest_command_data = none }

  unfoldable pub update_latest_commands : EngineOutput F → UdpInterface F → UdpInterface F
  update_latest_commands engine_output u = record u { latest_command_data = some engine_output }

  -- `start_interface` opens no new socket.
  unfoldable pub start_interface : UdpInterface F → UdpInterface F
  start_interface u = if u.is_running then u else record u { is_running = true }

  unfoldable pub stop_interface : UdpInterface F → UdpInterface F
  stop_interface u = record u { is_running = false; is_open = false }

module _ {F : Type 0} ⦃fl : Floating F⦄ where
  -- The datagram of a frame, if there is one.
  unfoldable pub datagram : Option (EngineOutput F) → List Text
  datagram none = []
  datagram (some current_frame) = serialize_to_actuator_sentence current_frame ∷ []

  -- One round of `_network_tx_loop`: what it puts on the wire. `sendto` raises on a closed socket
  -- and where the stack refuses; both are caught.
  unfoldable pub network_tx_round : Bool → UdpInterface F → List Text
  network_tx_round taken u =
      if u.is_running && (u.is_open && taken) then datagram u.latest_command_data else []
