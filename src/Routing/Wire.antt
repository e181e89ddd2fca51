-- ===== src/Routing/Wire.antt =====
-- What the router puts on the UDP wire.
use univac.Base.{
  ◌≡◌, refl, Bool, false, Option, none, some, List, [], ◌∷◌, ◌++◌, ◌&&◌, arith, inl, inr,
  Bool-cases,
}
use univac.Text.{Text}
use univac.Floats.{Floating, FloatLaws}
use univac.Serializers.Actuator.{EngineOutput, actuator_fields}
use univac.Serializers.Packets.{Reads, serialize_to_actuator_sentence-Reads}
use univac.Routing.Udp.{
  UdpInterface, datagram, network_tx_round, update_latest_commands, start_interface, stop_interface,
  new_interface,
}
use univac.Routing.Router.{
  Router, RouterEvent, serial_line, engine_output, feedback_line, sender_round, start_services,
  stop_services, write_live, new_bridge_router, ingest_raw_serial_line,
  route_calculated_loop_outputs, ingest_hardware_feedback_line, start_router_services,
  stop_router_services, router_step, router_sent, router_wire,
}

module _ {F : Type 0} ⦃fl : Floating F⦄ where
  -- Nothing is sent over a socket that is closed, and no call opens it again.
  abbrev pub IsClosed : Router F → Type 0
  IsClosed r = r.udp_interface.is_open ≡ false

  router_step-IsClosed :
      (e : RouterEvent F) (r : Router F) → IsClosed r → IsClosed (router_step e r)
  unfolding router_step ingest_raw_serial_line route_calculated_loop_outputs
      ingest_hardware_feedback_line start_router_services stop_router_services write_live
      update_latest_commands start_interface stop_interface
  router_step-IsClosed (serial_line raw now) r h = h
  router_step-IsClosed (engine_output out) r h = h
  router_step-IsClosed (feedback_line raw dt) r h = ground arith
  router_step-IsClosed (sender_round taken) r h = h
  router_step-IsClosed start_services r h = ground arith
  router_step-IsClosed stop_services r h = refl

  network_tx_round-closed :
      (taken : Bool) (u : UdpInterface F) → u.is_open ≡ false → network_tx_round taken u ≡ []
  unfolding network_tx_round
  network_tx_round-closed taken u h = ground arith

  router_sent-closed : (e : RouterEvent F) (r : Router F) → IsClosed r → router_sent e r ≡ []
  unfolding router_sent
  router_sent-closed (serial_line raw now) r h = refl
  router_sent-closed (engine_output out) r h = refl
  router_sent-closed (feedback_line raw dt) r h = refl
  router_sent-closed (sender_round taken) r h = network_tx_round-closed taken r.udp_interface h
  router_sent-closed start_services r h = refl
  router_sent-closed stop_services r h = refl

  closed_wire : (l : List (RouterEvent F)) (r : Router F) → IsClosed r → router_wire l r ≡ []
  closed_wire [] r h = refl
  closed_wire (e ∷ l) r h =
      rw (router_sent-closed e r h) (closed_wire l (router_step e r) (router_step-IsClosed e r h))

  stop_router_services-IsClosed : (r : Router F) → IsClosed (stop_router_services r)
  unfolding stop_router_services stop_interface
  stop_router_services-IsClosed r = refl

  -- Behind stop_router_services the router sends no datagram any more, whatever is called, a
  -- second start of the services included.
  pub stop_router_services-silent :
      (l : List (RouterEvent F)) (r : Router F) → router_wire l (stop_router_services r) ≡ []
  stop_router_services-silent l r =
      closed_wire l (stop_router_services r) (stop_router_services-IsClosed r)

  feedback-commands :
      (raw : Text) (dt : F) (r : Router F)
      → (ingest_hardware_feedback_line raw dt r).udp_interface ≡ r.udp_interface
  unfolding ingest_hardware_feedback_line write_live
  feedback-commands raw dt r = ground arith

  start-commands :
      (r : Router F)
      → (start_router_services r).udp_interface.latest_command_data
        ≡ r.udp_interface.latest_command_data
  unfolding start_router_services start_interface
  start-commands r = ground arith

  module _ (P : EngineOutput F → Type 0) where
    abbrev pub Routed : RouterEvent F → Type 0
    Routed (engine_output out) = P out
    Routed _ = Unit

    -- Every engine output that is routed has the property.
    abbrev pub AllRouted : List (RouterEvent F) → Type 0
    AllRouted [] = Unit
    AllRouted (e ∷ l) = Routed e × AllRouted l

    -- Every datagram is read as the fields of an output with the property.
    abbrev pub AllCommanded : List Text → Type 0
    AllCommanded [] = Unit
    AllCommanded (p ∷ ps) =
        ((out : EngineOutput F) × P out × Reads p (actuator_fields out)) × AllCommanded ps

    -- The same of the command that is waiting.
    abbrev pub Waiting : Option (EngineOutput F) → Type 0
    Waiting none = Unit
    Waiting (some out) = P out

    AllCommanded-append :
        (a b : List Text) → AllCommanded a → AllCommanded b → AllCommanded (a ++ b)
    AllCommanded-append [] b h k = k
    AllCommanded-append (p ∷ a) b (h, hs) k = (h, AllCommanded-append a b hs k)

    datagram-AllCommanded :
        (laws : FloatLaws fl) (o : Option (EngineOutput F)) → Waiting o → AllCommanded (datagram o)
    unfolding datagram
    datagram-AllCommanded laws none h = tt
    datagram-AllCommanded laws (some out) h =
        ((out, h, serialize_to_actuator_sentence-Reads laws out), tt)

    network_tx_round-AllCommanded :
        (laws : FloatLaws fl) (taken : Bool) (u : UdpInterface F)
        → Waiting u.latest_command_data
        → AllCommanded (network_tx_round taken u)
    unfolding network_tx_round
    network_tx_round-AllCommanded laws taken u h =
        elim (Bool-cases (u.is_running && (u.is_open && taken))) [
          | inl good ↦ rw good (datagram-AllCommanded laws u.latest_command_data h)
          | inr bad ↦ rw bad tt
        ]

    router_step-Waiting :
        (e : RouterEvent F) (r : Router F)
        → Routed e
        → Waiting r.udp_interface.latest_command_data
        → Waiting (router_step e r).udp_interface.latest_command_data
    unfolding router_step ingest_raw_serial_line route_calculated_loop_outputs stop_router_services
        update_latest_commands stop_interface
    router_step-Waiting (serial_line raw now) r g h = h
    router_step-Waiting (engine_output out) r g h = g
    router_step-Waiting (feedback_line raw dt) r g h = rw (feedback-commands raw dt r) h
    router_step-Waiting (sender_round taken) r g h = h
    router_step-Waiting start_services r g h = rw (start-commands r) h
    router_step-Waiting stop_services r g h = h

    router_sent-AllCommanded :
        (laws : FloatLaws fl) (e : RouterEvent F) (r : Router F)
        → Waiting r.udp_interface.latest_command_data
        → AllCommanded (router_sent e r)
    unfolding router_sent
    router_sent-AllCommanded laws (serial_line raw now) r h = tt
    router_sent-AllCommanded laws (engine_output out) r h = tt
    router_sent-AllCommanded laws (feedback_line raw dt) r h = tt
    router_sent-AllCommanded laws (sender_round taken) r h =
        network_tx_round-AllCommanded laws taken r.udp_interface h
    router_sent-AllCommanded laws start_services r h = tt
    router_sent-AllCommanded laws stop_services r h = tt

    router_wire-keeps :
        (laws : FloatLaws fl) (l : List (RouterEvent F)) (r : Router F)
        → AllRouted l
        → Waiting r.udp_interface.latest_command_data
        → AllCommanded (router_wire l r)
    router_wire-keeps laws [] r g h = tt
    router_wire-keeps laws (e ∷ l) r (g, gs) h =
        AllCommanded-append (router_sent e r) (router_wire l (router_step e r))
          (router_sent-AllCommanded laws e r h)
          (router_wire-keeps laws l (router_step e r) gs (router_step-Waiting e r g h))

    new_bridge_router-Waiting :
        (manufacturer_code : Text)
        → Waiting (new_bridge_router manufacturer_code).udp_interface.latest_command_data
    unfolding new_bridge_router new_interface
    new_bridge_router-Waiting manufacturer_code = tt

    -- From the start of a router on, over any calls and rounds: every datagram on the wire passes
    -- the checksum test and is read as the torque, rudder, cap and load of an engine output that
    -- was routed, so it has every property that all routed outputs have; before the first output
    -- nothing is sent.
    pub router_wire-AllCommanded :
        (laws : FloatLaws fl) (manufacturer_code : Text) (l : List (RouterEvent F))
        → AllRouted l
        → AllCommanded (router_wire l (new_bridge_router manufacturer_code))
    router_wire-AllCommanded laws manufacturer_code l g =
        router_wire-keeps laws l (new_bridge_router manufacturer_code) g
          (new_bridge_router-Waiting manufacturer_code)
