-- ===== src/Engine/Wire.antt =====
-- The engine behind the router: every cycle's output is routed, and the sender thread runs between
-- the cycles.
use univac.Base.{◌≡◌, ◌∙◌, true, some, List, [], ◌∷◌, ◌++◌, arith}
use univac.Serializers.Actuator.{EngineOutput}
use univac.Text.{Text}
use univac.Floats.{Floating, FloatLaws}
use univac.Floats.Math.{MathLib, MathLaws}
use univac.Config.Profile.{ConfigFile, load_system_specifications}
use univac.Config.Loading.{IsSound, load_system_specifications-IsSound}
use univac.Routing.Router.{
  RouterEvent, engine_output, sender_round, serial_line, feedback_line, start_services,
  stop_services, new_bridge_router, router_wire,
}
use univac.Routing.Wire.{AllRouted, AllCommanded, router_wire-AllCommanded}
use univac.Engine.Bridge.{BridgeEngine, BridgeTelemetry, vessel_of, new_engine, as_omega}
use univac.Engine.Loop.{Cycle, current_rpm_of, execute_bridge_loop}
use univac.Engine.Limits.{
  WithinProfile, limits-WithinProfile, execute_bridge_loop-vessel, new_engine-vessel,
}

module _ {F : Type 0} ⦃fl : Floating F⦄ where
  -- What the router meets: the other calls in front of a cycle, and then its output.
  abbrev pub bridge_events :
      MathLib F → List (Cycle F × List (RouterEvent F)) → BridgeEngine F → List (RouterEvent F)
  bridge_events m [] e = []
  bridge_events m ((c, others) ∷ l) e =
      let (out, e') = execute_bridge_loop m c.targets c.telemetry c.dt e in
      engine_output out ∷ (others ++ bridge_events m l e')

  -- The telemetry gives the shaft's speed, as a number; the other calls are no engine outputs.
  abbrev pub AllNumbers : List (Cycle F × List (RouterEvent F)) → Type 0
  AllNumbers [] = Unit
  AllNumbers ((c, others) ∷ l) =
      ((rpm : F) × (c.telemetry.rpm ≡ some rpm) × (fl.le (as_omega rpm) (as_omega rpm) ≡ true))
      × AllRouted (λ out. ⊥) others
      × AllNumbers l

  AllRouted-append :
      (P : EngineOutput F → Type 0) (a b : List (RouterEvent F))
      → AllRouted (λ out. ⊥) a
      → AllRouted P b
      → AllRouted P (a ++ b)
  AllRouted-append P [] b h k = k
  AllRouted-append P (serial_line raw now ∷ a) b h k = (tt, AllRouted-append P a b h.1 k)
  AllRouted-append P (engine_output out ∷ a) b h k = elim h.0 [ ]
  AllRouted-append P (feedback_line raw dt ∷ a) b h k = (tt, AllRouted-append P a b h.1 k)
  AllRouted-append P (sender_round taken ∷ a) b h k = (tt, AllRouted-append P a b h.1 k)
  AllRouted-append P (start_services ∷ a) b h k = (tt, AllRouted-append P a b h.1 k)
  AllRouted-append P (stop_services ∷ a) b h k = (tt, AllRouted-append P a b h.1 k)

  current_rpm_given :
      (t : BridgeTelemetry F) (e : BridgeEngine F) (rpm : F)
      → t.rpm ≡ some rpm
      → fl.le (as_omega rpm) (as_omega rpm) ≡ true
      → fl.le (as_omega (current_rpm_of e t)) (as_omega (current_rpm_of e t)) ≡ true
  current_rpm_given t e rpm h k = ground arith

  bridge_events-WithinProfile :
      (laws : FloatLaws fl) (m : MathLib F) (mlaws : MathLaws fl m) (p : List (Text × F))
      (l : List (Cycle F × List (RouterEvent F))) (e : BridgeEngine F)
      → IsSound p
      → e.vessel ≡ vessel_of p
      → AllNumbers l
      → AllRouted (WithinProfile laws m mlaws p) (bridge_events m l e)
  bridge_events-WithinProfile laws m mlaws p [] e s v h = tt
  bridge_events-WithinProfile laws m mlaws p ((c, others) ∷ l) e s v
        ((rpm, given, number), no_output, hs) =
      let (out, e') = execute_bridge_loop m c.targets c.telemetry c.dt e in
      let n = current_rpm_given c.telemetry e rpm given number in
      (
        limits-WithinProfile laws m mlaws p c.targets c.telemetry c.dt e s v n,
        AllRouted-append (WithinProfile laws m mlaws p) others (bridge_events m l e') no_output (
            bridge_events-WithinProfile laws m mlaws p l e' s
              (execute_bridge_loop-vessel laws m mlaws c.targets c.telemetry c.dt e ∙ v) hs),
      )

  -- Whatever profile the loader answers: if the main loop routes the engine's output in every
  -- cycle, and between the cycles the router reads lines and feedback, sends, starts and stops in
  -- any order, then every datagram on the UDP wire passes the checksum test and carries a rudder
  -- and a torque within the profile's rounded limits. The shaft's speed is a number in every cycle.
  pub bridge_wire-WithinProfile :
      (laws : FloatLaws fl) (m : MathLib F) (mlaws : MathLaws fl m) (file : ConfigFile F)
      (p : List (Text × F)) (manufacturer_code : Text) (l : List (Cycle F × List (RouterEvent F)))
      → load_system_specifications file ≡ some p
      → AllNumbers l
      → AllCommanded
          (WithinProfile laws m mlaws p)
          (router_wire (bridge_events m l (new_engine p)) (new_bridge_router manufacturer_code))
  bridge_wire-WithinProfile laws m mlaws file p manufacturer_code l h k =
      router_wire-AllCommanded (WithinProfile laws m mlaws p) laws manufacturer_code
        (bridge_events m l (new_engine p))
        (bridge_events-WithinProfile laws m mlaws p l (new_engine p)
          (load_system_specifications-IsSound laws file p h) (new_engine-vessel laws m mlaws p) k)
