-- ===== src/Engine/Limits.antt =====
-- The limits of what the bridge engine commands.
use univac.Base.{ℕ, ◌≡◌, ◌≤◌, refl, ap, ◌∙◌, true, Option, some, List, [], ◌∷◌, arith}
use univac.Text.{Text, codes}
use univac.Floats.{Floating, FloatLaws, clamp, clamp_bounds}
use univac.Floats.Math.{MathLib, MathLaws}
use univac.Config.Profile.{lookup, ConfigFile, load_system_specifications, within}
use univac.Config.Loading.{IsSound, load_system_specifications-IsSound}
use univac.Serializers.Actuator.{EngineOutput}
use univac.Engine.Bridge.{
  Vessel, NotchRegisters, BridgeEngine, BridgeTargets, BridgeTelemetry, vessel_of, new_engine,
  execute_notch_filter, as_omega, zero_f,
}
use univac.Engine.Loop.{
  Cycle, current_rpm_of, propulsion, rudder_cap, steering_gear, execute_bridge_loop, run_cycles,
}

module _ {F : Type 0} ⦃fl : Floating F⦄ (laws : FloatLaws fl) (m : MathLib F)
    (mlaws : MathLaws fl m) where
  -- -b <= x <= b
  abbrev pub Between : F → F → F → Type 0
  Between lo hi x = (fl.le lo x ≡ true) × (fl.le x hi ≡ true)

  cap_unit :
      (v : Vessel F) (omega : F)
      → fl.le zero_f v.max_rudder_deg ≡ true
      → fl.le v.max_rudder_deg (fl.lit 5000000 1) ≡ true
      → fl.le omega omega ≡ true
      → Between zero_f v.max_rudder_deg (rudder_cap m v omega)
  unfolding rudder_cap
  cap_unit v omega h k n =
      let (low, high) = mlaws.exp_unit _ (mlaws.neg_mul_abs omega n) in
      mlaws.mul_unit v.max_rudder_deg _ h k low high

  -- A clamp between a number and its negative.
  pub clamp_symmetric :
      (c x : F) → fl.le zero_f c ≡ true → Between (fl.neg c) c (clamp (fl.neg c) c x)
  clamp_symmetric c x h =
      let (zero_self, self) = mlaws.le_self zero_f c h in
      clamp_bounds laws (fl.neg c) c x (mlaws.neg_antitone c c self) self (mlaws.neg_le c h)

  steering_gear-Between :
      (v : Vessel F) (order omega dt : F) (r : NotchRegisters F)
      → fl.le zero_f v.max_rudder_deg ≡ true
      → fl.le v.max_rudder_deg (fl.lit 5000000 1) ≡ true
      → fl.le omega omega ≡ true
      → Between (fl.neg v.max_rudder_deg) v.max_rudder_deg (steering_gear m v order omega dt r).0
  unfolding steering_gear
  steering_gear-Between v order omega dt r h k n =
      let cap = rudder_cap m v omega in
      let filtered = (execute_notch_filter m order dt r).0 in
      let (c0, c1) = cap_unit v omega h k n in
      let (low, high) = clamp_symmetric cap filtered c0 in
      (
        laws.le_trans _ _ _ (mlaws.neg_antitone cap v.max_rudder_deg c1) low,
        laws.le_trans _ _ _ high c1,
      )

  pub execute_bridge_loop-vessel :
      (t : BridgeTargets F) (tel : BridgeTelemetry F) (dt : F) (e : BridgeEngine F)
      → (execute_bridge_loop m t tel dt e).1.vessel ≡ e.vessel
  unfolding execute_bridge_loop
  execute_bridge_loop-vessel t tel dt e = refl

  run_cycles-vessel :
      (l : List (Cycle F)) (e : BridgeEngine F) → (run_cycles m l e).vessel ≡ e.vessel
  run_cycles-vessel [] e = refl
  run_cycles-vessel (c ∷ l) e =
      run_cycles-vessel l (execute_bridge_loop m c.targets c.telemetry c.dt e).1
      ∙ execute_bridge_loop-vessel c.targets c.telemetry c.dt e

  -- A command on the wire side: rounded, between the rounded limits.
  abbrev pub CommandWithin : ℕ → F → Option F → Type 0
  CommandWithin k limit o =
      (x : F) × (o ≡ some x) × Between (fl.round k (fl.neg limit)) (fl.round k limit) x

  pub rounded :
      (k : ℕ) (limit x : F)
      → Between (fl.neg limit) limit x
      → Between (fl.round k (fl.neg limit)) (fl.round k limit) (fl.round k x)
  rounded k limit x (low, high) = (mlaws.round_mono k _ _ low, mlaws.round_mono k _ _ high)

  -- The two limits of a profile.
  abbrev pub WithinProfile : List (Text × F) → EngineOutput F → Type 0
  WithinProfile p out =
      (rudder : F) × (torque : F) × (lookup (codes "max_rudder_deg") p ≡ some rudder)
      × (lookup (codes "max_torque") p ≡ some torque)
      × CommandWithin 2 rudder out.command_rudder_angle_deg
      × CommandWithin 1 torque out.command_motor_torque_nm

  propulsion-Between :
      (max_torque integral beta_v dt err : F)
      → fl.le zero_f max_torque ≡ true
      → Between
          (fl.neg max_torque)
          max_torque
          (propulsion max_torque integral beta_v dt err).final_motor_torque
  unfolding propulsion
  propulsion-Between max_torque integral beta_v dt err h = clamp_symmetric max_torque _ h

  vessel_of-limits :
      (p : List (Text × F)) (rudder torque : F)
      → lookup (codes "max_rudder_deg") p ≡ some rudder
      → lookup (codes "max_torque") p ≡ some torque
      → ((vessel_of p).max_rudder_deg ≡ rudder) × ((vessel_of p).max_torque ≡ torque)
  unfolding vessel_of
  vessel_of-limits p rudder torque h k = (rw h refl, rw k refl)

  execute-Between :
      (t : BridgeTargets F) (tel : BridgeTelemetry F) (dt : F) (e : BridgeEngine F)
      → fl.le zero_f e.vessel.max_rudder_deg ≡ true
      → fl.le e.vessel.max_rudder_deg (fl.lit 5000000 1) ≡ true
      → fl.le zero_f e.vessel.max_torque ≡ true
      → fl.le (as_omega (current_rpm_of e tel)) (as_omega (current_rpm_of e tel)) ≡ true
      → let out = (execute_bridge_loop m t tel dt e).0 in
        CommandWithin 2 e.vessel.max_rudder_deg out.command_rudder_angle_deg
        × CommandWithin 1 e.vessel.max_torque out.command_motor_torque_nm
  unfolding execute_bridge_loop
  execute-Between t tel dt e h k l n = (
    (_, refl, rounded 2 _ _ (steering_gear-Between e.vessel _ _ dt e.notch h k n)),
    (_, refl, rounded 1 _ _ (propulsion-Between e.vessel.max_torque _ _ dt _ l)),
  )

  pub new_engine-vessel : (p : List (Text × F)) → (new_engine p).vessel ≡ vessel_of p
  unfolding new_engine
  new_engine-vessel p = refl

  -- A number of the profile between two literals.
  literal_bounds :
      (a b : ℕ) (x : F)
      → within (fl.lit a 1) (fl.lit b 1) x ≡ true
      → b ≤ 5000000
      → (fl.le zero_f x ≡ true) × (fl.le x (fl.lit 5000000 1) ≡ true)
  literal_bounds a b x h k = ground (
    arith,
    laws.lit_mono 0 a 1,
    laws.lit_mono b 5000000 1,
    laws.le_trans zero_f (fl.lit a 1) x,
    laws.le_trans x (fl.lit b 1) (fl.lit 5000000 1),
  )

  pub limits-WithinProfile :
      (p : List (Text × F)) (t : BridgeTargets F) (tel : BridgeTelemetry F) (dt : F)
      (e : BridgeEngine F)
      → IsSound p
      → e.vessel ≡ vessel_of p
      → fl.le (as_omega (current_rpm_of e tel)) (as_omega (current_rpm_of e tel)) ≡ true
      → WithinProfile p (execute_bridge_loop m t tel dt e).0
  limits-WithinProfile p t tel dt e (diameter, draft, (r, has_r, in_r), (q, has_q, in_q), keys) v
        n =
      let (is_r, is_q) = vessel_of-limits p r q has_r has_q in
      let same_r : e.vessel.max_rudder_deg ≡ r = ap (λ w. w.max_rudder_deg) v ∙ is_r in
      let same_q : e.vessel.max_torque ≡ q = ap (λ w. w.max_torque) v ∙ is_q in
      let (r0, r1) = literal_bounds 50 700 r in_r (omega arith) in
      let (q0, q1) = literal_bounds 1000 5000000 q in_q (omega arith) in
      let (rudder, torque) =
        execute-Between t tel dt e (rw same_r r0) (rw same_r r1) (rw same_q q0) n in
      (r, q, has_r, has_q, rw (← same_r) rudder, rw (← same_q) torque)

  -- On any profile that the loader answers, behind any cycles, and for any targets and telemetry
  -- in which the shaft's speed is a number: the commanded rudder lies between the rounded negative
  -- and positive rudder stop of the profile, and the commanded torque between its rounded torque
  -- limits.
  pub execute_bridge_loop-WithinProfile :
      (file : ConfigFile F) (p : List (Text × F)) (l : List (Cycle F)) (c : Cycle F)
      → load_system_specifications file ≡ some p
      → let e = run_cycles m l (new_engine p) in
        fl.le (as_omega (current_rpm_of e c.telemetry)) (as_omega (current_rpm_of e c.telemetry))
          ≡ true
        → WithinProfile p (execute_bridge_loop m c.targets c.telemetry c.dt e).0
  execute_bridge_loop-WithinProfile file p l c h n =
      limits-WithinProfile p c.targets c.telemetry c.dt (run_cycles m l (new_engine p))
        (load_system_specifications-IsSound laws file p h)
        (run_cycles-vessel l (new_engine p) ∙ new_engine-vessel p) n
