-- ===== src/Control/Authority.antt =====
-- control_core/bilge_authority_router.py: who commands the valves.
use univac.Base.{
  ℕ, ◌≡◌, ◌↔◌, ◌⊎◌, ◌≢◌, refl, Bool, true, false, Option, none, List, [], ◌∷◌, arith, or_default,
  if◌then◌else◌,
}
use univac.Text.{Text, codes, strip, upper, equal, member}
use univac.Text.Laws.{equal_iff}

-- The keys of a command vector.
pub record ValveCommands : Type 0 where
  pub actuator_overboard_valve_open : Option ℕ
  pub actuator_recirculation_valve_open : Option ℕ

pub record AuthorityRouter (F : Type 0) : Type 0 where
  pub active_authority_mode : Text
  pub last_mode_change_time : F

pub data RoutingSource : Type 0 where
  univac_mainframe_pass_through our_core_physics_loop : RoutingSource
  sea_machines_external_autonomy emergency_router_fallback_secured : RoutingSource

pub record Resolved : Type 0 where
  pub resolved_mode : Text
  pub routing_source_string : RoutingSource
  pub resolved_overboard_valve_open : ℕ
  pub resolved_recirculation_valve_open : ℕ

unfoldable pub allowed_modes : List Text
allowed_modes = codes "UNIVAC" ∷ codes "REPLACEMENT" ∷ codes "SEA_MACHINES" ∷ []

abbrev pub resolved_from : Text → RoutingSource → ValveCommands → Resolved
resolved_from mode source c = record {
  resolved_mode = mode;
  routing_source_string = source;
  resolved_overboard_valve_open = or_default c.actuator_overboard_valve_open 0;
  resolved_recirculation_valve_open = or_default c.actuator_recirculation_valve_open 0;
}

-- All valves closed.
abbrev pub no_commands : ValveCommands
no_commands = record {
  actuator_overboard_valve_open = none;
  actuator_recirculation_valve_open = none;
}

module _ {F : Type 0} where
  unfoldable pub new_router : F → AuthorityRouter F
  new_router now = record { active_authority_mode = codes "UNIVAC"; last_mode_change_time = now }

  -- `set_control_authority`: whether it was accepted, and the new state.
  unfoldable pub set_control_authority : F → Text → AuthorityRouter F → Bool × AuthorityRouter F
  set_control_authority now requested_mode r =
      let sanitized_mode = strip (upper requested_mode) in
      if member sanitized_mode allowed_modes
      then if equal r.active_authority_mode sanitized_mode
        then (true, r)
        else (true, record { active_authority_mode = sanitized_mode; last_mode_change_time = now })
      else (false, r)

  unfoldable pub resolve_final_actuator_commands :
      AuthorityRouter F → ValveCommands → ValveCommands → ValveCommands → Resolved
  resolve_final_actuator_commands r univac_pass_through our_physics_loop seamachines_input =
      let mode = r.active_authority_mode in
      if equal mode (codes "UNIVAC")
      then resolved_from mode univac_mainframe_pass_through univac_pass_through
      else if equal mode (codes "REPLACEMENT")
      then resolved_from mode our_core_physics_loop our_physics_loop
      else if equal mode (codes "SEA_MACHINES")
      then resolved_from mode sea_machines_external_autonomy seamachines_input
      else resolved_from mode emergency_router_fallback_secured no_commands

  -- A run of requests, each with its time.
  abbrev pub request_all : List (F × Text) → AuthorityRouter F → AuthorityRouter F
  request_all [] r = r
  request_all ((now, mode) ∷ l) r = request_all l (set_control_authority now mode r).1

  set_control_authority-member :
      (now : F) (requested_mode : Text) (r : AuthorityRouter F)
      → member r.active_authority_mode allowed_modes ≡ true
      → member (set_control_authority now requested_mode r).1.active_authority_mode allowed_modes
        ≡ true
  unfolding set_control_authority
  set_control_authority-member now requested_mode r h = ground arith

  request_all-member :
      (l : List (F × Text)) (r : AuthorityRouter F)
      → member r.active_authority_mode allowed_modes ≡ true
      → member (request_all l r).active_authority_mode allowed_modes ≡ true
  request_all-member [] r h = h
  request_all-member ((now, mode) ∷ l) r h =
      request_all-member l (set_control_authority now mode r).1
        (set_control_authority-member now mode r h)

  new_router-member : (now : F) → member (new_router now).active_authority_mode allowed_modes ≡ true
  unfolding new_router allowed_modes member equal
  new_router-member now = refl

  -- The valves follow the vector of the system that the mode names.
  abbrev pub Follows : AuthorityRouter F → ValveCommands → ValveCommands → ValveCommands → Type 0
  Follows r u o s =
      let mode = r.active_authority_mode in
      let answer = resolve_final_actuator_commands r u o s in
      ((mode ≡ codes "UNIVAC") × (answer ≡ resolved_from mode univac_mainframe_pass_through u))
      ⊎ ((mode ≡ codes "REPLACEMENT") × (answer ≡ resolved_from mode our_core_physics_loop o))
      ⊎ ((mode ≡ codes "SEA_MACHINES")
          × (answer ≡ resolved_from mode sea_machines_external_autonomy s))

  member-Follows :
      (r : AuthorityRouter F) (u o s : ValveCommands)
      → member r.active_authority_mode allowed_modes ≡ true
      → Follows r u o s
  unfolding resolve_final_actuator_commands allowed_modes member
  member-Follows r u o s h = ground (
    arith,
    (equal_iff r.active_authority_mode (codes "UNIVAC")).0,
    (equal_iff r.active_authority_mode (codes "REPLACEMENT")).0,
    (equal_iff r.active_authority_mode (codes "SEA_MACHINES")).0,
  )

  -- Whatever modes are requested from the start on, the valves follow exactly one of the three
  -- systems, the one that the mode names; the emergency branch is never taken.
  pub request_all-Follows :
      (now : F) (l : List (F × Text)) (u o s : ValveCommands)
      → Follows (request_all l (new_router now)) u o s
  request_all-Follows now l u o s =
      member-Follows (request_all l (new_router now)) u o s
        (request_all-member l (new_router now) (new_router-member now))

  -- A request is accepted exactly when it names a mode, in either case and with blanks around it.
  -- The mode then is that name, and else stays; the time of the last change moves only with the
  -- mode.
  pub set_control_authority_iff :
      (now : F) (requested_mode : Text) (r : AuthorityRouter F)
      → let (success, r') = set_control_authority now requested_mode r in
        let mode = strip (upper requested_mode) in
        ((success ≡ true) ↔ (member mode allowed_modes ≡ true))
        × (r'.active_authority_mode ≡ (if success then mode else r.active_authority_mode))
        × ((r' ≡ r)
            ⊎ ((r'.last_mode_change_time ≡ now)
                × (r.active_authority_mode ≢ r'.active_authority_mode)))
  unfolding set_control_authority
  set_control_authority_iff now requested_mode r = ground (
    arith,
    (equal_iff r.active_authority_mode (strip (upper requested_mode))).0,
    (equal_iff r.active_authority_mode (strip (upper requested_mode))).1,
  )
