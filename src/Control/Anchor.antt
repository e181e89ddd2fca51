-- ===== src/Control/Anchor.antt =====
-- control_core/anchor_interlock_subroutine.py: the anchor is locked while the weapons are awake, and
-- until the Navy releases it.
use univac.Base.{
  ℕ, ◌≡◌, ◌↔◌, refl, Bool, true, false, not, ◌&&◌, ◌||◌, Option, List, [], ◌∷◌, ◌++◌, arith,
  or_default, if◌then◌else◌, Bool-cases, inl, inr, ap, sym, ◌∙◌,
}
use univac.Floats.{Floating}

-- The strings of `anchor_state`; "RETRACTING" is never assigned.
pub data AnchorState : Type 0 where
  released locked_emergency : AnchorState

pub data AnchorMessage : Type 0 where
  weapons_awake_forced_locked navy_override_released : AnchorMessage
  awaiting_manual_navy_unlock sea_machines_loop_active : AnchorMessage

pub record WeaponMetrics (F : Type 0) : Type 0 where
  pub azimuth_rate_rads : Option F
  pub elevation_rate_rads : Option F
  pub bus_sync_active : Option Bool
  pub engagement_sequence_active : Option Bool

pub record AnchorInterlock : Type 0 where
  pub anchor_state : AnchorState
  pub navy_manual_override_unlocked : Bool

pub record AnchorAnswer : Type 0 where
  pub anchor_lock_state : AnchorState
  pub command_windlass_clutch_engage : ℕ
  pub command_brake_solenoid_lock : ℕ
  pub sea_machines_anchor_authority_allowed : Bool
  pub telemetry_status_message : AnchorMessage

unfoldable pub new_interlock : AnchorInterlock
new_interlock = record { anchor_state = released; navy_manual_override_unlocked = true }

abbrev pub is_locked : AnchorState → Bool
is_locked released = false
is_locked locked_emergency = true

-- The end of the handler: the new state and the answer.
abbrev pub anchor_step :
    Bool → AnchorState → ℕ → ℕ → AnchorMessage → Bool → AnchorInterlock × AnchorAnswer
anchor_step unlock state clutch solenoid message allowed = (
  record { anchor_state = state; navy_manual_override_unlocked = unlock },
  record {
    anchor_lock_state = state;
    command_windlass_clutch_engage = clutch;
    command_brake_solenoid_lock = solenoid;
    sea_machines_anchor_authority_allowed = allowed;
    telemetry_status_message = message;
  },
)

module _ {F : Type 0} ⦃fl : Floating F⦄ where
  unfoldable pub weapon_is_awake : WeaponMetrics F → Bool
  weapon_is_awake w =
      let az_rate = fl.abs (or_default w.azimuth_rate_rads (fl.lit 0 1)) in
      let el_rate = fl.abs (or_default w.elevation_rate_rads (fl.lit 0 1)) in
      let firing_active =
        or_default w.bus_sync_active false || or_default w.engagement_sequence_active false in
      fl.lt (fl.lit 2 2) az_rate || fl.lt (fl.lit 2 2) el_rate || firing_active

  unfoldable pub evaluate_anchor_safety_matrix :
      WeaponMetrics F → Bool → AnchorInterlock → AnchorInterlock × AnchorAnswer
  unfolding weapon_is_awake
  evaluate_anchor_safety_matrix weapon_metrics user_override_unlock s =
      if weapon_is_awake weapon_metrics
      then anchor_step user_override_unlock locked_emergency 1 1 weapons_awake_forced_locked false
      else if is_locked s.anchor_state
      then if user_override_unlock
        then anchor_step user_override_unlock released 0 0 navy_override_released true
        else anchor_step user_override_unlock locked_emergency 1 1 awaiting_manual_navy_unlock false
      else anchor_step user_override_unlock released 0 0 sea_machines_loop_active true

  -- A run of evaluations, each with the unlock that the user gave.
  abbrev pub evaluate_all : List (WeaponMetrics F × Bool) → AnchorInterlock → AnchorInterlock
  evaluate_all [] s = s
  evaluate_all ((w, unlock) ∷ l) s = evaluate_all l (evaluate_anchor_safety_matrix w unlock s).0

  -- The reference: the weapons were awake, and no evaluation since then found them asleep with
  -- the unlock given. The argument says whether this held before the run.
  abbrev pub held : Bool → List (WeaponMetrics F × Bool) → Bool
  held before [] = before
  held before ((w, unlock) ∷ l) = held (weapon_is_awake w || before && not unlock) l

  evaluate-held :
      (w : WeaponMetrics F) (unlock : Bool) (s : AnchorInterlock)
      → is_locked (evaluate_anchor_safety_matrix w unlock s).0.anchor_state
        ≡ (weapon_is_awake w || is_locked s.anchor_state && not unlock)
  unfolding evaluate_anchor_safety_matrix
  evaluate-held w unlock s = elim (Bool-cases (weapon_is_awake w)) [
    | inl e ↦ simp e
    | inr e ↦ simp e (ground arith)
  ]

  evaluate_all-held :
      (l : List (WeaponMetrics F × Bool)) (s : AnchorInterlock)
      → is_locked (evaluate_all l s).anchor_state ≡ held (is_locked s.anchor_state) l
  evaluate_all-held [] s = refl
  evaluate_all-held ((w, unlock) ∷ l) s =
      evaluate_all-held l (evaluate_anchor_safety_matrix w unlock s).0
      ∙ ap (λ b. held b l) (evaluate-held w unlock s)

  answer_lem :
      (w : WeaponMetrics F) (unlock : Bool) (s : AnchorInterlock)
      → let (s', out) = evaluate_anchor_safety_matrix w unlock s in
        (out.anchor_lock_state ≡ s'.anchor_state)
        × (out.sea_machines_anchor_authority_allowed ≡ not (is_locked s'.anchor_state))
        × ((out.command_windlass_clutch_engage ≡ 1) ↔ (is_locked s'.anchor_state ≡ true))
        × ((out.command_brake_solenoid_lock ≡ 1) ↔ (is_locked s'.anchor_state ≡ true))
  unfolding evaluate_anchor_safety_matrix
  answer_lem w unlock s = elim (Bool-cases (weapon_is_awake w)) [
    | inl e ↦ simp e (ground arith)
    | inr e ↦ simp e (ground arith)
  ]

  held_last :
      (before : Bool) (l : List (WeaponMetrics F × Bool)) (w : WeaponMetrics F) (unlock : Bool)
      → held before (l ++ ((w, unlock) ∷ [])) ≡ (weapon_is_awake w || held before l && not unlock)
  held_last before [] w unlock = refl
  held_last before ((v, b) ∷ l) w unlock =
      held_last (weapon_is_awake v || before && not b) l w unlock

  new_interlock-held :
      (l : List (WeaponMetrics F × Bool))
      → is_locked (evaluate_all l new_interlock).anchor_state ≡ held false l
  unfolding new_interlock
  new_interlock-held l = evaluate_all-held l new_interlock

  -- Over any run from the start on, the last evaluation grants Sea Machines the anchor exactly
  -- when the lock is not held: since the weapons were last awake, an evaluation found them asleep
  -- with the Navy's unlock. Clutch and brake are engaged exactly while the lock is held.
  pub anchor_authority_iff :
      (l : List (WeaponMetrics F × Bool)) (w : WeaponMetrics F) (unlock : Bool)
      → let lock = held false (l ++ ((w, unlock) ∷ [])) in
        let out = (evaluate_anchor_safety_matrix w unlock (evaluate_all l new_interlock)).1 in
        (out.sea_machines_anchor_authority_allowed ≡ not lock)
        × ((out.command_windlass_clutch_engage ≡ 1) ↔ (lock ≡ true))
        × ((out.command_brake_solenoid_lock ≡ 1) ↔ (lock ≡ true))
  anchor_authority_iff l w unlock =
      rw
        (
          held_last false l w unlock,
          sym (new_interlock-held l),
          sym (evaluate-held w unlock (evaluate_all l new_interlock)),
        )
        (
          (answer_lem w unlock (evaluate_all l new_interlock)).1,
          (answer_lem w unlock (evaluate_all l new_interlock)).2,
          (answer_lem w unlock (evaluate_all l new_interlock)).3,
        )
