-- ===== src/Plant/Jammer.antt =====
-- control_core/jammer_targeting_system.py: the cross bearing on a jammer, and the mounts that are
-- turned to it. `except ZeroDivisionError` is not modelled: the test in front of the division
-- excludes a denominator of zero.
use univac.Base.{Bool, false, List, [], ◌∷◌, some, map, if◌then◌else◌}
use univac.Text.{Text, codes}
use univac.Floats.{Floating}
use univac.Floats.Math.{MathLib}
use univac.Serializers.Weapon.{Allocation}

pub record JammerState (F : Type 0) : Type 0 where
  pub target_x : F
  pub target_y : F
  pub range_meters : F
  pub bearing_true_deg : F
  pub triangulation_valid : Bool

pub record JammerSystem (F : Type 0) : Type 0 where
  pub x_own : F
  pub y_own : F
  pub computed_jammer_state : JammerState F

-- The consort's position and bearing.
pub record PartnerTelemetry (F : Type 0) : Type 0 where
  pub x_m : F
  pub y_m : F
  pub strobe_deg : F

pub data MountAction : Type 0 where
  engage_jammer_suppression maintain_primary_mission_engagement : MountAction

pub data AllocationStatus : Type 0 where
  override_active nominal : AllocationStatus

pub record Mount (F : Type 0) : Type 0 where
  pub id : Text
  pub is_engaged : Bool
  pub current_azimuth : F

pub record MountCommand (F : Type 0) : Type 0 where
  pub mount : Text
  pub action : MountAction
  pub azimuth_deg : F
  pub range_m : F
  pub status : AllocationStatus

abbrev pub status_text : AllocationStatus → Text
status_text override_active = codes "OVERRIDE_ACTIVE"
status_text nominal = codes "NOMINAL"

module _ {F : Type 0} ⦃fl : Floating F⦄ where
  unfoldable pub jammer_system : F → F → JammerSystem F
  jammer_system own_ship_x own_ship_y = record {
    x_own = own_ship_x;
    y_own = own_ship_y;
    computed_jammer_state = record {
      target_x = fl.lit 0 1;
      target_y = fl.lit 0 1;
      range_meters = fl.lit 0 1;
      bearing_true_deg = fl.lit 0 1;
      triangulation_valid = false;
    };
  }

  -- The intersection of the two lines, with its range and bearing.
  unfoldable pub intersection :
      MathLib F → JammerSystem F → PartnerTelemetry F → F → F → JammerState F
  intersection m s partner tan_a tan_b =
      let xj =
        fl.div
          (fl.sub (fl.add (fl.sub partner.y_m s.y_own) (fl.mul s.x_own tan_a))
            (fl.mul partner.x_m tan_b))
          (fl.sub tan_a tan_b) in
      let yj = fl.add s.y_own (fl.mul (fl.sub xj s.x_own) tan_a) in
      let dx = fl.sub xj s.x_own in
      let dy = fl.sub yj s.y_own in
      let range_to_target = m.sqrt (fl.add (m.square dx) (m.square dy)) in
      record {
        target_x = xj;
        target_y = yj;
        range_meters = range_to_target;
        bearing_true_deg =
            fl.rem (fl.add (m.degrees (m.atan2 dx dy)) (fl.lit 3600 1)) (fl.lit 3600 1);
        triangulation_valid = fl.lt range_to_target (fl.lit 1500000 1);
      }

  unfoldable pub are_parallel : F → F → Bool
  are_parallel tan_a tan_b = fl.lt (fl.abs (fl.sub tan_a tan_b)) (fl.lit 1 3)

  -- `compute_jammer_location`; the answer is the new `computed_jammer_state`.
  unfoldable pub compute_jammer_location :
      MathLib F → F → PartnerTelemetry F → JammerSystem F → JammerSystem F
  compute_jammer_location m own_strobe_deg partner s =
      let tan_a = m.tan (fl.radians (fl.sub (fl.lit 900 1) own_strobe_deg)) in
      let tan_b = m.tan (fl.radians (fl.sub (fl.lit 900 1) partner.strobe_deg)) in
      record s {
        computed_jammer_state =
            if are_parallel tan_a tan_b
            then record s.computed_jammer_state { triangulation_valid = false }
            else intersection m s partner tan_a tan_b;
      }

  unfoldable pub mount_command : JammerState F → Mount F → MountCommand F
  mount_command j mount =
      if mount.is_engaged
      then record {
        mount = mount.id;
        action = maintain_primary_mission_engagement;
        azimuth_deg = mount.current_azimuth;
        range_m = fl.lit 0 1;
        status = nominal;
      }
      else record {
        mount = mount.id;
        action = engage_jammer_suppression;
        azimuth_deg = fl.round 2 j.bearing_true_deg;
        range_m = fl.round 1 j.range_meters;
        status = override_active;
      }

  -- `allocate_idle_weapons`
  unfoldable pub allocate_idle_weapons : JammerSystem F → List (Mount F) → List (MountCommand F)
  allocate_idle_weapons s available_mounts =
      if s.computed_jammer_state.triangulation_valid
      then map (mount_command s.computed_jammer_state) available_mounts
      else []

  -- The dictionary of a command, as the weapon serializer reads it.
  abbrev pub allocation_of : MountCommand F → Allocation F
  allocation_of c = record {
    mount_id = some c.mount;
    ordered_azimuth_deg = some c.azimuth_deg;
    target_range_meters = some c.range_m;
    allocation_status = some (status_text c.status);
  }

  -- Fixes with the consort, one after the other.
  abbrev pub locate_all :
      MathLib F → List (F × PartnerTelemetry F) → JammerSystem F → JammerSystem F
  locate_all m [] s = s
  locate_all m ((own, partner) ∷ l) s = locate_all m l (compute_jammer_location m own partner s)
