-- ===== src/Serializers/Weapon.antt =====
-- network_layer/weapon_serial_serializer.py and network_layer/shore_weapon_serializer.py.
use univac.Base.{
  ℕ, Bool, false, ◌&&◌, Option, List, [], ◌∷◌, ◌++◌, map, take, or_default, to_bit, if◌then◌else◌,
}
use univac.Text.{Text, codes, upper, equal}
use univac.Text.Decimal.{decimal}
use univac.Floats.{Floating}
use univac.Nmea.{frame, payload_of}

-- The keys of a row of the jammer engine's allocation.
pub record Allocation (F : Type 0) : Type 0 where
  pub mount_id : Option Text
  pub ordered_azimuth_deg : Option F
  pub target_range_meters : Option F
  pub allocation_status : Option Text

-- WeaponSerialOutputSerializer
pub record WeaponSerializer : Type 0 where
  pub prefix : Text

unfoldable pub weapon_serializer : Text → WeaponSerializer
weapon_serializer manufacturer_code = record {
  prefix = codes "P" ++ (take 4 (upper manufacturer_code) ++ codes "EW");
}

-- `self.mount_id_map.get(raw_id_string, 99)`
unfoldable pub mount_number : Text → ℕ
mount_number mount_id =
    if equal mount_id (codes "MAIN_5IN_MK45")
    then 1
    else if equal mount_id (codes "AUX_76MM_MK75")
    then 2
    else if equal mount_id (codes "PORT_CIWS_MK15")
    then 3
    else if equal mount_id (codes "STBD_CIWS_MK15")
    then 4
    else 99

-- The keys of the target buffer and of a shore weapon.
pub record TargetBuffer (F : Type 0) : Type 0 where
  pub target_bearing_deg : Option F
  pub current_elevation_deg : Option F
  pub is_target_locked : Option Bool

pub record ShoreWeapon : Type 0 where
  pub shore_station_id : Option Text
  pub umbilical_link_connected : Option Bool
  pub navy_combat_release_cleared : Option Bool

-- ShoreWeaponSystemSerializer
pub record ShoreSerializer : Type 0 where
  pub prefix : Text

unfoldable pub shore_serializer : Text → ShoreSerializer
shore_serializer prefix_code = record { prefix = take 5 (upper prefix_code) ++ codes "SHR" }

-- `self.shore_battery_catalog.get(raw_id_string, 999)`
unfoldable pub station_number : Text → ℕ
station_number station_id =
    if equal station_id (codes "SHORE_BATTERY_ALPHA")
    then 101
    else if equal station_id (codes "COASTAL_VLS_CELL_MATRIX")
    then 102
    else 999

module _ {F : Type 0} ⦃fl : Floating F⦄ where
  unfoldable pub allocation_fields : WeaponSerializer → Allocation F → List Text
  allocation_fields s alloc =
      let numeric_id = mount_number (or_default alloc.mount_id (codes "UNKNOWN")) in
      let status_flag = or_default alloc.allocation_status (codes "NOMINAL") in
      let override_bit = to_bit (equal status_flag (codes "OVERRIDE_ACTIVE")) in
      s.prefix
      ∷ decimal numeric_id
      ∷ fl.fixed 2 (or_default alloc.ordered_azimuth_deg (fl.lit 0 1))
      ∷ fl.fixed 1 (or_default alloc.target_range_meters (fl.lit 0 1))
      ∷ decimal override_bit
      ∷ []

  -- `serialize_jammer_suppression_commands`
  unfoldable pub serialize_jammer_suppression_commands :
      WeaponSerializer → List (Allocation F) → List Text
  serialize_jammer_suppression_commands s =
      map (λ alloc. frame (payload_of (allocation_fields s alloc)))

  -- `link_connected and target_locked and navy_fire_authorize`
  unfoldable pub interlock_bit : TargetBuffer F → ShoreWeapon → ℕ
  interlock_bit target weapon =
      if or_default weapon.umbilical_link_connected false
        && (or_default target.is_target_locked false
            && or_default weapon.navy_combat_release_cleared false)
      then 1
      else 0

  unfoldable pub shore_fields : ShoreSerializer → TargetBuffer F → ShoreWeapon → List Text
  shore_fields s target weapon =
      s.prefix
      ∷ decimal (station_number (or_default weapon.shore_station_id (codes "UNKNOWN")))
      ∷ fl.fixed 2 (or_default target.target_bearing_deg (fl.lit 0 1))
      ∷ fl.fixed 2 (or_default target.current_elevation_deg (fl.lit 0 1))
      ∷ decimal (interlock_bit target weapon)
      ∷ []

  -- `serialize_shore_fire_commands`
  unfoldable pub serialize_shore_fire_commands :
      ShoreSerializer → TargetBuffer F → List ShoreWeapon → List Text
  serialize_shore_fire_commands s target =
      map (λ weapon. frame (payload_of (shore_fields s target weapon)))
