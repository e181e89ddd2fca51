-- ===== src/Sensors/Instruments.antt =====
-- network_layer/nmea_serial_parser.py: heading, depth and speed of the bridge's instruments. The
-- module does not import `math`, so a heading is turned into radians by the literal 3.14159. Only
-- the entries of the cache that the parser writes are modelled.
use univac.Base.{
  ℕ, Bool, false, not, Option, none, some, List, [], ◌∷◌, get_elem?, is_empty, if◌then◌else◌,
}
use univac.Text.{Text, codes, strip, equal, ends_with}
use univac.Floats.{Floating}
use univac.Nmea.{validate_checksum, fields}

pub record Heading (F : Type 0) : Type 0 where
  pub heading_rad : F
  pub heading_time : F

pub record Instruments (F : Type 0) : Type 0 where
  pub depth : F
  pub speed_ms : F
  pub yaw_rate_rads : F
  -- `last_heading` and `last_heading_time`, which are set together
  pub last_heading : Option (Heading F)

-- parts[2] == 'A'
abbrev pub has_lock : List Text → Bool
has_lock parts = elim (get_elem? parts 2) [ none ↦ false | some w ↦ equal w (codes "A") ]

module _ {F : Type 0} ⦃fl : Floating F⦄ where
  unfoldable pub new_instruments : Instruments F
  new_instruments = record {
    depth = fl.lit 500 1;
    speed_ms = fl.lit 0 1;
    yaw_rate_rads = fl.lit 0 1;
    last_heading = none;
  }

  -- `if parts[i]:` and `float(parts[i])`: none where an exception or the test ends the branch.
  unfoldable pub number_at : ℕ → List Text → Option F
  number_at i parts = elim (get_elem? parts i) [
    | none ↦ none
    | some w ↦ if is_empty w then none else fl.read w
  ]

  abbrev pub as_radians : F → F
  as_radians deg = fl.div (fl.mul deg (fl.lit 314159 5)) (fl.lit 1800 1)

  -- The turn between two headings, the short way round.
  abbrev pub turn : F → F → F
  turn now last =
      fl.sub
        (fl.rem (fl.add (fl.sub now last) (fl.lit 314159 5))
          (fl.mul (fl.lit 20 1) (fl.lit 314159 5)))
        (fl.lit 314159 5)

  unfoldable pub yaw_rate : Option (Heading F) → Heading F → F → F
  yaw_rate none new current = current
  yaw_rate (some old) new current =
      let dt = fl.sub new.heading_time old.heading_time in
      if fl.lt (fl.lit 1 3) dt then fl.div (turn new.heading_rad old.heading_rad) dt else current

  unfoldable pub take_heading : F → Option F → Instruments F → Instruments F
  take_heading timestamp none s = s
  take_heading timestamp (some deg) s =
      let new : Heading F = record { heading_rad = as_radians deg; heading_time = timestamp } in
      record s {
        yaw_rate_rads = yaw_rate s.last_heading new s.yaw_rate_rads;
        last_heading = some new;
      }

  unfoldable pub take_depth : Option F → Instruments F → Instruments F
  take_depth none s = s
  take_depth (some d) s = record s { depth = d }

  unfoldable pub take_speed : Option F → Instruments F → Instruments F
  take_speed none s = s
  take_speed (some knots) s = record s { speed_ms = fl.mul knots (fl.lit 514444 6) }

  -- The `try`, by the talker that the first part ends in.
  unfoldable pub take_sentence : F → Text → List Text → Instruments F → Instruments F
  take_sentence timestamp talker_id parts s =
      if ends_with talker_id (codes "HDT")
      then take_heading timestamp (number_at 1 parts) s
      else if ends_with talker_id (codes "DBT")
      then take_depth (number_at 3 parts) s
      else if ends_with talker_id (codes "DPT")
      then take_depth (number_at 1 parts) s
      else if ends_with talker_id (codes "RMC")
      then if has_lock parts then take_speed (number_at 7 parts) s else s
      else s

  unfoldable pub take_parts : F → List Text → Instruments F → Instruments F
  take_parts timestamp [] s = s
  take_parts timestamp (talker_id ∷ parts) s =
      take_sentence timestamp talker_id (talker_id ∷ parts) s

  -- `parse_sentence`
  unfoldable pub parse_sentence : Text → F → Instruments F → Instruments F
  parse_sentence raw_sentence timestamp s =
      let clean_str = strip raw_sentence in
      if not (validate_checksum clean_str) then s else take_parts timestamp (fields clean_str) s
