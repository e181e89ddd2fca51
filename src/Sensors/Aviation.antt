-- ===== src/Sensors/Aviation.antt =====
-- network_layer/aviation_telemetry_bridge.py. The last latitude, longitude and time are set together,
-- so they are one optional record; `math.radians(0.0)` is subtracted from the crab angle as it is.
use univac.Base.{Bool, false, not, Option, none, some, List, [], ◌∷◌, take, ◌>>=◌, if◌then◌else◌}
use univac.Base.Int.{ℤ}
use univac.Text.{Text, strip, upper, equal}
use univac.Text.Number.{int16}
use univac.Floats.{Floating}
use univac.Floats.Math.{MathLib}
use univac.Nmea.{validate_checksum, fields}
use univac.Sensors.Encoder.{is_zero}

pub record FlightTelemetry (F : Type 0) : Type 0 where
  pub latitude_decimal : F
  pub longitude_decimal : F
  pub altitude_feet : F
  pub density_altitude_feet : F
  pub ground_speed_ms : F
  pub aerodynamic_crab_angle_rad : F
  pub climatological_temp_c : F
  pub gps_lock_valid : Bool
  pub last_sync_timestamp : F

pub record LastFix (F : Type 0) : Type 0 where
  pub last_lat : F
  pub last_lon : F
  pub last_update_time : F

pub record AviationBridge (F : Type 0) : Type 0 where
  pub expected_prefix : Text
  pub active_flight_telemetry : FlightTelemetry F
  pub last_fix : Option (LastFix F)

-- The parts of a sentence that are read: the status is still text.
pub record FlightReading (F : Type 0) : Type 0 where
  pub lat_val : F
  pub lon_val : F
  pub alt_ft : F
  pub density_alt_ft : F
  pub speed_knots : F
  pub temp_c : F
  pub status_hex : Text

module _ {F : Type 0} ⦃fl : Floating F⦄ where
  -- AviationTelemetryBridgeNode(prefix_id)
  unfoldable pub new_aviation_bridge : Text → F → AviationBridge F
  new_aviation_bridge prefix_id now = record {
    expected_prefix = b'$' ∷ take 4 (upper prefix_id);
    active_flight_telemetry = record {
      latitude_decimal = fl.lit 0 1;
      longitude_decimal = fl.lit 0 1;
      altitude_feet = fl.lit 0 1;
      density_altitude_feet = fl.lit 0 1;
      ground_speed_ms = fl.lit 0 1;
      aerodynamic_crab_angle_rad = fl.lit 0 1;
      climatological_temp_c = fl.lit 150 1;
      gps_lock_valid = false;
      last_sync_timestamp = now;
    };
    last_fix = none;
  }

  -- `float(parts[1])` to `parts[7]`; none is ValueError or IndexError.
  unfoldable pub read_flight : List Text → Option (FlightReading F)
  read_flight (header ∷ lat ∷ lon ∷ alt ∷ density ∷ speed ∷ temp ∷ status_hex ∷ more) = do
    a ← fl.read lat
    b ← fl.read lon
    c ← fl.read alt
    d ← fl.read density
    e ← fl.read speed
    f ← fl.read temp
    some (record {
      lat_val = a;
      lon_val = b;
      alt_ft = c;
      density_alt_ft = d;
      speed_knots = e;
      temp_c = f;
      status_hex = status_hex;
    })
  read_flight _ = none

  -- The crab angle: zero for the first fix, and for one within a millisecond of the last.
  unfoldable pub crab_angle : MathLib F → Option (LastFix F) → FlightReading F → F → F
  crab_angle m none r timestamp = fl.lit 0 1
  crab_angle m (some old) r timestamp =
      let dt = fl.sub timestamp old.last_update_time in
      let d_lat = fl.sub r.lat_val old.last_lat in
      let d_lon = fl.sub r.lon_val old.last_lon in
      if fl.lt (fl.lit 1 3) dt
      then fl.sub (m.atan2 d_lon d_lat) (fl.radians (fl.lit 0 1))
      else fl.lit 0 1

  -- The status is read before anything is written.
  unfoldable pub take_flight :
      MathLib F → F → FlightReading F → Option ℤ → AviationBridge F → AviationBridge F
  take_flight m timestamp r none s = s
  take_flight m timestamp r (some status_mask) s = record s {
    active_flight_telemetry = record {
      latitude_decimal = r.lat_val;
      longitude_decimal = r.lon_val;
      altitude_feet = r.alt_ft;
      density_altitude_feet = r.density_alt_ft;
      ground_speed_ms = fl.mul r.speed_knots (fl.lit 514444 6);
      aerodynamic_crab_angle_rad = crab_angle m s.last_fix r timestamp;
      climatological_temp_c = r.temp_c;
      gps_lock_valid = is_zero status_mask;
      last_sync_timestamp = timestamp;
    };
    last_fix =
        some (record { last_lat = r.lat_val; last_lon = r.lon_val; last_update_time = timestamp });
  }

  unfoldable pub flight_reading :
      MathLib F → F → Option (FlightReading F) → AviationBridge F → AviationBridge F
  flight_reading m timestamp none s = s
  flight_reading m timestamp (some r) s = take_flight m timestamp r (int16 r.status_hex) s

  unfoldable pub flight_parts : MathLib F → F → List Text → AviationBridge F → AviationBridge F
  flight_parts m timestamp [] s = s
  flight_parts m timestamp (header ∷ parts) s =
      if not (equal header s.expected_prefix)
      then s
      else flight_reading m timestamp (read_flight (header ∷ parts)) s

  -- `ingest_aerospace_sentence`; the answer is a copy of the new telemetry.
  unfoldable pub ingest_aerospace_sentence :
      MathLib F → Text → F → AviationBridge F → AviationBridge F
  ingest_aerospace_sentence m raw_sentence timestamp s =
      let clean_sentence = strip raw_sentence in
      if not (validate_checksum clean_sentence)
      then s
      else flight_parts m timestamp (fields clean_sentence) s

  -- Lines with their times, one after the other.
  abbrev pub ingest_aerospace : MathLib F → List (Text × F) → AviationBridge F → AviationBridge F
  ingest_aerospace m [] s = s
  ingest_aerospace m ((raw, now) ∷ l) s =
      ingest_aerospace m l (ingest_aerospace_sentence m raw now s)
