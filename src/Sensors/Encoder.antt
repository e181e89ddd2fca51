-- ===== src/Sensors/Encoder.antt =====
-- network_layer/weapon_serial_parser.py and network_layer/weapon_async_parser.py. The three registers
-- of the last packet are set together, so they are one optional record.
use univac.Base.{
  Bool, false, not, Option, none, some, List, [], ◌∷◌, take, ltb, ◌==◌, if◌then◌else◌,
}
use univac.Base.Int.{ℤ, pos, negsuc}
use univac.Text.{Text, codes, strip, upper, equal}
use univac.Text.Number.{int16}
use univac.Floats.{Floating}
use univac.Nmea.{validate_checksum, fields}

pub record LastPacket (F : Type 0) : Type 0 where
  pub azimuth_rad : F
  pub elevation_rad : F
  pub packet_time : F

pub record WeaponState (F : Type 0) : Type 0 where
  pub azimuth_deg : F
  pub elevation_deg : F
  pub azimuth_rate_rads : F
  pub elevation_rate_rads : F
  pub servo_fault_active : Bool

-- WeaponSerialBusParser
pub record WeaponParser (F : Type 0) : Type 0 where
  pub live_weapon_state : WeaponState F
  pub last_packet : Option (LastPacket F)

-- The cache and the registers of WeaponAsyncParserExtension.
pub record AsyncParser (F : Type 0) : Type 0 where
  pub expected_prefix : Text
  pub async_azimuth_deg : F
  pub async_elevation_deg : F
  pub async_azimuth_rate_rads : F
  pub async_elevation_rate_rads : F
  pub bus_sync_active : Bool
  pub last_ingest_time : F
  pub prev_packet : Option (LastPacket F)

-- The parts of a sentence that are read: the status is still text.
pub record EncoderReading (F : Type 0) : Type 0 where
  pub azimuth : F
  pub elevation : F
  pub status_hex : Text

-- status_mask > 0
abbrev pub is_positive : ℤ → Bool
is_positive (pos n) = ltb 0 n
is_positive (negsuc n) = false

-- servo_fault_mask == 0
abbrev pub is_zero : ℤ → Bool
is_zero (pos n) = n == 0
is_zero (negsuc n) = false

module _ {F : Type 0} ⦃fl : Floating F⦄ where
  -- `float(parts[1])`, `float(parts[2])`, `parts[3]`; none is ValueError or IndexError.
  unfoldable pub read_encoder : List Text → Option (EncoderReading F)
  read_encoder (header ∷ az ∷ el ∷ status_hex ∷ more) = elim (fl.read az) [
    | none ↦ none
    | some a ↦ elim (fl.read el) [
      | none ↦ none
      | some e ↦ some (record { azimuth = a; elevation = e; status_hex = status_hex })
    ]
  ]
  read_encoder _ = none

  -- (delta_az + math.pi) % (2.0 * math.pi) - math.pi
  abbrev pub wrap : F → F
  wrap delta_az = fl.sub (fl.rem (fl.add delta_az fl.pi) (fl.mul (fl.lit 20 1) fl.pi)) fl.pi

  abbrev pub packet_at : F → EncoderReading F → LastPacket F
  packet_at timestamp r = record {
    azimuth_rad = fl.radians r.azimuth;
    elevation_rad = fl.radians r.elevation;
    packet_time = timestamp;
  }

  -- The two rates: zero for the first packet, and for one within a millisecond of the last.
  unfoldable pub rates : Option (LastPacket F) → LastPacket F → F × F
  rates none new = (fl.lit 0 1, fl.lit 0 1)
  rates (some old) new =
      let dt = fl.sub new.packet_time old.packet_time in
      if fl.lt (fl.lit 1 3) dt
      then (
        fl.div (wrap (fl.sub new.azimuth_rad old.azimuth_rad)) dt,
        fl.div (fl.sub new.elevation_rad old.elevation_rad) dt,
      )
      else (fl.lit 0 1, fl.lit 0 1)

  unfoldable pub new_weapon_parser : WeaponParser F
  new_weapon_parser = record {
    live_weapon_state = record {
      azimuth_deg = fl.lit 0 1;
      elevation_deg = fl.lit 0 1;
      azimuth_rate_rads = fl.lit 0 1;
      elevation_rate_rads = fl.lit 0 1;
      servo_fault_active = false;
    };
    last_packet = none;
  }

  -- Steps 2 and 3: the rates are written before the status is read, which may raise ValueError.
  unfoldable pub take_status : F → EncoderReading F → Option ℤ → WeaponParser F → WeaponParser F
  take_status timestamp r none p =
      let (az_rate, el_rate) = rates p.last_packet (packet_at timestamp r) in
      record p {
        live_weapon_state = record p.live_weapon_state {
          azimuth_rate_rads = az_rate;
          elevation_rate_rads = el_rate;
        };
      }
  take_status timestamp r (some status_mask) p =
      let (az_rate, el_rate) = rates p.last_packet (packet_at timestamp r) in
      record {
        live_weapon_state = record {
          azimuth_deg = r.azimuth;
          elevation_deg = r.elevation;
          azimuth_rate_rads = az_rate;
          elevation_rate_rads = el_rate;
          servo_fault_active = is_positive status_mask;
        };
        last_packet = some (packet_at timestamp r);
      }

  unfoldable pub take_reading : F → Option (EncoderReading F) → WeaponParser F → WeaponParser F
  take_reading timestamp none p = p
  take_reading timestamp (some r) p = take_status timestamp r (int16 r.status_hex) p

  -- The `try` of `ingest_encoder_sentence`, on the parts.
  unfoldable pub ingest_parts : F → List Text → WeaponParser F → WeaponParser F
  ingest_parts timestamp [] p = p
  ingest_parts timestamp (header ∷ parts) p =
      if not (equal header (codes "$PMK45"))
      then p
      else take_reading timestamp (read_encoder (header ∷ parts)) p

  unfoldable pub ingest_encoder_sentence : Text → F → WeaponParser F → WeaponParser F
  ingest_encoder_sentence raw_sentence timestamp p =
      let clean_str = strip raw_sentence in
      if not (validate_checksum clean_str) then p else ingest_parts timestamp (fields clean_str) p

  -- WeaponAsyncParserExtension(manufacturer_code)
  unfoldable pub new_async_parser : Text → F → AsyncParser F
  new_async_parser manufacturer_code now = record {
    expected_prefix = b'$' ∷ take 4 (upper manufacturer_code);
    async_azimuth_deg = fl.lit 0 1;
    async_elevation_deg = fl.lit 0 1;
    async_azimuth_rate_rads = fl.lit 0 1;
    async_elevation_rate_rads = fl.lit 0 1;
    bus_sync_active = false;
    last_ingest_time = now;
    prev_packet = none;
  }

  -- Here the status is read before anything is written.
  unfoldable pub take_async : F → EncoderReading F → Option ℤ → AsyncParser F → AsyncParser F
  take_async current_time r none p = p
  take_async current_time r (some servo_fault_mask) p =
      let (az_rate, el_rate) = rates p.prev_packet (packet_at current_time r) in
      record {
        expected_prefix = p.expected_prefix;
        async_azimuth_deg = r.azimuth;
        async_elevation_deg = r.elevation;
        async_azimuth_rate_rads = az_rate;
        async_elevation_rate_rads = el_rate;
        bus_sync_active = is_zero servo_fault_mask;
        last_ingest_time = current_time;
        prev_packet = some (packet_at current_time r);
      }

  unfoldable pub async_reading : F → Option (EncoderReading F) → AsyncParser F → AsyncParser F
  async_reading current_time none p = p
  async_reading current_time (some r) p = take_async current_time r (int16 r.status_hex) p

  unfoldable pub async_parts : F → List Text → AsyncParser F → AsyncParser F
  async_parts current_time [] p = p
  async_parts current_time (header ∷ parts) p =
      if not (equal header p.expected_prefix)
      then p
      else async_reading current_time (read_encoder (header ∷ parts)) p

  unfoldable pub process_async_line : Text → F → AsyncParser F → AsyncParser F
  process_async_line raw_line_str current_time p =
      let clean_line = strip raw_line_str in
      if not (validate_checksum clean_line)
      then p
      else async_parts current_time (fields clean_line) p
