-- ===== src/Sensors/AviationFrames.antt =====
-- What lines do to the aviation bridge.
use univac.Base.{
  ◌⊎◌, ◌≡◌, refl, false, Option, none, some, List, [], ◌∷◌, inl, inr, Bool-cases, Option-cases,
}
use univac.Base.Int.{ℤ}
use univac.Text.{Text, strip, equal}
use univac.Text.Laws.{equal_self}
use univac.Text.Number.{int16}
use univac.Floats.{Floating}
use univac.Floats.Math.{MathLib}
use univac.Nmea.{frame, payload_of, validate_checksum, fields}
use univac.Nmea.Fields.{AllFields, validate_checksum-payload, fields-payload}
use univac.Sensors.Encoder.{is_zero}
use univac.Sensors.Aviation.{
  FlightTelemetry, LastFix, AviationBridge, FlightReading, new_aviation_bridge, read_flight,
  crab_angle, take_flight, flight_reading, flight_parts, ingest_aerospace_sentence,
  ingest_aerospace,
}

module _ {F : Type 0} ⦃fl : Floating F⦄ where
  -- The cache shows the last fix.
  abbrev pub Shows : Option (LastFix F) → FlightTelemetry F → Type 0
  Shows none t = t.gps_lock_valid ≡ false
  Shows (some x) t =
      (t.latitude_decimal ≡ x.last_lat)
      × (t.longitude_decimal ≡ x.last_lon)
      × (t.last_sync_timestamp ≡ x.last_update_time)

  abbrev pub IsSynced : AviationBridge F → Type 0
  IsSynced s = Shows s.last_fix s.active_flight_telemetry

  take_flight-IsSynced :
      (m : MathLib F) (now : F) (r : FlightReading F) (o : Option ℤ) (s : AviationBridge F)
      → IsSynced s
      → IsSynced (take_flight m now r o s)
  unfolding take_flight
  take_flight-IsSynced m now r none s h = h
  take_flight-IsSynced m now r (some mask) s h = (refl, refl, refl)

  flight_reading-IsSynced :
      (m : MathLib F) (now : F) (o : Option (FlightReading F)) (s : AviationBridge F)
      → IsSynced s
      → IsSynced (flight_reading m now o s)
  unfolding flight_reading
  flight_reading-IsSynced m now none s h = h
  flight_reading-IsSynced m now (some r) s h = take_flight-IsSynced m now r (int16 r.status_hex) s h

  flight_parts-IsSynced :
      (m : MathLib F) (now : F) (parts : List Text) (s : AviationBridge F)
      → IsSynced s
      → IsSynced (flight_parts m now parts s)
  unfolding flight_parts
  flight_parts-IsSynced m now [] s h = h
  flight_parts-IsSynced m now (header ∷ parts) s h =
      elim (Bool-cases (equal header s.expected_prefix)) [
        | inl ours ↦ simp ours (flight_reading-IsSynced m now (read_flight (header ∷ parts)) s h)
        | inr other ↦ simp other h
      ]

  ingest_aerospace_sentence-IsSynced :
      (m : MathLib F) (raw : Text) (now : F) (s : AviationBridge F)
      → IsSynced s
      → IsSynced (ingest_aerospace_sentence m raw now s)
  unfolding ingest_aerospace_sentence
  ingest_aerospace_sentence-IsSynced m raw now s h =
      elim (Bool-cases (validate_checksum (strip raw))) [
        | inl good ↦ simp good (flight_parts-IsSynced m now (fields (strip raw)) s h)
        | inr bad ↦ simp bad h
      ]

  ingest_aerospace-keeps :
      (m : MathLib F) (l : List (Text × F)) (s : AviationBridge F)
      → IsSynced s
      → IsSynced (ingest_aerospace m l s)
  ingest_aerospace-keeps m [] s h = h
  ingest_aerospace-keeps m ((raw, now) ∷ l) s h =
      ingest_aerospace-keeps m l (ingest_aerospace_sentence m raw now s)
        (ingest_aerospace_sentence-IsSynced m raw now s h)

  new_aviation_bridge-IsSynced :
      (prefix_id : Text) (now : F) → IsSynced (new_aviation_bridge prefix_id now)
  unfolding new_aviation_bridge
  new_aviation_bridge-IsSynced prefix_id now = refl

  -- Whatever lines come in, readable or not: the cached position and time are those of the last
  -- fix from which the next crab angle is taken, and before the first fix no lock is shown.
  pub ingest_aerospace-IsSynced :
      (m : MathLib F) (prefix_id : Text) (start : F) (l : List (Text × F))
      → IsSynced (ingest_aerospace m l (new_aviation_bridge prefix_id start))
  ingest_aerospace-IsSynced m prefix_id start l =
      ingest_aerospace-keeps m l (new_aviation_bridge prefix_id start)
        (new_aviation_bridge-IsSynced prefix_id start)

  read_flight_lem :
      (header lat lon alt density speed temp status : Text) (r : FlightReading F)
      → fl.read lat ≡ some r.lat_val
      → fl.read lon ≡ some r.lon_val
      → fl.read alt ≡ some r.alt_ft
      → fl.read density ≡ some r.density_alt_ft
      → fl.read speed ≡ some r.speed_knots
      → fl.read temp ≡ some r.temp_c
      → r.status_hex ≡ status
      → read_flight (header ∷ lat ∷ lon ∷ alt ∷ density ∷ speed ∷ temp ∷ status ∷ []) ≡ some r
  unfolding read_flight
  read_flight_lem header lat lon alt density speed temp status r h1 h2 h3 h4 h5 h6 h7 =
      rw (h1, h2, h3, h4, h5, h6, ← h7) refl

  -- Either the status is not hexadecimal and nothing is written, or all registers are new.
  abbrev pub Taken : MathLib F → F → FlightReading F → AviationBridge F → AviationBridge F → Type 0
  Taken m now r s s' =
      let t = s'.active_flight_telemetry in
      ((int16 r.status_hex ≡ none) × (s' ≡ s))
      ⊎ ((mask : ℤ) × (int16 r.status_hex ≡ some mask)
          × (t.latitude_decimal ≡ r.lat_val)
          × (t.longitude_decimal ≡ r.lon_val)
          × (t.altitude_feet ≡ r.alt_ft)
          × (t.density_altitude_feet ≡ r.density_alt_ft)
          × (t.ground_speed_ms ≡ fl.mul r.speed_knots (fl.lit 514444 6))
          × (t.aerodynamic_crab_angle_rad ≡ crab_angle m s.last_fix r now)
          × (t.climatological_temp_c ≡ r.temp_c)
          × (t.gps_lock_valid ≡ is_zero mask)
          × (t.last_sync_timestamp ≡ now))

  take_flight-Taken :
      (m : MathLib F) (now : F) (r : FlightReading F) (s : AviationBridge F)
      → Taken m now r s (take_flight m now r (int16 r.status_hex) s)
  unfolding take_flight
  take_flight-Taken m now r s = elim (Option-cases (int16 r.status_hex)) [
    | inl bad ↦ inl (bad, rw bad refl)
    | inr (mask, good) ↦ inr (
      mask,
      good,
      rw good refl,
      rw good refl,
      rw good refl,
      rw good refl,
      rw good refl,
      rw good refl,
      rw good refl,
      rw good refl,
      rw good refl,
    )
  ]

  ingest_aerospace_sentence-taken :
      (m : MathLib F) (s : AviationBridge F) (x lat lon alt density speed temp : Text) (now : F)
      (r : FlightReading F)
      → AllFields (x ∷ lat ∷ lon ∷ alt ∷ density ∷ speed ∷ temp ∷ r.status_hex ∷ [])
      → s.expected_prefix ≡ b'$' ∷ x
      → fl.read lat ≡ some r.lat_val
      → fl.read lon ≡ some r.lon_val
      → fl.read alt ≡ some r.alt_ft
      → fl.read density ≡ some r.density_alt_ft
      → fl.read speed ≡ some r.speed_knots
      → fl.read temp ≡ some r.temp_c
      → ingest_aerospace_sentence m
          (frame (payload_of (x ∷ lat ∷ lon ∷ alt ∷ density ∷ speed ∷ temp ∷ r.status_hex ∷ [])))
          now
          s
        ≡ take_flight m now r (int16 r.status_hex) s
  unfolding ingest_aerospace_sentence flight_parts flight_reading
  ingest_aerospace_sentence-taken m s x lat lon alt density speed temp now r h p h1 h2 h3 h4 h5 h6 =
      rw
        (
          validate_checksum-payload
              (x ∷ lat ∷ lon ∷ alt ∷ density ∷ speed ∷ temp ∷ r.status_hex ∷ []) h,
          fields-payload x (lat ∷ lon ∷ alt ∷ density ∷ speed ∷ temp ∷ r.status_hex ∷ []) h,
          p,
          equal_self (b'$' ∷ x),
          read_flight_lem (b'$' ∷ x) lat lon alt density speed temp r.status_hex r h1 h2 h3 h4 h5 h6
              refl,
        )
        refl

  -- A framed sentence with the bridge's prefix, with no separator in a field, whose six numbers
  -- can be read, is taken over whole if its status is hexadecimal: position, altitudes, speed in
  -- metres per second, crab angle against the last fix, temperature, lock and time. If the status
  -- is not hexadecimal, nothing is written.
  pub ingest_aerospace_sentence-frame :
      (m : MathLib F) (s : AviationBridge F) (x lat lon alt density speed temp : Text) (now : F)
      (r : FlightReading F)
      → AllFields (x ∷ lat ∷ lon ∷ alt ∷ density ∷ speed ∷ temp ∷ r.status_hex ∷ [])
      → s.expected_prefix ≡ b'$' ∷ x
      → fl.read lat ≡ some r.lat_val
      → fl.read lon ≡ some r.lon_val
      → fl.read alt ≡ some r.alt_ft
      → fl.read density ≡ some r.density_alt_ft
      → fl.read speed ≡ some r.speed_knots
      → fl.read temp ≡ some r.temp_c
      → Taken m now r s (
          ingest_aerospace_sentence m
            (frame (payload_of (x ∷ lat ∷ lon ∷ alt ∷ density ∷ speed ∷ temp ∷ r.status_hex ∷ [])))
            now
            s)
  ingest_aerospace_sentence-frame m s x lat lon alt density speed temp now r h p h1 h2 h3 h4 h5 h6 =
      rw
        (ingest_aerospace_sentence-taken m s x lat lon alt density speed temp now r h p h1 h2 h3 h4
          h5 h6)
        (take_flight-Taken m now r s)
