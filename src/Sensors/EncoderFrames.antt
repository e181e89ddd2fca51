-- ===== src/Sensors/EncoderFrames.antt =====
-- What a framed encoder sentence does to the two parsers.
use univac.Base.{◌≡◌, refl, none, some, [], ◌∷◌, arith}
use univac.Base.Int.{ℤ}
use univac.Text.{Text, codes}
use univac.Text.Laws.{equal_self}
use univac.Text.Number.{int16}
use univac.Floats.{Floating}
use univac.Nmea.{frame, payload_of}
use univac.Nmea.Fields.{AllFields, validate_checksum-payload, fields-payload}
use univac.Sensors.Encoder.{
  WeaponParser, LastPacket, is_positive, read_encoder, packet_at, rates, take_status, take_reading,
  ingest_parts, ingest_encoder_sentence,
}

module _ {F : Type 0} ⦃fl : Floating F⦄ where
  read_encoder_lem :
      (header az el status : Text) (a e : F)
      → fl.read az ≡ some a
      → fl.read el ≡ some e
      → read_encoder (header ∷ az ∷ el ∷ status ∷ [])
        ≡ some (record { azimuth = a; elevation = e; status_hex = status })
  unfolding read_encoder
  read_encoder_lem header az el status a e ha he = ground arith

  ingest_parts-ours :
      (p : WeaponParser F) (az el status : Text) (timestamp a e : F)
      → fl.read az ≡ some a
      → fl.read el ≡ some e
      → ingest_parts timestamp (codes "$PMK45" ∷ az ∷ el ∷ status ∷ []) p
        ≡ take_status timestamp
            (record { azimuth = a; elevation = e; status_hex = status })
            (int16 status)
            p
  unfolding ingest_parts take_reading
  ingest_parts-ours p az el status timestamp a e ha he =
      rw (equal_self (codes "$PMK45"), read_encoder_lem (codes "$PMK45") az el status a e ha he)

  -- A framed sentence of the gun mount, with no separator in a field, whose angles can be
  -- read and whose status is hexadecimal, is taken over whole: the angles, the rates against
  -- the packet before it, the servo fault, and the packet itself as the next one's
  -- reference.
  pub ingest_encoder_sentence-frame :
      (p : WeaponParser F) (az el status : Text) (timestamp a e : F) (status_mask : ℤ)
      → AllFields (codes "PMK45" ∷ az ∷ el ∷ status ∷ [])
      → fl.read az ≡ some a
      → fl.read el ≡ some e
      → int16 status ≡ some status_mask
      → let p' =
          ingest_encoder_sentence
            (frame (payload_of (codes "PMK45" ∷ az ∷ el ∷ status ∷ [])))
            timestamp
            p in
        let packet : LastPacket F =
          packet_at timestamp (record { azimuth = a; elevation = e; status_hex = status }) in
        (p'.live_weapon_state.azimuth_deg ≡ a)
        × (p'.live_weapon_state.elevation_deg ≡ e)
        × (p'.live_weapon_state.azimuth_rate_rads ≡ (rates p.last_packet packet).0)
        × (p'.live_weapon_state.elevation_rate_rads ≡ (rates p.last_packet packet).1)
        × (p'.live_weapon_state.servo_fault_active ≡ is_positive status_mask)
        × (p'.last_packet ≡ some packet)
  unfolding ingest_encoder_sentence take_status
  ingest_encoder_sentence-frame p az el status timestamp a e status_mask h ha he hs =
      rw
        (
          validate_checksum-payload (codes "PMK45" ∷ az ∷ el ∷ status ∷ []) h,
          fields-payload (codes "PMK45") (az ∷ el ∷ status ∷ []) h,
          ingest_parts-ours p az el status timestamp a e ha he,
          hs,
        )
        (refl, refl, refl, refl, refl, refl)

  -- A framed sentence of the gun mount, with no separator in a field, whose angles can be
  -- read but whose status is not hexadecimal: the angles, the fault and the reference packet
  -- stay, but the rates are already those of the refused packet.
  pub ingest_encoder_sentence-bad_status :
      (p : WeaponParser F) (az el status : Text) (timestamp a e : F)
      → AllFields (codes "PMK45" ∷ az ∷ el ∷ status ∷ [])
      → fl.read az ≡ some a
      → fl.read el ≡ some e
      → int16 status ≡ none
      → let p' =
          ingest_encoder_sentence
            (frame (payload_of (codes "PMK45" ∷ az ∷ el ∷ status ∷ [])))
            timestamp
            p in
        let packet : LastPacket F =
          packet_at timestamp (record { azimuth = a; elevation = e; status_hex = status }) in
        (p'.live_weapon_state.azimuth_deg ≡ p.live_weapon_state.azimuth_deg)
        × (p'.live_weapon_state.elevation_deg ≡ p.live_weapon_state.elevation_deg)
        × (p'.live_weapon_state.azimuth_rate_rads ≡ (rates p.last_packet packet).0)
        × (p'.live_weapon_state.elevation_rate_rads ≡ (rates p.last_packet packet).1)
        × (p'.live_weapon_state.servo_fault_active ≡ p.live_weapon_state.servo_fault_active)
        × (p'.last_packet ≡ p.last_packet)
  unfolding ingest_encoder_sentence take_status
  ingest_encoder_sentence-bad_status p az el status timestamp a e h ha he hs =
      rw
        (
          validate_checksum-payload (codes "PMK45" ∷ az ∷ el ∷ status ∷ []) h,
          fields-payload (codes "PMK45") (az ∷ el ∷ status ∷ []) h,
          ingest_parts-ours p az el status timestamp a e ha he,
          hs,
        )
        (refl, refl, refl, refl, refl, refl)
