-- ===== src/Sensors/InstrumentFrames.antt =====
-- What the sentences of the instruments do to the cache.
use univac.Base.{◌≡◌, ◌⊎◌, inl, inr, refl, ◌∙◌, ap, Option, none, some, List, [], ◌∷◌, Bool-cases}
use univac.Text.{Text, codes, strip, equal, ends_with}
use univac.Floats.{Floating}
use univac.Nmea.{validate_checksum, fields, frame, payload_of}
use univac.Nmea.Fields.{AllFields, validate_checksum-payload, fields-payload}
use univac.Sensors.Instruments.{
  Instruments, number_at, take_heading, take_depth, take_speed, has_lock, take_sentence, take_parts,
  parse_sentence,
}

module _ {F : Type 0} ⦃fl : Floating F⦄ where
  -- The frame in front of the parser falls away.
  parse_sentence-frame :
      (x : Text) (l : List Text) (timestamp : F) (s : Instruments F)
      → AllFields (x ∷ l)
      → parse_sentence (frame (payload_of (x ∷ l))) timestamp s
        ≡ take_sentence timestamp (b'$' ∷ x) ((b'$' ∷ x) ∷ l) s
  unfolding parse_sentence take_parts
  parse_sentence-frame x l timestamp s h =
      rw (validate_checksum-payload (x ∷ l) h, fields-payload x l h)

  -- At most one of depth and speed is new, and the heading's registers only if neither is.
  abbrev pub OneInstrument : Instruments F → Instruments F → Type 0
  OneInstrument s s' =
      ((s'.depth ≡ s.depth) × (s'.speed_ms ≡ s.speed_ms))
      ⊎ ((s'.depth ≡ s.depth)
          × (s'.last_heading ≡ s.last_heading)
          × (s'.yaw_rate_rads ≡ s.yaw_rate_rads))
      ⊎ ((s'.speed_ms ≡ s.speed_ms)
          × (s'.last_heading ≡ s.last_heading)
          × (s'.yaw_rate_rads ≡ s.yaw_rate_rads))

  take_each-OneInstrument :
      (timestamp : F) (o : Option F) (s : Instruments F)
      → OneInstrument s (take_heading timestamp o s)
        × OneInstrument s (take_depth o s)
        × OneInstrument s (take_speed o s)
  unfolding take_heading take_depth take_speed
  take_each-OneInstrument timestamp none s = (inl (refl, refl), inl (refl, refl), inl (refl, refl))
  take_each-OneInstrument timestamp (some x) s =
      (inl (refl, refl), inr (inr (refl, refl, refl)), inr (inl (refl, refl, refl)))

  take_sentence-OneInstrument :
      (timestamp : F) (talker_id : Text) (parts : List Text) (s : Instruments F)
      → OneInstrument s (take_sentence timestamp talker_id parts s)
  unfolding take_sentence
  take_sentence-OneInstrument timestamp talker_id parts s =
      let each = take_each-OneInstrument timestamp in
      elim (Bool-cases (ends_with talker_id (codes "HDT"))) [
        | inl a ↦ rw a (each (number_at 1 parts) s).0
        | inr a ↦ elim (Bool-cases (ends_with talker_id (codes "DBT"))) [
          | inl b ↦ rw (a, b) (each (number_at 3 parts) s).1
          | inr b ↦ elim (Bool-cases (ends_with talker_id (codes "DPT"))) [
            | inl c ↦ rw (a, b, c) (each (number_at 1 parts) s).1
            | inr c ↦ elim (Bool-cases (ends_with talker_id (codes "RMC"))) [
              | inl d ↦ elim (Bool-cases (has_lock parts)) [
                | inl lock ↦ rw (a, b, c, d, lock) (each (number_at 7 parts) s).2
                | inr open_ ↦ rw (a, b, c, d, open_) (inl (refl, refl))
              ]
              | inr d ↦ rw (a, b, c, d) (inl (refl, refl))
            ]
          ]
        ]
      ]

  take_parts-OneInstrument :
      (timestamp : F) (parts : List Text) (s : Instruments F)
      → OneInstrument s (take_parts timestamp parts s)
  unfolding take_parts
  take_parts-OneInstrument timestamp [] s = inl (refl, refl)
  take_parts-OneInstrument timestamp (talker_id ∷ parts) s =
      take_sentence-OneInstrument timestamp talker_id (talker_id ∷ parts) s

  -- One line, whatever it holds, writes at most one of depth and speed, and the heading's registers
  -- only where it writes neither of the two.
  pub parse_sentence-OneInstrument :
      (timestamp : F) (raw : Text) (s : Instruments F)
      → OneInstrument s (parse_sentence raw timestamp s)
  unfolding parse_sentence
  parse_sentence-OneInstrument timestamp raw s = elim (Bool-cases (validate_checksum (strip raw))) [
    | inl good ↦ rw good (take_parts-OneInstrument timestamp (fields (strip raw)) s)
    | inr bad ↦ rw bad (inl (refl, refl))
  ]

  -- With no separator in a field: a framed depth sentence with readable metres sets the
  -- depth and nothing else; a framed speed sentence with a lock sets only the speed, its
  -- knots turned into metres per second; and a framed heading sentence is taken as the next
  -- heading.
  pub parse_sentence-talkers :
      (feet metres fathoms time lat ns lon ew knots heading : Text) (timestamp m k d : F)
      (s : Instruments F)
      → AllFields (codes "SDDBT" ∷ feet ∷ codes "f" ∷ metres ∷ codes "M" ∷ fathoms ∷ codes "F" ∷ [])
      → AllFields (codes "GPRMC" ∷ time ∷ codes "A" ∷ lat ∷ ns ∷ lon ∷ ew ∷ knots ∷ [])
      → AllFields (codes "HEHDT" ∷ heading ∷ codes "T" ∷ [])
      → number_at 0 (metres ∷ []) ≡ some m
      → number_at 0 (knots ∷ []) ≡ some k
      → number_at 0 (heading ∷ []) ≡ some d
      → (parse_sentence
            (frame (
              payload_of
                (codes "SDDBT" ∷ feet ∷ codes "f" ∷ metres ∷ codes "M" ∷ fathoms ∷ codes "F" ∷ [])))
            timestamp
            s
          ≡ record s { depth = m })
        × (parse_sentence
              (frame
                (payload_of (codes "GPRMC" ∷ time ∷ codes "A" ∷ lat ∷ ns ∷ lon ∷ ew ∷ knots ∷ [])))
              timestamp
              s
            ≡ record s { speed_ms = fl.mul k (fl.lit 514444 6) })
        × (parse_sentence
              (frame (payload_of (codes "HEHDT" ∷ heading ∷ codes "T" ∷ [])))
              timestamp
              s
            ≡ take_heading timestamp (some d) s)
  unfolding take_sentence number_at ends_with equal take_depth take_speed
  parse_sentence-talkers feet metres fathoms time lat ns lon ew knots heading timestamp m k d s h1
        h2 h3 e1 e2 e3 =
      (
        parse_sentence-frame (codes "SDDBT") _ timestamp s h1 ∙ ap (λ o. take_depth o s) e1,
        parse_sentence-frame (codes "GPRMC") _ timestamp s h2 ∙ ap (λ o. take_speed o s) e2,
        parse_sentence-frame (codes "HEHDT") _ timestamp s h3
            ∙ ap (λ o. take_heading timestamp o s) e3,
      )
