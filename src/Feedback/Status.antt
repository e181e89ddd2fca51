-- ===== src/Feedback/Status.antt =====
-- What one feedback sentence does to the receiver, and what every run keeps.
use univac.Base.{
  ◌≡◌, refl, inl, inr, Bool, true, false, not, ◌||◌, Option, none, some, List, [], ◌∷◌, ◌++◌, arith,
  Bool-cases, is_empty,
}
use univac.Text.{Text, strip, equal}
use univac.Text.Laws.{equal_self}
use univac.Base.Int.{ℤ}
use univac.Text.Number.{int16}
use univac.Floats.{Floating}
use univac.Nmea.{validate_checksum, fields, frame, payload_of}
use univac.Nmea.Fields.{AllFields, validate_checksum-payload, fields-payload}
use univac.Feedback.{
  Fault, line_noise_corruption, mechanical_linkage_jam, parsing_payload_exception, has_fault,
  Receiver, Feedback, flag_once, mask_faults, decode_status_flags, flags_of, use_feedback,
  read_feedback, track, process_fields, process_hardware_feedback, drop_first, initial,
}

has_fault-append :
    (f : Fault) (l m : List Fault) → has_fault f (l ++ m) ≡ has_fault f l || has_fault f m
has_fault-append f [] m = refl
has_fault-append f (g ∷ l) m = ground (arith, has_fault-append f l m)

has_fault-flag_once :
    {F : Type 0} (f : Fault) (r : Receiver F)
    → has_fault f (flag_once f r).latest_status.fault_flags ≡ true
unfolding flag_once
has_fault-flag_once f r = ground (arith, has_fault-append f r.latest_status.fault_flags (f ∷ []))

-- The flags that stand for the hardware, and not for the line.
abbrev pub is_hardware : Fault → Bool
is_hardware line_noise_corruption = false
is_hardware parsing_payload_exception = false
is_hardware _ = true

abbrev pub any_hardware : List Fault → Bool
any_hardware [] = false
any_hardware (f ∷ l) = is_hardware f || any_hardware l

any_hardware-append : (l m : List Fault) → any_hardware (l ++ m) ≡ any_hardware l || any_hardware m
any_hardware-append [] m = refl
any_hardware-append (f ∷ l) m = ground (arith, any_hardware-append l m)

-- The jam bit and the fault bit say what the list of flags says.
pub record IsConsistent {F : Type 0} (r : Receiver F) : Type 0 where
  pub jam :
      has_fault mechanical_linkage_jam r.latest_status.fault_flags
      ≡ r.latest_status.linkage_tracking_jammed
  pub active : any_hardware r.latest_status.fault_flags ≡ r.latest_status.hardware_faults_active

mask_faults-flags :
    (mask : ℤ)
    → (has_fault mechanical_linkage_jam (mask_faults mask) ≡ false)
      × (any_hardware (mask_faults mask) ≡ not (is_empty (mask_faults mask)))
unfolding mask_faults
mask_faults-flags mask = ground arith

flags_of_lem :
    (o : Option ℤ)
    → (has_fault mechanical_linkage_jam (flags_of o).1 ≡ false)
      × (any_hardware (flags_of o).1 ≡ (flags_of o).0)
unfolding flags_of
flags_of_lem none = (refl, refl)
flags_of_lem (some mask) = unfold mask_faults in mask_faults-flags mask

decode_status_flags_lem :
    (s : Text)
    → (has_fault mechanical_linkage_jam (decode_status_flags s).1 ≡ false)
      × (any_hardware (decode_status_flags s).1 ≡ (decode_status_flags s).0)
unfolding decode_status_flags
decode_status_flags_lem s = flags_of_lem (int16 s)

flag_once-IsConsistent :
    {F : Type 0} (f : Fault) (r : Receiver F)
    → is_hardware f ≡ false
    → IsConsistent r
    → IsConsistent (flag_once f r)
unfolding flag_once
flag_once-IsConsistent f r soft c = ground (
  arith,
  has_fault-append mechanical_linkage_jam r.latest_status.fault_flags (f ∷ []),
  any_hardware-append r.latest_status.fault_flags (f ∷ []),
)

-- One line off the serial port, the angle on order at that time, and the seconds since the last.
pub record FeedbackEvent (F : Type 0) : Type 0 where
  pub raw_sentence : Text
  pub ordered_rudder_deg : F
  pub dt : F

module _ {F : Type 0} ⦃fl : Floating F⦄ where
  track-IsConsistent :
      (r : Receiver F) (fb : Feedback F) (ordered dt : F) → IsConsistent (track r fb ordered dt)
  unfolding track
  track-IsConsistent r fb ordered dt =
      let flags = (decode_status_flags fb.status_hex).1 in
      ground (
        arith,
        decode_status_flags_lem fb.status_hex,
        has_fault-append mechanical_linkage_jam flags (mechanical_linkage_jam ∷ []),
        any_hardware-append flags (mechanical_linkage_jam ∷ []),
      )

  use_feedback-IsConsistent :
      (r : Receiver F) (o : Option (Feedback F)) (ordered dt : F)
      → IsConsistent r
      → IsConsistent (use_feedback r o ordered dt)
  unfolding use_feedback
  use_feedback-IsConsistent r none ordered dt c =
      flag_once-IsConsistent parsing_payload_exception r refl c
  use_feedback-IsConsistent r (some fb) ordered dt c = track-IsConsistent r fb ordered dt

  process_fields-IsConsistent :
      (r : Receiver F) (parts : List Text) (ordered dt : F)
      → IsConsistent r
      → IsConsistent (process_fields r parts ordered dt)
  unfolding process_fields
  process_fields-IsConsistent r [] ordered dt c =
      flag_once-IsConsistent parsing_payload_exception r refl c
  process_fields-IsConsistent r (header ∷ parts) ordered dt c =
      elim (Bool-cases (equal (drop_first header) r.expected_prefix)) [
        | inr other ↦ rw other c
        | inl ours ↦
            rw ours (use_feedback-IsConsistent r (read_feedback (header ∷ parts)) ordered dt c)
      ]

  process_hardware_feedback-IsConsistent :
      (r : Receiver F) (raw : Text) (ordered dt : F)
      → IsConsistent r
      → IsConsistent (process_hardware_feedback r raw ordered dt)
  unfolding process_hardware_feedback
  process_hardware_feedback-IsConsistent r raw ordered dt c =
      elim (Bool-cases (validate_checksum (strip raw))) [
        | inl good ↦ rw good (process_fields-IsConsistent r (fields (strip raw)) ordered dt c)
        | inr bad ↦ rw bad (flag_once-IsConsistent line_noise_corruption r refl c)
      ]

  abbrev pub receive_all : Receiver F → List (FeedbackEvent F) → Receiver F
  receive_all r [] = r
  receive_all r (e ∷ l) =
      receive_all (process_hardware_feedback r e.raw_sentence e.ordered_rudder_deg e.dt) l

  receive_all_keeps :
      (l : List (FeedbackEvent F)) (r : Receiver F)
      → IsConsistent r
      → IsConsistent (receive_all r l)
  receive_all_keeps [] r c = c
  receive_all_keeps (e ∷ l) r c =
      receive_all_keeps l _
        (process_hardware_feedback-IsConsistent r e.raw_sentence e.ordered_rudder_deg e.dt c)

  -- Whatever lines arrive from the start on, valid, garbled or foreign, the jam bit is set exactly
  -- when the jam flag is listed, and the fault bit exactly when a hardware flag is.
  pub receive_all-IsConsistent :
      (manufacturer_code : Text) (l : List (FeedbackEvent F))
      → IsConsistent (receive_all (initial manufacturer_code) l)
  receive_all-IsConsistent manufacturer_code l =
      receive_all_keeps l (initial manufacturer_code)
        (unfold initial in record { jam = refl; active = refl })

  -- A feedback sentence that the steering gear frames, with the receiver's header, no
  -- separator in a field and numbers that can be read, is taken over: the receiver ends in
  -- the state of the linkage test.
  pub process_hardware_feedback-frame :
      (r : Receiver F) (angle status temp : Text) (ordered dt a t : F)
      → AllFields (r.expected_prefix ∷ angle ∷ status ∷ temp ∷ [])
      → fl.read angle ≡ some a
      → fl.read temp ≡ some t
      → process_hardware_feedback r
          (frame (payload_of (r.expected_prefix ∷ angle ∷ status ∷ temp ∷ [])))
          ordered
          dt
        ≡ track r (record { measured_deg = a; status_hex = status; temp_c = t }) ordered dt
  unfolding process_hardware_feedback process_fields read_feedback use_feedback
  process_hardware_feedback-frame r angle status temp ordered dt a t h ra rt = ground (
    arith,
    validate_checksum-payload (r.expected_prefix ∷ angle ∷ status ∷ temp ∷ []) h,
    fields-payload r.expected_prefix (angle ∷ status ∷ temp ∷ []) h,
    equal_self r.expected_prefix,
  )

  -- A sentence that fails the checksum leaves the angle, the temperature, the fault and jam states
  -- and the error clock as they were, and line noise is among the flags afterwards.
  pub process_hardware_feedback-noise :
      (r : Receiver F) (raw : Text) (ordered dt : F)
      → validate_checksum (strip raw) ≡ false
      → let r' = process_hardware_feedback r raw ordered dt in
        (has_fault line_noise_corruption r'.latest_status.fault_flags ≡ true)
        × (r'.latest_status.measured_rudder_deg ≡ r.latest_status.measured_rudder_deg)
        × (r'.latest_status.actuator_temperature_c ≡ r.latest_status.actuator_temperature_c)
        × (r'.latest_status.hardware_faults_active ≡ r.latest_status.hardware_faults_active)
        × (r'.latest_status.linkage_tracking_jammed ≡ r.latest_status.linkage_tracking_jammed)
        × (r'.consecutive_error_seconds ≡ r.consecutive_error_seconds)
  unfolding process_hardware_feedback flag_once
  process_hardware_feedback-noise r raw ordered dt h = (
    ground (arith, has_fault-flag_once line_noise_corruption r),
    ground arith,
    ground arith,
    ground arith,
    ground arith,
    ground arith,
  )
