-- ===== src/Tcp/Safety.antt =====
-- No stream of text brings a setpoint out of its range.
use univac.Base.{
  ◌≡◌, ◌↔◌, true, Option, none, some, List, [], ◌∷◌, ◌++◌, arith, inl, inr, Bool-cases, ap, ◌⊎◌,
}
use mathlib.Core.Path.{subst}
use univac.Text.{Text, codes, split}
use univac.Text.Utf8.{decode_utf8}
use univac.Floats.{Floating, FloatLaws}
use univac.Tcp.{
  is_blank, JsonValue, JsonPayload, json_object, json_not_object, Reply, accepted, Setpoints,
  Session, get_value, validate_values, as_number, rpm_in_range, yaw_in_range,
  validate_and_update_targets, initial_session, handle_packet, handle_line, handle_lines,
  receive_chunk, receive_all,
}

module _ {F : Type 0} ⦃fl : Floating F⦄ where
  -- The setpoints are revolutions in [-200, 1200] and a turning rate in [-0.8, 0.8].
  pub record InRange (sp : Setpoints F) : Type 0 where
    pub rpm : rpm_in_range sp.rpm ≡ true
    pub yaw : yaw_in_range sp.target_yaw_rate ≡ true

  -- The two values are numbers in their ranges.
  abbrev pub Acceptable : JsonValue F → JsonValue F → Setpoints F → Type 0
  Acceptable v w sp =
      (as_number v ≡ some sp.rpm)
      × (as_number w ≡ some sp.target_yaw_rate)
      × (rpm_in_range sp.rpm ≡ true)
      × (yaw_in_range sp.target_yaw_rate ≡ true)

  accepted_values :
      (sp : Setpoints F) (v w : JsonValue F)
      → (validate_values sp v w).0 ≡ accepted
      → Acceptable v w (validate_values sp v w).1
  unfolding validate_values
  accepted_values sp v w h = ground arith

  rejected_values :
      (sp : Setpoints F) (v w : JsonValue F)
      → ((validate_values sp v w).0 ≡ accepted) ⊎ ((validate_values sp v w).1 ≡ sp)
  unfolding validate_values
  rejected_values sp v w = ground arith

  validate_values-Acceptable :
      (sp new : Setpoints F) (v w : JsonValue F)
      → Acceptable v w new
      → validate_values sp v w ≡ (accepted, new)
  unfolding validate_values
  validate_values-Acceptable sp new v w h = ground arith

  -- A packet is accepted exactly when both keys hold numbers (or Booleans) in their ranges, which
  -- are then the setpoints; every other packet leaves the setpoints as they were.
  pub validate_and_update_targets_iff :
      (sp new : Setpoints F) (payload : List (Text × JsonValue F))
      → ((validate_and_update_targets sp payload ≡ (accepted, new))
          ↔ Acceptable
              (get_value (codes "rpm") payload)
              (get_value (codes "target_yaw_rate") payload)
              new)
        × (((validate_and_update_targets sp payload).0 ≡ accepted)
            ⊎ ((validate_and_update_targets sp payload).1 ≡ sp))
  unfolding validate_and_update_targets
  validate_and_update_targets_iff sp new payload =
      let v = get_value (codes "rpm") payload in
      let w = get_value (codes "target_yaw_rate") payload in
      (
        (
          λ e.
              subst (Acceptable v w) (ap (λ (p : Reply × Setpoints F). p.1) e)
                (accepted_values sp v w (ap (λ (p : Reply × Setpoints F). p.0) e)),
          validate_values-Acceptable sp new v w,
        ),
        rejected_values sp v w,
      )

  validate_values-InRange :
      (sp : Setpoints F) (v w : JsonValue F) → InRange sp → InRange (validate_values sp v w).1
  unfolding validate_values
  validate_values-InRange sp v w h = ground arith

  module _ (loads : Text → Option (JsonPayload F)) where
    handle_packet-InRange :
        (o : Option (JsonPayload F)) (s : Session F)
        → InRange s.setpoints
        → InRange (handle_packet loads o s).setpoints
    unfolding handle_packet validate_and_update_targets
    handle_packet-InRange none s h = h
    handle_packet-InRange (some json_not_object) s h = h
    handle_packet-InRange (some (json_object payload)) s h =
        validate_values-InRange s.setpoints _ _ h

    handle_line-InRange :
        (line : Text) (s : Session F)
        → InRange s.setpoints
        → InRange (handle_line loads line s).setpoints
    unfolding handle_line
    handle_line-InRange line s h = elim (Bool-cases (is_blank line)) [
      | inl blank ↦ rw blank h
      | inr full ↦ rw full (handle_packet-InRange (loads line) s h)
    ]

    handle_lines-InRange :
        (lines : List Text) (s : Session F)
        → InRange s.setpoints
        → InRange (handle_lines loads lines s).setpoints
    unfolding handle_lines
    handle_lines-InRange [] s h = h
    handle_lines-InRange (last ∷ []) s h = ground arith
    handle_lines-InRange (line ∷ next ∷ lines) s h =
        let later =
          handle_lines-InRange (next ∷ lines) (handle_line loads line s)
            (handle_line-InRange line s h) in
        elim (Bool-cases s.connected) [ inl open_ ↦ simp open_ later | inr closed ↦ simp closed h ]

    receive_chunk-InRange :
        (chunk : Text) (s : Session F)
        → InRange s.setpoints
        → InRange (receive_chunk loads chunk s).setpoints
    unfolding receive_chunk
    receive_chunk-InRange chunk s h =
        let lines = handle_lines-InRange (split 10 (s.buffer ++ decode_utf8 chunk)) s h in
        ground arith

    receive_keeps :
        (l : List Text) (s : Session F)
        → InRange s.setpoints
        → InRange (receive_all loads l s).setpoints
    receive_keeps [] s h = h
    receive_keeps (c ∷ l) s h =
        receive_keeps l (receive_chunk loads c s) (receive_chunk-InRange c s h)

    -- Whatever a client sends from the start on, cut up in any way, and whatever the parser makes of
    -- it, the setpoints that the bridge reads are in range.
    pub receive_all-InRange :
        (laws : FloatLaws fl) (l : List Text)
        → InRange (receive_all loads l initial_session).setpoints
    receive_all-InRange laws l = receive_keeps l initial_session (
        unfold initial_session in
        record {
          rpm = ground (arith, laws.neg_lit 2000 0 1, laws.lit_mono 0 12000 1 (omega arith));
          yaw = ground (arith, laws.neg_lit 8 0 1, laws.lit_mono 0 8 1 (omega arith));
        })
