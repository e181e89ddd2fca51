-- ===== src/Routing/Latch.antt =====
-- The fault entry of the live cache.
use univac.Base.{◌≡◌, refl, ap, ◌∙◌, some, true, false, List, [], ◌∷◌, arith}
use univac.Text.{Text}
use univac.Floats.{Floating}
use univac.Feedback.{process_hardware_feedback}
use univac.Routing.Router.{
  Router, RouterEvent, parser_dictionary, constructor_dictionary, new_bridge_router, serial_line,
  engine_output, feedback_line, sender_round, start_services, stop_services,
  get_synchronized_telemetry, write_live, ingest_raw_serial_line, route_calculated_loop_outputs,
  ordered_rudder, ingest_hardware_feedback_line, start_router_services, stop_router_services,
  router_step, router_run,
}

module _ {F : Type 0} ⦃fl : Floating F⦄ where
  -- The parser's dictionary is live and holds the fault.
  abbrev pub Latched : Router F → Type 0
  Latched r =
      (r.live_telemetry_cache ≡ parser_dictionary)
      × (r.parser_entries.hardware_fault_triggered ≡ true)

  router_step-Latched : (e : RouterEvent F) (r : Router F) → Latched r → Latched (router_step e r)
  unfolding router_step ingest_raw_serial_line route_calculated_loop_outputs
      ingest_hardware_feedback_line start_router_services stop_router_services write_live
  router_step-Latched (serial_line raw now) r h = (refl, h.1)
  router_step-Latched (engine_output out) r h = h
  router_step-Latched (feedback_line raw dt) r h = ground arith
  router_step-Latched (sender_round taken) r h = h
  router_step-Latched start_services r h = ground arith
  router_step-Latched stop_services r h = h

  router_run-Latched :
      (l : List (RouterEvent F)) (r : Router F) → Latched r → Latched (router_run l r)
  router_run-Latched [] r h = h
  router_run-Latched (e ∷ l) r h =
      router_run-Latched l (router_step e r) (router_step-Latched e r h)

  router_step-Linked :
      (e : RouterEvent F) (r : Router F)
      → r.live_telemetry_cache ≡ parser_dictionary
      → (router_step e r).live_telemetry_cache ≡ parser_dictionary
  unfolding router_step ingest_raw_serial_line route_calculated_loop_outputs
      ingest_hardware_feedback_line start_router_services stop_router_services write_live
  router_step-Linked (serial_line raw now) r h = refl
  router_step-Linked (engine_output out) r h = h
  router_step-Linked (feedback_line raw dt) r h = ground arith
  router_step-Linked (sender_round taken) r h = h
  router_step-Linked start_services r h = ground arith
  router_step-Linked stop_services r h = h

  router_run-Linked :
      (l : List (RouterEvent F)) (r : Router F)
      → r.live_telemetry_cache ≡ parser_dictionary
      → (router_run l r).live_telemetry_cache ≡ parser_dictionary
  router_run-Linked [] r h = h
  router_run-Linked (e ∷ l) r h = router_run-Linked l (router_step e r) (router_step-Linked e r h)

  ingest-Latched :
      (raw : Text) (dt : F) (r : Router F)
      → r.live_telemetry_cache ≡ parser_dictionary
      → (process_hardware_feedback r.receiver raw
          (ordered_rudder r)
          dt).latest_status.hardware_faults_active
        ≡ true
      → Latched (ingest_hardware_feedback_line raw dt r)
  unfolding ingest_hardware_feedback_line write_live
  ingest-Latched raw dt r h k = ground arith

  Latched-snapshot :
      (r : Router F)
      → Latched r
      → (get_synchronized_telemetry r).entries.hardware_fault_triggered ≡ true
  unfolding get_synchronized_telemetry
  Latched-snapshot r h = ground arith

  first :
      (line : Text) (now : F) (r : Router F)
      → (ingest_raw_serial_line line now r).live_telemetry_cache ≡ parser_dictionary
  unfolding ingest_raw_serial_line
  first line now r = refl

  -- Once a serial line has been read, a feedback that reports active faults sets
  -- hardware_fault_triggered in every later snapshot, whatever lines, commands, rounds, starts and
  -- stops follow: good feedback does not clear it.
  pub router_run-fault_latched :
      (r : Router F) (line : Text) (now : F) (before after : List (RouterEvent F)) (raw : Text)
      (dt : F)
      → let r1 = router_run before (ingest_raw_serial_line line now r) in
        (process_hardware_feedback r1.receiver raw
            (ordered_rudder r1)
            dt).latest_status.hardware_faults_active
          ≡ true
        → (get_synchronized_telemetry (
            router_run after
              (ingest_hardware_feedback_line raw dt r1))).entries.hardware_fault_triggered
          ≡ true
  router_run-fault_latched r line now before after raw dt k =
      let r1 = router_run before (ingest_raw_serial_line line now r) in
      let linked =
        router_run-Linked before (ingest_raw_serial_line line now r) (first line now r) in
      Latched-snapshot (router_run after (ingest_hardware_feedback_line raw dt r1)) (
        router_run-Latched after (ingest_hardware_feedback_line raw dt r1)
          (ingest-Latched raw dt r1 linked k))

  -- Feedback that comes in front of the first serial line.
  abbrev pub feedback_run : List (Text × F) → Router F → Router F
  feedback_run [] r = r
  feedback_run ((raw, dt) ∷ l) r = feedback_run l (ingest_hardware_feedback_line raw dt r)

  ingest-Unlinked :
      (raw : Text) (dt : F) (r : Router F)
      → r.live_telemetry_cache ≡ constructor_dictionary
      → let r' = ingest_hardware_feedback_line raw dt r in
        (r'.live_telemetry_cache ≡ constructor_dictionary) × (r'.parser_entries ≡ r.parser_entries)
  unfolding ingest_hardware_feedback_line write_live
  ingest-Unlinked raw dt r h = ground arith

  feedback_run-Unlinked :
      (l : List (Text × F)) (r : Router F)
      → r.live_telemetry_cache ≡ constructor_dictionary
      → (feedback_run l r).parser_entries ≡ r.parser_entries
  feedback_run-Unlinked [] r h = refl
  feedback_run-Unlinked ((raw, dt) ∷ l) r h =
      let (h', same) = ingest-Unlinked raw dt r h in
      feedback_run-Unlinked l (ingest_hardware_feedback_line raw dt r) h' ∙ same

  new_bridge_router-entries :
      (manufacturer_code : Text)
      → let r : Router F = new_bridge_router manufacturer_code in
        (r.live_telemetry_cache ≡ constructor_dictionary)
        × (r.parser_entries
            ≡ record { rudder_deg = some (fl.lit 0 1); hardware_fault_triggered = false })
  unfolding new_bridge_router
  new_bridge_router-entries manufacturer_code = (refl, refl)

  linked_entries :
      (line : Text) (now : F) (r : Router F)
      → (get_synchronized_telemetry (ingest_raw_serial_line line now r)).entries ≡ r.parser_entries
  unfolding get_synchronized_telemetry ingest_raw_serial_line
  linked_entries line now r = refl

  -- Whatever faults the feedback reports before the first serial line is read, the first serial
  -- line drops them: the snapshot behind it has no hardware_fault_triggered and the rudder at zero.
  pub feedback_run-fault_dropped :
      (manufacturer_code : Text) (l : List (Text × F)) (line : Text) (now : F)
      → let r : Router F =
          ingest_raw_serial_line line now (feedback_run l (new_bridge_router manufacturer_code)) in
        ((get_synchronized_telemetry r).entries.hardware_fault_triggered ≡ false)
        × ((get_synchronized_telemetry r).entries.rudder_deg ≡ some (fl.lit 0 1))
  feedback_run-fault_dropped manufacturer_code l line now =
      let (unlinked, entries) = new_bridge_router-entries manufacturer_code in
      let r = feedback_run l (new_bridge_router manufacturer_code) in
      let kept =
        linked_entries line now r
        ∙ feedback_run-Unlinked l (new_bridge_router manufacturer_code) unlinked
        ∙ entries in
      (ap (λ e. e.hardware_fault_triggered) kept, ap (λ e. e.rudder_deg) kept)
