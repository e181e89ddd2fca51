-- ===== src/Ledger/Bilge.antt =====
-- The snapshot of bilge_audit_logger.py.
use univac.Base.{ℕ, Option, List, [], ◌∷◌, or_default}
use univac.Text.{Text, codes}
use univac.Text.Decimal.{decimal}
use univac.Floats.{Floating}
use univac.Ledger.{Row}

-- The keys of the authority router's answer that are logged.
pub record ResolvedCommands (F : Type 0) : Type 0 where
  pub active_authority_mode : Option Text
  pub routing_source_string : Option Text
  pub resolved_overboard_valve_open : Option ℕ
  pub resolved_recirculation_valve_open : Option ℕ
  pub total_clean_water_discharged_liters : Option F

pub record BilgeSnapshot (F : Type 0) : Type 0 where
  pub timestamp : F
  pub mode : Text
  pub source : Text
  pub overboard : ℕ
  pub recirc : ℕ
  pub volume : F
  pub ppm : F

abbrev pub bilge_headers : Row
bilge_headers =
    codes "timestamp_epoch"
    ∷ codes "active_authority_mode"
    ∷ codes "routing_source"
    ∷ codes "overboard_valve_state"
    ∷ codes "recirc_valve_state"
    ∷ codes "total_volume_discharged_liters"
    ∷ codes "oil_concentration_ppm"
    ∷ codes "current_row_sha256"
    ∷ codes "previous_row_sha256"
    ∷ []

module _ {F : Type 0} ⦃fl : Floating F⦄ where
  -- The dictionary that `capture_bilge_state_snapshot` queues.
  unfoldable pub bilge_snapshot : F → ResolvedCommands F → F → BilgeSnapshot F
  bilge_snapshot now c oil_ppm = record {
    timestamp = now;
    mode = or_default c.active_authority_mode (codes "UNKNOWN");
    source = or_default c.routing_source_string (codes "UNKNOWN");
    overboard = or_default c.resolved_overboard_valve_open 0;
    recirc = or_default c.resolved_recirculation_valve_open 0;
    volume = or_default c.total_clean_water_discharged_liters (fl.lit 0 1);
    ppm = oil_ppm;
  }

  -- The cells in front of the two hashes.
  abbrev pub bilge_cells : BilgeSnapshot F → List Text
  bilge_cells d =
      fl.repr d.timestamp
      ∷ d.mode
      ∷ d.source
      ∷ decimal d.overboard
      ∷ decimal d.recirc
      ∷ fl.repr d.volume
      ∷ fl.repr d.ppm
      ∷ []
