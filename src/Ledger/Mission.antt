-- ===== src/Ledger/Mission.antt =====
-- The header row of network_layer/data_logger_node.py, a ledger without hash columns.
use univac.Base.{[], ◌∷◌}
use univac.Text.{codes}
use univac.Ledger.{Row}

abbrev pub mission_headers : Row
mission_headers =
    codes "timestamp_epoch"
    ∷ codes "vessel_speed_ms"
    ∷ codes "water_depth_m"
    ∷ codes "shaft_rpm"
    ∷ codes "command_torque_nm"
    ∷ codes "command_rudder_deg"
    ∷ codes "structural_load_pct"
    ∷ codes "ventilation_index"
    ∷ codes "roll_angle_deg"
    ∷ codes "roll_rate_degs"
    ∷ codes "weapon_azimuth_deg"
    ∷ codes "weapon_elevation_deg"
    ∷ codes "computer_temp_c"
    ∷ []
