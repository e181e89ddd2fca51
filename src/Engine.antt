-- ===== src/Engine.antt =====
-- The floating-point control laws: the bridge engine, the roll stabilizer, the channel trim and the
-- cognitive ring of control_core, the wave processor and the bank tables of hydrodynamics, and
-- hydro_coordinated_predictor.py.
pub mod Bridge
pub mod Loop
pub mod Limits
pub mod Ramp
pub mod Wire
pub mod Trim
pub mod Channel
pub mod Waves
pub mod Swell
pub mod Bank
pub mod Tables
pub mod Ring
pub mod Predictor
pub mod Slew
pub mod Stabilizer
pub mod Deck
pub mod Firing
