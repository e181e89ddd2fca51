-- ===== src/Tests.antt =====
-- Runs of the models at concrete inputs, one module for each part.
pub mod Line
pub mod Steering
pub mod Ledgers
pub mod Commands
pub mod Plant
pub mod Engine
pub mod Waves
pub mod Routes
pub mod Boot
