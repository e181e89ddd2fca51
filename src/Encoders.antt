-- ===== src/Encoders.antt =====
-- Encoders and addresses of network_layer: the Gray code of the shaft encoder and the address tokens,
-- and the mainframe words.
pub mod Gray
pub mod GrayRound
pub mod GrayLoop
pub mod Mac
pub mod Words
pub mod Spectrum
