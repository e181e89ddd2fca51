-- ===== src/Config.antt =====
-- The boot-time checks of src/config: the vessel's profile, the network handshake and the serial
-- loopback test.
pub mod Profile
pub mod Loading
pub mod Serial
pub mod Loopback
pub mod Handshake
pub mod Echo
