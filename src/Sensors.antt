-- ===== src/Sensors.antt =====
-- The parsers of the incoming serial lines: the gun mount's encoder, as the synchronous and the
-- asynchronous node read it, and the bridge's NMEA instruments. A cache dictionary is a record.
pub mod Encoder
pub mod EncoderFrames
pub mod Instruments
pub mod InstrumentFrames
pub mod Aviation
pub mod AviationFrames
