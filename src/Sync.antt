-- ===== src/Sync.antt =====
-- crates/tactus-wire/src/sync.rs: the ping and pong of clock measurement.
pub mod Message
pub mod Encode
pub mod Decode
pub mod RoundTrip
pub mod Totality
