-- ===== src/Discovery.antt =====
-- crates/tactus-wire/src/discovery.rs: the messages of peer discovery.
pub mod Message
pub mod Encode
pub mod Decode
pub mod Bytes
pub mod State
pub mod RoundTrip
pub mod Totality
pub mod Typed
