-- ===== src/Types.antt =====
-- crates/tactus-wire/src/types.rs: the value types that the messages share.
pub mod Id
pub mod Timeline
pub mod StartStop
pub mod Endpoint
pub mod RoundTrip
