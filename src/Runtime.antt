-- ===== src/Runtime.antt =====
-- crates/tactus/src/runtime.rs: a peer's gateways, and what its threads call.
pub mod Gateways
pub mod Sound
pub mod Steps
mod Keys
pub mod House
pub mod Receivers
pub mod Rescans
