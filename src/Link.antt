-- ===== src/Link.antt =====
-- crates/tactus/src/lib.rs: the calls of the application.
pub mod Calls
pub mod Transport
pub mod Propagates
pub mod Audio
pub mod Visible
pub mod Queries
