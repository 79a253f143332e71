-- ===== src/Iface.antt =====
-- crates/tactus/src/iface.rs: which gateways a scan of the interfaces calls for.
pub mod Plan
pub mod Sets
pub mod System
pub mod Scans
pub mod Ascending
