-- ===== src/Codec.antt =====
-- crates/tactus-wire/src/codec.rs: the serialization that every message shares.
pub mod Error
pub mod Reader
pub mod Writer
pub mod Entries
pub mod ReadWrite
pub mod EntryBytes
pub mod Scan
pub mod Ending
pub mod Inversion
pub mod Typed
