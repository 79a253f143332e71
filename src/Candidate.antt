-- ===== src/Candidate.antt =====
-- crates/tactus/src/bin/conformance-peer.rs: a peer that is driven by lines of text.
pub mod Commands
pub mod Lives
pub mod Publishing
