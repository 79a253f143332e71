-- ===== src/Engine.antt =====
-- crates/tactus/src/engine.rs: the state machine of a peer.
pub mod State
pub mod Median
pub mod Send
pub mod Election
pub mod Measure
pub mod Gossip
pub mod Housekeeping
pub mod Silence
pub mod Settles
pub mod Priority
pub mod Membership
pub mod Responder
pub mod Budget
pub mod Retries
pub mod Hearing
pub mod Runs
pub mod Ends
pub mod Retried
pub mod Rounds
pub mod Wakes
