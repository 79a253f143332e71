-- ===== src/LinkAudio.antt =====
-- crates/tactus/src/audio.rs: the LinkAudio runtime of a peer.
pub mod State
pub mod Deliver
pub mod Inbox
pub mod Inbound
pub mod Windows
pub mod Announce
pub mod Round
pub mod Drain
pub mod Planning
pub mod Frames
pub mod Packing
pub mod Buffers
pub mod Draining
pub mod Stream
pub mod Arrival
pub mod Paths
pub mod Requests
pub mod Write
pub mod Timers
pub mod Writing
pub mod Offers
pub mod Routing
pub mod Misfits
pub mod Sound
pub mod Passes
pub mod Pruning
pub mod Expiry
