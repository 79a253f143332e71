-- ===== src/AudioWire.antt =====
-- crates/tactus-wire/src/audio.rs: the messages of LinkAudio.
pub mod Message
pub mod Encode
pub mod Decode
pub mod Samples
pub mod Bytes
pub mod Buffer
pub mod Lists
pub mod Payload
pub mod RoundTrip
pub mod Totality
pub mod Sizes
