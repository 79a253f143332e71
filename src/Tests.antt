-- ===== src/Tests.antt =====
-- Concrete inputs on which the theorems are applied.
mod Wire
mod Scans
mod Typed
mod Peer
mod Grid
mod Session
mod Stream
mod Sender
mod Life
mod Retry
mod Beats
mod Driver
