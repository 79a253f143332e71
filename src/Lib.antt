-- ===== src/Lib.antt =====
-- Verification of tactus, an implementation of the Link protocol for musical tempo: the wire format
-- (crates/tactus-wire) and the state machine of a peer (crates/tactus).
--
-- Peers on a local network gossip their state in discovery messages. A peer takes the timeline and the
-- start/stop state of its own session from that gossip, measures the clock of any other session by pings
-- and pongs, and joins the session whose clock is ahead. LinkAudio carries audio between peers of a session.
--
-- The files, and what of the repository each models:
--   Common        lists, integers, bytes and maps that the rest shares.
--   Codec         crates/tactus-wire/src/codec.rs. A `Reader` is the list of the bytes that are left, a
--                 `Writer` the list of the bytes written, so that `&mut self` is a result. `Writer::entry`
--                 writes a size of 0 and patches it, as the source does. Entries are read by `scan`, the
--                 `for` loop over the iterator, on as much fuel as there are bytes: every entry takes
--                 eight of them at least. `stuck` marks a loop out of fuel; the source has no such error.
--   Types         crates/tactus-wire/src/types.rs. An id is its bytes, an address the number of its bits.
--   Sync          crates/tactus-wire/src/sync.rs.
--   Discovery     crates/tactus-wire/src/discovery.rs.
--   AudioWire     crates/tactus-wire/src/audio.rs.
--   Math          crates/tactus/src/math.rs. `i64` arithmetic wraps around, as in a release build; `i128`
--                 products are exact, being in range for all `i64` factors. What is computed with doubles
--                 (Float) takes their arithmetic as an argument, of which nothing is assumed.
--   LinkAudio     crates/tactus/src/audio.rs. Receiving: `handle_datagram` (Inbound) and `deliver` (Deliver,
--                 Inbox). Sending: `drain_datagrams` (Drain), `write_sink` (Write), paths and requests (Paths,
--                 Requests), announcements (Announce, Round), `housekeeping` (Timers). Loops run on fuel: a
--                 round has a message more than there are channels at most, since every message but an empty
--                 one takes a channel; a drain has a datagram more than there are pending frames at most, and
--                 its planner a take per frame, since each takes a frame; ids are cut into as many chunks as
--                 there are ids at most. `none` is out of fuel, or a panic: a division by 0 in
--                 `frames_to_micro_beats`, a segment that is missing or too short for the plan. The quality
--                 of a path, a double with a square root, is the argument `rank`: the place of the value in
--                 the order of `total_cmp`, by which alone the code compares it.
--   Iface         crates/tactus/src/iface.rs: the plan of a rescan (Plan), and the enumeration of interfaces on
--                 unix, Windows and elsewhere (System). What the system answers and the numbers of its flags
--                 are arguments. `GetAdaptersAddresses` is called on fuel: four calls are all that the code makes.
--   Engine        crates/tactus/src/engine.rs. Every handler is a function of the state, which all of them
--                 change under one lock, so that a run is a sequence of handler calls. The state also counts
--                 the readings of the clock and the ids drawn, and collects what was sent, in order;
--                 `Env` gives the n-th reading and the n-th id. Hash maps are association lists in the order
--                 of their iteration, whatever it is. Offset samples, doubles in the source, are integers in
--                 half microseconds: exact as long as times stay below 2^52 microseconds.
--   Link          crates/tactus/src/lib.rs: setting tempo and transport, the count of peers (Calls), beat
--                 queries, snapshots of a session and the calls of LinkAudio that take beats (Queries), polling
--                 and listing channels, `simulate_crash` (Audio).
--   Runtime       crates/tactus/src/runtime.rs: `enable`, `disable`, opening gateways, what a receiver does
--                 with a datagram and what a rescan does with a scan (Gateways). `Step` (Steps) is any of
--                 these, a pass of housekeeping or a call of the application, and `Reach` any number of
--                 steps in any order, since each holds the lock. What opening a socket gives is an argument.
--   Candidate     crates/tactus/src/bin/conformance-peer.rs: reading lines and carrying out their commands
--                 (Commands). A line is its code points. Between two lines the receivers, housekeeping and
--                 rescans may do any steps, but none between two calls of one command, each of which takes
--                 the lock; the end of the list is the end of the input.
--   Tests         the theorems at concrete inputs.
--
-- Not modelled: the opening of sockets, a sequence of calls of the system (crates/tactus/src/net.rs); starting
-- threads and their waits (crates/tactus/src/runtime.rs); the formula of `PathStats::quality`, a double; the
-- thread of the conformance peer that prints its status and generates a sine, whose only calls that change the
-- peer are a write and a poll. Waking the housekeeping thread changes no state and is left out.
pub mod Common
pub mod Codec
pub mod Types
pub mod Sync
pub mod Discovery
pub mod AudioWire
pub mod Math
pub mod LinkAudio
pub mod Iface
pub mod Engine
pub mod Link
pub mod Runtime
pub mod Candidate
pub mod Tests
