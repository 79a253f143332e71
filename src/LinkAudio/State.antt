-- ===== src/LinkAudio/State.antt =====
-- The state of LinkAudio in crates/tactus/src/audio.rs, and what becomes of it when a peer or a gateway
-- goes. Round-trip times are whole microseconds, which a double holds exactly; the beat that a received
-- chunk is stamped with is kept in micro-beats, before the division into a double.
use link_wire_rs.Common.{ℕ, ◌==◌, List, [], Option, none, some, not, take}
use link_wire_rs.Common.Int.{ℤ, pos}
use link_wire_rs.Common.Maps.{retain}
use link_wire_rs.Types.Id
use link_wire_rs.Types.Id.{LinkId}
use link_wire_rs.AudioWire.Message.{max_name}

abbrev pub inbox_limit : ℕ
inbox_limit = 256

pub record KnownChannel : Type 0 where
  pub peer : LinkId
  pub peer_name : List ℕ
  pub name : List ℕ
  pub deadline : ℤ

pub record PathStats : Type 0 where
  pub rtts : List ℤ

pub record Segment : Type 0 where
  pub begin : ℤ
  pub tempo : ℤ
  pub samples : List ℤ

pub record Sink : Type 0 where
  pub id : LinkId
  pub name : List ℕ
  pub requesters : List (LinkId × ℤ)
  pub next_seq : ℕ
  pub segments : List Segment
  pub format : Option (ℕ × ℕ)

pub record ReceivedChunk : Type 0 where
  pub samples : List ℤ
  pub begin_app_beat : ℤ
  pub tempo_micros_per_beat : ℤ
  pub sample_rate : ℕ
  pub channels : ℕ
  pub seq : ℕ

pub record Source : Type 0 where
  pub quantum : ℤ
  pub last_request_at : ℤ
  pub last_buffer_at : ℤ
  pub inbox : List ReceivedChunk
  pub next_seq_expected : Option ℕ
  pub lost_chunks : ℕ

pub record AudioState : Type 0 where
  pub peer_name : List ℕ
  pub sinks : List Sink
  pub sources : List (LinkId × Source)
  pub known : List ((LinkId × ℕ) × KnownChannel)
  pub paths : List ((LinkId × ℕ) × PathStats)
  pub last_announce_at : ℤ

unfoldable pub new : List ℕ → AudioState
new peer_name = record {
  peer_name = take max_name peer_name;
  sinks = [];
  sources = [];
  known = [];
  paths = [];
  last_announce_at = pos 0;
}

-- `peer_left` and `gateway_closed`, which do nothing where LinkAudio is off.
unfoldable pub peer_left : LinkId → Option AudioState → Option AudioState
peer_left node none = none
peer_left node (some audio) = some (record audio {
  known = retain (λ p. not (Id.eqb p.1.peer node)) audio.known;
  paths = retain (λ p. not (Id.eqb p.0.0 node)) audio.paths;
})

unfoldable pub gateway_closed : ℕ → Option AudioState → Option AudioState
gateway_closed gw none = none
gateway_closed gw (some audio) = some (record audio {
  known = retain (λ p. not (p.0.1 == gw)) audio.known;
  paths = retain (λ p. not (p.0.1 == gw)) audio.paths;
})
