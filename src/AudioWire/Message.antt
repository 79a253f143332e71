-- ===== src/AudioWire/Message.antt =====
-- The messages and constants of crates/tactus-wire/src/audio.rs.
use link_wire_rs.Common.{ℕ, ◌+◌, ◌%◌, ◌^◌, List, [], ◌∷◌, Option}
use link_wire_rs.Common.Bytes.{fourcc}
use link_wire_rs.Common.Int.{ℤ}
use link_wire_rs.Types.Id.{LinkId}

-- b"chnnlsv\x01"
abbrev pub magic : List ℕ
magic = b'c' ∷ b'h' ∷ b'n' ∷ b'n' ∷ b'l' ∷ b's' ∷ b'v' ∷ 1 ∷ []

abbrev pub max_message_size : ℕ
max_message_size = 1200

abbrev pub max_payload : ℕ
max_payload = 1176

abbrev pub sample_byte_cap : ℕ
sample_byte_cap = 502

abbrev pub max_name : ℕ
max_name = 256

abbrev pub ttl_seconds : ℕ
ttl_seconds = 5

abbrev pub codec_pcm_i16 : ℕ
codec_pcm_i16 = 1

abbrev pub chunk_record_size : ℕ
chunk_record_size = 26

abbrev pub audio_fixed_overhead : ℕ
audio_fixed_overhead = 28

abbrev pub v1_max_chunk_frames : ℕ
v1_max_chunk_frames = 512

abbrev pub type_peer_announcement : ℕ
type_peer_announcement = 1

abbrev pub type_channel_byes : ℕ
type_channel_byes = 2

abbrev pub type_pong : ℕ
type_pong = 3

abbrev pub type_channel_request : ℕ
type_channel_request = 4

abbrev pub type_stop_channel_request : ℕ
type_stop_channel_request = 5

abbrev pub type_audio_buffer : ℕ
type_audio_buffer = 6

-- The keys `sess`, `__pi`, `auca`, `aucb`, `chid` and `__ht`.
abbrev pub sess : ℕ
sess = fourcc b's' b'e' b's' b's'

abbrev pub pi : ℕ
pi = fourcc b'_' b'_' b'p' b'i'

abbrev pub auca : ℕ
auca = fourcc b'a' b'u' b'c' b'a'

abbrev pub aucb : ℕ
aucb = fourcc b'a' b'u' b'c' b'b'

abbrev pub chid : ℕ
chid = fourcc b'c' b'h' b'i' b'd'

abbrev pub ht : ℕ
ht = fourcc b'_' b'_' b'h' b't'

pub record ChannelInfo : Type 0 where
  pub name : List ℕ
  pub id : LinkId

pub record Chunk : Type 0 where
  pub seq : ℕ
  pub num_frames : ℕ
  pub begin_beats : ℤ
  pub tempo : ℤ

pub record AudioBuffer : Type 0 where
  pub channel : LinkId
  pub session : LinkId
  pub chunks : List Chunk
  pub codec : ℕ
  pub sample_rate : ℕ
  pub num_channels : ℕ
  pub sample_data : List ℕ

abbrev pub frames_sum : List Chunk → ℕ
frames_sum [] = 0
frames_sum (c ∷ cs) = c.num_frames + frames_sum cs

-- `AudioBuffer::total_frames`, a sum of `u32`s.
unfoldable pub total_frames : AudioBuffer → ℕ
total_frames buf = frames_sum buf.chunks % 2 ^ 32

pub data Message : Type 0 where
  -- session, peer name, channels and ping
  peer_announcement : LinkId → List ℕ → List ChannelInfo → Option ℤ → Message
  channel_byes : List LinkId → Message
  pong : ℤ → Message
  channel_request : LinkId → Message
  stop_channel_request : LinkId → Message
  audio_buffer : AudioBuffer → Message

pub record Frame : Type 0 where
  pub ttl : ℕ
  pub group_id : ℕ
  pub node : LinkId
  pub message : Message

-- The `ttl` of `Frame::new`.
abbrev pub nominal_ttl : Message → ℕ
nominal_ttl (peer_announcement session peer_name channels ping) = ttl_seconds
nominal_ttl (channel_byes channels) = ttl_seconds
nominal_ttl (pong host_time) = ttl_seconds
nominal_ttl (channel_request channel) = ttl_seconds
nominal_ttl (stop_channel_request channel) = 0
nominal_ttl (audio_buffer buf) = 0

-- `Frame::new`
unfoldable pub new_frame : LinkId → Message → Frame
new_frame node message = record {
  ttl = nominal_ttl message;
  group_id = 0;
  node = node;
  message = message;
}
