-- ===== src/AudioWire/Encode.antt =====
-- `encode` of crates/tactus-wire/src/audio.rs.
use link_wire_rs.Common.{ℕ, ◌%◌, ◌^◌, List, [], ◌∷◌, Option, none, some, length}
use link_wire_rs.Common.Int.{ℤ}
use link_wire_rs.Codec.Writer
use link_wire_rs.Codec.Writer.{Writer, ◌▸◌}
use link_wire_rs.Types.Id
use link_wire_rs.Types.Id.{LinkId}
use link_wire_rs.AudioWire.Message.{
  ChannelInfo, Chunk, AudioBuffer, Message, peer_announcement, channel_byes, pong, channel_request,
  stop_channel_request, audio_buffer, Frame, magic, type_peer_announcement, type_channel_byes,
  type_pong, type_channel_request, type_stop_channel_request, type_audio_buffer, sess, pi, auca,
  aucb, chid, ht,
}

-- `for ch in channels { .. }`
unfoldable pub write_channels : List ChannelInfo → Writer → Writer
write_channels [] w = w
write_channels (ch ∷ channels) w =
    write_channels channels (w ▸ Writer.string ch.name ▸ Id.write ch.id)

unfoldable pub write_ids : List LinkId → Writer → Writer
write_ids [] w = w
write_ids (i ∷ ids) w = write_ids ids (w ▸ Id.write i)

unfoldable pub write_chunks : List Chunk → Writer → Writer
write_chunks [] w = w
write_chunks (c ∷ chunks) w =
    write_chunks chunks (
      w
      ▸ Writer.u64 c.seq
      ▸ Writer.u16 c.num_frames
      ▸ Writer.i64 c.begin_beats
      ▸ Writer.i64 c.tempo)

-- `if let Some(ht) = ping { .. }`
unfoldable pub write_ping : Option ℤ → Writer → Writer
write_ping none w = w
write_ping (some v) w = Writer.entry ht (Writer.i64 v) w

-- The closures of the entries `auca` and `aucb`.
unfoldable pub write_channel_list : List ChannelInfo → Writer → Writer
write_channel_list channels w = w ▸ Writer.u32 (length channels % 2 ^ 32) ▸ write_channels channels

unfoldable pub write_id_list : List LinkId → Writer → Writer
write_id_list ids w = w ▸ Writer.u32 (length ids % 2 ^ 32) ▸ write_ids ids

-- The bare structure of an audio buffer.
unfoldable pub write_buffer : AudioBuffer → Writer → Writer
write_buffer buf w =
    w
    ▸ Id.write buf.channel
    ▸ Id.write buf.session
    ▸ Writer.u32 (length buf.chunks % 2 ^ 32)
    ▸ write_chunks buf.chunks
    ▸ Writer.u8 buf.codec
    ▸ Writer.u32 buf.sample_rate
    ▸ Writer.u8 buf.num_channels
    ▸ Writer.u16 (length buf.sample_data % 2 ^ 16)
    ▸ Writer.bytes buf.sample_data

abbrev pub message_type : Message → ℕ
message_type (peer_announcement session peer_name channels ping) = type_peer_announcement
message_type (channel_byes channels) = type_channel_byes
message_type (pong host_time) = type_pong
message_type (channel_request channel) = type_channel_request
message_type (stop_channel_request channel) = type_stop_channel_request
message_type (audio_buffer buf) = type_audio_buffer

unfoldable pub write_message : Message → Writer → Writer
write_message (peer_announcement session peer_name channels ping) w =
    w
    ▸ Writer.entry sess (Id.write session)
    ▸ Writer.entry pi (Writer.string peer_name)
    ▸ Writer.entry auca (write_channel_list channels)
    ▸ write_ping ping
write_message (channel_byes channels) w = w ▸ Writer.entry aucb (write_id_list channels)
write_message (pong host_time) w = w ▸ Writer.entry ht (Writer.i64 host_time)
write_message (channel_request channel) w = w ▸ Writer.entry chid (Id.write channel)
write_message (stop_channel_request channel) w = w ▸ Writer.entry chid (Id.write channel)
write_message (audio_buffer buf) w = write_buffer buf w

unfoldable pub encode : Frame → List ℕ
encode frame =
    Writer.new
    ▸ Writer.bytes magic
    ▸ Writer.u8 (message_type frame.message)
    ▸ Writer.u8 frame.ttl
    ▸ Writer.u16 frame.group_id
    ▸ Id.write frame.node
    ▸ write_message frame.message
