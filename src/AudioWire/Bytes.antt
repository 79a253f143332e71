-- ===== src/AudioWire/Bytes.antt =====
-- The bytes that `encode` of crates/tactus-wire/src/audio.rs gives.
use link_wire_rs.Common.{
  ℕ, ◌%◌, ◌^◌, ◌≡◌, refl, sym, ◌∙◌, List, [], ◌∷◌, ◌++◌, Option, none, some, length, append-nil,
  append_assoc,
}
use link_wire_rs.Common.Bytes.{to_be_bytes}
use link_wire_rs.Common.Int.{ℤ}
use link_wire_rs.Codec.Writer
use link_wire_rs.Codec.Writer.{Writer, ◌▸◌}
use link_wire_rs.Codec.EntryBytes.{entry_bytes, entry_lem}
use link_wire_rs.Codec.ReadWrite.{i64_bytes, string_bytes}
use link_wire_rs.Types.Id
use link_wire_rs.Types.Id.{LinkId}
use link_wire_rs.Types.RoundTrip.{write-LinkId}
use link_wire_rs.AudioWire.Message.{
  ChannelInfo, Chunk, AudioBuffer, Message, peer_announcement, channel_byes, pong, channel_request,
  stop_channel_request, audio_buffer, Frame, magic, sess, pi, auca, aucb, chid, ht,
}
use link_wire_rs.AudioWire.Encode.{
  write_channels, write_ids, write_chunks, write_ping, write_channel_list, write_id_list,
  write_buffer, message_type, write_message, encode,
}

abbrev pub channels_bytes : List ChannelInfo → List ℕ
channels_bytes [] = []
channels_bytes (ch ∷ channels) = string_bytes ch.name ++ (ch.id ++ channels_bytes channels)

abbrev pub ids_bytes : List LinkId → List ℕ
ids_bytes [] = []
ids_bytes (i ∷ ids) = i ++ ids_bytes ids

abbrev pub chunk_bytes : Chunk → List ℕ
chunk_bytes c =
    to_be_bytes 8 c.seq
    ++ (to_be_bytes 2 c.num_frames ++ (i64_bytes c.begin_beats ++ i64_bytes c.tempo))

abbrev pub chunks_bytes : List Chunk → List ℕ
chunks_bytes [] = []
chunks_bytes (c ∷ chunks) = chunk_bytes c ++ chunks_bytes chunks

abbrev pub channel_list_bytes : List ChannelInfo → List ℕ
channel_list_bytes channels = to_be_bytes 4 (length channels % 2 ^ 32) ++ channels_bytes channels

abbrev pub id_list_bytes : List LinkId → List ℕ
id_list_bytes ids = to_be_bytes 4 (length ids % 2 ^ 32) ++ ids_bytes ids

-- What stands behind the chunks of a buffer.
abbrev pub tail_bytes : ℕ → ℕ → ℕ → List ℕ → List ℕ
tail_bytes codec sample_rate num_channels sample_data =
    codec
    ∷ (to_be_bytes 4 sample_rate
        ++ (num_channels ∷ (to_be_bytes 2 (length sample_data % 2 ^ 16) ++ sample_data)))

abbrev pub buffer_bytes : AudioBuffer → List ℕ
buffer_bytes buf =
    buf.channel
    ++ (buf.session
        ++ (to_be_bytes 4 (length buf.chunks % 2 ^ 32)
            ++ (chunks_bytes buf.chunks
                ++ tail_bytes buf.codec buf.sample_rate buf.num_channels buf.sample_data)))

abbrev pub ping_bytes : Option ℤ → List ℕ
ping_bytes none = []
ping_bytes (some v) = entry_bytes ht (i64_bytes v)

abbrev pub message_bytes : Message → List ℕ
message_bytes (peer_announcement session peer_name channels ping) =
    entry_bytes sess session
    ++ (entry_bytes pi (string_bytes peer_name)
        ++ (entry_bytes auca (channel_list_bytes channels) ++ ping_bytes ping))
message_bytes (channel_byes channels) = entry_bytes aucb (id_list_bytes channels)
message_bytes (pong host_time) = entry_bytes ht (i64_bytes host_time)
message_bytes (channel_request channel) = entry_bytes chid channel
message_bytes (stop_channel_request channel) = entry_bytes chid channel
message_bytes (audio_buffer buf) = buffer_bytes buf

write-string : (s : List ℕ) (w : Writer) → Writer.string s w ≡ w ++ string_bytes s
unfolding Writer.string Writer.u32 Writer.bytes
write-string s w = append_assoc w (to_be_bytes 4 (length s % 2 ^ 32)) s

write-channels :
    (channels : List ChannelInfo) (w : Writer)
    → write_channels channels w ≡ w ++ channels_bytes channels
unfolding write_channels
write-channels [] w = sym (append-nil w)
write-channels (ch ∷ channels) w =
    write-channels channels (w ▸ Writer.string ch.name ▸ Id.write ch.id)
    ∙ rw (write-LinkId, write-string) (simp append_assoc)

write-ids : (ids : List LinkId) (w : Writer) → write_ids ids w ≡ w ++ ids_bytes ids
unfolding write_ids
write-ids [] w = sym (append-nil w)
write-ids (i ∷ ids) w =
    write-ids ids (Id.write i w) ∙ rw write-LinkId (append_assoc w i (ids_bytes ids))

write-chunks : (chunks : List Chunk) (w : Writer) → write_chunks chunks w ≡ w ++ chunks_bytes chunks
unfolding write_chunks
write-chunks [] w = sym (append-nil w)
write-chunks (c ∷ chunks) w =
    write-chunks chunks _ ∙ unfold Writer.u64 Writer.u16 Writer.i64 in simp append_assoc

write-channel_list :
    (channels : List ChannelInfo) (w : Writer)
    → write_channel_list channels w ≡ w ++ channel_list_bytes channels
unfolding write_channel_list Writer.u32
write-channel_list channels w =
    write-channels channels _ ∙ append_assoc w (to_be_bytes 4 (length channels % 2 ^ 32)) _

write-id_list : (ids : List LinkId) (w : Writer) → write_id_list ids w ≡ w ++ id_list_bytes ids
unfolding write_id_list Writer.u32
write-id_list ids w = write-ids ids _ ∙ append_assoc w (to_be_bytes 4 (length ids % 2 ^ 32)) _

write-buffer : (buf : AudioBuffer) (w : Writer) → write_buffer buf w ≡ w ++ buffer_bytes buf
unfolding write_buffer Writer.u32 Writer.u16 Writer.u8 Writer.bytes
write-buffer buf w = rw (write-chunks, write-LinkId, write-LinkId) (simp append_assoc)

entry-i64 :
    (key : ℕ) (z : ℤ) (w : Writer)
    → Writer.entry key (Writer.i64 z) w ≡ w ++ entry_bytes key (i64_bytes z)
entry-i64 key z w =
    entry_lem key (Writer.i64 z) (i64_bytes z) w (unfold Writer.i64 Writer.u64 in λ u. refl)

write-ping : (ping : Option ℤ) (w : Writer) → write_ping ping w ≡ w ++ ping_bytes ping
unfolding write_ping
write-ping none w = sym (append-nil w)
write-ping (some v) w = entry-i64 ht v w

entry-id :
    (key : ℕ) (i : LinkId) (w : Writer) → Writer.entry key (Id.write i) w ≡ w ++ entry_bytes key i
entry-id key i w = entry_lem key (Id.write i) i w (write-LinkId i)

write-message : (m : Message) (w : Writer) → write_message m w ≡ w ++ message_bytes m
unfolding write_message
write-message (peer_announcement session peer_name channels ping) w =
    write-ping ping _
    ∙ rw
        (
          entry_lem auca (write_channel_list channels) (channel_list_bytes channels) _
              (write-channel_list channels),
          entry_lem pi (Writer.string peer_name) (string_bytes peer_name) _
              (write-string peer_name),
          entry-id sess session w,
        )
        (simp append_assoc)
write-message (channel_byes channels) w =
    entry_lem aucb (write_id_list channels) (id_list_bytes channels) w (write-id_list channels)
write-message (pong host_time) w = entry-i64 ht host_time w
write-message (channel_request channel) w = entry-id chid channel w
write-message (stop_channel_request channel) w = entry-id chid channel w
write-message (audio_buffer buf) w = write-buffer buf w

-- Behind the magic: type, ttl, group, node and message.
pub encode_lem :
    (f : Frame)
    → encode f
      ≡ magic
        ++ (message_type f.message
            ∷ f.ttl
            ∷ (to_be_bytes 2 f.group_id ++ (f.node ++ message_bytes f.message)))
unfolding encode Writer.bytes Writer.u8 Writer.u16
encode_lem f = rw (write-message, write-LinkId, append_assoc, append_assoc)
