-- ===== src/AudioWire/Decode.antt =====
-- `decode` and its parts, crates/tactus-wire/src/audio.rs.
use link_wire_rs.Common.{
  ℕ, zero, suc, ◌*◌, List, [], ◌∷◌, Option, none, some, ltb, ◌==◌, ◌||◌, not, if◌then◌else◌,
}
use link_wire_rs.Common.Bytes.{bytes_eqb}
use link_wire_rs.Common.Int.{ℤ}
use link_wire_rs.Codec.Error.{Error, Result, ok, err, ◌>>=◌, ◌>>◌, reject_if}
use link_wire_rs.Codec.Reader
use link_wire_rs.Codec.Reader.{Reader}
use link_wire_rs.Codec.Entries
use link_wire_rs.Codec.Entries.{Entry, scan}
use link_wire_rs.Types.Id
use link_wire_rs.Types.Id.{LinkId}
use link_wire_rs.AudioWire.Message.{
  ChannelInfo, Chunk, AudioBuffer, total_frames, Message, peer_announcement, channel_byes, pong,
  channel_request, stop_channel_request, audio_buffer, Frame, magic, type_peer_announcement,
  type_channel_byes, type_pong, type_channel_request, type_stop_channel_request, type_audio_buffer,
  sess, pi, auca, aucb, chid, ht, codec_pcm_i16,
}

-- `option.ok_or(Error::Malformed(why))?`
abbrev pub ok_or {ℓ} : {A : Type ℓ} → Error → Option A → Result A
ok_or e none = err e
ok_or e (some a) = ok a

-- `for _ in 0..count { if r.is_empty() { break; } .. }`, over channels and over ids.
unfoldable pub channels_loop : ℕ → Reader → Result (List ChannelInfo × Reader)
channels_loop zero r = ok ([], r)
channels_loop (suc count) r = if Reader.is_empty r then ok ([], r) else (do
  (name, r1) ← Reader.string r
  (id, r2) ← Id.read r1
  (out, r3) ← channels_loop count r2
  ok (record { name = name; id = id } ∷ out, r3))

unfoldable pub ids_loop : ℕ → Reader → Result (List LinkId × Reader)
ids_loop zero r = ok ([], r)
ids_loop (suc count) r =
    if Reader.is_empty r
    then ok ([], r)
    else (do (id, r1) ← Id.read r; (out, r2) ← ids_loop count r1; ok (id ∷ out, r2))

-- The closures of the entries `auca` and `aucb`.
unfoldable pub read_channels : Reader → Result (List ChannelInfo × Reader)
read_channels r = do (count, r1) ← Reader.u32 r; channels_loop count r1

unfoldable pub read_ids : Reader → Result (List LinkId × Reader)
read_ids r = do (count, r1) ← Reader.u32 r; ids_loop count r1

-- The variables of `decode_announcement`.
pub record Announcement : Type 0 where
  pub session : Option LinkId
  pub peer_name : List ℕ
  pub channels : List ChannelInfo
  pub ping : Option ℤ

abbrev pub no_announcement : Announcement
no_announcement = record { session = none; peer_name = []; channels = []; ping = none }

unfoldable pub announcement_step : Announcement → Entry → Result Announcement
announcement_step s e =
    if e.key == sess
    then (do v ← Entries.decode e Id.read; ok (record s { session = some v }))
    else if e.key == pi
    then (do v ← Entries.decode e Reader.string; ok (record s { peer_name = v }))
    else if e.key == auca
    then (do v ← Entries.decode e read_channels; ok (record s { channels = v }))
    else if e.key == ht
    then (do v ← Entries.decode e Reader.i64; ok (record s { ping = some v }))
    else ok s

unfoldable pub decode_announcement : List ℕ → Result Message
decode_announcement payload = do
  s ← scan announcement_step no_announcement payload
  session ← ok_or (Error.malformed "announcement missing sess") s.session
  ok (peer_announcement session s.peer_name s.channels s.ping)

unfoldable pub byes_step : List LinkId → Entry → Result (List LinkId)
byes_step channels e = if e.key == aucb then Entries.decode e read_ids else ok channels

unfoldable pub decode_byes : List ℕ → Result Message
decode_byes payload = do channels ← scan byes_step [] payload; ok (channel_byes channels)

unfoldable pub pong_step : Option ℤ → Entry → Result (Option ℤ)
pong_step host_time e =
    if e.key == ht then (do v ← Entries.decode e Reader.i64; ok (some v)) else ok host_time

unfoldable pub decode_pong : List ℕ → Result Message
decode_pong payload = do
  host_time ← scan pong_step none payload
  v ← ok_or (Error.malformed "pong missing __ht") host_time
  ok (pong v)

unfoldable pub request_step : Option LinkId → Entry → Result (Option LinkId)
request_step channel e =
    if e.key == chid then (do v ← Entries.decode e Id.read; ok (some v)) else ok channel

unfoldable pub decode_request : ℕ → List ℕ → Result Message
decode_request msg_type payload = do
  found ← scan request_step none payload
  channel ← ok_or (Error.malformed "request missing chid") found
  if msg_type == type_channel_request
      then ok (channel_request channel)
      else ok (stop_channel_request channel)

-- `for _ in 0..chunk_count { .. }`
unfoldable pub chunks_loop : ℕ → Reader → Result (List Chunk × Reader)
chunks_loop zero r = ok ([], r)
chunks_loop (suc count) r = do
  (seq, r1) ← Reader.u64 r
  (num_frames, r2) ← Reader.u16 r1
  (begin_beats, r3) ← Reader.i64 r2
  (tempo, r4) ← Reader.i64 r3
  (chunks, r5) ← chunks_loop count r4
  ok (
    record { seq = seq; num_frames = num_frames; begin_beats = begin_beats; tempo = tempo }
        ∷ chunks,
    r5,
  )

unfoldable pub decode_audio_buffer : List ℕ → Result AudioBuffer
decode_audio_buffer payload = do
  (channel, r1) ← Id.read payload
  (session, r2) ← Id.read r1
  (chunk_count, r3) ← Reader.u32 r2
  reject_if (chunk_count == 0) (Error.malformed "audio buffer with zero chunks")
  (chunks, r4) ← chunks_loop chunk_count r3
  (codec, r5) ← Reader.u8 r4
  (sample_rate, r6) ← Reader.u32 r5
  (num_channels, r7) ← Reader.u8 r6
  (num_bytes, r8) ← Reader.u16 r7
  reject_if (not (Reader.remaining r8 == num_bytes))
      (Error.malformed "sample bytes do not fill the datagram")
  (sample_data, r9) ← Reader.take num_bytes r8
  let buf : AudioBuffer = record {
    channel = channel;
    session = session;
    chunks = chunks;
    codec = codec;
    sample_rate = sample_rate;
    num_channels = num_channels;
    sample_data = sample_data;
  }
  reject_if (not (codec == codec_pcm_i16)) (Error.malformed "unsupported codec")
  reject_if (not (total_frames buf * num_channels * 2 == num_bytes))
      (Error.malformed "frame count and sample bytes disagree")
  ok buf

-- `match msg_type { .. }`
unfoldable pub decode_message : ℕ → List ℕ → Result Message
decode_message msg_type payload =
    if msg_type == type_peer_announcement
    then decode_announcement payload
    else if msg_type == type_channel_byes
    then decode_byes payload
    else if msg_type == type_pong
    then decode_pong payload
    else if msg_type == type_channel_request || msg_type == type_stop_channel_request
    then decode_request msg_type payload
    else if msg_type == type_audio_buffer
    then (do buf ← decode_audio_buffer payload; ok (audio_buffer buf))
    else err (Error.unknown_message_type msg_type)

unfoldable pub decode : List ℕ → Result Frame
decode datagram = do
  reject_if (ltb (Reader.remaining datagram) 20) Error.truncated
  (head, r1) ← Reader.take 8 datagram
  reject_if (not (bytes_eqb head magic)) Error.bad_magic
  (msg_type, r2) ← Reader.u8 r1
  (ttl, r3) ← Reader.u8 r2
  (group_id, r4) ← Reader.u16 r3
  (node, r5) ← Id.read r4
  message ← decode_message msg_type (Reader.rest r5)
  ok (record { ttl = ttl; group_id = group_id; node = node; message = message })
