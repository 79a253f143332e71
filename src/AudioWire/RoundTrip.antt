-- ===== src/AudioWire/RoundTrip.antt =====
-- Frames that `encode` of crates/tactus-wire/src/audio.rs wrote decode to themselves.
use link_wire_rs.Common.{
  ℕ, ◌+◌, ◌<◌, ◌^◌, ◌≡◌, refl, ◌∙◌, List, ◌∷◌, ◌++◌, length, length-append, le→ltb, arith, All,
}
use link_wire_rs.Common.Bytes.{to_be_bytes, length-to_be_bytes, bytes_eqb_self, InI64}
use link_wire_rs.Codec.Error.{ok, ◌>>=◌}
use link_wire_rs.Codec.ReadWrite.{take_exact, u8_exact, u16_exact}
use link_wire_rs.Types.Id.{LinkId}
use link_wire_rs.AudioWire.Message.{
  Message, peer_announcement, channel_byes, pong, channel_request, stop_channel_request,
  audio_buffer, Frame, magic,
}
use link_wire_rs.AudioWire.Encode.{message_type, encode}
use link_wire_rs.AudioWire.Decode.{decode_message, decode}
use link_wire_rs.AudioWire.Bytes.{id_list_bytes, message_bytes, encode_lem}
use link_wire_rs.AudioWire.Buffer.{IsAudioBuffer, decode-buffer_bytes, id_read}
use link_wire_rs.AudioWire.Payload.{
  IsAnnouncement, decode_announcement-bytes, decode_byes-bytes, decode_pong-bytes,
  decode_request-bytes,
}

-- Fields in the ranges of their types, and lists of a size that their length fields can carry.
abbrev pub IsMessage : Message → Type 0
IsMessage (peer_announcement session peer_name channels ping) =
    IsAnnouncement session peer_name channels ping
IsMessage (channel_byes ids) =
    All (λ i. length i ≡ 8) ids × (length ids < 2 ^ 32) × (length (id_list_bytes ids) < 2 ^ 32)
IsMessage (pong host_time) = InI64 host_time
IsMessage (channel_request channel) = length channel ≡ 8
IsMessage (stop_channel_request channel) = length channel ≡ 8
IsMessage (audio_buffer buf) = IsAudioBuffer buf

pub record IsFrame (f : Frame) : Type 0 where
  pub ttl : f.ttl < 2 ^ 8
  pub group_id : f.group_id < 2 ^ 16
  pub node : length f.node ≡ 8
  pub message : IsMessage f.message

-- The 20-byte prefix of a frame, and what follows it.
abbrev pub frame_bytes : ℕ → ℕ → ℕ → LinkId → List ℕ → List ℕ
frame_bytes msg_type ttl group_id node payload =
    magic ++ (msg_type ∷ ttl ∷ (to_be_bytes 2 group_id ++ (node ++ payload)))

pub length-frame_bytes :
    (msg_type ttl group_id : ℕ) (node : LinkId) (payload : List ℕ)
    → length node ≡ 8
    → length (frame_bytes msg_type ttl group_id node payload) ≡ 20 + length payload
length-frame_bytes msg_type ttl group_id node payload h = omega (
  arith,
  length-append (to_be_bytes 2 group_id) (node ++ payload),
  length-append node payload,
  length-to_be_bytes 2 group_id,
)

-- Behind the prefix the decoder hands the rest to the decoder of the message type.
pub decode-frame_bytes :
    (msg_type ttl group_id : ℕ) (node : LinkId) (payload : List ℕ)
    → group_id < 2 ^ 16
    → length node ≡ 8
    → decode (frame_bytes msg_type ttl group_id node payload) ≡ (
        decode_message msg_type payload >>= λ m.
        ok (record { ttl = ttl; group_id = group_id; node = node; message = m }))
unfolding decode
decode-frame_bytes msg_type ttl group_id node payload hg hn = rw (
  le→ltb (length (frame_bytes msg_type ttl group_id node payload)) 20
      (omega (arith, length-frame_bytes msg_type ttl group_id node payload hn)),
  take_exact 8 magic _ refl,
  bytes_eqb_self magic,
  u8_exact msg_type,
  u8_exact ttl,
  u16_exact group_id _ hg,
  id_read node payload hn,
)

decode_message-bytes :
    (m : Message) → IsMessage m → decode_message (message_type m) (message_bytes m) ≡ ok m
unfolding decode_message
decode_message-bytes (peer_announcement session peer_name channels ping) h =
    decode_announcement-bytes session peer_name channels ping h
decode_message-bytes (channel_byes ids) (h, few, fits) = decode_byes-bytes ids h few fits
decode_message-bytes (pong host_time) h = decode_pong-bytes host_time h
decode_message-bytes (channel_request channel) h = (decode_request-bytes channel h).0
decode_message-bytes (stop_channel_request channel) h = (decode_request-bytes channel h).1
decode_message-bytes (audio_buffer buf) h = rw (decode-buffer_bytes buf h)

-- Every frame with fields in range, its lists and names of a size that their length fields carry,
-- decodes to itself, for each of the six messages; an audio buffer has a chunk and as many sample
-- bytes as its chunks and channels ask for.
pub decode-encode_audio : (f : Frame) → IsFrame f → decode (encode f) ≡ ok f
decode-encode_audio f h = rw (encode_lem f) (
    decode-frame_bytes (message_type f.message) f.ttl f.group_id f.node _ h.group_id h.node
    ∙ rw (decode_message-bytes f.message h.message))
