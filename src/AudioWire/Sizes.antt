-- ===== src/AudioWire/Sizes.antt =====
-- How long the audio buffers of crates/tactus-wire/src/audio.rs are on the wire.
use link_wire_rs.Common.{
  ℕ, ◌+◌, ◌*◌, ◌%◌, ◌^◌, ◌≡◌, ap, List, [], ◌∷◌, ◌++◌, length, length-append, arith,
}
use link_wire_rs.Common.Bytes.{to_be_bytes, as_unsigned, half_64, length-to_be_bytes}
use link_wire_rs.Codec.ReadWrite.{i64_bytes}
use link_wire_rs.Types.Id.{LinkId}
use link_wire_rs.AudioWire.Message.{Chunk, AudioBuffer, audio_buffer, new_frame}
use link_wire_rs.AudioWire.Encode.{message_type, encode}
use link_wire_rs.AudioWire.Bytes.{chunk_bytes, chunks_bytes, tail_bytes, buffer_bytes, encode_lem}
use link_wire_rs.AudioWire.RoundTrip.{length-frame_bytes}

length-chunk_bytes : (c : Chunk) → length (chunk_bytes c) ≡ 26
length-chunk_bytes c = omega (
  arith,
  length-append (to_be_bytes 8 c.seq)
      (to_be_bytes 2 c.num_frames ++ (i64_bytes c.begin_beats ++ i64_bytes c.tempo)),
  length-append (to_be_bytes 2 c.num_frames) (i64_bytes c.begin_beats ++ i64_bytes c.tempo),
  length-append (i64_bytes c.begin_beats) (i64_bytes c.tempo),
  length-to_be_bytes 8 c.seq,
  length-to_be_bytes 2 c.num_frames,
  length-to_be_bytes 8 (as_unsigned half_64 c.begin_beats),
  length-to_be_bytes 8 (as_unsigned half_64 c.tempo),
)

length-chunks_bytes : (cs : List Chunk) → length (chunks_bytes cs) ≡ 26 * length cs
length-chunks_bytes [] = omega arith
length-chunks_bytes (c ∷ cs) = omega (
  arith,
  length-append (chunk_bytes c) (chunks_bytes cs),
  length-chunk_bytes c,
  length-chunks_bytes cs,
)

length-tail_bytes :
    (codec rate channels : ℕ) (bytes : List ℕ)
    → length (tail_bytes codec rate channels bytes) ≡ 8 + length bytes
length-tail_bytes codec rate channels bytes = omega (
  arith,
  length-append (to_be_bytes 4 rate) (channels ∷ (to_be_bytes 2 (length bytes % 2 ^ 16) ++ bytes)),
  length-append (to_be_bytes 2 (length bytes % 2 ^ 16)) bytes,
  length-to_be_bytes 4 rate,
  length-to_be_bytes 2 (length bytes % 2 ^ 16),
)

length-buffer_bytes :
    (b : AudioBuffer)
    → length b.channel ≡ 8
    → length b.session ≡ 8
    → length (buffer_bytes b) ≡ 28 + 26 * length b.chunks + length b.sample_data
length-buffer_bytes b hc hs =
    let tail = tail_bytes b.codec b.sample_rate b.num_channels b.sample_data in
    let count = to_be_bytes 4 (length b.chunks % 2 ^ 32) in
    omega (
      arith,
      length-append b.channel (b.session ++ (count ++ (chunks_bytes b.chunks ++ tail))),
      length-append b.session (count ++ (chunks_bytes b.chunks ++ tail)),
      length-append count (chunks_bytes b.chunks ++ tail),
      length-append (chunks_bytes b.chunks) tail,
      length-to_be_bytes 4 (length b.chunks % 2 ^ 32),
      length-chunks_bytes b.chunks,
      length-tail_bytes b.codec b.sample_rate b.num_channels b.sample_data,
    )

-- The bytes of an audio buffer on the wire.
pub length-encode_buffer :
    (node : LinkId) (b : AudioBuffer)
    → length node ≡ 8
    → length b.channel ≡ 8
    → length b.session ≡ 8
    → length (encode (new_frame node (audio_buffer b)))
      ≡ 48 + 26 * length b.chunks + length b.sample_data
unfolding new_frame
length-encode_buffer node b hn hc hs = omega (
  arith,
  ap length (encode_lem (new_frame node (audio_buffer b))),
  length-frame_bytes (message_type (audio_buffer b)) 0 0 node (buffer_bytes b) hn,
  length-buffer_bytes b hc hs,
)
