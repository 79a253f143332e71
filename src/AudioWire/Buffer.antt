-- ===== src/AudioWire/Buffer.antt =====
-- The audio buffer of crates/tactus-wire/src/audio.rs: what makes one valid, and that a valid one is
-- decoded from its bytes.
use link_wire_rs.Common.{
  ℕ, ◌*◌, ◌<◌, ◌^◌, ◌≡◌, refl, ◌∙◌, not, List, [], ◌∷◌, ◌++◌, length, append-nil, append_assoc,
  ==_self, ==_iff, ◌==◌, false, arith, All,
}
use native.Mathlib.Nat.{mod-eq_of_lt}
use link_wire_rs.Common.Bytes.{InI64}
use link_wire_rs.Codec.Error.{Error, ok, reject_if, ◌>>◌}
use link_wire_rs.Codec.Reader
use link_wire_rs.Codec.Reader.{Reader}
use link_wire_rs.Codec.ReadWrite.{
  take_exact, u8_exact, u16_exact, u32_exact, u64_exact, i64_exact, id_exact,
}
use link_wire_rs.Types.Id
use link_wire_rs.Types.Id.{LinkId}
use link_wire_rs.AudioWire.Message.{Chunk, AudioBuffer, total_frames, codec_pcm_i16}
use link_wire_rs.AudioWire.Decode.{chunks_loop, decode_audio_buffer}
use link_wire_rs.AudioWire.Bytes.{chunks_bytes, buffer_bytes}

-- What the field types say.
pub record IsChunk (c : Chunk) : Type 0 where
  pub seq : c.seq < 2 ^ 64
  pub num_frames : c.num_frames < 2 ^ 16
  pub begin_beats : InI64 c.begin_beats
  pub tempo : InI64 c.tempo

-- Fields in the ranges of their types, at least one chunk, and PCM samples.
pub record HasFields (buf : AudioBuffer) : Type 0 where
  pub channel : length buf.channel ≡ 8
  pub session : length buf.session ≡ 8
  pub some_chunk : 0 < length buf.chunks
  pub few_chunks : length buf.chunks < 2 ^ 32
  pub chunks : All IsChunk buf.chunks
  pub codec : buf.codec ≡ codec_pcm_i16
  pub sample_rate : buf.sample_rate < 2 ^ 32
  pub num_channels : buf.num_channels < 2 ^ 8
  pub few_bytes : length buf.sample_data < 2 ^ 16

-- Fields in the ranges of their types, at least one chunk, PCM samples, and as many bytes as the chunks
-- and channels ask for.
pub record IsAudioBuffer (buf : AudioBuffer) : Type 0 where
  pub channel : length buf.channel ≡ 8
  pub session : length buf.session ≡ 8
  pub some_chunk : 0 < length buf.chunks
  pub few_chunks : length buf.chunks < 2 ^ 32
  pub chunks : All IsChunk buf.chunks
  pub codec : buf.codec ≡ codec_pcm_i16
  pub sample_rate : buf.sample_rate < 2 ^ 32
  pub num_channels : buf.num_channels < 2 ^ 8
  pub few_bytes : length buf.sample_data < 2 ^ 16
  pub agree : total_frames buf * buf.num_channels * 2 ≡ length buf.sample_data

pub id_read : (i rest : List ℕ) → length i ≡ 8 → Id.read (i ++ rest) ≡ ok (i, rest)
unfolding Id.read
id_read i rest h = id_exact i rest h

chunks_loop-exact :
    (cs : List Chunk) (rest : List ℕ)
    → All IsChunk cs
    → chunks_loop (length cs) (chunks_bytes cs ++ rest) ≡ ok (cs, rest)
unfolding chunks_loop
chunks_loop-exact [] rest h = refl
chunks_loop-exact (c ∷ cs) rest (hc, h) = rw (
  append_assoc,
  append_assoc,
  u64_exact c.seq _ hc.seq,
  append_assoc,
  u16_exact c.num_frames _ hc.num_frames,
  append_assoc,
  i64_exact c.begin_beats _ hc.begin_beats,
  i64_exact c.tempo _ hc.tempo,
  chunks_loop-exact cs rest h,
)

not-zero : (n : ℕ) → 0 < n → (n == 0) ≡ false
not-zero n h = ground arith

take_all : (xs : List ℕ) → Reader.take (length xs) xs ≡ ok (xs, [])
take_all xs = rw (append-nil xs) at (take_exact (length xs) xs [] refl)

IsAudioBuffer-HasFields : (buf : AudioBuffer) → IsAudioBuffer buf → HasFields buf
IsAudioBuffer-HasFields buf h = record {
  channel = h.channel;
  session = h.session;
  some_chunk = h.some_chunk;
  few_chunks = h.few_chunks;
  chunks = h.chunks;
  codec = h.codec;
  sample_rate = h.sample_rate;
  num_channels = h.num_channels;
  few_bytes = h.few_bytes;
}

-- What is left to the decoder where the fields are in their ranges.
pub decode-fields :
    (buf : AudioBuffer)
    → HasFields buf
    → decode_audio_buffer (buffer_bytes buf) ≡ (
        reject_if
          (not (total_frames buf * buf.num_channels * 2 == length buf.sample_data))
          (Error.malformed "frame count and sample bytes disagree")
        >> ok buf)
unfolding decode_audio_buffer
decode-fields buf h = rw (
  id_read buf.channel _ h.channel,
  id_read buf.session _ h.session,
  mod-eq_of_lt h.few_chunks,
  u32_exact (length buf.chunks) _ h.few_chunks,
  not-zero (length buf.chunks) h.some_chunk,
  chunks_loop-exact buf.chunks _ h.chunks,
  u8_exact buf.codec,
  u32_exact buf.sample_rate _ h.sample_rate,
  u8_exact buf.num_channels,
  mod-eq_of_lt h.few_bytes,
  u16_exact (length buf.sample_data) buf.sample_data h.few_bytes,
  ==_self (length buf.sample_data),
  take_all buf.sample_data,
  (==_iff buf.codec codec_pcm_i16).1 h.codec,
)

-- A valid buffer is decoded from its bytes.
pub decode-buffer_bytes :
    (buf : AudioBuffer) → IsAudioBuffer buf → decode_audio_buffer (buffer_bytes buf) ≡ ok buf
decode-buffer_bytes buf h =
    decode-fields buf (IsAudioBuffer-HasFields buf h)
    ∙ rw ((==_iff (total_frames buf * buf.num_channels * 2) (length buf.sample_data)).1 h.agree)
        refl
