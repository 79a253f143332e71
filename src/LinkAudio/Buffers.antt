-- ===== src/LinkAudio/Buffers.antt =====
-- The buffers that `drain_datagrams` of crates/tactus/src/audio.rs packs are valid, and within their sizing.
use link_wire_rs.Common.{
  ℕ, ◌+◌, ◌*◌, ◌^◌, ◌≤◌, ◌<◌, ◌≡◌, refl, sym, ap, ◌∙◌, List, [], ◌∷◌, length, arith, All,
}
use native.Mathlib.Nat.{mod-eq_of_lt}
use link_wire_rs.AudioWire.Message.{AudioBuffer, Chunk, frames_sum, total_frames}
use link_wire_rs.AudioWire.Samples.{encode_samples, length-encode_samples}
use link_wire_rs.AudioWire.Buffer.{IsAudioBuffer}
use link_wire_rs.LinkAudio.State.{Segment}
use link_wire_rs.LinkAudio.Drain.{Sizing, Packed, Stream, channels_of, buffer_of, sum}
use link_wire_rs.LinkAudio.Planning.{IsTake, cost}
use link_wire_rs.LinkAudio.Packing.{frames_of, Packing}

-- What the types of the fields say, and that there is a channel.
pub record IsStream (str : Stream) : Type 0 where
  pub channel : length str.channel ≡ 8
  pub session : length str.session ≡ 8
  pub sample_rate : str.sample_rate < 2 ^ 32
  pub some_channel : 1 ≤ str.num_channels
  pub num_channels : str.num_channels < 2 ^ 8

-- The takes are within the budget and the cap, and leave no room for another frame.
pub record IsFull (s : Sizing) (fb : ℕ) (ts : List ℕ) : Type 0 where
  pub within : cost s fb ts ≤ s.budget
  pub full : s.budget < cost s fb ts + s.record_cost + fb
  pub sized : All (IsTake s) ts

-- A buffer of a stream that is fit to be sent.
pub record IsSent (str : Stream) (s : Sizing) (b : AudioBuffer) : Type 0 where
  pub valid : IsAudioBuffer b
  pub channels : b.num_channels ≡ str.num_channels
  pub full : IsFull s (2 * channels_of str) (frames_of b.chunks)
  pub bytes : length b.sample_data ≡ sum (frames_of b.chunks) * (2 * channels_of str)

pub frames_sum-frames_of : (cs : List Chunk) → frames_sum cs ≡ sum (frames_of cs)
frames_sum-frames_of [] = refl
frames_sum-frames_of (c ∷ cs) = ap (λ n. c.num_frames + n) (frames_sum-frames_of cs)

pub length-frames_of : (cs : List Chunk) → length (frames_of cs) ≡ length cs
length-frames_of [] = refl
length-frames_of (c ∷ cs) = omega (arith, length-frames_of cs)

pub cost_lem :
    (s : Sizing) (fb : ℕ) (ts : List ℕ) → cost s fb ts ≡ length ts * s.record_cost + sum ts * fb
cost_lem s fb [] = omega arith
cost_lem s fb (t ∷ ts) = omega (arith, cost_lem s fb ts)

pub sum_le_cost : (s : Sizing) (fb : ℕ) (ts : List ℕ) → sum ts * fb ≤ cost s fb ts
sum_le_cost s fb [] = omega arith
sum_le_cost s fb (t ∷ ts) = omega (arith, sum_le_cost s fb ts)

pub length_le_sum : (s : Sizing) (ts : List ℕ) → All (IsTake s) ts → length ts ≤ sum ts
length_le_sum s [] h = omega arith
length_le_sum s (t ∷ ts) (i, h) = omega (arith, i.0, length_le_sum s ts h)

pub le_mul : (n k : ℕ) → 1 ≤ k → n ≤ n * k
le_mul n k h = grind arith

buffer_of-IsAudioBuffer :
    (str : Stream) (s : Sizing) (ts : List ℕ) (seq : ℕ) (segs : List Segment) (p : Packed)
    → IsStream str
    → s.budget < 2 ^ 16
    → IsFull s (2 * channels_of str) ts
    → 1 ≤ length ts
    → Packing (channels_of str) str.sample_rate ts seq segs p
    → IsAudioBuffer (buffer_of str p)
unfolding buffer_of total_frames
buffer_of-IsAudioBuffer str s ts seq segs p i b f o h =
    let ch : channels_of str ≡ str.num_channels = omega arith in
    let frames : frames_sum p.chunks ≡ sum ts = frames_sum-frames_of p.chunks ∙ ap sum h.takes in
    let chunks : length p.chunks ≡ length ts =
      sym (length-frames_of p.chunks) ∙ ap length h.takes in
    let all : sum ts ≤ s.budget = omega (
      arith,
      le_mul (sum ts) (2 * channels_of str) (omega arith),
      sum_le_cost s (2 * channels_of str) ts,
      f.within,
    ) in
    let bytes : length (encode_samples p.samples) ≡ sum ts * (2 * channels_of str) =
      omega (arith, length-encode_samples p.samples, h.size) in
    record {
      channel = i.channel;
      session = i.session;
      some_chunk = omega arith;
      few_chunks = omega (arith, length_le_sum s ts f.sized);
      chunks = h.chunks;
      codec = refl;
      sample_rate = i.sample_rate;
      num_channels = i.num_channels;
      few_bytes = omega (arith, sum_le_cost s (2 * channels_of str) ts, f.within);
      agree =
          rw (frames, mod-eq_of_lt {n = sum ts} {m = 2 ^ 32} (omega arith), bytes, ch)
            (omega arith);
    }

pub buffer_of-IsSent :
    (str : Stream) (s : Sizing) (ts : List ℕ) (seq : ℕ) (segs : List Segment) (p : Packed)
    → IsStream str
    → s.budget < 2 ^ 16
    → IsFull s (2 * channels_of str) ts
    → 1 ≤ length ts
    → Packing (channels_of str) str.sample_rate ts seq segs p
    → IsSent str s (buffer_of str p)
buffer_of-IsSent str s ts seq segs p i b f o h = record {
  valid = buffer_of-IsAudioBuffer str s ts seq segs p i b f o h;
  channels = unfold buffer_of in refl;
  full = unfold buffer_of in rw h.takes f;
  bytes = unfold buffer_of in rw h.takes (omega (arith, length-encode_samples p.samples, h.size));
}
