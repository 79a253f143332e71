-- ===== src/LinkAudio/Stream.antt =====
-- What `drain_datagrams` of crates/tactus/src/audio.rs promises to the sinks that call it, and what the
-- receivers of its datagrams get.
use link_wire_rs.Common.{
  ℕ, ◌+◌, ◌*◌, ◌≤◌, ◌<◌, ◌≡◌, sym, ◌∙◌, List, [], ◌∷◌, ◌++◌, length, some, of_some, Bool, true,
  false, arith, All,
}
use link_wire_rs.Codec.Error.{ok}
use link_wire_rs.Types.Id.{LinkId}
use link_wire_rs.AudioWire.Message.{
  AudioBuffer, Chunk, audio_buffer, new_frame, max_payload, sample_byte_cap, v1_max_chunk_frames,
}
use link_wire_rs.AudioWire.Encode.{encode}
use link_wire_rs.AudioWire.Decode.{decode}
use link_wire_rs.AudioWire.Sizes.{length-encode_buffer}
use link_wire_rs.AudioWire.RoundTrip.{decode-encode_audio}
use link_wire_rs.LinkAudio.State.{Sink}
use link_wire_rs.LinkAudio.Drain.{
  Sizing, sizing, frame_counts, Stream, channels_of, drain_datagrams, sum,
}
use link_wire_rs.LinkAudio.Planning.{Usable, IsTake}
use link_wire_rs.LinkAudio.Frames.{whole_frames-InSigned}
use link_wire_rs.LinkAudio.Packing.{Numbered, frames_of}
use link_wire_rs.LinkAudio.Buffers.{IsStream, IsSent, cost_lem, sum_le_cost, length-frames_of}
use link_wire_rs.LinkAudio.Draining.{
  IsSink, sent_samples, sent_chunks, pending_frames, Drained, drain_loop-Drained,
}

-- A frame, and the record of its chunk, fit an empty datagram.
abbrev pub HasRoom : Stream → Bool → Type 0
HasRoom str fill = (sizing fill).record_cost + 2 * channels_of str ≤ (sizing fill).budget

-- A stream and a sink that `drain_datagrams` serves: of at least one channel, with room for a frame, and in every
-- segment a tempo that, times the sample rate, is not zero.
pub record CanDrain (str : Stream) (fill : Bool) (sink : Sink) : Type 0 where
  pub stream : IsStream str
  pub room : HasRoom str fill
  pub state : IsSink str.sample_rate sink

sizing-Usable :
    (str : Stream) (fill : Bool) → HasRoom str fill → Usable (sizing fill) (2 * channels_of str)
unfolding sizing
sizing-Usable str true h = record {
  frame_bytes = omega arith;
  cap = omega arith;
  room = h;
  small = omega arith;
}
sizing-Usable str false h = record {
  frame_bytes = omega arith;
  cap = omega arith;
  room = h;
  small = omega arith;
}

pub drain_datagrams-Drained :
    (str : Stream) (fill : Bool) (sink : Sink)
    → CanDrain str fill sink
    → (bufs : List AudioBuffer) × (sink' : Sink) × (drain_datagrams str fill sink
        ≡ some (bufs, sink'))
      × Drained str (sizing fill) sink bufs sink'
unfolding drain_datagrams
drain_datagrams-Drained str fill sink h =
    drain_loop-Drained str (sizing fill) _ sink h.stream (sizing-Usable str fill h.room)
      (omega arith) h.state
      (whole_frames-InSigned (channels_of str) str.sample_rate sink.segments h.state.segments)

pub drain-Drained :
    (str : Stream) (fill : Bool) (sink : Sink) (bufs : List AudioBuffer) (sink' : Sink)
    → CanDrain str fill sink
    → drain_datagrams str fill sink ≡ some (bufs, sink')
    → Drained str (sizing fill) sink bufs sink'
drain-Drained str fill sink bufs sink' h e =
    let (bufs0, sink0, e0, d) = drain_datagrams-Drained str fill sink h in
    of_some (λ r. Drained str (sizing fill) sink r.0 r.1) (bufs0, sink0) (bufs, sink') (sym e0 ∙ e)
      d

-- For a stream of at least one channel, of which a frame and the record of its chunk fit an empty datagram, and a
-- sink of segments whose tempo times the stream's sample rate is not zero: the loop ends, and panics nowhere. The
-- samples that leave, followed by the whole frames that stay, are the whole frames that were pending, in order, and
-- what stays does not fill a datagram.
pub drain_conserves :
    (str : Stream) (fill : Bool) (sink : Sink)
    → CanDrain str fill sink
    → (bufs : List AudioBuffer) × (sink' : Sink) × (drain_datagrams str fill sink
        ≡ some (bufs, sink'))
      × (sent_samples bufs ++ pending_frames str (sizing fill) sink'
          ≡ pending_frames str (sizing fill) sink)
      × (sum (frame_counts (channels_of str) sink'.segments) * (2 * channels_of str)
          < (sizing fill).budget)
drain_conserves str fill sink h =
    let (bufs, sink', e, d) = drain_datagrams-Drained str fill sink h in
    (bufs, sink', e, d.frames, omega (arith, d.rest))

-- What the sizing promises of a datagram: in the fill sizing it is within the payload budget and its chunks
-- within the bound of v1 endpoints, in the reference sizing its samples are within the cap.
abbrev pub IsSized : Bool → LinkId → AudioBuffer → Type 0
IsSized true node b =
    (length (encode (new_frame node (audio_buffer b))) ≤ 20 + max_payload)
    × All (λ n. n ≤ v1_max_chunk_frames) (frames_of b.chunks)
IsSized false node b = length b.sample_data ≤ sample_byte_cap

All-cap : (s : Sizing) (ts : List ℕ) → All (IsTake s) ts → All (λ n. n ≤ s.chunk_cap) ts
All-cap s [] h = tt
All-cap s (t ∷ ts) (i, h) = (i.1, All-cap s ts h)

IsSent-IsSized :
    (str : Stream) (fill : Bool) (node : LinkId) (b : AudioBuffer)
    → length node ≡ 8
    → IsSent str (sizing fill) b
    → IsSized fill node b
unfolding sizing
IsSent-IsSized str true node b n h = (
  omega (
    arith,
    length-encode_buffer node b n h.valid.channel h.valid.session,
    cost_lem (sizing true) (2 * channels_of str) (frames_of b.chunks),
    length-frames_of b.chunks,
    h.full.within,
    h.bytes,
  ),
  All-cap (sizing true) (frames_of b.chunks) h.full.sized,
)
IsSent-IsSized str false node b n h = omega (
  arith,
  sum_le_cost (sizing false) (2 * channels_of str) (frames_of b.chunks),
  h.full.within,
  h.bytes,
)

pub decode-IsSent :
    (str : Stream) (s : Sizing) (node : LinkId) (b : AudioBuffer)
    → length node ≡ 8
    → IsSent str s b
    → decode (encode (new_frame node (audio_buffer b))) ≡ ok (new_frame node (audio_buffer b))
decode-IsSent str s node b n h = decode-encode_audio (new_frame node (audio_buffer b)) (
    unfold new_frame in
    record { ttl = omega arith; group_id = omega arith; node = n; message = h.valid })

all-sendable :
    (str : Stream) (fill : Bool) (node : LinkId) (bufs : List AudioBuffer)
    → length node ≡ 8
    → All (IsSent str (sizing fill)) bufs
    → All
        (λ b.
          (decode (encode (new_frame node (audio_buffer b))) ≡ ok (new_frame node (audio_buffer b)))
          × IsSized fill node b)
        bufs
all-sendable str fill node [] n h = tt
all-sendable str fill node (b ∷ bufs) n (hb, h) = (
  (decode-IsSent str (sizing fill) node b n hb, IsSent-IsSized str fill node b n hb),
  all-sendable str fill node bufs n h,
)

-- For such a stream and sink every buffer that leaves decodes from its frame. In the fill sizing the frame is 1196
-- bytes long at most and no chunk has more than 512 frames; in the reference sizing there are 502 bytes of samples
-- at most. Such are a stream of at least one channel, of which a frame and the record of its chunk fit an empty
-- datagram, and a sink of segments whose tempo times the stream's sample rate is not zero.
pub drain_sendable :
    (str : Stream) (fill : Bool) (sink : Sink) (bufs : List AudioBuffer) (sink' : Sink)
    (node : LinkId)
    → CanDrain str fill sink
    → drain_datagrams str fill sink ≡ some (bufs, sink')
    → length node ≡ 8
    → All
        (λ b.
          (decode (encode (new_frame node (audio_buffer b))) ≡ ok (new_frame node (audio_buffer b)))
          × IsSized fill node b)
        bufs
drain_sendable str fill sink bufs sink' node h e n =
    all-sendable str fill node bufs n (drain-Drained str fill sink bufs sink' h e).buffers

-- The chunks that leave are numbered one after the other from the sink's next number on, and those that
-- leave later follow them.
drain_numbers :
    (str : Stream) (fill : Bool) (sink : Sink) (bufs : List AudioBuffer) (sink' : Sink)
    → CanDrain str fill sink
    → drain_datagrams str fill sink ≡ some (bufs, sink')
    → (later : List Chunk) → Numbered sink'.next_seq later
    → Numbered sink.next_seq (sent_chunks bufs ++ later)
drain_numbers str fill sink bufs sink' h e = (drain-Drained str fill sink bufs sink' h e).numbered
