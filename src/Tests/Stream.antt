-- ===== src/Tests/Stream.antt =====
-- The theorems of the LinkAudio streams at a concrete sink and source.
use link_wire_rs.Common.{
  ℕ, zero, suc, ◌*◌, ◌≡◌, ◌<◌, refl, List, [], ◌∷◌, ◌++◌, some, false, All, arith,
}
use link_wire_rs.Common.Bytes.{as_signed, as_unsigned, InSigned, half_16}
use link_wire_rs.Common.Int.{ℤ, pos, ◌+ℤ◌, ◌-ℤ◌, ◌*ℤ◌}
use link_wire_rs.Codec.Error.{ok}
use link_wire_rs.Types.Id.{LinkId}
use link_wire_rs.Types.Timeline.{Timeline}
use link_wire_rs.Math.Word.{wrap, ◌+w◌, ◌-w◌, quot}
use link_wire_rs.Math.Grid.{round_div}
use link_wire_rs.AudioWire.Message.{AudioBuffer, audio_buffer, new_frame, codec_pcm_i16}
use link_wire_rs.AudioWire.Encode.{encode}
use link_wire_rs.AudioWire.Decode.{decode}
use link_wire_rs.AudioWire.Samples.{encode_samples}
use link_wire_rs.LinkAudio.State.{Sink, Source}
use link_wire_rs.LinkAudio.Drain.{
  Stream, sizing, drain_datagrams, drain_loop, plan, plan_segment, consume, drop_residue, advance,
  pop_empty, frames_to_micro_beats, buffer_of, frame_counts, channels_of, sum,
}
use link_wire_rs.LinkAudio.Stream.{CanDrain, IsSized, drain_conserves, drain_sendable}
use link_wire_rs.LinkAudio.Draining.{sent_samples, pending_frames}

abbrev silence : ℕ → List ℤ
silence zero = []
silence (suc n) = pos 0 ∷ silence n

silence-InSigned : (n : ℕ) → All (InSigned half_16) (silence n)
silence-InSigned zero = tt
silence-InSigned (suc n) = ((omega arith, omega arith), silence-InSigned n)

abbrev me : LinkId
me = 1 ∷ 2 ∷ 3 ∷ 4 ∷ 5 ∷ 6 ∷ 7 ∷ 8 ∷ []

-- A frame of 126 channels takes a datagram of its own.
abbrev wide : Stream
wide = record { channel = me; session = me; sample_rate = 48000; num_channels = 126 }

abbrev pending_sink : Sink
pending_sink = record {
  id = me;
  name = [];
  requesters = [];
  next_seq = 1;
  segments = record { begin = pos 0; tempo = pos 500000; samples = silence 129 } ∷ [];
  format = some (48000, 126);
}

abbrev left_sink : Sink
left_sink = record pending_sink {
  next_seq = 2;
  segments = record { begin = pos 42; tempo = pos 500000; samples = silence 3 } ∷ [];
}

abbrev left_buffers : List AudioBuffer
left_buffers =
    record {
      channel = me;
      session = me;
      chunks = record { seq = 1; num_frames = 1; begin_beats = pos 0; tempo = pos 500000 } ∷ [];
      codec = codec_pcm_i16;
      sample_rate = 48000;
      num_channels = 126;
      sample_data = encode_samples (silence 126);
    }
    ∷ []

drained : drain_datagrams wide false pending_sink ≡ some (left_buffers, left_sink)
unfolding drain_datagrams drain_loop sizing plan plan_segment consume drop_residue advance pop_empty
    frames_to_micro_beats buffer_of round_div quot wrap ◌+w◌ ◌-w◌ ◌+ℤ◌ ◌-ℤ◌ ◌*ℤ◌ as_signed
    as_unsigned
drained = refl

can_drain : CanDrain wide false pending_sink
unfolding sizing ◌*ℤ◌
can_drain = record {
  stream = record {
    channel = refl;
    session = refl;
    sample_rate = omega arith;
    some_channel = omega arith;
    num_channels = omega arith;
  };
  room = omega arith;
  state = record {
    next_seq = omega arith;
    segments = (
      record {
        begin = (omega arith, omega arith);
        tempo = (omega arith, omega arith);
        timed = refl;
        samples = silence-InSigned 129;
      },
      tt,
    );
  };
}

drain_conserves_example :
    (bufs : List AudioBuffer) × (sink' : Sink) × (drain_datagrams wide false pending_sink
      ≡ some (bufs, sink'))
    × (sent_samples bufs ++ pending_frames wide (sizing false) sink'
        ≡ pending_frames wide (sizing false) pending_sink)
    × (sum (frame_counts (channels_of wide) sink'.segments) * (2 * channels_of wide)
        < (sizing false).budget)
drain_conserves_example = drain_conserves wide false pending_sink can_drain

drain_sendable_example :
    All
      (λ b.
        (decode (encode (new_frame me (audio_buffer b))) ≡ ok (new_frame me (audio_buffer b)))
        × IsSized false me b)
      left_buffers
drain_sendable_example =
    drain_sendable wide false pending_sink left_buffers left_sink me can_drain drained refl

abbrev subscriber : Source
subscriber = record {
  quantum = pos 4000000;
  last_request_at = pos 0;
  last_buffer_at = pos 0;
  inbox = [];
  next_seq_expected = some 1;
  lost_chunks = 0;
}

abbrev grid : Timeline
grid = record { tempo = pos 500000; beat_origin = pos 7; time_origin = pos 12 }
