-- ===== src/Tests/Sender.antt =====
-- The theorems of the sending side of LinkAudio at concrete sinks, paths and ids.
use link_wire_rs.Common.{
  ℕ, ◌+◌, ◌≡◌, ◌≤◌, refl, List, [], ◌∷◌, length, some, none, false, All, arith,
}
use link_wire_rs.Common.Int.{pos, ◌*ℤ◌}
use link_wire_rs.Common.Maps.{get}
use link_wire_rs.Codec.Error.{Error, ok, err}
use link_wire_rs.Types.Id.{LinkId}
use link_wire_rs.Types.Endpoint.{SocketAddr, v4}
use link_wire_rs.AudioWire.Message.{
  AudioBuffer, audio_buffer, channel_byes, new_frame, codec_pcm_i16, max_payload,
}
use link_wire_rs.AudioWire.Encode.{encode}
use link_wire_rs.AudioWire.Decode.{decode}
use link_wire_rs.Engine.State.{PeerEntry, key_eq}
use link_wire_rs.LinkAudio.State.{Sink, PathStats}
use link_wire_rs.LinkAudio.Drain.{Stream, sizing, drain_datagrams}
use link_wire_rs.LinkAudio.Paths.{quality, best_path}
use link_wire_rs.LinkAudio.Requests.{id_chunks, byes}
use link_wire_rs.LinkAudio.Offers.{IsBest}
use link_wire_rs.LinkAudio.Routing.{concat, best_path_lem, withdrawal_round}
use link_wire_rs.LinkAudio.Write.{Material, feed}
use link_wire_rs.LinkAudio.Writing.{IsReady, IsMaterial, feed-IsReady, feed-unrequested}
use link_wire_rs.LinkAudio.Misfits.{wide_frames_stay, no_channel_rejected}

abbrev me : LinkId
me = 1 ∷ 2 ∷ 3 ∷ 4 ∷ 5 ∷ 6 ∷ 7 ∷ 8 ∷ []

abbrev you : LinkId
you = 1 ∷ 2 ∷ 3 ∷ 4 ∷ 5 ∷ 6 ∷ 7 ∷ 9 ∷ []

abbrev fresh : Sink
fresh = record {
  id = me;
  name = [];
  requesters = (you, pos 5000000) ∷ [];
  next_seq = 1;
  segments = [];
  format = none;
}

fresh-IsReady : IsReady fresh
fresh-IsReady = record { next_seq = omega arith; segments = λ rate channels e. tt }

abbrev stereo : Material
stereo = record {
  samples = pos 1 ∷ pos 2 ∷ [];
  sample_rate = 48000;
  num_channels = 2;
  begin_wire = pos 4000000;
  tempo = pos 500000;
}

stereo-IsMaterial : IsMaterial stereo
unfolding ◌*ℤ◌
stereo-IsMaterial = record {
  samples = ((omega arith, omega arith), ((omega arith, omega arith), tt));
  sample_rate = omega arith;
  some_channel = omega arith;
  num_channels = omega arith;
  begin_wire = (omega arith, omega arith);
  tempo = (omega arith, omega arith);
  timed = refl;
}

feed-IsReady_example :
    (bufs : List AudioBuffer) × (sink' : Sink) × (feed (pos 9) me you false stereo fresh
      ≡ some (bufs, sink'))
    × IsReady sink'
unfolding sizing
feed-IsReady_example =
    feed-IsReady (pos 9) me you false stereo fresh refl refl stereo-IsMaterial (omega arith)
      fresh-IsReady

-- The request is over by then.
feed-unrequested_example :
    (sink' : Sink) × (feed (pos 9000000) me you false stereo fresh ≡ some ([], sink'))
    × (sink'.segments ≡ [])
    × (sink'.requesters ≡ [])
feed-unrequested_example =
    feed-unrequested (pos 9000000) me you false stereo fresh stereo-IsMaterial fresh-IsReady
      (refl, tt)

abbrev here : SocketAddr
here = v4 1 20808

abbrev heard_on : SocketAddr → PeerEntry
heard_on ep = record {
  state = record {
    timeline = none;
    session = none;
    start_stop = none;
    measurement_endpoint = none;
    audio_endpoint = some ep;
  };
  deadline = pos 5;
}

-- One peer on two gateways, and another on the first.
abbrev neighbours : List ((LinkId × ℕ) × PeerEntry)
neighbours =
    ((you, 0), heard_on here)
    ∷ ((me, 0), heard_on (v4 3 20808))
    ∷ ((you, 1), heard_on (v4 2 20808))
    ∷ []

abbrev some_paths : List ((LinkId × ℕ) × PathStats)
some_paths = ((you, 1), record { rtts = pos 40 ∷ [] }) ∷ []

best_path_lem_example :
    IsBest
      (λ q. quality (λ r. pos 3) (get (you, q.0) some_paths))
      you
      neighbours
      (best_path (λ r. pos 3) neighbours some_paths you)
best_path_lem_example = best_path_lem (λ r. pos 3) neighbours some_paths you

withdrawal_round_example :
    (concat (id_chunks 2 (me ∷ you ∷ [])) ≡ me ∷ you ∷ [])
    × All
        (λ c.
          (decode (byes me c) ≡ ok (new_frame me (channel_byes c)))
          × (length (byes me c) ≤ 20 + max_payload))
        (id_chunks 2 (me ∷ you ∷ []))
withdrawal_round_example = withdrawal_round me (me ∷ you ∷ []) refl (refl, (refl, tt))

abbrev surround : Stream
surround = record { channel = me; session = you; sample_rate = 48000; num_channels = 255 }

wide_frames_stay_example : drain_datagrams surround false fresh ≡ some ([], fresh)
wide_frames_stay_example = wide_frames_stay surround fresh (omega arith)

abbrev mute : AudioBuffer
mute = record {
  channel = me;
  session = you;
  chunks = record { seq = 1; num_frames = 1; begin_beats = pos 0; tempo = pos 500000 } ∷ [];
  codec = codec_pcm_i16;
  sample_rate = 48000;
  num_channels = 0;
  sample_data = 0 ∷ 7 ∷ [];
}

no_channel_rejected_example :
    decode (encode (new_frame me (audio_buffer mute)))
    ≡ err (Error.malformed "frame count and sample bytes disagree")
no_channel_rejected_example =
    no_channel_rejected me mute refl
      (record {
        channel = refl;
        session = refl;
        some_chunk = omega arith;
        few_chunks = omega arith;
        chunks = (
          record {
            seq = omega arith;
            num_frames = omega arith;
            begin_beats = (omega arith, omega arith);
            tempo = (omega arith, omega arith);
          },
          tt,
        );
        codec = refl;
        sample_rate = omega arith;
        num_channels = omega arith;
        few_bytes = omega arith;
      })
      refl (omega arith)
