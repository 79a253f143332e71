-- ===== src/LinkAudio/Arrival.antt =====
-- A stream from `drain_datagrams` to `deliver`, both of crates/tactus/src/audio.rs: what a receiver has in its
-- inbox when it gets the datagrams of a sink in order.
use link_wire_rs.Common.{ℕ, List, [], ◌∷◌, ◌++◌}
use link_wire_rs.Common.Int.{ℤ}
use link_wire_rs.Codec.Error.{Result, ok, err, stuck}
use link_wire_rs.Types.Id.{LinkId}
use link_wire_rs.Types.Timeline.{Timeline}
use link_wire_rs.AudioWire.Message.{
  AudioBuffer, Message, Frame, peer_announcement, channel_byes, pong, channel_request,
  stop_channel_request, audio_buffer, new_frame,
}
use link_wire_rs.AudioWire.Samples.{samples}
use link_wire_rs.AudioWire.Encode.{encode}
use link_wire_rs.AudioWire.Decode.{decode}
use link_wire_rs.LinkAudio.State.{Source, ReceivedChunk}
use link_wire_rs.LinkAudio.Deliver.{deliver}
use link_wire_rs.LinkAudio.Drain.{Stream}

-- The samples of the chunks in an inbox.
abbrev pub heard : List ReceivedChunk → List ℤ
heard [] = []
heard (u ∷ us) = u.samples ++ heard us

-- A receiver with the source hears a datagram of the sink: it decodes it and delivers the buffer.
abbrev pub hear_message : Source → Message → Timeline → ℤ → Source
hear_message source (audio_buffer b) timeline at = deliver source b timeline at
hear_message source (peer_announcement session peer_name channels ping) timeline at = source
hear_message source (channel_byes channels) timeline at = source
hear_message source (pong host_time) timeline at = source
hear_message source (channel_request channel) timeline at = source
hear_message source (stop_channel_request channel) timeline at = source

abbrev pub hear : Source → Result Frame → Timeline → ℤ → Source
hear source (ok f) timeline at = hear_message source f.message timeline at
hear source (err e) timeline at = source
hear source stuck timeline at = source

abbrev pub datagram : LinkId → AudioBuffer → List ℕ
datagram node b = encode (new_frame node (audio_buffer b))

abbrev pub hear_all : LinkId → Source → List AudioBuffer → Timeline → ℤ → Source
hear_all node source [] timeline at = source
hear_all node source (b ∷ bs) timeline at =
    hear_all node (hear source (decode (datagram node b)) timeline at) bs timeline at
