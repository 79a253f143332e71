-- ===== src/LinkAudio/Misfits.antt =====
-- Channel counts that `write_sink` of crates/tactus/src/audio.rs accepts, but no datagram can carry.
use link_wire_rs.Common.{
  ℕ, zero, suc, ◌+◌, ◌*◌, ◌≤◌, ◌<◌, ◌≡◌, refl, ◌∙◌, List, [], ◌∷◌, length, some, true, false, ◌==◌,
  lt→ltb, if-intro, arith,
}
use link_wire_rs.Codec.Error.{Error, err}
use link_wire_rs.Types.Id.{LinkId}
use link_wire_rs.AudioWire.Message.{AudioBuffer, total_frames, audio_buffer, new_frame}
use link_wire_rs.AudioWire.Decode.{decode, decode_message}
use link_wire_rs.AudioWire.Encode.{encode, message_type}
use link_wire_rs.AudioWire.Bytes.{buffer_bytes, encode_lem}
use link_wire_rs.AudioWire.Buffer.{HasFields, decode-fields}
use link_wire_rs.AudioWire.RoundTrip.{decode-frame_bytes}
use link_wire_rs.LinkAudio.State.{Sink}
use link_wire_rs.LinkAudio.Drain.{
  Sizing, sizing, is_short, Plan, plan_segment, plan, frame_counts, Stream, channels_of, drain_loop,
  drain_datagrams,
}

-- With no room for a frame nothing is planned.
plan_segment-stuck :
    (s : Sizing) (fb fuel n left : ℕ)
    → is_short s fb left ≡ true
    → ((plan_segment s fb fuel n left).takes ≡ []) × ((plan_segment s fb fuel n left).left ≡ left)
unfolding plan_segment
plan_segment-stuck s fb zero n left h = (refl, refl)
plan_segment-stuck s fb (suc fuel) n left h =
    if-intro (λ (p : Plan). (p.takes ≡ []) × (p.left ≡ left)) (n == 0) _ _ (λ z. (refl, refl))
      (λ z. rw h (refl, refl))

plan-stuck :
    (s : Sizing) (fb : ℕ) (ns : List ℕ) (left : ℕ)
    → is_short s fb left ≡ true
    → (plan s fb ns left).takes ≡ []
unfolding plan
plan-stuck s fb [] left h = refl
plan-stuck s fb (n ∷ ns) left h =
    let (none_taken, same) = plan_segment-stuck s fb n n left h in
    if-intro (λ (p : Plan). p.takes ≡ []) (plan_segment s fb n n left).exhausted _ _
      (λ e. none_taken)
      (λ e. rw none_taken (plan-stuck s fb ns (plan_segment s fb n n left).left (rw same h)))

-- From 252 channels on a frame is longer than the 502 bytes that the reference sizing allows: whatever is
-- pending, no buffer leaves, and all of it stays.
pub wide_frames_stay :
    (str : Stream) (sink : Sink)
    → 252 ≤ str.num_channels
    → drain_datagrams str false sink ≡ some ([], sink)
unfolding drain_datagrams drain_loop sizing
wide_frames_stay str sink h =
    let none_taken =
      plan-stuck (sizing false) (2 * channels_of str) (frame_counts (channels_of str) sink.segments)
        502 (lt→ltb 502 (0 + 2 * channels_of str) (omega arith)) in
    rw none_taken refl

-- A buffer of no channel, as a sink writes it when it is given no channel, is rejected by every receiver, if it
-- carries any samples.
pub no_channel_rejected :
    (node : LinkId) (b : AudioBuffer)
    → length node ≡ 8
    → HasFields b
    → b.num_channels ≡ 0
    → 0 < length b.sample_data
    → decode (encode (new_frame node (audio_buffer b)))
      ≡ err (Error.malformed "frame count and sample bytes disagree")
unfolding new_frame decode_message
no_channel_rejected node b n h z l =
    let off : (total_frames b * b.num_channels * 2 == length b.sample_data) ≡ false =
      rw z (ground arith) in
    rw (encode_lem (new_frame node (audio_buffer b))) (
      decode-frame_bytes (message_type (audio_buffer b)) 0 0 node (buffer_bytes b) (omega arith) n
      ∙ rw (decode-fields b h, off) refl)
