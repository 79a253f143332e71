-- ===== src/Discovery/Encode.antt =====
-- `PeerState::write` and `encode` of crates/tactus-wire/src/discovery.rs.
use link_wire_rs.Common.{ℕ, List, Option, none, some}
use link_wire_rs.Codec.Writer
use link_wire_rs.Codec.Writer.{Writer, ◌▸◌}
use link_wire_rs.Types.Id
use link_wire_rs.Types.Id.{LinkId}
use link_wire_rs.Types.Timeline
use link_wire_rs.Types.StartStop
use link_wire_rs.Types.Endpoint.{write_endpoint_entry}
use link_wire_rs.Discovery.Message.{
  Message, alive, response, bye_bye, Frame, PeerState, magic, type_alive, type_response,
  type_byebye, tmln, sess, stst, mep4, mep6, aep4, aep6,
}

-- `if let Some(v) = o { w.entry(key, |w| v.write(w)); }`
unfoldable pub write_opt : {A : Type 0} → ℕ → (A → Writer → Writer) → Option A → Writer → Writer
write_opt key f none w = w
write_opt key f (some v) w = Writer.entry key (f v) w

unfoldable pub write_state : PeerState → Writer → Writer
write_state s w =
    w
    ▸ write_opt tmln Timeline.write s.timeline
    ▸ write_opt sess Id.write s.session
    ▸ write_opt stst StartStop.write s.start_stop
    ▸ write_endpoint_entry mep4 mep6 s.measurement_endpoint
    ▸ write_endpoint_entry aep4 aep6 s.audio_endpoint

-- `let (msg_type, state) = match &frame.message { .. }`
abbrev pub message_type : Message → ℕ
message_type (alive s) = type_alive
message_type (response s) = type_response
message_type bye_bye = type_byebye

abbrev pub message_state : Message → Option PeerState
message_state (alive s) = some s
message_state (response s) = some s
message_state bye_bye = none

unfoldable pub write_payload : Option PeerState → Writer → Writer
write_payload none w = w
write_payload (some s) w = write_state s w

unfoldable pub encode : Frame → List ℕ
encode frame =
    Writer.new
    ▸ Writer.bytes magic
    ▸ Writer.u8 (message_type frame.message)
    ▸ Writer.u8 frame.ttl
    ▸ Writer.u16 frame.group_id
    ▸ Id.write frame.node
    ▸ write_payload (message_state frame.message)
