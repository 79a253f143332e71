-- ===== src/Discovery/Decode.antt =====
-- `PeerState::read`, `decode_header` and `decode` of crates/tactus-wire/src/discovery.rs.
use link_wire_rs.Common.{ℕ, List, some, Bool, ltb, ◌==◌, ◌||◌, not, if◌then◌else◌}
use link_wire_rs.Common.Bytes.{bytes_eqb}
use link_wire_rs.Codec.Error.{Error, Result, ok, err, ◌>>=◌, ◌>>◌, reject_if}
use link_wire_rs.Codec.Reader
use link_wire_rs.Codec.Entries
use link_wire_rs.Codec.Entries.{Entry, scan}
use link_wire_rs.Types.Id
use link_wire_rs.Types.Id.{LinkId}
use link_wire_rs.Types.Timeline
use link_wire_rs.Types.StartStop
use link_wire_rs.Types.Endpoint.{decode_endpoint_value}
use link_wire_rs.Discovery.Message.{
  Message, alive, response, bye_bye, Frame, PeerState, no_state, magic, type_alive, type_response,
  type_byebye, tmln, sess, stst, mep4, mep6, aep4, aep6,
}

unfoldable pub state_step : PeerState → Entry → Result PeerState
state_step s e =
    if e.key == tmln
    then (do v ← Entries.decode e Timeline.read; ok (record s { timeline = some v }))
    else if e.key == sess
    then (do v ← Entries.decode e Id.read; ok (record s { session = some v }))
    else if e.key == stst
    then (do v ← Entries.decode e StartStop.read; ok (record s { start_stop = some v }))
    else if e.key == mep4 || e.key == mep6
    then (do v ← decode_endpoint_value e.value; ok (record s { measurement_endpoint = some v }))
    else if e.key == aep4 || e.key == aep6
    then (do v ← decode_endpoint_value e.value; ok (record s { audio_endpoint = some v }))
    else ok s

unfoldable pub read_state : List ℕ → Result PeerState
read_state payload = scan state_step no_state payload

pub record Header : Type 0 where
  pub msg_type : ℕ
  pub ttl : ℕ
  pub group_id : ℕ
  pub node : LinkId

unfoldable pub is_alive : Header → Bool
is_alive h = h.msg_type == type_alive

unfoldable pub decode_header : List ℕ → Result Header
decode_header datagram = do
  reject_if (ltb (Reader.remaining datagram) 20) Error.truncated
  (head, r1) ← Reader.take 8 datagram
  reject_if (not (bytes_eqb head magic)) Error.bad_magic
  (msg_type, r2) ← Reader.u8 r1
  (ttl, r3) ← Reader.u8 r2
  (group_id, r4) ← Reader.u16 r3
  (node, r5) ← Id.read r4
  ok (record { msg_type = msg_type; ttl = ttl; group_id = group_id; node = node })

-- `match msg_type { .. }`
unfoldable pub decode_message : ℕ → List ℕ → Result Message
decode_message msg_type payload =
    if msg_type == type_alive
    then (do s ← read_state payload; ok (alive s))
    else if msg_type == type_response
    then (do s ← read_state payload; ok (response s))
    else if msg_type == type_byebye
    then ok bye_bye
    else err (Error.unknown_message_type msg_type)

unfoldable pub decode : List ℕ → Result Frame
decode datagram = do
  reject_if (ltb (Reader.remaining datagram) 20) Error.truncated
  (head, r1) ← Reader.take 8 datagram
  reject_if (not (bytes_eqb head magic)) Error.bad_magic
  (msg_type, r2) ← Reader.u8 r1
  (ttl, r3) ← Reader.u8 r2
  (group_id, r4) ← Reader.u16 r3
  (node, r5) ← Id.read r4
  message ← decode_message msg_type (Reader.rest r5)
  ok (record { ttl = ttl; group_id = group_id; node = node; message = message })
