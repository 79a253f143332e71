-- ===== src/Discovery/Totality.antt =====
-- `decode` and `decode_header` of crates/tactus-wire/src/discovery.rs on any datagram at all.
use link_wire_rs.Common.{
  ℕ, ◌<◌, ◌≤◌, ◌≡◌, ◌≢◌, List, ◌++◌, length, length-append, ltb, not, arith, lt→ltb, le→ltb,
}
use link_wire_rs.Common.Bytes.{bytes_eqb, bytes_eqb_ne}
use link_wire_rs.Codec.Error.{Error, ok, err, reject_if, >>=-inv, Ends}
use link_wire_rs.Codec.Reader
use link_wire_rs.Codec.Reader.{Reader}
use link_wire_rs.Codec.Entries.{Entry}
use link_wire_rs.Codec.Ending.{ends_rules, id-Ends}
use link_wire_rs.Codec.Scan.{scan-Ends}
use link_wire_rs.Codec.ReadWrite.{take_exact}
use link_wire_rs.Types.Id
use link_wire_rs.Types.Id.{LinkId}
use link_wire_rs.Types.Timeline
use link_wire_rs.Types.StartStop
use link_wire_rs.Types.Endpoint.{read_endpoint_v4, read_endpoint_v6, decode_endpoint_value}
use link_wire_rs.Discovery.Message.{Message, Frame, PeerState, no_state, magic}
use link_wire_rs.Discovery.Encode.{message_type}
use link_wire_rs.Discovery.Decode.{state_step, read_state, decode_header, decode_message, decode}

read_id-Ends : (r : Reader) → Ends (Id.read r)
unfolding Id.read
read_id-Ends r = id-Ends r

timeline-Ends : (r : Reader) → Ends (Timeline.read r)
unfolding Timeline.read
timeline-Ends r = search ends_rules

start_stop-Ends : (r : Reader) → Ends (StartStop.read r)
unfolding StartStop.read
start_stop-Ends r = search ends_rules

endpoint_v4-Ends : (r : Reader) → Ends (read_endpoint_v4 r)
unfolding read_endpoint_v4
endpoint_v4-Ends r = search ends_rules

endpoint_v6-Ends : (r : Reader) → Ends (read_endpoint_v6 r)
unfolding read_endpoint_v6
endpoint_v6-Ends r = search ends_rules

endpoint-Ends : (value : List ℕ) → Ends (decode_endpoint_value value)
unfolding decode_endpoint_value
endpoint-Ends value = search (ends_rules, endpoint_v4-Ends, endpoint_v6-Ends)

state_step-Ends : (s : PeerState) (e : Entry) → Ends (state_step s e)
unfolding state_step
state_step-Ends s e =
    search (ends_rules, read_id-Ends, timeline-Ends, start_stop-Ends, endpoint-Ends) depth 9

read_state-Ends : (payload : List ℕ) → Ends (read_state payload)
unfolding read_state
read_state-Ends payload = scan-Ends state_step no_state payload state_step-Ends

decode_message-Ends : (msg_type : ℕ) (payload : List ℕ) → Ends (decode_message msg_type payload)
unfolding decode_message
decode_message-Ends msg_type payload = search (ends_rules, read_state-Ends)

-- The decoder returns a frame or an error on every datagram.
decode-Ends_discovery : (datagram : List ℕ) → Ends (decode datagram)
unfolding decode
decode-Ends_discovery datagram = search (ends_rules, read_id-Ends, decode_message-Ends) depth 12

-- Below twenty bytes a datagram is truncated, to both decoders.
pub decode_short :
    (datagram : List ℕ)
    → length datagram < 20
    → (decode datagram ≡ err Error.truncated) × (decode_header datagram ≡ err Error.truncated)
unfolding decode decode_header
decode_short datagram h = (rw (lt→ltb (length datagram) 20 h), rw (lt→ltb (length datagram) 20 h))

-- With any other first eight bytes it is refused for its magic, by both decoders.
pub decode_foreign :
    (head rest : List ℕ)
    → length head ≡ 8
    → 12 ≤ length rest
    → head ≢ magic
    → (decode (head ++ rest) ≡ err Error.bad_magic)
      × (decode_header (head ++ rest) ≡ err Error.bad_magic)
unfolding decode decode_header
decode_foreign head rest h k ne =
    let long = le→ltb (length (head ++ rest)) 20 (omega (arith, length-append head rest)) in
    let other = bytes_eqb_ne head magic ne in
    (rw (long, take_exact 8 head rest h, other), rw (long, take_exact 8 head rest h, other))

-- The type that a decoded message had on the wire.
message_type_inv :
    (msg_type : ℕ) (payload : List ℕ) (m : Message)
    → decode_message msg_type payload ≡ ok m
    → message_type m ≡ msg_type
unfolding decode_message
message_type_inv msg_type payload m h = ground arith

-- What the receiver decides on the header alone, it decides on the frame's own fields: where a datagram
-- decodes, its header decodes to the same type, ttl, group and sender.
pub decode_header_agrees :
    (datagram : List ℕ) (f : Frame)
    → decode datagram ≡ ok f
    → decode_header datagram
      ≡ ok (record {
        msg_type = message_type f.message;
        ttl = f.ttl;
        group_id = f.group_id;
        node = f.node;
      })
unfolding decode decode_header
decode_header_agrees datagram f h =
    >>=-inv (reject_if (ltb (length datagram) 20) Error.truncated) _ h λ u0 long h0.
      >>=-inv (Reader.take 8 datagram) _ h0 λ p1 head h1.
        >>=-inv (reject_if (not (bytes_eqb p1.0 magic)) Error.bad_magic) _ h1 λ u2 same h2.
          >>=-inv (Reader.u8 p1.1) _ h2 λ p3 typed h3. >>=-inv (Reader.u8 p3.1) _ h3 λ p4 ttl h4.
            >>=-inv (Reader.u16 p4.1) _ h4 λ p5 group h5. >>=-inv (Id.read p5.1) _ h5 λ p6 node h6.
              >>=-inv (decode_message p3.0 p6.1) _ h6 λ m message h7.
                rw (long, head, same, typed, ttl, group, node)
                  (cc (message_type_inv p3.0 p6.1 m message))
