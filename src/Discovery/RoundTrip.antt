-- ===== src/Discovery/RoundTrip.antt =====
-- Frames that `encode` of crates/tactus-wire/src/discovery.rs wrote decode to themselves.
use link_wire_rs.Common.{
  ℕ, ◌+◌, ◌<◌, ◌≤◌, ◌^◌, ◌≡◌, refl, ◌∙◌, List, ◌∷◌, ◌++◌, Option, none, some, length, length-append,
  le→ltb, arith,
}
use link_wire_rs.Common.Bytes.{to_be_bytes, length-to_be_bytes, bytes_eqb_self}
use link_wire_rs.Codec.Error.{ok, ◌>>=◌}
use link_wire_rs.Codec.EntryBytes.{length-entry_bytes}
use link_wire_rs.Codec.ReadWrite.{take_exact, u8_exact, u16_exact, id_exact}
use link_wire_rs.Types.Id
use link_wire_rs.Types.Id.{LinkId}
use link_wire_rs.Types.Timeline.{IsTimeline}
use link_wire_rs.Types.StartStop.{IsStartStopState}
use link_wire_rs.Types.Endpoint.{SocketAddr}
use link_wire_rs.Types.RoundTrip.{
  timeline_bytes, start_stop_bytes, endpoint_bytes, length-endpoint_bytes,
}
use link_wire_rs.Discovery.Message.{
  Message, alive, response, bye_bye, Frame, IsFrame, IsMessage, PeerState, IsPeerState, Opt, magic,
  tmln, sess, stst, mep4, mep6, aep4, aep6,
}
use link_wire_rs.Discovery.Encode.{message_type, message_state, encode}
use link_wire_rs.Discovery.Decode.{decode_header, decode_message, decode}
use link_wire_rs.Discovery.Bytes.{
  opt_bytes, endpoint_entry_bytes, state_bytes, payload_bytes, encode_lem,
}
use link_wire_rs.Discovery.State.{read-state_bytes, length-timeline_bytes, length-start_stop_bytes}

-- The 20-byte prefix of a frame, and what follows it.
abbrev pub frame_bytes : ℕ → ℕ → ℕ → LinkId → List ℕ → List ℕ
frame_bytes msg_type ttl group_id node payload =
    magic ++ (msg_type ∷ ttl ∷ (to_be_bytes 2 group_id ++ (node ++ payload)))

length-frame_bytes :
    (msg_type ttl group_id : ℕ) (node : LinkId) (payload : List ℕ)
    → length node ≡ 8
    → length (frame_bytes msg_type ttl group_id node payload) ≡ 20 + length payload
length-frame_bytes msg_type ttl group_id node payload h = omega (
  arith,
  length-append (to_be_bytes 2 group_id) (node ++ payload),
  length-append node payload,
  length-to_be_bytes 2 group_id,
)

module _ (msg_type ttl group_id : ℕ) (node : LinkId) (payload : List ℕ) (hg : group_id < 2 ^ 16)
    (hn : length node ≡ 8) where
  pub decode_header-frame_bytes :
      decode_header (frame_bytes msg_type ttl group_id node payload)
      ≡ ok (record { msg_type = msg_type; ttl = ttl; group_id = group_id; node = node })
  unfolding decode_header Id.read
  decode_header-frame_bytes = rw (
    le→ltb (length (frame_bytes msg_type ttl group_id node payload)) 20
        (omega (arith, length-frame_bytes msg_type ttl group_id node payload hn)),
    take_exact 8 magic _ refl,
    bytes_eqb_self magic,
    u8_exact msg_type,
    u8_exact ttl,
    u16_exact group_id _ hg,
    id_exact node payload hn,
  )

  pub decode-frame_bytes : decode (frame_bytes msg_type ttl group_id node payload) ≡ (
      decode_message msg_type payload >>= λ m.
      ok (record { ttl = ttl; group_id = group_id; node = node; message = m }))
  unfolding decode Id.read
  decode-frame_bytes = rw (
    le→ltb (length (frame_bytes msg_type ttl group_id node payload)) 20
        (omega (arith, length-frame_bytes msg_type ttl group_id node payload hn)),
    take_exact 8 magic _ refl,
    bytes_eqb_self magic,
    u8_exact msg_type,
    u8_exact ttl,
    u16_exact group_id _ hg,
    id_exact node payload hn,
  )

decode_message-payload_bytes :
    (m : Message)
    → IsMessage m
    → decode_message (message_type m) (payload_bytes (message_state m)) ≡ ok m
unfolding decode_message
decode_message-payload_bytes (alive s) h = rw (read-state_bytes s h)
decode_message-payload_bytes (response s) h = rw (read-state_bytes s h)
decode_message-payload_bytes bye_bye h = refl

-- Every frame with fields in range, its endpoints without flow label and scope, decodes to
-- itself: any message, any subset of the state's fields, endpoints of both families.
pub decode-encode_discovery : (f : Frame) → IsFrame f → decode (encode f) ≡ ok f
decode-encode_discovery f h = rw (encode_lem f) (
    decode-frame_bytes (message_type f.message) f.ttl f.group_id f.node _ h.group_id h.node
    ∙ rw (decode_message-payload_bytes f.message h.message))

-- The header of an encoded frame can be read without its payload.
pub decode_header-encode :
    (f : Frame)
    → IsFrame f
    → decode_header (encode f)
      ≡ ok (record {
        msg_type = message_type f.message;
        ttl = f.ttl;
        group_id = f.group_id;
        node = f.node;
      })
decode_header-encode f h =
    rw (encode_lem f) (
      decode_header-frame_bytes (message_type f.message) f.ttl f.group_id f.node _ h.group_id
        h.node)

length-opt_bytes :
    {A : Type 0} (key n : ℕ) (g : A → List ℕ) (Q : A → Type 0) (o : Option A)
    → ((a : A) → Q a → length (g a) ≤ n)
    → Opt Q o
    → length (opt_bytes key g o) ≤ 8 + n
length-opt_bytes key n g Q none h q = omega arith
length-opt_bytes key n g Q (some a) h q = omega (arith, length-entry_bytes key (g a), h a q)

length-endpoint_entry_bytes :
    (key_v4 key_v6 : ℕ) (o : Option SocketAddr) → length (endpoint_entry_bytes key_v4 key_v6 o) ≤ 26
length-endpoint_entry_bytes key_v4 key_v6 none = omega arith
length-endpoint_entry_bytes key_v4 key_v6 (some ep) =
    omega (arith, length-entry_bytes _ (endpoint_bytes ep), length-endpoint_bytes ep)

length-state_bytes : (s : PeerState) → IsPeerState s → length (state_bytes s) ≤ 125
length-state_bytes s h = omega (
  arith,
  length-append (opt_bytes tmln timeline_bytes s.timeline) _,
  length-append (opt_bytes sess (λ i. i) s.session) _,
  length-append (opt_bytes stst start_stop_bytes s.start_stop) _,
  length-append (endpoint_entry_bytes mep4 mep6 s.measurement_endpoint) _,
  length-opt_bytes tmln 24 timeline_bytes IsTimeline s.timeline
      (λ tl _. omega (arith, length-timeline_bytes tl)) h.timeline,
  length-opt_bytes sess 8 (λ i. i) (λ i. length i ≡ 8) s.session (λ i e. omega arith) h.session,
  length-opt_bytes stst 17 start_stop_bytes IsStartStopState s.start_stop
      (λ v _. omega (arith, length-start_stop_bytes v)) h.start_stop,
  length-endpoint_entry_bytes mep4 mep6 s.measurement_endpoint,
  length-endpoint_entry_bytes aep4 aep6 s.audio_endpoint,
)

length-payload_bytes : (m : Message) → IsMessage m → length (payload_bytes (message_state m)) ≤ 125
length-payload_bytes (alive s) h = length-state_bytes s h
length-payload_bytes (response s) h = length-state_bytes s h
length-payload_bytes bye_bye h = omega arith

-- No frame with fields in range is longer than 145 bytes.
length-encode : (f : Frame) → IsFrame f → length (encode f) ≤ 145
length-encode f h = rw (encode_lem f) (
    omega (
      arith,
      length-frame_bytes (message_type f.message) f.ttl f.group_id f.node _ h.node,
      length-payload_bytes f.message h.message,
    ))
