-- ===== src/Discovery/Bytes.antt =====
-- The bytes that `encode` of crates/tactus-wire/src/discovery.rs gives, and how many they are.
use link_wire_rs.Common.{
  ℕ, ◌≡◌, sym, List, [], ◌∷◌, ◌++◌, Option, none, some, append-nil, append_assoc,
}
use link_wire_rs.Common.Bytes.{to_be_bytes}
use link_wire_rs.Codec.Writer
use link_wire_rs.Codec.Writer.{Writer}
use link_wire_rs.Codec.EntryBytes.{entry_bytes, entry_lem}
use link_wire_rs.Types.Id
use link_wire_rs.Types.Id.{LinkId}
use link_wire_rs.Types.Timeline
use link_wire_rs.Types.Timeline.{Timeline}
use link_wire_rs.Types.StartStop
use link_wire_rs.Types.StartStop.{StartStopState}
use link_wire_rs.Types.Endpoint.{SocketAddr, write_endpoint, write_endpoint_entry, family_key}
use link_wire_rs.Types.RoundTrip.{
  write-LinkId, write-Timeline, write-StartStopState, write-endpoint, timeline_bytes,
  start_stop_bytes, endpoint_bytes,
}
use link_wire_rs.Discovery.Message.{
  Frame, PeerState, magic, tmln, sess, stst, mep4, mep6, aep4, aep6,
}
use link_wire_rs.Discovery.Encode.{
  write_opt, write_state, message_type, message_state, write_payload, encode,
}

-- The entry of a field, if it has a value.
abbrev pub opt_bytes : {A : Type 0} → ℕ → (A → List ℕ) → Option A → List ℕ
opt_bytes key f none = []
opt_bytes key f (some v) = entry_bytes key (f v)

abbrev pub endpoint_entry_bytes : ℕ → ℕ → Option SocketAddr → List ℕ
endpoint_entry_bytes key_v4 key_v6 none = []
endpoint_entry_bytes key_v4 key_v6 (some ep) =
    entry_bytes (family_key key_v4 key_v6 ep) (endpoint_bytes ep)

write_opt_lem :
    {A : Type 0} (key : ℕ) (f : A → Writer → Writer) (g : A → List ℕ) (o : Option A) (w : Writer)
    → ((a : A) (u : Writer) → f a u ≡ u ++ g a)
    → write_opt key f o w ≡ w ++ opt_bytes key g o
unfolding write_opt
write_opt_lem key f g none w h = sym (append-nil w)
write_opt_lem key f g (some v) w h = entry_lem key (f v) (g v) w (h v)

write_endpoint_entry_lem :
    (key_v4 key_v6 : ℕ) (o : Option SocketAddr) (w : Writer)
    → write_endpoint_entry key_v4 key_v6 o w ≡ w ++ endpoint_entry_bytes key_v4 key_v6 o
unfolding write_endpoint_entry
write_endpoint_entry_lem key_v4 key_v6 none w = sym (append-nil w)
write_endpoint_entry_lem key_v4 key_v6 (some ep) w =
    entry_lem _ (write_endpoint ep) (endpoint_bytes ep) w (write-endpoint ep)

abbrev pub state_bytes : PeerState → List ℕ
state_bytes s =
    opt_bytes tmln timeline_bytes s.timeline
    ++ (opt_bytes sess (λ i. i) s.session
        ++ (opt_bytes stst start_stop_bytes s.start_stop
            ++ (endpoint_entry_bytes mep4 mep6 s.measurement_endpoint
                ++ endpoint_entry_bytes aep4 aep6 s.audio_endpoint)))

write_state_lem : (s : PeerState) (w : Writer) → write_state s w ≡ w ++ state_bytes s
unfolding write_state
write_state_lem s w = rw (write_endpoint_entry_lem aep4 aep6 s.audio_endpoint) (
    rw (write_endpoint_entry_lem mep4 mep6 s.measurement_endpoint) (
      rw (write_opt_lem stst StartStop.write start_stop_bytes s.start_stop _ write-StartStopState) (
        rw (write_opt_lem sess Id.write (λ i. i) s.session _ write-LinkId) (
          rw (write_opt_lem tmln Timeline.write timeline_bytes s.timeline _ write-Timeline)
            (simp append_assoc)))))

abbrev pub payload_bytes : Option PeerState → List ℕ
payload_bytes none = []
payload_bytes (some s) = state_bytes s

write_payload_lem : (o : Option PeerState) (w : Writer) → write_payload o w ≡ w ++ payload_bytes o
unfolding write_payload
write_payload_lem none w = sym (append-nil w)
write_payload_lem (some s) w = write_state_lem s w

-- Behind the magic: type, ttl, group, node and payload.
pub encode_lem :
    (f : Frame)
    → encode f
      ≡ magic
        ++ (message_type f.message
            ∷ f.ttl
            ∷ (to_be_bytes 2 f.group_id ++ (f.node ++ payload_bytes (message_state f.message))))
unfolding encode Writer.bytes Writer.u8 Writer.u16
encode_lem f = rw (write_payload_lem, write-LinkId, append_assoc, append_assoc)
