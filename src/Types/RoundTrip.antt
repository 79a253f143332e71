-- ===== src/Types/RoundTrip.antt =====
-- What is written for each shared type (crates/tactus-wire/src/types.rs), and that it reads back.
use link_wire_rs.Common.{
  ℕ, ◌<◌, ◌≤◌, ◌^◌, ◌≡◌, refl, List, [], ◌∷◌, ◌++◌, length, length-append, append_assoc, append-nil,
  arith,
}
use link_wire_rs.Common.Bytes.{to_be_bytes, length-to_be_bytes, from-to_be_bytes}
use link_wire_rs.Codec.Error.{Result, ok}
use link_wire_rs.Codec.Reader
use link_wire_rs.Codec.Reader.{Reader}
use link_wire_rs.Codec.Writer
use link_wire_rs.Codec.Writer.{Writer}
use link_wire_rs.Codec.Entries
use link_wire_rs.Codec.ReadWrite.{
  i64_bytes, u16_exact, u32_exact, i64_exact, bool_exact, take_exact,
}
use link_wire_rs.Types.Id
use link_wire_rs.Types.Id.{LinkId}
use link_wire_rs.Types.Timeline
use link_wire_rs.Types.Timeline.{Timeline, IsTimeline}
use link_wire_rs.Types.StartStop
use link_wire_rs.Types.StartStop.{StartStopState, IsStartStopState}
use link_wire_rs.Types.Endpoint.{
  SocketAddr, v4, v6, IsSendable, read_endpoint_v4, read_endpoint_v6, write_endpoint,
  decode_endpoint_value,
}

-- An entry whose value the closure reads to the end decodes to what was read.
pub decode_exact {ℓ} :
    {A : Type ℓ} (key : ℕ) (v : List ℕ) (f : Reader → Result (A × Reader)) (a : A)
    → f (v ++ []) ≡ ok (a, [])
    → Entries.decode (record { key = key; value = v }) f ≡ ok a
unfolding Entries.decode
decode_exact key v f a h = let h' : f v ≡ ok (a, []) = rw (append-nil v) at h in rw h'

pub write-LinkId : (i : LinkId) (w : Writer) → Id.write i w ≡ w ++ i
unfolding Id.write Writer.id Writer.bytes
write-LinkId i w = refl

abbrev pub timeline_bytes : Timeline → List ℕ
timeline_bytes tl = i64_bytes tl.tempo ++ (i64_bytes tl.beat_origin ++ i64_bytes tl.time_origin)

pub write-Timeline : (tl : Timeline) (w : Writer) → Timeline.write tl w ≡ w ++ timeline_bytes tl
unfolding Timeline.write Writer.i64 Writer.u64
write-Timeline tl w = rw (append_assoc, append_assoc)

pub read-Timeline :
    (tl : Timeline) (rest : List ℕ)
    → IsTimeline tl
    → Timeline.read (timeline_bytes tl ++ rest) ≡ ok (tl, rest)
unfolding Timeline.read
read-Timeline tl rest h = rw (
  append_assoc,
  i64_exact tl.tempo _ h.tempo,
  append_assoc,
  i64_exact tl.beat_origin _ h.beat_origin,
  i64_exact tl.time_origin rest h.time_origin,
)

abbrev pub start_stop_bytes : StartStopState → List ℕ
start_stop_bytes s = Writer.bool_byte s.is_playing ∷ (i64_bytes s.beats ++ i64_bytes s.timestamp)

pub write-StartStopState :
    (s : StartStopState) (w : Writer) → StartStop.write s w ≡ w ++ start_stop_bytes s
unfolding StartStop.write Writer.bool Writer.u8 Writer.i64 Writer.u64
write-StartStopState s w = rw (append_assoc, append_assoc)

pub read-StartStopState :
    (s : StartStopState) (rest : List ℕ)
    → IsStartStopState s
    → StartStop.read (start_stop_bytes s ++ rest) ≡ ok (s, rest)
unfolding StartStop.read
read-StartStopState s rest h = rw (
  bool_exact s.is_playing _,
  append_assoc,
  i64_exact s.beats _ h.beats,
  i64_exact s.timestamp rest h.timestamp,
)

abbrev pub endpoint_bytes : SocketAddr → List ℕ
endpoint_bytes (v4 ip port) = to_be_bytes 4 ip ++ to_be_bytes 2 port
endpoint_bytes (v6 ip port flow scope) = to_be_bytes 16 ip ++ to_be_bytes 2 port

pub write-endpoint : (ep : SocketAddr) (w : Writer) → write_endpoint ep w ≡ w ++ endpoint_bytes ep
unfolding write_endpoint Writer.u32 Writer.u16 Writer.bytes
write-endpoint (v4 ip port) w = rw append_assoc
write-endpoint (v6 ip port flow scope) w = rw append_assoc

length-endpoint_bytes_v4 : (ip port : ℕ) → length (to_be_bytes 4 ip ++ to_be_bytes 2 port) ≡ 6
length-endpoint_bytes_v4 ip port = omega (
  arith,
  length-append (to_be_bytes 4 ip) (to_be_bytes 2 port),
  length-to_be_bytes 4 ip,
  length-to_be_bytes 2 port,
)

length-endpoint_bytes_v6 : (ip port : ℕ) → length (to_be_bytes 16 ip ++ to_be_bytes 2 port) ≡ 18
length-endpoint_bytes_v6 ip port = omega (
  arith,
  length-append (to_be_bytes 16 ip) (to_be_bytes 2 port),
  length-to_be_bytes 16 ip,
  length-to_be_bytes 2 port,
)

port_exact : (port : ℕ) → port < 2 ^ 16 → Reader.u16 (to_be_bytes 2 port) ≡ ok (port, [])
port_exact port h = rw (append-nil (to_be_bytes 2 port)) at (u16_exact port [] h)

-- An endpoint of either family, without flow label and scope, reads back from its value layout.
pub decode-endpoint :
    (ep : SocketAddr) → IsSendable ep → decode_endpoint_value (endpoint_bytes ep) ≡ ok ep
unfolding decode_endpoint_value read_endpoint_v4 read_endpoint_v6
decode-endpoint (v4 ip port) (hi, hp) =
    rw (length-endpoint_bytes_v4 ip port, u32_exact ip _ hi, port_exact port hp)
decode-endpoint (v6 ip port flow scope) (hi, hp, hf, hs) = rw (
  length-endpoint_bytes_v6 ip port,
  take_exact 16 _ _ (length-to_be_bytes 16 ip),
  port_exact port hp,
  from-to_be_bytes 16 ip hi,
  hf,
  hs,
)

-- Six bytes or eighteen.
pub length-endpoint_bytes : (ep : SocketAddr) → length (endpoint_bytes ep) ≤ 18
length-endpoint_bytes (v4 ip port) = omega (arith, length-endpoint_bytes_v4 ip port)
length-endpoint_bytes (v6 ip port flow scope) = omega (arith, length-endpoint_bytes_v6 ip port)
