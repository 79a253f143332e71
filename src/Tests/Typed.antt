-- ===== src/Tests/Typed.antt =====
-- What is decoded, at a concrete datagram.
use link_wire_rs.Common.{ℕ, ◌≡◌, refl, List, [], ◌∷◌, some, arith}
use link_wire_rs.Common.Bytes.{AreBytes, bytes_eqb, from_be_bytes}
use link_wire_rs.Codec.Error.{ok}
use link_wire_rs.Codec.Reader
use link_wire_rs.Codec.Entries
use link_wire_rs.Types.Id
use link_wire_rs.Types.Id.{LinkId}
use link_wire_rs.Discovery.Message.{Frame, IsFrame, alive, no_state}
use link_wire_rs.Discovery.Decode.{state_step, read_state, decode_message, decode}
use link_wire_rs.Discovery.Encode.{encode}
use link_wire_rs.Discovery.Typed.{decode-IsFrame}

abbrev node_id : LinkId
node_id = 1 ∷ 2 ∷ 3 ∷ 4 ∷ 5 ∷ 6 ∷ 7 ∷ 8 ∷ []

-- An Alive of a peer that names its session, and something that is not known.
abbrev datagram : List ℕ
datagram =
    b'_' ∷ b'a' ∷ b's' ∷ b'd' ∷ b'p' ∷ b'_' ∷ b'v' ∷ 1 ∷ 1 ∷ 5 ∷ 0 ∷ 0 ∷ 1 ∷ 2 ∷ 3 ∷ 4 ∷ 5 ∷ 6 ∷ 7
    ∷ 8 ∷ b's' ∷ b'e' ∷ b's' ∷ b's' ∷ 0 ∷ 0 ∷ 0 ∷ 8 ∷ 1 ∷ 2 ∷ 3 ∷ 4 ∷ 5 ∷ 6 ∷ 7 ∷ 8 ∷ b'n' ∷ b'e'
    ∷ b'w' ∷ b'!' ∷ 0 ∷ 0 ∷ 0 ∷ 1 ∷ 255 ∷ []

abbrev heard : Frame
heard = record {
  ttl = 5;
  group_id = 0;
  node = node_id;
  message = alive (record no_state { session = some node_id });
}

datagram-heard : decode datagram ≡ ok heard
unfolding decode Reader.take Reader.u8 Reader.u16 Reader.u32 Reader.id Id.read decode_message
    read_state Entries.scan Entries.scan_loop Entries.next Entries.parse Entries.decode state_step
    bytes_eqb from_be_bytes
datagram-heard = refl

datagram-AreBytes : AreBytes datagram
datagram-AreBytes = omega arith

decode-IsFrame_example : IsFrame heard × (decode (encode heard) ≡ ok heard)
decode-IsFrame_example = decode-IsFrame datagram heard datagram-AreBytes datagram-heard
