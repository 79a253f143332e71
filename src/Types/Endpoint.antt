-- ===== src/Types/Endpoint.antt =====
-- Endpoints (std's `SocketAddr`) and their value layouts, crates/tactus-wire/src/types.rs. An address
-- is the number of its bits, 32 of them or 128.
use link_wire_rs.Common.{ℕ, ◌<◌, ◌^◌, ◌≡◌, List, Option, none, some, length, ◌==◌, if◌then◌else◌}
use link_wire_rs.Common.Bytes.{from_be_bytes, to_be_bytes}
use link_wire_rs.Codec.Error.{Error, Result, ok, err, ◌>>=◌}
use link_wire_rs.Codec.Reader
use link_wire_rs.Codec.Reader.{Reader}
use link_wire_rs.Codec.Writer
use link_wire_rs.Codec.Writer.{Writer, ◌▸◌}

pub data SocketAddr : Type 0 where
  -- address and port
  v4 : ℕ → ℕ → SocketAddr
  -- address, port, flow label and scope
  v6 : ℕ → ℕ → ℕ → ℕ → SocketAddr

-- In the ranges of the field types, and with no flow label and no scope, which are not sent.
abbrev pub IsSendable : SocketAddr → Type 0
IsSendable (v4 ip port) = (ip < 2 ^ 32) × (port < 2 ^ 16)
IsSendable (v6 ip port flow scope) = (ip < 2 ^ 128) × (port < 2 ^ 16) × (flow ≡ 0) × (scope ≡ 0)

unfoldable pub read_endpoint_v4 : Reader → Result (SocketAddr × Reader)
read_endpoint_v4 r = do (addr, r1) ← Reader.u32 r; (port, r2) ← Reader.u16 r1; ok (v4 addr port, r2)

unfoldable pub read_endpoint_v6 : Reader → Result (SocketAddr × Reader)
read_endpoint_v6 r = do
  (octets, r1) ← Reader.take 16 r
  (port, r2) ← Reader.u16 r1
  ok (v6 (from_be_bytes octets) port 0 0, r2)

unfoldable pub write_endpoint : SocketAddr → Writer → Writer
write_endpoint (v4 ip port) w = w ▸ Writer.u32 ip ▸ Writer.u16 port
write_endpoint (v6 ip port flow scope) w = w ▸ Writer.bytes (to_be_bytes 16 ip) ▸ Writer.u16 port

-- The key of the endpoint's family.
abbrev pub family_key : ℕ → ℕ → SocketAddr → ℕ
family_key key_v4 key_v6 (v4 ip port) = key_v4
family_key key_v4 key_v6 (v6 ip port flow scope) = key_v6

unfoldable pub write_endpoint_entry : ℕ → ℕ → Option SocketAddr → Writer → Writer
write_endpoint_entry key_v4 key_v6 none w = w
write_endpoint_entry key_v4 key_v6 (some ep) w =
    Writer.entry (family_key key_v4 key_v6 ep) (write_endpoint ep) w

unfoldable pub decode_endpoint_value : List ℕ → Result SocketAddr
decode_endpoint_value value =
    let short = read_endpoint_v4 value in
    let long = read_endpoint_v6 value in
    do
      (ep, r) ←
          if length value == 6
          then short
          else if length value == 18
          then long
          else err (Error.malformed "endpoint value size")
      ok ep
