-- ===== src/Sync/Message.antt =====
-- The messages and constants of crates/tactus-wire/src/sync.rs.
use link_wire_rs.Common.{ℕ, List, [], ◌∷◌, Option}
use link_wire_rs.Common.Bytes.{fourcc}
use link_wire_rs.Common.Int.{ℤ}
use link_wire_rs.Types.Id.{LinkId}

-- b"_link_v\x01"
abbrev pub magic : List ℕ
magic = b'_' ∷ b'l' ∷ b'i' ∷ b'n' ∷ b'k' ∷ b'_' ∷ b'v' ∷ 1 ∷ []

abbrev pub max_ping_payload : ℕ
max_ping_payload = 32

abbrev pub samples_required : ℕ
samples_required = 100

abbrev pub type_ping : ℕ
type_ping = 1

abbrev pub type_pong : ℕ
type_pong = 2

-- The keys `__ht`, `__gt`, `_pgt` and `sess`.
abbrev pub ht : ℕ
ht = fourcc b'_' b'_' b'h' b't'

abbrev pub gt : ℕ
gt = fourcc b'_' b'_' b'g' b't'

abbrev pub pgt : ℕ
pgt = fourcc b'_' b'p' b'g' b't'

abbrev pub sess : ℕ
sess = fourcc b's' b'e' b's' b's'

pub record Ping : Type 0 where
  pub host_time : Option ℤ
  pub prev_ghost_time : Option ℤ
  pub payload : List ℕ

pub record Pong : Type 0 where
  pub session : LinkId
  pub ghost_time : ℤ
  pub echo : List ℕ

pub data Message : Type 0 where
  ping : Ping → Message
  pong : Pong → Message
