-- ===== src/Sync/Decode.antt =====
-- `decode` and `parse_echo` of crates/tactus-wire/src/sync.rs.
use link_wire_rs.Common.{ℕ, zero, suc, List, [], Option, none, some, ltb, ◌==◌, not, if◌then◌else◌}
use link_wire_rs.Common.Bytes.{bytes_eqb}
use link_wire_rs.Common.Int.{ℤ}
use link_wire_rs.Codec.Error.{Error, Result, ok, err, ◌>>=◌, ◌>>◌, reject_if}
use link_wire_rs.Codec.Reader
use link_wire_rs.Codec.Reader.{Reader}
use link_wire_rs.Codec.Entries
use link_wire_rs.Codec.Entries.{Entry, scan}
use link_wire_rs.Types.Id
use link_wire_rs.Types.Id.{LinkId}
use link_wire_rs.Sync.Message.{Message, ping, pong, magic, type_ping, type_pong, ht, gt, pgt, sess}

-- The variables of the loop over a ping's entries, which `parse_echo` has too.
pub record Times : Type 0 where
  pub host_time : Option ℤ
  pub prev_ghost_time : Option ℤ

abbrev pub no_times : Times
no_times = record { host_time = none; prev_ghost_time = none }

unfoldable pub times_step : Times → Entry → Result Times
times_step s e =
    if e.key == ht
    then (do v ← Entries.decode e Reader.i64; ok (record s { host_time = some v }))
    else if e.key == pgt
    then (do v ← Entries.decode e Reader.i64; ok (record s { prev_ghost_time = some v }))
    else ok s

unfoldable pub decode_ping : List ℕ → Result Message
decode_ping payload = do
  s ← scan times_step no_times payload
  ok (
      ping (record {
        host_time = s.host_time;
        prev_ghost_time = s.prev_ghost_time;
        payload = payload;
      }))

-- The variables of the loop over a pong's two leading entries.
pub record Leading : Type 0 where
  pub session : Option LinkId
  pub ghost_time : Option ℤ
  pub echo : List ℕ

unfoldable pub leading_step : Leading → Entry → Result Leading
leading_step s e =
    if e.key == sess
    then (do v ← Entries.decode e Id.read; ok (record s { session = some v }))
    else if e.key == gt
    then (do v ← Entries.decode e Reader.i64; ok (record s { ghost_time = some v }))
    else err (Error.malformed "unexpected leading pong entry")

-- `for _ in 0..2`: the first argument counts the rounds left.
unfoldable pub leading_loop : ℕ → Leading → Reader → Result Leading
leading_loop zero s r = ok s
leading_loop (suc n) s r = elim (Entries.next r) [
  | none ↦ ok (record s { echo = r })
  | some parsed ↦ (do
    (e, r') ← parsed
    s' ← leading_step s e
    leading_loop n (record s' { echo = r' }) r')
]

-- `match (session, ghost_time) { .. }`
abbrev pub finish_pong : List ℕ → Option LinkId → Option ℤ → Result Message
finish_pong echo (some session) (some ghost_time) =
    ok (pong (record { session = session; ghost_time = ghost_time; echo = echo }))
finish_pong echo (some session) none = err (Error.malformed "pong missing sess/__gt")
finish_pong echo none ghost_time = err (Error.malformed "pong missing sess/__gt")

unfoldable pub decode_pong : List ℕ → Result Message
decode_pong payload = do
  s ← leading_loop 2 (record { session = none; ghost_time = none; echo = [] }) payload
  finish_pong s.echo s.session s.ghost_time

-- `match msg_type { .. }`
unfoldable pub decode_payload : ℕ → List ℕ → Result Message
decode_payload msg_type payload =
    if msg_type == type_ping
    then decode_ping payload
    else if msg_type == type_pong
    then decode_pong payload
    else err (Error.unknown_message_type msg_type)

unfoldable pub decode : List ℕ → Result Message
decode datagram = do
  reject_if (ltb (Reader.remaining datagram) 9) Error.truncated
  (head, r1) ← Reader.take 8 datagram
  reject_if (not (bytes_eqb head magic)) Error.bad_magic
  (msg_type, r2) ← Reader.u8 r1
  decode_payload msg_type (Reader.rest r2)

unfoldable pub parse_echo : List ℕ → Result (Option ℤ × Option ℤ)
parse_echo echo = do s ← scan times_step no_times echo; ok (s.host_time, s.prev_ghost_time)
