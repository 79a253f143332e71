-- ===== src/Sync/Encode.antt =====
-- `encode_ping` and `encode_pong` of crates/tactus-wire/src/sync.rs, and the bytes that they give.
use link_wire_rs.Common.{
  ℕ, ◌≡◌, refl, sym, List, [], ◌∷◌, ◌++◌, Option, none, some, append_assoc, append-nil,
}
use link_wire_rs.Common.Int.{ℤ}
use link_wire_rs.Codec.Writer
use link_wire_rs.Codec.Writer.{Writer, ◌▸◌}
use link_wire_rs.Codec.EntryBytes.{entry_bytes, entry_lem}
use link_wire_rs.Codec.ReadWrite.{i64_bytes}
use link_wire_rs.Types.Id
use link_wire_rs.Types.Id.{LinkId}
use link_wire_rs.Types.RoundTrip.{write-LinkId}
use link_wire_rs.Sync.Message.{magic, type_ping, type_pong, ht, gt, pgt, sess}

-- `if let Some(pgt) = prev_ghost_time { .. }`
unfoldable pub write_prev : Option ℤ → Writer → Writer
write_prev none w = w
write_prev (some v) w = Writer.entry pgt (Writer.i64 v) w

unfoldable pub encode_ping : ℤ → Option ℤ → List ℕ
encode_ping host_time prev =
    Writer.new
    ▸ Writer.bytes magic
    ▸ Writer.u8 type_ping
    ▸ Writer.entry ht (Writer.i64 host_time)
    ▸ write_prev prev

unfoldable pub encode_pong : LinkId → ℤ → List ℕ → List ℕ
encode_pong session ghost_time echo =
    Writer.new
    ▸ Writer.bytes magic
    ▸ Writer.u8 type_pong
    ▸ Writer.entry sess (Id.write session)
    ▸ Writer.entry gt (Writer.i64 ghost_time)
    ▸ Writer.bytes echo

pub write-i64 : (z : ℤ) (w : Writer) → Writer.i64 z w ≡ w ++ i64_bytes z
unfolding Writer.i64 Writer.u64
write-i64 z w = refl

pub entry-i64 :
    (key : ℕ) (z : ℤ) (w : Writer)
    → Writer.entry key (Writer.i64 z) w ≡ w ++ entry_bytes key (i64_bytes z)
entry-i64 key z w = entry_lem key (Writer.i64 z) (i64_bytes z) w (write-i64 z)

pub entry-LinkId :
    (key : ℕ) (i : LinkId) (w : Writer) → Writer.entry key (Id.write i) w ≡ w ++ entry_bytes key i
entry-LinkId key i w = entry_lem key (Id.write i) i w (write-LinkId i)

abbrev pub prev_bytes : Option ℤ → List ℕ
prev_bytes none = []
prev_bytes (some v) = entry_bytes pgt (i64_bytes v)

abbrev pub ping_payload : ℤ → Option ℤ → List ℕ
ping_payload host_time prev = entry_bytes ht (i64_bytes host_time) ++ prev_bytes prev

write_prev_lem : (prev : Option ℤ) (w : Writer) → write_prev prev w ≡ w ++ prev_bytes prev
unfolding write_prev
write_prev_lem none w = sym (append-nil w)
write_prev_lem (some v) w = entry-i64 pgt v w

pub encode_ping_lem :
    (host_time : ℤ) (prev : Option ℤ)
    → encode_ping host_time prev ≡ magic ++ (type_ping ∷ ping_payload host_time prev)
unfolding encode_ping Writer.bytes Writer.u8
encode_ping_lem host_time prev = rw (write_prev_lem, entry-i64)

pub encode_pong_lem :
    (session : LinkId) (ghost_time : ℤ) (echo : List ℕ)
    → encode_pong session ghost_time echo
      ≡ magic
        ++ (type_pong
            ∷ (entry_bytes sess session ++ (entry_bytes gt (i64_bytes ghost_time) ++ echo)))
unfolding encode_pong Writer.bytes Writer.u8
encode_pong_lem session ghost_time echo =
    rw (entry-i64, entry-LinkId, append_assoc (entry_bytes sess session))
