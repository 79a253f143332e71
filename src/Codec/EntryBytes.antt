-- ===== src/Codec/EntryBytes.antt =====
-- What `Writer::entry` of crates/tactus-wire/src/codec.rs leaves in the buffer.
use link_wire_rs.Common.{
  ℕ, ◌+◌, ◌-◌, ◌%◌, ◌^◌, ◌≡◌, refl, sym, ◌∙◌, List, ◌++◌, length, length-append, take-append_exact,
  drop-append_exact, append_assoc, arith,
}
use link_wire_rs.Common.Bytes.{to_be_bytes, length-to_be_bytes}
use link_wire_rs.Codec.Writer
use link_wire_rs.Codec.Writer.{Writer}

-- Key, size and value.
abbrev pub entry_bytes : ℕ → List ℕ → List ℕ
entry_bytes key v = to_be_bytes 4 key ++ (to_be_bytes 4 (length v % 2 ^ 32) ++ v)

-- A copy over a part of the same length replaces just that part.
copy_at_part :
    (w old v bs : List ℕ)
    → length old ≡ length bs
    → Writer.copy_at (length w) bs (w ++ (old ++ v)) ≡ w ++ (bs ++ v)
unfolding Writer.copy_at
copy_at_part w old v bs h = rw (
  take-append_exact (length w) w (old ++ v) refl,
  ← append_assoc w old v,
  drop-append_exact (length w + length bs) (w ++ old) v (omega (arith, length-append w old)),
)

-- What lies behind the size field is the value.
value_length : (w z v : List ℕ) → length z ≡ 4 → length (w ++ (z ++ v)) - length w - 4 ≡ length v
value_length w z v h = omega (arith, length-append w (z ++ v), length-append z v)

-- Where a closure appends a value, an entry is its key, the length of the value and the value,
-- behind whatever the buffer held: the size that is patched in is that length.
pub entry_lem :
    (key : ℕ) (f : Writer → Writer) (v : List ℕ) (w : Writer)
    → ((u : Writer) → f u ≡ u ++ v)
    → Writer.entry key f w ≡ w ++ entry_bytes key v
unfolding Writer.entry Writer.u32
entry_lem key f v w appends = rw (
  appends,
  append_assoc (w ++ to_be_bytes 4 key) (to_be_bytes 4 0) v,
  value_length (w ++ to_be_bytes 4 key) (to_be_bytes 4 0) v (length-to_be_bytes 4 0),
  copy_at_part (w ++ to_be_bytes 4 key) (to_be_bytes 4 0) v _
      (length-to_be_bytes 4 0 ∙ sym (length-to_be_bytes 4 _)),
  append_assoc,
)

pub length-entry_bytes : (key : ℕ) (v : List ℕ) → length (entry_bytes key v) ≡ 8 + length v
length-entry_bytes key v = omega (
  arith,
  length-append (to_be_bytes 4 key) (to_be_bytes 4 (length v % 2 ^ 32) ++ v),
  length-append (to_be_bytes 4 (length v % 2 ^ 32)) v,
  length-to_be_bytes 4 key,
  length-to_be_bytes 4 (length v % 2 ^ 32),
)
