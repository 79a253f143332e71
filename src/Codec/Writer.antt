-- ===== src/Codec/Writer.antt =====
-- The `Writer` of crates/tactus-wire/src/codec.rs. The struct's one field is the buffer, a list of
-- bytes; a write takes the writer last and returns the new one, so `w ▸ u8 1 ▸ u16 2` reads in the
-- order of the source.
use link_wire_rs.Common.{
  ℕ, ◌+◌, ◌-◌, ◌%◌, ◌^◌, List, [], ◌∷◌, ◌++◌, Bool, true, false, length, ltb, ◌≡◌, refl,
}
use link_wire_rs.Common
use link_wire_rs.Common.Bytes.{to_be_bytes, as_unsigned, half_64, half_16}
use link_wire_rs.Common.Int.{ℤ}

abbrev pub Writer : Type 0
Writer = List ℕ

infixl 6 ◌▸◌
abbrev pub ◌▸◌ : Writer → (Writer → Writer) → Writer
w ▸ f = f w

abbrev pub new : Writer
new = []

abbrev pub len : Writer → ℕ
len w = length w

unfoldable pub bytes : List ℕ → Writer → Writer
bytes bs w = w ++ bs

unfoldable pub u8 : ℕ → Writer → Writer
u8 v w = w ++ (v ∷ [])

unfoldable pub u16 : ℕ → Writer → Writer
u16 v w = w ++ to_be_bytes 2 v

unfoldable pub u32 : ℕ → Writer → Writer
u32 v w = w ++ to_be_bytes 4 v

unfoldable pub u64 : ℕ → Writer → Writer
u64 v w = w ++ to_be_bytes 8 v

unfoldable pub i16 : ℤ → Writer → Writer
i16 v w = u16 (as_unsigned half_16 v) w

unfoldable pub i64 : ℤ → Writer → Writer
i64 v w = u64 (as_unsigned half_64 v) w

-- `v as u8`
abbrev pub bool_byte : Bool → ℕ
bool_byte true = 1
bool_byte false = 0

unfoldable pub bool : Bool → Writer → Writer
bool v w = u8 (bool_byte v) w

unfoldable pub id : List ℕ → Writer → Writer
id v w = bytes v w

unfoldable pub string : List ℕ → Writer → Writer
string s w = w ▸ u32 (length s % 2 ^ 32) ▸ bytes s

-- `buf[at..at + bs.len()].copy_from_slice(bs)`
unfoldable pub copy_at : ℕ → List ℕ → Writer → Writer
copy_at at bs w = Common.take at w ++ (bs ++ Common.drop (at + length bs) w)

-- The size field is written as 0 and filled in once the value stands behind it.
unfoldable pub entry : ℕ → (Writer → Writer) → Writer → Writer
entry key f w =
    let keyed = u32 key w in
    let size_at = len keyed in
    let filled = f (u32 0 keyed) in
    let size = (len filled - size_at - 4) % 2 ^ 32 in copy_at size_at (to_be_bytes 4 size) filled
