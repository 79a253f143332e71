-- ===== src/Codec/Reader.antt =====
-- The `Reader` of crates/tactus-wire/src/codec.rs. The struct's one field is the unread part of the
-- buffer, a list of bytes, and a read returns its value with the new reader. No caller looks at a
-- reader after a failed read.
use link_wire_rs.Common.{ℕ, ◌*◌, List, [], ◌∷◌, Bool, not, length, ltb, ◌==◌, if◌then◌else◌}
use link_wire_rs.Common
use link_wire_rs.Common.Bytes.{from_be_bytes, as_signed, half_64, half_16}
use link_wire_rs.Common.Int.{ℤ}
use link_wire_rs.Codec.Error.{Error, Result, ok, err, ◌>>=◌}

abbrev pub Reader : Type 0
Reader = List ℕ

abbrev pub remaining : Reader → ℕ
remaining r = length r

abbrev pub is_empty : Reader → Bool
is_empty [] = Bool.true
is_empty (b ∷ bs) = Bool.false

abbrev pub rest : Reader → List ℕ
rest r = r

unfoldable pub take : ℕ → Reader → Result (List ℕ × Reader)
take n r = if ltb (length r) n then err Error.truncated else ok (Common.take n r, Common.drop n r)

-- `xs[0]`
abbrev pub first : List ℕ → ℕ
first [] = 0
first (x ∷ xs) = x

unfoldable pub u8 : Reader → Result (ℕ × Reader)
u8 r = do (xs, r') ← take 1 r; ok (first xs, r')

unfoldable pub u16 : Reader → Result (ℕ × Reader)
u16 r = do (xs, r') ← take 2 r; ok (from_be_bytes xs, r')

unfoldable pub u32 : Reader → Result (ℕ × Reader)
u32 r = do (xs, r') ← take 4 r; ok (from_be_bytes xs, r')

unfoldable pub u64 : Reader → Result (ℕ × Reader)
u64 r = do (xs, r') ← take 8 r; ok (from_be_bytes xs, r')

unfoldable pub i16 : Reader → Result (ℤ × Reader)
i16 r = do (v, r') ← u16 r; ok (as_signed half_16 v, r')

unfoldable pub i64 : Reader → Result (ℤ × Reader)
i64 r = do (v, r') ← u64 r; ok (as_signed half_64 v, r')

unfoldable pub bool : Reader → Result (Bool × Reader)
bool r = do (v, r') ← u8 r; ok (not (v == 0), r')

-- Eight bytes.
unfoldable pub id : Reader → Result (List ℕ × Reader)
id r = take 8 r

unfoldable pub string : Reader → Result (List ℕ × Reader)
string r = do (n, r') ← u32 r; take n r'
