-- ===== src/Codec/ReadWrite.antt =====
-- The reads of crates/tactus-wire/src/codec.rs on what its writes produce.
use link_wire_rs.Common.{
  ℕ, ◌+◌, ◌*◌, ◌≤◌, ◌<◌, ◌%◌, ◌^◌, ◌≡◌, refl, ap, ◌∙◌, List, [], ◌∷◌, ◌++◌, Bool, true, false,
  length, ltb, le→ltb, take-append-drop, length-take, take-append_exact, drop-append_exact,
  append_assoc, arith, All, All-take, All-drop, Bool-cases, ◌⊎◌, inl, inr,
}
use native.Mathlib.Nat.{mod-eq_of_lt}
use link_wire_rs.Common
use link_wire_rs.Common.Bytes.{
  to_be_bytes, length-to_be_bytes, from-to_be_bytes, as_unsigned, as_signed-as_unsigned,
  as_unsigned-lt, half_64, half_16, InSigned, InI64,
}
use link_wire_rs.Common.Int.{ℤ}
use link_wire_rs.Codec.Error.{Error, ok, err}
use link_wire_rs.Codec.Reader
use link_wire_rs.Codec.Reader.{Reader}
use link_wire_rs.Codec.Writer

-- The bytes of an `i64`.
abbrev pub i64_bytes : ℤ → List ℕ
i64_bytes z = to_be_bytes 8 (as_unsigned half_64 z)

pub take_exact :
    (n : ℕ) (xs rest : List ℕ) → length xs ≡ n → Reader.take n (xs ++ rest) ≡ ok (xs, rest)
unfolding Reader.take
take_exact n xs rest h = rw (
  le→ltb (length (xs ++ rest)) n (omega (arith, Common.length-append xs rest)),
  take-append_exact n xs rest h,
  drop-append_exact n xs rest h,
)

-- `take` is bounds-checked: it splits the buffer, or the buffer is too short.
pub take_cases :
    (n : ℕ) (r : Reader)
    → ((length r < n) × (Reader.take n r ≡ err Error.truncated))
      ⊎ ((xs : List ℕ) × (r' : Reader) × (Reader.take n r ≡ ok (xs, r'))
          × (xs ++ r' ≡ r)
          × (length xs ≡ n))
unfolding Reader.take
take_cases n r = elim (Bool-cases (ltb (length r) n)) [
  | inl short ↦ inl (ground arith, rw short)
  | inr long ↦ inr (
    Common.take n r,
    Common.drop n r,
    rw long,
    take-append-drop n r,
    ground (arith, length-take n r),
  )
]

pub u8_exact : (v : ℕ) (rest : List ℕ) → Reader.u8 (v ∷ rest) ≡ ok (v, rest)
unfolding Reader.u8
u8_exact v rest = rw (take_exact 1 (v ∷ []) rest refl)

pub u16_exact :
    (v : ℕ) (rest : List ℕ) → v < 2 ^ 16 → Reader.u16 (to_be_bytes 2 v ++ rest) ≡ ok (v, rest)
unfolding Reader.u16
u16_exact v rest h = rw (take_exact 2 _ rest (length-to_be_bytes 2 v), from-to_be_bytes 2 v h)

pub u32_exact :
    (v : ℕ) (rest : List ℕ) → v < 2 ^ 32 → Reader.u32 (to_be_bytes 4 v ++ rest) ≡ ok (v, rest)
unfolding Reader.u32
u32_exact v rest h = rw (take_exact 4 _ rest (length-to_be_bytes 4 v), from-to_be_bytes 4 v h)

pub u64_exact :
    (v : ℕ) (rest : List ℕ) → v < 2 ^ 64 → Reader.u64 (to_be_bytes 8 v ++ rest) ≡ ok (v, rest)
unfolding Reader.u64
u64_exact v rest h = rw (take_exact 8 _ rest (length-to_be_bytes 8 v), from-to_be_bytes 8 v h)

pub i16_exact :
    (z : ℤ) (rest : List ℕ)
    → InSigned half_16 z
    → Reader.i16 (to_be_bytes 2 (as_unsigned half_16 z) ++ rest) ≡ ok (z, rest)
unfolding Reader.i16
i16_exact z rest h =
    rw
      (u16_exact _ rest (as_unsigned-lt half_16 z (omega arith)), as_signed-as_unsigned half_16 z h)

pub i64_exact : (z : ℤ) (rest : List ℕ) → InI64 z → Reader.i64 (i64_bytes z ++ rest) ≡ ok (z, rest)
unfolding Reader.i64
i64_exact z rest h =
    rw
      (u64_exact _ rest (as_unsigned-lt half_64 z (omega arith)), as_signed-as_unsigned half_64 z h)

pub bool_exact : (b : Bool) (rest : List ℕ) → Reader.bool (Writer.bool_byte b ∷ rest) ≡ ok (b, rest)
unfolding Reader.bool
bool_exact true rest = rw (u8_exact 1 rest)
bool_exact false rest = rw (u8_exact 0 rest)

pub id_exact : (v rest : List ℕ) → length v ≡ 8 → Reader.id (v ++ rest) ≡ ok (v, rest)
unfolding Reader.id
id_exact v rest h = take_exact 8 v rest h

-- The bytes of a length-prefixed string.
abbrev pub string_bytes : List ℕ → List ℕ
string_bytes s = to_be_bytes 4 (length s % 2 ^ 32) ++ s

pub string_exact :
    (s rest : List ℕ) → length s < 2 ^ 32 → Reader.string (string_bytes s ++ rest) ≡ ok (s, rest)
unfolding Reader.string
string_exact s rest h = rw (
  append_assoc,
  mod-eq_of_lt h,
  u32_exact (length s) (s ++ rest) h,
  take_exact (length s) s rest refl,
)
