-- ===== src/Codec/Inversion.antt =====
-- What a successful read of crates/tactus-wire/src/codec.rs says of the buffer: it began with the bytes
-- that the matching write gives.
use link_wire_rs.Common.{
  ℕ, ◌<◌, ◌^◌, ◌≡◌, refl, List, [], ◌∷◌, ◌++◌, Bool, true, false, length, arith, inl, inr,
}
use link_wire_rs.Common.Bytes.{
  AreBytes, IsByte, to_be_bytes, from_be_bytes, to-from_be_bytes, from_be_bytes-lt, as_signed,
  as_unsigned-as_signed, as_signed-InSigned, half_64, InI64,
}
use link_wire_rs.Common.Int.{ℤ}
use link_wire_rs.Codec.Error.{Error, Result, ok, reject_if, >>=-eq-ok}
use link_wire_rs.Codec.Reader
use link_wire_rs.Codec.Reader.{Reader}
use link_wire_rs.Codec.ReadWrite.{take_cases, i64_bytes}

pub reject_if_inv : (b : Bool) (e : Error) {u : Unit {0}} → reject_if b e ≡ ok u → b ≡ false
reject_if_inv true e h = cc
reject_if_inv false e h = refl

pub take_inv :
    (n : ℕ) (r xs r' : List ℕ) → Reader.take n r ≡ ok (xs, r') → (r ≡ xs ++ r') × (length xs ≡ n)
take_inv n r xs r' h = elim (take_cases n r) [
  | inl (short, f) ↦ absurd (cc)
  | inr (ys, s, f, split, len) ↦ ground arith
]

pub u8_inv : (r : Reader) (v : ℕ) (r' : Reader) → Reader.u8 r ≡ ok (v, r') → r ≡ v ∷ r'
unfolding Reader.u8
u8_inv r v r' h =
    let (p, taken, h') = >>=-eq-ok (Reader.take 1 r) _ h in
    one p.0 p.1 (take_inv 1 r p.0 p.1 taken) h'
  where
    one :
        (xs s : List ℕ)
        → (r ≡ xs ++ s) × (length xs ≡ 1)
        → ◌≡◌ {A = Result (ℕ × Reader)} (ok (Reader.first xs, s)) (ok (v, r'))
        → r ≡ v ∷ r'
    one [] s (split, len) e = absurd (omega arith)
    one (x ∷ []) s (split, len) e = cc
    one (x ∷ y ∷ ys) s (split, len) e = absurd (omega arith)

AreBytes-left : (xs ys : List ℕ) → AreBytes (xs ++ ys) → AreBytes xs
AreBytes-left [] ys h = tt
AreBytes-left (x ∷ xs) ys (p, h) = (p, AreBytes-left xs ys h)

AreBytes-right : (xs ys : List ℕ) → AreBytes (xs ++ ys) → AreBytes ys
AreBytes-right [] ys h = h
AreBytes-right (x ∷ xs) ys (p, h) = AreBytes-right xs ys h

-- `r` is the bytes `bs` and then `r'`, and `r'` is bytes again.
pub record Begins (r bs r' : List ℕ) : Type 0 where
  pub split : r ≡ bs ++ r'
  pub behind : AreBytes r'

pub take-Begins :
    (n : ℕ) (r xs r' : List ℕ)
    → AreBytes r
    → Reader.take n r ≡ ok (xs, r')
    → Begins r xs r' × (length xs ≡ n) × AreBytes xs
take-Begins n r xs r' hr h =
    let (split, len) = take_inv n r xs r' h in
    let hr' : AreBytes (xs ++ r') = rw split at hr in
    (record { split = split; behind = AreBytes-right xs r' hr' }, len, AreBytes-left xs r' hr')

-- A word read from `n` bytes is below 256 ^ n, and they are its big-endian bytes.
word-Begins :
    (n : ℕ) (r xs r' : List ℕ)
    → AreBytes r
    → Reader.take n r ≡ ok (xs, r')
    → Begins r (to_be_bytes n (from_be_bytes xs)) r' × (from_be_bytes xs < 256 ^ n)
word-Begins n r xs r' hr h =
    let (b, len, hx) = take-Begins n r xs r' hr h in
    let e : to_be_bytes n (from_be_bytes xs) ≡ xs = rw len at (to-from_be_bytes xs hx) in
    (rw e b, rw len at (from_be_bytes-lt xs hx))

pub u8-Begins :
    (r : Reader) (v : ℕ) (r' : Reader)
    → AreBytes r
    → Reader.u8 r ≡ ok (v, r')
    → Begins r (v ∷ []) r' × IsByte v
u8-Begins r v r' hr h =
    let split = u8_inv r v r' h in
    let hr' : AreBytes (v ∷ r') = rw split at hr in
    (record { split = split; behind = hr'.1 }, hr'.0)

word_at :
    (n : ℕ) (r : Reader) (v : ℕ) (r' : Reader) (p : List ℕ × Reader)
    → AreBytes r
    → Reader.take n r ≡ ok p
    → ◌≡◌ {A = Result (ℕ × Reader)} (ok (from_be_bytes p.0, p.1)) (ok (v, r'))
    → Begins r (to_be_bytes n v) r' × (v < 256 ^ n)
word_at n r v r' p hr taken e =
    let value : from_be_bytes p.0 ≡ v = cc in
    let behind : p.1 ≡ r' = cc in rw (← value, ← behind) (word-Begins n r p.0 p.1 hr taken)

pub u16-Begins :
    (r : Reader) (v : ℕ) (r' : Reader)
    → AreBytes r
    → Reader.u16 r ≡ ok (v, r')
    → Begins r (to_be_bytes 2 v) r' × (v < 2 ^ 16)
unfolding Reader.u16
u16-Begins r v r' hr h =
    let (p, taken, h') = >>=-eq-ok (Reader.take 2 r) _ h in word_at 2 r v r' p hr taken h'

pub u32-Begins :
    (r : Reader) (v : ℕ) (r' : Reader)
    → AreBytes r
    → Reader.u32 r ≡ ok (v, r')
    → Begins r (to_be_bytes 4 v) r' × (v < 2 ^ 32)
unfolding Reader.u32
u32-Begins r v r' hr h =
    let (p, taken, h') = >>=-eq-ok (Reader.take 4 r) _ h in word_at 4 r v r' p hr taken h'

pub u64-Begins :
    (r : Reader) (v : ℕ) (r' : Reader)
    → AreBytes r
    → Reader.u64 r ≡ ok (v, r')
    → Begins r (to_be_bytes 8 v) r' × (v < 2 ^ 64)
unfolding Reader.u64
u64-Begins r v r' hr h =
    let (p, taken, h') = >>=-eq-ok (Reader.take 8 r) _ h in word_at 8 r v r' p hr taken h'

pub i64-Begins :
    (r : Reader) (z : ℤ) (r' : Reader)
    → AreBytes r
    → Reader.i64 r ≡ ok (z, r')
    → Begins r (i64_bytes z) r' × InI64 z
unfolding Reader.i64
i64-Begins r z r' hr h =
    let (p, taken, h') = >>=-eq-ok (Reader.u64 r) _ h in
    let (b, fits) = u64-Begins r p.0 p.1 hr taken in
    let value : as_signed half_64 p.0 ≡ z = cc in
    let behind : p.1 ≡ r' = cc in
    rw (← value, ← behind)
      (rw (as_unsigned-as_signed half_64 p.0 fits) b, as_signed-InSigned half_64 p.0 fits)

pub id-Begins :
    (r i r' : List ℕ)
    → AreBytes r
    → Reader.id r ≡ ok (i, r')
    → Begins r i r' × (length i ≡ 8) × AreBytes i
unfolding Reader.id
id-Begins r i r' hr h = take-Begins 8 r i r' hr h
