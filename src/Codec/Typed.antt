-- ===== src/Codec/Typed.antt =====
-- What the reads of crates/tactus-wire/src/codec.rs give is in the range of its type, on every buffer of bytes.
use link_wire_rs.Common.{
  ℕ, zero, suc, ◌^◌, ◌≤◌, ◌<◌, ◌≡◌, List, [], ◌∷◌, length, length-take, take, drop, ltb, Bool, true,
  false, if◌then◌else◌, arith, if-intro,
}
use link_wire_rs.Common.Bytes.{
  AreBytes, InI64, half_64, from_be_bytes, from_be_bytes-lt, as_signed-InSigned,
}
use link_wire_rs.Codec.Error.{Error, Result, ok, err, stuck, ◌>>=◌, reject_if}
use link_wire_rs.Codec.Reader
use link_wire_rs.Codec.Reader.{Reader}
use link_wire_rs.Codec.Entries
use link_wire_rs.Codec.Entries.{Entry, scan}

-- The value has the property, where there is one.
pub data Gives {A : Type 0} (P : A → Type 0) : Result A → Type 0 where
  gives : {a : A} → P a → Gives P (ok a)
  fails : {e : Error} → Gives P (err e)
  stays : Gives P stuck

pub given : {A : Type 0} {P : A → Type 0} {a : A} → Gives P (ok a) → P a
given (gives h) = h

pub Gives->>= :
    {A B : Type 0} (P : A → Type 0) (Q : B → Type 0) (m : Result A) (f : A → Result B)
    → Gives P m
    → ((a : A) → P a → Gives Q (f a))
    → Gives Q (m >>= f)
Gives->>= P Q m f (gives {a = a} h) k = k a h
Gives->>= P Q m f fails k = fails
Gives->>= P Q m f stays k = stays

pub Gives-if :
    {A : Type 0} (P : A → Type 0) (b : Bool) (m n : Result A)
    → Gives P m
    → Gives P n
    → Gives P (if b then m else n)
Gives-if P true m n h k = h
Gives-if P false m n h k = k

pub Gives-reject_if : (b : Bool) (e : Error) → Gives (λ u. Unit {0}) (reject_if b e)
Gives-reject_if true e = fails
Gives-reject_if false e = gives tt

-- A read of a value with the property, which leaves bytes.
abbrev pub Reads : {A : Type 0} → (A → Type 0) → Result (A × Reader) → Type 0
Reads P m = Gives (λ p. P p.0 × AreBytes p.1) m

take-AreBytes : (n : ℕ) (xs : List ℕ) → AreBytes xs → AreBytes (take n xs)
take-AreBytes zero xs h = tt
take-AreBytes (suc n) [] h = tt
take-AreBytes (suc n) (x ∷ xs) (hx, h) = (hx, take-AreBytes n xs h)

drop-AreBytes : (n : ℕ) (xs : List ℕ) → AreBytes xs → AreBytes (drop n xs)
drop-AreBytes zero xs h = h
drop-AreBytes (suc n) [] h = tt
drop-AreBytes (suc n) (x ∷ xs) (hx, h) = drop-AreBytes n xs h

abbrev pub AreBytesOf : ℕ → List ℕ → Type 0
AreBytesOf n xs = (length xs ≡ n) × AreBytes xs

pub take-Reads : (n : ℕ) (r : Reader) → AreBytes r → Reads (AreBytesOf n) (Reader.take n r)
unfolding Reader.take
take-Reads n r h =
    if-intro (Reads (AreBytesOf n)) (ltb (length r) n) _ _ (λ short. fails)
      (λ long.
        let len = length-take n r in
        let enough : n ≤ length r = ground arith in
        gives ((omega arith, take-AreBytes n r h), drop-AreBytes n r h))

-- A number of as many bytes.
abbrev pub IsBelow : ℕ → ℕ → Type 0
IsBelow n v = v < 256 ^ n

pub number-IsBelow : (n : ℕ) (xs : List ℕ) → AreBytesOf n xs → IsBelow n (from_be_bytes xs)
number-IsBelow n xs (len, h) = rw (← len) (from_be_bytes-lt xs h)

pub u16-Reads : (r : Reader) → AreBytes r → Reads (IsBelow 2) (Reader.u16 r)
unfolding Reader.u16
u16-Reads r h =
    Gives->>= (λ p. AreBytesOf 2 p.0 × AreBytes p.1) _ (Reader.take 2 r) _ (take-Reads 2 r h)
      (λ p k. gives (number-IsBelow 2 p.0 k.0, k.1))

pub u32-Reads : (r : Reader) → AreBytes r → Reads (IsBelow 4) (Reader.u32 r)
unfolding Reader.u32
u32-Reads r h =
    Gives->>= (λ p. AreBytesOf 4 p.0 × AreBytes p.1) _ (Reader.take 4 r) _ (take-Reads 4 r h)
      (λ p k. gives (number-IsBelow 4 p.0 k.0, k.1))

u64-Reads : (r : Reader) → AreBytes r → Reads (IsBelow 8) (Reader.u64 r)
unfolding Reader.u64
u64-Reads r h =
    Gives->>= (λ p. AreBytesOf 8 p.0 × AreBytes p.1) _ (Reader.take 8 r) _ (take-Reads 8 r h)
      (λ p k. gives (number-IsBelow 8 p.0 k.0, k.1))

pub i64-Reads : (r : Reader) → AreBytes r → Reads InI64 (Reader.i64 r)
unfolding Reader.i64
i64-Reads r h =
    Gives->>= (λ p. IsBelow 8 p.0 × AreBytes p.1) _ (Reader.u64 r) _ (u64-Reads r h)
      (λ p k. gives (as_signed-InSigned half_64 p.0 (omega (arith, k.0)), k.1))

first-IsBelow : (xs : List ℕ) → AreBytesOf 1 xs → IsBelow 1 (Reader.first xs)
first-IsBelow [] h = omega arith
first-IsBelow (x ∷ xs) (len, (hx, h)) = omega arith

pub u8-Reads : (r : Reader) → AreBytes r → Reads (IsBelow 1) (Reader.u8 r)
unfolding Reader.u8
u8-Reads r h =
    Gives->>= (λ p. AreBytesOf 1 p.0 × AreBytes p.1) _ (Reader.take 1 r) _ (take-Reads 1 r h)
      (λ p k. gives (first-IsBelow p.0 k.0, k.1))

pub bool-Reads : (r : Reader) → AreBytes r → Reads (λ b. Unit {0}) (Reader.bool r)
unfolding Reader.bool
bool-Reads r h =
    Gives->>= (λ p. IsBelow 1 p.0 × AreBytes p.1) _ (Reader.u8 r) _ (u8-Reads r h)
      (λ p k. gives (tt, k.1))

pub id-Reads : (r : Reader) → AreBytes r → Reads (AreBytesOf 8) (Reader.id r)
unfolding Reader.id
id-Reads r h = take-Reads 8 r h

parse-Reads : (r : Reader) → AreBytes r → Reads (λ e. AreBytes e.value) (Entries.parse r)
unfolding Entries.parse
parse-Reads r h =
    Gives->>= (λ p. IsBelow 4 p.0 × AreBytes p.1) _ (Reader.u32 r) _ (u32-Reads r h)
      λ p hp.
        Gives->>= (λ q. IsBelow 4 q.0 × AreBytes q.1) _ (Reader.u32 p.1) _ (u32-Reads p.1 hp.1)
          λ q hq.
            Gives->>= (λ t. AreBytesOf q.0 t.0 × AreBytes t.1) _ (Reader.take q.0 q.1) _
              (take-Reads q.0 q.1 hq.1) λ t ht. gives (ht.0.1, ht.1)

-- The value of an entry, read whole.
pub decode-Gives :
    {A : Type 0} (P : A → Type 0) (e : Entry) (f : Reader → Result (A × Reader))
    → Reads P (f e.value)
    → Gives P (Entries.decode e f)
unfolding Entries.decode
decode-Gives P e f h =
    Gives->>= (λ p. P p.0 × AreBytes p.1) P (f e.value) _ h
      (λ p k. Gives-if P (Reader.is_empty p.1) _ _ (gives k.0) fails)

-- What every step keeps, the loop over the entries keeps.
module _ {S : Type 0} (P : S → Type 0) (step : S → Entry → Result S)
    (keeps : (s : S) (e : Entry) → P s → AreBytes e.value → Gives P (step s e)) where
  scan_loop-Gives :
      (n : ℕ) (s : S) (r : Reader) → P s → AreBytes r → Gives P (Entries.scan_loop step n s r)
  unfolding Entries.scan_loop Entries.next
  scan_loop-Gives zero s r hs hr = stays
  scan_loop-Gives (suc n) s [] hs hr = gives hs
  scan_loop-Gives (suc n) s (b ∷ bs) hs hr =
      Gives->>= (λ p. AreBytes p.0.value × AreBytes p.1) P (Entries.parse (b ∷ bs)) _
        (parse-Reads (b ∷ bs) hr)
        λ p hp.
          Gives->>= P P (step s p.0) _ (keeps s p.0 hs hp.0)
            λ s' hs'. scan_loop-Gives n s' p.1 hs' hp.1

  pub scan-Gives :
      (s : S) (payload : List ℕ) → P s → AreBytes payload → Gives P (scan step s payload)
  unfolding scan
  scan-Gives s payload hs h = scan_loop-Gives (suc (length payload)) s payload hs h
