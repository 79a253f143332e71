-- ===== src/Common/Bytes.antt =====
-- Big-endian bytes (Rust's `to_be_bytes` and `from_be_bytes` at every width) and the casts between
-- unsigned and signed words of one width.
use Prim.Native.Nat.{ℕ, zero, suc, ◌+◌, ◌-◌, ◌*◌, ◌/◌, ◌%◌, ◌^◌, ◌≤◌, ◌<◌}
use mathlib.Core.Path.{◌≡◌, refl, ap, ◌∙◌}
use mathlib.Core.Logic.{◌↔◌, ◌≢◌, inl, inr}
use mathlib.Core.Bool.{Bool, true, false, ◌&&◌}
use mathlib.Core.List.{List, [], ◌∷◌, ◌++◌}
use native.Mathlib.Omega.{arith}
use native.Mathlib.Nat.{pow-suc, mod-eq_of_lt, mod-lt}
use link_wire_rs.Common.Tests.{ltb, ◌==◌, Bool-cases, if◌then◌else◌}
use link_wire_rs.Common.Lists.{length, length-append, All, All-append}
use link_wire_rs.Common.Int.{ℤ, pos, negsuc, pos_part, neg_part}

abbrev pub IsByte : ℕ → Type 0
IsByte b = b < 256

abbrev pub AreBytes : List ℕ → Type 0
AreBytes bs = All IsByte bs

-- Equality of two byte arrays.
unfoldable pub bytes_eqb : List ℕ → List ℕ → Bool
bytes_eqb [] [] = true
bytes_eqb [] (b ∷ bs) = false
bytes_eqb (a ∷ as') [] = false
bytes_eqb (a ∷ as') (b ∷ bs) = a == b && bytes_eqb as' bs

pub bytes_eqb_iff : (i j : List ℕ) → (bytes_eqb i j ≡ true) ↔ (i ≡ j)
unfolding bytes_eqb
bytes_eqb_iff [] [] = (λ _. refl, λ _. refl)
bytes_eqb_iff [] (b ∷ bs) = (λ e. cc, λ e. cc)
bytes_eqb_iff (a ∷ as') [] = (λ e. cc, λ e. cc)
bytes_eqb_iff (a ∷ as') (b ∷ bs) = ground (arith, bytes_eqb_iff as' bs)

pub bytes_eqb_self : (i : List ℕ) → bytes_eqb i i ≡ true
bytes_eqb_self i = (bytes_eqb_iff i i).1 refl

pub bytes_eqb_ne : (i j : List ℕ) → i ≢ j → bytes_eqb i j ≡ false
bytes_eqb_ne i j ne = elim (Bool-cases (bytes_eqb i j)) [
  | inl e ↦ absurd (ne ((bytes_eqb_iff i j).0 e))
  | inr e ↦ e
]

be_from : ℕ → List ℕ → ℕ
be_from acc [] = acc
be_from acc (b ∷ bs) = be_from (acc * 256 + b) bs

unfoldable pub from_be_bytes : List ℕ → ℕ
unfolding be_from
from_be_bytes bs = be_from 0 bs

-- `fourcc(b"abcd")`: the big-endian number of four ASCII bytes.
abbrev pub fourcc : ℕ → ℕ → ℕ → ℕ → ℕ
fourcc a b c d = ((a * 256 + b) * 256 + c) * 256 + d

-- The low `k` bytes of `v`, the highest first.
unfoldable pub to_be_bytes : ℕ → ℕ → List ℕ
to_be_bytes zero v = []
to_be_bytes (suc k) v = to_be_bytes k (v / 256) ++ (v % 256 ∷ [])

pub length-to_be_bytes : (k v : ℕ) → length (to_be_bytes k v) ≡ k
unfolding to_be_bytes
length-to_be_bytes zero v = refl
length-to_be_bytes (suc k) v =
    omega (
      arith,
      length-append (to_be_bytes k (v / 256)) (v % 256 ∷ []),
      length-to_be_bytes k (v / 256),
    )

pub to_be_bytes-AreBytes : (k v : ℕ) → AreBytes (to_be_bytes k v)
unfolding to_be_bytes
to_be_bytes-AreBytes zero v = tt
to_be_bytes-AreBytes (suc k) v =
    All-append IsByte (to_be_bytes k (v / 256)) (v % 256 ∷ []) (to_be_bytes-AreBytes k (v / 256))
      (omega arith, tt)

be_from-append : (acc : ℕ) (xs ys : List ℕ) → be_from acc (xs ++ ys) ≡ be_from (be_from acc xs) ys
unfolding be_from
be_from-append acc [] ys = refl
be_from-append acc (x ∷ xs) ys = be_from-append (acc * 256 + x) xs ys

pub from-to_be_bytes : (k v : ℕ) → v < 256 ^ k → from_be_bytes (to_be_bytes k v) ≡ v
unfolding from_be_bytes to_be_bytes
from-to_be_bytes zero v h = omega arith
from-to_be_bytes (suc k) v h =
    be_from-append 0 (to_be_bytes k (v / 256)) (v % 256 ∷ [])
    ∙ omega (arith, from-to_be_bytes k (v / 256) (omega (arith, pow-suc 256 k)))

be_from-acc : (acc : ℕ) (bs : List ℕ) → be_from acc bs ≡ acc * 256 ^ length bs + be_from 0 bs
unfolding be_from
be_from-acc acc [] = omega arith
be_from-acc acc (b ∷ bs) = omega (
  arith,
  be_from-acc (acc * 256 + b) bs,
  be_from-acc (0 * 256 + b) bs,
  ap (λ (t : ℕ). acc * t) (pow-suc 256 (length bs)),
)

pub from_be_bytes-cons :
    (b : ℕ) (bs : List ℕ) → from_be_bytes (b ∷ bs) ≡ b * 256 ^ length bs + from_be_bytes bs
unfolding from_be_bytes be_from
from_be_bytes-cons b bs = be_from-acc (0 * 256 + b) bs ∙ omega arith

head_lt : (p b r : ℕ) → b < 256 → r < p → b * p + r < 256 * p
head_lt p b r hb hr = grind arith

pub from_be_bytes-lt : (bs : List ℕ) → AreBytes bs → from_be_bytes bs < 256 ^ length bs
from_be_bytes-lt [] h = unfold from_be_bytes be_from in omega arith
from_be_bytes-lt (b ∷ bs) (hb, h) = omega (
  arith,
  from_be_bytes-cons b bs,
  head_lt (256 ^ length bs) b _ hb (from_be_bytes-lt bs h),
  pow-suc 256 (length bs),
)

to_be_bytes-suc : (k v : ℕ) → to_be_bytes (suc k) v ≡ to_be_bytes k (v / 256) ++ (v % 256 ∷ [])
unfolding to_be_bytes
to_be_bytes-suc k v = refl

-- The part above the lowest byte, and the lowest byte, of a number with the leading digit `b`.
shift_down : (k b r : ℕ) → (b * 256 ^ suc k + r) / 256 ≡ b * 256 ^ k + r / 256
shift_down k b r = omega (arith, ap (λ (t : ℕ). b * t) (pow-suc 256 k))

low_byte : (k b r : ℕ) → (b * 256 ^ suc k + r) % 256 ≡ r % 256
low_byte k b r = omega (arith, ap (λ (t : ℕ). b * t) (pow-suc 256 k))

to_be_bytes-cons :
    (k b r : ℕ)
    → r < 256 ^ k
    → b < 256
    → to_be_bytes (suc k) (b * 256 ^ k + r) ≡ b ∷ to_be_bytes k r
to_be_bytes-cons zero b r h hb = unfold to_be_bytes in ap (λ t. t ∷ []) (omega arith)
to_be_bytes-cons (suc k) b r h hb =
    to_be_bytes-suc (suc k) _
    ∙ rw (shift_down k b r, low_byte k b r)
        (rw (to_be_bytes-cons k b (r / 256) (omega (arith, pow-suc 256 k)) hb, to_be_bytes-suc k r))

-- Writing what was read gives the bytes back.
pub to-from_be_bytes : (bs : List ℕ) → AreBytes bs → to_be_bytes (length bs) (from_be_bytes bs) ≡ bs
to-from_be_bytes [] h = unfold to_be_bytes in refl
to-from_be_bytes (b ∷ bs) (hb, h) = rw (from_be_bytes-cons b bs) (
    to_be_bytes-cons (length bs) b (from_be_bytes bs) (from_be_bytes-lt bs h) hb
    ∙ ap (◌∷◌ b) (to-from_be_bytes bs h))

-- `i64`, `i32` and `i16` have half-moduli 2 ^ 63, 2 ^ 31 and 2 ^ 15. `as iN` of a word of that width.
unfoldable pub as_signed : ℕ → ℕ → ℤ
as_signed half u = if ltb u half then pos u else negsuc (2 * half - u - 1)

-- `as uN` of a signed word.
unfoldable pub as_unsigned : ℕ → ℤ → ℕ
as_unsigned half (pos n) = n % (2 * half)
as_unsigned half (negsuc n) = 2 * half - 1 - n % (2 * half)

abbrev pub InSigned : ℕ → ℤ → Type 0
InSigned half z = (pos_part z < half) × (neg_part z ≤ half)

abbrev pub half_64 : ℕ
half_64 = 2 ^ 63

abbrev pub half_16 : ℕ
half_16 = 2 ^ 15

abbrev pub InI64 : ℤ → Type 0
InI64 z = InSigned half_64 z

pub as_signed-as_unsigned :
    (half : ℕ) (z : ℤ) → InSigned half z → as_signed half (as_unsigned half z) ≡ z
unfolding as_signed as_unsigned
as_signed-as_unsigned half (pos n) h =
    rw (mod-eq_of_lt {n = n} {m = 2 * half} (omega arith)) (ground arith)
as_signed-as_unsigned half (negsuc n) h =
    rw (mod-eq_of_lt {n = n} {m = 2 * half} (omega arith)) (ground arith)

pub as_unsigned-as_signed : (half u : ℕ) → u < 2 * half → as_unsigned half (as_signed half u) ≡ u
unfolding as_signed as_unsigned
as_unsigned-as_signed half u h = elim (Bool-cases (ltb u half)) [
  | inl low ↦ rw (low, as_unsigned) (mod-eq_of_lt h)
  | inr high ↦
      rw (high, as_unsigned)
        (rw (mod-eq_of_lt {n = 2 * half - u - 1} {m = 2 * half} (ground arith)) (ground arith))
]

pub as_unsigned-lt : (half : ℕ) (z : ℤ) → 0 < half → as_unsigned half z < 2 * half
unfolding as_unsigned
as_unsigned-lt half (pos n) h = mod-lt n (omega arith)
as_unsigned-lt half (negsuc n) h = omega arith

pub as_signed-InSigned : (half u : ℕ) → u < 2 * half → InSigned half (as_signed half u)
unfolding as_signed
as_signed-InSigned half u h = ground arith
