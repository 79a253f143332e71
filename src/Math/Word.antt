-- ===== src/Math/Word.antt =====
-- The arithmetic of an `i64` in a release build: the exact result, wrapped around.
use link_wire_rs.Common.{ℕ, suc, ◌-◌, ◌%◌, ◌/◌, ◌≡◌}
use link_wire_rs.Common.Bytes.{as_signed, as_unsigned, half_64, InI64, as_signed-as_unsigned}
use link_wire_rs.Common.Int.{ℤ, pos, negsuc, sub_ℕ, ◌+ℤ◌, ◌-ℤ◌}

unfoldable pub wrap : ℤ → ℤ
wrap z = as_signed half_64 (as_unsigned half_64 z)

infixl 65 ◌+w◌ ◌-w◌
unfoldable pub ◌+w◌ : ℤ → ℤ → ℤ
a +w b = wrap (a +ℤ b)

unfoldable pub ◌-w◌ : ℤ → ℤ → ℤ
a -w b = wrap (a -ℤ b)

-- `/`, which rounds toward zero. The divisor is not 0.
unfoldable pub quot : ℤ → ℤ → ℤ
quot (pos a) (pos b) = pos (a / b)
quot (pos a) (negsuc b) = sub_ℕ 0 (a / suc b)
quot (negsuc a) (pos b) = sub_ℕ 0 (suc a / b)
quot (negsuc a) (negsuc b) = pos (suc a / suc b)

-- `rem_euclid` by a positive number.
unfoldable pub rem_euclid : ℤ → ℕ → ℕ
rem_euclid (pos n) q = n % q
rem_euclid (negsuc n) q = q - 1 - n % q

-- Inside the range nothing wraps.
pub wrap-exact : (z : ℤ) → InI64 z → wrap z ≡ z
unfolding wrap
wrap-exact z h = as_signed-as_unsigned half_64 z h

pub add-exact : (a b : ℤ) → InI64 (a +ℤ b) → a +w b ≡ a +ℤ b
unfolding ◌+w◌
add-exact a b h = wrap-exact (a +ℤ b) h

pub sub-exact : (a b : ℤ) → InI64 (a -ℤ b) → a -w b ≡ a -ℤ b
unfolding ◌-w◌
sub-exact a b h = wrap-exact (a -ℤ b) h
