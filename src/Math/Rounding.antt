-- ===== src/Math/Rounding.antt =====
-- `round_div` of crates/tactus/src/math.rs: a product divided to the nearest, and back.
use link_wire_rs.Common.{ℕ, zero, suc, ◌+◌, ◌-◌, ◌*◌, ◌/◌, ◌^◌, ◌≤◌, ◌<◌, ◌≡◌, refl, ap, ◌∙◌, arith}
use link_wire_rs.Common.Int.{
  ℤ, pos, negsuc, pos_part, neg_part, sub_ℕ, ◌+ℤ◌, ◌-ℤ◌, ◌*ℤ◌, ◌≤ℤ◌, int_laws, +ℤ_parts,
}
use link_wire_rs.Math.Word.{wrap, wrap-exact, quot}
use link_wire_rs.Math.Grid.{round_div}
use mathlib.Core.Path.{subst}
use native.Mathlib.Nat.{mul_comm, mul-sub, div-eq_of_lt, mod-lt, mod-add-div', le-div_iff_mul-le}

-- Division to the nearest.
abbrev pub nearest : ℕ → ℕ → ℕ
nearest k den = (k + den / 2) / den

pub nearest_bounds :
    (k den : ℕ)
    → 0 < den
    → (2 * (nearest k den * den) ≤ 2 * k + den) × (2 * k ≤ 2 * (nearest k den * den) + den)
nearest_bounds k den h =
    let r = mod-lt (k + den / 2) h in
    let e = mod-add-div' (k + den / 2) den in (omega arith, omega arith)

-- There and back the error is half a unit of either side.
nearest_back :
    (a m n : ℕ)
    → 0 < m
    → 0 < n
    → (2 * (nearest (nearest (a * n) m * m) n * n) ≤ 2 * (a * n) + (m + n))
      × (2 * (a * n) ≤ 2 * (nearest (nearest (a * n) m * m) n * n) + (m + n))
nearest_back a m n hm hn =
    let there = nearest_bounds (a * n) m hm in
    let back = nearest_bounds (nearest (a * n) m * m) n hn in (omega arith, omega arith)

-- What is multiplied by `n` may be compared by the quotient.
quotient_bound :
    (x y m n : ℕ) → 0 < n → 2 * (x * n) ≤ 2 * (y * n) + (m + n) → x ≤ y + (m + n) / (2 * n)
quotient_bound x y m n h l =
    let double : (x - y) * (2 * n) ≡ 2 * ((x - y) * n) = grind arith in
    let split : (x - y) * n ≡ x * n - y * n =
      mul_comm (x - y) n ∙ mul-sub n x y ∙ rw (mul_comm n x, mul_comm n y) in
    let close : (x - y) * (2 * n) ≤ m + n = omega arith in
    let bound = (le-div_iff_mul-le {k = 2 * n} {x = x - y} {y = m + n} (omega arith)).1 close in
    omega arith

pos-add : (n h : ℕ) → pos n +ℤ pos h ≡ pos (n + h)
unfolding ◌+ℤ◌
pos-add n h = ground arith

negsuc-sub : (n h : ℕ) → negsuc n -ℤ pos h ≡ negsuc (n + h)
unfolding ◌-ℤ◌
negsuc-sub n h = ground arith

pub round_div-pos : (n den : ℕ) → round_div (pos n) (pos den) ≡ wrap (pos (nearest n den))
unfolding round_div quot
round_div-pos n den = rw (pos-add n (den / 2)) (ground arith)

round_div-negsuc :
    (n den : ℕ) → round_div (negsuc n) (pos den) ≡ wrap (sub_ℕ 0 (nearest (suc n) den))
unfolding round_div quot
round_div-negsuc n den = rw (negsuc-sub n (den / 2)) (ground arith)

nearest-zero : (den : ℕ) → 0 < den → nearest 0 den ≡ 0
nearest-zero den h = div-eq_of_lt (omega arith)

pub below_zero : (k : ℕ) → sub_ℕ 0 (suc k) ≡ negsuc k
below_zero k = ground arith

-- The same below zero.
pub round_div-neg :
    (k den : ℕ) → 0 < den → round_div (sub_ℕ 0 k) (pos den) ≡ wrap (sub_ℕ 0 (nearest k den))
round_div-neg zero den h = round_div-pos 0 den ∙ rw (nearest-zero den h) refl
round_div-neg (suc k) den h =
    ap (λ z. round_div z (pos den)) (below_zero k) ∙ round_div-negsuc k den

pub pos-mul : (k n : ℕ) → pos k *ℤ pos n ≡ pos (k * n)
unfolding ◌*ℤ◌
pos-mul k n = ground arith

pub neg-mul : (k n : ℕ) → sub_ℕ 0 k *ℤ pos n ≡ sub_ℕ 0 (k * n)
unfolding ◌*ℤ◌
neg-mul zero n = ground arith
neg-mul (suc k) n = ground arith

-- Off by no more than `k`.
abbrev pub Within : ℕ → ℤ → ℤ → Type 0
Within k x y = (x ≤ℤ y +ℤ pos k) × (y ≤ℤ x +ℤ pos k)

-- Where the two roundings of `a` wrap around nowhere.
abbrev pub HasRoom : ℕ → ℕ → ℕ → Type 0
HasRoom a m n = (nearest (a * n) m < 2 ^ 62) × (nearest (nearest (a * n) m * m) n < 2 ^ 62)

back_pos :
    (a m n : ℕ)
    → HasRoom a m n
    → round_div (round_div (pos a *ℤ pos n) (pos m) *ℤ pos m) (pos n)
      ≡ pos (nearest (nearest (a * n) m * m) n)
back_pos a m n (h, k) =
    rw
      (
        pos-mul a n,
        round_div-pos (a * n) m,
        wrap-exact (pos (nearest (a * n) m)) (omega arith),
        pos-mul (nearest (a * n) m) m,
        round_div-pos (nearest (a * n) m * m) n,
      )
      (wrap-exact _ (omega arith))

back_neg :
    (a m n : ℕ)
    → 0 < m
    → 0 < n
    → HasRoom a m n
    → round_div (round_div (sub_ℕ 0 a *ℤ pos n) (pos m) *ℤ pos m) (pos n)
      ≡ sub_ℕ 0 (nearest (nearest (a * n) m * m) n)
back_neg a m n hm hn (h, k) =
    rw
      (
        neg-mul a n,
        round_div-neg (a * n) m hm,
        wrap-exact (sub_ℕ 0 (nearest (a * n) m)) (ground arith),
        neg-mul (nearest (a * n) m) m,
        round_div-neg (nearest (a * n) m * m) n hn,
      )
      (wrap-exact _ (ground arith))

abbrev pub magnitude : ℤ → ℕ
magnitude (pos n) = n
magnitude (negsuc n) = suc n

Within-pos : (k x y : ℕ) → (x ≤ y + k) × (y ≤ x + k) → Within k (pos x) (pos y)
Within-pos k x y h = omega int_laws

pub neg_parts : (x : ℕ) → (pos_part (sub_ℕ 0 x) ≡ 0) × (neg_part (sub_ℕ 0 x) ≡ x)
neg_parts x = ground arith

Within-neg : (k x y : ℕ) → (x ≤ y + k) × (y ≤ x + k) → Within k (sub_ℕ 0 x) (sub_ℕ 0 y)
Within-neg k x y h =
    let px = neg_parts x in
    let py = neg_parts y in
    omega (arith, +ℤ_parts (sub_ℕ 0 x) (pos k), +ℤ_parts (sub_ℕ 0 y) (pos k))

close_by :
    (a m n : ℕ)
    → 0 < m
    → 0 < n
    → (nearest (nearest (a * n) m * m) n ≤ a + (m + n) / (2 * n))
      × (a ≤ nearest (nearest (a * n) m * m) n + (m + n) / (2 * n))
close_by a m n hm hn =
    let (above, below) = nearest_back a m n hm hn in
    (quotient_bound _ a m n hn above, quotient_bound a _ m n hn below)

abbrev pub there_and_back : ℕ → ℕ → ℤ → ℤ
there_and_back m n a = round_div (round_div (a *ℤ pos n) (pos m) *ℤ pos m) (pos n)

-- Both roundings of a number, and the number.
pub there_and_back-Within :
    (a : ℤ) (m n : ℕ)
    → 0 < m
    → 0 < n
    → HasRoom (magnitude a) m n
    → Within ((m + n) / (2 * n)) (there_and_back m n a) a
there_and_back-Within (pos a) m n hm hn r =
    rw (back_pos a m n r) (Within-pos ((m + n) / (2 * n)) _ a (close_by a m n hm hn))
there_and_back-Within (negsuc a) m n hm hn r =
    subst (λ z. Within ((m + n) / (2 * n)) (there_and_back m n z) z) (below_zero a)
      (rw (back_neg (suc a) m n hm hn r)
        (Within-neg ((m + n) / (2 * n)) _ (suc a) (close_by (suc a) m n hm hn)))

-- A product rounded back is in range.
pub half_way :
    (a : ℤ) (m n : ℕ)
    → 0 < m
    → 0 < n
    → HasRoom (magnitude a) m n
    → (pos_part (round_div (a *ℤ pos n) (pos m)) < 2 ^ 62)
      × (neg_part (round_div (a *ℤ pos n) (pos m)) < 2 ^ 62)
half_way (pos a) m n hm hn (h, k) =
    rw (pos-mul a n, round_div-pos (a * n) m, wrap-exact (pos (nearest (a * n) m)) (omega arith))
      (omega arith)
half_way (negsuc a) m n hm hn (h, k) = rw (← below_zero a) (
    rw
      (
        neg-mul (suc a) n,
        round_div-neg (suc a * n) m hm,
        wrap-exact (sub_ℕ 0 (nearest (suc a * n) m)) (ground arith),
      )
      (let parts = neg_parts (nearest (suc a * n) m) in omega arith))
