-- ===== src/Math/Align.antt =====
-- The beat grid of crates/tactus/src/math.rs: phases are remainders, and alignment finds the nearest beats of
-- a given phase.
use link_wire_rs.Common.{
  ℕ, suc, ◌+◌, ◌-◌, ◌*◌, ◌/◌, ◌%◌, ◌^◌, ◌<◌, ◌≡◌, sym, ap, ◌∙◌, inl, inr, Bool-cases, false, arith,
}
use link_wire_rs.Common.Bytes.{InI64}
use link_wire_rs.Common.Int.{
  ℤ, pos, negsuc, pos_part, neg_part, ◌+ℤ◌, ◌-ℤ◌, ◌≤ℤ◌, ◌<ℤ◌, leb_ℤ, +ℤ_parts, -ℤ_parts,
}
use native.Mathlib.Nat.{mod-lt, mod-add-div', mod-eq_of_lt, add-mul-mod_self_right}
use link_wire_rs.Math.Word.{quot, rem_euclid, add-exact, sub-exact}
use link_wire_rs.Math.Grid.{phase, align_up, align_near}

-- Equal up to multiples of `q`.
abbrev pub Congruent : ℕ → ℤ → ℤ → Type 0
Congruent q x y =
    (m : ℕ) × (n : ℕ) × (pos_part x + neg_part y + m * q ≡ pos_part y + neg_part x + n * q)

pub rem_euclid-lt : (z : ℤ) (q : ℕ) → 0 < q → rem_euclid z q < q
unfolding rem_euclid
rem_euclid-lt (pos n) q h = mod-lt n h
rem_euclid-lt (negsuc n) q h = omega (arith, mod-lt n h)

pub rem_euclid-Congruent : (z : ℤ) (q : ℕ) → 0 < q → Congruent q z (pos (rem_euclid z q))
unfolding rem_euclid
rem_euclid-Congruent (pos n) q h = (0, n / q, omega (arith, mod-add-div' n q))
rem_euclid-Congruent (negsuc n) q h = (suc (n / q), 0, omega (arith, mod-add-div' n q, mod-lt n h))

Congruent-trans : (q : ℕ) (x y z : ℤ) → Congruent q x y → Congruent q y z → Congruent q x z
Congruent-trans q x y z (m, n, e) (m', n', e') = (m + m', n + n', omega arith)

Congruent-sym : (q : ℕ) (x y : ℤ) → Congruent q x y → Congruent q y x
Congruent-sym q x y (m, n, e) = (n, m, omega arith)

-- A remainder is the only number below `q` in its class.
remainder_unique : (q r s : ℕ) → r < q → s < q → Congruent q (pos r) (pos s) → r ≡ s
remainder_unique q r s hr hs (m, n, e) =
    sym (mod-eq_of_lt hr)
    ∙ sym (add-mul-mod_self_right r m q)
    ∙ ap (λ k. k % q) (omega (arith, e))
    ∙ add-mul-mod_self_right s n q
    ∙ mod-eq_of_lt hs

rem_euclid_of_Congruent :
    (q : ℕ) (x y : ℤ) → 0 < q → Congruent q x y → rem_euclid x q ≡ rem_euclid y q
rem_euclid_of_Congruent q x y h c =
    remainder_unique q (rem_euclid x q) (rem_euclid y q) (rem_euclid-lt x q h) (rem_euclid-lt y q h)
      (Congruent-trans q (pos (rem_euclid x q)) x (pos (rem_euclid y q))
        (Congruent-sym q x (pos (rem_euclid x q)) (rem_euclid-Congruent x q h))
        (Congruent-trans q x y (pos (rem_euclid y q)) c (rem_euclid-Congruent y q h)))

pub same_rem-Congruent :
    (q : ℕ) (x y : ℤ) → 0 < q → rem_euclid x q ≡ rem_euclid y q → Congruent q x y
same_rem-Congruent q x y h e =
    Congruent-trans q x (pos (rem_euclid y q)) y (rw e at (rem_euclid-Congruent x q h))
      (Congruent-sym q y (pos (rem_euclid y q)) (rem_euclid-Congruent y q h))

pub positive : (q : ℕ) → 0 < q → leb_ℤ (pos q) (pos 0) ≡ false
positive q h = ground arith

pub phase_lem : (b : ℤ) (q : ℕ) → 0 < q → phase b (pos q) ≡ pos (rem_euclid b q)
unfolding phase
phase_lem b q h = rw (positive q h)

sub_range : (a b : ℕ) → a < 2 ^ 63 → b < 2 ^ 63 → InI64 (pos a -ℤ pos b)
unfolding ◌-ℤ◌
sub_range a b h k = ground arith

add_range : (x : ℤ) (d q : ℕ) → d < q → InI64 x → InI64 (x +ℤ pos q) → InI64 (x +ℤ pos d)
unfolding ◌+ℤ◌
add_range x d q h k l = ground arith

-- How far ahead the next beat with the phase of `t` is.
shift : ℤ → ℤ → ℕ → ℕ
shift x t q = rem_euclid (pos (rem_euclid t q) -ℤ pos (rem_euclid x q)) q

shift-lt : (x t : ℤ) (q : ℕ) → 0 < q → shift x t q < q
unfolding shift
shift-lt x t q h = rem_euclid-lt _ q h

align_up-shift :
    (x t : ℤ) (q : ℕ)
    → 0 < q
    → q < 2 ^ 63
    → InI64 x
    → InI64 (x +ℤ pos q)
    → align_up x t (pos q) ≡ x +ℤ pos (shift x t q)
unfolding align_up shift
align_up-shift x t q h small hx hq = rw (
  positive q h,
  phase_lem t q h,
  phase_lem x q h,
  sub-exact _ _ (
      sub_range (rem_euclid t q) (rem_euclid x q) (omega (arith, rem_euclid-lt t q h))
        (omega (arith, rem_euclid-lt x q h))),
  add-exact x (pos (shift x t q)) (add_range x (shift x t q) q (shift-lt x t q h) hx hq),
)

shift-Congruent : (x t : ℤ) (q : ℕ) → 0 < q → Congruent q (x +ℤ pos (shift x t q)) t
unfolding shift
shift-Congruent x t q h =
    let (m1, n1, e1) = rem_euclid-Congruent t q h in
    let (m2, n2, e2) = rem_euclid-Congruent x q h in
    let (m3, n3, e3) = rem_euclid-Congruent (pos (rem_euclid t q) -ℤ pos (rem_euclid x q)) q h in
    (
      n3 + n1 + m2,
      m3 + m1 + n2,
      omega (
        arith,
        +ℤ_parts x (pos (shift x t q)),
        -ℤ_parts (pos (rem_euclid t q)) (pos (rem_euclid x q)),
      ),
    )

pub phases_eq :
    (x y : ℤ) (q : ℕ) → 0 < q → phase x (pos q) ≡ phase y (pos q) → rem_euclid x q ≡ rem_euclid y q
phases_eq x y q h e = ap pos_part (sym (phase_lem x q h) ∙ e ∙ phase_lem y q h)

align_near_up :
    (x t : ℤ) (q : ℕ)
    → 0 < q
    → InI64 (x -ℤ pos (q / 2))
    → align_near x t (pos q) ≡ align_up (x -ℤ pos (q / 2)) t (pos q)
unfolding align_near quot
align_near_up x t q h hx = rw (positive q h, sub-exact x (pos (q / 2)) hx)

phase_of_Congruent : (x y : ℤ) (q : ℕ) → 0 < q → Congruent q x y → phase x (pos q) ≡ phase y (pos q)
phase_of_Congruent x y q h c =
    rw (phase_lem x q h, phase_lem y q h, rem_euclid_of_Congruent q x y h c)

-- For a positive quantum `align_up` gives a value that is not below `x`, is less than a quantum
-- above it, and has the phase of `t`, where `x` plus a quantum fits an `i64`.
align_up_lem :
    (x t : ℤ) (q : ℕ)
    → 0 < q
    → q < 2 ^ 63
    → InI64 x
    → InI64 (x +ℤ pos q)
    → (x ≤ℤ align_up x t (pos q))
      × (align_up x t (pos q) <ℤ x +ℤ pos q)
      × (phase (align_up x t (pos q)) (pos q) ≡ phase t (pos q))
align_up_lem x t q h small hx hq = rw (align_up-shift x t q h small hx hq) (
  omega (arith, +ℤ_parts x (pos (shift x t q))),
  omega (arith, +ℤ_parts x (pos (shift x t q)), +ℤ_parts x (pos q), shift-lt x t q h),
  phase_of_Congruent (x +ℤ pos (shift x t q)) t q h (shift-Congruent x t q h),
)

-- No number of a class lies strictly between two of it that are less than a quantum apart.
pub class_gap : (q : ℕ) (a y : ℤ) → Congruent q a y → a <ℤ y +ℤ pos q → y <ℤ a → ⊥
class_gap q a y (m, n, e) near below =
    let gap = pos_part a + neg_part y - (pos_part y + neg_part a) in
    let none_left : gap ≡ 0 =
      remainder_unique q gap 0 (omega (arith, +ℤ_parts y (pos q)))
        (omega (arith, +ℤ_parts y (pos q))) (m, n, omega arith) in
    omega arith

align_up_minimal :
    (x t : ℤ) (q : ℕ) (y : ℤ)
    → 0 < q
    → q < 2 ^ 63
    → InI64 x
    → InI64 (x +ℤ pos q)
    → x ≤ℤ y
    → phase y (pos q) ≡ phase t (pos q)
    → align_up x t (pos q) ≤ℤ y
align_up_minimal x t q y h small hx hq from_x same =
    elim (Bool-cases (leb_ℤ (align_up x t (pos q)) y)) [
      | inl ok ↦ ground arith
      | inr beyond ↦ absurd (
          class_gap q (align_up x t (pos q)) y
            (same_rem-Congruent q (align_up x t (pos q)) y h (
              phases_eq (align_up x t (pos q)) y q h
                ((align_up_lem x t q h small hx hq).2 ∙ sym same)))
            (omega
              (arith, (align_up_lem x t q h small hx hq).1, +ℤ_parts y (pos q), +ℤ_parts x (pos q)))
            (ground arith))
    ]

-- For a positive quantum `align_up` gives the least value from `x` on with the phase of `t`: it is not
-- below `x`, has that phase, and is not above any other `y` of the kind, where `x` plus a quantum fits
-- an `i64`.
pub align_up_least :
    (x t : ℤ) (q : ℕ) (y : ℤ)
    → 0 < q
    → q < 2 ^ 63
    → InI64 x
    → InI64 (x +ℤ pos q)
    → x ≤ℤ y
    → phase y (pos q) ≡ phase t (pos q)
    → (x ≤ℤ align_up x t (pos q))
      × (phase (align_up x t (pos q)) (pos q) ≡ phase t (pos q))
      × (align_up x t (pos q) ≤ℤ y)
align_up_least x t q y h small hx hq from_x same =
    let up = align_up_lem x t q h small hx hq in
    (up.0, up.2, align_up_minimal x t q y h small hx hq from_x same)

-- For a positive quantum `align_near` gives a value with the phase of `t` that lies at most half
-- a quantum below `x` and less than the other half above it, where `x` less half a quantum, and a
-- quantum more, fit an `i64`.
pub align_near_lem :
    (x t : ℤ) (q : ℕ)
    → 0 < q
    → q < 2 ^ 63
    → InI64 (x -ℤ pos (q / 2))
    → InI64 (x -ℤ pos (q / 2) +ℤ pos q)
    → (x ≤ℤ align_near x t (pos q) +ℤ pos (q / 2))
      × (align_near x t (pos q) +ℤ pos (q / 2) <ℤ x +ℤ pos q)
      × (phase (align_near x t (pos q)) (pos q) ≡ phase t (pos q))
align_near_lem x t q h small hx hq =
    let up = align_up_lem (x -ℤ pos (q / 2)) t q h small hx hq in
    let a = align_up (x -ℤ pos (q / 2)) t (pos q) in
    rw (align_near_up x t q h hx) (
      omega (arith, up.0, -ℤ_parts x (pos (q / 2)), +ℤ_parts a (pos (q / 2))),
      omega (
        arith,
        up.1,
        -ℤ_parts x (pos (q / 2)),
        +ℤ_parts a (pos (q / 2)),
        +ℤ_parts (x -ℤ pos (q / 2)) (pos q),
        +ℤ_parts x (pos q),
      ),
      up.2,
    )
