-- ===== src/Math/AppBeat.antt =====
-- `ghost_at_app_beat` of crates/tactus/src/math.rs converts a beat that is reported as the one it was given.
use link_wire_rs.Common.{ℕ, ◌+◌, ◌/◌, ◌^◌, ◌<◌, ◌≡◌, refl, inl, inr, Bool-cases, arith}
use link_wire_rs.Common.Bytes.{InI64}
use link_wire_rs.Common.Int.{
  ℤ, pos, negsuc, pos_part, neg_part, ◌+ℤ◌, ◌-ℤ◌, ◌≤ℤ◌, ◌<ℤ◌, ltb_ℤ, +ℤ_parts, eq_of_parts,
  int_laws,
}
use link_wire_rs.Types.Timeline.{Timeline}
use link_wire_rs.Math.Word.{◌-w◌, add-exact, sub-exact}
use link_wire_rs.Math.Grid.{phase, align_near, ghost_at_beats, ghost_at_app_beat}
use link_wire_rs.Math.Align.{
  Congruent, phases_eq, same_rem-Congruent, rem_euclid-lt, rem_euclid-Congruent, phase_lem,
  positive, class_gap, align_near_lem,
}
use link_wire_rs.Math.Word.{rem_euclid}
use link_wire_rs.Math.Bijection.{IsModest}

-- Two of a class in the window of the alignment are one.
same_in_window :
    (q : ℕ) (x a b : ℤ)
    → Congruent q a b
    → x ≤ℤ a +ℤ pos (q / 2)
    → a +ℤ pos (q / 2) <ℤ x +ℤ pos q
    → x ≤ℤ b +ℤ pos (q / 2)
    → b +ℤ pos (q / 2) <ℤ x +ℤ pos q
    → a ≡ b
same_in_window q x a b (m, n, e) la ua lb ub =
    let not_above : b <ℤ a → ⊥ = λ lt. class_gap q a b (m, n, e) (omega int_laws) lt in
    let not_below : a <ℤ b → ⊥ = λ lt. class_gap q b a (n, m, omega arith) (omega int_laws) lt in
    elim (Bool-cases (ltb_ℤ b a)) [
      | inl above ↦ absurd (not_above (ground arith))
      | inr u ↦ elim (Bool-cases (ltb_ℤ a b)) [
        | inl below ↦ absurd (not_below (ground arith))
        | inr l ↦ eq_of_parts a b (ground arith)
      ]
    ]

-- A distance short of 2^60 fits.
abbrev IsShort : ℤ → Type 0
IsShort z = (pos_part z < 2 ^ 60) × (neg_part z < 2 ^ 60)

short-sub : (x y : ℤ) → IsShort x → IsShort y → InI64 (x -ℤ y)
unfolding ◌-ℤ◌
short-sub x y h k = ground arith

short-add : (x y : ℤ) → IsShort x → IsShort y → InI64 (x +ℤ y)
unfolding ◌+ℤ◌
short-add x y h k = ground arith

short-window :
    (x : ℤ) (q : ℕ)
    → IsShort x
    → q < 2 ^ 56
    → InI64 (x -ℤ pos (q / 2)) × InI64 (x -ℤ pos (q / 2) +ℤ pos q)
unfolding ◌+ℤ◌ ◌-ℤ◌
short-window x q h small = ground arith

bounded-IsShort : (z : ℤ) → z <ℤ pos (2 ^ 60) → pos 0 <ℤ z +ℤ pos (2 ^ 60) → IsShort z
bounded-IsShort (pos n) u l = omega int_laws
bounded-IsShort (negsuc n) u l = omega (arith, +ℤ_parts (negsuc n) (pos (2 ^ 60)))

-- The parts of the computation: the phases of `b` and of its distance from the origin, the step back, and the beat
-- that is converted.
abbrev phase_of : ℤ → ℤ → ℕ → ℕ
phase_of b o q = rem_euclid (b -ℤ o) q

abbrev step_back : ℤ → ℤ → ℕ → ℤ
step_back b o q = align_near (pos q -ℤ pos (phase_of b o q)) (pos q -ℤ pos (rem_euclid b q)) (pos q)

abbrev converted : ℤ → ℤ → ℕ → ℤ
converted b o q = o +ℤ ((b -ℤ o) -ℤ pos (phase_of b o q)) +ℤ pos q -ℤ step_back b o q

module _ (b o : ℤ) (q : ℕ) (h : 0 < q) (small : q < 2 ^ 56) (hb : IsModest b)
    (ho : IsModest o) where
  step_back_lem :
      ((pos q -ℤ pos (phase_of b o q)) ≤ℤ step_back b o q +ℤ pos (q / 2))
      × (step_back b o q +ℤ pos (q / 2) <ℤ (pos q -ℤ pos (phase_of b o q)) +ℤ pos q)
      × (phase (step_back b o q) (pos q) ≡ phase (pos q -ℤ pos (rem_euclid b q)) (pos q))
  step_back_lem =
      let lp = rem_euclid-lt (b -ℤ o) q h in
      let start = pos q -ℤ pos (phase_of b o q) in
      let (low, high) =
        short-window start q (bounded-IsShort start (omega int_laws) (omega int_laws)) small in
      align_near_lem start (pos q -ℤ pos (rem_euclid b q)) q h (omega arith) low high

  step_back-IsShort : IsShort (step_back b o q)
  step_back-IsShort =
      let (from, upto, same) = step_back_lem in
      let lp = rem_euclid-lt (b -ℤ o) q h in
      bounded-IsShort (step_back b o q) (omega int_laws) (omega int_laws)

  in_window : (converted b o q ≤ℤ b +ℤ pos (q / 2)) × (b +ℤ pos (q / 2) <ℤ converted b o q +ℤ pos q)
  in_window = let (from, upto, same) = step_back_lem in omega int_laws

  converted-IsShort : IsShort (converted b o q)
  converted-IsShort =
      let (from, upto) = in_window in
      bounded-IsShort (converted b o q) (omega int_laws) (omega int_laws)

  -- The beat has the phase that aligning it needs.
  converted-Congruent : (a : ℤ) → Congruent q a (converted b o q -ℤ o) → Congruent q a b
  converted-Congruent a (m2, n2, e2) =
      let (from, upto, same) = step_back_lem in
      let back = pos q -ℤ pos (rem_euclid b q) in
      let (m1, n1, e1) =
        same_rem-Congruent q (step_back b o q) back h (phases_eq (step_back b o q) back q h same) in
      let (m3, n3, e3) = rem_euclid-Congruent (b -ℤ o) q h in
      let (m4, n4, e4) = rem_euclid-Congruent b q h in
      (n4 + n1 + m3 + m2, m4 + m1 + n3 + n2, omega int_laws)

  reported : align_near (converted b o q) (converted b o q -w o) (pos q) ≡ b
  reported =
      let x = converted b o q in
      let (low, high) = short-window x q converted-IsShort small in
      let (a_from, a_upto, same) = align_near_lem x (x -ℤ o) q h (omega arith) low high in
      let (b_from, b_upto) = in_window in
      let a = align_near x (x -ℤ o) (pos q) in
      rw (sub-exact x o (short-sub x o converted-IsShort (omega arith))) (
        same_in_window q x a b
          (converted-Congruent a
            (same_rem-Congruent q a (x -ℤ o) h (phases_eq a (x -ℤ o) q h same)))
          a_from a_upto b_from b_upto)

-- What `ghost_at_app_beat` computes, and that it is the time of a beat that is reported as the one given: from the
-- application's beats to time and back nothing is lost but the rounding of the bijection. This is for a positive
-- quantum below 2^56, and beats and an origin within it.
pub ghost_at_app_beat_reported :
    (tl : Timeline) (b : ℤ) (q : ℕ)
    → 0 < q
    → q < 2 ^ 56
    → IsModest b
    → IsModest tl.beat_origin
    → (beats : ℤ) × (ghost_at_app_beat tl b (pos q) ≡ ghost_at_beats tl beats)
      × (align_near beats (beats -w tl.beat_origin) (pos q) ≡ b)
unfolding ghost_at_app_beat
ghost_at_app_beat_reported tl b q h small hb ho =
    let o = tl.beat_origin in
    let r = b -ℤ o in
    let p = phase_of b o q in
    let lp = rem_euclid-lt r q h in
    let lpb = rem_euclid-lt b q h in
    let r_short : IsShort r = bounded-IsShort r (omega int_laws) (omega int_laws) in
    let c = r -ℤ pos p in
    let c_short : IsShort c = bounded-IsShort c (omega int_laws) (omega int_laws) in
    let oc_short : IsShort (o +ℤ c) = bounded-IsShort (o +ℤ c) (omega int_laws) (omega int_laws) in
    let ocq_short : IsShort (o +ℤ c +ℤ pos q) =
      bounded-IsShort (o +ℤ c +ℤ pos q) (omega int_laws) (omega int_laws) in
    (
      converted b o q,
      rw
          (
            positive q h,
            sub-exact b o (short-sub b o (omega arith) (omega arith)),
            phase_lem r q h,
            phase_lem b q h,
            sub-exact r (pos p) (short-sub r (pos p) r_short (omega arith)),
            sub-exact (pos q) (pos p) (short-sub (pos q) (pos p) (omega arith) (omega arith)),
            sub-exact (pos q) (pos (rem_euclid b q))
                (short-sub (pos q) (pos (rem_euclid b q)) (omega arith) (omega arith)),
            add-exact o c (short-add o c (omega arith) c_short),
            add-exact (o +ℤ c) (pos q) (short-add (o +ℤ c) (pos q) oc_short (omega arith)),
            sub-exact (o +ℤ c +ℤ pos q) (step_back b o q) (
                short-sub (o +ℤ c +ℤ pos q) (step_back b o q) ocq_short
                  (step_back-IsShort b o q h small hb ho)),
          )
          refl,
      reported b o q h small hb ho,
    )
