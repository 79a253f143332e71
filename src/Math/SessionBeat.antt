-- ===== src/Math/SessionBeat.antt =====
-- The session beat of crates/tactus/src/math.rs: the reported beat less the session offset.
use link_wire_rs.Common.{ℕ, ◌+◌, ◌/◌, ◌^◌, ◌<◌, ◌≡◌, refl, ap, ◌∙◌, inl, inr, Bool-cases, arith}
use link_wire_rs.Common.Bytes.{InI64}
use link_wire_rs.Common.Int.{
  ℤ, pos, pos_part, neg_part, ◌+ℤ◌, ◌-ℤ◌, ◌*ℤ◌, ◌<ℤ◌, ltb_ℤ, +ℤ_parts, -ℤ_parts, eq_of_parts,
}
use native.Mathlib.Nat.{div-eq_of_lt}
use link_wire_rs.Types.Timeline.{Timeline}
use link_wire_rs.Math.Word.{wrap-exact, ◌+w◌, ◌-w◌, quot, add-exact, sub-exact}
use link_wire_rs.Math.Grid.{
  round_div, align_near, beats_at_ghost, app_beat_at_ghost, session_offset,
}
use link_wire_rs.Math.Align.{Congruent, phases_eq, same_rem-Congruent, class_gap, align_near_lem}

-- Room for the alignment of a beat.
abbrev pub HasRoom : ℤ → ℕ → Type 0
HasRoom b q = InI64 (b -ℤ pos (q / 2)) × InI64 (b -ℤ pos (q / 2) +ℤ pos q)

sub_self : (o : ℤ) → o -ℤ o ≡ pos 0
sub_self o = eq_of_parts (o -ℤ o) (pos 0) (omega (arith, -ℤ_parts o o))

add_zero : (o : ℤ) → o +ℤ pos 0 ≡ o
add_zero o = eq_of_parts (o +ℤ pos 0) o (omega (arith, +ℤ_parts o (pos 0)))

zero-InI64 : InI64 (pos 0)
zero-InI64 = omega arith

self-zero : (o : ℤ) → o -w o ≡ pos 0
self-zero o = sub-exact o o (rw (sub_self o) zero-InI64) ∙ sub_self o

zero_add : (z : ℤ) → pos 0 +ℤ z ≡ z
zero_add z = eq_of_parts (pos 0 +ℤ z) z (omega (arith, +ℤ_parts (pos 0) z))

-- No time is no beats.
round_div-zero : (t : ℕ) → 0 < t → round_div (pos 0) (pos t) ≡ pos 0
unfolding round_div quot
round_div-zero t h =
    rw (zero_add (pos (t / 2)), div-eq_of_lt {n = t / 2} {m = t} (omega arith))
      (wrap-exact (pos 0) zero-InI64)

no_time : pos 0 *ℤ pos 1000000 ≡ pos 0
unfolding ◌*ℤ◌
no_time = refl

beats_at_origin :
    (tl : Timeline) (t : ℕ)
    → 0 < t
    → tl.tempo ≡ pos t
    → InI64 tl.beat_origin
    → beats_at_ghost tl tl.time_origin ≡ tl.beat_origin
unfolding beats_at_ghost
beats_at_origin tl t h e k =
    ap (λ d. tl.beat_origin +w d)
      (ap (λ p. round_div (p *ℤ pos 1000000) tl.tempo) (self-zero tl.time_origin)
        ∙ ap (λ p. round_div p tl.tempo) no_time
        ∙ ap (λ d. round_div (pos 0) d) e
        ∙ round_div-zero t h)
    ∙ add-exact tl.beat_origin (pos 0) (rw (add_zero tl.beat_origin) k)
    ∙ add_zero tl.beat_origin

between :
    (y d : ℤ) → (y <ℤ d → ⊥) → (d <ℤ y → ⊥) → pos_part y + neg_part d ≡ pos_part d + neg_part y
between y d h k = elim (Bool-cases (ltb_ℤ y d)) [
  | inl below ↦ absurd (h (ground arith))
  | inr b ↦ elim (Bool-cases (ltb_ℤ d y)) [
    | inl above ↦ absurd (k (ground arith))
    | inr a ↦ ground arith
  ]
]

-- Two beats aligned to phases as far apart as they are themselves end up as far apart.
align_near_pair :
    (b o : ℤ) (q : ℕ)
    → 0 < q
    → q < 2 ^ 63
    → HasRoom b q
    → HasRoom o q
    → align_near b (b -ℤ o) (pos q) -ℤ align_near o (pos 0) (pos q) ≡ b -ℤ o
align_near_pair b o q h small (b1, b2) (o1, o2) =
    let a = align_near b (b -ℤ o) (pos q) in
    let d = align_near o (pos 0) (pos q) in
    let (a_from, a_to, a_phase) = align_near_lem b (b -ℤ o) q h small b1 b2 in
    let (d_from, d_to, d_phase) = align_near_lem o (pos 0) q h small o1 o2 in
    let (m, n, e) = same_rem-Congruent q a (b -ℤ o) h (phases_eq a (b -ℤ o) q h a_phase) in
    let (m', n', e') = same_rem-Congruent q d (pos 0) h (phases_eq d (pos 0) q h d_phase) in
    let y = a -ℤ (b -ℤ o) in
    let same_class : Congruent q y d = (m + n', n + m', omega (arith, -ℤ_parts a (b -ℤ o))) in
    let not_above : y <ℤ d → ⊥ = λ lt.
      class_gap q d y (n + m', m + n', omega (arith, -ℤ_parts a (b -ℤ o)))
        (omega (
          arith,
          -ℤ_parts a (b -ℤ o),
          -ℤ_parts b o,
          +ℤ_parts y (pos q),
          +ℤ_parts a (pos (q / 2)),
          +ℤ_parts d (pos (q / 2)),
          +ℤ_parts b (pos q),
          +ℤ_parts o (pos q),
        ))
        lt in
    let not_below : d <ℤ y → ⊥ = λ lt.
      class_gap q y d same_class
        (omega (
          arith,
          -ℤ_parts a (b -ℤ o),
          -ℤ_parts b o,
          +ℤ_parts d (pos q),
          +ℤ_parts a (pos (q / 2)),
          +ℤ_parts d (pos (q / 2)),
          +ℤ_parts b (pos q),
          +ℤ_parts o (pos q),
        ))
        lt in
    eq_of_parts (a -ℤ d) (b -ℤ o)
      (omega (arith, between y d not_above not_below, -ℤ_parts a d, -ℤ_parts a (b -ℤ o)))

-- For every positive tempo and quantum the reported beat less the session offset is the number of
-- beats since the timeline's origin, where that number fits an `i64` and the two alignments have
-- room.
pub session_beat :
    (tl : Timeline) (ghost : ℤ) (t q : ℕ)
    → 0 < t
    → tl.tempo ≡ pos t
    → 0 < q
    → q < 2 ^ 63
    → InI64 tl.beat_origin
    → InI64 (beats_at_ghost tl ghost -ℤ tl.beat_origin)
    → HasRoom (beats_at_ghost tl ghost) q
    → HasRoom tl.beat_origin q
    → app_beat_at_ghost tl ghost (pos q) -ℤ session_offset tl (pos q)
      ≡ beats_at_ghost tl ghost -ℤ tl.beat_origin
unfolding app_beat_at_ghost session_offset
session_beat tl ghost t q ht e hq small ho hr rb ro =
    rw
      (
        beats_at_origin tl t ht e ho,
        self-zero tl.beat_origin,
        sub-exact (beats_at_ghost tl ghost) tl.beat_origin hr,
      )
      (align_near_pair (beats_at_ghost tl ghost) tl.beat_origin q hq small rb ro)
