-- ===== src/Math/Float.antt =====
-- What crates/tactus/src/math.rs and crates/tactus/src/lib.rs compute with doubles. The arithmetic of `f64` is an
-- argument: the operations that are called, of which nothing is assumed.
use link_wire_rs.Common.{Bool, if◌then◌else◌, List, Option, ℕ, arith}
use link_wire_rs.Common.Int.{ℤ, pos, ◌≤ℤ◌}
use link_wire_rs.Math.Grid.{clamp_tempo, tempo_min_micros_per_beat, tempo_max_micros_per_beat}

-- `of` is `as f64`, `parse` is `str::parse` on the code points of a text, `to_i64` is `as i64`, which takes the
-- nearest in range, and 0 for what is not a number.
pub record Float : Type 1 where
  pub Double : Type 0
  pub of : ℤ → Double
  pub to_i64 : Double → ℤ
  pub add : Double → Double → Double
  pub sub : Double → Double → Double
  pub mul : Double → Double → Double
  pub div : Double → Double → Double
  pub rem_euclid : Double → Double → Double
  pub sqrt : Double → Double
  pub round : Double → Double
  pub le : Double → Double → Bool
  pub lt : Double → Double → Bool
  pub parse : List ℕ → Option Double

module _ (F : Float) where
  open F use {Double, of, to_i64, add, sub, mul, div, rem_euclid, sqrt, round, le, lt}

  -- `f64::clamp` of the standard library, which leaves what is not a number.
  unfoldable pub clamp : Double → Double → Double → Double
  clamp x lo hi = if lt x lo then lo else if lt hi x then hi else x

  unfoldable pub bpm_to_tempo : Double → ℤ
  bpm_to_tempo bpm =
      clamp_tempo
        (to_i64 (round (div (of (pos 60000000)) (clamp bpm (of (pos 20)) (of (pos 999))))))

  unfoldable pub tempo_to_bpm : ℤ → Double
  tempo_to_bpm micros_per_beat = div (of (pos 60000000)) (of micros_per_beat)

  unfoldable pub quantum_micro_beats : Double → ℤ
  quantum_micro_beats quantum =
      if le quantum (of (pos 0)) then pos 0 else to_i64 (round (mul quantum (of (pos 1000000))))

  -- `(beat * 1e6).round() as i64`
  unfoldable pub micro_beats : Double → ℤ
  micro_beats beat = to_i64 (round (mul beat (of (pos 1000000))))

  -- `as f64 / 1e6`
  unfoldable pub beats : ℤ → Double
  beats micro_beats = div (of micro_beats) (of (pos 1000000))

-- A tempo between 999 and 20 beats a minute, as a period.
abbrev pub IsClamped : ℤ → Type 0
IsClamped t = (tempo_min_micros_per_beat ≤ℤ t) × (t ≤ℤ tempo_max_micros_per_beat)

pub clamp_tempo-IsClamped : (t : ℤ) → IsClamped (clamp_tempo t)
unfolding clamp_tempo
clamp_tempo-IsClamped t = ground arith

-- Whatever the arithmetic makes of the number of beats a minute.
pub bpm_to_tempo-IsClamped : (F : Float) (bpm : F.Double) → IsClamped (bpm_to_tempo F bpm)
unfolding bpm_to_tempo
bpm_to_tempo-IsClamped F bpm = clamp_tempo-IsClamped _
