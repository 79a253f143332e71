-- ===== src/Math/Bijection.antt =====
-- The timeline bijection of crates/tactus/src/math.rs: `beats_at_ghost` and `ghost_at_beats` undo one another, up
-- to what rounding to whole micro-beats and microseconds loses.
use link_wire_rs.Common.{ℕ, ◌+◌, ◌*◌, ◌/◌, ◌^◌, ◌≤◌, ◌<◌, ◌≡◌, sym, arith}
use link_wire_rs.Common.Bytes.{InI64}
use link_wire_rs.Common.Int.{
  ℤ, pos, negsuc, pos_part, neg_part, ◌+ℤ◌, ◌-ℤ◌, ◌*ℤ◌, int_laws, +ℤ_parts,
}
use link_wire_rs.Types.Timeline.{Timeline}
use link_wire_rs.Math.Word.{◌+w◌, ◌-w◌, add-exact, sub-exact}
use link_wire_rs.Math.Grid.{round_div, beats_at_ghost, ghost_at_beats}
use mathlib.Core.Path.{subst}
use native.Mathlib.Nat.{lt_of_mul-lt-mul_right}
use link_wire_rs.Math.Rounding.{
  nearest, nearest_bounds, HasRoom, magnitude, there_and_back-Within, Within, half_way,
}

-- A time or a number of beats within 2^56.
abbrev pub IsModest : ℤ → Type 0
IsModest z = (pos_part z < 2 ^ 56) × (neg_part z < 2 ^ 56)

pub ghost-HasRoom : (a t : ℕ) → a < 2 ^ 57 → 60060 ≤ t → t ≤ 3000000 → HasRoom a t 1000000
ghost-HasRoom a t h lo hi =
    let (up, down) = nearest_bounds (a * 1000000) t (omega arith) in
    let (up', down') = nearest_bounds (nearest (a * 1000000) t * t) 1000000 (omega arith) in
    let fits : nearest (a * 1000000) t * t < 2 ^ 62 * t = omega arith in
    (lt_of_mul-lt-mul_right t fits, omega arith)

pub modest_sub :
    (x y : ℤ) → IsModest x → IsModest y → (magnitude (x -ℤ y) < 2 ^ 57) × InI64 (x -ℤ y)
unfolding ◌-ℤ◌
modest_sub x y h k = ground arith

pub modest_add :
    (x r : ℤ) → IsModest x → (pos_part r < 2 ^ 62) × (neg_part r < 2 ^ 62) → InI64 (x +ℤ r)
unfolding ◌+ℤ◌
modest_add x r h k = ground arith

pub add-sub_self : (x r : ℤ) → (x +ℤ r) -ℤ x ≡ r
add-sub_self x r = omega int_laws

magnitude_parts : (d : ℤ) → magnitude d < 2 ^ 57 → (pos_part d < 2 ^ 57) × (neg_part d < 2 ^ 57)
magnitude_parts (pos n) h = omega arith
magnitude_parts (negsuc n) h = omega arith

near_range :
    (k : ℕ) (y d : ℤ)
    → k < 2 ^ 60
    → (pos_part d < 2 ^ 57) × (neg_part d < 2 ^ 57)
    → Within k y d
    → (pos_part y < 2 ^ 62) × (neg_part y < 2 ^ 62)
near_range k (pos n) d small hd (l, u) = (omega (arith, +ℤ_parts d (pos k)), omega arith)
near_range k (negsuc n) d small hd (l, u) =
    (omega arith, omega (arith, +ℤ_parts (negsuc n) (pos k)))

shift-Within :
    (k : ℕ) (o y x : ℤ)
    → k < 2 ^ 60
    → IsModest o
    → magnitude (x -ℤ o) < 2 ^ 57
    → Within k y (x -ℤ o)
    → Within k (o +w y) x
shift-Within k o y x small ho hd w =
    let range = near_range k y (x -ℤ o) small (magnitude_parts (x -ℤ o) hd) w in
    rw (add-exact o y (modest_add o y ho range)) (omega int_laws)

across : (o r : ℤ) → IsModest o → (pos_part r < 2 ^ 62) × (neg_part r < 2 ^ 62) → (o +w r) -w o ≡ r
across o r ho hr =
    rw
      (
        add-exact o r (modest_add o r ho hr),
        sub-exact (o +ℤ r) o (rw (add-sub_self o r) (omega arith)),
      )
      (add-sub_self o r)

-- From one origin to the other, and back.
between :
    (m n : ℕ) (o o' x : ℤ)
    → 0 < m
    → 0 < n
    → (m + n) / (2 * n) < 2 ^ 60
    → HasRoom (magnitude (x -ℤ o)) m n
    → IsModest o
    → IsModest o'
    → IsModest x
    → Within
        ((m + n) / (2 * n))
        (o +w round_div (((o' +w round_div ((x -w o) *ℤ pos n) (pos m)) -w o') *ℤ pos m) (pos n))
        x
between m n o o' x hm hn hk r ho ho' hx =
    let (near, fits) = modest_sub x o hx ho in
    rw
      (
        sub-exact x o fits,
        across o' (round_div ((x -ℤ o) *ℤ pos n) (pos m)) ho' (half_way (x -ℤ o) m n hm hn r),
      )
      (shift-Within ((m + n) / (2 * n)) o _ x hk ho near
        (there_and_back-Within (x -ℤ o) m n hm hn r))

module _ (tl : Timeline) (t : ℕ) (tempo : tl.tempo ≡ pos t) (fastest : 60060 ≤ t)
    (slowest : t ≤ 3000000) (beat_origin : IsModest tl.beat_origin)
    (time_origin : IsModest tl.time_origin) where
  -- From a time to its beats and back is off by no more than half a microsecond and half the time of a
  -- micro-beat, rounded down: by nothing at more than 60 beats a minute, and by two microseconds at most,
  -- for tempos within the clamp and times and origins within 2^56.
  pub ghost_at_beats-beats_at_ghost :
      (ghost : ℤ)
      → IsModest ghost
      → Within ((t + 1000000) / (2 * 1000000)) (ghost_at_beats tl (beats_at_ghost tl ghost)) ghost
  unfolding ghost_at_beats beats_at_ghost
  ghost_at_beats-beats_at_ghost ghost h =
      let (near, fits) = modest_sub ghost tl.time_origin h time_origin in
      subst
        (λ T.
          Within ((t + 1000000) / (2 * 1000000))
            (tl.time_origin
              +w round_div
                  (((tl.beat_origin +w round_div ((ghost -w tl.time_origin) *ℤ pos 1000000) T)
                      -w tl.beat_origin)
                    *ℤ T)
                  (pos 1000000))
            ghost)
        (sym tempo)
        (between t 1000000 tl.time_origin tl.beat_origin ghost (omega arith) (omega arith)
          (omega arith) (ghost-HasRoom _ t near fastest slowest) time_origin beat_origin h)
