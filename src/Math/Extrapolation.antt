-- ===== src/Math/Extrapolation.antt =====
-- How the reported beat of crates/tactus/src/math.rs grows with the time.
use link_wire_rs.Common.{ℕ, ◌+◌, ◌*◌, ◌/◌, ◌^◌, suc, ◌≤◌, ◌<◌, ◌≡◌, refl, ap, ◌∙◌, arith}
use link_wire_rs.Common.Bytes.{InI64}
use link_wire_rs.Common.Int.{
  ℤ, pos, negsuc, pos_part, neg_part, sub_ℕ, ◌+ℤ◌, ◌-ℤ◌, ◌*ℤ◌, int_laws, +ℤ_parts, -ℤ_parts,
}
use link_wire_rs.Types.Timeline.{Timeline}
use link_wire_rs.Math.Word.{wrap-exact, ◌+w◌, ◌-w◌, add-exact, sub-exact}
use link_wire_rs.Math.Grid.{round_div, beats_at_ghost, app_beat_at_ghost, session_offset}
use link_wire_rs.Math.Rounding.{
  nearest, nearest_bounds, magnitude, Within, half_way, round_div-pos, round_div-neg, below_zero,
  pos-mul, neg-mul, neg_parts,
}
use link_wire_rs.Math.Bijection.{IsModest, ghost-HasRoom, modest_sub, modest_add, add-sub_self}
use link_wire_rs.Math.SessionBeat.{HasRoom, session_beat}
use mathlib.Core.Path.{subst}
use native.Mathlib.Nat.{add-mul}

mul_parts :
    (x : ℤ) (n : ℕ)
    → (pos_part (x *ℤ pos n) ≡ pos_part x * n) × (neg_part (x *ℤ pos n) ≡ neg_part x * n)
unfolding ◌*ℤ◌
mul_parts (pos a) n = (ground arith, ground arith)
mul_parts (negsuc a) n = (ground arith, ground arith)

-- A rounded quotient is off by no more than half the divisor.
abbrev IsRounded : ℕ → ℕ → ℤ → ℤ → Type 0
IsRounded n t d r =
    (2 * (pos_part r * t) + 2 * (neg_part d * n) ≤ 2 * (pos_part d * n) + 2 * (neg_part r * t) + t)
    × (2 * (pos_part d * n) + 2 * (neg_part r * t)
        ≤ 2 * (pos_part r * t) + 2 * (neg_part d * n) + t)

neg-IsRounded :
    (n t m k : ℕ)
    → (2 * (k * t) ≤ 2 * (m * n) + t) × (2 * (m * n) ≤ 2 * (k * t) + t)
    → IsRounded n t (sub_ℕ 0 m) (sub_ℕ 0 k)
neg-IsRounded n t m k (up, down) =
    let (zk, ek) = neg_parts k in
    let (zm, em) = neg_parts m in rw (zk, ek, zm, em) (omega arith, omega arith)

round_div-IsRounded :
    (d : ℤ) (t n : ℕ)
    → 0 < t
    → nearest (magnitude d * n) t < 2 ^ 62
    → IsRounded n t d (round_div (d *ℤ pos n) (pos t))
round_div-IsRounded (pos a) t n h room =
    rw (pos-mul a n, round_div-pos (a * n) t, wrap-exact (pos (nearest (a * n) t)) (omega arith))
      (let (up, down) = nearest_bounds (a * n) t h in (omega arith, omega arith))
round_div-IsRounded (negsuc a) t n h room =
    subst (λ z. IsRounded n t z (round_div (z *ℤ pos n) (pos t))) (below_zero a)
      (rw
        (
          neg-mul (suc a) n,
          round_div-neg (suc a * n) t h,
          wrap-exact (sub_ℕ 0 (nearest (suc a * n) t)) (ground arith),
        )
        (neg-IsRounded n t (suc a) (nearest (suc a * n) t) (nearest_bounds (suc a * n) t h)))

scale : (a b c d e f n : ℕ) → a + b + c ≡ d + e + f → a * n + b * n + c * n ≡ d * n + e * n + f * n
scale a b c d e f n h =
    let over = ap (λ x. x * n) h in
    omega (arith, add-mul (a + b) c n, add-mul a b n, add-mul (d + e) f n, add-mul d e n)

-- The difference of two, multiplied.
scaled :
    (x y : ℤ) (n : ℕ)
    → pos_part ((x -ℤ y) *ℤ pos n) + neg_part x * n + pos_part y * n
      ≡ neg_part ((x -ℤ y) *ℤ pos n) + pos_part x * n + neg_part y * n
scaled x y n =
    let (ep, en) = mul_parts (x -ℤ y) n in rw (ep, en) (scale _ _ _ _ _ _ n (-ℤ_parts x y))

rounded_apart :
    (n t : ℕ) (d d' r r' : ℤ)
    → IsRounded n t d r
    → IsRounded n t d' r'
    → Within t ((r' -ℤ r) *ℤ pos t) ((d' -ℤ d) *ℤ pos n)
rounded_apart n t d d' r r' (h, k) (h', k') =
    let er = scaled r' r t in
    let ed = scaled d' d n in
    (
      omega (arith, +ℤ_parts ((d' -ℤ d) *ℤ pos n) (pos t)),
      omega (arith, +ℤ_parts ((r' -ℤ r) *ℤ pos t) (pos t)),
    )

half_back :
    (b : ℤ) (k : ℕ)
    → (pos_part b < 2 ^ 62 + 2 ^ 56) × (neg_part b < 2 ^ 62 + 2 ^ 56)
    → k < 2 ^ 61
    → (pos_part (b -ℤ pos k) < 2 ^ 62 + 2 ^ 56) × (neg_part (b -ℤ pos k) < 2 ^ 62 + 2 ^ 61 + 2 ^ 56)
unfolding ◌-ℤ◌
half_back b k h l = ground arith

quantum_on :
    (b : ℤ) (k : ℕ)
    → (pos_part b < 2 ^ 62 + 2 ^ 56) × (neg_part b < 2 ^ 62 + 2 ^ 61 + 2 ^ 56)
    → k < 2 ^ 61
    → InI64 (b +ℤ pos k)
unfolding ◌+ℤ◌
quantum_on b k h l = ground arith

room :
    (b : ℤ) (q : ℕ)
    → (pos_part b < 2 ^ 62 + 2 ^ 56) × (neg_part b < 2 ^ 62 + 2 ^ 56)
    → q < 2 ^ 61
    → HasRoom b q
room b q h l =
    let low = half_back b (q / 2) h (omega arith) in
    (omega arith, quantum_on (b -ℤ pos (q / 2)) q low l)

sum_below :
    (o r : ℤ)
    → IsModest o
    → (pos_part r < 2 ^ 62) × (neg_part r < 2 ^ 62)
    → (pos_part (o +ℤ r) < 2 ^ 62 + 2 ^ 56) × (neg_part (o +ℤ r) < 2 ^ 62 + 2 ^ 56)
unfolding ◌+ℤ◌
sum_below o r h k = ground arith

apart : (a a' s r r' : ℤ) → a -ℤ s ≡ r → a' -ℤ s ≡ r' → a' -ℤ a ≡ r' -ℤ r
apart a a' s r r' e e' = rw (← e, ← e') (omega int_laws)

module _ (tl : Timeline) (t q : ℕ) (tempo : tl.tempo ≡ pos t) (fastest : 60060 ≤ t)
    (slowest : t ≤ 3000000) (some_quantum : 0 < q) (small : q < 2 ^ 61)
    (beat_origin : IsModest tl.beat_origin) (time_origin : IsModest tl.time_origin) where
  -- The beats since the origin, to the nearest.
  abbrev since : ℤ → ℤ
  since ghost = round_div ((ghost -ℤ tl.time_origin) *ℤ pos 1000000) (pos t)

  since-InRange :
      (ghost : ℤ)
      → IsModest ghost
      → (pos_part (since ghost) < 2 ^ 62) × (neg_part (since ghost) < 2 ^ 62)
  since-InRange ghost h =
      let (near, fits) = modest_sub ghost tl.time_origin h time_origin in
      half_way (ghost -ℤ tl.time_origin) t 1000000 (omega arith) (omega arith)
        (ghost-HasRoom _ t near fastest slowest)

  beats_since :
      (ghost : ℤ) → IsModest ghost → beats_at_ghost tl ghost ≡ tl.beat_origin +ℤ since ghost
  unfolding beats_at_ghost
  beats_since ghost h =
      let (near, fits) = modest_sub ghost tl.time_origin h time_origin in
      ap (λ T. tl.beat_origin +w round_div ((ghost -w tl.time_origin) *ℤ pos 1000000) T) tempo
      ∙ ap (λ d. tl.beat_origin +w round_div (d *ℤ pos 1000000) (pos t))
          (sub-exact ghost tl.time_origin fits)
      ∙ add-exact tl.beat_origin (since ghost)
          (modest_add tl.beat_origin (since ghost) beat_origin (since-InRange ghost h))

  reported_since :
      (ghost : ℤ)
      → IsModest ghost
      → app_beat_at_ghost tl ghost (pos q) -ℤ session_offset tl (pos q) ≡ since ghost
  reported_since ghost h =
      let e = beats_since ghost h in
      let range = since-InRange ghost h in
      session_beat tl ghost t q (omega arith) tempo some_quantum (omega arith) (omega arith)
        (rw (e, add-sub_self tl.beat_origin (since ghost)) (omega arith))
        (rw e (
          room (tl.beat_origin +ℤ since ghost) q
            (sum_below tl.beat_origin (since ghost) beat_origin range) small))
        (room tl.beat_origin q (omega arith) small)
      ∙ ap (λ b. b -ℤ tl.beat_origin) e
      ∙ add-sub_self tl.beat_origin (since ghost)

  -- From one time to another the reported beat grows by the time passed over the tempo, to within one micro-beat,
  -- whatever the quantum and wherever the two beats are aligned to: for tempos within the clamp, times and origins within
  -- 2^56 and quanta below 2^61.
  pub app_beat_extrapolates :
      (ghost ghost' : ℤ)
      → IsModest ghost
      → IsModest ghost'
      → Within t
          ((app_beat_at_ghost tl ghost' (pos q) -ℤ app_beat_at_ghost tl ghost (pos q)) *ℤ pos t)
          ((ghost' -ℤ ghost) *ℤ pos 1000000)
  app_beat_extrapolates ghost ghost' h h' =
      let (near, fits) = modest_sub ghost tl.time_origin h time_origin in
      let (near', fits') = modest_sub ghost' tl.time_origin h' time_origin in
      let beats_apart =
        apart _ _ (session_offset tl (pos q)) _ _ (reported_since ghost h)
          (reported_since ghost' h') in
      let times_apart = apart ghost ghost' tl.time_origin _ _ refl refl in
      rw (beats_apart, times_apart)
        (rounded_apart 1000000 t (ghost -ℤ tl.time_origin) (ghost' -ℤ tl.time_origin) (since ghost)
          (since ghost')
          (round_div-IsRounded (ghost -ℤ tl.time_origin) t 1000000 (omega arith)
            (ghost-HasRoom _ t near fastest slowest).0)
          (round_div-IsRounded (ghost' -ℤ tl.time_origin) t 1000000 (omega arith)
            (ghost-HasRoom _ t near' fastest slowest).0))
