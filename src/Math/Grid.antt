-- ===== src/Math/Grid.antt =====
-- The functions of crates/tactus/src/math.rs on integers. Beats are micro-beats, times are microseconds, both
-- `i64`; the products are exact, being `i128` in the source.
use link_wire_rs.Common.{if◌then◌else◌}
use link_wire_rs.Common.Int.{ℤ, pos, pos_part, ◌+ℤ◌, ◌-ℤ◌, ◌*ℤ◌, leb_ℤ, ltb_ℤ}
use link_wire_rs.Types.Timeline.{Timeline}
use link_wire_rs.Math.Word.{wrap, ◌+w◌, ◌-w◌, quot, rem_euclid}

abbrev pub tempo_min_micros_per_beat : ℤ
tempo_min_micros_per_beat = pos 60060

abbrev pub tempo_max_micros_per_beat : ℤ
tempo_max_micros_per_beat = pos 3000000

unfoldable pub round_div : ℤ → ℤ → ℤ
round_div num den = wrap (
    if leb_ℤ (pos 0) num
    then quot (num +ℤ quot den (pos 2)) den
    else quot (num -ℤ quot den (pos 2)) den)

unfoldable pub phase : ℤ → ℤ → ℤ
phase b q = if leb_ℤ q (pos 0) then pos 0 else pos (rem_euclid b (pos_part q))

unfoldable pub align_up : ℤ → ℤ → ℤ → ℤ
align_up x t q =
    if leb_ℤ q (pos 0) then x else x +w pos (rem_euclid (phase t q -w phase x q) (pos_part q))

unfoldable pub align_near : ℤ → ℤ → ℤ → ℤ
align_near x t q = if leb_ℤ q (pos 0) then x else align_up (x -w quot q (pos 2)) t q

unfoldable pub clamp_tempo : ℤ → ℤ
clamp_tempo micros_per_beat =
    if ltb_ℤ micros_per_beat tempo_min_micros_per_beat
    then tempo_min_micros_per_beat
    else if ltb_ℤ tempo_max_micros_per_beat micros_per_beat
    then tempo_max_micros_per_beat
    else micros_per_beat

unfoldable pub beats_at_ghost : Timeline → ℤ → ℤ
beats_at_ghost tl ghost =
    tl.beat_origin +w round_div ((ghost -w tl.time_origin) *ℤ pos 1000000) tl.tempo

unfoldable pub ghost_at_beats : Timeline → ℤ → ℤ
ghost_at_beats tl beats =
    tl.time_origin +w round_div ((beats -w tl.beat_origin) *ℤ tl.tempo) (pos 1000000)

unfoldable pub app_beat_at_ghost : Timeline → ℤ → ℤ → ℤ
app_beat_at_ghost tl ghost q =
    let b = beats_at_ghost tl ghost in align_near b (b -w tl.beat_origin) q

unfoldable pub ghost_at_app_beat : Timeline → ℤ → ℤ → ℤ
ghost_at_app_beat tl b q =
    let r = b -w tl.beat_origin in
    let cycle = r -w phase r q in
    let delta = align_near (q -w phase r q) (q -w phase b q) q in
    if leb_ℤ q (pos 0)
    then ghost_at_beats tl b
    else ghost_at_beats tl (tl.beat_origin +w cycle +w q -w delta)

unfoldable pub session_offset : Timeline → ℤ → ℤ
session_offset tl q =
    let b0 = beats_at_ghost tl tl.time_origin in align_near b0 (b0 -w tl.beat_origin) q
