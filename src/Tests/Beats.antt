-- ===== src/Tests/Beats.antt =====
-- The theorems of the beat grid at concrete beats and times.
use link_wire_rs.Common.{◌≡◌, ◌/◌, ◌+◌, ◌*◌, arith, refl}
use link_wire_rs.Common.Int.{ℤ, pos, negsuc, ◌-ℤ◌, ◌*ℤ◌}
use link_wire_rs.Types.Timeline.{Timeline}
use link_wire_rs.Math.Word.{◌-w◌}
use link_wire_rs.Math.Grid.{
  align_near, beats_at_ghost, ghost_at_beats, ghost_at_app_beat, app_beat_at_ghost,
}
use link_wire_rs.Math.Rounding.{Within}
use link_wire_rs.Math.Bijection.{ghost_at_beats-beats_at_ghost}
use link_wire_rs.Math.Extrapolation.{app_beat_extrapolates}
use link_wire_rs.Math.AppBeat.{ghost_at_app_beat_reported}

-- 128 beats a minute.
abbrev dance : Timeline
dance = record { tempo = pos 468750; beat_origin = pos 1000000; time_origin = pos 77 }

ghost_at_beats-beats_at_ghost_example :
    Within
      ((468750 + 1000000) / (2 * 1000000))
      (ghost_at_beats dance (beats_at_ghost dance (negsuc 123456)))
      (negsuc 123456)
ghost_at_beats-beats_at_ghost_example =
    ghost_at_beats-beats_at_ghost dance 468750 refl (omega arith) (omega arith) (omega arith)
      (omega arith) (negsuc 123456) (omega arith)

ghost_at_app_beat_reported_example :
    (beats : ℤ) × (ghost_at_app_beat dance (negsuc 2500000) (pos 4000000)
      ≡ ghost_at_beats dance beats)
    × (align_near beats (beats -w pos 1000000) (pos 4000000) ≡ negsuc 2500000)
ghost_at_app_beat_reported_example =
    ghost_at_app_beat_reported dance (negsuc 2500000) 4000000 (omega arith) (omega arith)
      (omega arith) (omega arith)

app_beat_extrapolates_example :
    Within 468750
      ((app_beat_at_ghost dance (pos 7000000) (pos 4000000)
          -ℤ app_beat_at_ghost dance (negsuc 5) (pos 4000000))
        *ℤ pos 468750)
      ((pos 7000000 -ℤ negsuc 5) *ℤ pos 1000000)
app_beat_extrapolates_example =
    app_beat_extrapolates dance 468750 4000000 refl (omega arith) (omega arith) (omega arith)
      (omega arith) (omega arith) (omega arith) (negsuc 5) (pos 7000000) (omega arith) (omega arith)
