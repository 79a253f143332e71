-- ===== src/Types/StartStop.antt =====
-- `StartStopState` of crates/tactus-wire/src/types.rs.
use link_wire_rs.Common.{Bool, false}
use link_wire_rs.Common.Bytes.{InI64}
use link_wire_rs.Common.Int.{ℤ, pos}
use link_wire_rs.Codec.Error.{Result, ok, ◌>>=◌}
use link_wire_rs.Codec.Reader
use link_wire_rs.Codec.Reader.{Reader}
use link_wire_rs.Codec.Writer
use link_wire_rs.Codec.Writer.{Writer, ◌▸◌}

pub record StartStopState : Type 0 where
  pub is_playing : Bool
  pub beats : ℤ
  pub timestamp : ℤ

-- What the field types say.
pub record IsStartStopState (s : StartStopState) : Type 0 where
  pub beats : InI64 s.beats
  pub timestamp : InI64 s.timestamp

-- The derived `Default`.
abbrev pub default : StartStopState
default = record { is_playing = false; beats = pos 0; timestamp = pos 0 }

unfoldable pub read : Reader → Result (StartStopState × Reader)
read r = do
  (is_playing, r1) ← Reader.bool r
  (beats, r2) ← Reader.i64 r1
  (timestamp, r3) ← Reader.i64 r2
  ok (record { is_playing = is_playing; beats = beats; timestamp = timestamp }, r3)

unfoldable pub write : StartStopState → Writer → Writer
write s w = w ▸ Writer.bool s.is_playing ▸ Writer.i64 s.beats ▸ Writer.i64 s.timestamp
