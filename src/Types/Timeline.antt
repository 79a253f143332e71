-- ===== src/Types/Timeline.antt =====
-- `Timeline` of crates/tactus-wire/src/types.rs.
use link_wire_rs.Common.Bytes.{InI64}
use link_wire_rs.Common.Int.{ℤ}
use link_wire_rs.Codec.Error.{Result, ok, ◌>>=◌}
use link_wire_rs.Codec.Reader
use link_wire_rs.Codec.Reader.{Reader}
use link_wire_rs.Codec.Writer
use link_wire_rs.Codec.Writer.{Writer, ◌▸◌}

pub record Timeline : Type 0 where
  pub tempo : ℤ
  pub beat_origin : ℤ
  pub time_origin : ℤ

-- What the field types say.
pub record IsTimeline (tl : Timeline) : Type 0 where
  pub tempo : InI64 tl.tempo
  pub beat_origin : InI64 tl.beat_origin
  pub time_origin : InI64 tl.time_origin

unfoldable pub read : Reader → Result (Timeline × Reader)
read r = do
  (tempo, r1) ← Reader.i64 r
  (beat_origin, r2) ← Reader.i64 r1
  (time_origin, r3) ← Reader.i64 r2
  ok (record { tempo = tempo; beat_origin = beat_origin; time_origin = time_origin }, r3)

unfoldable pub write : Timeline → Writer → Writer
write tl w = w ▸ Writer.i64 tl.tempo ▸ Writer.i64 tl.beat_origin ▸ Writer.i64 tl.time_origin
