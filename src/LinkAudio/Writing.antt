-- ===== src/LinkAudio/Writing.antt =====
-- `write_sink` of crates/tactus/src/audio.rs returns, and keeps its sinks in a state that it can go on from.
use link_wire_rs.Common.{
  ℕ, ◌+◌, ◌*◌, ◌/◌, ◌^◌, ◌≤◌, ◌<◌, ◌≡◌, refl, sym, ◌∙◌, List, [], ◌∷◌, ◌++◌, length, max, Option,
  none, some, Bool, true, false, Bool-cases, Option-cases, inl, inr, if-intro, of_some, arith, All,
  All-append,
}
use link_wire_rs.Common.Bytes.{InI64, InSigned, half_16}
use link_wire_rs.Common.Int.{ℤ, pos, ◌*ℤ◌, leb_ℤ, ltb_ℤ, eqb_ℤ}
use link_wire_rs.Common.Maps.{retain, retain-none}
use link_wire_rs.Math.Word.{◌+w◌, ◌-w◌}
use link_wire_rs.Math.Grid.{round_div}
use link_wire_rs.Engine.Election.{abs}
use link_wire_rs.Types.Id.{LinkId}
use link_wire_rs.AudioWire.Message.{AudioBuffer}
use link_wire_rs.LinkAudio.State.{Segment, Sink}
use link_wire_rs.LinkAudio.Drain.{frames_to_micro_beats, sizing, Stream}
use link_wire_rs.LinkAudio.Frames.{IsSegment}
use link_wire_rs.LinkAudio.Buffers.{IsStream}
use link_wire_rs.LinkAudio.Draining.{IsSink}
use link_wire_rs.LinkAudio.Stream.{HasRoom, drain_datagrams-Drained}
use link_wire_rs.LinkAudio.Write.{
  Material, last, contiguous, extend_last, segment_of, append_material, is_format, change_format,
  expire_requesters, drain_requested, feed,
}

-- What the types of the arguments say, a channel at least, and no division by 0.
pub record IsMaterial (m : Material) : Type 0 where
  pub samples : All (InSigned half_16) m.samples
  pub sample_rate : m.sample_rate < 2 ^ 32
  pub some_channel : 1 ≤ m.num_channels
  pub num_channels : m.num_channels < 2 ^ 8
  pub begin_wire : InI64 m.begin_wire
  pub tempo : InI64 m.tempo
  pub timed : eqb_ℤ (pos m.sample_rate *ℤ m.tempo) (pos 0) ≡ false

-- What is pending has the rate of the sink's format.
pub record IsReady (sink : Sink) : Type 0 where
  pub next_seq : sink.next_seq < 2 ^ 64
  pub segments :
      (rate channels : ℕ) → sink.format ≡ some (rate, channels) → All (IsSegment rate) sink.segments

segment_of-IsSegment : (m : Material) → IsMaterial m → IsSegment m.sample_rate (segment_of m)
segment_of-IsSegment m h = record {
  begin = h.begin_wire;
  tempo = h.tempo;
  timed = h.timed;
  samples = h.samples;
}

extend-IsSegment :
    (rate : ℕ) (xs : List ℤ) (seg : Segment)
    → All (InSigned half_16) xs
    → IsSegment rate seg
    → IsSegment rate (record seg { samples = seg.samples ++ xs })
extend-IsSegment rate xs seg h s = record {
  begin = s.begin;
  tempo = s.tempo;
  timed = s.timed;
  samples = All-append (InSigned half_16) seg.samples xs s.samples h;
}

extend_last-IsSegment :
    (rate : ℕ) (xs : List ℤ) (segs : List Segment)
    → All (InSigned half_16) xs
    → All (IsSegment rate) segs
    → All (IsSegment rate) (extend_last xs segs)
unfolding extend_last
extend_last-IsSegment rate xs [] h s = tt
extend_last-IsSegment rate xs (seg ∷ []) h (s, k) = (extend-IsSegment rate xs seg h s, k)
extend_last-IsSegment rate xs (seg ∷ seg' ∷ segs) h (s, k) =
    (s, extend_last-IsSegment rate xs (seg' ∷ segs) h k)

-- Whether material is contiguous can be told, without a panic.
contiguous-total :
    (m : Material) (segs : List Segment) → IsMaterial m → (c : Bool) × (contiguous m segs ≡ some c)
unfolding contiguous frames_to_micro_beats
contiguous-total m segs h = elim (Option-cases (last segs)) [
  | inl none_pending ↦ (false, rw (contiguous, none_pending) refl)
  | inr (seg, e) ↦ elim (Bool-cases (eqb_ℤ seg.tempo m.tempo)) [
    | inl same ↦ (
      leb_ℤ
          (abs (
            seg.begin
            +w round_div (pos (length seg.samples / max m.num_channels 1) *ℤ pos 1000000000000)
                (pos m.sample_rate *ℤ m.tempo)
            -w m.begin_wire))
          (pos 1),
      rw (contiguous, e, same, h.timed) refl,
    )
    | inr other ↦ (false, rw (contiguous, e, other) refl)
  ]
]

append_material-total :
    (m : Material) (segs : List Segment)
    → IsMaterial m
    → All (IsSegment m.sample_rate) segs
    → (segs' : List Segment) × (append_material m segs ≡ some segs')
      × All (IsSegment m.sample_rate) segs'
unfolding append_material
append_material-total m segs h s =
    let (c, e) = contiguous-total m segs h in
    (
      _,
      rw e refl,
      if-intro (All (IsSegment m.sample_rate)) c _ _
          (λ x. extend_last-IsSegment m.sample_rate m.samples segs h.samples s)
          (λ x.
            All-append (IsSegment m.sample_rate) segs (segment_of m ∷ []) s
              (segment_of-IsSegment m h, tt)),
    )

-- A sink whose format is that of the material.
record IsFed (m : Material) (sink : Sink) : Type 0 where
  next_seq : sink.next_seq < 2 ^ 64
  format : sink.format ≡ some (m.sample_rate, m.num_channels)
  segments : All (IsSegment m.sample_rate) sink.segments

is_format-eq :
    (rate channels : ℕ) (f : Option (ℕ × ℕ))
    → is_format rate channels f ≡ true
    → f ≡ some (rate, channels)
is_format-eq rate channels none h = absurd (ground arith)
is_format-eq rate channels (some (r, c)) h =
    let e : r ≡ rate = ground arith in let e' : c ≡ channels = ground arith in cc

change_format-IsFed : (m : Material) (sink : Sink) → IsReady sink → IsFed m (change_format m sink)
unfolding change_format
change_format-IsFed m sink h =
    if-intro (IsFed m) (is_format m.sample_rate m.num_channels sink.format) _ _
      (λ e.
        let f = is_format-eq m.sample_rate m.num_channels sink.format e in
        record {
          next_seq = h.next_seq;
          format = f;
          segments = h.segments m.sample_rate m.num_channels f;
        })
      (λ e. record { next_seq = h.next_seq; format = refl; segments = tt })

IsFed-IsReady : (m : Material) (sink : Sink) → IsFed m sink → IsReady sink
IsFed-IsReady m sink h = record {
  next_seq = h.next_seq;
  segments = λ rate channels e.
      of_some (λ f. All (IsSegment f.0) sink.segments) (m.sample_rate, m.num_channels)
        (rate, channels) (sym h.format ∙ e) h.segments;
}

-- Where the channels leave room for a frame, `feed` returns, and the sink stays ready.
abbrev Fed : Material → Option (List AudioBuffer × Sink) → Type 0
Fed m o = (bufs : List AudioBuffer) × (sink' : Sink) × (o ≡ some (bufs, sink')) × IsFed m sink'

drain_requested-Fed :
    (str : Stream) (fill : Bool) (m : Material) (rs : List (LinkId × ℤ)) (sink : Sink)
    → IsStream str
    → HasRoom str fill
    → str.sample_rate ≡ m.sample_rate
    → IsFed m sink
    → Fed m (drain_requested str fill rs sink)
drain_requested-Fed str fill m [] sink i r e h =
    ([], _, refl, record { next_seq = h.next_seq; format = h.format; segments = tt })
drain_requested-Fed str fill m (x ∷ xs) sink i r e h =
    let state : IsSink str.sample_rate sink = record {
      next_seq = h.next_seq;
      segments = rw e h.segments;
    } in
    let (bufs, sink', made, d) =
      drain_datagrams-Drained str fill sink (record { stream = i; room = r; state = state }) in
    (
      bufs,
      sink',
      made,
      record {
        next_seq = d.valid.next_seq;
        format = d.format ∙ h.format;
        segments = rw⁻¹ e d.valid.segments;
      },
    )

abbrev stream_of : LinkId → LinkId → Material → Stream
stream_of channel session m = record {
  channel = channel;
  session = session;
  sample_rate = m.sample_rate;
  num_channels = m.num_channels;
}

stream_of-IsStream :
    (channel session : LinkId) (m : Material)
    → length channel ≡ 8
    → length session ≡ 8
    → IsMaterial m
    → IsStream (stream_of channel session m)
stream_of-IsStream channel session m c s h = record {
  channel = c;
  session = s;
  sample_rate = h.sample_rate;
  some_channel = h.some_channel;
  num_channels = h.num_channels;
}

-- Writing to a ready sink returns: valid material, of a frame size that the sizing has room for, leaves no panic
-- and no endless loop, and the sink is ready for the next write.
pub feed-IsReady :
    (at : ℤ) (channel session : LinkId) (fill : Bool) (m : Material) (sink : Sink)
    → length channel ≡ 8
    → length session ≡ 8
    → IsMaterial m
    → (sizing fill).record_cost + 2 * m.num_channels ≤ (sizing fill).budget
    → IsReady sink
    → (bufs : List AudioBuffer) × (sink' : Sink) × (feed at channel session fill m sink
        ≡ some (bufs, sink'))
      × IsReady sink'
unfolding feed expire_requesters
feed-IsReady at channel session fill m sink c s h r k =
    let fed = change_format-IsFed m sink k in
    let (segs, e, ok) = append_material-total m (change_format m sink).segments h fed.segments in
    let live : Sink = expire_requesters at (record (change_format m sink) { segments = segs }) in
    let (bufs, sink', made, f) =
      drain_requested-Fed (stream_of channel session m) fill m live.requesters live
        (stream_of-IsStream channel session m c s h) (omega arith) refl
        (record { next_seq = fed.next_seq; format = fed.format; segments = ok }) in
    (bufs, sink', rw e made, IsFed-IsReady m sink' f)

requesters-change_format :
    (m : Material) (sink : Sink) → (change_format m sink).requesters ≡ sink.requesters
unfolding change_format
requesters-change_format m sink =
    if-intro (λ (s : Sink). s.requesters ≡ sink.requesters)
      (is_format m.sample_rate m.num_channels sink.format) _ _ (λ e. refl) (λ e. refl)

-- Where no request is unexpired, nothing is sent and nothing stays pending.
pub feed-unrequested :
    (at : ℤ) (channel session : LinkId) (fill : Bool) (m : Material) (sink : Sink)
    → IsMaterial m
    → IsReady sink
    → All (λ x. ltb_ℤ at x.1 ≡ false) sink.requesters
    → (sink' : Sink) × (feed at channel session fill m sink ≡ some ([], sink'))
      × (sink'.segments ≡ [])
      × (sink'.requesters ≡ [])
unfolding feed expire_requesters
feed-unrequested at channel session fill m sink h k r =
    let fed = change_format-IsFed m sink k in
    let (segs, e, ok) = append_material-total m (change_format m sink).segments h fed.segments in
    let gone : retain (λ x. ltb_ℤ at x.1) (change_format m sink).requesters ≡ [] =
      rw (requesters-change_format m sink) (retain-none (λ x. ltb_ℤ at x.1) sink.requesters r) in
    (
      record (change_format m sink) { requesters = []; segments = [] },
      rw (e, gone) refl,
      refl,
      refl,
    )
