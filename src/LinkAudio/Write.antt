-- ===== src/LinkAudio/Write.antt =====
-- `write_sink` of crates/tactus/src/audio.rs. The beat of the first frame is given in micro-beats, after the
-- rounding of the application's double. What panics in the source is `none` here.
use link_wire_rs.Common.{
  ℕ, ◌/◌, List, [], ◌∷◌, ◌++◌, length, max, Option, none, some, Bool, false, ◌&&◌, ◌==◌,
  if◌then◌else◌,
}
use link_wire_rs.Common.Int.{ℤ, pos, leb_ℤ, ltb_ℤ, eqb_ℤ}
use link_wire_rs.Common.Maps.{retain, find_map}
use link_wire_rs.Types.Id
use link_wire_rs.Types.Id.{LinkId}
use link_wire_rs.Math.Word.{◌+w◌, ◌-w◌}
use link_wire_rs.Math.Grid.{session_offset}
use link_wire_rs.AudioWire.Message.{AudioBuffer, audio_buffer, new_frame}
use link_wire_rs.AudioWire.Encode.{encode}
use link_wire_rs.LinkAudio.State.{AudioState, PathStats, Segment, Sink}
use link_wire_rs.LinkAudio.Inbound.{update_sink}
use link_wire_rs.LinkAudio.Drain.{frames_to_micro_beats, Stream, drain_datagrams}
use link_wire_rs.LinkAudio.Paths.{best_path, send_each}
use link_wire_rs.Engine.State.{State, Env, now}
use link_wire_rs.Engine.Election.{abs}

-- The arguments of a call, and the sender's clock and grid.
pub record Material : Type 0 where
  pub samples : List ℤ
  pub sample_rate : ℕ
  pub num_channels : ℕ
  pub begin_wire : ℤ
  pub tempo : ℤ

abbrev pub last : List Segment → Option Segment
last [] = none
last (seg ∷ segs) = elim (last segs) [ none ↦ some seg | some l ↦ some l ]

abbrev pub is_near : ℤ → ℤ → Option ℤ → Option Bool
is_near begin begin_wire none = none
is_near begin begin_wire (some d) = some (leb_ℤ (abs (begin +w d -w begin_wire)) (pos 1))

-- Whether the material starts where the last segment ends, at its tempo.
unfoldable pub contiguous : Material → List Segment → Option Bool
contiguous m segs = elim (last segs) [
  | none ↦ some false
  | some seg ↦
      if eqb_ℤ seg.tempo m.tempo
      then is_near seg.begin m.begin_wire
          (frames_to_micro_beats (length seg.samples / max m.num_channels 1) m.sample_rate m.tempo)
      else some false
]

-- `back_mut().unwrap().samples.extend(samples)`
unfoldable pub extend_last : List ℤ → List Segment → List Segment
extend_last xs [] = []
extend_last xs (seg ∷ []) = record seg { samples = seg.samples ++ xs } ∷ []
extend_last xs (seg ∷ seg' ∷ segs) = seg ∷ extend_last xs (seg' ∷ segs)

abbrev pub segment_of : Material → Segment
segment_of m = record { begin = m.begin_wire; tempo = m.tempo; samples = m.samples }

abbrev pub append_if : Material → List Segment → Option Bool → Option (List Segment)
append_if m segs none = none
append_if m segs (some c) =
    some (if c then extend_last m.samples segs else segs ++ (segment_of m ∷ []))

unfoldable pub append_material : Material → List Segment → Option (List Segment)
append_material m segs = append_if m segs (contiguous m segs)

abbrev pub is_format : ℕ → ℕ → Option (ℕ × ℕ) → Bool
is_format rate channels none = false
is_format rate channels (some f) = f.0 == rate && f.1 == channels

-- A format change drops what is pending.
unfoldable pub change_format : Material → Sink → Sink
change_format m sink =
    if is_format m.sample_rate m.num_channels sink.format
    then sink
    else record sink { segments = []; format = some (m.sample_rate, m.num_channels) }

unfoldable pub expire_requesters : ℤ → Sink → Sink
expire_requesters at sink = record sink { requesters = retain (λ r. ltb_ℤ at r.1) sink.requesters }

-- Without requesters what is pending is dropped.
abbrev pub drain_requested :
    Stream → Bool → List (LinkId × ℤ) → Sink → Option (List AudioBuffer × Sink)
drain_requested str fill [] sink = some ([], record sink { segments = [] })
drain_requested str fill (r ∷ rs) sink = drain_datagrams str fill sink

abbrev pub drain_appended :
    ℤ → Stream → Bool → Sink → Option (List Segment) → Option (List AudioBuffer × Sink)
drain_appended at str fill sink none = none
drain_appended at str fill sink (some segs) =
    let live = expire_requesters at (record sink { segments = segs }) in
    drain_requested str fill live.requesters live

-- What becomes of the sink, and the buffers that leave it.
unfoldable pub feed :
    ℤ → LinkId → LinkId → Bool → Material → Sink → Option (List AudioBuffer × Sink)
feed at channel session fill m sink =
    let changed = change_format m sink in
    let str : Stream = record {
      channel = channel;
      session = session;
      sample_rate = m.sample_rate;
      num_channels = m.num_channels;
    } in
    drain_appended at str fill changed (append_material m changed.segments)

abbrev pub encode_buffers : LinkId → List AudioBuffer → List (List ℕ)
encode_buffers node [] = []
encode_buffers node (b ∷ bs) = encode (new_frame node (audio_buffer b)) ∷ encode_buffers node bs

-- The loop over the requesters, each of which gets a copy over its best path.
unfoldable pub send_copies :
    (List ℤ → ℤ)
    → List ((LinkId × ℕ) × PathStats)
    → List (LinkId × ℤ)
    → List (List ℕ)
    → State
    → State
send_copies rank paths [] datagrams st = st
send_copies rank paths (r ∷ rs) datagrams st = elim (best_path rank st.peers paths r.0) [
  | none ↦ send_copies rank paths rs datagrams st
  | some p ↦ send_copies rank paths rs datagrams (send_each p datagrams st)
]

abbrev pub find_sink : LinkId → List Sink → Option Sink
find_sink channel sinks = find_map (λ s. if Id.eqb s.id channel then some s else none) sinks

abbrev pub finish_write :
    (List ℤ → ℤ) → AudioState → LinkId → Option (List AudioBuffer × Sink) → State → Option State
finish_write rank a channel none st = none
finish_write rank a channel (some (bufs, sink)) st = some (
    send_copies rank a.paths sink.requesters (encode_buffers st.node bufs)
      (record st { audio = some (record a { sinks = update_sink channel (λ s. sink) a.sinks }) }))

unfoldable pub write_sink :
    (List ℤ → ℤ) → Env → Bool → LinkId → List ℤ → ℕ → ℕ → ℤ → ℤ → State → Option State
write_sink rank env fill channel samples sample_rate num_channels begin_app quantum st =
    let (at, st1) = now env st in
    let m : Material = record {
      samples = samples;
      sample_rate = sample_rate;
      num_channels = num_channels;
      begin_wire = begin_app -w session_offset st.timeline quantum;
      tempo = st.timeline.tempo;
    } in
    elim st.audio [
      | none ↦ some st1
      | some a ↦ elim (find_sink channel a.sinks) [
        | none ↦ some st1
        | some sink ↦ finish_write rank a channel (feed at channel st.session fill m sink) st1
      ]
    ]
