-- ===== src/LinkAudio/Drain.antt =====
-- `drain_datagrams` of crates/tactus/src/audio.rs: full datagrams are planned, packed from the pending
-- segments, and taken from them. What panics in the source is `none` here.
use link_wire_rs.Common.{
  ℕ, zero, suc, ◌+◌, ◌-◌, ◌*◌, ◌/◌, ◌%◌, ◌^◌, List, [], ◌∷◌, ◌++◌, length, take, drop, Option, none,
  some, Bool, true, false, not, ◌&&◌, ◌||◌, ltb, leb, ◌==◌, if◌then◌else◌, min, max,
}
use link_wire_rs.Common.Int.{ℤ, pos, ◌*ℤ◌, eqb_ℤ}
use link_wire_rs.Types.Id.{LinkId}
use link_wire_rs.Math.Word.{◌+w◌}
use link_wire_rs.Math.Grid.{round_div}
use link_wire_rs.AudioWire.Message.{
  AudioBuffer, Chunk, codec_pcm_i16, max_payload, audio_fixed_overhead, chunk_record_size,
  v1_max_chunk_frames, sample_byte_cap,
}
use link_wire_rs.AudioWire.Samples.{encode_samples}
use link_wire_rs.LinkAudio.State.{Segment, Sink}

-- The division panics where the divisor is 0.
unfoldable pub frames_to_micro_beats : ℕ → ℕ → ℤ → Option ℤ
frames_to_micro_beats frames rate tempo =
    if eqb_ℤ (pos rate *ℤ tempo) (pos 0)
    then none
    else some (round_div (pos frames *ℤ pos 1000000000000) (pos rate *ℤ tempo))

-- What the planner spends in a datagram, what a chunk costs besides its samples, and its most frames.
pub record Sizing : Type 0 where
  pub budget : ℕ
  pub record_cost : ℕ
  pub chunk_cap : ℕ

unfoldable pub sizing : Bool → Sizing
sizing true = record {
  budget = max_payload - audio_fixed_overhead;
  record_cost = chunk_record_size;
  chunk_cap = v1_max_chunk_frames;
}
sizing false = record { budget = sample_byte_cap; record_cost = 0; chunk_cap = 2 ^ 64 - 1 }

abbrev pub is_short : Sizing → ℕ → ℕ → Bool
is_short s frame_bytes left = ltb left (s.record_cost + frame_bytes)

abbrev pub next_take : Sizing → ℕ → ℕ → ℕ → ℕ
next_take s frame_bytes left seg_frames =
    min (min seg_frames s.chunk_cap) ((left - s.record_cost) / frame_bytes)

-- `takes`, `left` and `exhausted`.
pub record Plan : Type 0 where
  pub takes : List ℕ
  pub left : ℕ
  pub exhausted : Bool

-- The loop over a segment, on fuel: as much as it has frames is enough.
unfoldable pub plan_segment : Sizing → ℕ → ℕ → ℕ → ℕ → Plan
plan_segment s fb zero seg_frames left = record { takes = []; left = left; exhausted = false }
plan_segment s fb (suc n) seg_frames left =
    let t = next_take s fb left seg_frames in
    let rest = plan_segment s fb n (seg_frames - t) (left - (s.record_cost + t * fb)) in
    if seg_frames == 0
    then record { takes = []; left = left; exhausted = false }
    else if is_short s fb left
    then record { takes = []; left = left; exhausted = true }
    else record rest { takes = t ∷ rest.takes }

-- The frames of each segment, `seg.samples.len() / ch`.
abbrev pub frame_counts : ℕ → List Segment → List ℕ
frame_counts ch [] = []
frame_counts ch (seg ∷ segs) = (length seg.samples / ch) ∷ frame_counts ch segs

-- The loop over the segments.
unfoldable pub plan : Sizing → ℕ → List ℕ → ℕ → Plan
plan s fb [] left = record { takes = []; left = left; exhausted = false }
plan s fb (n ∷ ns) left =
    let here = plan_segment s fb n n left in
    let rest = plan s fb ns here.left in
    if here.exhausted then here else record rest { takes = here.takes ++ rest.takes }

-- The loop that drops segments of less than a frame.
unfoldable pub drop_residue : ℕ → List Segment → List Segment
drop_residue ch [] = []
drop_residue ch (seg ∷ segs) =
    let rest = drop_residue ch segs in if ltb (length seg.samples) ch then rest else seg ∷ segs

abbrev pub move_begin : ℕ → Segment → Option ℤ → Option Segment
move_begin n seg none = none
move_begin n seg (some d) =
    some (record seg { samples = drop n seg.samples; begin = seg.begin +w d })

-- `seg.samples.drain(..take * ch)`, which panics out of range, and the move of its begin.
unfoldable pub advance : ℕ → ℕ → ℕ → Segment → Option Segment
advance ch rate t seg =
    if leb (t * ch) (length seg.samples)
    then move_begin (t * ch) seg (frames_to_micro_beats t rate seg.tempo)
    else none

unfoldable pub pop_empty : Segment → List Segment → List Segment
pop_empty seg segs = if length seg.samples == 0 then segs else seg ∷ segs

-- The chunks and samples of a datagram, and what is left of the sink.
pub record Packed : Type 0 where
  pub chunks : List Chunk
  pub samples : List ℤ
  pub next_seq : ℕ
  pub segments : List Segment

abbrev pub chunk_of : ℕ → ℕ → Segment → Chunk
chunk_of seq t seg = record {
  seq = seq;
  num_frames = t % 2 ^ 16;
  begin_beats = seg.begin;
  tempo = seg.tempo;
}

abbrev pub add_chunk : Chunk → List ℤ → Option Packed → Option Packed
add_chunk c xs none = none
add_chunk c xs (some p) = some (record p { chunks = c ∷ p.chunks; samples = xs ++ p.samples })

-- The loop over the plan.
unfoldable pub consume : ℕ → ℕ → List ℕ → ℕ → List Segment → Option Packed
consume ch rate [] seq segs =
    some (record { chunks = []; samples = []; next_seq = seq; segments = segs })
consume ch rate (t ∷ ts) seq segs = elim (drop_residue ch segs) [
  | [] ↦ none
  | seg ∷ rest ↦ elim (advance ch rate t seg) [
    | none ↦ none
    | some seg' ↦
        add_chunk (chunk_of seq t seg) (take (t * ch) seg.samples)
          (consume ch rate ts ((seq + 1) % 2 ^ 64) (pop_empty seg' rest))
  ]
]

-- What the datagrams of a sink have in common.
pub record Stream : Type 0 where
  pub channel : LinkId
  pub session : LinkId
  pub sample_rate : ℕ
  pub num_channels : ℕ

abbrev pub channels_of : Stream → ℕ
channels_of str = max str.num_channels 1

unfoldable pub buffer_of : Stream → Packed → AudioBuffer
buffer_of str p = record {
  channel = str.channel;
  session = str.session;
  chunks = p.chunks;
  codec = codec_pcm_i16;
  sample_rate = str.sample_rate;
  num_channels = str.num_channels;
  sample_data = encode_samples p.samples;
}

abbrev pub is_empty : List ℕ → Bool
is_empty [] = true
is_empty (t ∷ ts) = false

-- A partial datagram, or none, is not sent.
abbrev pub is_partial : Sizing → ℕ → Plan → Bool
is_partial s fb p = is_empty p.takes || (not p.exhausted && not (is_short s fb p.left))

abbrev pub add_buffer :
    AudioBuffer → Option (List AudioBuffer × Sink) → Option (List AudioBuffer × Sink)
add_buffer buf none = none
add_buffer buf (some (bufs, sink)) = some (buf ∷ bufs, sink)

-- The outer loop on fuel, `none` where it runs out.
unfoldable pub drain_loop : Stream → Sizing → ℕ → Sink → Option (List AudioBuffer × Sink)
drain_loop str s zero sink = none
drain_loop str s (suc n) sink =
    let ch = channels_of str in
    let p = plan s (2 * ch) (frame_counts ch sink.segments) s.budget in
    if is_partial s (2 * ch) p
    then some ([], sink)
    else elim (consume ch str.sample_rate p.takes sink.next_seq sink.segments) [
      | none ↦ none
      | some q ↦
          add_buffer (buffer_of str q)
            (drain_loop str s n (record sink { next_seq = q.next_seq; segments = q.segments }))
    ]

abbrev pub sum : List ℕ → ℕ
sum [] = 0
sum (n ∷ ns) = n + sum ns

-- A datagram takes a frame at least, so one round more than there are frames is enough.
unfoldable pub drain_datagrams : Stream → Bool → Sink → Option (List AudioBuffer × Sink)
drain_datagrams str fill sink =
    drain_loop str (sizing fill) (suc (sum (frame_counts (channels_of str) sink.segments))) sink
