-- ===== src/LinkAudio/Draining.antt =====
-- What leaves a sink in `drain_datagrams` of crates/tactus/src/audio.rs, and what stays.
use link_wire_rs.Common.{
  ℕ, zero, suc, ◌+◌, ◌*◌, ◌^◌, ◌≤◌, ◌<◌, ◌≡◌, refl, sym, ap, ◌∙◌, List, [], ◌∷◌, ◌++◌, append_assoc,
  length, some, Bool, true, false, Bool-cases, inl, inr, arith, All, All-prefix,
}
use link_wire_rs.Common.Bytes.{InSigned, half_16}
use link_wire_rs.Common.Int.{ℤ}
use link_wire_rs.AudioWire.Message.{AudioBuffer, Chunk}
use link_wire_rs.AudioWire.Samples.{samples, samples-encode_samples}
use link_wire_rs.LinkAudio.State.{Sink}
use link_wire_rs.LinkAudio.Drain.{
  Sizing, Plan, plan, frame_counts, Packed, Stream, channels_of, buffer_of, is_partial, add_buffer,
  drain_loop, sum,
}
use link_wire_rs.LinkAudio.Planning.{Usable, cost, Planned, plan-Planned}
use link_wire_rs.LinkAudio.Frames.{IsSegment, whole_frames}
use link_wire_rs.LinkAudio.Packing.{Numbered, Packing, consume-Packing, shrinks}
use link_wire_rs.LinkAudio.Buffers.{
  IsStream, IsFull, IsSent, sum_le_cost, le_mul, length_le_sum, buffer_of-IsSent,
}

pub record IsSink (rate : ℕ) (sink : Sink) : Type 0 where
  pub next_seq : sink.next_seq < 2 ^ 64
  pub segments : All (IsSegment rate) sink.segments

-- The samples and the chunks of the buffers.
abbrev pub sent_samples : List AudioBuffer → List ℤ
sent_samples [] = []
sent_samples (b ∷ bs) = samples b.sample_data ++ sent_samples bs

abbrev pub sent_chunks : List AudioBuffer → List Chunk
sent_chunks [] = []
sent_chunks (b ∷ bs) = b.chunks ++ sent_chunks bs

module _ (str : Stream) (s : Sizing) where
  abbrev pub pending_frames : Sink → List ℤ
  pending_frames sink = whole_frames (channels_of str) sink.segments

  abbrev pub frame_bytes : ℕ
  frame_bytes = 2 * channels_of str

  -- The buffers that leave a sink, and the sink that stays.
  pub record Drained (sink : Sink) (bufs : List AudioBuffer) (sink' : Sink) : Type 0 where
    pub frames : sent_samples bufs ++ pending_frames sink' ≡ pending_frames sink
    pub numbered :
        (cs : List Chunk)
        → Numbered sink'.next_seq cs
        → Numbered sink.next_seq (sent_chunks bufs ++ cs)
    pub buffers : All (IsSent str s) bufs
    pub rest :
        sum (frame_counts (channels_of str) sink'.segments) * frame_bytes
          + s.record_cost
          + frame_bytes
        ≤ s.budget
    pub valid : IsSink str.sample_rate sink'
    pub id : sink'.id ≡ sink.id
    pub format : sink'.format ≡ sink.format
    pub requesters : sink'.requesters ≡ sink.requesters

  nothing-Drained :
      (sink : Sink)
      → IsSink str.sample_rate sink
      → sum (frame_counts (channels_of str) sink.segments) * frame_bytes
          + s.record_cost
          + frame_bytes
        ≤ s.budget
      → Drained sink [] sink
  nothing-Drained sink h r = record {
    frames = refl;
    numbered = λ cs n. n;
    buffers = tt;
    rest = r;
    valid = h;
    id = refl;
    format = refl;
    requesters = refl;
  }

  buffer-Drained :
      (sink : Sink) (ts : List ℕ) (p : Packed) (bufs : List AudioBuffer) (sink' : Sink)
      → IsStream str
      → s.budget < 2 ^ 16
      → IsFull s frame_bytes ts
      → 1 ≤ length ts
      → All (InSigned half_16) p.samples
      → Packing (channels_of str) str.sample_rate ts sink.next_seq sink.segments p
      → Drained (record sink { next_seq = p.next_seq; segments = p.segments }) bufs sink'
      → Drained sink (buffer_of str p ∷ bufs) sink'
  unfolding buffer_of
  buffer-Drained sink ts p bufs sink' i b f o a h d = record {
    frames = rw (samples-encode_samples p.samples a) (
        append_assoc p.samples (sent_samples bufs) (pending_frames sink')
        ∙ ap (λ xs. p.samples ++ xs) d.frames
        ∙ h.frames);
    numbered = λ cs n.
        rw (append_assoc p.chunks (sent_chunks bufs) cs)
          (h.numbered (sent_chunks bufs ++ cs) (d.numbered cs n));
    buffers = (buffer_of-IsSent str s ts sink.next_seq sink.segments p i b f o h, d.buffers);
    rest = d.rest;
    valid = d.valid;
    id = d.id;
    format = d.format;
    requesters = d.requesters;
  }

  -- What a plan says where it is a partial datagram, and where it is a full one.
  partial-rest :
      (ns ts : List ℕ) (left : ℕ) (x : Bool)
      → Usable s frame_bytes
      → Planned s frame_bytes ns s.budget (record { takes = ts; left = left; exhausted = x })
      → is_partial s frame_bytes (record { takes = ts; left = left; exhausted = x }) ≡ true
      → sum ns * frame_bytes + s.record_cost + frame_bytes ≤ s.budget
  partial-rest ns [] left true u h e = absurd (omega (arith, h.short refl, h.spent, u.room))
  partial-rest ns [] left false u h e =
      let z : sum ns ≡ 0 = sym (h.whole refl) in rw z (omega (arith, u.room))
  partial-rest ns (t ∷ ts) left true u h e = absurd (ground arith)
  partial-rest ns (t ∷ ts) left false u h e =
      let room : s.record_cost + frame_bytes ≤ left = ground arith in
      rw⁻¹ (h.whole refl) (omega (arith, sum_le_cost s frame_bytes (t ∷ ts), h.spent))

  plan-IsFull :
      (ns ts : List ℕ) (left : ℕ) (x : Bool)
      → Planned s frame_bytes ns s.budget (record { takes = ts; left = left; exhausted = x })
      → is_partial s frame_bytes (record { takes = ts; left = left; exhausted = x }) ≡ false
      → IsFull s frame_bytes ts × (1 ≤ length ts)
  plan-IsFull ns [] left x h e = absurd (ground arith)
  plan-IsFull ns (t ∷ ts) left true h e = (
    record {
      within = omega (arith, h.spent);
      full = omega (arith, h.spent, h.short refl);
      sized = h.sized;
    },
    omega arith,
  )
  plan-IsFull ns (t ∷ ts) left false h e =
      let short : left < s.record_cost + frame_bytes = ground arith in
      (
        record { within = omega (arith, h.spent); full = omega (arith, h.spent); sized = h.sized },
        omega arith,
      )

  abbrev planned : Sink → Plan
  planned sink = plan s frame_bytes (frame_counts (channels_of str) sink.segments) s.budget

  takes-lt : (ts : List ℕ) (k : ℕ) → cost s frame_bytes ts < k → All (λ t. t < k) ts
  takes-lt [] k h = tt
  takes-lt (t ∷ ts) k h =
      (omega (arith, le_mul t frame_bytes (omega arith)), takes-lt ts k (omega arith))

  -- With more fuel than there are frames the loop ends.
  pub drain_loop-Drained :
      (n : ℕ) (sink : Sink)
      → IsStream str
      → Usable s frame_bytes
      → sum (frame_counts (channels_of str) sink.segments) < n
      → IsSink str.sample_rate sink
      → All (InSigned half_16) (pending_frames sink)
      → (bufs : List AudioBuffer) × (sink' : Sink) × (drain_loop str s n sink ≡ some (bufs, sink'))
        × Drained sink bufs sink'
  unfolding drain_loop
  drain_loop-Drained zero sink i u f h a = absurd (omega arith)
  drain_loop-Drained (suc n) sink i u f h a =
      let ch = channels_of str in
      let pl = planned sink in
      let one : 1 ≤ ch = omega arith in
      let hp =
        plan-Planned s frame_bytes u.frame_bytes u.cap (frame_counts ch sink.segments) s.budget in
      elim (Bool-cases (is_partial s frame_bytes pl)) [
        | inl part ↦ (
          [],
          sink,
          rw part refl,
          nothing-Drained sink h (
              partial-rest (frame_counts ch sink.segments) pl.takes pl.left pl.exhausted u hp part),
        )
        | inr all ↦
            let (full, o) =
              plan-IsFull (frame_counts ch sink.segments) pl.takes pl.left pl.exhausted hp all in
            let (p, e, pk) =
              consume-Packing ch str.sample_rate one pl.takes sink.next_seq sink.segments
                (takes-lt pl.takes (2 ^ 16) (omega (arith, full.within, u.small))) hp.fits
                h.next_seq h.segments in
            let (here, on) =
              All-prefix (InSigned half_16) p.samples (whole_frames ch p.segments)
                (rw pk.frames a) in
            let (bufs, sink', d, drained) =
              drain_loop-Drained n (record sink { next_seq = p.next_seq; segments = p.segments }) i
                u
                (omega (
                  arith,
                  shrinks ch str.sample_rate pl.takes sink.next_seq sink.segments p one
                      (omega (arith, o, length_le_sum s pl.takes full.sized)) pk,
                ))
                (record { next_seq = pk.next_seq; segments = pk.segments }) on in
            (
              buffer_of str p ∷ bufs,
              sink',
              rw (all, e) (ap (add_buffer (buffer_of str p)) d),
              buffer-Drained sink pl.takes p bufs sink' i u.small full o here pk drained,
            )
      ]
