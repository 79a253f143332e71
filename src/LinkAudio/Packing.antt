-- ===== src/LinkAudio/Packing.antt =====
-- What `drain_datagrams` of crates/tactus/src/audio.rs makes of a plan that fits the pending segments: it never
-- panics, and the frames leave in order.
use link_wire_rs.Common.{
  ℕ, ◌+◌, ◌*◌, ◌/◌, ◌%◌, ◌^◌, ◌≤◌, ◌<◌, ◌≡◌, refl, sym, ap, ◌∙◌, List, [], ◌∷◌, ◌++◌, append_assoc,
  length, take, length-append, length-take, some, ◌==◌, inl, inr, if-intro, arith, All,
}
use native.Mathlib.Nat.{mod-eq_of_lt, mod-lt, le-div_iff_mul-le, zero-mul, mul-div_cancel}
use link_wire_rs.AudioWire.Message.{Chunk}
use link_wire_rs.AudioWire.Buffer.{IsChunk}
use link_wire_rs.LinkAudio.State.{Segment}
use link_wire_rs.LinkAudio.Drain.{
  frame_counts, pop_empty, Packed, chunk_of, add_chunk, consume, sum,
}
use link_wire_rs.LinkAudio.Planning.{Fits}
use link_wire_rs.LinkAudio.Frames.{
  IsSegment, whole_frames, Advanced, advance-Advanced, whole-pop_empty, Fits-pop_empty,
  whole-advance, length-whole_frames, drop_residue-short, drop_residue-long,
}

-- Chunks numbered one after the other from `seq` on, around the end of `u64`.
abbrev pub Numbered : ℕ → List Chunk → Type 0
Numbered seq [] = Unit
Numbered seq (c ∷ cs) = (c.seq ≡ seq) × Numbered ((seq + 1) % 2 ^ 64) cs

abbrev pub frames_of : List Chunk → List ℕ
frames_of [] = []
frames_of (c ∷ cs) = c.num_frames ∷ frames_of cs

module _ (ch rate : ℕ) where
  -- What packing `ts` takes from `segs` and leaves.
  pub record Packing (ts : List ℕ) (seq : ℕ) (segs : List Segment) (p : Packed) : Type 0 where
    pub frames : p.samples ++ whole_frames ch p.segments ≡ whole_frames ch segs
    pub size : length p.samples ≡ sum ts * ch
    pub takes : frames_of p.chunks ≡ ts
    pub numbered : (cs : List Chunk) → Numbered p.next_seq cs → Numbered seq (p.chunks ++ cs)
    pub chunks : All IsChunk p.chunks
    pub next_seq : p.next_seq < 2 ^ 64
    pub segments : All (IsSegment rate) p.segments

module _ (ch rate : ℕ) (c : 1 ≤ ch) where
  nothing-Packing :
      (seq : ℕ) (segs : List Segment)
      → seq < 2 ^ 64
      → All (IsSegment rate) segs
      → Packing ch rate [] seq segs
          (record { chunks = []; samples = []; next_seq = seq; segments = segs })
  nothing-Packing seq segs h s = record {
    frames = refl;
    size = omega arith;
    takes = refl;
    numbered = λ cs n. n;
    chunks = tt;
    next_seq = h;
    segments = s;
  }

  chunk-Packing :
      (t : ℕ) (ts : List ℕ) (seq : ℕ) (seg seg' : Segment) (rest segs : List Segment) (p : Packed)
      → t < 2 ^ 16
      → t ≤ length seg.samples / ch
      → seq < 2 ^ 64
      → IsSegment rate seg
      → Advanced ch rate c t seg seg'
      → whole_frames ch segs ≡ whole_frames ch (seg ∷ rest)
      → Packing ch rate ts ((seq + 1) % 2 ^ 64) (pop_empty seg' rest) p
      → Packing ch rate (t ∷ ts) seq segs (record p {
        chunks = chunk_of seq t seg ∷ p.chunks;
        samples = take (t * ch) seg.samples ++ p.samples;
      })
  chunk-Packing t ts seq seg seg' rest segs p small l q s a e h = record {
    frames =
        append_assoc (take (t * ch) seg.samples) p.samples (whole_frames ch p.segments)
        ∙ ap (λ xs. take (t * ch) seg.samples ++ xs)
            (h.frames ∙ whole-pop_empty ch rate c seg' rest)
        ∙ whole-advance ch rate c t seg seg' rest l a
        ∙ sym e;
    size =
        let le : t * ch ≤ length seg.samples = (le-div_iff_mul-le c).0 l in
        omega (
          arith,
          length-append (take (t * ch) seg.samples) p.samples,
          length-take (t * ch) seg.samples,
          h.size,
        );
    takes = ap (λ n. n ∷ frames_of p.chunks) (mod-eq_of_lt small) ∙ ap (◌∷◌ t) h.takes;
    numbered = λ cs n. (refl, h.numbered cs n);
    chunks = (
      record {
        seq = q;
        num_frames = mod-lt t (omega arith);
        begin_beats = s.begin;
        tempo = s.tempo;
      },
      h.chunks,
    );
    next_seq = h.next_seq;
    segments = h.segments;
  }

  skip-Packing :
      (ts : List ℕ) (seq : ℕ) (seg : Segment) (segs : List Segment) (p : Packed)
      → length seg.samples / ch ≡ 0
      → Packing ch rate ts seq segs p
      → Packing ch rate ts seq (seg ∷ segs) p
  skip-Packing ts seq seg segs p z h = record {
    frames = rw (z, zero-mul) h.frames;
    size = h.size;
    takes = h.takes;
    numbered = h.numbered;
    chunks = h.chunks;
    next_seq = h.next_seq;
    segments = h.segments;
  }

  -- A plan that fits the segments is consumed.
  pub consume-Packing :
      (ts : List ℕ) (seq : ℕ) (segs : List Segment)
      → All (λ t. t < 2 ^ 16) ts
      → Fits ts (frame_counts ch segs)
      → seq < 2 ^ 64
      → All (IsSegment rate) segs
      → (p : Packed) × (consume ch rate ts seq segs ≡ some p) × Packing ch rate ts seq segs p
  unfolding consume pop_empty
  consume-Packing [] seq segs a f q s = (_, refl, nothing-Packing seq segs q s)
  consume-Packing (t ∷ ts) seq [] a f q s = absurd f
  consume-Packing (t ∷ ts) seq (seg ∷ segs) a (inl (z, f)) q (hs, s) =
      let (p, d, packing) = consume-Packing (t ∷ ts) seq segs a f q s in
      (
        p,
        rw (consume, drop_residue-short ch rate c seg segs z) d,
        skip-Packing (t ∷ ts) seq seg segs p z packing,
      )
  consume-Packing (t ∷ ts) seq (seg ∷ segs) (small, a) (inr (o, l, f)) q (hs, s) =
      let (seg', e, moved) = advance-Advanced ch rate c t seg l hs in
      let (p, d, packing) =
        consume-Packing ts ((seq + 1) % 2 ^ 64) (pop_empty seg' segs) a
          (Fits-pop_empty ch rate c ts seg' segs (rw moved.count f))
          (mod-lt (seq + 1) (omega arith))
          (if-intro (All (IsSegment rate)) (length seg'.samples == 0) _ _ (λ z. s)
            (λ z. (moved.ok, s))) in
      (
        _,
        rw (consume, drop_residue-long ch rate c seg segs (omega arith), e)
            (ap (add_chunk (chunk_of seq t seg) (take (t * ch) seg.samples)) d),
        chunk-Packing t ts seq seg seg' segs (seg ∷ segs) p small l q hs moved refl packing,
      )

-- Packing takes frames.
pub shrinks :
    (ch rate : ℕ) (ts : List ℕ) (seq : ℕ) (segs : List Segment) (p : Packed)
    → 1 ≤ ch
    → 1 ≤ sum ts
    → Packing ch rate ts seq segs p
    → sum (frame_counts ch p.segments) < sum (frame_counts ch segs)
shrinks ch rate ts seq segs p c o h =
    let e : (sum ts + sum (frame_counts ch p.segments)) * ch ≡ sum (frame_counts ch segs) * ch =
      omega (
        arith,
        ap length h.frames,
        length-append p.samples (whole_frames ch p.segments),
        h.size,
        length-whole_frames ch p.segments,
        length-whole_frames ch segs,
      ) in
    let k : sum ts + sum (frame_counts ch p.segments) ≡ sum (frame_counts ch segs) =
      sym (mul-div_cancel (sum ts + sum (frame_counts ch p.segments)) c)
      ∙ ap (λ n. n / ch) e
      ∙ mul-div_cancel (sum (frame_counts ch segs)) c in
    omega arith
