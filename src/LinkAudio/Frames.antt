-- ===== src/LinkAudio/Frames.antt =====
-- The frames of the pending segments in crates/tactus/src/audio.rs, and what the steps of `drain_datagrams` do
-- to them.
use link_wire_rs.Common.{
  ℕ, zero, suc, ◌+◌, ◌-◌, ◌*◌, ◌/◌, ◌≤◌, ◌<◌, ◌≡◌, refl, sym, ap, ◌∙◌, List, [], ◌∷◌, ◌++◌,
  append_assoc, length, take, drop, length-append, length-take, length-drop, some, true, false, ltb,
  ltb→lt, lt→ltb, le→ltb, le→leb, ◌==◌, ==_iff, Bool-cases, inl, inr, if-intro, arith, All,
  All-take, All-drop, All-append,
}
use link_wire_rs.Common.Bytes.{
  InI64, InSigned, half_16, as_signed-InSigned, as_unsigned, as_unsigned-lt, half_64,
}
use link_wire_rs.Common.Int.{ℤ, pos, ◌+ℤ◌, ◌*ℤ◌, eqb_ℤ}
use native.Mathlib.Nat.{
  le-div_iff_mul-le, add-mul-div_right, div-eq_of_lt, div-mul-le_self, lt-div-mul-add, zero-mul,
  zero-div,
}
use link_wire_rs.Math.Word.{wrap, ◌+w◌}
use link_wire_rs.Math.Grid.{round_div}
use link_wire_rs.LinkAudio.State.{Segment}
use link_wire_rs.LinkAudio.Drain.{
  frames_to_micro_beats, frame_counts, sum, drop_residue, advance, pop_empty,
}
use link_wire_rs.LinkAudio.Planning.{Fits, Fits-zero}

-- Times and samples in the range of their types, and no division by 0.
pub record IsSegment (rate : ℕ) (seg : Segment) : Type 0 where
  pub begin : InI64 seg.begin
  pub tempo : InI64 seg.tempo
  pub timed : eqb_ℤ (pos rate *ℤ seg.tempo) (pos 0) ≡ false
  pub samples : All (InSigned half_16) seg.samples

add-InI64 : (a b : ℤ) → InI64 (a +w b)
unfolding ◌+w◌ wrap
add-InI64 a b =
    as_signed-InSigned half_64 (as_unsigned half_64 (a +ℤ b))
      (as_unsigned-lt half_64 (a +ℤ b) (omega arith))

-- The whole frames that are pending.
abbrev pub whole_frames : ℕ → List Segment → List ℤ
whole_frames ch [] = []
whole_frames ch (seg ∷ segs) =
    take (length seg.samples / ch * ch) seg.samples ++ whole_frames ch segs

pub length-whole_frames :
    (ch : ℕ) (segs : List Segment) → length (whole_frames ch segs) ≡ sum (frame_counts ch segs) * ch
length-whole_frames ch [] = omega arith
length-whole_frames ch (seg ∷ segs) = omega (
  arith,
  length-append (take (length seg.samples / ch * ch) seg.samples) (whole_frames ch segs),
  length-take (length seg.samples / ch * ch) seg.samples,
  div-mul-le_self (length seg.samples) ch,
  length-whole_frames ch segs,
)

pub whole_frames-InSigned :
    (ch rate : ℕ) (segs : List Segment)
    → All (IsSegment rate) segs
    → All (InSigned half_16) (whole_frames ch segs)
whole_frames-InSigned ch rate [] h = tt
whole_frames-InSigned ch rate (seg ∷ segs) (hs, h) =
    All-append (InSigned half_16) (take (length seg.samples / ch * ch) seg.samples)
      (whole_frames ch segs)
      (All-take (InSigned half_16) (length seg.samples / ch * ch) seg.samples hs.samples)
      (whole_frames-InSigned ch rate segs h)

take-nil {ℓ} : {A : Type ℓ} (n : ℕ) → take {A = A} n [] ≡ []
take-nil zero = refl
take-nil (suc n) = refl

pub take-take-drop {ℓ} :
    {A : Type ℓ} (a b : ℕ) (xs : List A) → take a xs ++ take b (drop a xs) ≡ take (a + b) xs
take-take-drop zero b xs = ap (λ n. take n xs) (omega arith)
take-take-drop (suc a) b [] = take-nil b ∙ sym (take-nil (suc a + b))
take-take-drop (suc a) b (x ∷ xs) =
    ap (◌∷◌ x) (take-take-drop a b xs) ∙ ap (λ n. take n (x ∷ xs)) {x = suc (a + b)} (omega arith)

module _ (ch rate : ℕ) (c : 1 ≤ ch) where
  div-sub : (n t : ℕ) → t ≤ n / ch → (n - t * ch) / ch ≡ n / ch - t
  div-sub n t h =
      let le : t * ch ≤ n = (le-div_iff_mul-le c).0 h in
      let e : (n - t * ch + t * ch) / ch ≡ n / ch = ap (λ m. m / ch) (omega arith) in
      omega (arith, add-mul-div_right (n - t * ch) t c)

  pub whole-drop_residue :
      (segs : List Segment) → whole_frames ch (drop_residue ch segs) ≡ whole_frames ch segs
  unfolding drop_residue
  whole-drop_residue [] = refl
  whole-drop_residue (seg ∷ segs) = elim (Bool-cases (ltb (length seg.samples) ch)) [
    | inl short ↦
        rw (short, div-eq_of_lt (ltb→lt (length seg.samples) ch short), zero-mul)
          (whole-drop_residue segs)
    | inr long ↦ rw long
  ]

  abbrev moved : ℕ → Segment → Segment
  moved t seg = record seg {
    samples = drop (t * ch) seg.samples;
    begin = seg.begin +w round_div (pos t *ℤ pos 1000000000000) (pos rate *ℤ seg.tempo);
  }

  -- What is left of a segment that a take was drained from.
  pub record Advanced (t : ℕ) (seg seg' : Segment) : Type 0 where
    pub ok : IsSegment rate seg'
    pub samples : seg'.samples ≡ drop (t * ch) seg.samples
    pub count : length seg'.samples / ch ≡ length seg.samples / ch - t

  pub advance-Advanced :
      (t : ℕ) (seg : Segment)
      → t ≤ length seg.samples / ch
      → IsSegment rate seg
      → (seg' : Segment) × (advance ch rate t seg ≡ some seg') × Advanced t seg seg'
  unfolding advance frames_to_micro_beats
  advance-Advanced t seg h s = (
    moved t seg,
    rw (le→leb (t * ch) (length seg.samples) ((le-div_iff_mul-le c).0 h), s.timed) refl,
    record {
      ok = record {
        begin = add-InI64 seg.begin _;
        tempo = s.tempo;
        timed = s.timed;
        samples = All-drop (InSigned half_16) (t * ch) seg.samples s.samples;
      };
      samples = refl;
      count =
          ap (λ n. n / ch) (length-drop (t * ch) seg.samples) ∙ div-sub (length seg.samples) t h;
    },
  )

  no_frames : (seg : Segment) → (length seg.samples == 0) ≡ true → length seg.samples / ch ≡ 0
  no_frames seg e =
      let z : length seg.samples ≡ 0 = (==_iff (length seg.samples) 0).0 e in rw z (zero-div ch)

  pub whole-pop_empty :
      (seg : Segment) (segs : List Segment)
      → whole_frames ch (pop_empty seg segs) ≡ whole_frames ch (seg ∷ segs)
  unfolding pop_empty
  whole-pop_empty seg segs = elim (Bool-cases (length seg.samples == 0)) [
    | inl none_left ↦ rw (none_left, no_frames seg none_left, zero-mul) refl
    | inr some_left ↦ rw some_left
  ]

  pub Fits-pop_empty :
      (ts : List ℕ) (seg : Segment) (segs : List Segment)
      → Fits ts (frame_counts ch (seg ∷ segs))
      → Fits ts (frame_counts ch (pop_empty seg segs))
  unfolding pop_empty
  Fits-pop_empty ts seg segs f =
      if-intro (λ l. Fits ts (frame_counts ch l)) (length seg.samples == 0) _ _
        (λ e. Fits-zero _ ts _ (no_frames seg e) f) (λ e. f)

  pub whole-advance :
      (t : ℕ) (seg seg' : Segment) (rest : List Segment)
      → t ≤ length seg.samples / ch
      → Advanced t seg seg'
      → take (t * ch) seg.samples ++ whole_frames ch (seg' ∷ rest) ≡ whole_frames ch (seg ∷ rest)
  whole-advance t seg seg' rest l a =
      let n = length seg.samples / ch in
      let k : n * ch ≡ (t + (n - t)) * ch = ap (λ m. m * ch) (omega arith) in
      rw (a.count, a.samples)
        (sym (
            append_assoc (take (t * ch) seg.samples)
              (take ((n - t) * ch) (drop (t * ch) seg.samples)) _)
          ∙ ap (λ xs. xs ++ whole_frames ch rest)
              (take-take-drop (t * ch) ((n - t) * ch) seg.samples
                ∙ ap (λ k. take k seg.samples) {x = t * ch + (n - t) * ch} (omega arith)))

  pub drop_residue-short :
      (seg : Segment) (segs : List Segment)
      → length seg.samples / ch ≡ 0
      → drop_residue ch (seg ∷ segs) ≡ drop_residue ch segs
  unfolding drop_residue
  drop_residue-short seg segs z =
      let lt : length seg.samples < length seg.samples / ch * ch + ch = lt-div-mul-add c in
      let e : length seg.samples / ch * ch ≡ 0 = rw z (zero-mul ch) in
      rw (lt→ltb (length seg.samples) ch (omega arith)) refl

  pub drop_residue-long :
      (seg : Segment) (segs : List Segment)
      → 1 ≤ length seg.samples / ch
      → drop_residue ch (seg ∷ segs) ≡ seg ∷ segs
  unfolding drop_residue
  drop_residue-long seg segs h =
      let le : 1 * ch ≤ length seg.samples = (le-div_iff_mul-le c).0 h in
      rw (le→ltb (length seg.samples) ch (omega arith)) refl
