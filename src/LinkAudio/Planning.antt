-- ===== src/LinkAudio/Planning.antt =====
-- What the planner of `drain_datagrams` in crates/tactus/src/audio.rs comes up with: frames that the segments
-- have, in order, at a cost that is within the budget.
use link_wire_rs.Common.{
  ℕ, zero, suc, ◌+◌, ◌-◌, ◌*◌, ◌/◌, ◌^◌, ◌≤◌, ◌<◌, ◌≡◌, refl, List, [], ◌∷◌, ◌++◌, true, false,
  ltb→lt, ◌==◌, Bool-cases, ◌⊎◌, inl, inr, if-intro, arith, All, All-append,
}
use native.Mathlib.Nat.{le-div_iff_mul-le}
use link_wire_rs.LinkAudio.Drain.{Sizing, is_short, next_take, Plan, plan_segment, plan, sum}

abbrev pub cost : Sizing → ℕ → List ℕ → ℕ
cost s fb [] = 0
cost s fb (t ∷ ts) = s.record_cost + t * fb + cost s fb ts

-- The takes can be had, one after the other, from segments with so many frames.
abbrev pub Fits : List ℕ → List ℕ → Type 0
Fits [] ns = Unit
Fits (t ∷ ts) [] = ⊥
Fits (t ∷ ts) (n ∷ ns) = ((n ≡ 0) × Fits (t ∷ ts) ns) ⊎ ((1 ≤ t) × (t ≤ n) × Fits ts ((n - t) ∷ ns))

pub Fits-zero : (n : ℕ) (ts ns : List ℕ) → n ≡ 0 → Fits ts (n ∷ ns) → Fits ts ns
Fits-zero n [] ns e f = tt
Fits-zero n (t ∷ ts) ns e (inl (z, f)) = f
Fits-zero n (t ∷ ts) ns e (inr (o, l, f)) = absurd (omega arith)

skip_any : (n : ℕ) (ts ns : List ℕ) → n ≡ 0 → Fits ts ns → Fits ts (n ∷ ns)
skip_any n [] ns e f = tt
skip_any n (t ∷ ts) ns e f = inl (e, f)

cost-append :
    (s : Sizing) (fb : ℕ) (ts us : List ℕ) → cost s fb (ts ++ us) ≡ cost s fb ts + cost s fb us
cost-append s fb [] us = omega arith
cost-append s fb (t ∷ ts) us = omega (arith, cost-append s fb ts us)

sum-append : (ts us : List ℕ) → sum (ts ++ us) ≡ sum ts + sum us
sum-append [] us = omega arith
sum-append (t ∷ ts) us = omega (arith, sum-append ts us)

-- A sizing that lets a frame into an empty datagram, and counts in 16 bits.
pub record Usable (s : Sizing) (fb : ℕ) : Type 0 where
  pub frame_bytes : 1 ≤ fb
  pub cap : 1 ≤ s.chunk_cap
  pub room : s.record_cost + fb ≤ s.budget
  pub small : s.budget < 2 ^ 16

abbrev pub IsTake : Sizing → ℕ → Type 0
IsTake s t = (1 ≤ t) × (t ≤ s.chunk_cap)

module _ (s : Sizing) (fb : ℕ) where
  -- What is planned of segments with `ns` frames.
  pub record Planned (ns : List ℕ) (left : ℕ) (p : Plan) : Type 0 where
    pub spent : cost s fb p.takes + p.left ≡ left
    pub sized : All (IsTake s) p.takes
    pub short : p.exhausted ≡ true → p.left < s.record_cost + fb
    pub fits : Fits p.takes ns
    pub whole : p.exhausted ≡ false → sum p.takes ≡ sum ns

module _ (s : Sizing) (fb : ℕ) (u : 1 ≤ fb) (c : 1 ≤ s.chunk_cap) where
  -- What is planned of a segment of `n` frames.
  record SegmentPlan (n left : ℕ) (p : Plan) : Type 0 where
    spent : cost s fb p.takes + p.left ≡ left
    sized : All (IsTake s) p.takes
    short : p.exhausted ≡ true → p.left < s.record_cost + fb
    fits_end : p.exhausted ≡ true → (ns : List ℕ) → Fits p.takes (n ∷ ns)
    fits_on : p.exhausted ≡ false → (us ns : List ℕ) → Fits us ns → Fits (p.takes ++ us) (n ∷ ns)
    whole : p.exhausted ≡ false → sum p.takes ≡ n

  -- A take is a frame at least, no more than there are, and paid for.
  next_take-IsTake :
      (left n : ℕ)
      → 1 ≤ n
      → s.record_cost + fb ≤ left
      → IsTake s (next_take s fb left n)
        × (next_take s fb left n ≤ n)
        × (s.record_cost + next_take s fb left n * fb ≤ left)
  next_take-IsTake left n h k =
      let q = (left - s.record_cost) / fb in
      let t = next_take s fb left n in
      let one : 1 ≤ q = (le-div_iff_mul-le u).1 (omega arith) in
      let paid : t * fb ≤ left - s.record_cost = (le-div_iff_mul-le u).0 (omega arith) in
      ((omega arith, omega arith), omega arith, omega arith)

  empty-SegmentPlan :
      (n left : ℕ)
      → n ≡ 0
      → SegmentPlan n left (record { takes = []; left = left; exhausted = false })
  empty-SegmentPlan n left e = record {
    spent = omega arith;
    sized = tt;
    short = λ x. absurd (ground arith);
    fits_end = λ x. absurd (ground arith);
    fits_on = λ x us ns f. skip_any n us ns e f;
    whole = λ x. omega arith;
  }

  short-SegmentPlan :
      (n left : ℕ)
      → is_short s fb left ≡ true
      → SegmentPlan n left (record { takes = []; left = left; exhausted = true })
  short-SegmentPlan n left e = record {
    spent = omega arith;
    sized = tt;
    short = λ x. ltb→lt left (s.record_cost + fb) e;
    fits_end = λ x ns. tt;
    fits_on = λ x. absurd (ground arith);
    whole = λ x. absurd (ground arith);
  }

  take-SegmentPlan :
      (n left t : ℕ) (rest : Plan)
      → IsTake s t
      → t ≤ n
      → s.record_cost + t * fb ≤ left
      → SegmentPlan (n - t) (left - (s.record_cost + t * fb)) rest
      → SegmentPlan n left (record rest { takes = t ∷ rest.takes })
  take-SegmentPlan n left t rest i l p r = record {
    spent = omega (arith, r.spent);
    sized = (i, r.sized);
    short = r.short;
    fits_end = λ x ns. inr (i.0, l, r.fits_end x ns);
    fits_on = λ x us ns f. inr (i.0, l, r.fits_on x us ns f);
    whole = λ x. omega (arith, r.whole x);
  }

  plan_segment-SegmentPlan :
      (fuel n left : ℕ) → n ≤ fuel → SegmentPlan n left (plan_segment s fb fuel n left)
  unfolding plan_segment
  plan_segment-SegmentPlan zero n left h = empty-SegmentPlan n left (omega arith)
  plan_segment-SegmentPlan (suc fuel) n left h = elim (Bool-cases (n == 0)) [
    | inl none_left ↦ rw none_left (empty-SegmentPlan n left (ground arith))
    | inr some_left ↦ elim (Bool-cases (is_short s fb left)) [
      | inl full ↦ rw (some_left, full) (short-SegmentPlan n left full)
      | inr room ↦
          let (i, l, p) = next_take-IsTake left n (ground arith) (ground arith) in
          rw (some_left, room)
            (take-SegmentPlan n left (next_take s fb left n) _ i l p
              (plan_segment-SegmentPlan fuel (n - next_take s fb left n) _ (omega (arith, i.0))))
    ]
  ]

  end-Planned :
      (n : ℕ) (ns : List ℕ) (left : ℕ) (p : Plan)
      → p.exhausted ≡ true
      → SegmentPlan n left p
      → Planned s fb (n ∷ ns) left p
  end-Planned n ns left p e h = record {
    spent = h.spent;
    sized = h.sized;
    short = h.short;
    fits = h.fits_end e ns;
    whole = λ x. absurd (ground arith);
  }

  on-Planned :
      (n : ℕ) (ns : List ℕ) (left : ℕ) (p rest : Plan)
      → p.exhausted ≡ false
      → SegmentPlan n left p
      → Planned s fb ns p.left rest
      → Planned s fb (n ∷ ns) left (record rest { takes = p.takes ++ rest.takes })
  on-Planned n ns left p rest e h r = record {
    spent = omega (arith, cost-append s fb p.takes rest.takes, h.spent, r.spent);
    sized = All-append (IsTake s) p.takes rest.takes h.sized r.sized;
    short = r.short;
    fits = h.fits_on e rest.takes ns r.fits;
    whole = λ x. omega (arith, sum-append p.takes rest.takes, h.whole e, r.whole x);
  }

  pub plan-Planned : (ns : List ℕ) (left : ℕ) → Planned s fb ns left (plan s fb ns left)
  unfolding plan
  plan-Planned [] left = record {
    spent = omega arith;
    sized = tt;
    short = λ x. absurd (ground arith);
    fits = tt;
    whole = λ x. refl;
  }
  plan-Planned (n ∷ ns) left =
      let here = plan_segment s fb n n left in
      let h = plan_segment-SegmentPlan n n left (omega arith) in
      if-intro (Planned s fb (n ∷ ns) left) here.exhausted _ _
        (λ full. end-Planned n ns left here full h)
        (λ on. on-Planned n ns left here (plan s fb ns here.left) on h (plan-Planned ns here.left))
