-- ===== src/LinkAudio/Pruning.antt =====
-- The pruning of what has expired by `housekeeping` in crates/tactus/src/audio.rs.
use link_wire_rs.Common.{
  ℕ, ◌^◌, ◌≤◌, ◌<◌, ◌≡◌, refl, List, [], ◌∷◌, map, Option, none, some, Bool, true, if-intro,
  if◌then◌else◌, arith, All,
}
use link_wire_rs.Common.Bytes.{InI64}
use link_wire_rs.Common.Int.{ℤ, pos, pos_part, neg_part, ◌+ℤ◌, ◌≤ℤ◌, ◌<ℤ◌, leb_ℤ, ltb_ℤ, int_laws}
use link_wire_rs.Common.Maps.{retain, retain-All}
use link_wire_rs.Math.Word.{◌+w◌, add-exact}
use link_wire_rs.LinkAudio.Timers.{earliest_of, prune}
use link_wire_rs.Engine.State.{prune_padding}
use link_wire_rs.Engine.Housekeeping.{min_ℤ}

-- A time to which a period can be added.
abbrev pub InReach : ℤ → Type 0
InReach t = (pos_part t < 2 ^ 62) × (neg_part t ≤ 2 ^ 62)

-- The earliest of some deadlines, where there are any, is one of them that is after none.
abbrev IsEarliest : List ℤ → Option ℤ → Type 0
IsEarliest ds none = ds ≡ []
IsEarliest ds (some e) = All (λ d. e ≤ℤ d) ds × (All InReach ds → InReach e)

All-earlier : (a b : ℤ) (ds : List ℤ) → a ≤ℤ b → All (λ d. b ≤ℤ d) ds → All (λ d. a ≤ℤ d) ds
All-earlier a b [] h k = tt
All-earlier a b (d ∷ ds) h (kd, k) = (omega arith, All-earlier a b ds h k)

add-earlier :
    (d : ℤ) (ds : List ℤ) (o : Option ℤ)
    → IsEarliest ds o
    → IsEarliest (d ∷ ds) (elim o as (λ _. Option ℤ) [ none ↦ some d | some e ↦ some (min_ℤ d e) ])
add-earlier d ds none h = rw h ((omega arith, tt), λ r. r.0)
add-earlier d ds (some e) (h, k) =
    if-intro (λ m. All (λ x. m ≤ℤ x) (d ∷ ds) × (All InReach (d ∷ ds) → InReach m)) (leb_ℤ d e) d e
      (λ first.
        let le : d ≤ℤ e = ground arith in ((omega arith, All-earlier d e ds le h), λ r. r.0))
      (λ later. let le : e ≤ℤ d = ground arith in ((le, h), λ r. k r.1))

earliest_of-IsEarliest : (ds : List ℤ) → IsEarliest ds (earliest_of ds)
unfolding earliest_of
earliest_of-IsEarliest [] = refl
earliest_of-IsEarliest (d ∷ ds) = add-earlier d ds (earliest_of ds) (earliest_of-IsEarliest ds)

-- After a pass nothing is left whose deadline is past by the padding, and nothing is gone before its deadline.
pub record IsPruned {A : Type 0} (deadline : A → ℤ) (at : ℤ) (xs ys : List A) : Type 0 where
  pub overdue : All (λ y. at <ℤ deadline y +ℤ prune_padding) ys
  pub kept : retain (λ x. ltb_ℤ at (deadline x)) ys ≡ retain (λ x. ltb_ℤ at (deadline x)) xs

retain-retain : {A : Type 0} (p : A → Bool) (xs : List A) → retain p (retain p xs) ≡ retain p xs
retain-retain p [] = refl
retain-retain p (x ∷ xs) =
    if-intro (λ l. retain p l ≡ l) (p x) (x ∷ retain p xs) (retain p xs)
      (λ stays. rw (stays, retain-retain p xs) refl) (λ goes. retain-retain p xs)

pub later-InI64 : (t : ℤ) (n : ℕ) → n < 2 ^ 62 → InReach t → InI64 (t +ℤ pos n)
unfolding ◌+ℤ◌
later-InI64 t n l h = ground arith

module _ {A : Type 0} (deadline : A → ℤ) (at : ℤ) where
  live_overdue :
      (xs : List A)
      → All (λ x. ltb_ℤ at (deadline x) ≡ true) xs
      → All (λ x. at <ℤ deadline x +ℤ prune_padding) xs
  live_overdue [] h = tt
  live_overdue (x ∷ xs) (hx, h) =
      let l : at <ℤ deadline x = ground arith in (omega int_laws, live_overdue xs h)

  early_overdue :
      (e : ℤ) (xs : List A)
      → at <ℤ e +ℤ prune_padding
      → All (λ d. e ≤ℤ d) (map deadline xs)
      → All (λ x. at <ℤ deadline x +ℤ prune_padding) xs
  early_overdue e [] l h = tt
  early_overdue e (x ∷ xs) l (hx, h) = (omega int_laws, early_overdue e xs l h)

  prune_by-IsPruned :
      (xs : List A) (o : Option ℤ)
      → IsEarliest (map deadline xs) o
      → All InReach (map deadline xs)
      → IsPruned deadline at xs (elim o [
        | none ↦ xs
        | some e ↦
            if leb_ℤ (e +w prune_padding) at then retain (λ x. ltb_ℤ at (deadline x)) xs else xs
      ])
  prune_by-IsPruned [] none h r = record { overdue = tt; kept = refl }
  prune_by-IsPruned (x ∷ xs) none h r = absurd (ground arith)
  prune_by-IsPruned xs (some e) (h, k) r =
      if-intro (IsPruned deadline at xs) (leb_ℤ (e +w prune_padding) at) _ _
        (λ past. record {
          overdue = live_overdue _ (retain-All (λ x. ltb_ℤ at (deadline x)) xs);
          kept = retain-retain (λ x. ltb_ℤ at (deadline x)) xs;
        })
        (λ ahead. record {
          overdue =
              let near = k r in
              let exact : e +w prune_padding ≡ e +ℤ prune_padding =
                add-exact e prune_padding (later-InI64 e 1000000 (omega arith) near) in
              let l : at <ℤ e +ℤ prune_padding = (let a = rw exact at ahead in ground arith) in
              early_overdue e xs l h;
          kept = refl;
        })

  pub prune-IsPruned :
      (xs : List A) → All InReach (map deadline xs) → IsPruned deadline at xs (prune deadline at xs)
  prune-IsPruned xs r =
      prune_by-IsPruned xs (earliest_of (map deadline xs))
        (earliest_of-IsEarliest (map deadline xs)) r
