-- ===== src/Common/Maps.antt =====
-- Hash maps as association lists, in whatever order the iteration has. Keys are told apart by `same`.
use Prim.Native.Nat.{ℕ}
use mathlib.Core.Path.{◌≡◌, refl}
use mathlib.Core.Logic.{◌↔◌, inl, inr}
use mathlib.Core.Bool.{Bool, true, false, not, ◌||◌}
use mathlib.Core.Option.{Option, none, some}
use mathlib.Core.List.{List, [], ◌∷◌}
use link_wire_rs.Common.Tests.{if◌then◌else◌, ◌==◌, ==_iff, Bool-cases}
use link_wire_rs.Common.Lists.{All}

pub record Eq {ℓ} (A : Type ℓ) : Type ℓ where
  pub same : A → A → Bool
  pub same_iff : (a b : A) → (same a b ≡ true) ↔ (a ≡ b)

abbrev pub same {ℓ} : {A : Type ℓ} ⦃e : Eq A⦄ → A → A → Bool
same ⦃e⦄ = e.same

pub same_self {ℓ} : {K : Type ℓ} ⦃e : Eq K⦄ (k : K) → e.same k k ≡ true
same_self ⦃e⦄ k = (e.same_iff k k).1 refl

instance abbrev pub nat_eq : Eq ℕ
nat_eq = record { same = ◌==◌; same_iff = ==_iff }

-- `retain`, and `filter` on a sequence.
module _ {ℓ} {A : Type ℓ} where
  abbrev pub retain : (A → Bool) → List A → List A
  retain p [] = []
  retain p (x ∷ xs) = let rest = retain p xs in if p x then x ∷ rest else rest

  abbrev pub any : (A → Bool) → List A → Bool
  any p [] = false
  any p (x ∷ xs) = p x || any p xs

  -- What `retain` leaves passes the test.
  pub retain-All : (p : A → Bool) (xs : List A) → All (λ x. p x ≡ true) (retain p xs)
  retain-All p [] = tt
  retain-All p (x ∷ xs) = elim (Bool-cases (p x)) [
    | inl keep ↦ rw keep (keep, retain-All p xs)
    | inr drop ↦ rw drop (retain-All p xs)
  ]

  pub retain-none : (p : A → Bool) (xs : List A) → All (λ x. p x ≡ false) xs → retain p xs ≡ []
  retain-none p [] h = refl
  retain-none p (x ∷ xs) (hx, h) = rw hx (retain-none p xs h)

  pub any-none : (p : A → Bool) (xs : List A) → All (λ x. p x ≡ false) xs → any p xs ≡ false
  any-none p [] h = refl
  any-none p (x ∷ xs) (hx, h) = rw (hx, any-none p xs h)

-- `find_map`
module _ {ℓ κ} {A : Type ℓ} {B : Type κ} where
  abbrev pub find_map : (A → Option B) → List A → Option B
  find_map f [] = none
  find_map f (x ∷ xs) = let rest = find_map f xs in elim (f x) [ some b ↦ some b | none ↦ rest ]

module _ {ℓ κ} {K : Type ℓ} {V : Type κ} ⦃e : Eq K⦄ where
  abbrev pub get : K → List (K × V) → Option V
  get k [] = none
  get k (p ∷ ps) = let rest = get k ps in if e.same p.0 k then some p.1 else rest

  -- A new key goes to the end, an old one keeps its place.
  abbrev pub insert : K → V → List (K × V) → List (K × V)
  insert k v [] = (k, v) ∷ []
  insert k v (p ∷ ps) = let rest = insert k v ps in if e.same p.0 k then (k, v) ∷ ps else p ∷ rest

  abbrev pub remove : K → List (K × V) → List (K × V)
  remove k m = retain (λ p. not (e.same p.0 k)) m

  pub get-insert : (k : K) (v : V) (m : List (K × V)) → get k (insert k v m) ≡ some v
  get-insert k v [] = rw (same_self k)
  get-insert k v (p ∷ ps) = elim (Bool-cases (e.same p.0 k)) [
    | inl here ↦ rw (here, same_self k)
    | inr other ↦ rw (other, other) (get-insert k v ps)
  ]
