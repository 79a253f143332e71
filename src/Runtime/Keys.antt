-- ===== src/Runtime/Keys.antt =====
-- Maps with natural keys, as the gateways of crates/tactus/src/runtime.rs are kept.
use link_wire_rs.Common.{
  ℕ, ◌≡◌, refl, List, [], ◌∷◌, none, some, false, ◌==◌, Bool-cases, inl, inr, arith, All,
}
use link_wire_rs.Common.Maps.{get, insert, remove, nat_eq}

pub All-remove :
    {A : Type 0} (P : ℕ × A → Type 0) (k : ℕ) (m : List (ℕ × A)) → All P m → All P (remove k m)
All-remove P k [] h = tt
All-remove P k (p ∷ ps) (hp, h) = elim (Bool-cases (p.0 == k)) [
  | inl gone ↦ rw gone (All-remove P k ps h)
  | inr stays ↦ rw stays (hp, All-remove P k ps h)
]

pub All-insert :
    {A : Type 0} (P : ℕ × A → Type 0) (k : ℕ) (v : A) (m : List (ℕ × A))
    → P (k, v)
    → All P m
    → All P (insert k v m)
All-insert P k v [] hk h = (hk, tt)
All-insert P k v (p ∷ ps) hk (hp, h) = elim (Bool-cases (p.0 == k)) [
  | inl here ↦ rw here (hk, h)
  | inr other ↦ rw other (hp, All-insert P k v ps hk h)
]

pub get-tail :
    {A : Type 0} (j : ℕ) (p : ℕ × A) (m : List (ℕ × A))
    → get j (p ∷ m) ≡ none
    → ((p.0 == j) ≡ false) × (get j m ≡ none)
get-tail j p m h = elim (Bool-cases (p.0 == j)) [
  | inl here ↦ let e : some p.1 ≡ none = rw here at h in absurd (ground arith)
  | inr other ↦ (other, rw other at h)
]

pub get-remove :
    {A : Type 0} (j k : ℕ) (m : List (ℕ × A)) → get j m ≡ none → get j (remove k m) ≡ none
get-remove j k [] h = refl
get-remove j k (p ∷ ps) h =
    let (other, rest) = get-tail j p ps h in
    elim (Bool-cases (p.0 == k)) [
      | inl gone ↦ rw gone (get-remove j k ps rest)
      | inr stays ↦ rw (stays, other) (get-remove j k ps rest)
    ]

pub get-insert_other :
    {A : Type 0} (j k : ℕ) (g : A) (m : List (ℕ × A))
    → (k == j) ≡ false
    → get j m ≡ none
    → get j (insert k g m) ≡ none
get-insert_other j k g [] l h = rw l refl
get-insert_other j k g (p ∷ ps) l h =
    let (other, rest) = get-tail j p ps h in
    elim (Bool-cases (p.0 == k)) [
      | inl here ↦ rw (here, l) rest
      | inr stays ↦ rw (stays, other) (get-insert_other j k g ps l rest)
    ]

pub get-remove_other :
    {A : Type 0} (j k : ℕ) (g : A) (m : List (ℕ × A))
    → (k == j) ≡ false
    → get j m ≡ some g
    → get j (remove k m) ≡ some g
get-remove_other j k g [] l h = absurd (ground arith)
get-remove_other j k g (p ∷ ps) l h = elim (Bool-cases (p.0 == j)) [
  | inl here ↦ let stays : (p.0 == k) ≡ false = ground arith in rw (stays, here) (rw here at h)
  | inr other ↦
      let rest : get j ps ≡ some g = rw other at h in
      elim (Bool-cases (p.0 == k)) [
        | inl gone ↦ rw gone (get-remove_other j k g ps l rest)
        | inr stays ↦ rw (stays, other) (get-remove_other j k g ps l rest)
      ]
]

pub get-insert_stays :
    {A : Type 0} (j k : ℕ) (g v : A) (m : List (ℕ × A))
    → (k == j) ≡ false
    → get j m ≡ some g
    → get j (insert k v m) ≡ some g
get-insert_stays j k g v [] l h = absurd (ground arith)
get-insert_stays j k g v (p ∷ ps) l h = elim (Bool-cases (p.0 == j)) [
  | inl here ↦ let stays : (p.0 == k) ≡ false = ground arith in rw (stays, here) (rw here at h)
  | inr other ↦
      let rest : get j ps ≡ some g = rw other at h in
      elim (Bool-cases (p.0 == k)) [
        | inl there ↦ rw (there, l) rest
        | inr stays ↦ rw (stays, other) (get-insert_stays j k g v ps l rest)
      ]
]

-- No key stands twice.
abbrev pub HasKeys : {A : Type 0} → List (ℕ × A) → Type 0
HasKeys [] = Unit
HasKeys (p ∷ ps) = All (λ q. (q.0 == p.0) ≡ false) ps × HasKeys ps

pub remove-HasKeys : {A : Type 0} (k : ℕ) (m : List (ℕ × A)) → HasKeys m → HasKeys (remove k m)
remove-HasKeys k [] h = tt
remove-HasKeys k (p ∷ ps) (hp, h) = elim (Bool-cases (p.0 == k)) [
  | inl gone ↦ rw gone (remove-HasKeys k ps h)
  | inr stays ↦ rw stays (All-remove (λ q. (q.0 == p.0) ≡ false) k ps hp, remove-HasKeys k ps h)
]

pub insert-HasKeys :
    {A : Type 0} (k : ℕ) (v : A) (m : List (ℕ × A))
    → All (λ q. (q.0 == k) ≡ false) m
    → HasKeys m
    → HasKeys (insert k v m)
insert-HasKeys k v [] n h = (tt, tt)
insert-HasKeys k v (p ∷ ps) (np, n) (hp, h) =
    rw np
      (All-insert (λ q. (q.0 == p.0) ≡ false) k v ps (ground arith) hp, insert-HasKeys k v ps n h)
