-- ===== src/Iface/Ascending.antt =====
-- The sets of addresses of crates/tactus/src/iface.rs hold each address once, in order.
use link_wire_rs.Common.{ℕ, ◌<◌, List, [], ◌∷◌, All, ltb, ◌==◌, Bool-cases, inl, inr, arith}
use link_wire_rs.Iface.Plan.{Interface, insert_addr, admits, admit}

abbrev pub IsAscending : List ℕ → Type 0
IsAscending [] = Unit
IsAscending (x ∷ xs) = All (λ y. x < y) xs × IsAscending xs

above_less : (a x : ℕ) (xs : List ℕ) → a < x → All (λ y. x < y) xs → All (λ y. a < y) xs
above_less a x [] l h = tt
above_less a x (y ∷ ys) l (hy, h) = (omega arith, above_less a x ys l h)

above-insert_addr :
    (a b : ℕ) (xs : List ℕ) → b < a → All (λ y. b < y) xs → All (λ y. b < y) (insert_addr a xs)
unfolding insert_addr
above-insert_addr a b [] l h = (l, tt)
above-insert_addr a b (x ∷ xs) l (hx, h) = elim (Bool-cases (ltb a x)) [
  | inl before ↦ rw before (l, (hx, h))
  | inr after ↦ elim (Bool-cases (a == x)) [
    | inl same ↦ rw (after, same) (hx, h)
    | inr other ↦ rw (after, other) (hx, above-insert_addr a b xs l h)
  ]
]

insert_addr-IsAscending : (a : ℕ) (xs : List ℕ) → IsAscending xs → IsAscending (insert_addr a xs)
unfolding insert_addr
insert_addr-IsAscending a [] h = (tt, tt)
insert_addr-IsAscending a (x ∷ xs) (hx, h) = elim (Bool-cases (ltb a x)) [
  | inl before ↦ let l : a < x = ground arith in rw before ((l, above_less a x xs l hx), (hx, h))
  | inr after ↦ elim (Bool-cases (a == x)) [
    | inl same ↦ rw (after, same) (hx, h)
    | inr other ↦
        let l : x < a = ground arith in
        rw (after, other) (above-insert_addr a x xs l hx, insert_addr-IsAscending a xs h)
  ]
]

pub admit-IsAscending : (is : List Interface) → IsAscending (admit is)
unfolding admit
admit-IsAscending [] = (tt, tt)
admit-IsAscending (i ∷ is) = elim (Bool-cases (admits i)) [
  | inl passes ↦ rw passes (insert_addr-IsAscending i.addr (admit is) (admit-IsAscending is))
  | inr fails ↦ rw fails (admit-IsAscending is)
]
