-- ===== src/Iface/Sets.antt =====
-- What the plans of crates/tactus/src/iface.rs come to.
use link_wire_rs.Common.{
  ℕ, ◌≡◌, refl, ◌∙◌, List, [], ◌∷◌, Bool, true, false, not, ◌&&◌, ◌||◌, Bool-cases, inl, inr,
  ==_iff, ◌==◌, if◌then◌else◌, arith,
}
use link_wire_rs.Common.Maps.{any}
use link_wire_rs.Iface.Plan.{
  Interface, localhost, contains, insert_addr, admits, admit, difference, diff,
}

contains-insert_addr :
    (a b : ℕ) (xs : List ℕ) → contains (insert_addr a xs) b ≡ (a == b || contains xs b)
unfolding insert_addr
contains-insert_addr a b [] = refl
contains-insert_addr a b (x ∷ xs) = ground (arith, contains-insert_addr a b xs)

-- An address is admitted if it is 127.0.0.1 or that of an interface which passes the filter, and only then.
pub admit_lem :
    (is : List Interface) (a : ℕ)
    → contains (admit is) a ≡ (any (λ i. admits i && i.addr == a) is || localhost == a)
unfolding admit
admit_lem [] a = ground arith
admit_lem (i ∷ is) a = elim (Bool-cases (admits i)) [
  | inl passes ↦
      rw (passes, contains-insert_addr i.addr a (admit is), admit_lem is a) (ground arith)
  | inr fails ↦ rw (fails, admit_lem is a)
]

contains_step :
    (x a : ℕ) (in_xs : Bool) (ys : List ℕ)
    → (if not (contains ys x)
        then x == a || (in_xs && not (contains ys a))
        else in_xs && not (contains ys a))
      ≡ ((x == a || in_xs) && not (contains ys a))
contains_step x a in_xs ys = elim (Bool-cases (x == a)) [
  | inr other ↦ rw other (elim (Bool-cases (contains ys x)) [ inl i ↦ rw i | inr o ↦ rw o ])
  | inl same ↦
      rw ((==_iff x a).0 same, (==_iff a a).1 refl)
        (elim (Bool-cases (contains ys a)) [ inl i ↦ rw i (ground arith) | inr o ↦ rw o ])
]

contains-if :
    (b : Bool) (x a : ℕ) (xs ys : List ℕ)
    → contains (if b then x ∷ xs else ys) a ≡ (if b then x == a || contains xs a else contains ys a)
contains-if true x a xs ys = refl
contains-if false x a xs ys = refl

contains-difference :
    (xs ys : List ℕ) (a : ℕ)
    → contains (difference xs ys) a ≡ (contains xs a && not (contains ys a))
unfolding difference
contains-difference [] ys a = refl
contains-difference (x ∷ xs) ys a =
    contains-if (not (contains ys x)) x a _ _
    ∙ rw (contains-difference xs ys a) (contains_step x a (contains xs a) ys)

bools :
    (c w : Bool)
    → (w ≡ ((c && not (c && not w)) || (w && not c)))
      × (((w && not c) && c) ≡ false)
      × (((c && not w) && w) ≡ false)
bools true true = (refl, refl, refl)
bools true false = (refl, refl, refl)
bools false true = (refl, refl, refl)
bools false false = (refl, refl, refl)

-- Closing what a plan removes and opening what it adds leads from the open gateways to the wanted ones,
-- and nothing is added that is open, or removed that is wanted.
pub diff_lem :
    (current wanted : List ℕ) (a : ℕ)
    → (contains wanted a ≡ (
        (contains current a && not (contains (diff current wanted).removed a))
        || contains (diff current wanted).added a))
      × ((contains (diff current wanted).added a && contains current a) ≡ false)
      × ((contains (diff current wanted).removed a && contains wanted a) ≡ false)
unfolding diff
diff_lem current wanted a =
    rw (contains-difference wanted current a, contains-difference current wanted a)
      (bools (contains current a) (contains wanted a))
