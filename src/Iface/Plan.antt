-- ===== src/Iface/Plan.antt =====
-- Admission and planning in crates/tactus/src/iface.rs. An IPv4 address is the number of its 32 bits; a
-- `BTreeSet` is the ascending list of its members; a scan is what the source of interfaces returned, `none`
-- for an error.
use link_wire_rs.Common.{
  ℕ, ◌+◌, ◌*◌, ◌/◌, ◌^◌, List, [], ◌∷◌, Option, none, some, Bool, true, false, not, ◌&&◌, ltb, ◌==◌,
  if◌then◌else◌,
}
use link_wire_rs.Common.Maps.{retain, any}

pub record Interface : Type 0 where
  pub addr : ℕ
  pub up : Bool
  pub loopback : Bool
  pub multicast : Bool
  pub point_to_point : Bool

-- 127.0.0.1
abbrev pub localhost : ℕ
localhost = 127 * 2 ^ 24 + 1

abbrev pub contains : List ℕ → ℕ → Bool
contains xs a = any (λ x. x == a) xs

unfoldable pub insert_addr : ℕ → List ℕ → List ℕ
insert_addr a [] = a ∷ []
insert_addr a (x ∷ xs) =
    let rest = insert_addr a xs in
    if ltb a x then a ∷ x ∷ xs else if a == x then x ∷ xs else x ∷ rest

-- The filter: `is_loopback` is 127.0.0.0/8, `is_unspecified` is 0.0.0.0.
unfoldable pub admits : Interface → Bool
admits i =
    i.up
    && i.multicast
    && not i.point_to_point
    && not i.loopback
    && not (i.addr / 2 ^ 24 == 127)
    && not (i.addr == 0)

unfoldable pub admit : List Interface → List ℕ
admit [] = localhost ∷ []
admit (i ∷ is) = let out = admit is in if admits i then insert_addr i.addr out else out

pub record GatewayDiff : Type 0 where
  pub added : List ℕ
  pub removed : List ℕ

abbrev pub is_nil : List ℕ → Bool
is_nil [] = true
is_nil (x ∷ xs) = false

unfoldable pub is_empty : GatewayDiff → Bool
is_empty d = is_nil d.added && is_nil d.removed

unfoldable pub difference : List ℕ → List ℕ → List ℕ
difference xs ys = retain (λ x. not (contains ys x)) xs

unfoldable pub diff : List ℕ → List ℕ → GatewayDiff
diff current wanted = record {
  added = difference wanted current;
  removed = difference current wanted;
}

unfoldable pub plan : Option (List Interface) → List ℕ → GatewayDiff
plan (some list) current = diff current (admit list)
plan none current = record { added = []; removed = [] }

-- An error counts as no interface.
unfoldable pub initial : Option (List Interface) → List ℕ
initial (some list) = admit list
initial none = admit []
