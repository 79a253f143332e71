-- ===== src/Types/Id.antt =====
-- `Id` of crates/tactus-wire/src/types.rs: eight bytes that name a node, a session or a channel.
-- Equality and order are the derived ones, byte by byte.
use link_wire_rs.Common.{
  ℕ, ◌≡◌, refl, ◌↔◌, List, [], ◌∷◌, Bool, true, false, length, ltb, ◌==◌, if◌then◌else◌, arith,
}
use link_wire_rs.Common.Bytes.{AreBytes, bytes_eqb, bytes_eqb_iff}
use link_wire_rs.Codec.Error.{Result}
use link_wire_rs.Codec.Reader
use link_wire_rs.Codec.Reader.{Reader}
use link_wire_rs.Codec.Writer
use link_wire_rs.Codec.Writer.{Writer}

abbrev pub LinkId : Type 0
LinkId = List ℕ

-- What the array type `[u8; 8]` says.
abbrev pub IsId : LinkId → Type 0
IsId i = (length i ≡ 8) × AreBytes i

unfoldable pub read : Reader → Result (LinkId × Reader)
read r = Reader.id r

unfoldable pub write : LinkId → Writer → Writer
write i w = Writer.id i w

unfoldable pub eqb : LinkId → LinkId → Bool
eqb i j = bytes_eqb i j

unfoldable pub lessb : LinkId → LinkId → Bool
lessb as' [] = false
lessb [] (b ∷ bs) = true
lessb (a ∷ as') (b ∷ bs) =
    let behind = lessb as' bs in if ltb a b then true else if a == b then behind else false

pub eqb_iff : (i j : LinkId) → (eqb i j ≡ true) ↔ (i ≡ j)
unfolding eqb
eqb_iff i j = bytes_eqb_iff i j

pub eqb_self : (i : LinkId) → eqb i i ≡ true
eqb_self i = (eqb_iff i i).1 refl

-- The order is total and strict: of two ids exactly one of `<`, `=` and `>` holds.
pub lessb_irrefl : (i : LinkId) → lessb i i ≡ false
unfolding lessb
lessb_irrefl [] = refl
lessb_irrefl (a ∷ as') = ground (arith, lessb_irrefl as')

pub lessb_asymm : (i j : LinkId) → lessb i j ≡ true → lessb j i ≡ false
unfolding lessb
lessb_asymm [] [] h = refl
lessb_asymm [] (b ∷ bs) h = refl
lessb_asymm (a ∷ as') [] h = cc
lessb_asymm (a ∷ as') (b ∷ bs) h = ground (arith, lessb_asymm as' bs)

-- Of two ids that differ one is less than the other.
pub lessb_total : (i j : LinkId) → eqb i j ≡ false → lessb i j ≡ false → lessb j i ≡ true
unfolding lessb eqb bytes_eqb
lessb_total [] [] h k = cc
lessb_total [] (b ∷ bs) h k = cc
lessb_total (a ∷ as') [] h k = refl
lessb_total (a ∷ as') (b ∷ bs) h k = ground (arith, lessb_total as' bs)
