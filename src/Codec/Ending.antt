-- ===== src/Codec/Ending.antt =====
-- The reads of crates/tactus-wire/src/codec.rs return a value or an error on every buffer.
use link_wire_rs.Common.{
  ℕ, ◌≡◌, refl, ◌⊎◌, inl, inr, [], ◌∷◌, none, some, Bool, true, false, length, ltb, if◌then◌else◌,
}
use link_wire_rs.Codec.Error.{Error, Result, reject_if, Ends, Ends->>=}
use link_wire_rs.Codec.Reader
use link_wire_rs.Codec.Reader.{Reader}
use link_wire_rs.Codec.Entries
use link_wire_rs.Codec.Entries.{Entry}

pub Ends-if {ℓ} :
    {A : Type ℓ} (b : Bool) (m n : Result A) → Ends m → Ends n → Ends (if b then m else n)
Ends-if true m n h k = h
Ends-if false m n h k = k

pub Ends-reject_if : (b : Bool) (e : Error) → Ends (reject_if b e)
Ends-reject_if true e = tt
Ends-reject_if false e = tt

pub take-Ends : (n : ℕ) (r : Reader) → Ends (Reader.take n r)
unfolding Reader.take
take-Ends n r = Ends-if (ltb (length r) n) _ _ tt tt

pub u8-Ends : (r : Reader) → Ends (Reader.u8 r)
unfolding Reader.u8
u8-Ends r = Ends->>= (Reader.take 1 r) _ (take-Ends 1 r) (λ p. tt)

pub u16-Ends : (r : Reader) → Ends (Reader.u16 r)
unfolding Reader.u16
u16-Ends r = Ends->>= (Reader.take 2 r) _ (take-Ends 2 r) (λ p. tt)

pub u32-Ends : (r : Reader) → Ends (Reader.u32 r)
unfolding Reader.u32
u32-Ends r = Ends->>= (Reader.take 4 r) _ (take-Ends 4 r) (λ p. tt)

pub u64-Ends : (r : Reader) → Ends (Reader.u64 r)
unfolding Reader.u64
u64-Ends r = Ends->>= (Reader.take 8 r) _ (take-Ends 8 r) (λ p. tt)

pub i64-Ends : (r : Reader) → Ends (Reader.i64 r)
unfolding Reader.i64
i64-Ends r = Ends->>= (Reader.u64 r) _ (u64-Ends r) (λ p. tt)

pub bool-Ends : (r : Reader) → Ends (Reader.bool r)
unfolding Reader.bool
bool-Ends r = Ends->>= (Reader.u8 r) _ (u8-Ends r) (λ p. tt)

pub id-Ends : (r : Reader) → Ends (Reader.id r)
unfolding Reader.id
id-Ends r = take-Ends 8 r

pub string-Ends : (r : Reader) → Ends (Reader.string r)
unfolding Reader.string
string-Ends r = Ends->>= (Reader.u32 r) _ (u32-Ends r) (λ p. take-Ends p.0 p.1)

pub parse-Ends : (r : Reader) → Ends (Entries.parse r)
unfolding Entries.parse
parse-Ends r = Ends->>= (Reader.u32 r) _ (u32-Ends r) λ p.
    Ends->>= (Reader.u32 p.1) _ (u32-Ends p.1)
      λ q. Ends->>= (Reader.take q.0 q.1) _ (take-Ends q.0 q.1) (λ t. tt)

-- Either the entries are at their end, or the next one is parsed or refused.
pub next_cases : (r : Reader) → (Entries.next r ≡ none) ⊎ (Entries.next r ≡ some (Entries.parse r))
unfolding Entries.next
next_cases [] = inl refl
next_cases (b ∷ bs) = inr refl

pub decode-Ends {ℓ} :
    {A : Type ℓ} (e : Entry) (f : Reader → Result (A × Reader))
    → ((r : Reader) → Ends (f r))
    → Ends (Entries.decode e f)
unfolding Entries.decode
decode-Ends e f h =
    Ends->>= (f e.value) _ (h e.value) (λ p. Ends-if (Reader.is_empty p.1) _ _ tt tt)

-- Rules by which a decoder is seen to end.
pub ruleset ends_rules = (
  Ends->>=, Ends-if, Ends-reject_if, take-Ends, u8-Ends, u16-Ends, u32-Ends, u64-Ends, i64-Ends,
  bool-Ends, id-Ends, string-Ends, decode-Ends,
)
