-- ===== src/Codec/Entries.antt =====
-- `Entry` and `Entries` of crates/tactus-wire/src/codec.rs, and the loop
-- `for entry in Entries::new(payload) { let entry = entry?; .. }` of the decoders.
use link_wire_rs.Common.{ℕ, zero, suc, List, [], ◌∷◌, Option, none, some, length, if◌then◌else◌}
use link_wire_rs.Codec.Error.{Error, Result, ok, err, stuck, ◌>>=◌}
use link_wire_rs.Codec.Reader
use link_wire_rs.Codec.Reader.{Reader}

pub record Entry : Type 0 where
  pub key : ℕ
  pub value : List ℕ

-- `Entry::decode`: the closure must read the whole value.
unfoldable pub decode {ℓ} : {A : Type ℓ} → Entry → (Reader → Result (A × Reader)) → Result A
decode e f = do
  (v, r) ← f e.value
  if Reader.is_empty r then ok v else err (Error.malformed "entry value not exactly consumed")

-- The closure of `Entries::next`, with the reader behind the entry.
unfoldable pub parse : Reader → Result (Entry × Reader)
parse r = do
  (key, r1) ← Reader.u32 r
  (size, r2) ← Reader.u32 r1
  (value, r3) ← Reader.take size r2
  ok (record { key = key; value = value }, r3)

-- `Entries::next`
unfoldable pub next : Reader → Option (Result (Entry × Reader))
next [] = none
next (b ∷ bs) = some (parse (b ∷ bs))

module _ {ℓ} {S : Type ℓ} (step : S → Entry → Result S) where
  unfoldable pub scan_loop : ℕ → S → Reader → Result S
  scan_loop zero s r = stuck
  scan_loop (suc n) s r = elim (next r) [
    | none ↦ ok s
    | some parsed ↦ (do (e, r') ← parsed; s' ← step s e; scan_loop n s' r')
  ]

  -- The loop over the entries of a payload; an entry takes eight bytes at least.
  unfoldable pub scan : S → List ℕ → Result S
  scan s payload = scan_loop (suc (length payload)) s payload
