-- ===== src/Codec/Scan.antt =====
-- The loop over the entries of a payload (crates/tactus-wire/src/codec.rs): it ends on every input,
-- and on entries that were written it makes one step for each.
use link_wire_rs.Common.{
  ℕ, zero, suc, ◌+◌, ◌<◌, ◌≤◌, ◌%◌, ◌^◌, ◌≡◌, refl, sym, ap, ◌∙◌, List, [], ◌∷◌, ◌++◌, some, length,
  length-append, append_assoc, arith, inl, inr,
}
use native.Mathlib.Nat.{mod-eq_of_lt}
use link_wire_rs.Common.Bytes.{to_be_bytes, length-to_be_bytes}
use link_wire_rs.Codec.Error.{Result, ok, ◌>>=◌, >>=-eq-ok, >>=-ap, Ends, Ends->>=, Ends->>=-ok}
use link_wire_rs.Codec.Reader
use link_wire_rs.Codec.Reader.{Reader}
use link_wire_rs.Codec.Entries
use link_wire_rs.Codec.Entries.{Entry, scan}
use link_wire_rs.Codec.ReadWrite.{take_cases, take_exact, u32_exact}
use link_wire_rs.Codec.EntryBytes.{entry_bytes}
use link_wire_rs.Codec.Ending.{parse-Ends}

take-length :
    (n : ℕ) (r : Reader) (xs : List ℕ) (r' : Reader)
    → Reader.take n r ≡ ok (xs, r')
    → length r' + n ≡ length r
take-length n r xs r' e = elim (take_cases n r) [
  | inl (short, f) ↦ absurd (cc)
  | inr (ys, s, f, split, len) ↦ ground (arith, ap length split, length-append ys s)
]

u32-length :
    (r : Reader) (v : ℕ) (r' : Reader) → Reader.u32 r ≡ ok (v, r') → length r' + 4 ≡ length r
unfolding Reader.u32
u32-length r v r' h =
    let (p, taken, h') = >>=-eq-ok (Reader.take 4 r) _ h in
    ground (arith, take-length 4 r p.0 p.1 taken)

-- A parsed entry took eight bytes at least.
pub parse-length :
    (r : Reader) (e : Entry) (r' : Reader) → Entries.parse r ≡ ok (e, r') → length r' + 8 ≤ length r
unfolding Entries.parse
parse-length r e r' h =
    let (p, key, h1) = >>=-eq-ok (Reader.u32 r) _ h in
    let (q, size, h2) = >>=-eq-ok (Reader.u32 p.1) _ h1 in
    let (t, value, h3) = >>=-eq-ok (Reader.take q.0 q.1) _ h2 in
    ground (
      arith,
      u32-length r p.0 p.1 key,
      u32-length p.1 q.0 q.1 size,
      take-length q.0 q.1 t.0 t.1 value,
    )

next_nonempty : (r : Reader) → 0 < length r → Entries.next r ≡ some (Entries.parse r)
unfolding Entries.next
next_nonempty [] h = absurd (omega arith)
next_nonempty (b ∷ bs) h = refl

module _ {ℓ} {S : Type ℓ} (step : S → Entry → Result S) where
  -- One round of the loop, on a reader that is not empty.
  scan_loop-suc :
      (n : ℕ) (s : S) (r : Reader)
      → 0 < length r
      → Entries.scan_loop step (suc n) s r
        ≡ (Entries.parse r >>= λ p. step s p.0 >>= λ s'. Entries.scan_loop step n s' p.1)
  unfolding Entries.scan_loop
  scan_loop-suc n s r h = rw (next_nonempty r h, Entries.scan_loop)

  scan_loop-nil : (n : ℕ) (s : S) → Entries.scan_loop step (suc n) s [] ≡ ok s
  unfolding Entries.scan_loop Entries.next
  scan_loop-nil n s = refl

  -- Any fuel above the length gives the same result.
  scan_loop-fuel :
      (n m : ℕ) (s : S) (r : Reader)
      → length r < n
      → length r < m
      → Entries.scan_loop step n s r ≡ Entries.scan_loop step m s r
  scan_loop-fuel zero m s r h k = absurd (omega arith)
  scan_loop-fuel (suc n) zero s r h k = absurd (omega arith)
  scan_loop-fuel (suc n) (suc m) s [] h k = scan_loop-nil n s ∙ sym (scan_loop-nil m s)
  scan_loop-fuel (suc n) (suc m) s (b ∷ bs) h k =
      rw (scan_loop-suc n s (b ∷ bs) (omega arith), scan_loop-suc m s (b ∷ bs) (omega arith))
        (>>=-ap (Entries.parse (b ∷ bs)) _ _ λ p parsed. >>=-ap (step s p.0) _ _ λ s' _.
          scan_loop-fuel n m s' p.1 (omega (arith, parse-length (b ∷ bs) p.0 p.1 parsed))
            (omega (arith, parse-length (b ∷ bs) p.0 p.1 parsed)))

  pub scan-nil : (s : S) → scan step s [] ≡ ok s
  unfolding scan
  scan-nil s = scan_loop-nil 0 s

  -- One step of the loop on a payload that is not empty.
  pub scan-suc :
      (s : S) (r : Reader)
      → 0 < length r
      → scan step s r ≡ (Entries.parse r >>= λ p. step s p.0 >>= λ s'. scan step s' p.1)
  unfolding scan
  scan-suc s r h =
      scan_loop-suc (length r) s r h
      ∙ >>=-ap (Entries.parse r) _ _ λ p parsed. >>=-ap (step s p.0) _ _ λ s' _.
        scan_loop-fuel (length r) (suc (length p.1)) s' p.1
          (omega (arith, parse-length r p.0 p.1 parsed)) (omega arith)

  scan_loop-Ends :
      ((s : S) (e : Entry) → Ends (step s e))
      → (n : ℕ) (s : S) (r : Reader) → length r < n
      → Ends (Entries.scan_loop step n s r)
  scan_loop-Ends ends zero s r h = absurd (omega arith)
  scan_loop-Ends ends (suc n) s [] h = rw (scan_loop-nil n s) tt
  scan_loop-Ends ends (suc n) s (b ∷ bs) h = rw (scan_loop-suc n s (b ∷ bs) (omega arith)) (
      Ends->>=-ok (Entries.parse (b ∷ bs)) _ (parse-Ends (b ∷ bs)) λ p parsed.
        Ends->>= (step s p.0) _ (ends s p.0)
          λ s'. scan_loop-Ends ends n s' p.1 (omega (arith, parse-length (b ∷ bs) p.0 p.1 parsed)))

  -- Where each step ends, so does the loop, on every payload.
  pub scan-Ends :
      (s : S) (payload : List ℕ)
      → ((s : S) (e : Entry) → Ends (step s e))
      → Ends (scan step s payload)
  unfolding scan
  scan-Ends s payload ends = scan_loop-Ends ends (suc (length payload)) s payload (omega arith)

-- An entry that was written is parsed to its key and value.
parse-entry_bytes :
    (key : ℕ) (v rest : List ℕ)
    → key < 2 ^ 32
    → length v < 2 ^ 32
    → Entries.parse (entry_bytes key v ++ rest) ≡ ok (record { key = key; value = v }, rest)
unfolding Entries.parse
parse-entry_bytes key v rest hk hv = rw (
  append_assoc,
  u32_exact key _ hk,
  mod-eq_of_lt hv,
  append_assoc,
  u32_exact (length v) _ hv,
  take_exact (length v) v rest refl,
)

entry_bytes-pos : (key : ℕ) (v rest : List ℕ) → 0 < length (entry_bytes key v ++ rest)
entry_bytes-pos key v rest = omega (
  arith,
  length-append (entry_bytes key v) rest,
  length-append (to_be_bytes 4 key) (to_be_bytes 4 (length v % 2 ^ 32) ++ v),
  length-to_be_bytes 4 key,
)

pub next-entry_bytes :
    (key : ℕ) (v rest : List ℕ)
    → key < 2 ^ 32
    → length v < 2 ^ 32
    → Entries.next (entry_bytes key v ++ rest) ≡ some (ok (record { key = key; value = v }, rest))
next-entry_bytes key v rest hk hv =
    next_nonempty _ (entry_bytes-pos key v rest) ∙ rw (parse-entry_bytes key v rest hk hv)

-- The loop over a payload that begins with a written entry makes the step for that entry first.
pub scan-entry_bytes {ℓ} :
    {S : Type ℓ} (step : S → Entry → Result S) (s : S) (key : ℕ) (v rest : List ℕ)
    → key < 2 ^ 32
    → length v < 2 ^ 32
    → scan step s (entry_bytes key v ++ rest)
      ≡ (step s (record { key = key; value = v }) >>= λ s'. scan step s' rest)
scan-entry_bytes step s key v rest hk hv =
    scan-suc step s _ (entry_bytes-pos key v rest) ∙ rw (parse-entry_bytes key v rest hk hv)
