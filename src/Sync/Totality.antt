-- ===== src/Sync/Totality.antt =====
-- `decode` of crates/tactus-wire/src/sync.rs on any datagram at all.
use link_wire_rs.Common.{
  ℕ, zero, suc, ◌<◌, ◌≡◌, ◌≢◌, ◌∙◌, List, ◌∷◌, ◌++◌, Option, none, some, length, length-append, ltb,
  ◌==◌, not, arith, lt→ltb, le→ltb, not-eq-false, ◌⊎◌, inl, inr,
}
use link_wire_rs.Common.Bytes.{bytes_eqb, bytes_eqb_iff, bytes_eqb_ne}
use link_wire_rs.Common.Int.{ℤ}
use link_wire_rs.Codec.Error.{Error, ok, err, reject_if, >>=-eq-ok, Ends, Ends->>=}
use link_wire_rs.Codec.Reader
use link_wire_rs.Codec.Reader.{Reader}
use link_wire_rs.Codec.Entries
use link_wire_rs.Codec.Entries.{Entry, scan}
use link_wire_rs.Codec.Ending.{ends_rules, Ends-if, id-Ends, parse-Ends, next_cases}
use link_wire_rs.Codec.Scan.{scan-Ends}
use link_wire_rs.Codec.ReadWrite.{take_exact}
use link_wire_rs.Codec.Inversion.{reject_if_inv, take_inv, u8_inv}
use link_wire_rs.Types.Id
use link_wire_rs.Types.Id.{LinkId}
use link_wire_rs.Sync.Message.{Message, magic, type_ping, type_pong}
use link_wire_rs.Sync.Decode.{
  Times, no_times, times_step, decode_ping, Leading, leading_step, leading_loop, finish_pong,
  decode_pong, decode_payload, decode, parse_echo,
}

times_step-Ends : (s : Times) (e : Entry) → Ends (times_step s e)
unfolding times_step
times_step-Ends s e = search ends_rules

read_id-Ends : (r : Reader) → Ends (Id.read r)
unfolding Id.read
read_id-Ends r = id-Ends r

leading_step-Ends : (s : Leading) (e : Entry) → Ends (leading_step s e)
unfolding leading_step
leading_step-Ends s e = search (ends_rules, read_id-Ends)

leading_loop-Ends : (n : ℕ) (s : Leading) (r : Reader) → Ends (leading_loop n s r)
unfolding leading_loop
leading_loop-Ends zero s r = tt
leading_loop-Ends (suc n) s r = elim (next_cases r) [
  | inl e ↦ rw (e, leading_loop) tt
  | inr e ↦
      rw (e, leading_loop)
        (Ends->>= (Entries.parse r) _ (parse-Ends r) λ p.
          Ends->>= (leading_step s p.0) _ (leading_step-Ends s p.0)
            λ s'. leading_loop-Ends n (record s' { echo = p.1 }) p.1)
]

finish_pong-Ends : (echo : List ℕ) (i : Option LinkId) (t : Option ℤ) → Ends (finish_pong echo i t)
finish_pong-Ends echo (some i) (some t) = tt
finish_pong-Ends echo (some i) none = tt
finish_pong-Ends echo none t = tt

decode_payload-Ends : (msg_type : ℕ) (payload : List ℕ) → Ends (decode_payload msg_type payload)
unfolding decode_payload decode_ping decode_pong
decode_payload-Ends msg_type payload =
    Ends-if (msg_type == type_ping) _ _
      (Ends->>= (scan times_step no_times payload) _
        (scan-Ends times_step no_times payload times_step-Ends) (λ s. tt))
      (Ends-if (msg_type == type_pong) _ _
        (Ends->>= (leading_loop 2 _ payload) _ (leading_loop-Ends 2 _ payload)
          (λ s. finish_pong-Ends s.echo s.session s.ghost_time))
        tt)

-- The decoder returns a message or an error on every datagram: no loop runs out of fuel.
pub decode-Ends_sync : (datagram : List ℕ) → Ends (decode datagram)
unfolding decode
decode-Ends_sync datagram = search (ends_rules, decode_payload-Ends)

-- So does the parser of an echo.
pub parse_echo-Ends : (echo : List ℕ) → Ends (parse_echo echo)
unfolding parse_echo
parse_echo-Ends echo =
    Ends->>= (scan times_step no_times echo) _ (scan-Ends times_step no_times echo times_step-Ends)
      (λ s. tt)

-- Below nine bytes a datagram is truncated.
pub decode_short : (datagram : List ℕ) → length datagram < 9 → decode datagram ≡ err Error.truncated
unfolding decode
decode_short datagram h = rw (lt→ltb (length datagram) 9 h)

-- With any other first eight bytes it is refused for its magic.
pub decode_foreign :
    (head rest : List ℕ)
    → length head ≡ 8
    → 0 < length rest
    → head ≢ magic
    → decode (head ++ rest) ≡ err Error.bad_magic
unfolding decode
decode_foreign head rest h k ne = rw (
  le→ltb (length (head ++ rest)) 9 (omega (arith, length-append head rest)),
  take_exact 8 head rest h,
  bytes_eqb_ne head magic ne,
)

decode_payload_cases :
    (msg_type : ℕ) (payload : List ℕ) (m : Message)
    → decode_payload msg_type payload ≡ ok m
    → ((msg_type ≡ type_ping) × (decode_ping payload ≡ ok m))
      ⊎ ((msg_type ≡ type_pong) × (decode_pong payload ≡ ok m))
unfolding decode_payload
decode_payload_cases msg_type payload m h = ground arith

-- A datagram that decodes is the magic, the type of a ping or a pong, and a payload which that type's
-- decoder accepts.
pub decode_accepts :
    (datagram : List ℕ) (m : Message)
    → decode datagram ≡ ok m
    → (msg_type : ℕ) × (payload : List ℕ) × (datagram ≡ magic ++ (msg_type ∷ payload))
      × (((msg_type ≡ type_ping) × (decode_ping payload ≡ ok m))
          ⊎ ((msg_type ≡ type_pong) × (decode_pong payload ≡ ok m)))
unfolding decode
decode_accepts datagram m h =
    let (u, long, h1) = >>=-eq-ok (reject_if (ltb (length datagram) 9) Error.truncated) _ h in
    let (p, taken, h2) = >>=-eq-ok (Reader.take 8 datagram) _ h1 in
    let (v, same, h3) = >>=-eq-ok (reject_if (not (bytes_eqb p.0 magic)) Error.bad_magic) _ h2 in
    let (q, typed, h4) = >>=-eq-ok (Reader.u8 p.1) _ h3 in
    let same_magic : p.0 ≡ magic =
      (bytes_eqb_iff p.0 magic).0 (not-eq-false _ (reject_if_inv _ _ same)) in
    let payload_at : p.1 ≡ q.0 ∷ q.1 = u8_inv p.1 q.0 q.1 typed in
    (
      q.0,
      q.1,
      (take_inv 8 datagram p.0 p.1 taken).0 ∙ rw (same_magic, payload_at),
      decode_payload_cases q.0 q.1 m h4,
    )
