-- ===== src/Sync/RoundTrip.antt =====
-- Pings and pongs that were encoded (crates/tactus-wire/src/sync.rs) decode to what they carry.
use link_wire_rs.Common.{
  ℕ, suc, ◌≤◌, ◌<◌, ◌%◌, ◌^◌, ◌≡◌, refl, ◌∙◌, List, [], ◌∷◌, ◌++◌, Option, none, some, length,
  length-append, append-nil, le→ltb, arith,
}
use link_wire_rs.Common.Bytes.{InI64, bytes_eqb_self, length-to_be_bytes, to_be_bytes}
use link_wire_rs.Common.Int.{ℤ}
use link_wire_rs.Codec.Error.{ok, ◌>>=◌}
use link_wire_rs.Codec.Reader
use link_wire_rs.Codec.Entries
use link_wire_rs.Codec.Entries.{Entry, scan}
use link_wire_rs.Codec.EntryBytes.{entry_bytes}
use link_wire_rs.Codec.ReadWrite.{i64_bytes, i64_exact, id_exact, take_exact, u8_exact}
use link_wire_rs.Codec.Scan.{scan-nil, scan-entry_bytes, next-entry_bytes}
use link_wire_rs.Types.Id
use link_wire_rs.Types.Id.{LinkId, IsId}
use link_wire_rs.Types.RoundTrip.{decode_exact}
use link_wire_rs.Sync.Message.{Ping, Pong, ping, pong, magic, max_ping_payload, ht, gt, pgt, sess}
use link_wire_rs.Sync.Encode.{
  encode_ping, encode_pong, ping_payload, prev_bytes, encode_ping_lem, encode_pong_lem,
}
use link_wire_rs.Sync.Decode.{
  Times, no_times, times_step, decode_ping, Leading, leading_step, leading_loop, decode_pong,
  decode_payload, decode, parse_echo,
}

-- `InI64`, where there is a value.
abbrev pub AllI64 : Option ℤ → Type 0
AllI64 none = Unit
AllI64 (some v) = InI64 v

-- Behind the magic and the type the decoder hands the rest to the type's own decoder.
decode-prefix :
    (msg_type : ℕ) (payload : List ℕ)
    → decode (magic ++ (msg_type ∷ payload)) ≡ decode_payload msg_type payload
unfolding decode
decode-prefix msg_type payload = rw (
  le→ltb (length (magic ++ (msg_type ∷ payload))) 9 (omega arith),
  take_exact 8 magic (msg_type ∷ payload) refl,
  bytes_eqb_self magic,
  u8_exact msg_type payload,
)

length-i64_bytes : (z : ℤ) → length (i64_bytes z) ≡ 8
length-i64_bytes z = length-to_be_bytes 8 _

decode-i64 :
    (key : ℕ) (z : ℤ)
    → InI64 z
    → Entries.decode (record { key = key; value = i64_bytes z }) Reader.i64 ≡ ok z
decode-i64 key z h = decode_exact key (i64_bytes z) Reader.i64 z (i64_exact z [] h)

decode-LinkId :
    (key : ℕ) (i : LinkId)
    → length i ≡ 8
    → Entries.decode (record { key = key; value = i }) Id.read ≡ ok i
decode-LinkId key i h = decode_exact key i Id.read i (unfold Id.read in id_exact i [] h)

times_step-ht :
    (s : Times) (v : ℤ)
    → InI64 v
    → times_step s (record { key = ht; value = i64_bytes v }) ≡ ok (record s { host_time = some v })
unfolding times_step
times_step-ht s v h = rw (decode-i64 ht v h)

times_step-pgt :
    (s : Times) (v : ℤ)
    → InI64 v
    → times_step s (record { key = pgt; value = i64_bytes v })
      ≡ ok (record s { prev_ghost_time = some v })
unfolding times_step
times_step-pgt s v h = rw (decode-i64 pgt v h)

-- The entry of an `i64` fits its size field.
i64-fits : (z : ℤ) → length (i64_bytes z) < 2 ^ 32
i64-fits z = omega (arith, length-i64_bytes z)

scan-prev_bytes :
    (s : Times) (prev : Option ℤ)
    → AllI64 prev
    → s.prev_ghost_time ≡ none
    → scan times_step s (prev_bytes prev) ≡ ok (record s { prev_ghost_time = prev })
scan-prev_bytes s none k e = rw (← e) (scan-nil times_step s)
scan-prev_bytes s (some v) k e = rw (← append-nil (prev_bytes (some v))) (
    scan-entry_bytes times_step s pgt (i64_bytes v) [] (omega arith) (i64-fits v)
    ∙ rw (times_step-pgt s v k) (scan-nil times_step _))

scan-ping_payload :
    (host_time : ℤ) (prev : Option ℤ)
    → InI64 host_time
    → AllI64 prev
    → scan times_step no_times (ping_payload host_time prev)
      ≡ ok (record { host_time = some host_time; prev_ghost_time = prev })
scan-ping_payload host_time prev h k =
    scan-entry_bytes times_step no_times ht (i64_bytes host_time) (prev_bytes prev) (omega arith)
      (i64-fits host_time)
    ∙ rw (times_step-ht no_times host_time h) (scan-prev_bytes _ prev k refl)

-- A ping decodes to its times, and its payload is kept verbatim.
pub decode-encode_ping :
    (host_time : ℤ) (prev : Option ℤ)
    → InI64 host_time
    → AllI64 prev
    → decode (encode_ping host_time prev)
      ≡ ok (
          ping (record {
            host_time = some host_time;
            prev_ghost_time = prev;
            payload = ping_payload host_time prev;
          }))
unfolding decode_payload decode_ping
decode-encode_ping host_time prev h k =
    rw (encode_ping_lem, decode-prefix, scan-ping_payload host_time prev h k)

leading_step-sess :
    (s : Leading) (i : LinkId)
    → length i ≡ 8
    → leading_step s (record { key = sess; value = i }) ≡ ok (record s { session = some i })
unfolding leading_step
leading_step-sess s i h = rw (decode-LinkId sess i h)

leading_step-gt :
    (s : Leading) (v : ℤ)
    → InI64 v
    → leading_step s (record { key = gt; value = i64_bytes v })
      ≡ ok (record s { ghost_time = some v })
unfolding leading_step
leading_step-gt s v h = rw (decode-i64 gt v h)

leading_loop-zero : (s : Leading) (r : List ℕ) → leading_loop 0 s r ≡ ok s
unfolding leading_loop
leading_loop-zero s r = refl

leading_loop-entry_bytes :
    (n : ℕ) (s : Leading) (key : ℕ) (v rest : List ℕ)
    → key < 2 ^ 32
    → length v < 2 ^ 32
    → leading_loop (suc n) s (entry_bytes key v ++ rest) ≡ (
        leading_step s (record { key = key; value = v }) >>= λ s'.
        leading_loop n (record s' { echo = rest }) rest)
unfolding leading_loop
leading_loop-entry_bytes n s key v rest hk hv = rw (next-entry_bytes key v rest hk hv, leading_loop)

-- A pong decodes to its session, its ghost time and, whatever bytes it is, its echo.
pub decode-encode_pong :
    (session : LinkId) (ghost_time : ℤ) (echo : List ℕ)
    → length session ≡ 8
    → InI64 ghost_time
    → decode (encode_pong session ghost_time echo)
      ≡ ok (pong (record { session = session; ghost_time = ghost_time; echo = echo }))
unfolding decode_payload decode_pong
decode-encode_pong session ghost_time echo hs hg = rw (
  encode_pong_lem,
  decode-prefix,
  leading_loop-entry_bytes 1 _ sess session _ (omega arith) (omega arith),
  leading_step-sess _ session hs,
  leading_loop-entry_bytes 0 _ gt (i64_bytes ghost_time) echo (omega arith) (i64-fits ghost_time),
  leading_step-gt _ ghost_time hg,
  leading_loop-zero,
)

-- One round of a measurement, of times that fit an `i64` and a session of eight bytes: the
-- responder decodes the initiator's ping and echoes its payload in a pong; the initiator decodes
-- that pong to the session and the ghost time, and its echo to the two times that it had sent.
pub measurement_round :
    (host_time : ℤ) (prev : Option ℤ) (session : LinkId) (ghost_time : ℤ)
    → InI64 host_time
    → AllI64 prev
    → length session ≡ 8
    → InI64 ghost_time
    → (received : Ping) × (answer : Pong) × (decode (encode_ping host_time prev)
        ≡ ok (ping received))
      × (decode (encode_pong session ghost_time received.payload) ≡ ok (pong answer))
      × (answer.session ≡ session)
      × (answer.ghost_time ≡ ghost_time)
      × (parse_echo answer.echo ≡ ok (some host_time, prev))
unfolding parse_echo
measurement_round host_time prev session ghost_time hh hp hs hg = (
  record {
    host_time = some host_time;
    prev_ghost_time = prev;
    payload = ping_payload host_time prev;
  },
  record { session = session; ghost_time = ghost_time; echo = ping_payload host_time prev },
  decode-encode_ping host_time prev hh hp,
  decode-encode_pong session ghost_time (ping_payload host_time prev) hs hg,
  refl,
  refl,
  rw (scan-ping_payload host_time prev hh hp),
)

length-entry_i64 : (key : ℕ) (z : ℤ) → length (entry_bytes key (i64_bytes z)) ≡ 16
length-entry_i64 key z = rw (
  length-append (to_be_bytes 4 key),
  length-to_be_bytes 4 key,
  length-append (to_be_bytes 4 (length (i64_bytes z) % 2 ^ 32)),
  length-to_be_bytes 4 (length (i64_bytes z) % 2 ^ 32),
  length-i64_bytes z,
)

-- Every ping's payload is within what a responder answers: 16 bytes, or 32 with a previous time.
pub length-ping_payload :
    (host_time : ℤ) (prev : Option ℤ) → length (ping_payload host_time prev) ≤ max_ping_payload
length-ping_payload host_time none = rw append-nil (omega (arith, length-entry_i64 ht host_time))
length-ping_payload host_time (some v) = omega (
  arith,
  length-append (entry_bytes ht (i64_bytes host_time)) (entry_bytes pgt (i64_bytes v)),
  length-entry_i64 ht host_time,
  length-entry_i64 pgt v,
)
