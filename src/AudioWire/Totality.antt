-- ===== src/AudioWire/Totality.antt =====
-- `decode` of crates/tactus-wire/src/audio.rs on any datagram at all.
use link_wire_rs.Common.{ℕ, zero, suc, List, [], Option, none, some}
use link_wire_rs.Common.Int.{ℤ}
use link_wire_rs.Codec.Error.{Error, Ends, Ends->>=}
use link_wire_rs.Codec.Reader
use link_wire_rs.Codec.Reader.{Reader}
use link_wire_rs.Codec.Entries.{Entry, scan}
use link_wire_rs.Codec.Ending.{
  ends_rules, Ends-if, id-Ends, string-Ends, u16-Ends, u32-Ends, u64-Ends, i64-Ends,
}
use link_wire_rs.Codec.Scan.{scan-Ends}
use link_wire_rs.Types.Id
use link_wire_rs.Types.Id.{LinkId}
use link_wire_rs.AudioWire.Decode.{
  ok_or, channels_loop, ids_loop, read_channels, read_ids, Announcement, no_announcement,
  announcement_step, decode_announcement, byes_step, decode_byes, pong_step, decode_pong,
  request_step, decode_request, chunks_loop, decode_audio_buffer, decode_message, decode,
}

read_id-Ends : (r : Reader) → Ends (Id.read r)
unfolding Id.read
read_id-Ends r = id-Ends r

ok_or-Ends : {A : Type 0} (e : Error) (o : Option A) → Ends (ok_or e o)
ok_or-Ends e none = tt
ok_or-Ends e (some a) = tt

channels_loop-Ends : (n : ℕ) (r : Reader) → Ends (channels_loop n r)
unfolding channels_loop
channels_loop-Ends zero r = tt
channels_loop-Ends (suc n) r = Ends-if (Reader.is_empty r) _ _ tt (
    Ends->>= (Reader.string r) _ (string-Ends r) λ p.
      Ends->>= (Id.read p.1) _ (read_id-Ends p.1)
        λ q. Ends->>= (channels_loop n q.1) _ (channels_loop-Ends n q.1) (λ t. tt))

ids_loop-Ends : (n : ℕ) (r : Reader) → Ends (ids_loop n r)
unfolding ids_loop
ids_loop-Ends zero r = tt
ids_loop-Ends (suc n) r = Ends-if (Reader.is_empty r) _ _ tt (
    Ends->>= (Id.read r) _ (read_id-Ends r)
      λ q. Ends->>= (ids_loop n q.1) _ (ids_loop-Ends n q.1) (λ t. tt))

read_channels-Ends : (r : Reader) → Ends (read_channels r)
unfolding read_channels
read_channels-Ends r = Ends->>= (Reader.u32 r) _ (u32-Ends r) (λ p. channels_loop-Ends p.0 p.1)

read_ids-Ends : (r : Reader) → Ends (read_ids r)
unfolding read_ids
read_ids-Ends r = Ends->>= (Reader.u32 r) _ (u32-Ends r) (λ p. ids_loop-Ends p.0 p.1)

chunks_loop-Ends : (n : ℕ) (r : Reader) → Ends (chunks_loop n r)
unfolding chunks_loop
chunks_loop-Ends zero r = tt
chunks_loop-Ends (suc n) r = Ends->>= (Reader.u64 r) _ (u64-Ends r) λ p.
    Ends->>= (Reader.u16 p.1) _ (u16-Ends p.1) λ q. Ends->>= (Reader.i64 q.1) _ (i64-Ends q.1) λ s.
      Ends->>= (Reader.i64 s.1) _ (i64-Ends s.1)
        λ t. Ends->>= (chunks_loop n t.1) _ (chunks_loop-Ends n t.1) (λ u. tt)

announcement_step-Ends : (s : Announcement) (e : Entry) → Ends (announcement_step s e)
unfolding announcement_step
announcement_step-Ends s e = search (ends_rules, read_id-Ends, read_channels-Ends) depth 9

byes_step-Ends : (s : List LinkId) (e : Entry) → Ends (byes_step s e)
unfolding byes_step
byes_step-Ends s e = search (ends_rules, read_ids-Ends)

pong_step-Ends : (s : Option ℤ) (e : Entry) → Ends (pong_step s e)
unfolding pong_step
pong_step-Ends s e = search ends_rules

request_step-Ends : (s : Option LinkId) (e : Entry) → Ends (request_step s e)
unfolding request_step
request_step-Ends s e = search (ends_rules, read_id-Ends)

announcement-Ends : (payload : List ℕ) → Ends (decode_announcement payload)
unfolding decode_announcement
announcement-Ends payload =
    Ends->>= (scan announcement_step no_announcement payload) _
      (scan-Ends announcement_step no_announcement payload announcement_step-Ends)
      λ s. Ends->>= (ok_or _ s.session) _ (ok_or-Ends _ s.session) (λ i. tt)

byes-Ends : (payload : List ℕ) → Ends (decode_byes payload)
unfolding decode_byes
byes-Ends payload =
    Ends->>= (scan byes_step [] payload) _ (scan-Ends byes_step [] payload byes_step-Ends) (λ s. tt)

pong-Ends : (payload : List ℕ) → Ends (decode_pong payload)
unfolding decode_pong
pong-Ends payload =
    Ends->>= (scan pong_step none payload) _ (scan-Ends pong_step none payload pong_step-Ends)
      λ s. Ends->>= (ok_or _ s) _ (ok_or-Ends _ s) (λ i. tt)

request-Ends : (msg_type : ℕ) (payload : List ℕ) → Ends (decode_request msg_type payload)
unfolding decode_request
request-Ends msg_type payload =
    Ends->>= (scan request_step none payload) _
      (scan-Ends request_step none payload request_step-Ends)
      λ s. Ends->>= (ok_or _ s) _ (ok_or-Ends _ s) (λ i. search ends_rules)

buffer-Ends : (payload : List ℕ) → Ends (decode_audio_buffer payload)
unfolding decode_audio_buffer
buffer-Ends payload = search (ends_rules, read_id-Ends, chunks_loop-Ends) depth 20

decode_message-Ends : (msg_type : ℕ) (payload : List ℕ) → Ends (decode_message msg_type payload)
unfolding decode_message
decode_message-Ends msg_type payload =
    search (ends_rules, announcement-Ends, byes-Ends, pong-Ends, request-Ends, buffer-Ends) depth 12

-- The decoder returns a frame or an error on every datagram: no loop runs out of fuel.
decode-Ends_audio : (datagram : List ℕ) → Ends (decode datagram)
unfolding decode
decode-Ends_audio datagram = search (ends_rules, read_id-Ends, decode_message-Ends) depth 12
