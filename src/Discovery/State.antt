-- ===== src/Discovery/State.antt =====
-- The payload of a peer state (crates/tactus-wire/src/discovery.rs) reads back field by field.
use link_wire_rs.Common.{
  ℕ, ◌<◌, ◌^◌, ◌≡◌, refl, ◌∙◌, List, [], ◌++◌, Option, none, some, length, length-append,
  append-nil, arith,
}
use link_wire_rs.Common.Bytes.{length-to_be_bytes}
use link_wire_rs.Codec.Error.{ok}
use link_wire_rs.Codec.Entries.{scan}
use link_wire_rs.Codec.ReadWrite.{i64_bytes, id_exact}
use link_wire_rs.Codec.Scan.{scan-nil, scan-entry_bytes}
use link_wire_rs.Types.Id
use link_wire_rs.Types.Id.{LinkId}
use link_wire_rs.Types.Timeline
use link_wire_rs.Types.Timeline.{Timeline, IsTimeline}
use link_wire_rs.Types.StartStop
use link_wire_rs.Types.StartStop.{StartStopState, IsStartStopState}
use link_wire_rs.Types.Endpoint.{SocketAddr, v4, v6, IsSendable}
use link_wire_rs.Types.RoundTrip.{
  read-Timeline, read-StartStopState, decode-endpoint, decode_exact, timeline_bytes,
  start_stop_bytes, endpoint_bytes, length-endpoint_bytes,
}
use link_wire_rs.Discovery.Message.{
  PeerState, no_state, Opt, IsPeerState, tmln, sess, stst, mep4, mep6, aep4, aep6,
}
use link_wire_rs.Discovery.Decode.{state_step, read_state}
use link_wire_rs.Discovery.Bytes.{opt_bytes, endpoint_entry_bytes, state_bytes}

step-tmln :
    (s : PeerState) (tl : Timeline)
    → IsTimeline tl
    → state_step s (record { key = tmln; value = timeline_bytes tl })
      ≡ ok (record s { timeline = some tl })
unfolding state_step
step-tmln s tl h =
    rw (decode_exact tmln (timeline_bytes tl) Timeline.read tl (read-Timeline tl [] h))

step-sess :
    (s : PeerState) (i : LinkId)
    → length i ≡ 8
    → state_step s (record { key = sess; value = i }) ≡ ok (record s { session = some i })
unfolding state_step Id.read
step-sess s i h = rw (decode_exact sess i Id.read i (id_exact i [] h))

step-stst :
    (s : PeerState) (v : StartStopState)
    → IsStartStopState v
    → state_step s (record { key = stst; value = start_stop_bytes v })
      ≡ ok (record s { start_stop = some v })
unfolding state_step
step-stst s v h =
    rw (decode_exact stst (start_stop_bytes v) StartStop.read v (read-StartStopState v [] h))

step-mep4 :
    (s : PeerState) (ep : SocketAddr)
    → IsSendable ep
    → state_step s (record { key = mep4; value = endpoint_bytes ep })
      ≡ ok (record s { measurement_endpoint = some ep })
unfolding state_step
step-mep4 s ep h = rw (decode-endpoint ep h)

step-mep6 :
    (s : PeerState) (ep : SocketAddr)
    → IsSendable ep
    → state_step s (record { key = mep6; value = endpoint_bytes ep })
      ≡ ok (record s { measurement_endpoint = some ep })
unfolding state_step
step-mep6 s ep h = rw (decode-endpoint ep h)

step-aep4 :
    (s : PeerState) (ep : SocketAddr)
    → IsSendable ep
    → state_step s (record { key = aep4; value = endpoint_bytes ep })
      ≡ ok (record s { audio_endpoint = some ep })
unfolding state_step
step-aep4 s ep h = rw (decode-endpoint ep h)

step-aep6 :
    (s : PeerState) (ep : SocketAddr)
    → IsSendable ep
    → state_step s (record { key = aep6; value = endpoint_bytes ep })
      ≡ ok (record s { audio_endpoint = some ep })
unfolding state_step
step-aep6 s ep h = rw (decode-endpoint ep h)

-- One field: `state o` is the state with that field `o`.
scan-opt_bytes :
    {A : Type 0} (key : ℕ) (g : A → List ℕ) (Q : A → Type 0) (state : Option A → PeerState)
    (o : Option A) (rest : List ℕ)
    → key < 2 ^ 32
    → ((a : A) → Q a → length (g a) < 2 ^ 32)
    → ((a : A)
        → Q a
        → state_step (state none) (record { key = key; value = g a }) ≡ ok (state (some a)))
    → Opt Q o
    → scan state_step (state none) (opt_bytes key g o ++ rest) ≡ scan state_step (state o) rest
scan-opt_bytes key g Q state none rest hk fits step q = refl
scan-opt_bytes key g Q state (some a) rest hk fits step q =
    scan-entry_bytes state_step (state none) key (g a) rest hk (fits a q) ∙ rw (step a q)

scan-endpoint_entry_bytes :
    (key_v4 key_v6 : ℕ) (state : Option SocketAddr → PeerState) (o : Option SocketAddr)
    (rest : List ℕ)
    → key_v4 < 2 ^ 32
    → key_v6 < 2 ^ 32
    → ((ep : SocketAddr)
        → IsSendable ep
        → state_step (state none) (record { key = key_v4; value = endpoint_bytes ep })
          ≡ ok (state (some ep)))
    → ((ep : SocketAddr)
        → IsSendable ep
        → state_step (state none) (record { key = key_v6; value = endpoint_bytes ep })
          ≡ ok (state (some ep)))
    → Opt IsSendable o
    → scan state_step (state none) (endpoint_entry_bytes key_v4 key_v6 o ++ rest)
      ≡ scan state_step (state o) rest
scan-endpoint_entry_bytes key_v4 key_v6 state none rest h4 h6 step4 step6 q = refl
scan-endpoint_entry_bytes key_v4 key_v6 state (some (v4 ip port)) rest h4 h6 step4 step6 q =
    scan-entry_bytes state_step (state none) key_v4 _ rest h4
      (omega (arith, length-endpoint_bytes (v4 ip port)))
    ∙ rw (step4 (v4 ip port) q)
scan-endpoint_entry_bytes key_v4 key_v6 state (some (v6 ip port flow scope)) rest h4 h6 step4 step6
      q =
    scan-entry_bytes state_step (state none) key_v6 _ rest h6
      (omega (arith, length-endpoint_bytes (v6 ip port flow scope)))
    ∙ rw (step6 (v6 ip port flow scope) q)

pub length-timeline_bytes : (tl : Timeline) → length (timeline_bytes tl) ≡ 24
length-timeline_bytes tl = rw (
  length-append (i64_bytes tl.tempo),
  length-append (i64_bytes tl.beat_origin),
  length-to_be_bytes 8,
  length-to_be_bytes 8,
  length-to_be_bytes 8,
)

pub length-start_stop_bytes : (s : StartStopState) → length (start_stop_bytes s) ≡ 17
length-start_stop_bytes s =
    rw (length-append (i64_bytes s.beats), length-to_be_bytes 8, length-to_be_bytes 8)

-- The state with the first fields of `s` and no others.
abbrev with_timeline : PeerState → Option Timeline → PeerState
with_timeline s o = record no_state { timeline = o }

abbrev with_session : PeerState → Option LinkId → PeerState
with_session s o = record no_state { timeline = s.timeline; session = o }

abbrev with_start_stop : PeerState → Option StartStopState → PeerState
with_start_stop s o = record no_state { timeline = s.timeline; session = s.session; start_stop = o }

abbrev with_measurement : PeerState → Option SocketAddr → PeerState
with_measurement s o = record s { measurement_endpoint = o; audio_endpoint = none }

abbrev with_audio : PeerState → Option SocketAddr → PeerState
with_audio s o = record s { audio_endpoint = o }

scan-audio :
    (s : PeerState)
    → IsPeerState s
    → scan state_step (with_audio s none) (endpoint_entry_bytes aep4 aep6 s.audio_endpoint) ≡ ok s
scan-audio s h = rw (← append-nil (endpoint_entry_bytes aep4 aep6 s.audio_endpoint)) (
    scan-endpoint_entry_bytes aep4 aep6 (with_audio s) s.audio_endpoint [] (omega arith)
      (omega arith) (step-aep4 (with_audio s none)) (step-aep6 (with_audio s none)) h.audio_endpoint
    ∙ scan-nil state_step s)

-- A state that was written reads back, whichever fields it has.
pub read-state_bytes : (s : PeerState) → IsPeerState s → read_state (state_bytes s) ≡ ok s
unfolding read_state
read-state_bytes s h =
    scan-opt_bytes tmln timeline_bytes IsTimeline (with_timeline s) s.timeline _ (omega arith)
      (λ tl _. omega (arith, length-timeline_bytes tl)) (step-tmln no_state) h.timeline
    ∙ scan-opt_bytes sess (λ i. i) (λ i. length i ≡ 8) (with_session s) s.session _ (omega arith)
        (λ i e. omega arith) (step-sess (with_session s none)) h.session
    ∙ scan-opt_bytes stst start_stop_bytes IsStartStopState (with_start_stop s) s.start_stop _
        (omega arith) (λ v _. omega (arith, length-start_stop_bytes v))
        (step-stst (with_start_stop s none)) h.start_stop
    ∙ scan-endpoint_entry_bytes mep4 mep6 (with_measurement s) s.measurement_endpoint _
        (omega arith) (omega arith) (step-mep4 (with_measurement s none))
        (step-mep6 (with_measurement s none)) h.measurement_endpoint
    ∙ scan-audio s h
