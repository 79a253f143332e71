-- ===== src/Discovery/Typed.antt =====
-- What `decode` of crates/tactus-wire/src/discovery.rs gives is a frame that can be sent again.
use link_wire_rs.Common.{ℕ, ◌≡◌, refl, List, length, ltb, ◌==◌, ◌||◌, not, arith}
use mathlib.Core.Path.{subst}
use link_wire_rs.Common.Bytes.{AreBytes, InI64, bytes_eqb}
use link_wire_rs.Codec.Error.{Error, Result, ok, reject_if, >>=-inv}
use link_wire_rs.Codec.Reader
use link_wire_rs.Codec.Reader.{Reader}
use link_wire_rs.Codec.Entries
use link_wire_rs.Codec.Entries.{Entry}
use link_wire_rs.Codec.Typed.{
  Gives, gives, fails, given, Gives->>=, Gives-if, Reads, AreBytesOf, IsBelow, take-Reads, u8-Reads,
  u16-Reads, u32-Reads, i64-Reads, bool-Reads, id-Reads, decode-Gives, scan-Gives, number-IsBelow,
}
use link_wire_rs.Types.Id
use link_wire_rs.Types.Timeline
use link_wire_rs.Types.Timeline.{IsTimeline}
use link_wire_rs.Types.StartStop
use link_wire_rs.Types.StartStop.{IsStartStopState}
use link_wire_rs.Types.Endpoint.{
  IsSendable, read_endpoint_v4, read_endpoint_v6, decode_endpoint_value,
}
use link_wire_rs.Discovery.Message.{
  alive, response, bye_bye, Frame, IsFrame, IsMessage, PeerState, IsPeerState, no_state, type_alive,
  type_response, type_byebye, magic, mep4, mep6, aep4, aep6,
}
use link_wire_rs.Discovery.Decode.{state_step, read_state, decode_message, decode}
use link_wire_rs.Discovery.Encode.{encode}
use link_wire_rs.Discovery.RoundTrip.{decode-encode_discovery}

tmln-Reads : (r : Reader) → AreBytes r → Reads IsTimeline (Timeline.read r)
unfolding Timeline.read
tmln-Reads r h =
    Gives->>= (λ p. InI64 p.0 × AreBytes p.1) _ (Reader.i64 r) _ (i64-Reads r h)
      λ p hp.
        Gives->>= (λ q. InI64 q.0 × AreBytes q.1) _ (Reader.i64 p.1) _ (i64-Reads p.1 hp.1)
          λ q hq.
            Gives->>= (λ t. InI64 t.0 × AreBytes t.1) _ (Reader.i64 q.1) _ (i64-Reads q.1 hq.1)
              λ t ht. gives (record { tempo = hp.0; beat_origin = hq.0; time_origin = ht.0 }, ht.1)

stst-Reads : (r : Reader) → AreBytes r → Reads IsStartStopState (StartStop.read r)
unfolding StartStop.read
stst-Reads r h =
    Gives->>= (λ p. Unit {0} × AreBytes p.1) _ (Reader.bool r) _ (bool-Reads r h)
      λ p hp.
        Gives->>= (λ q. InI64 q.0 × AreBytes q.1) _ (Reader.i64 p.1) _ (i64-Reads p.1 hp.1)
          λ q hq.
            Gives->>= (λ t. InI64 t.0 × AreBytes t.1) _ (Reader.i64 q.1) _ (i64-Reads q.1 hq.1)
              λ t ht. gives (record { beats = hq.0; timestamp = ht.0 }, ht.1)

endpoint_v4-Reads : (r : Reader) → AreBytes r → Reads IsSendable (read_endpoint_v4 r)
unfolding read_endpoint_v4
endpoint_v4-Reads r h =
    Gives->>= (λ p. IsBelow 4 p.0 × AreBytes p.1) _ (Reader.u32 r) _ (u32-Reads r h)
      λ p hp.
        Gives->>= (λ q. IsBelow 2 q.0 × AreBytes q.1) _ (Reader.u16 p.1) _ (u16-Reads p.1 hp.1)
          λ q hq. gives ((omega (arith, hp.0), omega (arith, hq.0)), hq.1)

endpoint_v6-Reads : (r : Reader) → AreBytes r → Reads IsSendable (read_endpoint_v6 r)
unfolding read_endpoint_v6
endpoint_v6-Reads r h =
    Gives->>= (λ p. AreBytesOf 16 p.0 × AreBytes p.1) _ (Reader.take 16 r) _ (take-Reads 16 r h)
      λ p hp.
        Gives->>= (λ q. IsBelow 2 q.0 × AreBytes q.1) _ (Reader.u16 p.1) _ (u16-Reads p.1 hp.1)
          λ q hq. gives ((number-IsBelow 16 p.0 hp.0, omega (arith, hq.0), refl, refl), hq.1)

endpoint-Gives : (value : List ℕ) → AreBytes value → Gives IsSendable (decode_endpoint_value value)
unfolding decode_endpoint_value
endpoint-Gives value h =
    Gives->>= (λ p. IsSendable p.0 × AreBytes p.1) IsSendable _ _
      (Gives-if (λ p. IsSendable p.0 × AreBytes p.1) (length value == 6) _ _
        (endpoint_v4-Reads value h)
        (Gives-if (λ p. IsSendable p.0 × AreBytes p.1) (length value == 18) _ _
          (endpoint_v6-Reads value h) fails))
      (λ p k. gives k.0)

id-Gives : (e : Entry) → AreBytes e.value → Gives (AreBytesOf 8) (Entries.decode e Id.read)
unfolding Id.read
id-Gives e h = decode-Gives (AreBytesOf 8) e Reader.id (id-Reads e.value h)

state_step-Gives :
    (s : PeerState) (e : Entry)
    → IsPeerState s
    → AreBytes e.value
    → Gives IsPeerState (state_step s e)
unfolding state_step
state_step-Gives s e hs h =
    Gives-if IsPeerState _ _ _
      (Gives->>= IsTimeline IsPeerState _ _
        (decode-Gives IsTimeline e Timeline.read (tmln-Reads e.value h))
        λ v k. gives (record {
          timeline = k;
          session = hs.session;
          start_stop = hs.start_stop;
          measurement_endpoint = hs.measurement_endpoint;
          audio_endpoint = hs.audio_endpoint;
        }))
      (Gives-if IsPeerState _ _ _
        (Gives->>= (AreBytesOf 8) IsPeerState _ _ (id-Gives e h) λ v k. gives (record {
          timeline = hs.timeline;
          session = k.0;
          start_stop = hs.start_stop;
          measurement_endpoint = hs.measurement_endpoint;
          audio_endpoint = hs.audio_endpoint;
        }))
        (Gives-if IsPeerState _ _ _
          (Gives->>= IsStartStopState IsPeerState _ _
            (decode-Gives IsStartStopState e StartStop.read (stst-Reads e.value h))
            λ v k. gives (record {
              timeline = hs.timeline;
              session = hs.session;
              start_stop = k;
              measurement_endpoint = hs.measurement_endpoint;
              audio_endpoint = hs.audio_endpoint;
            }))
          (Gives-if IsPeerState (e.key == mep4 || e.key == mep6) _ _
            (Gives->>= IsSendable IsPeerState _ _ (endpoint-Gives e.value h) λ v k. gives (record {
              timeline = hs.timeline;
              session = hs.session;
              start_stop = hs.start_stop;
              measurement_endpoint = k;
              audio_endpoint = hs.audio_endpoint;
            }))
            (Gives-if IsPeerState (e.key == aep4 || e.key == aep6) _ _
              (Gives->>= IsSendable IsPeerState _ _ (endpoint-Gives e.value h) λ v k.
                gives (record {
                  timeline = hs.timeline;
                  session = hs.session;
                  start_stop = hs.start_stop;
                  measurement_endpoint = hs.measurement_endpoint;
                  audio_endpoint = k;
                }))
              (gives hs)))))

read_state-Gives : (payload : List ℕ) → AreBytes payload → Gives IsPeerState (read_state payload)
unfolding read_state
read_state-Gives payload h =
    scan-Gives IsPeerState state_step state_step-Gives no_state payload
      (record {
        timeline = tt;
        session = tt;
        start_stop = tt;
        measurement_endpoint = tt;
        audio_endpoint = tt;
      })
      h

decode_message-Gives :
    (msg_type : ℕ) (payload : List ℕ)
    → AreBytes payload
    → Gives IsMessage (decode_message msg_type payload)
unfolding decode_message
decode_message-Gives msg_type payload h =
    let state = read_state-Gives payload h in
    Gives-if IsMessage (msg_type == type_alive) _ _
      (Gives->>= IsPeerState IsMessage (read_state payload) (λ s. ok (alive s)) state
        λ s k. gives k)
      (Gives-if IsMessage (msg_type == type_response) _ _
        (Gives->>= IsPeerState IsMessage (read_state payload) (λ s. ok (response s)) state
          λ s k. gives k)
        (Gives-if IsMessage (msg_type == type_byebye) (ok bye_bye) _ (gives tt) fails))

-- What a successful step has given.
from_ok : {A : Type 0} {P : A → Type 0} {m : Result A} {a : A} → m ≡ ok a → Gives P m → P a
from_ok {P = P} e h = given (subst (Gives P) e h)

decoded-IsFrame :
    (datagram : List ℕ) (f : Frame) → AreBytes datagram → decode datagram ≡ ok f → IsFrame f
unfolding decode Id.read
decoded-IsFrame datagram f bytes h =
    >>=-inv (reject_if (ltb (length datagram) 20) Error.truncated) _ h λ u0 long h0.
      >>=-inv (Reader.take 8 datagram) _ h0 λ p1 head h1.
        >>=-inv (reject_if (not (bytes_eqb p1.0 magic)) Error.bad_magic) _ h1 λ u2 same h2.
          >>=-inv (Reader.u8 p1.1) _ h2 λ p3 typed h3. >>=-inv (Reader.u8 p3.1) _ h3 λ p4 ttl h4.
            >>=-inv (Reader.u16 p4.1) _ h4 λ p5 group h5.
              >>=-inv (Reader.id p5.1) _ h5 λ p6 node h6.
                >>=-inv (decode_message p3.0 p6.1) _ h6 λ m message h7.
                  let k1 = from_ok head (take-Reads 8 datagram bytes) in
                  let k3 = from_ok typed (u8-Reads p1.1 k1.1) in
                  let k4 = from_ok ttl (u8-Reads p3.1 k3.1) in
                  let k5 = from_ok group (u16-Reads p4.1 k4.1) in
                  let k6 = from_ok node (id-Reads p5.1 k5.1) in
                  let whole : IsFrame
                      (record { ttl = p4.0; group_id = p5.0; node = p6.0; message = m }) =
                    record {
                      ttl = omega (arith, k4.0);
                      group_id = omega (arith, k5.0);
                      node = k6.0.0;
                      message = from_ok message (decode_message-Gives p3.0 p6.1 k6.1);
                    } in
                  from_ok {P = IsFrame} h7 (gives whole)

-- Whatever bytes are decoded, the fields of the frame are in the ranges of their types, so that it can be sent again
-- and decodes to itself.
pub decode-IsFrame :
    (datagram : List ℕ) (f : Frame)
    → AreBytes datagram
    → decode datagram ≡ ok f
    → IsFrame f × (decode (encode f) ≡ ok f)
decode-IsFrame datagram f h e =
    let typed = decoded-IsFrame datagram f h e in (typed, decode-encode_discovery f typed)
