-- ===== src/Engine/Responder.antt =====
-- The responder of crates/tactus/src/engine.rs to other peers' pings.
use link_wire_rs.Common.{
  ℕ, suc, ◌≤◌, ◌≡◌, refl, ◌∙◌, [], ◌∷◌, ◌++◌, length, Option, some, Bool, true, false, not, le→ltb,
  if◌then◌else◌,
}
use link_wire_rs.Common.Bytes.{InI64}
use link_wire_rs.Common.Int.{ℤ}
use link_wire_rs.Common.Maps.{get, nat_eq}
use link_wire_rs.Types.Endpoint.{SocketAddr}
use link_wire_rs.Math.Word.{◌+w◌}
use link_wire_rs.Sync.Message.{Ping, max_ping_payload}
use link_wire_rs.Sync.Encode.{encode_ping, encode_pong, ping_payload}
use link_wire_rs.Sync.RoundTrip.{decode-encode_ping, length-ping_payload, AllI64}
use link_wire_rs.Engine.State.{State, Env, Gateway, measurement, now, push}
use link_wire_rs.Engine.Measure.{handle_measurement_datagram, answer_ping, send_measurement}

else_of_true : {A : Type 0} (b : Bool) (x y : A) → b ≡ true → (if not b then x else y) ≡ y
else_of_true true x y h = refl
else_of_true false x y h = cc

answer_lem :
    (env : Env) (gw_idx : ℕ) (gw : Gateway) (src : SocketAddr) (p : Ping) (st : State)
    → length p.payload ≤ max_ping_payload
    → get gw_idx st.gateways ≡ some gw
    → answer_ping env gw_idx src p st ≡ record st {
      reads = suc st.reads;
      sent =
          st.sent
          ++ (measurement gw_idx
                (encode_pong st.session (env.clock st.reads +w st.ghost_offset) p.payload)
                src
              ∷ []);
    }
unfolding answer_ping send_measurement now push
answer_lem env gw_idx gw src p st short there =
    simp (le→ltb max_ping_payload (length p.payload) short, there)

-- To a ping that an initiator encodes, of times that fit an `i64`, an enabled peer answers
-- through an open gateway with one pong of its session, its ghost time and the ping's own
-- payload, to where the ping came from; nothing else of its state changes.
pub responder_answers :
    (env : Env) (gw_idx : ℕ) (gw : Gateway) (src : SocketAddr) (host_time : ℤ) (prev : Option ℤ)
    (st : State)
    → InI64 host_time
    → AllI64 prev
    → st.enabled ≡ true
    → get gw_idx st.gateways ≡ some gw
    → handle_measurement_datagram env gw_idx src (encode_ping host_time prev) st ≡ record st {
      reads = suc st.reads;
      sent =
          st.sent
          ++ (measurement gw_idx
                (encode_pong st.session
                  (env.clock st.reads +w st.ghost_offset)
                  (ping_payload host_time prev))
                src
              ∷ []);
    }
unfolding handle_measurement_datagram
responder_answers env gw_idx gw src host_time prev st h hp on there =
    else_of_true st.enabled _ _ on
    ∙ rw (decode-encode_ping host_time prev h hp)
        (answer_lem env gw_idx gw src _ st (length-ping_payload host_time prev) there)
