-- ===== src/Engine/Send.antt =====
-- Sending in crates/tactus/src/engine.rs.
use link_wire_rs.Common.{ℕ, List, [], ◌∷◌, ◌++◌, Option, none, some, if◌then◌else◌}
use link_wire_rs.Common.Int.{ℤ, leb_ℤ}
use link_wire_rs.Math.Word.{◌+w◌, ◌-w◌}
use link_wire_rs.Discovery.Message.{PeerState, alive_frame}
use link_wire_rs.Discovery.Encode.{encode}
use link_wire_rs.Types.Endpoint.{SocketAddr}
use link_wire_rs.LinkAudio.State.{AudioState}
use link_wire_rs.Engine.State.{
  State, Env, Gateway, Sent, multicast, now, push, min_broadcast_spacing,
}

abbrev pub audio_endpoint_of : Option AudioState → Gateway → Option SocketAddr
audio_endpoint_of none gw = none
audio_endpoint_of (some audio) gw = some gw.audio_endpoint

unfoldable pub build_state : State → Gateway → PeerState
build_state st gw = record {
  timeline = some st.timeline;
  session = some st.session;
  start_stop = some st.held_stst;
  measurement_endpoint = some gw.measurement_endpoint;
  audio_endpoint = audio_endpoint_of st.audio gw;
}

unfoldable pub alive_on : State → Gateway → Sent
alive_on st gw = multicast gw.id (encode (alive_frame st.node (build_state st gw)))

unfoldable pub send_alive_on : Gateway → State → State
send_alive_on gw st = push (alive_on st gw) st

unfoldable pub alive_round : State → List (ℕ × Gateway) → List Sent
alive_round st [] = []
alive_round st (g ∷ gs) = alive_on st g.1 ∷ alive_round st gs

unfoldable pub send_alive : ℤ → State → State
send_alive at st = record st {
  sent = st.sent ++ alive_round st st.gateways;
  last_alive_at = at;
  last_broadcast_at = at;
  broadcast_due = none;
}

unfoldable pub schedule_broadcast : Env → State → State
schedule_broadcast env st =
    let (at, st1) = now env st in
    if st.enabled
    then (if leb_ℤ min_broadcast_spacing (at -w st.last_broadcast_at)
        then send_alive at st1
        else record st1 { broadcast_due = some (st.last_broadcast_at +w min_broadcast_spacing) })
    else st
