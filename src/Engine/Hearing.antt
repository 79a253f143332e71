-- ===== src/Engine/Hearing.antt =====
-- The retry budget in the handlers of gossip and in the closing of a gateway, crates/tactus/src/engine.rs.
use link_wire_rs.Common.{ℕ, List, [], ◌∷◌, Option, none, some, not}
use link_wire_rs.Common.Int.{ltb_ℤ}
use link_wire_rs.Common.Maps.{get, any, find_map, nat_eq}
use link_wire_rs.Types.Id
use link_wire_rs.Types.Id.{LinkId}
use link_wire_rs.Types.Endpoint.{SocketAddr}
use link_wire_rs.Types.Timeline.{Timeline}
use link_wire_rs.Types.StartStop.{StartStopState}
use link_wire_rs.Codec.Error.{Result, ok, err, stuck}
use link_wire_rs.Discovery.Message.{PeerState, Frame, alive, response, bye_bye}
use link_wire_rs.Discovery.Decode.{Header, is_alive, decode, decode_header}
use link_wire_rs.Engine.State.{State, Env, Purpose, join, now, push, id_eq}
use link_wire_rs.Engine.Measure.{
  queue_measurement, is_queued, or_else, founder_endpoint, with_gateway,
}
use link_wire_rs.Engine.Gossip.{
  take_timeline, take_start_stop, process_own, process_foreign, process_peer_state, process_bye,
  respond, process_message, process_payload, admits, process_header, handle_discovery_datagram,
  forget_nodes, close_gateway,
}
use link_wire_rs.Math.Grid.{clamp_tempo}
use link_wire_rs.Math.Float.{clamp_tempo-IsClamped}
use link_wire_rs.Engine.Budget.{
  Doors, ClosableAt, doors, Holds, if-Holds, option-Holds, schedule_broadcast-Holds,
  start_next-Holds, evaluate_join-Holds, check_session_loss-Holds,
}

queue-Holds :
    {D : Doors → Type 0} (env : Env) (gw_idx : ℕ) (sess : LinkId) (ps : PeerState) (p : Purpose)
    (st : State)
    → Holds D st
    → Holds D (queue_measurement env gw_idx sess ps p st)
unfolding queue_measurement
queue-Holds env gw_idx sess ps p st h = if-Holds (is_queued sess st) _ _ h (
    option-Holds
      (or_else (find_map (founder_endpoint sess) st.peers)
        (with_gateway gw_idx ps.measurement_endpoint))
      st _ h (λ t. start_next-Holds env _ h))

timeline-Holds :
    {D : Doors → Type 0} (env : Env) (o : Option Timeline) (st : State)
    → Holds D st
    → Holds D (take_timeline env o st)
unfolding take_timeline
timeline-Holds env none st h = h
timeline-Holds env (some tl) st h =
    if-Holds (ltb_ℤ st.timeline.beat_origin tl.beat_origin) _ _
      (schedule_broadcast-Holds env
        (record st { timeline = record tl { tempo = clamp_tempo tl.tempo } })
        (record {
          budget = h.budget;
          house = h.house;
          clamped = clamp_tempo-IsClamped tl.tempo;
          spaced = h.spaced;
        }))
      h

start_stop-Holds :
    {D : Doors → Type 0} (env : Env) (o : Option StartStopState) (st : State)
    → Holds D st
    → Holds D (take_start_stop env o st)
unfolding take_start_stop
start_stop-Holds env none st h = h
start_stop-Holds env (some s) st h =
    if-Holds (ltb_ℤ st.held_stst.timestamp s.timestamp) _ _ (schedule_broadcast-Holds env _ h) h

foreign-Holds :
    {D : Doors → Type 0} (env : Env) (gw_idx : ℕ) (sess : LinkId) (ps : PeerState) (st : State)
    → Holds D st
    → Holds D (process_foreign env gw_idx sess ps st)
unfolding process_foreign
foreign-Holds env gw_idx sess ps st h =
    option-Holds (get sess st.measured) _ _ (queue-Holds env gw_idx sess ps join _ h)
      (λ offset. evaluate_join-Holds env sess offset _ h)

state-Holds :
    {D : Doors → Type 0} (env : Env) (gw_idx : ℕ) (node : LinkId) (ttl : ℕ) (ps : PeerState)
    (st : State)
    → Holds D st
    → Holds D (process_peer_state env gw_idx node ttl ps st)
unfolding process_peer_state process_own now
state-Holds env gw_idx node ttl ps st h = option-Holds ps.session _ _ h λ sess.
    if-Holds (Id.eqb sess st.session) _ _
      (start_stop-Holds env ps.start_stop _ (timeline-Holds env ps.timeline _ h))
      (foreign-Holds env gw_idx sess ps _ h)

bye-Holds :
    {D : Doors → Type 0} (env : Env) (gw_idx : ℕ) (node : LinkId) (st : State)
    → Holds D st
    → Holds D (process_bye env gw_idx node st)
unfolding process_bye
bye-Holds env gw_idx node st h = check_session_loss-Holds env _ h

payload-Holds :
    {D : Doors → Type 0} (env : Env) (gw_idx : ℕ) (buf : List ℕ) (st : State)
    → Holds D st
    → Holds D (process_payload env gw_idx buf st)
unfolding process_payload process_message
payload-Holds {D = D} env gw_idx buf st h = by_result (decode buf)
  where
    by_message :
        (f : Frame)
        → Holds D (elim f.message [
          | alive ps ↦ process_peer_state env gw_idx f.node f.ttl ps st
          | response ps ↦ process_peer_state env gw_idx f.node f.ttl ps st
          | bye_bye ↦ process_bye env gw_idx f.node st
        ])
    by_message f =
        elim f.message
          as (λ m. Holds D (elim m [
            | alive ps ↦ process_peer_state env gw_idx f.node f.ttl ps st
            | response ps ↦ process_peer_state env gw_idx f.node f.ttl ps st
            | bye_bye ↦ process_bye env gw_idx f.node st
          ])) [
            | alive ps ↦ state-Holds env gw_idx f.node f.ttl ps st h
            | response ps ↦ state-Holds env gw_idx f.node f.ttl ps st h
            | bye_bye ↦ bye-Holds env gw_idx f.node st h
          ]

    by_result :
        (r : Result Frame)
        → Holds D
            (elim r [ ok frame ↦ process_message env gw_idx frame st | err e ↦ st | stuck ↦ st ])
    by_result (ok frame) = by_message frame
    by_result (err e) = h
    by_result stuck = h

respond-Holds :
    {D : Doors → Type 0} (gw_idx : ℕ) (src : SocketAddr) (st : State)
    → Holds D st
    → Holds D (respond gw_idx src st)
unfolding respond push
respond-Holds gw_idx src st h = option-Holds (get gw_idx st.gateways) st _ h (λ g. h)

header-Holds :
    {D : Doors → Type 0} (env : Env) (gw_idx : ℕ) (src : SocketAddr) (buf : List ℕ)
    (header : Header) (st : State)
    → Holds D st
    → Holds D (process_header env gw_idx src buf header st)
unfolding process_header
header-Holds env gw_idx src buf header st h = if-Holds (not (admits st header)) _ _ h (
    payload-Holds env gw_idx buf _
      (if-Holds (is_alive header) _ _ (respond-Holds gw_idx src st h) h))

pub discovery-Holds :
    {D : Doors → Type 0} (env : Env) (gw_idx : ℕ) (src : SocketAddr) (buf : List ℕ) (st : State)
    → Holds D st
    → Holds D (handle_discovery_datagram env gw_idx src buf st)
unfolding handle_discovery_datagram
discovery-Holds {D = D} env gw_idx src buf st h =
    if-Holds (not st.enabled) _ _ h (go (decode_header buf))
  where
    go :
        (r : Result Header)
        → Holds D (elim r [
          | ok header ↦ process_header env gw_idx src buf header st
          | err e ↦ st
          | stuck ↦ st
        ])
    go (ok header) = header-Holds env gw_idx src buf header st h
    go (err e) = h
    go stuck = h

pub forget-Holds :
    {D : Doors → Type 0} (ns : List LinkId) (st : State) → Holds D st → Holds D (forget_nodes ns st)
unfolding forget_nodes
forget-Holds [] st h = h
forget-Holds (n ∷ ns) st h =
    forget-Holds ns _ (if-Holds (any (λ p. Id.eqb p.0.0 n) st.peers) st _ h h)

pub close-Holds :
    {D : Doors → Type 0} (env : Env) (id : ℕ) (st : State)
    → ClosableAt id D
    → Holds D st
    → Holds D (close_gateway env id st)
unfolding close_gateway push
close-Holds env id st closed h = check_session_loss-Holds env _ (
    forget-Holds _ _ (
      option-Holds (get id st.gateways) st _ h λ gw. record {
        budget = h.budget;
        house = closed (doors st) h.house;
        clamped = h.clamped;
        spaced = h.spaced;
      }))
