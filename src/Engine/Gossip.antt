-- ===== src/Engine/Gossip.antt =====
-- Discovery in crates/tactus/src/engine.rs: what a peer makes of the gossip it receives.
use link_wire_rs.Common.{
  ℕ, List, [], ◌∷◌, Option, none, some, Bool, true, not, ◌&&◌, ◌||◌, ◌==◌, if◌then◌else◌,
}
use link_wire_rs.Common.Int.{pos, ◌*ℤ◌, ltb_ℤ, eqb_ℤ}
use link_wire_rs.Common.Maps.{get, insert, remove, retain, any, nat_eq}
use link_wire_rs.Types.Id
use link_wire_rs.Types.Id.{LinkId}
use link_wire_rs.Types.Endpoint.{SocketAddr}
use link_wire_rs.Types.Timeline.{Timeline}
use link_wire_rs.Types.StartStop
use link_wire_rs.Types.StartStop.{StartStopState}
use link_wire_rs.Codec.Error.{ok, err, stuck}
use link_wire_rs.Discovery.Message.{
  PeerState, Frame, alive, response, bye_bye, response_frame, bye_bye_frame,
}
use link_wire_rs.Discovery.Encode.{encode}
use link_wire_rs.Discovery.Decode.{Header, is_alive, decode, decode_header}
use link_wire_rs.Math.Word.{◌+w◌}
use link_wire_rs.Math.Grid.{clamp_tempo}
use link_wire_rs.LinkAudio.State.{peer_left, gateway_closed}
use link_wire_rs.Engine.State.{
  State, Env, PeerEntry, join, multicast, unicast, now, push, id_eq, key_eq,
}
use link_wire_rs.Engine.Send.{build_state, schedule_broadcast}
use link_wire_rs.Engine.Election.{evaluate_join, check_session_loss}
use link_wire_rs.Engine.Measure.{queue_measurement}

-- The derived equality of start/stop states.
abbrev pub eqb_stst : StartStopState → StartStopState → Bool
eqb_stst a b =
    (if a.is_playing then b.is_playing else not b.is_playing)
    && eqb_ℤ a.beats b.beats
    && eqb_ℤ a.timestamp b.timestamp

-- The timeline of a member of the own session.
unfoldable pub take_timeline : Env → Option Timeline → State → State
take_timeline env none st = st
take_timeline env (some tl) st =
    if ltb_ℤ st.timeline.beat_origin tl.beat_origin
    then schedule_broadcast env
        (record st { timeline = record tl { tempo = clamp_tempo tl.tempo } })
    else st

-- Its start/stop state.
unfoldable pub take_start_stop : Env → Option StartStopState → State → State
take_start_stop env none st = st
take_start_stop env (some stst) st =
    let shown =
      if st.sst_sync && not (eqb_stst stst StartStop.default)
      then stst.is_playing
      else st.app_playing in
    if ltb_ℤ st.held_stst.timestamp stst.timestamp
    then schedule_broadcast env (record st { held_stst = stst; app_playing = shown })
    else st

-- `entry(sess).and_modify(..).or_insert(tl)`
unfoldable pub cache_timeline :
    LinkId → Option Timeline → List (LinkId × Timeline) → List (LinkId × Timeline)
cache_timeline sess none m = m
cache_timeline sess (some tl) m = elim (get sess m) [
  | none ↦ insert sess tl m
  | some cur ↦ if ltb_ℤ cur.beat_origin tl.beat_origin then insert sess tl m else m
]

unfoldable pub process_own : Env → PeerState → State → State
process_own env ps st =
    take_start_stop env ps.start_stop
      (take_timeline env ps.timeline (record st { session_member_seen = true }))

unfoldable pub process_foreign : Env → ℕ → LinkId → PeerState → State → State
process_foreign env gw_idx sess ps st =
    let cached = record st {
      foreign_timelines = cache_timeline sess ps.timeline st.foreign_timelines;
    } in
    elim (get sess st.measured) [
      | some offset ↦ evaluate_join env sess offset cached
      | none ↦ queue_measurement env gw_idx sess ps join cached
    ]

unfoldable pub process_peer_state : Env → ℕ → LinkId → ℕ → PeerState → State → State
process_peer_state env gw_idx node ttl ps st =
    let (at, st1) = now env st in
    let entry : PeerEntry = record { state = ps; deadline = at +w pos ttl *ℤ pos 1000000 } in
    let heard = record st1 { peers = insert (node, gw_idx) entry st1.peers } in
    elim ps.session [
      | none ↦ heard
      | some sess ↦
          if Id.eqb sess st.session
          then process_own env ps heard
          else process_foreign env gw_idx sess ps heard
    ]

unfoldable pub process_bye : Env → ℕ → LinkId → State → State
process_bye env gw_idx node st =
    check_session_loss env
      (record st { peers = remove (node, gw_idx) st.peers; audio = peer_left node st.audio })

-- Answered before the payload is looked at.
unfoldable pub respond : ℕ → SocketAddr → State → State
respond gw_idx src st = elim (get gw_idx st.gateways) [
  | none ↦ st
  | some gw ↦ push (unicast gw_idx (encode (response_frame st.node (build_state st gw))) src) st
]

unfoldable pub process_message : Env → ℕ → Frame → State → State
process_message env gw_idx frame st = elim frame.message [
  | alive ps ↦ process_peer_state env gw_idx frame.node frame.ttl ps st
  | response ps ↦ process_peer_state env gw_idx frame.node frame.ttl ps st
  | bye_bye ↦ process_bye env gw_idx frame.node st
]

unfoldable pub process_payload : Env → ℕ → List ℕ → State → State
process_payload env gw_idx buf st = elim (decode buf) [
  | ok frame ↦ process_message env gw_idx frame st
  | err e ↦ st
  | stuck ↦ st
]

-- Itself and other groups are ignored.
unfoldable pub admits : State → Header → Bool
admits st header = not (Id.eqb header.node st.node || not (header.group_id == 0))

unfoldable pub process_header : Env → ℕ → SocketAddr → List ℕ → Header → State → State
process_header env gw_idx src buf header st =
    if not (admits st header)
    then st
    else process_payload env gw_idx buf (if is_alive header then respond gw_idx src st else st)

unfoldable pub handle_discovery_datagram : Env → ℕ → SocketAddr → List ℕ → State → State
handle_discovery_datagram env gw_idx src buf st =
    if not st.enabled then st else elim (decode_header buf) [
      | ok header ↦ process_header env gw_idx src buf header st
      | err e ↦ st
      | stuck ↦ st
    ]

-- The nodes behind a list of entries.
unfoldable pub nodes : List ((LinkId × ℕ) × PeerEntry) → List LinkId
nodes [] = []
nodes (p ∷ ps) = p.0.0 ∷ nodes ps

-- `peer_left` for each of the nodes that no entry is left of.
unfoldable pub forget_nodes : List LinkId → State → State
forget_nodes [] st = st
forget_nodes (n ∷ ns) st =
    forget_nodes ns (
      if any (λ p. Id.eqb p.0.0 n) st.peers then st else record st { audio = peer_left n st.audio })

abbrev pub say_bye : ℕ → State → State
say_bye id st = elim (get id st.gateways) [
  | none ↦ st
  | some gw ↦ record (push (multicast id (encode (bye_bye_frame st.node))) st) {
    gateways = remove id st.gateways;
  }
]

unfoldable pub close_gateway : Env → ℕ → State → State
close_gateway env id st =
    let st1 = say_bye id st in
    let lost = nodes (retain (λ p. p.0.1 == id) st1.peers) in
    check_session_loss env (
      forget_nodes lost (record st1 {
        peers = retain (λ p. not (p.0.1 == id)) st1.peers;
        pending = retain (λ t. not (t.gateway == id)) st1.pending;
        audio = gateway_closed id st1.audio;
      }))
