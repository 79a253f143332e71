-- ===== src/Tests/Peer.antt =====
-- The theorems of the peer's state machine at a concrete state.
use link_wire_rs.Common.{◌≡◌, refl, [], ◌∷◌, none, some, true, false, not, arith}
use link_wire_rs.Common.Bytes.{bytes_eqb}
use link_wire_rs.Common.Int.{pos, ◌-ℤ◌}
use link_wire_rs.Types.StartStop
use link_wire_rs.Types.Id
use link_wire_rs.Types.Id.{LinkId}
use link_wire_rs.Types.Endpoint.{SocketAddr, v4}
use link_wire_rs.Math.Word.{◌+w◌}
use link_wire_rs.Sync.Encode.{encode_ping, encode_pong, ping_payload}
use link_wire_rs.Discovery.Message.{PeerState}
use link_wire_rs.Engine.State.{State, Env, Gateway, measurement}
use link_wire_rs.Engine.Election.{should_join, evaluate_join}
use link_wire_rs.Engine.Measure.{handle_measurement_datagram}
use link_wire_rs.Engine.Gossip.{process_peer_state}
use link_wire_rs.Engine.Settles.{should_join_decides, evaluate_join_settles}
use link_wire_rs.Engine.Priority.{
  shared, merge_shared, process_peer_state_merges, process_peer_state_converges,
}
use link_wire_rs.Engine.Responder.{responder_answers}

abbrev low_id : LinkId
low_id = 1 ∷ 2 ∷ 3 ∷ 4 ∷ 5 ∷ 6 ∷ 7 ∷ 8 ∷ []

abbrev high_id : LinkId
high_id = 1 ∷ 2 ∷ 3 ∷ 4 ∷ 5 ∷ 6 ∷ 7 ∷ 9 ∷ []

abbrev address : SocketAddr
address = v4 1 20808

abbrev ticking : Env
ticking = record { clock = λ n. pos n; ids = λ n. low_id }

abbrev gateway : Gateway
gateway = record { id = 0; addr = 1; measurement_endpoint = address; audio_endpoint = address }

abbrev heard_state : PeerState
heard_state = record {
  timeline = some (record { tempo = pos 500000; beat_origin = pos 9; time_origin = pos 2 });
  session = some high_id;
  start_stop = some StartStop.default;
  measurement_endpoint = some address;
  audio_endpoint = none;
}

abbrev other_state : PeerState
other_state = record heard_state {
  timeline = some (record { tempo = pos 400000; beat_origin = pos 10; time_origin = pos 2 });
  start_stop = some StartStop.default;
}

abbrev joined : State
joined = record {
  enabled = true;
  epoch = 1;
  node = low_id;
  session = high_id;
  timeline = record { tempo = pos 500000; beat_origin = pos 0; time_origin = pos 0 };
  ghost_offset = pos 70;
  held_stst = record { is_playing = false; beats = pos 0; timestamp = pos 0 };
  app_playing = false;
  sst_sync = true;
  gateways = (0, gateway) ∷ [];
  next_gateway_id = 1;
  peers = ((high_id, 0), record { state = heard_state; deadline = pos 5000000 }) ∷ [];
  session_member_seen = true;
  foreign_timelines = [];
  measured = [];
  measurement = none;
  pending = [];
  last_alive_at = pos 0;
  last_broadcast_at = pos 0;
  broadcast_due = none;
  next_remeasure_at = none;
  audio = none;
  reads = 0;
  draws = 0;
  sent = [];
}

should_join_decides_example :
    should_join low_id (pos 70) high_id (pos 9) ≡ not (should_join high_id (pos 9) low_id (pos 70))
should_join_decides_example =
    should_join_decides low_id high_id (pos 70) (pos 9) (unfold ◌-ℤ◌ in omega arith)
      (unfold ◌-ℤ◌ in omega arith) (unfold ◌-ℤ◌ in ground arith) (unfold ◌-ℤ◌ in ground arith)
      (unfold Id.eqb bytes_eqb in refl)

evaluate_join_settles_example :
    evaluate_join ticking high_id (pos 70) (evaluate_join ticking low_id (pos 900000) joined)
    ≡ evaluate_join ticking low_id (pos 900000) joined
evaluate_join_settles_example =
    evaluate_join_settles ticking low_id (pos 900000) joined (unfold ◌-ℤ◌ in omega arith)
      (unfold ◌-ℤ◌ in omega arith)

process_peer_state_merges_example :
    shared (process_peer_state ticking 0 high_id 5 heard_state joined)
    ≡ merge_shared heard_state (shared joined)
process_peer_state_merges_example =
    process_peer_state_merges ticking 0 high_id 5 heard_state joined refl

process_peer_state_converges_example :
    shared (
      process_peer_state ticking 0 low_id 5 other_state
        (process_peer_state ticking 0 high_id 5 heard_state joined))
    ≡ shared (
        process_peer_state ticking 0 high_id 5 heard_state
          (process_peer_state ticking 0 low_id 5 other_state joined))
process_peer_state_converges_example =
    process_peer_state_converges ticking 0 0 high_id low_id 5 5 heard_state other_state joined refl
      refl (λ same. absurd (ground arith)) (λ same. refl)

responder_answers_example :
    handle_measurement_datagram ticking 0 address (encode_ping (pos 7) none) joined
    ≡ record joined {
      reads = 1;
      sent =
          measurement 0 (encode_pong high_id (pos 0 +w pos 70) (ping_payload (pos 7) none)) address
          ∷ [];
    }
responder_answers_example =
    responder_answers ticking 0 gateway address (pos 7) none joined (omega arith) tt refl refl
