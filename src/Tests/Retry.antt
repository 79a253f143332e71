-- ===== src/Tests/Retry.antt =====
-- The theorem of a measurement's retries at a concrete measurement.
use link_wire_rs.Common.{◌+◌, ◌≤◌, ◌≡◌, refl, List, [], ◌∷◌, length, none, some}
use link_wire_rs.Common.Int.{pos}
use link_wire_rs.Types.Id.{LinkId}
use link_wire_rs.Types.Endpoint.{SocketAddr, v4}
use link_wire_rs.Math.Float.{bpm_to_tempo}
use link_wire_rs.Sync.Encode.{encode_pong}
use link_wire_rs.Discovery.Message.{PeerState, alive_frame}
use link_wire_rs.Discovery.Encode.{encode}
use link_wire_rs.Engine.State.{
  State, Env, Measurement, MeasureTask, join, new, max_measurement_retries,
}
use link_wire_rs.Engine.Rounds.{Event, datagram, timer, happen, retries}
use link_wire_rs.Runtime.Gateways.{Sockets, explicit, mcast_discovery, enable, receive_from}
use link_wire_rs.Runtime.Steps.{here, next, received, enabled}
use link_wire_rs.Runtime.House.{life-retries}
use link_wire_rs.Tests.Life.{whole}
use link_wire_rs.Codec.Reader
use link_wire_rs.Codec.Writer
use link_wire_rs.Codec.Entries
use link_wire_rs.Types.Id
use link_wire_rs.Types.Endpoint
use link_wire_rs.Discovery.Encode as DiscoveryEncode
use link_wire_rs.Discovery.Decode as DiscoveryDecode
use link_wire_rs.Sync.Encode as SyncEncode
use link_wire_rs.Sync.Decode as SyncDecode
use link_wire_rs.Engine.State as EngineState
use link_wire_rs.Engine.Send as EngineSend
use link_wire_rs.Engine.Measure as EngineMeasure
use link_wire_rs.Engine.Gossip as EngineGossip
use link_wire_rs.Engine.Housekeeping
use link_wire_rs.Runtime.Gateways
use link_wire_rs.Common.Bytes
use link_wire_rs.Common.Int
use link_wire_rs.Math.Word

abbrev us : LinkId
us = 1 ∷ 2 ∷ 3 ∷ 4 ∷ 5 ∷ 6 ∷ 7 ∷ 8 ∷ []

abbrev them : LinkId
them = 1 ∷ 2 ∷ 3 ∷ 4 ∷ 5 ∷ 6 ∷ 7 ∷ 9 ∷ []

abbrev ticks : Env
ticks = record { clock = λ n. pos n; ids = λ n. us }

abbrev open_sockets : Sockets
open_sockets id addr = some (v4 addr 20000, v4 addr 20001)

abbrev their_door : SocketAddr
their_door = v4 8 20000

abbrev their_state : PeerState
their_state = record {
  timeline = none;
  session = some them;
  start_stop = none;
  measurement_endpoint = some their_door;
  audio_endpoint = none;
}

abbrev enabled_peer : State
enabled_peer = enable open_sockets (explicit (7 ∷ [])) none ticks (new us (bpm_to_tempo whole 120))

-- It has heard of another session, and measures it.
abbrev measuring : State
measuring =
    receive_from ticks 0 1 (v4 8 20808) (encode (alive_frame them their_state)) mcast_discovery
      enabled_peer

-- The timer runs out, a pong without a sample comes, and the timer runs out again.
abbrev round : List Event
round =
    timer (pos 90000) (pos 90000)
    ∷ datagram 0 their_door (encode_pong them (pos 5) [])
    ∷ timer (pos 180000) (pos 180000)
    ∷ []

abbrev result : State
result = happen ticks round measuring

abbrev measured : Measurement
measured = record {
  task = record { session = them; target = their_door; gateway = 0; purpose = join };
  samples = [];
  timeouts = 2;
  retry_deadline = pos 230000;
}

retries_run :
    ((happen ticks round measuring).measurement ≡ some measured)
    × (length (happen ticks round measuring).pending ≡ length measuring.pending)
unfolding Reader.take Reader.u8 Reader.u16 Reader.u32 Reader.u64 Reader.i64 Reader.id Writer.bytes
    Writer.u8 Writer.u16 Writer.u32 Writer.u64 Writer.i64 Writer.id Writer.copy_at Writer.entry
    Entries.decode Entries.parse Entries.next Entries.scan_loop Entries.scan Id.read Id.write Id.eqb
    Endpoint.read_endpoint_v4 Endpoint.write_endpoint Endpoint.write_endpoint_entry
    Endpoint.decode_endpoint_value DiscoveryEncode.write_opt DiscoveryEncode.write_state
    DiscoveryEncode.write_payload DiscoveryEncode.encode DiscoveryDecode.state_step
    DiscoveryDecode.read_state DiscoveryDecode.is_alive DiscoveryDecode.decode_header
    DiscoveryDecode.decode_message DiscoveryDecode.decode SyncEncode.encode_pong
    SyncDecode.leading_step SyncDecode.leading_loop SyncDecode.decode_pong SyncDecode.decode_payload
    SyncDecode.decode SyncDecode.parse_echo EngineState.now EngineState.random_id EngineState.push
    EngineState.new EngineSend.send_alive EngineMeasure.is_queued EngineMeasure.send_measurement
    EngineMeasure.start_task EngineMeasure.start_next_measurement EngineMeasure.queue_measurement
    EngineMeasure.new_samples EngineMeasure.take_samples EngineMeasure.handle_pong
    EngineMeasure.handle_measurement_datagram EngineGossip.process_foreign
    EngineGossip.process_peer_state EngineGossip.respond EngineGossip.process_message
    EngineGossip.process_payload EngineGossip.admits EngineGossip.process_header
    EngineGossip.handle_discovery_datagram Housekeeping.retry Housekeeping.retry_step
    Gateways.open_gateway Gateways.gateway_live Gateways.dispatch Gateways.receive_from
    Gateways.open_all Gateways.first_of_each Gateways.addresses Gateways.found Gateways.enable
    Bytes.bytes_eqb Bytes.from_be_bytes Bytes.to_be_bytes Bytes.as_signed Bytes.as_unsigned Int.◌+ℤ◌
    Word.wrap Word.◌+w◌
retries_run = (refl, refl)

life-retries_example :
    (m : Measurement) × (measuring.measurement ≡ some m)
    × (measured.task ≡ m.task)
    × (measured.timeouts ≡ m.timeouts + retries ticks round measuring)
    × (retries ticks round measuring ≤ max_measurement_retries)
life-retries_example =
    life-retries whole 120 us measuring ticks round measured
      (next (next here (enabled open_sockets (explicit (7 ∷ [])) none ticks))
        (received ticks 0 1 (v4 8 20808) (encode (alive_frame them their_state)) mcast_discovery))
      retries_run.0 retries_run.1
