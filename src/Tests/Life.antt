-- ===== src/Tests/Life.antt =====
-- The theorems of a peer's life at concrete lives.
use link_wire_rs.Common.{
  ◌+◌, ◌-◌, ◌*◌, ◌/◌, ◌%◌, leb, ltb, ℕ, ◌≡◌, refl, List, [], ◌∷◌, none, some, true, false, arith,
}
use link_wire_rs.Math.Float.{Float, IsClamped, bpm_to_tempo}
use link_wire_rs.Common.Int.{pos_part, ℤ, pos, ◌≤ℤ◌}
use link_wire_rs.Common.Maps.{get, nat_eq}
use link_wire_rs.Types.Endpoint.{SocketAddr, v4}
use link_wire_rs.Types.Id.{LinkId}
use link_wire_rs.Iface.Plan.{Interface, localhost}
use link_wire_rs.Iface.Sets.{admit_lem}
use link_wire_rs.LinkAudio.State as AudioStates
use link_wire_rs.LinkAudio.State.{AudioState, Sink, KnownChannel}
use link_wire_rs.LinkAudio.Requests.{shutdown}
use link_wire_rs.LinkAudio.Timers.{housekeeping, whole_pass}
use link_wire_rs.LinkAudio.Expiry.{IsTimely, IsCurrent, housekeeping-IsCurrent, whole_pass_returns}
use link_wire_rs.Engine.State.{State, Env, Gateway, new, now, random_id, alive_period}
use link_wire_rs.Math.Word.{◌+w◌}
use link_wire_rs.Engine.Send.{send_alive}
use link_wire_rs.Engine.Budget.{doors, InBudget, IsSpaced}
use link_wire_rs.Runtime.Gateways.{
  Role, Sockets, explicit, mcast_discovery, enable, disable, gateway_live, receive_from, rescan,
  found, addresses, first_of_each, open_all, open_gateway,
}
use link_wire_rs.Runtime.Steps.{Reach, here, next, received, enabled, disabled}
use link_wire_rs.Runtime.House.{IsHouse, life-IsHouse, life-IsClamped}
use link_wire_rs.Runtime.Receivers.{dead_receiver}
use link_wire_rs.Runtime.Rescans.{rescan_keeps}

abbrev node_id : LinkId
node_id = 1 ∷ 2 ∷ 3 ∷ 4 ∷ 5 ∷ 6 ∷ 7 ∷ 8 ∷ []

-- An arithmetic of whole numbers.
abbrev pub whole : Float
whole = record {
  Double = ℕ;
  of = pos_part;
  to_i64 = pos;
  add = ◌+◌;
  sub = ◌-◌;
  mul = ◌*◌;
  div = ◌/◌;
  rem_euclid = ◌%◌;
  sqrt = λ n. n;
  round = λ n. n;
  le = leb;
  lt = ltb;
  parse = λ word. none;
}

abbrev minutes : Env
minutes = record { clock = λ n. pos n; ids = λ n. node_id }

abbrev bound : Sockets
bound id addr = some (v4 addr 20000, v4 addr 20001)

-- On two addresses, one of them twice.
abbrev on : State → State
on st = enable bound (explicit (7 ∷ localhost ∷ 7 ∷ [])) none minutes st

abbrev first_sight : State
first_sight =
    receive_from minutes 0 1 (v4 8 20808) (95 ∷ 97 ∷ []) mcast_discovery
      (on (new node_id (bpm_to_tempo whole 120)))

life-IsHouse_example : IsHouse (doors (disable first_sight)) × InBudget (disable first_sight)
life-IsHouse_example = life-IsHouse whole 120 node_id (disable first_sight) (
    next
      (next (next here (enabled bound (explicit (7 ∷ localhost ∷ 7 ∷ [])) none minutes))
        (received minutes 0 1 (v4 8 20808) (95 ∷ 97 ∷ []) mcast_discovery))
      disabled)

life-IsClamped_example :
    IsClamped (disable first_sight).timeline.tempo
    × IsSpaced (disable first_sight).broadcast_due (disable first_sight).last_broadcast_at
life-IsClamped_example = life-IsClamped whole 120 node_id (disable first_sight) (
    next
      (next (next here (enabled bound (explicit (7 ∷ localhost ∷ 7 ∷ [])) none minutes))
        (received minutes 0 1 (v4 8 20808) (95 ∷ 97 ∷ []) mcast_discovery))
      disabled)

abbrev start : State
start = new node_id (bpm_to_tempo whole 120)

abbrev left : State
left = disable (on start)

enabling : Reach whole start (on start)
enabling = next here (enabled bound (explicit (7 ∷ localhost ∷ 7 ∷ [])) none minutes)

left-not_live : (gateway_live 1 1 left ≡ false) × (left.next_gateway_id ≡ 2) × (left.epoch ≡ 2)
unfolding gateway_live new enable found addresses first_of_each open_all open_gateway disable
    shutdown random_id now send_alive
left-not_live = (refl, refl, refl)

dead_receiver_example :
    (gateway_live 1 1 (on left) ≡ false)
    × ((env : Env) (src : SocketAddr) (buf : List ℕ) (role : Role)
        → receive_from env 1 1 src buf role (on left) ≡ on left)
dead_receiver_example =
    let (quiet, ids, epochs) = left-not_live in
    dead_receiver whole 120 node_id 1 1 left (on left) (next enabling disabled)
      (rw ids (omega arith)) (rw epochs (omega arith)) quiet
      (next here (enabled bound (explicit (7 ∷ localhost ∷ 7 ∷ [])) none minutes))

abbrev wired : Interface
wired = record { addr = 9; up = true; loopback = false; multicast = true; point_to_point = false }

abbrev home : Gateway
home = record {
  id = 1;
  addr = localhost;
  measurement_endpoint = v4 localhost 20000;
  audio_endpoint = v4 localhost 20001;
}

home-open : get 1 (on start).gateways ≡ some home
unfolding new enable found addresses first_of_each open_all open_gateway random_id now send_alive
home-open = refl

rescan_keeps_example :
    get 1 (rescan bound minutes 1 (some (wired ∷ [])) [] (on start)).1.gateways ≡ some home
rescan_keeps_example =
    rescan_keeps whole 120 node_id (on start) enabling bound minutes 1 (some (wired ∷ [])) [] 1 home
      home-open (λ list e. rw (admit_lem list localhost) (ground arith))

abbrev heard_channel : KnownChannel
heard_channel = record { peer = node_id; peer_name = []; name = 97 ∷ []; deadline = pos 3000000 }

abbrev gone_channel : KnownChannel
gone_channel = record heard_channel { deadline = pos 1000000 }

abbrev asked : Sink
asked = record {
  id = node_id;
  name = 98 ∷ [];
  requesters = (node_id, pos 1500000) ∷ [];
  next_seq = 1;
  segments = [];
  format = none;
}

abbrev busy_audio : AudioState
busy_audio = record (AudioStates.new []) {
  sinks = asked ∷ [];
  known = ((node_id, 0), gone_channel) ∷ ((node_id, 1), heard_channel) ∷ [];
}

busy-IsTimely : IsTimely busy_audio
unfolding AudioStates.new
busy-IsTimely = record {
  announced = omega arith;
  requested = tt;
  known = omega arith;
  sinks = omega arith;
}

abbrev no_rank : List ℤ → ℤ
no_rank samples = pos 0

abbrev busy : State
busy = record start { audio = some busy_audio }

housekeeping-IsCurrent_example :
    (wake : ℤ) × (st' : State) × (a' : AudioState) × (housekeeping no_rank (pos 2500000) busy
      ≡ some (wake, st'))
    × (st'.audio ≡ some a')
    × IsCurrent (pos 2500000) busy_audio a'
housekeeping-IsCurrent_example =
    housekeeping-IsCurrent no_rank (pos 2500000) busy busy_audio refl busy-IsTimely

whole_pass_returns_example :
    (r : ℤ × State) × (whole_pass no_rank minutes busy ≡ some r)
    × (r.0 ≤ℤ minutes.clock busy.reads +w alive_period)
whole_pass_returns_example = whole_pass_returns no_rank minutes busy
