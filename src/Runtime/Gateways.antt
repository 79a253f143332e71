-- ===== src/Runtime/Gateways.antt =====
-- Enabling and disabling, receivers and rescans in crates/tactus/src/runtime.rs. The sockets that a gateway
-- opens are given by `sockets`, which the system answers: the addresses that the measurement and the audio
-- socket are bound to, or none where opening fails. A rescan is the work of its thread after a wait, on what
-- the scan of the interfaces gave; a receiver's work is what it does with one datagram.
use link_wire_rs.Common.{
  ℕ, suc, List, [], ◌∷◌, ◌++◌, Option, none, some, Bool, true, false, not, ◌&&◌, ◌||◌, ◌==◌,
  if◌then◌else◌,
}
use link_wire_rs.Common.Int.{ℤ, pos}
use link_wire_rs.Common.Maps.{get, insert, retain, nat_eq}
use link_wire_rs.Types.Id.{LinkId}
use link_wire_rs.Types.Endpoint.{SocketAddr}
use link_wire_rs.Types.StartStop
use link_wire_rs.Discovery.Message.{bye_bye_frame}
use link_wire_rs.Discovery.Encode.{encode}
use link_wire_rs.Math.Word.{◌-w◌}
use link_wire_rs.LinkAudio.Inbound.{handle_datagram}
use link_wire_rs.LinkAudio.Requests.{shutdown}
use link_wire_rs.Iface.Plan.{Interface, insert_addr, contains, initial, is_empty, plan}
use link_wire_rs.Engine.State.{State, Env, Gateway, Sent, multicast, now, random_id}
use link_wire_rs.Engine.Send.{send_alive, send_alive_on}
use link_wire_rs.Engine.Gossip.{handle_discovery_datagram, close_gateway}
use link_wire_rs.Engine.Measure.{handle_measurement_datagram}

pub data Role : Type 0 where
  mcast_discovery : Role
  unicast_discovery : Role
  measuring : Role
  audio : Role

-- What opening the sockets of a gateway comes to, by its id and address.
abbrev pub Sockets : Type 0
Sockets = ℕ → ℕ → Option (SocketAddr × SocketAddr)

abbrev pub gateway_of : ℕ → ℕ → Option (SocketAddr × SocketAddr) → Option Gateway
gateway_of id addr none = none
gateway_of id addr (some e) =
    some (record { id = id; addr = addr; measurement_endpoint = e.0; audio_endpoint = e.1 })

abbrev pub add_gateway : Option Gateway → State → Option Gateway × State
add_gateway none st = (none, st)
add_gateway (some gw) st = (
  some gw,
  record st { next_gateway_id = suc st.next_gateway_id; gateways = insert gw.id gw st.gateways },
)

-- The gateway, or none for an error.
unfoldable pub open_gateway : Sockets → ℕ → State → Option Gateway × State
open_gateway sockets addr st =
    add_gateway (gateway_of st.next_gateway_id addr (sockets st.next_gateway_id addr)) st

-- `contains_key`
abbrev pub is_open : ℕ → List (ℕ × Gateway) → Bool
is_open id gateways = elim (get id gateways) [ none ↦ false | some gw ↦ true ]

unfoldable pub gateway_live : ℕ → ℕ → State → Bool
gateway_live gw epoch st = st.enabled && st.epoch == epoch && is_open gw st.gateways

unfoldable pub dispatch : Env → ℕ → SocketAddr → List ℕ → Role → State → State
dispatch env gw src buf mcast_discovery st = handle_discovery_datagram env gw src buf st
dispatch env gw src buf unicast_discovery st = handle_discovery_datagram env gw src buf st
dispatch env gw src buf measuring st = handle_measurement_datagram env gw src buf st
dispatch env gw src buf audio st = handle_datagram env gw src buf st

-- A datagram that a receiver of a gateway and an epoch gets. A receiver that is not live returns.
unfoldable pub receive_from : Env → ℕ → ℕ → SocketAddr → List ℕ → Role → State → State
receive_from env gw epoch src buf role st =
    if not (gateway_live gw epoch st) then st else dispatch env gw src buf role st

-- The loop over the addresses of `enable`; an address that does not open is passed over.
unfoldable pub open_all : Sockets → List ℕ → State → State
open_all sockets [] st = st
open_all sockets (a ∷ addrs) st = open_all sockets addrs (open_gateway sockets a st).1

pub data Gateways : Type 0 where
  automatic : Gateways
  explicit : List ℕ → Gateways

-- The first of each address, `seen` being those before.
unfoldable pub first_of_each : List ℕ → List ℕ → List ℕ
first_of_each seen [] = []
first_of_each seen (a ∷ addrs) =
    let rest = first_of_each (if contains seen a then seen else a ∷ seen) addrs in
    if contains seen a then rest else a ∷ rest

unfoldable pub addresses : Gateways → Option (List Interface) → List ℕ
addresses automatic scan = initial scan
addresses (explicit addrs) scan = first_of_each [] addrs

-- A fresh id and session. The tempo stays.
unfoldable pub found : LinkId → ℤ → State → State
found node at st = record st {
  epoch = suc st.epoch;
  enabled = true;
  node = node;
  session = node;
  ghost_offset = pos 0 -w at;
  timeline = record { tempo = st.timeline.tempo; beat_origin = pos 0; time_origin = pos 0 };
  held_stst = StartStop.default;
  session_member_seen = false;
  foreign_timelines = [];
  measured = [];
  measurement = none;
  pending = [];
  peers = [];
  broadcast_due = none;
  next_remeasure_at = none;
}

unfoldable pub enable : Sockets → Gateways → Option (List Interface) → Env → State → State
enable sockets config scan env st =
    let (node, st1) = random_id env st in
    let (at, st2) = now env st1 in
    if st.enabled
    then st
    else send_alive at (open_all sockets (addresses config scan) (found node at st2))

-- `bye`, through every gateway.
unfoldable pub bye_round : List ℕ → List (ℕ × Gateway) → List Sent
bye_round bye [] = []
bye_round bye (g ∷ gs) = multicast g.1.id bye ∷ bye_round bye gs

unfoldable pub disable : State → State
disable st =
    let quiet = shutdown st in
    if not st.enabled then st else record quiet {
      sent = quiet.sent ++ bye_round (encode (bye_bye_frame st.node)) quiet.gateways;
      enabled = false;
      epoch = suc quiet.epoch;
      gateways = [];
      peers = [];
      measurement = none;
      pending = [];
      broadcast_due = none;
      session_member_seen = false;
      next_remeasure_at = none;
    }

-- The addresses of the gateways, as an ascending set.
unfoldable pub current : List (ℕ × Gateway) → List ℕ
current [] = []
current (g ∷ gs) = insert_addr g.1.addr (current gs)

abbrev pub ids_at : ℕ → List (ℕ × Gateway) → List ℕ
ids_at addr [] = []
ids_at addr (g ∷ gs) = let rest = ids_at addr gs in if g.1.addr == addr then g.1.id ∷ rest else rest

unfoldable pub close_ids : Env → List ℕ → State → State
close_ids env [] st = st
close_ids env (id ∷ ids) st = close_ids env ids (close_gateway env id st)

unfoldable pub close_all : Env → List ℕ → State → State
close_all env [] st = st
close_all env (a ∷ addrs) st = close_all env addrs (close_ids env (ids_at a st.gateways) st)

-- An address that does not open is remembered as failed.
abbrev pub after_open : ℕ → List ℕ → Option Gateway × State → List ℕ × State
after_open a failed (none, st) = (if contains failed a then failed else a ∷ failed, st)
after_open a failed (some gw, st) = (retain (λ x. not (x == a)) failed, send_alive_on gw st)

unfoldable pub open_added : Sockets → List ℕ → List ℕ → State → List ℕ × State
open_added sockets [] failed st = (failed, st)
open_added sockets (a ∷ addrs) failed st =
    let (failed', st') = after_open a failed (open_gateway sockets a st) in
    open_added sockets addrs failed' st'

-- The loop's body in an epoch: what failed, and the state. The addresses are those of the state that the plan is
-- carried out in: within an epoch no other thread opens or closes a gateway, and after it nothing is done.
unfoldable pub rescan :
    Sockets → Env → ℕ → Option (List Interface) → List ℕ → State → List ℕ × State
rescan sockets env epoch scan failed st =
    let p = plan scan (current st.gateways) in
    if is_empty p || not (st.enabled && st.epoch == epoch)
    then (failed, st)
    else open_added sockets p.added (retain (contains p.added) failed) (close_all env p.removed st)
