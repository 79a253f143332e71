-- ===== src/Engine/State.antt =====
-- The data of crates/tactus/src/engine.rs. The state carries, besides the fields of the source, how often
-- the clock and the generator of ids were read, and what was sent; a wake-up of the housekeeping thread
-- changes nothing and is left out. Offset samples are counted in half microseconds.
use link_wire_rs.Common.{
  ℕ, suc, ◌≡◌, ◌==◌, ◌&&◌, ◌↔◌, List, [], ◌∷◌, ◌++◌, Option, none, some, Bool, true, false, arith,
}
use link_wire_rs.Common.Int.{ℤ, pos}
use link_wire_rs.Common.Maps.{Eq}
use link_wire_rs.Types.Id
use link_wire_rs.Types.Id.{LinkId}
use link_wire_rs.Types.Timeline.{Timeline}
use link_wire_rs.Types.StartStop
use link_wire_rs.Types.StartStop.{StartStopState}
use link_wire_rs.Types.Endpoint.{SocketAddr, v4, v6}
use link_wire_rs.Discovery.Message.{PeerState}
use link_wire_rs.LinkAudio.State.{AudioState}

abbrev pub join_epsilon : ℤ
join_epsilon = pos 500000

abbrev pub remeasure_period : ℤ
remeasure_period = pos 30000000

abbrev pub prune_padding : ℤ
prune_padding = pos 1000000

abbrev pub alive_period : ℤ
alive_period = pos 250000

abbrev pub min_broadcast_spacing : ℤ
min_broadcast_spacing = pos 50000

abbrev pub measurement_retry : ℤ
measurement_retry = pos 50000

abbrev pub max_measurement_retries : ℕ
max_measurement_retries = 5

-- `Gateway` of net.rs, its sockets being the addresses that they are bound to.
pub record Gateway : Type 0 where
  pub id : ℕ
  pub addr : ℕ
  pub measurement_endpoint : SocketAddr
  pub audio_endpoint : SocketAddr

pub record PeerEntry : Type 0 where
  pub state : PeerState
  pub deadline : ℤ

pub data Purpose : Type 0 where
  join : Purpose
  remeasure : Purpose

pub record MeasureTask : Type 0 where
  pub session : LinkId
  pub target : SocketAddr
  pub gateway : ℕ
  pub purpose : Purpose

pub record Measurement : Type 0 where
  pub task : MeasureTask
  pub samples : List ℤ
  pub timeouts : ℕ
  pub retry_deadline : ℤ

-- A datagram that left through a gateway: to the discovery group, from the discovery socket, from the
-- measurement socket or from the audio socket.
pub data Sent : Type 0 where
  multicast : ℕ → List ℕ → Sent
  unicast : ℕ → List ℕ → SocketAddr → Sent
  measurement : ℕ → List ℕ → SocketAddr → Sent
  audio : ℕ → List ℕ → SocketAddr → Sent

pub record State : Type 0 where
  pub enabled : Bool
  pub epoch : ℕ
  pub node : LinkId
  pub session : LinkId
  pub timeline : Timeline
  pub ghost_offset : ℤ
  pub held_stst : StartStopState
  pub app_playing : Bool
  pub sst_sync : Bool
  pub gateways : List (ℕ × Gateway)
  pub next_gateway_id : ℕ
  pub peers : List ((LinkId × ℕ) × PeerEntry)
  pub session_member_seen : Bool
  pub foreign_timelines : List (LinkId × Timeline)
  pub measured : List (LinkId × ℤ)
  pub measurement : Option Measurement
  pub pending : List MeasureTask
  pub last_alive_at : ℤ
  pub last_broadcast_at : ℤ
  pub broadcast_due : Option ℤ
  pub next_remeasure_at : Option ℤ
  pub audio : Option AudioState
  -- not of the source
  pub reads : ℕ
  pub draws : ℕ
  pub sent : List Sent

-- The n-th reading of the clock and the n-th id that the generator draws.
pub record Env : Type 0 where
  pub clock : ℕ → ℤ
  pub ids : ℕ → LinkId

-- `self.now()`
unfoldable pub now : Env → State → ℤ × State
now env st = (env.clock st.reads, record st { reads = suc st.reads })

-- `random_id()`
unfoldable pub random_id : Env → State → LinkId × State
random_id env st = (env.ids st.draws, record st { draws = suc st.draws })

unfoldable pub push : Sent → State → State
push s st = record st { sent = st.sent ++ (s ∷ []) }

abbrev pub is_id : Option LinkId → LinkId → Bool
is_id none i = false
is_id (some j) i = Id.eqb j i

abbrev pub eqb_addr : SocketAddr → SocketAddr → Bool
eqb_addr (v4 a p) (v4 b q) = a == b && p == q
eqb_addr (v6 a p f s) (v6 b q g t) = a == b && p == q && f == g && s == t
eqb_addr (v4 a p) (v6 b q g t) = false
eqb_addr (v6 a p f s) (v4 b q) = false

instance abbrev pub id_eq : Eq LinkId
id_eq = record { same = Id.eqb; same_iff = Id.eqb_iff }

pub key_same_iff : (p q : LinkId × ℕ) → ((Id.eqb p.0 q.0 && p.1 == q.1) ≡ true) ↔ (p ≡ q)
key_same_iff p q = ground (arith, Id.eqb_iff p.0 q.0)

-- Peers and paths are keyed by node and gateway.
instance abbrev pub key_eq : Eq (LinkId × ℕ)
key_eq = record { same = λ p q. Id.eqb p.0 q.0 && p.1 == q.1; same_iff = key_same_iff }

-- `Engine::new`, its first node and the wire period of its tempo given.
unfoldable pub new : LinkId → ℤ → State
new node tempo = record {
  enabled = false;
  epoch = 0;
  node = node;
  session = node;
  timeline = record { tempo = tempo; beat_origin = pos 0; time_origin = pos 0 };
  ghost_offset = pos 0;
  held_stst = StartStop.default;
  app_playing = false;
  sst_sync = false;
  gateways = [];
  next_gateway_id = 0;
  peers = [];
  session_member_seen = false;
  foreign_timelines = [];
  measured = [];
  measurement = none;
  pending = [];
  last_alive_at = pos 0;
  last_broadcast_at = pos 0;
  broadcast_due = none;
  next_remeasure_at = none;
  audio = none;
  reads = 0;
  draws = 1;
  sent = [];
}
