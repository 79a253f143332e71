-- ===== src/Discovery/Message.antt =====
-- The messages and constants of crates/tactus-wire/src/discovery.rs.
use link_wire_rs.Common.{ℕ, ◌<◌, ◌^◌, ◌≡◌, List, [], ◌∷◌, Option, none, some, length}
use link_wire_rs.Common.Bytes.{fourcc}
use link_wire_rs.Types.Id.{LinkId}
use link_wire_rs.Types.Timeline.{Timeline, IsTimeline}
use link_wire_rs.Types.StartStop.{StartStopState, IsStartStopState}
use link_wire_rs.Types.Endpoint.{SocketAddr, IsSendable}

-- b"_asdp_v\x01"
abbrev pub magic : List ℕ
magic = b'_' ∷ b'a' ∷ b's' ∷ b'd' ∷ b'p' ∷ b'_' ∷ b'v' ∷ 1 ∷ []

abbrev pub max_message_size : ℕ
max_message_size = 512

abbrev pub ttl_seconds : ℕ
ttl_seconds = 5

abbrev pub type_alive : ℕ
type_alive = 1

abbrev pub type_response : ℕ
type_response = 2

abbrev pub type_byebye : ℕ
type_byebye = 3

abbrev pub tmln : ℕ
tmln = fourcc b't' b'm' b'l' b'n'

abbrev pub sess : ℕ
sess = fourcc b's' b'e' b's' b's'

abbrev pub stst : ℕ
stst = fourcc b's' b't' b's' b't'

abbrev pub mep4 : ℕ
mep4 = fourcc b'm' b'e' b'p' b'4'

abbrev pub mep6 : ℕ
mep6 = fourcc b'm' b'e' b'p' b'6'

abbrev pub aep4 : ℕ
aep4 = fourcc b'a' b'e' b'p' b'4'

abbrev pub aep6 : ℕ
aep6 = fourcc b'a' b'e' b'p' b'6'

pub record PeerState : Type 0 where
  pub timeline : Option Timeline
  pub session : Option LinkId
  pub start_stop : Option StartStopState
  pub measurement_endpoint : Option SocketAddr
  pub audio_endpoint : Option SocketAddr

-- The derived `Default`.
abbrev pub no_state : PeerState
no_state = record {
  timeline = none;
  session = none;
  start_stop = none;
  measurement_endpoint = none;
  audio_endpoint = none;
}

pub data Message : Type 0 where
  alive : PeerState → Message
  response : PeerState → Message
  bye_bye : Message

pub record Frame : Type 0 where
  pub ttl : ℕ
  pub group_id : ℕ
  pub node : LinkId
  pub message : Message

-- `P`, where there is a value.
abbrev pub Opt : {A : Type 0} → (A → Type 0) → Option A → Type 0
Opt P none = Unit
Opt P (some a) = P a

-- What the field types say, and endpoints that the wire can carry.
pub record IsPeerState (s : PeerState) : Type 0 where
  pub timeline : Opt IsTimeline s.timeline
  pub session : Opt (λ i. length i ≡ 8) s.session
  pub start_stop : Opt IsStartStopState s.start_stop
  pub measurement_endpoint : Opt IsSendable s.measurement_endpoint
  pub audio_endpoint : Opt IsSendable s.audio_endpoint

abbrev pub IsMessage : Message → Type 0
IsMessage (alive s) = IsPeerState s
IsMessage (response s) = IsPeerState s
IsMessage bye_bye = Unit

pub record IsFrame (f : Frame) : Type 0 where
  pub ttl : f.ttl < 2 ^ 8
  pub group_id : f.group_id < 2 ^ 16
  pub node : length f.node ≡ 8
  pub message : IsMessage f.message

-- `Frame::alive`, `Frame::response` and `Frame::bye_bye`
abbrev pub alive_frame : LinkId → PeerState → Frame
alive_frame node s = record { ttl = ttl_seconds; group_id = 0; node = node; message = alive s }

abbrev pub response_frame : LinkId → PeerState → Frame
response_frame node s = record {
  ttl = ttl_seconds;
  group_id = 0;
  node = node;
  message = response s;
}

abbrev pub bye_bye_frame : LinkId → Frame
bye_bye_frame node = record { ttl = 0; group_id = 0; node = node; message = bye_bye }
