-- ===== src/LinkAudio/Inbound.antt =====
-- `handle_datagram` of crates/tactus/src/audio.rs: what a peer makes of a LinkAudio datagram.
use link_wire_rs.Common.{
  ℕ, List, [], ◌∷◌, ◌++◌, Option, none, some, Bool, false, not, ◌&&◌, ◌||◌, length, drop, ◌==◌,
  if◌then◌else◌,
}
use link_wire_rs.Common.Int.{ℤ, pos, ◌*ℤ◌, ltb_ℤ}
use link_wire_rs.Common.Maps.{get, insert, remove, retain, any, nat_eq}
use link_wire_rs.Types.Id
use link_wire_rs.Types.Id.{LinkId}
use link_wire_rs.Types.Endpoint.{SocketAddr}
use link_wire_rs.Types.Timeline.{Timeline}
use link_wire_rs.Codec.Error.{ok, err, stuck}
use link_wire_rs.Math.Word.{◌+w◌, ◌-w◌}
use link_wire_rs.AudioWire.Message.{
  ChannelInfo, AudioBuffer, Message, Frame, peer_announcement, channel_byes, pong, channel_request,
  stop_channel_request, audio_buffer, new_frame,
}
use link_wire_rs.AudioWire.Encode.{encode}
use link_wire_rs.AudioWire.Decode.{decode}
use link_wire_rs.LinkAudio.State.{AudioState, KnownChannel, PathStats, Sink, Source}
use link_wire_rs.LinkAudio.Deliver.{deliver}
use link_wire_rs.Engine.State.{State, Env, PeerEntry, audio, now, push, eqb_addr, id_eq, key_eq}

abbrev pub rtt_window : ℕ
rtt_window = 10

abbrev pub drop_full : List ℤ → List ℤ
drop_full rtts = if length rtts == rtt_window then drop 1 rtts else rtts

-- `PathStats::record`
unfoldable pub record_rtt : ℤ → PathStats → PathStats
record_rtt rtt p = record { rtts = drop_full p.rtts ++ (rtt ∷ []) }

unfoldable pub send_via : ℕ → List ℕ → SocketAddr → State → State
send_via gw bytes dst st = elim (get gw st.gateways) [
  | none ↦ st
  | some g ↦ push (audio gw bytes dst) st
]

unfoldable pub answer_keepalive : ℕ → SocketAddr → Option ℤ → State → State
answer_keepalive gw src none st = st
answer_keepalive gw src (some ht) st = send_via gw (encode (new_frame st.node (pong ht))) src st

abbrev pub is_addr : Option SocketAddr → SocketAddr → Bool
is_addr none a = false
is_addr (some b) a = eqb_addr b a

abbrev pub advertises : SocketAddr → Option PeerEntry → Bool
advertises src none = false
advertises src (some e) = is_addr e.state.audio_endpoint src

unfoldable pub endpoint_known : LinkId → ℕ → SocketAddr → State → Bool
endpoint_known node gw src st = advertises src (get (node, gw) st.peers)

-- The channels that an announcement lists, each with a fresh deadline.
unfoldable pub list_channels :
    LinkId
    → ℕ
    → List ℕ
    → ℤ
    → List ChannelInfo
    → List ((LinkId × ℕ) × KnownChannel)
    → List ((LinkId × ℕ) × KnownChannel)
list_channels node gw peer_name deadline [] known = known
list_channels node gw peer_name deadline (ch ∷ chs) known =
    list_channels node gw peer_name deadline chs (
      insert (ch.id, gw)
        (record { peer = node; peer_name = peer_name; name = ch.name; deadline = deadline }) known)

abbrev pub path_or_default : Option PathStats → PathStats
path_or_default none = record { rtts = [] }
path_or_default (some p) = p

-- `iter_mut().find(..)`: the first sink with the channel's id changes.
unfoldable pub update_sink : LinkId → (Sink → Sink) → List Sink → List Sink
update_sink channel f [] = []
update_sink channel f (s ∷ sinks) =
    let rest = update_sink channel f sinks in if Id.eqb s.id channel then f s ∷ sinks else s ∷ rest

abbrev pub deliver_to :
    LinkId
    → Option Source
    → AudioBuffer
    → Timeline
    → ℤ
    → List (LinkId × Source)
    → List (LinkId × Source)
deliver_to channel none buf timeline at sources = sources
deliver_to channel (some source) buf timeline at sources =
    insert channel (deliver source buf timeline at) sources

-- `now + ttl * 1_000_000`
abbrev pub deadline_of : ℤ → ℕ → ℤ
deadline_of at ttl = at +w pos ttl *ℤ pos 1000000

-- The change that each message makes to the audio state.
unfoldable pub receive : State → ℕ → SocketAddr → ℤ → LinkId → ℕ → Message → AudioState → AudioState
receive st gw src at node ttl (peer_announcement session peer_name channels ping) a =
    if endpoint_known node gw src st
    then record a { known = list_channels node gw peer_name (deadline_of at ttl) channels a.known }
    else a
receive st gw src at node ttl (pong host_time) a =
    let rtt = at -w host_time in
    record a {
      paths =
          insert (node, gw)
            (record_rtt (if ltb_ℤ rtt (pos 0) then pos 0 else rtt)
              (path_or_default (get (node, gw) a.paths)))
            a.paths;
    }
receive st gw src at node ttl (channel_request channel) a = record a {
  sinks =
      update_sink channel
        (λ s. record s { requesters = insert node (deadline_of at ttl) s.requesters }) a.sinks;
}
receive st gw src at node ttl (stop_channel_request channel) a = record a {
  sinks = update_sink channel (λ s. record s { requesters = remove node s.requesters }) a.sinks;
}
receive st gw src at node ttl (channel_byes channels) a = record a {
  known =
      retain (λ k. not (k.0.1 == gw && Id.eqb k.1.peer node && any (λ c. Id.eqb c k.0.0) channels))
        a.known;
}
receive st gw src at node ttl (audio_buffer buf) a =
    if not (Id.eqb buf.session st.session) then a else record a {
      sources = deliver_to buf.channel (get buf.channel a.sources) buf st.timeline at a.sources;
    }

-- The ping of an announcement is answered first, wherever it came from.
abbrev pub ping_of : Message → Option ℤ
ping_of (peer_announcement session peer_name channels ping) = ping
ping_of (channel_byes channels) = none
ping_of (pong host_time) = none
ping_of (channel_request channel) = none
ping_of (stop_channel_request channel) = none
ping_of (audio_buffer buf) = none

unfoldable pub receive_frame : Env → ℕ → SocketAddr → Frame → AudioState → State → State
receive_frame env gw src f a st =
    let (at, st1) = now env st in
    if Id.eqb f.node st.node || not (f.group_id == 0)
    then st
    else record (answer_keepalive gw src (ping_of f.message) st1) {
      audio = some (receive st gw src at f.node f.ttl f.message a);
    }

unfoldable pub handle_datagram : Env → ℕ → SocketAddr → List ℕ → State → State
handle_datagram env gw src buf st = if not st.enabled then st else elim st.audio [
  | none ↦ st
  | some a ↦ elim (decode buf) [ ok f ↦ receive_frame env gw src f a st | err e ↦ st | stuck ↦ st ]
]
