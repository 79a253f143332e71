-- ===== src/LinkAudio/Requests.antt =====
-- Requests and withdrawals in crates/tactus/src/audio.rs, and the calls of an application that make them.
use link_wire_rs.Common.{
  ℕ, zero, suc, ◌-◌, ◌/◌, ◌^◌, List, [], ◌∷◌, ◌++◌, length, take, drop, Option, none, some, Bool,
  true, false, not, ◌==◌, if◌then◌else◌,
}
use link_wire_rs.Common.Int.{ℤ, pos, negsuc, leb_ℤ}
use link_wire_rs.Common.Maps.{get, insert, remove, retain, find_map}
use link_wire_rs.Types.Id
use link_wire_rs.Types.Id.{LinkId}
use link_wire_rs.Math.Word.{◌-w◌}
use link_wire_rs.AudioWire.Message.{
  Message, channel_request, stop_channel_request, channel_byes, new_frame, max_payload, max_name,
}
use link_wire_rs.AudioWire.Encode.{encode}
use link_wire_rs.LinkAudio.State.{AudioState, KnownChannel, Sink, Source, new}
use link_wire_rs.LinkAudio.Inbound.{send_via}
use link_wire_rs.LinkAudio.Paths.{best_path, session_endpoints, send_to}
use link_wire_rs.Engine.State.{State, Env, now, random_id, id_eq}
use link_wire_rs.Engine.Send.{schedule_broadcast}

-- A source is receiving while buffers arrived within this window.
abbrev pub receiving_window : ℤ
receiving_window = pos 1000000

abbrev pub publisher : LinkId → List ((LinkId × ℕ) × KnownChannel) → Option LinkId
publisher channel known = find_map (λ k. if Id.eqb k.0.0 channel then some k.1.peer else none) known

abbrev pub request_of : LinkId → Bool → Message
request_of channel stop = if stop then stop_channel_request channel else channel_request channel

unfoldable pub send_request : (List ℤ → ℤ) → AudioState → LinkId → Bool → State → State
send_request rank a channel stop st = elim (publisher channel a.known) [
  | none ↦ st
  | some node ↦ elim (best_path rank st.peers a.paths node) [
    | none ↦ st
    | some p ↦ send_via p.0 (encode (new_frame st.node (request_of channel stop))) p.1 st
  ]
]

-- `(MAX_PAYLOAD - 12) / 8`
abbrev pub per_message : ℕ
per_message = (max_payload - 12) / 8

-- `channels.chunks(per_message)`, on fuel: as much as there are channels is enough.
unfoldable pub id_chunks : ℕ → List LinkId → List (List LinkId)
id_chunks zero ids = []
id_chunks (suc n) [] = []
id_chunks (suc n) (i ∷ ids) = take per_message (i ∷ ids) ∷ id_chunks n (drop per_message (i ∷ ids))

unfoldable pub byes : LinkId → List LinkId → List ℕ
byes node ids = encode (new_frame node (channel_byes ids))

-- The loop over the chunks of ids.
unfoldable pub send_chunks : List (List LinkId) → State → State
send_chunks [] st = st
send_chunks (ids ∷ rest) st =
    send_chunks rest (send_to (session_endpoints st.peers st.session) (byes st.node ids) st)

unfoldable pub send_byes : List LinkId → State → State
send_byes channels st = send_chunks (id_chunks (length channels) channels) st

abbrev pub sink_ids : List Sink → List LinkId
sink_ids [] = []
sink_ids (s ∷ sinks) = s.id ∷ sink_ids sinks

unfoldable pub shutdown : State → State
shutdown st = elim st.audio [
  | none ↦ st
  | some a ↦ record (send_byes (sink_ids a.sinks) st) { audio = none }
]

unfoldable pub enable : Env → List ℕ → State → State
enable env peer_name st = elim st.audio [
  | none ↦ schedule_broadcast env (record st { audio = some (new peer_name) })
  | some a ↦ st
]

unfoldable pub disable : Env → State → State
disable env st = elim st.audio [ none ↦ st | some a ↦ schedule_broadcast env (shutdown st) ]

abbrev pub new_sink : LinkId → List ℕ → Sink
new_sink id name = record {
  id = id;
  name = take max_name name;
  requesters = [];
  next_seq = 1;
  segments = [];
  format = none;
}

unfoldable pub publish : Env → List ℕ → State → Option LinkId × State
publish env name st = elim st.audio [
  | none ↦ (none, st)
  | some a ↦
      let (id, st1) = random_id env st in
      (
        some id,
        record st1 {
          audio =
              some
                (record a { sinks = a.sinks ++ (new_sink id name ∷ []); last_announce_at = pos 0 });
        },
      )
]

abbrev pub without : LinkId → List Sink → List Sink
without channel sinks = retain (λ s. not (Id.eqb s.id channel)) sinks

unfoldable pub unpublish : LinkId → State → State
unpublish channel st = elim st.audio [
  | none ↦ st
  | some a ↦
      let st1 : State = record st { audio = some (record a { sinks = without channel a.sinks }) } in
      if length (without channel a.sinks) == length a.sinks
      then st1
      else send_byes (channel ∷ []) st1
]

-- `last_buffer_at` is `i64::MIN / 2`.
abbrev pub new_source : ℤ → ℤ → Source
new_source quantum at = record {
  quantum = quantum;
  last_request_at = at;
  last_buffer_at = negsuc (2 ^ 62 - 1);
  inbox = [];
  next_seq_expected = none;
  lost_chunks = 0;
}

-- `entry(channel).or_insert(source)`
abbrev pub or_insert :
    LinkId → Source → Option Source → List (LinkId × Source) → List (LinkId × Source)
or_insert channel source none sources = insert channel source sources
or_insert channel source (some old) sources = sources

unfoldable pub subscribe : (List ℤ → ℤ) → Env → LinkId → ℤ → State → State
subscribe rank env channel quantum st =
    let (at, st1) = now env st in
    elim st.audio [
      | none ↦ st1
      | some a ↦
          let a' : AudioState = record a {
            sources = or_insert channel (new_source quantum at) (get channel a.sources) a.sources;
          } in
          send_request rank a' channel false (record st1 { audio = some a' })
    ]

unfoldable pub is_receiving : LinkId → ℤ → State → Bool
is_receiving channel at st = elim st.audio [
  | none ↦ false
  | some a ↦ elim (get channel a.sources) [
    | none ↦ false
    | some s ↦ leb_ℤ (at -w s.last_buffer_at) receiving_window
  ]
]

unfoldable pub unsubscribe : (List ℤ → ℤ) → LinkId → State → State
unsubscribe rank channel st = elim st.audio [
  | none ↦ st
  | some a ↦ elim (get channel a.sources) [
    | none ↦ st
    | some s ↦
        let a' : AudioState = record a { sources = remove channel a.sources } in
        send_request rank a' channel true (record st { audio = some a' })
  ]
]
