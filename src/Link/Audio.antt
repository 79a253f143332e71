-- ===== src/Link/Audio.antt =====
-- The calls of crates/tactus/src/lib.rs that read or drain LinkAudio, and `simulate_crash`. A name is its bytes,
-- before the lossy conversion into a string: of valid names the order of strings is that of their bytes.
use link_wire_rs.Common.{
  ℕ, suc, List, [], ◌∷◌, Option, none, some, Bool, true, false, not, ◌&&◌, ◌||◌, ltb, ◌==◌,
  if◌then◌else◌, map,
}
use link_wire_rs.Common.Int.{ltb_ℤ}
use link_wire_rs.Common.Maps.{get, insert, any}
use link_wire_rs.Types.Id
use link_wire_rs.Types.Id.{LinkId}
use link_wire_rs.LinkAudio.State.{AudioState, KnownChannel, ReceivedChunk, Source}
use link_wire_rs.LinkAudio.Write.{find_sink}
use link_wire_rs.Engine.State.{State, Env, now, id_eq}

abbrev pub poll_source : LinkId → AudioState → Option Source → State → List ReceivedChunk × State
poll_source id a none st = ([], st)
poll_source id a (some s) st = (
  s.inbox,
  record st { audio = some (record a { sources = insert id (record s { inbox = [] }) a.sources }) },
)

abbrev pub poll_audio : LinkId → Option AudioState → State → List ReceivedChunk × State
poll_audio id none st = ([], st)
poll_audio id (some a) st = poll_source id a (get id a.sources) st

-- What is in the inbox goes to the application, and the inbox is empty then.
unfoldable pub poll_channel : LinkId → State → List ReceivedChunk × State
poll_channel id st = poll_audio id st.audio st

unfoldable pub channel_lost_chunks : LinkId → State → ℕ
channel_lost_chunks id st = elim st.audio [
  | none ↦ 0
  | some a ↦ elim (get id a.sources) [ none ↦ 0 | some s ↦ s.lost_chunks ]
]

unfoldable pub has_requesters : Env → LinkId → State → Bool × State
has_requesters env id st =
    let (at, st1) = now env st in
    (
      elim st.audio [
        | none ↦ false
        | some a ↦ elim (find_sink id a.sinks) [
          | none ↦ false
          | some s ↦ any (λ r. ltb_ℤ at r.1) s.requesters
        ]
      ],
      st1,
    )

unfoldable pub is_audio_enabled : State → Bool
is_audio_enabled st = elim st.audio [ none ↦ false | some a ↦ true ]

pub record VisibleChannel : Type 0 where
  pub peer_name : List ℕ
  pub name : List ℕ
  pub id : LinkId

-- The order of byte strings, as of `Vec<u8>`.
unfoldable pub bytes_ltb : List ℕ → List ℕ → Bool
bytes_ltb [] [] = false
bytes_ltb [] (y ∷ ys) = true
bytes_ltb (x ∷ xs) [] = false
bytes_ltb (x ∷ xs) (y ∷ ys) = ltb x y || (x == y && bytes_ltb xs ys)

-- By peer name, name and id.
abbrev pub channel_ltb : VisibleChannel → VisibleChannel → Bool
channel_ltb a b =
    bytes_ltb a.peer_name b.peer_name
    || (not (bytes_ltb b.peer_name a.peer_name)
        && (bytes_ltb a.name b.name || (not (bytes_ltb b.name a.name) && bytes_ltb a.id b.id)))

abbrev pub insert_channel : VisibleChannel → List VisibleChannel → List VisibleChannel
insert_channel c [] = c ∷ []
insert_channel c (d ∷ ds) =
    let rest = insert_channel c ds in if channel_ltb d c then d ∷ rest else c ∷ d ∷ ds

-- A stable sort, as `sort_by` is.
unfoldable pub sort_channels : List VisibleChannel → List VisibleChannel
sort_channels [] = []
sort_channels (c ∷ cs) = insert_channel c (sort_channels cs)

-- `dedup_by_key`: of neighbours with the same id the first stays.
unfoldable pub dedup_from : VisibleChannel → List VisibleChannel → List VisibleChannel
dedup_from c [] = c ∷ []
dedup_from c (d ∷ ds) = if Id.eqb d.id c.id then dedup_from c ds else c ∷ dedup_from d ds

abbrev pub dedup : List VisibleChannel → List VisibleChannel
dedup [] = []
dedup (c ∷ cs) = dedup_from c cs

abbrev pub visible_of : (LinkId × ℕ) × KnownChannel → VisibleChannel
visible_of k = record { peer_name = k.1.peer_name; name = k.1.name; id = k.0.0 }

unfoldable pub visible_channels : State → List VisibleChannel
visible_channels st = elim st.audio [
  | none ↦ []
  | some a ↦ dedup (sort_channels (map visible_of a.known))
]

unfoldable pub simulate_crash : State → State
simulate_crash st = if not st.enabled then st else record st {
  enabled = false;
  epoch = suc st.epoch;
  gateways = [];
  peers = [];
  measurement = none;
  pending = [];
  broadcast_due = none;
}
