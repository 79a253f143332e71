-- ===== src/Engine/Priority.antt =====
-- Timelines and start/stop states of a session, as crates/tactus/src/engine.rs merges them from gossip.
use link_wire_rs.Common.{
  ℕ, ◌≡◌, refl, sym, ap, ◌∙◌, Option, none, some, Bool-cases, inl, inr, if◌then◌else◌, arith,
}
use mathlib.Core.Path.{subst}
use link_wire_rs.Common.Int.{ℤ, ltb_ℤ, eqb_ℤ, eq_of_parts}
use link_wire_rs.Types.Id
use link_wire_rs.Types.Id.{LinkId}
use link_wire_rs.Types.Timeline.{Timeline}
use link_wire_rs.Types.StartStop.{StartStopState}
use link_wire_rs.Discovery.Message.{PeerState}
use link_wire_rs.Math.Grid.{clamp_tempo}
use link_wire_rs.Engine.State.{State, Env, now, key_eq}
use link_wire_rs.Engine.Gossip.{take_timeline, take_start_stop, process_own, process_peer_state}
use link_wire_rs.Engine.Silence.{silence-schedule_broadcast}

-- The later beat origin wins, its tempo clamped.
abbrev pub merge_timeline : Option Timeline → Timeline → Timeline
merge_timeline none cur = cur
merge_timeline (some tl) cur =
    if ltb_ℤ cur.beat_origin tl.beat_origin then record tl { tempo = clamp_tempo tl.tempo } else cur

-- The later timestamp wins.
abbrev pub merge_start_stop : Option StartStopState → StartStopState → StartStopState
merge_start_stop none cur = cur
merge_start_stop (some s) cur = if ltb_ℤ cur.timestamp s.timestamp then s else cur

-- What two states agree on that share a session.
abbrev pub Shared : Type 0
Shared = LinkId × Timeline × StartStopState

abbrev pub shared : State → Shared
shared st = (st.session, st.timeline, st.held_stst)

abbrev then_start_stop : Option StartStopState → Shared → Shared
then_start_stop o s = (s.0, s.1, merge_start_stop o s.2)

take_timeline_lem :
    (env : Env) (o : Option Timeline) (st : State)
    → shared (take_timeline env o st) ≡ (st.session, merge_timeline o st.timeline, st.held_stst)
unfolding take_timeline
take_timeline_lem env none st = refl
take_timeline_lem env (some tl) st =
    elim (Bool-cases (ltb_ℤ st.timeline.beat_origin tl.beat_origin)) [
      | inl later ↦ rw later (ap shared (silence-schedule_broadcast env _))
      | inr old ↦ rw old
    ]

take_start_stop_lem :
    (env : Env) (o : Option StartStopState) (st : State)
    → shared (take_start_stop env o st) ≡ (st.session, st.timeline, merge_start_stop o st.held_stst)
unfolding take_start_stop
take_start_stop_lem env none st = refl
take_start_stop_lem env (some s) st = elim (Bool-cases (ltb_ℤ st.held_stst.timestamp s.timestamp)) [
  | inl later ↦ rw later (ap shared (silence-schedule_broadcast env _))
  | inr old ↦ rw old
]

-- The two merges at once.
abbrev pub merge_shared : PeerState → Shared → Shared
merge_shared ps s = (s.0, merge_timeline ps.timeline s.1, merge_start_stop ps.start_stop s.2)

-- Gossip that names the own session leaves the session, and merges the timeline by its beat
-- origin and the start/stop state by its timestamp: the later one wins, a timeline's tempo
-- clamped.
pub process_peer_state_merges :
    (env : Env) (gw_idx : ℕ) (node : LinkId) (ttl : ℕ) (ps : PeerState) (st : State)
    → ps.session ≡ some st.session
    → shared (process_peer_state env gw_idx node ttl ps st) ≡ merge_shared ps (shared st)
unfolding process_peer_state process_own now
process_peer_state_merges env gw_idx node ttl ps st h =
    rw (h, Id.eqb_self st.session)
      (take_start_stop_lem env ps.start_stop _
        ∙ ap (then_start_stop ps.start_stop) (take_timeline_lem env ps.timeline _))

-- Two values that agree on `f` are the same, where both are there.
abbrev pub Consistent : {A : Type 0} → (A → ℤ) → Option A → Option A → Type 0
Consistent f none o = Unit
Consistent f (some a) none = Unit
Consistent f (some a) (some b) = f a ≡ f b → a ≡ b

merge_timeline_comm :
    (o p : Option Timeline) (cur : Timeline)
    → Consistent (λ t. t.beat_origin) o p
    → merge_timeline o (merge_timeline p cur) ≡ merge_timeline p (merge_timeline o cur)
merge_timeline_comm none p cur h = refl
merge_timeline_comm (some s) none cur h = refl
merge_timeline_comm (some s) (some t) cur h =
    elim (Bool-cases (eqb_ℤ s.beat_origin t.beat_origin)) [
      | inl same ↦
          subst
            (λ r.
              merge_timeline (some s) (merge_timeline (some r) cur)
              ≡ merge_timeline (some r) (merge_timeline (some s) cur))
            (h (ground (arith, eq_of_parts s.beat_origin t.beat_origin))) refl
      | inr apart ↦ ground arith
    ]

merge_start_stop_comm :
    (o p : Option StartStopState) (cur : StartStopState)
    → Consistent (λ s. s.timestamp) o p
    → merge_start_stop o (merge_start_stop p cur) ≡ merge_start_stop p (merge_start_stop o cur)
merge_start_stop_comm none p cur h = refl
merge_start_stop_comm (some s) none cur h = refl
merge_start_stop_comm (some s) (some t) cur h = elim (Bool-cases (eqb_ℤ s.timestamp t.timestamp)) [
  | inl same ↦
      subst
        (λ r.
          merge_start_stop (some s) (merge_start_stop (some r) cur)
          ≡ merge_start_stop (some r) (merge_start_stop (some s) cur))
        (h (ground (arith, eq_of_parts s.timestamp t.timestamp))) refl
  | inr apart ↦ ground arith
]

-- A message of a member of the own session, and the state after it.
merges_two :
    (env : Env) (g h : ℕ) (m n : LinkId) (k l : ℕ) (ps qs : PeerState) (st : State)
    → ps.session ≡ some st.session
    → qs.session ≡ some st.session
    → shared (process_peer_state env h n l qs (process_peer_state env g m k ps st))
      ≡ merge_shared qs (merge_shared ps (shared st))
merges_two env g h m n k l ps qs st hp hq =
    let first = process_peer_state_merges env g m k ps st hp in
    process_peer_state_merges env h n l qs (process_peer_state env g m k ps st)
      (hq ∙ ap some (sym (ap (λ (s : Shared). s.0) first)))
    ∙ ap (merge_shared qs) first

-- Convergence: gossip of two peers that names the own session, received in either order and
-- through any gateways, leaves the same session, timeline and start/stop state, where timelines of the same
-- beat origin, and start/stop states of the same timestamp, are the same, as far as both name one.
pub process_peer_state_converges :
    (env : Env) (g h : ℕ) (m n : LinkId) (k l : ℕ) (ps qs : PeerState) (st : State)
    → ps.session ≡ some st.session
    → qs.session ≡ some st.session
    → Consistent (λ t. t.beat_origin) ps.timeline qs.timeline
    → Consistent (λ s. s.timestamp) ps.start_stop qs.start_stop
    → shared (process_peer_state env h n l qs (process_peer_state env g m k ps st))
      ≡ shared (process_peer_state env g m k ps (process_peer_state env h n l qs st))
process_peer_state_converges env g h m n k l ps qs st hp hq ht hs = rw (
  merges_two env g h m n k l ps qs st hp hq,
  merges_two env h g n m l k qs ps st hq hp,
  merge_timeline_comm ps.timeline qs.timeline st.timeline ht,
  merge_start_stop_comm ps.start_stop qs.start_stop st.held_stst hs,
)
