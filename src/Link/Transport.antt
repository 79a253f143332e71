-- ===== src/Link/Transport.antt =====
-- What the gossip of a member makes of the transport in crates/tactus/src/engine.rs.
use link_wire_rs.Common.{
  ℕ, ◌≡◌, refl, ap, ◌∙◌, Option, none, some, Bool, true, false, not, ◌&&◌, Bool-cases, inl, inr,
  if-intro, if◌then◌else◌, arith,
}
use link_wire_rs.Common.Int.{pos, ◌≤ℤ◌, ltb_ℤ}
use link_wire_rs.Types.Id
use link_wire_rs.Types.Id.{LinkId}
use link_wire_rs.Types.Timeline.{Timeline}
use link_wire_rs.Types.StartStop
use link_wire_rs.Types.StartStop.{StartStopState}
use link_wire_rs.Engine.State.{State, Env, Gateway, now, key_eq}
use link_wire_rs.Engine.Send.{build_state}
use link_wire_rs.Engine.Gossip.{
  eqb_stst, take_timeline, take_start_stop, process_own, process_peer_state,
}
use link_wire_rs.Engine.Silence.{silence-schedule_broadcast}

-- The start/stop state that is held, whether the transport plays for the application, and whether it follows.
abbrev pub Transport : Type 0
Transport = StartStopState × Bool × Bool

abbrev pub transport : State → Transport
transport st = (st.held_stst, st.app_playing, st.sst_sync)

-- What gossip makes of it.
abbrev pub take_transport : StartStopState → Transport → Transport
take_transport s (held, playing, sync) =
    if ltb_ℤ held.timestamp s.timestamp
    then (s, (if sync && not (eqb_stst s StartStop.default) then s.is_playing else playing), sync)
    else (held, playing, sync)

transport-take_timeline :
    (env : Env) (o : Option Timeline) (st : State)
    → transport (take_timeline env o st) ≡ transport st
unfolding take_timeline
transport-take_timeline env none st = refl
transport-take_timeline env (some tl) st =
    if-intro (λ s. transport s ≡ transport st) (ltb_ℤ st.timeline.beat_origin tl.beat_origin) _ _
      (λ later. ap transport (silence-schedule_broadcast env _)) (λ old. refl)

transport-take_start_stop :
    (env : Env) (s : StartStopState) (st : State)
    → transport (take_start_stop env (some s) st) ≡ take_transport s (transport st)
unfolding take_start_stop
transport-take_start_stop env s st = elim (Bool-cases (ltb_ℤ st.held_stst.timestamp s.timestamp)) [
  | inl later ↦ rw later (ap transport (silence-schedule_broadcast env _))
  | inr old ↦ rw old
]

-- A member's transport after the gossip of its own session.
pub transport-process_peer_state :
    (env : Env) (gw_idx : ℕ) (node : LinkId) (ttl : ℕ) (gw : Gateway) (said other : State)
    → said.session ≡ other.session
    → transport (process_peer_state env gw_idx node ttl (build_state said gw) other)
      ≡ take_transport said.held_stst (transport other)
unfolding process_peer_state process_own now build_state
transport-process_peer_state env gw_idx node ttl gw said other e =
    rw (e, Id.eqb_self other.session)
      (transport-take_start_stop env said.held_stst _
        ∙ ap (take_transport said.held_stst) (transport-take_timeline env (some said.timeline) _))

-- A state that says something is not the default one.
pub not_default : (s : StartStopState) → pos 1 ≤ℤ s.timestamp → eqb_stst s StartStop.default ≡ false
not_default s h = ground arith

pub take_transport-newer :
    (s : StartStopState) (held : StartStopState) (playing sync : Bool)
    → ltb_ℤ held.timestamp s.timestamp ≡ true
    → eqb_stst s StartStop.default ≡ false
    → take_transport s (held, playing, sync) ≡ (s, (if sync then s.is_playing else playing), sync)
take_transport-newer s held playing true h k = rw (h, k)
take_transport-newer s held playing false h k = rw h
