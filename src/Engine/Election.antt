-- ===== src/Engine/Election.antt =====
-- Session election in crates/tactus/src/engine.rs: the join rule and the founding of a fresh session.
use link_wire_rs.Common.{ℕ, Option, none, some, Bool, true, false, not, ◌&&◌, ◌||◌, if◌then◌else◌}
use link_wire_rs.Common.Int.{ℤ, pos, ltb_ℤ}
use link_wire_rs.Common.Maps.{get, insert, any}
use link_wire_rs.Types.Id
use link_wire_rs.Types.Id.{LinkId}
use link_wire_rs.Types.Timeline.{Timeline}
use link_wire_rs.Types.StartStop
use link_wire_rs.Math.Word.{◌+w◌, ◌-w◌}
use link_wire_rs.Math.Grid.{beats_at_ghost, clamp_tempo}
use link_wire_rs.Engine.State.{
  State, Env, PeerEntry, now, random_id, is_id, join_epsilon, remeasure_period, id_eq, key_eq,
}
use link_wire_rs.Engine.Send.{schedule_broadcast}

-- `abs` of an `i64` in a release build.
unfoldable pub abs : ℤ → ℤ
abs z = if ltb_ℤ z (pos 0) then pos 0 -w z else z

-- The condition `join`.
unfoldable pub should_join : LinkId → ℤ → LinkId → ℤ → Bool
should_join sess offset cur cur_offset =
    let diff = offset -w cur_offset in
    ltb_ℤ join_epsilon diff || (ltb_ℤ (abs diff) join_epsilon && Id.lessb sess cur)

-- With the timeline that gossip had of the session, its tempo clamped.
unfoldable pub adopt : Option Timeline → Timeline → Timeline
adopt none old = old
adopt (some tl) old = record tl { tempo = clamp_tempo tl.tempo }

-- What `evaluate_join` does where the rule says so.
unfoldable pub do_join : Env → LinkId → ℤ → State → State
do_join env sess offset st =
    let joined = record st {
      measured = insert st.session st.ghost_offset st.measured;
      session = sess;
      ghost_offset = offset;
      timeline = adopt (get sess st.foreign_timelines) st.timeline;
      held_stst = StartStop.default;
      session_member_seen = true;
    } in
    let (at, st1) = now env joined in
    schedule_broadcast env (record st1 { next_remeasure_at = some (at +w remeasure_period) })

unfoldable pub evaluate_join : Env → LinkId → ℤ → State → State
evaluate_join env sess offset st =
    if Id.eqb sess st.session
    then st
    else if should_join sess offset st.session st.ghost_offset
    then do_join env sess offset st
    else st

unfoldable pub reset_session : Env → State → State
reset_session env st =
    let (at, st1) = now env st in
    let beats_now = beats_at_ghost st.timeline (at +w st.ghost_offset) in
    let (fresh, st2) = random_id env st1 in
    schedule_broadcast env (record st2 {
      measured = insert st.session st.ghost_offset st.measured;
      node = fresh;
      session = fresh;
      ghost_offset = pos 0 -w at;
      timeline = record { tempo = st.timeline.tempo; beat_origin = beats_now; time_origin = pos 0 };
      held_stst = record {
        is_playing = st.held_stst.is_playing;
        beats = beats_now;
        timestamp = pos 0;
      };
      session_member_seen = false;
      next_remeasure_at = none;
    })

abbrev pub is_member : LinkId → (LinkId × ℕ) × PeerEntry → Bool
is_member session p = is_id p.1.state.session session

unfoldable pub check_session_loss : Env → State → State
check_session_loss env st =
    if st.session_member_seen && not (any (is_member st.session) st.peers)
    then reset_session env st
    else st
