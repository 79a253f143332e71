-- ===== src/Link/Calls.antt =====
-- The calls of crates/tactus/src/lib.rs that set the session's tempo and transport, and the count of peers. A tempo
-- is its wire period, what `bpm_to_tempo` makes of the application's double.
use link_wire_rs.Common.{ℕ, List, [], ◌∷◌, length, Bool, not, ◌&&◌, if◌then◌else◌}
use link_wire_rs.Common.Int.{ℤ, pos, leb_ℤ}
use link_wire_rs.Common.Maps.{any, retain}
use link_wire_rs.Types.Id
use link_wire_rs.Types.Id.{LinkId}
use link_wire_rs.Types.StartStop
use link_wire_rs.Math.Word.{◌+w◌}
use link_wire_rs.Math.Grid.{beats_at_ghost, ghost_at_beats}
use link_wire_rs.Engine.State.{State, Env, now}
use link_wire_rs.Engine.Send.{schedule_broadcast}
use link_wire_rs.Engine.Election.{is_member}
use link_wire_rs.Engine.Gossip.{eqb_stst, nodes}

abbrev pub max_ℤ : ℤ → ℤ → ℤ
max_ℤ a b = if leb_ℤ a b then b else a

unfoldable pub set_tempo : Env → ℤ → State → State
set_tempo env tempo st =
    let (at, st1) = now env st in
    let beats_now = beats_at_ghost st.timeline (at +w st.ghost_offset) in
    let beat_origin = max_ℤ beats_now (st.timeline.beat_origin +w pos 1) in
    schedule_broadcast env (record st1 {
      timeline = record {
        tempo = tempo;
        beat_origin = beat_origin;
        time_origin = ghost_at_beats st.timeline beat_origin;
      };
    })

unfoldable pub set_is_playing : Env → Bool → State → State
set_is_playing env playing st =
    let (at, st1) = now env (record st { app_playing = playing }) in
    let ghost = at +w st.ghost_offset in
    if st.sst_sync
    then schedule_broadcast env (record st1 {
      held_stst = record {
        is_playing = playing;
        beats = beats_at_ghost st.timeline ghost;
        timestamp = max_ℤ ghost (st.held_stst.timestamp +w pos 1);
      };
    })
    else record st { app_playing = playing }

unfoldable pub enable_start_stop_sync : Bool → State → State
enable_start_stop_sync enabled st = record st {
  sst_sync = enabled;
  app_playing =
      if enabled && not (eqb_stst st.held_stst StartStop.default)
      then st.held_stst.is_playing
      else st.app_playing;
}

-- Sorted and without repetitions in the source, of which only the length is used.
abbrev pub distinct : List LinkId → List LinkId
distinct [] = []
distinct (n ∷ ns) = let rest = distinct ns in if any (λ m. Id.eqb n m) rest then rest else n ∷ rest

unfoldable pub count_peers : State → ℕ
count_peers st =
    if not st.enabled then 0 else length (distinct (nodes (retain (is_member st.session) st.peers)))
