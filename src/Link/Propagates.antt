-- ===== src/Link/Propagates.antt =====
-- What the application sets through crates/tactus/src/lib.rs reaches the other members of the session.
use link_wire_rs.Common.{ℕ, ◌≡◌, refl, sym, ap, ◌∙◌, some, Bool, true, false, if◌then◌else◌, arith}
use link_wire_rs.Common.Bytes.{InI64}
use link_wire_rs.Common.Int.{ℤ, pos, ◌+ℤ◌, ◌≤ℤ◌, ltb_ℤ, +ℤ_parts}
use link_wire_rs.Types.Id.{LinkId}
use link_wire_rs.Types.Timeline.{Timeline}
use link_wire_rs.Types.StartStop.{StartStopState}
use link_wire_rs.Math.Word.{◌+w◌, add-exact}
use link_wire_rs.Math.Grid.{
  clamp_tempo, beats_at_ghost, ghost_at_beats, tempo_min_micros_per_beat, tempo_max_micros_per_beat,
}
use link_wire_rs.Engine.State.{State, Env, Gateway, now, key_eq}
use link_wire_rs.Engine.Send.{build_state}
use link_wire_rs.Engine.Gossip.{process_peer_state}
use link_wire_rs.Engine.Silence.{silence-schedule_broadcast}
use link_wire_rs.Engine.Priority.{
  Shared, shared, merge_timeline, merge_start_stop, process_peer_state_merges,
}
use link_wire_rs.Link.Transport.{
  Transport, transport, take_transport, transport-process_peer_state, not_default,
  take_transport-newer,
}
use link_wire_rs.Link.Calls.{max_ℤ, set_tempo, set_is_playing}

-- A tempo that the clamp leaves as it is.
abbrev pub IsTempo : ℤ → Type 0
IsTempo t = (tempo_min_micros_per_beat ≤ℤ t) × (t ≤ℤ tempo_max_micros_per_beat)

pub clamp_tempo-IsTempo : (t : ℤ) → IsTempo (clamp_tempo t)
unfolding clamp_tempo
clamp_tempo-IsTempo t = ground arith

clamp-id : (t : ℤ) → IsTempo t → clamp_tempo t ≡ t
unfolding clamp_tempo
clamp-id t h = ground arith

later : (x y b : ℤ) → InI64 (y +ℤ pos 1) → b ≤ℤ y → ltb_ℤ b (max_ℤ x (y +w pos 1)) ≡ true
later x y b h k = rw (add-exact y (pos 1) h) (ground (arith, +ℤ_parts y (pos 1)))

-- The new timeline.
new_timeline : Env → ℤ → State → Timeline
new_timeline env tempo st =
    let origin =
      max_ℤ (beats_at_ghost st.timeline (env.clock st.reads +w st.ghost_offset))
        (st.timeline.beat_origin +w pos 1) in
    record { tempo = tempo; beat_origin = origin; time_origin = ghost_at_beats st.timeline origin }

shared-set_tempo :
    (env : Env) (tempo : ℤ) (st : State)
    → shared (set_tempo env tempo st) ≡ (st.session, new_timeline env tempo st, st.held_stst)
unfolding set_tempo new_timeline now
shared-set_tempo env tempo st = ap shared (silence-schedule_broadcast env _)

merge_newer :
    (tl cur : Timeline)
    → IsTempo tl.tempo
    → ltb_ℤ cur.beat_origin tl.beat_origin ≡ true
    → merge_timeline (some tl) cur ≡ tl
merge_newer tl cur ok h = rw (h, clamp-id tl.tempo ok)

-- What a member makes of the gossip of another state of its session.
hears :
    (env : Env) (gw_idx : ℕ) (node : LinkId) (ttl : ℕ) (gw : Gateway) (said other : State)
    → said.session ≡ other.session
    → shared (process_peer_state env gw_idx node ttl (build_state said gw) other) ≡ (
      other.session,
      merge_timeline (some said.timeline) other.timeline,
      merge_start_stop (some said.held_stst) other.held_stst,
    )
unfolding build_state
hears env gw_idx node ttl gw said other e =
    process_peer_state_merges env gw_idx node ttl (build_state said gw) other (ap some e)

newer-IsTempo :
    (env : Env) (tempo : ℤ) (st : State) → IsTempo tempo → IsTempo (new_timeline env tempo st).tempo
unfolding new_timeline
newer-IsTempo env tempo st ok = ok

newer_origin :
    (env : Env) (tempo : ℤ) (st other : State)
    → InI64 (st.timeline.beat_origin +ℤ pos 1)
    → other.timeline.beat_origin ≤ℤ st.timeline.beat_origin
    → ltb_ℤ other.timeline.beat_origin (new_timeline env tempo st).beat_origin ≡ true
unfolding new_timeline
newer_origin env tempo st other room old =
    later (beats_at_ghost st.timeline (env.clock st.reads +w st.ghost_offset))
      st.timeline.beat_origin other.timeline.beat_origin room old

-- After the application has set a tempo within the clamp, a peer in the same session whose beat
-- origin was not above ours holds our new timeline once it has processed our state, through
-- whichever gateway it comes, where the next beat origin fits an `i64`.
pub set_tempo_propagates :
    (env env' : Env) (tempo : ℤ) (st other : State) (gw : Gateway) (gw_idx : ℕ) (node : LinkId)
    (ttl : ℕ)
    → IsTempo tempo
    → InI64 (st.timeline.beat_origin +ℤ pos 1)
    → st.session ≡ other.session
    → other.timeline.beat_origin ≤ℤ st.timeline.beat_origin
    → (process_peer_state env' gw_idx node ttl
        (build_state (set_tempo env tempo st) gw)
        other).timeline
      ≡ (set_tempo env tempo st).timeline
set_tempo_propagates env env' tempo st other gw gw_idx node ttl ok room same old =
    let set = shared-set_tempo env tempo st in
    let time : (set_tempo env tempo st).timeline ≡ new_timeline env tempo st =
      ap (λ (s : Shared). s.1) set in
    ap (λ (s : Shared). s.1)
      (hears env' gw_idx node ttl gw (set_tempo env tempo st) other
        (ap (λ (s : Shared). s.0) set ∙ same))
    ∙ rw time (
        merge_newer (new_timeline env tempo st) other.timeline (newer-IsTempo env tempo st ok)
          (newer_origin env tempo st other room old))

new_start_stop : Env → Bool → State → StartStopState
new_start_stop env playing st =
    let ghost = env.clock st.reads +w st.ghost_offset in
    record {
      is_playing = playing;
      beats = beats_at_ghost st.timeline ghost;
      timestamp = max_ℤ ghost (st.held_stst.timestamp +w pos 1);
    }

newer_timestamp :
    (env : Env) (playing : Bool) (st other : State)
    → InI64 (st.held_stst.timestamp +ℤ pos 1)
    → other.held_stst.timestamp ≤ℤ st.held_stst.timestamp
    → ltb_ℤ other.held_stst.timestamp (new_start_stop env playing st).timestamp ≡ true
unfolding new_start_stop
newer_timestamp env playing st other room old =
    later (env.clock st.reads +w st.ghost_offset) st.held_stst.timestamp other.held_stst.timestamp
      room old

shared-if : (b : Bool) (s t : State) → b ≡ true → shared (if b then s else t) ≡ shared s
shared-if true s t h = refl
shared-if false s t h = cc

shared-set_is_playing :
    (env : Env) (playing : Bool) (st : State)
    → st.sst_sync ≡ true
    → shared (set_is_playing env playing st)
      ≡ (st.session, st.timeline, new_start_stop env playing st)
unfolding set_is_playing new_start_stop now
shared-set_is_playing env playing st on =
    shared-if st.sst_sync _ _ on ∙ ap shared (silence-schedule_broadcast env _)

new-is_playing :
    (env : Env) (playing : Bool) (st : State) → (new_start_stop env playing st).is_playing ≡ playing
unfolding new_start_stop
new-is_playing env playing st = refl

new_timestamp :
    (env : Env) (playing : Bool) (st : State)
    → pos 0 ≤ℤ st.held_stst.timestamp
    → InI64 (st.held_stst.timestamp +ℤ pos 1)
    → pos 1 ≤ℤ (new_start_stop env playing st).timestamp
unfolding new_start_stop
new_timestamp env playing st h room =
    rw (add-exact st.held_stst.timestamp (pos 1) room)
      (ground (arith, +ℤ_parts st.held_stst.timestamp (pos 1)))

-- After the application has started or stopped the transport with start/stop sync on, a peer in the same session
-- whose timestamp was not above ours holds our new start/stop state once it has processed our state, and, where
-- its own start/stop sync is on, its application sees the transport play as we said, else as before; where our
-- timestamp was not negative and the next one fits an `i64`.
pub set_is_playing_propagates :
    (env env' : Env) (playing : Bool) (st other : State) (gw : Gateway) (gw_idx : ℕ) (node : LinkId)
    (ttl : ℕ)
    → st.sst_sync ≡ true
    → pos 0 ≤ℤ st.held_stst.timestamp
    → InI64 (st.held_stst.timestamp +ℤ pos 1)
    → st.session ≡ other.session
    → other.held_stst.timestamp ≤ℤ st.held_stst.timestamp
    → ((process_peer_state env' gw_idx node ttl
          (build_state (set_is_playing env playing st) gw)
          other).held_stst
        ≡ (set_is_playing env playing st).held_stst)
      × ((process_peer_state env' gw_idx node ttl
            (build_state (set_is_playing env playing st) gw)
            other).app_playing
          ≡ (if other.sst_sync then playing else other.app_playing))
set_is_playing_propagates env env' playing st other gw gw_idx node ttl on from_0 room same old =
    let set = shared-set_is_playing env playing st on in
    let new = new_start_stop env playing st in
    let held : (set_is_playing env playing st).held_stst ≡ new = ap (λ (s : Shared). s.2) set in
    let heard =
      transport-process_peer_state env' gw_idx node ttl gw (set_is_playing env playing st) other
        (ap (λ (s : Shared). s.0) set ∙ same)
      ∙ ap (λ s. take_transport s (transport other)) held
      ∙ take_transport-newer new other.held_stst other.app_playing other.sst_sync
          (newer_timestamp env playing st other room old)
          (not_default new (new_timestamp env playing st from_0 room)) in
    (
      ap (λ (t : Transport). t.0) heard ∙ sym held,
      ap (λ (t : Transport). t.1) heard
          ∙ ap (λ b. if other.sst_sync then b else other.app_playing)
              (new-is_playing env playing st),
    )
