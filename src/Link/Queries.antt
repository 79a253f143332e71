-- ===== src/Link/Queries.antt =====
-- The beats and times that crates/tactus/src/lib.rs reports, its snapshots of a session, and its calls of LinkAudio
-- that take beats, by the arithmetic of doubles that is given.
use link_wire_rs.Common.{ℕ, List, Option, Bool, if◌then◌else◌}
use link_wire_rs.Common.Int.{ℤ, pos}
use link_wire_rs.Types.Id.{LinkId}
use link_wire_rs.Math.Float.{Float, tempo_to_bpm, quantum_micro_beats, micro_beats, beats}
use link_wire_rs.Math.Word.{◌+w◌, ◌-w◌}
use link_wire_rs.Math.Grid.{phase, app_beat_at_ghost, ghost_at_app_beat}
use link_wire_rs.Engine.State.{State, Env, now}
use link_wire_rs.LinkAudio.Requests.{subscribe}
use link_wire_rs.LinkAudio.Write.{write_sink}
use link_wire_rs.Link.Calls.{count_peers}

pub record SessionSnapshot (F : Float) : Type 0 where
  pub at_micros : ℤ
  pub quantum : F.Double
  pub tempo_bpm : F.Double
  pub beat : F.Double
  pub phase : F.Double
  pub is_playing : Bool
  pub enabled : Bool
  pub num_peers : ℕ
  pub session_id : LinkId

module _ (F : Float) where
  open F use {Double, of, to_i64, add, mul, div, rem_euclid, round, le}

  unfoldable pub beat_at : SessionSnapshot F → ℤ → Double
  beat_at snap micros =
      add snap.beat (div (mul (of (micros -w snap.at_micros)) snap.tempo_bpm) (of (pos 60000000)))

  unfoldable pub phase_at : SessionSnapshot F → ℤ → Double
  phase_at snap micros =
      if le snap.quantum (of (pos 0))
      then of (pos 0)
      else rem_euclid (beat_at snap micros) snap.quantum

  -- All of it from one state.
  unfoldable pub capture_session : Env → Double → State → SessionSnapshot F × State
  capture_session env quantum st =
      let (at, st1) = now env st in
      let q = quantum_micro_beats F quantum in
      let b = app_beat_at_ghost st.timeline (at +w st.ghost_offset) q in
      (
        record {
          at_micros = at;
          quantum = quantum;
          tempo_bpm = tempo_to_bpm F st.timeline.tempo;
          beat = beats F b;
          phase = beats F (phase b q);
          is_playing = st.app_playing;
          enabled = st.enabled;
          num_peers = count_peers st;
          session_id = st.session;
        },
        st1,
      )

  unfoldable pub tempo : State → Double
  tempo st = tempo_to_bpm F st.timeline.tempo

  unfoldable pub beat_at_time : State → ℤ → Double → Double
  beat_at_time st micros quantum =
      beats F
        (app_beat_at_ghost st.timeline (micros +w st.ghost_offset) (quantum_micro_beats F quantum))

  unfoldable pub phase_at_time : State → ℤ → Double → Double
  phase_at_time st micros quantum =
      let q = quantum_micro_beats F quantum in
      let b = app_beat_at_ghost st.timeline (micros +w st.ghost_offset) q in beats F (phase b q)

  unfoldable pub time_at_beat : State → Double → Double → ℤ
  time_at_beat st beat quantum =
      let q = quantum_micro_beats F quantum in
      let b = micro_beats F beat in ghost_at_app_beat st.timeline b q -w st.ghost_offset

  abbrev pub subscribe_channel : (List ℤ → ℤ) → Env → LinkId → Double → State → State
  subscribe_channel rank env id quantum st =
      subscribe rank env id (quantum_micro_beats F quantum) st

  -- `write_sink` rounds the beat.
  abbrev pub write_channel :
      (List ℤ → ℤ) → Env → Bool → LinkId → List ℤ → ℕ → ℕ → Double → Double → State → Option State
  write_channel rank env fill id samples sample_rate channels begin_app_beat quantum st =
      write_sink rank env fill id samples sample_rate channels (micro_beats F begin_app_beat)
        (quantum_micro_beats F quantum) st
