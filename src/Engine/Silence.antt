-- ===== src/Engine/Silence.antt =====
-- What sending leaves alone in crates/tactus/src/engine.rs.
use link_wire_rs.Common.{◌≡◌, [], none, Bool-cases, inl, inr}
use link_wire_rs.Common.Int.{pos, leb_ℤ}
use link_wire_rs.Math.Word.{◌-w◌}
use link_wire_rs.Engine.State.{State, Env, now, min_broadcast_spacing}
use link_wire_rs.Engine.Send.{send_alive, schedule_broadcast}

-- A state without what was sent, when, and how often the clock was read.
abbrev pub silence : State → State
silence st = record st {
  last_alive_at = pos 0;
  last_broadcast_at = pos 0;
  broadcast_due = none;
  reads = 0;
  sent = [];
}

-- A broadcast, made or put off, changes nothing else.
pub silence-schedule_broadcast :
    (env : Env) (st : State) → silence (schedule_broadcast env st) ≡ silence st
unfolding schedule_broadcast now send_alive
silence-schedule_broadcast env st = elim (Bool-cases st.enabled) [
  | inl on ↦
      rw on
        (elim (Bool-cases
          (leb_ℤ min_broadcast_spacing (env.clock st.reads -w st.last_broadcast_at))) [
            | inl late ↦ rw late
            | inr soon ↦ rw soon
          ])
  | inr off ↦ rw off
]
