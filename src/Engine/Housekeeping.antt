-- ===== src/Engine/Housekeeping.antt =====
-- The housekeeping pass of crates/tactus/src/engine.rs, up to the pass of LinkAudio at its end. Every part
-- gives the time by which it wants to be called again, where it has one.
use link_wire_rs.Common.{
  ℕ, suc, List, [], ◌∷◌, ◌++◌, Option, none, some, not, ◌||◌, leb, if◌then◌else◌,
}
use link_wire_rs.Common.Int.{ℤ, leb_ℤ, ltb_ℤ}
use link_wire_rs.Common.Maps.{retain, find_map}
use link_wire_rs.Types.Id
use link_wire_rs.Types.Id.{LinkId}
use link_wire_rs.Types.Endpoint.{SocketAddr}
use link_wire_rs.Sync.Encode.{encode_ping}
use link_wire_rs.Math.Word.{◌+w◌}
use link_wire_rs.Engine.State.{
  State, Env, PeerEntry, Measurement, remeasure, now, alive_period, prune_padding,
  measurement_retry, max_measurement_retries, remeasure_period,
}
use link_wire_rs.Engine.Send.{send_alive}
use link_wire_rs.Engine.Election.{check_session_loss, is_member}
use link_wire_rs.Engine.Measure.{
  is_queued, founder_endpoint, with_gateway, or_else, send_measurement, start_next_measurement,
  measurement_failed,
}
use link_wire_rs.Engine.Gossip.{nodes, forget_nodes}

abbrev pub min_ℤ : ℤ → ℤ → ℤ
min_ℤ a b = if leb_ℤ a b then a else b

unfoldable pub earliest : List ((LinkId × ℕ) × PeerEntry) → Option ℤ
earliest [] = none
earliest (p ∷ ps) = elim (earliest ps) [
  | none ↦ some p.1.deadline
  | some e ↦ some (min_ℤ p.1.deadline e)
]

abbrev pub min_next : Option ℤ → ℤ → ℤ
min_next none next = next
min_next (some d) next = min_ℤ next d

unfoldable pub alive_step : ℤ → State → State
alive_step at st = if leb_ℤ (st.last_alive_at +w alive_period) at then send_alive at st else st

unfoldable pub broadcast_step : ℤ → ℤ → State → ℤ × State
broadcast_step at next st = elim st.broadcast_due [
  | none ↦ (next, st)
  | some due ↦ if leb_ℤ due at then (next, send_alive at st) else (min_ℤ next due, st)
]

unfoldable pub expire : Env → ℤ → State → State
expire env at st =
    let expired = nodes (retain (λ p. leb_ℤ p.1.deadline at) st.peers) in
    check_session_loss env
      (forget_nodes expired (record st { peers = retain (λ p. ltb_ℤ at p.1.deadline) st.peers }))

unfoldable pub prune_step : Env → ℤ → ℤ → State → ℤ × State
prune_step env at next st =
    let pruned : State = elim (earliest st.peers) [
      | none ↦ st
      | some e ↦ if leb_ℤ (e +w prune_padding) at then expire env at st else st
    ] in
    elim (earliest pruned.peers) [
      | none ↦ (next, pruned)
      | some e ↦ (min_ℤ next (e +w prune_padding), pruned)
    ]

-- The retry timer of a running measurement.
unfoldable pub retry : Env → ℤ → ℤ → Measurement → State → ℤ × State
retry env at next m st =
    if leb_ℤ m.retry_deadline at
    then (if leb max_measurement_retries m.timeouts
        then (next, measurement_failed env m (record st { measurement = none }))
        else (
          min_ℤ next (at +w measurement_retry),
          send_measurement m.task.gateway (encode_ping at none) m.task.target (record st {
            measurement =
                some (record m {
                  timeouts = suc m.timeouts;
                  retry_deadline = at +w measurement_retry;
                });
          }),
        ))
    else (min_ℤ next m.retry_deadline, st)

unfoldable pub retry_step : Env → ℤ → ℤ → State → ℤ × State
retry_step env at next st = elim st.measurement [
  | none ↦ (next, st)
  | some m ↦ retry env at next m st
]

abbrev pub member_endpoint : LinkId → (LinkId × ℕ) × PeerEntry → Option (SocketAddr × ℕ)
member_endpoint sess p =
    if is_member sess p then with_gateway p.0.1 p.1.state.measurement_endpoint else none

unfoldable pub queue_remeasure : State → State
queue_remeasure st =
    let target =
      or_else (find_map (founder_endpoint st.session) st.peers)
        (find_map (member_endpoint st.session) st.peers) in
    if Id.eqb st.session st.node || is_queued st.session st then st else elim target [
      | none ↦ st
      | some t ↦ record st {
        pending =
            st.pending
            ++ (record { session = st.session; target = t.0; gateway = t.1; purpose = remeasure }
                ∷ []);
      }
    ]

unfoldable pub remeasure_step : ℤ → ℤ → State → ℤ × State
remeasure_step at next st = elim st.next_remeasure_at [
  | none ↦ (next, st)
  | some t ↦
      if leb_ℤ t at
      then (
        min_ℤ next (at +w remeasure_period),
        record (queue_remeasure st) { next_remeasure_at = some (at +w remeasure_period) },
      )
      else (min_ℤ next t, st)
]

unfoldable pub housekeeping_pass : Env → State → ℤ × State
housekeeping_pass env st =
    let (at, st0) = now env st in
    let st1 = alive_step at st0 in
    let next1 = min_ℤ (at +w alive_period) (st1.last_alive_at +w alive_period) in
    let (next2, st2) = broadcast_step at next1 st1 in
    let (next3, st3) = prune_step env at next2 st2 in
    let (next4, st4) = retry_step env at next3 st3 in
    let (next5, st5) = remeasure_step at next4 st4 in
    if not st.enabled then (at +w alive_period, st0) else (next5, start_next_measurement env st5)
