-- ===== src/Engine/Measure.antt =====
-- Clock measurement in crates/tactus/src/engine.rs.
use link_wire_rs.Common.{
  ℕ, List, [], ◌∷◌, ◌++◌, length, Option, none, some, Bool, false, not, ◌||◌, ltb, ◌==◌,
  if◌then◌else◌,
}
use link_wire_rs.Common.Int.{ℤ, pos, ◌+ℤ◌, ◌-ℤ◌, ◌*ℤ◌, eqb_ℤ}
use link_wire_rs.Common.Maps.{get, insert, any, find_map, nat_eq}
use link_wire_rs.Types.Id
use link_wire_rs.Types.Id.{LinkId}
use link_wire_rs.Types.Endpoint.{SocketAddr}
use link_wire_rs.Codec.Error.{Result, ok, err, stuck}
use link_wire_rs.Sync.Message.{ping, pong, Ping, Pong, max_ping_payload, samples_required}
use link_wire_rs.Sync.Encode.{encode_ping, encode_pong}
use link_wire_rs.Sync.Decode.{decode, parse_echo}
use link_wire_rs.Discovery.Message.{PeerState}
use link_wire_rs.Math.Word.{◌+w◌}
use link_wire_rs.Engine.State.{
  State, Env, PeerEntry, Purpose, join, remeasure, MeasureTask, Measurement, measurement, now, push,
  eqb_addr, id_eq, measurement_retry, remeasure_period,
}
use link_wire_rs.Engine.Median.{median_round}
use link_wire_rs.Engine.Election.{evaluate_join}

abbrev pub with_gateway : ℕ → Option SocketAddr → Option (SocketAddr × ℕ)
with_gateway g none = none
with_gateway g (some m) = some (m, g)

-- The session's founder has the session's id as its own.
abbrev pub founder_endpoint : LinkId → (LinkId × ℕ) × PeerEntry → Option (SocketAddr × ℕ)
founder_endpoint sess p =
    if Id.eqb p.0.0 sess then with_gateway p.0.1 p.1.state.measurement_endpoint else none

abbrev pub measures : LinkId → Option Measurement → Bool
measures sess none = false
measures sess (some m) = Id.eqb m.task.session sess

-- Already being measured, or waiting for it.
unfoldable pub is_queued : LinkId → State → Bool
is_queued sess st = measures sess st.measurement || any (λ t. Id.eqb t.session sess) st.pending

unfoldable pub send_measurement : ℕ → List ℕ → SocketAddr → State → State
send_measurement gw bytes dst st = elim (get gw st.gateways) [
  | none ↦ st
  | some g ↦ push (measurement gw bytes dst) st
]

-- The popped task, where its gateway is open.
unfoldable pub start_task : Env → MeasureTask → State → State
start_task env task st = elim (get task.gateway st.gateways) [
  | none ↦ st
  | some gw ↦
      let (at, st1) = now env st in
      record (push (measurement task.gateway (encode_ping at none) task.target) st1) {
        measurement = some (record {
          task = task;
          samples = [];
          timeouts = 0;
          retry_deadline = at +w measurement_retry;
        });
      }
]

abbrev pub start_pending : Env → List MeasureTask → State → State
start_pending env [] st = st
start_pending env (task ∷ tasks) st = start_task env task (record st { pending = tasks })

unfoldable pub start_next_measurement : Env → State → State
start_next_measurement env st = elim st.measurement [
  | some m ↦ st
  | none ↦ start_pending env st.pending st
]

abbrev pub or_else {ℓ} : {A : Type ℓ} → Option A → Option A → Option A
or_else none o = o
or_else (some a) o = some a

unfoldable pub queue_measurement : Env → ℕ → LinkId → PeerState → Purpose → State → State
queue_measurement env gw_idx sess ps purpose st =
    let target =
      or_else (find_map (founder_endpoint sess) st.peers)
        (with_gateway gw_idx ps.measurement_endpoint) in
    if is_queued sess st then st else elim target [
      | none ↦ st
      | some t ↦ start_next_measurement env (record st {
        pending =
            st.pending
            ++ (record { session = sess; target = t.0; gateway = t.1; purpose = purpose } ∷ []);
      })
    ]

-- `next_remeasure_at = Some(now + REMEASURE_PERIOD)`
unfoldable pub rearm : Env → State → State
rearm env st =
    let (at, st1) = now env st in record st1 { next_remeasure_at = some (at +w remeasure_period) }

unfoldable pub measurement_succeeded : Env → Measurement → ℤ → State → State
measurement_succeeded env done offset st =
    let known = record st { measured = insert done.task.session offset st.measured } in
    start_next_measurement env (elim done.task.purpose [
      | join ↦ evaluate_join env done.task.session offset known
      | remeasure ↦ rearm env (
          if Id.eqb st.session done.task.session
          then record known { ghost_offset = offset }
          else known)
    ])

unfoldable pub measurement_failed : Env → Measurement → State → State
measurement_failed env failed st =
    start_next_measurement env (elim failed.task.purpose [ join ↦ st | remeasure ↦ rearm env st ])

-- `filter(|&v| v != 0)`
abbrev pub nonzero : Option ℤ → Option ℤ
nonzero none = none
nonzero (some v) = if eqb_ℤ v (pos 0) then none else some v

-- Of a pong, (ghost time) - (sent + received) / 2 and (ghost time + previous ghost time) / 2 - sent, both
-- doubled.
abbrev pub second_sample : ℤ → ℤ → Option ℤ → List ℤ
second_sample gt pht none = []
second_sample gt pht (some pgt) = (gt +ℤ pgt -ℤ pht *ℤ pos 2) ∷ []

abbrev pub both_samples : ℤ → ℤ → Option ℤ → Option ℤ → List ℤ
both_samples gt at none pgt = []
both_samples gt at (some pht) pgt = (gt *ℤ pos 2 -ℤ (at +ℤ pht)) ∷ second_sample gt pht pgt

unfoldable pub new_samples : ℤ → ℤ → Option ℤ × Option ℤ → List ℤ
new_samples gt at echo =
    if eqb_ℤ gt (pos 0) then [] else both_samples gt at (nonzero echo.0) (nonzero echo.1)

-- `unwrap_or((None, None))`
abbrev pub echo_or_none : Result (Option ℤ × Option ℤ) → Option ℤ × Option ℤ
echo_or_none (ok e) = e
echo_or_none (err e) = (none, none)
echo_or_none stuck = (none, none)

-- An admitted pong of the session that is measured.
unfoldable pub take_samples : Env → ℤ → Measurement → Pong → State → State
take_samples env at m p st =
    let samples = m.samples ++ new_samples p.ghost_time at (echo_or_none (parse_echo p.echo)) in
    let done = record m { samples = samples } in
    if ltb samples_required (length samples)
    then measurement_succeeded env done (median_round samples) (record st { measurement = none })
    else send_measurement m.task.gateway (encode_ping at (some p.ghost_time)) m.task.target
        (record st {
          measurement = some (record done { retry_deadline = at +w measurement_retry });
        })

unfoldable pub handle_pong : Env → ℕ → SocketAddr → Pong → State → State
handle_pong env gw_idx src p st =
    let (at, st1) = now env st in
    elim st.measurement [
      | none ↦ st1
      | some m ↦
          if not (m.task.gateway == gw_idx) || not (eqb_addr m.task.target src)
          then st1
          else if not (Id.eqb p.session m.task.session)
          then measurement_failed env m (record st1 { measurement = none })
          else take_samples env at m p st1
    ]

unfoldable pub answer_ping : Env → ℕ → SocketAddr → Ping → State → State
answer_ping env gw_idx src p st =
    let (at, st1) = now env st in
    if ltb max_ping_payload (length p.payload)
    then st
    else send_measurement gw_idx (encode_pong st.session (at +w st.ghost_offset) p.payload) src st1

unfoldable pub handle_measurement_datagram : Env → ℕ → SocketAddr → List ℕ → State → State
handle_measurement_datagram env gw_idx src buf st =
    if not st.enabled then st else elim (decode buf) [
      | ok (ping p) ↦ answer_ping env gw_idx src p st
      | ok (pong p) ↦ handle_pong env gw_idx src p st
      | err e ↦ st
      | stuck ↦ st
    ]
