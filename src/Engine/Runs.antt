-- ===== src/Engine/Runs.antt =====
-- The retry budget over a pass of `housekeeping_pass` in crates/tactus/src/engine.rs.
use link_wire_rs.Common.{
  suc, Option, none, some, Bool, true, false, not, ◌||◌, leb, Bool-cases, inl, inr, if◌then◌else◌,
  arith,
}
use link_wire_rs.Common.Int.{ℤ, leb_ℤ}
use link_wire_rs.Common.Maps.{find_map, nat_eq}
use link_wire_rs.Types.Id
use link_wire_rs.Types.Id.{LinkId}
use link_wire_rs.Engine.Retries.{failed-Holds}
use link_wire_rs.Engine.State.{
  State, Env, Measurement, now, max_measurement_retries, alive_period, prune_padding, id_eq,
}
use link_wire_rs.Engine.Measure.{start_next_measurement, is_queued, or_else, founder_endpoint}
use link_wire_rs.Math.Word.{◌+w◌}
use link_wire_rs.Engine.Housekeeping.{
  min_ℤ, alive_step, broadcast_step, prune_step, expire, earliest, retry, retry_step,
  queue_remeasure, remeasure_step, housekeeping_pass, member_endpoint,
}
use link_wire_rs.Engine.Budget.{
  Doors, Holds, if-Holds, option-Holds, send_alive-Holds, start_next-Holds,
  check_session_loss-Holds, send_measurement-Holds,
}
use link_wire_rs.Engine.Hearing.{forget-Holds}

alive-Holds : {D : Doors → Type 0} (at : ℤ) (st : State) → Holds D st → Holds D (alive_step at st)
unfolding alive_step
alive-Holds at st h =
    if-Holds (leb_ℤ (st.last_alive_at +w alive_period) at) _ _ (send_alive-Holds at st h) h

if-pair :
    {D : Doors → Type 0} (b : Bool) (p q : ℤ × State)
    → Holds D p.1
    → Holds D q.1
    → Holds D (if b then p else q).1
if-pair true p q h k = h
if-pair false p q h k = k

option-pair :
    {D : Doors → Type 0} {A : Type 0} (o : Option A) (p : ℤ × State) (f : A → ℤ × State)
    → Holds D p.1
    → ((a : A) → Holds D (f a).1)
    → Holds D (elim o as (λ _. ℤ × State) [ none ↦ p | some a ↦ f a ]).1
option-pair none p f h k = h
option-pair (some a) p f h k = k a

broadcast-Holds :
    {D : Doors → Type 0} (at next : ℤ) (st : State)
    → Holds D st
    → Holds D (broadcast_step at next st).1
unfolding broadcast_step
broadcast-Holds at next st h =
    option-pair st.broadcast_due _ _ h
      (λ due. if-pair (leb_ℤ due at) _ _ (send_alive-Holds at st h) h)

prune-Holds :
    {D : Doors → Type 0} (env : Env) (at next : ℤ) (st : State)
    → Holds D st
    → Holds D (prune_step env at next st).1
unfolding prune_step expire
prune-Holds env at next st h =
    let pruned_ok = option-Holds (earliest st.peers) st _ h λ e.
      if-Holds (leb_ℤ (e +w prune_padding) at) _ _
        (check_session_loss-Holds env _ (forget-Holds _ _ h)) h in
    option-pair (earliest _) _ _ pruned_ok (λ e. pruned_ok)

-- The timer counts a retry only below the budget.
retry-Holds :
    {D : Doors → Type 0} (env : Env) (at next : ℤ) (m : Measurement) (st : State)
    → Holds D st
    → Holds D (retry env at next m st).1
unfolding retry
retry-Holds env at next m st h =
    if-pair (leb_ℤ m.retry_deadline at) _ _
      (elim (Bool-cases (leb max_measurement_retries m.timeouts)) [
        | inl spent ↦ rw spent (
            failed-Holds env m _
              (record { budget = tt; house = h.house; clamped = h.clamped; spaced = h.spaced }))
        | inr left ↦ rw left (
            send_measurement-Holds _ _ _ _ (record {
              budget = ground arith;
              house = h.house;
              clamped = h.clamped;
              spaced = h.spaced;
            }))
      ])
      h

pub retry_step-Holds :
    {D : Doors → Type 0} (env : Env) (at next : ℤ) (st : State)
    → Holds D st
    → Holds D (retry_step env at next st).1
unfolding retry_step
retry_step-Holds env at next st h =
    option-pair st.measurement _ _ h (λ m. retry-Holds env at next m st h)

remeasure-Holds :
    {D : Doors → Type 0} (at next : ℤ) (st : State)
    → Holds D st
    → Holds D (remeasure_step at next st).1
unfolding remeasure_step queue_remeasure
remeasure-Holds at next st h = option-pair st.next_remeasure_at _ _ h λ t.
    if-pair (leb_ℤ t at) _ _
      (if-Holds (Id.eqb st.session st.node || is_queued st.session st) _ _ h (
        option-Holds
          (or_else (find_map (founder_endpoint st.session) st.peers)
            (find_map (member_endpoint st.session) st.peers))
          _ _ h (λ t'. h)))
      h

pub housekeeping-Holds :
    {D : Doors → Type 0} (env : Env) (st : State)
    → Holds D st
    → Holds D (housekeeping_pass env st).1
unfolding housekeeping_pass now
housekeeping-Holds env st h =
    let at = env.clock st.reads in
    let st0 : State = record st { reads = suc st.reads } in
    let st1 = alive_step at st0 in
    let next1 = min_ℤ (at +w alive_period) (st1.last_alive_at +w alive_period) in
    let p2 = broadcast_step at next1 st1 in
    let p3 = prune_step env at p2.0 p2.1 in
    let p4 = retry_step env at p3.0 p3.1 in
    let p5 = remeasure_step at p4.0 p4.1 in
    let h1 = alive-Holds at st0 h in
    let h2 = broadcast-Holds at next1 st1 h1 in
    let h3 = prune-Holds env at p2.0 p2.1 h2 in
    let h4 = retry_step-Holds env at p3.0 p3.1 h3 in
    let h5 = remeasure-Holds at p4.0 p4.1 h4 in
    if-pair (not st.enabled) (at +w alive_period, st0) (p5.0, start_next_measurement env p5.1) h
      (start_next-Holds env p5.1 h5)
