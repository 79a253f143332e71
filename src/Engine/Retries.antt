-- ===== src/Engine/Retries.antt =====
-- The retry budget in the measurement handlers of crates/tactus/src/engine.rs.
use link_wire_rs.Common.{
  ℕ, suc, if◌then◌else◌, ◌≤◌, ◌≡◌, refl, List, ◌++◌, length, Option, none, some, not, ◌||◌, ltb,
  ◌==◌,
}
use link_wire_rs.Common.Int.{ℤ}
use link_wire_rs.Common.Maps.{nat_eq}
use link_wire_rs.Types.Id
use link_wire_rs.Types.Id.{LinkId}
use link_wire_rs.Types.Endpoint.{SocketAddr}
use link_wire_rs.Codec.Error.{Result, ok, err, stuck}
use link_wire_rs.Sync.Message.{Message, ping, pong, Ping, Pong, max_ping_payload, samples_required}
use link_wire_rs.Sync.Decode.{decode, parse_echo}
use link_wire_rs.Engine.State.{
  State, Env, Measurement, Purpose, join, remeasure, now, eqb_addr, max_measurement_retries, id_eq,
}
use link_wire_rs.Engine.Measure.{
  rearm, measurement_succeeded, measurement_failed, take_samples, handle_pong, answer_ping,
  handle_measurement_datagram, new_samples, echo_or_none,
}
use link_wire_rs.Engine.Budget.{
  Doors, Holds, if-Holds, start_next-Holds, evaluate_join-Holds, send_measurement-Holds,
}

rearm-Holds : {D : Doors → Type 0} (env : Env) (st : State) → Holds D st → Holds D (rearm env st)
unfolding rearm now
rearm-Holds env st h = h

-- The purposes of a measurement.
purpose-Holds :
    {D : Doors → Type 0} (p : Purpose) (s t : State)
    → Holds D s
    → Holds D t
    → Holds D (elim p [ join ↦ s | remeasure ↦ t ])
purpose-Holds join s t h k = h
purpose-Holds remeasure s t h k = k

succeeded-Holds :
    {D : Doors → Type 0} (env : Env) (done : Measurement) (offset : ℤ) (st : State)
    → Holds D st
    → Holds D (measurement_succeeded env done offset st)
unfolding measurement_succeeded
succeeded-Holds env done offset st h = start_next-Holds env _ (
    purpose-Holds done.task.purpose _ _ (evaluate_join-Holds env done.task.session offset _ h)
      (rearm-Holds env _ (if-Holds (Id.eqb st.session done.task.session) _ _ h h)))

pub failed-Holds :
    {D : Doors → Type 0} (env : Env) (failed : Measurement) (st : State)
    → Holds D st
    → Holds D (measurement_failed env failed st)
unfolding measurement_failed
failed-Holds env failed st h =
    start_next-Holds env _ (purpose-Holds failed.task.purpose _ _ h (rearm-Holds env st h))

samples-Holds :
    {D : Doors → Type 0} (env : Env) (at : ℤ) (m : Measurement) (p : Pong) (st : State)
    → m.timeouts ≤ max_measurement_retries
    → Holds D st
    → Holds D (take_samples env at m p st)
unfolding take_samples
samples-Holds env at m p st h k =
    if-Holds
      (ltb samples_required
        (length (m.samples ++ new_samples p.ghost_time at (echo_or_none (parse_echo p.echo)))))
      _ _
      (succeeded-Holds env _ _ _
        (record { budget = tt; house = k.house; clamped = k.clamped; spaced = k.spaced }))
      (send_measurement-Holds _ _ _ _
        (record { budget = h; house = k.house; clamped = k.clamped; spaced = k.spaced }))

-- `f` may be used on the measurement that there is.
pub measurement-Holds :
    {D : Doors → Type 0} (o : Option Measurement) (s : State) (f : Measurement → State)
    → Holds D s
    → ((m : Measurement) → o ≡ some m → Holds D (f m))
    → Holds D (elim o [ none ↦ s | some m ↦ f m ])
measurement-Holds none s f h k = h
measurement-Holds (some m) s f h k = k m refl

pub within :
    {D : Doors → Type 0} (st : State) (m : Measurement)
    → Holds D st
    → st.measurement ≡ some m
    → m.timeouts ≤ max_measurement_retries
within st m h e = rw e at h.budget

pong-Holds :
    {D : Doors → Type 0} (env : Env) (gw_idx : ℕ) (src : SocketAddr) (p : Pong) (st : State)
    → Holds D st
    → Holds D (handle_pong env gw_idx src p st)
unfolding handle_pong now
pong-Holds {D = D} env gw_idx src p st h =
    let at = env.clock st.reads in
    let st1 = record st { reads = suc st.reads } in
    let k : Holds D st1 = h in
    measurement-Holds st.measurement st1
      (λ m.
        if not (m.task.gateway == gw_idx) || not (eqb_addr m.task.target src)
        then st1
        else if not (Id.eqb p.session m.task.session)
        then measurement_failed env m (record st1 { measurement = none })
        else take_samples env at m p st1)
      k
      λ m e. if-Holds (not (m.task.gateway == gw_idx) || not (eqb_addr m.task.target src)) st1 _ k (
        if-Holds (not (Id.eqb p.session m.task.session))
          (measurement_failed env m (record st1 { measurement = none }))
          (take_samples env at m p st1)
          (failed-Holds env m (record st1 { measurement = none })
            (record { budget = tt; house = h.house; clamped = h.clamped; spaced = h.spaced }))
          (samples-Holds env at m p st1 (within st m h e) k))

ping-Holds :
    {D : Doors → Type 0} (env : Env) (gw_idx : ℕ) (src : SocketAddr) (p : Ping) (st : State)
    → Holds D st
    → Holds D (answer_ping env gw_idx src p st)
unfolding answer_ping now
ping-Holds env gw_idx src p st h =
    if-Holds (ltb max_ping_payload (length p.payload)) _ _ h (send_measurement-Holds _ _ _ _ h)

pub measurement_datagram-Holds :
    {D : Doors → Type 0} (env : Env) (gw_idx : ℕ) (src : SocketAddr) (buf : List ℕ) (st : State)
    → Holds D st
    → Holds D (handle_measurement_datagram env gw_idx src buf st)
unfolding handle_measurement_datagram
measurement_datagram-Holds {D = D} env gw_idx src buf st h =
    if-Holds (not st.enabled) _ _ h (message (decode buf))
  where
    message :
        (r : Result Message)
        → Holds D (elim r [
          | ok (ping p) ↦ answer_ping env gw_idx src p st
          | ok (pong p) ↦ handle_pong env gw_idx src p st
          | err e ↦ st
          | stuck ↦ st
        ])
    message (ok (ping p)) = ping-Holds env gw_idx src p st h
    message (ok (pong p)) = pong-Holds env gw_idx src p st h
    message (err e) = h
    message stuck = h
