-- ===== src/Engine/Rounds.antt =====
-- The retries of one measurement, through the pongs and the retry timer of crates/tactus/src/engine.rs.
use link_wire_rs.Common.{ℕ, ◌+◌, ◌≤◌, ◌≡◌, List, [], ◌∷◌, length, some, arith}
use link_wire_rs.Common.Int.{ℤ}
use link_wire_rs.Common.Maps.{nat_eq}
use link_wire_rs.Types.Endpoint.{SocketAddr}
use link_wire_rs.Engine.State.{State, Env, Measurement, id_eq, max_measurement_retries}
use link_wire_rs.Engine.Measure.{handle_measurement_datagram}
use link_wire_rs.Engine.Housekeeping.{retry_step}
use link_wire_rs.Engine.Budget.{Doors, Holds}
use link_wire_rs.Engine.Retries.{measurement_datagram-Holds, within}
use link_wire_rs.Engine.Runs.{retry_step-Holds}
use link_wire_rs.Engine.Ends.{rest}
use link_wire_rs.Engine.Retried.{
  Went, Went-refl, Went-trans, datagram-Went, ran_out, retry_step-Went,
}

-- What can happen to a running measurement: a datagram on a measurement socket, or a look at the retry timer in
-- a housekeeping pass, which wants to be called again by `next` without it.
pub data Event : Type 0 where
  datagram : ℕ → SocketAddr → List ℕ → Event
  timer : ℤ → ℤ → Event

module _ (env : Env) where
  abbrev pub happens : Event → State → State
  happens (datagram gw_idx src buf) st = handle_measurement_datagram env gw_idx src buf st
  happens (timer at next) st = (retry_step env at next st).1

  abbrev pub happen : List Event → State → State
  happen [] st = st
  happen (e ∷ es) st = happen es (happens e st)

  -- How often the timer runs out.
  abbrev pub tries : Event → State → ℕ
  tries (datagram gw_idx src buf) st = 0
  tries (timer at next) st = ran_out at st.measurement

  abbrev pub retries : List Event → State → ℕ
  retries [] st = 0
  retries (e ∷ es) st = tries e st + retries es (happens e st)

  happens-Went : (e : Event) (st : State) → Went (tries e st) st (rest (happens e st))
  happens-Went (datagram gw_idx src buf) st = datagram-Went env gw_idx src buf st
  happens-Went (timer at next) st = retry_step-Went env at next st

  happen-Went : (es : List Event) (st : State) → Went (retries es st) st (rest (happen es st))
  happen-Went [] st = Went-refl st
  happen-Went (e ∷ es) st =
      Went-trans (tries e st) (retries es (happens e st)) st (happens e st)
        (happen es (happens e st)) (happens-Went e st) (happen-Went es (happens e st))

  happen-Holds :
      {D : Doors → Type 0} (es : List Event) (st : State) → Holds D st → Holds D (happen es st)
  happen-Holds [] st h = h
  happen-Holds (datagram gw_idx src buf ∷ es) st h =
      happen-Holds es _ (measurement_datagram-Holds env gw_idx src buf st h)
  happen-Holds (timer at next ∷ es) st h = happen-Holds es _ (retry_step-Holds env at next st h)

  -- A running measurement of a peer within its budget, whatever arrives on the measurement sockets and however
  -- often the timer is looked at: as long as no task was taken from those that wait, it is the measurement that ran
  -- at first, its counter has grown by one for every time that the timer ran out, and these are five at most. So no
  -- pong restores the budget.
  pub happen_lem :
      {D : Doors → Type 0} (es : List Event) (st : State) (n : Measurement)
      → Holds D st
      → (happen es st).measurement ≡ some n
      → length (happen es st).pending ≡ length st.pending
      → (m : Measurement) × (st.measurement ≡ some m)
        × (n.task ≡ m.task)
        × (n.timeouts ≡ m.timeouts + retries es st)
        × (retries es st ≤ max_measurement_retries)
  happen_lem es st n h e same =
      let (m, f, t, r) = (happen-Went es st).1 n e same in
      (m, f, t, r, omega (arith, within (happen es st) n (happen-Holds es st h) e))
