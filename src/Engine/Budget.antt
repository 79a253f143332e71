-- ===== src/Engine/Budget.antt =====
-- The retry budget of a measurement in crates/tactus/src/engine.rs, kept by every handler.
use link_wire_rs.Common.{
  ℕ, ◌≤◌, ◌≡◌, refl, List, [], ◌∷◌, Option, none, some, Bool, true, false, not, ◌&&◌, if◌then◌else◌,
  arith,
}
use link_wire_rs.Common.Int.{ℤ, leb_ℤ}
use link_wire_rs.Common.Maps.{get, any, remove, nat_eq}
use link_wire_rs.Types.Id
use link_wire_rs.Types.Id.{LinkId}
use link_wire_rs.Types.Endpoint.{SocketAddr}
use link_wire_rs.Engine.State.{
  State, Env, Gateway, Measurement, MeasureTask, now, random_id, push, max_measurement_retries,
  min_broadcast_spacing, id_eq,
}
use link_wire_rs.Types.Timeline.{Timeline}
use link_wire_rs.Math.Word.{◌+w◌, ◌-w◌}
use link_wire_rs.Math.Float.{IsClamped, clamp_tempo-IsClamped}
use link_wire_rs.Engine.Send.{send_alive, schedule_broadcast}
use link_wire_rs.Engine.Election.{
  should_join, adopt, do_join, evaluate_join, reset_session, check_session_loss, is_member,
}
use link_wire_rs.Engine.Measure.{
  start_task, start_pending, start_next_measurement, send_measurement,
}

-- A running measurement has made no more than five retries.
abbrev pub WithinBudget : Option Measurement → Type 0
WithinBudget none = Unit
WithinBudget (some m) = m.timeouts ≤ max_measurement_retries

abbrev pub InBudget : State → Type 0
InBudget st = WithinBudget st.measurement

-- What the handlers of datagrams leave alone: whether the peer is enabled, its epoch, its gateways and the id of
-- the next.
pub record Doors : Type 0 where
  pub enabled : Bool
  pub epoch : ℕ
  pub gateways : List (ℕ × Gateway)
  pub next_gateway_id : ℕ

abbrev pub doors : State → Doors
doors st = record {
  enabled = st.enabled;
  epoch = st.epoch;
  gateways = st.gateways;
  next_gateway_id = st.next_gateway_id;
}

-- A broadcast that is put off is due when the spacing has passed since the last.
abbrev pub IsSpaced : Option ℤ → ℤ → Type 0
IsSpaced none last = Unit
IsSpaced (some due) last = due ≡ last +w min_broadcast_spacing

-- The budget, the tempo, the spacing of broadcasts, and whatever `D` says of the doors.
pub record Sound (D : Doors → Type 0) (m : Option Measurement) (d : Doors) (tempo : ℤ)
    (due : Option ℤ) (last : ℤ) : Type 0 where
  pub clamped : IsClamped tempo
  pub spaced : IsSpaced due last
  pub budget : WithinBudget m
  pub house : D d

abbrev pub Holds : (Doors → Type 0) → State → Type 0
Holds D st =
    Sound D st.measurement (doors st) st.timeline.tempo st.broadcast_due st.last_broadcast_at

pub if-Holds :
    {D : Doors → Type 0} (b : Bool) (s t : State)
    → Holds D s
    → Holds D t
    → Holds D (if b then s else t)
if-Holds true s t h k = h
if-Holds false s t h k = k

pub send_alive-Holds :
    {D : Doors → Type 0} (at : ℤ) (st : State) → Holds D st → Holds D (send_alive at st)
unfolding send_alive
send_alive-Holds at st h = record {
  budget = h.budget;
  house = h.house;
  clamped = h.clamped;
  spaced = tt;
}

pub schedule_broadcast-Holds :
    {D : Doors → Type 0} (env : Env) (st : State) → Holds D st → Holds D (schedule_broadcast env st)
unfolding schedule_broadcast now
schedule_broadcast-Holds env st h =
    if-Holds st.enabled _ st
      (if-Holds (leb_ℤ min_broadcast_spacing (env.clock st.reads -w st.last_broadcast_at)) _ _
        (send_alive-Holds (env.clock st.reads) _ h)
        (record { budget = h.budget; house = h.house; clamped = h.clamped; spaced = refl }))
      h

pub option-Holds :
    {D : Doors → Type 0} {A : Type 0} (o : Option A) (s : State) (f : A → State)
    → Holds D s
    → ((a : A) → Holds D (f a))
    → Holds D (elim o [ none ↦ s | some a ↦ f a ])
option-Holds none s f h k = h
option-Holds (some a) s f h k = k a

start_task-Holds :
    {D : Doors → Type 0} (env : Env) (task : MeasureTask) (st : State)
    → Holds D st
    → Holds D (start_task env task st)
unfolding start_task now push
start_task-Holds env task st h =
    option-Holds (get task.gateway st.gateways) st _ h (λ gw. record {
      budget = omega arith;
      house = h.house;
      clamped = h.clamped;
      spaced = h.spaced;
    })

start_pending-Holds :
    {D : Doors → Type 0} (env : Env) (tasks : List MeasureTask) (st : State)
    → Holds D st
    → Holds D (start_pending env tasks st)
start_pending-Holds env [] st h = h
start_pending-Holds env (task ∷ tasks) st h =
    start_task-Holds env task (record st { pending = tasks }) h

pub start_next-Holds :
    {D : Doors → Type 0} (env : Env) (st : State)
    → Holds D st
    → Holds D (start_next_measurement env st)
unfolding start_next_measurement
start_next-Holds env st h =
    option-Holds st.measurement (start_pending env st.pending st) (λ m. st)
      (start_pending-Holds env st.pending st h) (λ m. h)

adopt-IsClamped :
    (o : Option Timeline) (old : Timeline) → IsClamped old.tempo → IsClamped (adopt o old).tempo
unfolding adopt
adopt-IsClamped none old h = h
adopt-IsClamped (some tl) old h = clamp_tempo-IsClamped tl.tempo

do_join-Holds :
    {D : Doors → Type 0} (env : Env) (sess : LinkId) (offset : ℤ) (st : State)
    → Holds D st
    → Holds D (do_join env sess offset st)
unfolding do_join now
do_join-Holds env sess offset st h = schedule_broadcast-Holds env _ (record {
  budget = h.budget;
  house = h.house;
  clamped = adopt-IsClamped (get sess st.foreign_timelines) st.timeline h.clamped;
  spaced = h.spaced;
})

pub evaluate_join-Holds :
    {D : Doors → Type 0} (env : Env) (sess : LinkId) (offset : ℤ) (st : State)
    → Holds D st
    → Holds D (evaluate_join env sess offset st)
unfolding evaluate_join
evaluate_join-Holds env sess offset st h = if-Holds (Id.eqb sess st.session) _ _ h (
    if-Holds (should_join sess offset st.session st.ghost_offset) _ _
      (do_join-Holds env sess offset st h) h)

reset_session-Holds :
    {D : Doors → Type 0} (env : Env) (st : State) → Holds D st → Holds D (reset_session env st)
unfolding reset_session now random_id
reset_session-Holds env st h = schedule_broadcast-Holds env _ h

pub check_session_loss-Holds :
    {D : Doors → Type 0} (env : Env) (st : State) → Holds D st → Holds D (check_session_loss env st)
unfolding check_session_loss
check_session_loss-Holds env st h =
    if-Holds (st.session_member_seen && not (any (is_member st.session) st.peers)) _ _
      (reset_session-Holds env st h) h

pub send_measurement-Holds :
    {D : Doors → Type 0} (gw : ℕ) (bytes : List ℕ) (dst : SocketAddr) (st : State)
    → Holds D st
    → Holds D (send_measurement gw bytes dst st)
unfolding send_measurement push
send_measurement-Holds gw bytes dst st h = option-Holds (get gw st.gateways) st _ h (λ g. h)

-- What the closing of a gateway keeps, and that of any.
abbrev pub ClosableAt : ℕ → (Doors → Type 0) → Type 0
ClosableAt id D = (d : Doors) → D d → D (record d { gateways = remove id d.gateways })

abbrev pub Closable : (Doors → Type 0) → Type 0
Closable D = (id : ℕ) → ClosableAt id D
