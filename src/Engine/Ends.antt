-- ===== src/Engine/Ends.antt =====
-- What the end of a measurement leaves to measure in crates/tactus/src/engine.rs.
use link_wire_rs.Common.{
  ℕ, ◌≤◌, ◌<◌, ◌≡◌, refl, sym, ap, ◌∙◌, if-intro, option-intro, List, [], ◌∷◌, length, Option, none,
  some, arith,
}
use mathlib.Core.Path.{subst}
use link_wire_rs.Common.Int.{ℤ}
use link_wire_rs.Common.Maps.{get, nat_eq}
use link_wire_rs.Types.Id
use link_wire_rs.Types.Id.{LinkId}
use link_wire_rs.Types.Endpoint.{SocketAddr}
use link_wire_rs.Engine.State.{
  State, Env, Measurement, MeasureTask, Purpose, join, remeasure, now, push, id_eq,
}
use link_wire_rs.Engine.Silence.{silence-schedule_broadcast}
use link_wire_rs.Engine.Election.{evaluate_join, do_join, should_join}
use link_wire_rs.Engine.Measure.{
  rearm, start_task, start_pending, start_next_measurement, send_measurement, measurement_succeeded,
  measurement_failed,
}

-- What is measured, and what waits for it.
abbrev pub Rest : Type 0
Rest = Option Measurement × List MeasureTask

abbrev pub rest : State → Rest
rest st = (st.measurement, st.pending)

-- The measurement is over: a new one is one of those that waited.
abbrev pub Over : List MeasureTask → Rest → Type 0
Over ts (o, us) = (length us ≤ length ts) × ((n : Measurement) → o ≡ some n → length us < length ts)

pub rest-send_measurement :
    (gw : ℕ) (bytes : List ℕ) (dst : SocketAddr) (st : State)
    → rest (send_measurement gw bytes dst st) ≡ rest st
unfolding send_measurement push
rest-send_measurement gw bytes dst st =
    option-intro (λ s. rest s ≡ rest st) (get gw st.gateways) _ _ (λ e. refl) (λ g e. refl)

rest-evaluate_join :
    (env : Env) (sess : LinkId) (offset : ℤ) (st : State)
    → rest (evaluate_join env sess offset st) ≡ rest st
unfolding evaluate_join do_join now
rest-evaluate_join env sess offset st =
    if-intro (λ s. rest s ≡ rest st) (Id.eqb sess st.session) _ _ (λ e. refl)
      λ e.
        if-intro (λ s. rest s ≡ rest st) (should_join sess offset st.session st.ghost_offset) _ _
          (λ j. ap rest (silence-schedule_broadcast env _)) (λ j. refl)

rest-rearm : (env : Env) (st : State) → rest (rearm env st) ≡ rest st
unfolding rearm now
rest-rearm env st = refl

start_pending-Over :
    (env : Env) (ts : List MeasureTask) (st : State)
    → rest st ≡ (none, ts)
    → Over ts (rest (start_pending env ts st))
unfolding start_task now push
start_pending-Over env [] st e = subst (Over []) (sym e) (omega arith, λ n i. absurd (ground arith))
start_pending-Over env (t ∷ ts) st e =
    option-intro (λ s. Over (t ∷ ts) (rest s)) (get t.gateway st.gateways) _ _
      (λ none_open. (omega arith, λ n i. omega arith)) (λ gw on. (omega arith, λ n i. omega arith))

start_next-Over :
    (env : Env) (ts : List MeasureTask) (st : State)
    → rest st ≡ (none, ts)
    → Over ts (rest (start_next_measurement env st))
unfolding start_next_measurement
start_next-Over env ts st e =
    option-intro (λ s. Over ts (rest s)) st.measurement _ _
      (λ free.
        subst (λ us. Over ts (rest (start_pending env us st))) (sym (ap (λ r. r.1) e))
          (start_pending-Over env ts st e))
      (λ m busy. absurd (ground (arith, sym busy ∙ ap (λ (r : Rest). r.0) e)))

-- What holds for either purpose.
purpose-intro :
    (P : State → Type 0) (p : Purpose) (s t : State)
    → P s
    → P t
    → P (elim p [ join ↦ s | remeasure ↦ t ])
purpose-intro P join s t h k = h
purpose-intro P remeasure s t h k = k

pub failed-Over :
    (env : Env) (m : Measurement) (ts : List MeasureTask) (st : State)
    → rest st ≡ (none, ts)
    → Over ts (rest (measurement_failed env m st))
unfolding measurement_failed
failed-Over env m ts st e =
    start_next-Over env ts _
      (purpose-intro (λ s. rest s ≡ (none, ts)) m.task.purpose _ _ e (rest-rearm env st ∙ e))

pub succeeded-Over :
    (env : Env) (m : Measurement) (offset : ℤ) (ts : List MeasureTask) (st : State)
    → rest st ≡ (none, ts)
    → Over ts (rest (measurement_succeeded env m offset st))
unfolding measurement_succeeded
succeeded-Over env m offset ts st e = start_next-Over env ts _ (
    purpose-intro (λ s. rest s ≡ (none, ts)) m.task.purpose _ _
      (rest-evaluate_join env m.task.session offset _ ∙ e)
      (rest-rearm env _
        ∙ if-intro (λ s. rest s ≡ (none, ts)) (Id.eqb st.session m.task.session) _ _ (λ i. e)
            (λ i. e)))
