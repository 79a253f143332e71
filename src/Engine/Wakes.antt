-- ===== src/Engine/Wakes.antt =====
-- When a pass of `housekeeping_pass` in crates/tactus/src/engine.rs asks to run again.
use link_wire_rs.Common.{Option, none, some, not, if-intro, leb, arith}
use link_wire_rs.Common.Int.{ℤ, ◌≤ℤ◌, leb_ℤ}
use link_wire_rs.Math.Word.{◌+w◌}
use link_wire_rs.Engine.State.{
  State, Env, Measurement, now, alive_period, prune_padding, max_measurement_retries, id_eq,
}
use link_wire_rs.Engine.Housekeeping.{
  min_ℤ, broadcast_step, prune_step, earliest, retry, retry_step, remeasure_step, housekeeping_pass,
}

pub min_ℤ-le : (a b n : ℤ) → a ≤ℤ n → min_ℤ a b ≤ℤ n
min_ℤ-le a b n h = if-intro (λ m. m ≤ℤ n) (leb_ℤ a b) a b (λ e. h) (λ e. ground arith)

-- The time of a step's result is not after `n`.
abbrev Wakes : ℤ → ℤ × State → Type 0
Wakes n p = p.0 ≤ℤ n

option-Wakes :
    {A : Type 0} (n : ℤ) (o : Option A) (p : ℤ × State) (f : A → ℤ × State)
    → Wakes n p
    → ((a : A) → Wakes n (f a))
    → Wakes n (elim o as (λ _. ℤ × State) [ none ↦ p | some a ↦ f a ])
option-Wakes n none p f h k = h
option-Wakes n (some a) p f h k = k a

broadcast_step-Wakes :
    (n at next : ℤ) (st : State) → next ≤ℤ n → Wakes n (broadcast_step at next st)
unfolding broadcast_step
broadcast_step-Wakes n at next st h =
    option-Wakes n st.broadcast_due _ _ h
      λ due. if-intro (Wakes n) (leb_ℤ due at) _ _ (λ e. h) (λ e. min_ℤ-le next due n h)

prune_step-Wakes :
    (n : ℤ) (env : Env) (at next : ℤ) (st : State) → next ≤ℤ n → Wakes n (prune_step env at next st)
unfolding prune_step
prune_step-Wakes n env at next st h =
    option-Wakes n (earliest _) _ _ h (λ e. min_ℤ-le next (e +w prune_padding) n h)

retry-Wakes :
    (n : ℤ) (env : Env) (at next : ℤ) (m : Measurement) (st : State)
    → next ≤ℤ n
    → Wakes n (retry env at next m st)
unfolding retry
retry-Wakes n env at next m st h =
    if-intro (Wakes n) (leb_ℤ m.retry_deadline at) _ _
      (λ e.
        if-intro (Wakes n) (leb max_measurement_retries m.timeouts) _ _ (λ f. h)
          (λ f. min_ℤ-le next _ n h))
      (λ e. min_ℤ-le next m.retry_deadline n h)

retry_step-Wakes :
    (n : ℤ) (env : Env) (at next : ℤ) (st : State) → next ≤ℤ n → Wakes n (retry_step env at next st)
unfolding retry_step
retry_step-Wakes n env at next st h =
    option-Wakes n st.measurement _ _ h (λ m. retry-Wakes n env at next m st h)

remeasure_step-Wakes :
    (n at next : ℤ) (st : State) → next ≤ℤ n → Wakes n (remeasure_step at next st)
unfolding remeasure_step
remeasure_step-Wakes n at next st h =
    option-Wakes n st.next_remeasure_at _ _ h
      λ t. if-intro (Wakes n) (leb_ℤ t at) _ _ (λ e. min_ℤ-le next _ n h) (λ e. min_ℤ-le next t n h)

-- A pass asks to run again within a period of the Alives.
pub housekeeping_pass-Wakes :
    (env : Env) (st : State) → Wakes (env.clock st.reads +w alive_period) (housekeeping_pass env st)
unfolding housekeeping_pass now
housekeeping_pass-Wakes env st =
    let n = env.clock st.reads +w alive_period in
    if-intro (Wakes n) (not st.enabled) _ _ (λ off. omega arith)
      (λ on. remeasure_step-Wakes n _ _ _ (
        retry_step-Wakes n env _ _ _ (
          prune_step-Wakes n env _ _ _
            (broadcast_step-Wakes n _ _ _ (min_ℤ-le n _ n (omega arith))))))
