-- ===== src/Engine/Retried.antt =====
-- What the pongs and the retry timer of crates/tactus/src/engine.rs make of a running measurement.
use link_wire_rs.Common.{
  ℕ, suc, ◌+◌, ◌≤◌, ◌≡◌, refl, sym, ap, ◌∙◌, if-intro, option-intro, List, ◌++◌, length, Option,
  none, some, of_some, Bool, true, false, not, ◌||◌, leb, ltb, ◌==◌, if◌then◌else◌, arith,
}
use link_wire_rs.Common.Int.{ℤ, leb_ℤ}
use link_wire_rs.Common.Maps.{nat_eq}
use link_wire_rs.Types.Id
use link_wire_rs.Types.Id.{LinkId}
use link_wire_rs.Types.Endpoint.{SocketAddr}
use link_wire_rs.Codec.Error.{Result, ok, err, stuck}
use link_wire_rs.Sync.Message.{Message, ping, pong, Ping, Pong, max_ping_payload, samples_required}
use link_wire_rs.Sync.Decode.{decode, parse_echo}
use link_wire_rs.Engine.State.{
  State, Env, Measurement, now, eqb_addr, id_eq, max_measurement_retries,
}
use link_wire_rs.Engine.Measure.{
  take_samples, handle_pong, answer_ping, handle_measurement_datagram, new_samples, echo_or_none,
}
use link_wire_rs.Engine.Housekeeping.{retry, retry_step}
use link_wire_rs.Engine.Ends.{Rest, rest, Over, rest-send_measurement, failed-Over, succeeded-Over}

-- From one state to another: as long as no task was taken from those that wait, a running measurement is the one
-- that ran before, `k` retries later.
abbrev pub Went : ℕ → State → Rest → Type 0
Went k st (o, us) =
    (length us ≤ length st.pending)
    × ((n : Measurement)
        → o ≡ some n
        → length us ≡ length st.pending
        → (m : Measurement) × (st.measurement ≡ some m)
          × (n.task ≡ m.task)
          × (n.timeouts ≡ m.timeouts + k))

pub Went-refl : (st : State) → Went 0 st (rest st)
Went-refl st = (omega arith, λ n e l. (n, e, refl, omega arith))

pub Went-trans :
    (k l : ℕ) (a b c : State) → Went k a (rest b) → Went l b (rest c) → Went (k + l) a (rest c)
Went-trans k l a b c (less, back) (less', back') = (
  omega arith,
  λ n e same.
      let (m, f, t, r) = back' n e (omega arith) in
      let (o, g, u, s) = back m f (omega arith) in (o, g, t ∙ u, omega arith),
)

Went-rest : (st : State) (r : Rest) → r ≡ rest st → Went 0 st r
Went-rest st r f = (
  omega (arith, ap (λ (x : Rest). length x.1) f),
  λ n e same. (n, sym (ap (λ (x : Rest). x.0) f) ∙ e, refl, omega arith),
)

Went-Over : (k : ℕ) (st : State) (r : Rest) → Over st.pending r → Went k st r
Went-Over k st r (less, started) = (less, λ n e same. absurd (omega (arith, started n e, same)))

Went-same :
    (k : ℕ) (st : State) (r : Rest) (m m' : Measurement)
    → st.measurement ≡ some m
    → r ≡ (some m', st.pending)
    → m'.task ≡ m.task
    → m'.timeouts ≡ m.timeouts + k
    → Went k st r
Went-same k st r m m' e f t c = (
  omega (arith, ap (λ (x : Rest). length x.1) f),
  λ n g same.
      of_some
        (λ n'.
          (m0 : Measurement) × (st.measurement ≡ some m0)
          × (n'.task ≡ m0.task)
          × (n'.timeouts ≡ m0.timeouts + k))
        m' n (sym (ap (λ (x : Rest). x.0) f) ∙ g) (m, e, t, c),
)

samples-Went :
    (env : Env) (at : ℤ) (m : Measurement) (p : Pong) (st : State)
    → st.measurement ≡ some m
    → Went 0 st (rest (take_samples env at m p st))
unfolding take_samples
samples-Went env at m p st e =
    if-intro (λ s. Went 0 st (rest s))
      (ltb samples_required
        (length (m.samples ++ new_samples p.ghost_time at (echo_or_none (parse_echo p.echo)))))
      _ _ (λ i. Went-Over 0 st _ (succeeded-Over env _ _ st.pending _ refl))
      (λ i. Went-same 0 st _ m _ e (rest-send_measurement _ _ _ _) refl (omega arith))

pong-Went :
    (env : Env) (gw_idx : ℕ) (src : SocketAddr) (p : Pong) (st : State)
    → Went 0 st (rest (handle_pong env gw_idx src p st))
unfolding handle_pong now
pong-Went env gw_idx src p st =
    option-intro (λ s. Went 0 st (rest s)) st.measurement _ _ (λ e. Went-refl st)
      λ m e.
        if-intro (λ s. Went 0 st (rest s))
          (not (m.task.gateway == gw_idx) || not (eqb_addr m.task.target src)) _ _
          (λ i. Went-refl st)
          λ i.
            if-intro (λ s. Went 0 st (rest s)) (not (Id.eqb p.session m.task.session)) _ _
              (λ j. Went-Over 0 st _ (failed-Over env m st.pending _ refl))
              (λ j. samples-Went env _ m p (record st { reads = suc st.reads }) e)

ping-Went :
    (env : Env) (gw_idx : ℕ) (src : SocketAddr) (p : Ping) (st : State)
    → Went 0 st (rest (answer_ping env gw_idx src p st))
unfolding answer_ping now
ping-Went env gw_idx src p st =
    if-intro (λ s. Went 0 st (rest s)) (ltb max_ping_payload (length p.payload)) _ _
      (λ i. Went-refl st) (λ i. Went-rest st _ (rest-send_measurement _ _ _ _))

pub datagram-Went :
    (env : Env) (gw_idx : ℕ) (src : SocketAddr) (buf : List ℕ) (st : State)
    → Went 0 st (rest (handle_measurement_datagram env gw_idx src buf st))
unfolding handle_measurement_datagram
datagram-Went env gw_idx src buf st =
    if-intro (λ s. Went 0 st (rest s)) (not st.enabled) _ _ (λ i. Went-refl st)
      (λ i. message (decode buf))
  where
    message :
        (r : Result Message)
        → Went 0 st (
            rest (elim r [
              | ok (ping p) ↦ answer_ping env gw_idx src p st
              | ok (pong p) ↦ handle_pong env gw_idx src p st
              | err e ↦ st
              | stuck ↦ st
            ]))
    message (ok (ping p)) = ping-Went env gw_idx src p st
    message (ok (pong p)) = pong-Went env gw_idx src p st
    message (err e) = Went-refl st
    message stuck = Went-refl st

-- Whether the retry timer of what is measured has run out.
abbrev pub counted : Bool → ℕ
counted true = 1
counted false = 0

abbrev pub ran_out : ℤ → Option Measurement → ℕ
ran_out at none = 0
ran_out at (some m) = counted (leb_ℤ m.retry_deadline at)

counted-intro :
    {A : Type 0} (P : ℕ → A → Type 0) (b : Bool) (x y : A)
    → P 1 x
    → P 0 y
    → P (counted b) (if b then x else y)
counted-intro P true x y h k = h
counted-intro P false x y h k = k

retry-Went :
    (env : Env) (at next : ℤ) (m : Measurement) (st : State)
    → st.measurement ≡ some m
    → Went (counted (leb_ℤ m.retry_deadline at)) st (rest (retry env at next m st).1)
unfolding retry
retry-Went env at next m st e =
    counted-intro (λ k (p : ℤ × State). Went k st (rest p.1)) (leb_ℤ m.retry_deadline at) _ _
      (if-intro (λ (p : ℤ × State). Went 1 st (rest p.1)) (leb max_measurement_retries m.timeouts) _
        _ (λ spent. Went-Over 1 st _ (failed-Over env m st.pending _ refl))
        (λ more. Went-same 1 st _ m _ e (rest-send_measurement _ _ _ _) refl (omega arith)))
      (Went-refl st)

ran_out-intro :
    {A : Type 0} (P : ℕ → A → Type 0) (at : ℤ) (o : Option Measurement) (x : A)
    (f : Measurement → A)
    → P 0 x
    → ((m : Measurement) → o ≡ some m → P (counted (leb_ℤ m.retry_deadline at)) (f m))
    → P (ran_out at o) (elim o [ none ↦ x | some m ↦ f m ])
ran_out-intro P at none x f h k = h
ran_out-intro P at (some m) x f h k = k m refl

pub retry_step-Went :
    (env : Env) (at next : ℤ) (st : State)
    → Went (ran_out at st.measurement) st (rest (retry_step env at next st).1)
unfolding retry_step
retry_step-Went env at next st =
    ran_out-intro (λ k (p : ℤ × State). Went k st (rest p.1)) at st.measurement _ _ (Went-refl st)
      (λ m e. retry-Went env at next m st e)
