-- ===== src/Runtime/House.antt =====
-- What holds of a peer throughout its life: its gateways, and the receivers of crates/tactus/src/runtime.rs.
use link_wire_rs.Common.{
  ℕ, suc, ◌+◌, ◌≤◌, length, some, ◌<◌, ◌≡◌, refl, List, [], ◌∷◌, false, ◌==◌, arith, All,
}
use link_wire_rs.Common.Int.{ℤ}
use link_wire_rs.Common.Maps.{nat_eq}
use link_wire_rs.Types.Id.{LinkId}
use link_wire_rs.Math.Float.{Float, IsClamped, bpm_to_tempo, bpm_to_tempo-IsClamped}
use link_wire_rs.Engine.State.{State, Env, Gateway, Measurement, new, max_measurement_retries}
use link_wire_rs.Engine.Rounds.{Event, happen, retries, happen_lem}
use link_wire_rs.Engine.Budget.{Doors, doors, InBudget, IsSpaced, Holds}
use link_wire_rs.Runtime.Keys.{All-remove, All-insert, HasKeys, remove-HasKeys, insert-HasKeys}
use link_wire_rs.Runtime.Sound.{Livable}
use link_wire_rs.Runtime.Steps.{Reach, reach-Holds}

-- Every gateway is under its own id, which has been given out, no id stands twice, and a peer that is not enabled has none.
pub record IsHouse (d : Doors) : Type 0 where
  pub given : All (λ g. (g.1.id ≡ g.0) × (g.0 < d.next_gateway_id)) d.gateways
  pub keys : HasKeys d.gateways
  pub closed : d.enabled ≡ false → d.gateways ≡ []

given-suc :
    (n : ℕ) (gs : List (ℕ × Gateway))
    → All (λ g. (g.1.id ≡ g.0) × (g.0 < n)) gs
    → All (λ g. (g.1.id ≡ g.0) × (g.0 < suc n)) gs
given-suc n [] h = tt
given-suc n (g ∷ gs) ((e, l), h) = ((e, omega arith), given-suc n gs h)

given-fresh :
    (n k : ℕ) (gs : List (ℕ × Gateway))
    → k ≡ n
    → All (λ g. (g.1.id ≡ g.0) × (g.0 < n)) gs
    → All (λ g. (g.0 == k) ≡ false) gs
given-fresh n k [] e h = tt
given-fresh n k (g ∷ gs) e ((i, l), h) = (ground arith, given-fresh n k gs e h)

pub IsHouse-Livable : Livable IsHouse
IsHouse-Livable = record {
  closes = λ id d h. record {
    given = All-remove (λ g. (g.1.id ≡ g.0) × (g.0 < d.next_gateway_id)) id d.gateways h.given;
    keys = remove-HasKeys id d.gateways h.keys;
    closed = λ e. rw (h.closed e) refl;
  };
  opens = λ d g on e h. record {
    given =
        All-insert (λ g. (g.1.id ≡ g.0) × (g.0 < suc d.next_gateway_id)) g.id g d.gateways
          (refl, omega arith) (given-suc d.next_gateway_id d.gateways h.given);
    keys =
        insert-HasKeys g.id g d.gateways (given-fresh d.next_gateway_id g.id d.gateways e h.given)
          h.keys;
    closed = λ off. absurd (ground arith);
  };
  enables =
      λ d e h. record { given = h.given; keys = h.keys; closed = λ off. absurd (ground arith) };
  disables = λ d h. record { given = tt; keys = tt; closed = λ off. refl };
}

pub new-Sound : (node : LinkId) (tempo : ℤ) → IsClamped tempo → Holds IsHouse (new node tempo)
unfolding new
new-Sound node tempo c = record {
  clamped = c;
  spaced = tt;
  budget = tt;
  house = record { given = tt; keys = tt; closed = λ e. refl };
}

-- Whatever datagrams arrive, however interfaces come and go, and whatever the application calls, in any order: from
-- a new peer on every gateway is under its own id, which has been given out, and no id stands twice; a peer that is
-- not enabled has no gateway; and the retry counter of a running measurement is five at most.
pub life-IsHouse :
    (F : Float) (bpm : F.Double) (node : LinkId) (st : State)
    → Reach F (new node (bpm_to_tempo F bpm)) st
    → IsHouse (doors st) × InBudget st
life-IsHouse F bpm node st r =
    let h =
      reach-Holds IsHouse-Livable r
        (new-Sound node (bpm_to_tempo F bpm) (bpm_to_tempo-IsClamped F bpm)) in
    (h.house, h.budget)

-- Throughout the life of a peer, by whatever arithmetic of doubles: its tempo is between 999 and 20 beats a minute, so
-- that no conversion of beats divides by zero, and a broadcast that is put off is due fifty milliseconds after the
-- last.
pub life-IsClamped :
    (F : Float) (bpm : F.Double) (node : LinkId) (st : State)
    → Reach F (new node (bpm_to_tempo F bpm)) st
    → IsClamped st.timeline.tempo × IsSpaced st.broadcast_due st.last_broadcast_at
life-IsClamped F bpm node st r =
    let h =
      reach-Holds IsHouse-Livable r
        (new-Sound node (bpm_to_tempo F bpm) (bpm_to_tempo-IsClamped F bpm)) in
    (h.clamped, h.spaced)

-- From a peer at any time of its life, whatever datagrams arrive on its measurement sockets and however often the
-- retry timer is looked at, in any order: where a measurement runs at the end and none of the waiting tasks was
-- taken, it is the measurement that ran at first, its retry counter has grown by one for every time that the timer
-- ran out, and it ran out five times at most. So no pong restores the budget.
pub life-retries :
    (F : Float) (bpm : F.Double) (node : LinkId) (st : State) (env : Env) (es : List Event)
    (n : Measurement)
    → Reach F (new node (bpm_to_tempo F bpm)) st
    → (happen env es st).measurement ≡ some n
    → length (happen env es st).pending ≡ length st.pending
    → (m : Measurement) × (st.measurement ≡ some m)
      × (n.task ≡ m.task)
      × (n.timeouts ≡ m.timeouts + retries env es st)
      × (retries env es st ≤ max_measurement_retries)
life-retries F bpm node st env es n r = happen_lem env es st n (
    reach-Holds IsHouse-Livable r
      (new-Sound node (bpm_to_tempo F bpm) (bpm_to_tempo-IsClamped F bpm)))
