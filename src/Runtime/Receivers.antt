-- ===== src/Runtime/Receivers.antt =====
-- The receivers of crates/tactus/src/runtime.rs.
use link_wire_rs.Common.{
  ℕ, ◌≤◌, ◌<◌, ◌≡◌, refl, ap, List, none, Bool, true, false, ◌&&◌, ◌==◌, ==_iff, Bool-cases,
  Option-cases, inl, inr, arith,
}
use link_wire_rs.Common.Maps.{get, nat_eq}
use link_wire_rs.Types.Id.{LinkId}
use link_wire_rs.Types.Endpoint.{SocketAddr}
use link_wire_rs.Math.Float.{Float, bpm_to_tempo, bpm_to_tempo-IsClamped}
use link_wire_rs.Engine.State.{State, Env, Gateway, new}
use link_wire_rs.Engine.Budget.{Doors, doors}
use link_wire_rs.Runtime.Gateways.{Role, is_open, gateway_live, receive_from}
use link_wire_rs.Runtime.Sound.{Livable}
use link_wire_rs.Runtime.Steps.{Reach, reach-Holds}
use link_wire_rs.Runtime.Keys.{get-remove, get-insert_other}
use link_wire_rs.Runtime.House.{IsHouse, IsHouse-Livable, new-Sound}

-- A receiver of an epoch that is over or of a gateway that is closed.
pub record IsDead (gw epoch : ℕ) (d : Doors) : Type 0 where
  pub given : gw < d.next_gateway_id
  pub begun : epoch ≤ d.epoch
  pub over : (d.epoch ≡ epoch) → get gw d.gateways ≡ none

IsDead-Livable : (gw epoch : ℕ) → Livable (IsDead gw epoch)
IsDead-Livable gw epoch = record {
  closes = λ id d h. record {
    given = h.given;
    begun = h.begun;
    over = λ e. get-remove gw id d.gateways (h.over e);
  };
  opens = λ d g on e h. record {
    given = omega (arith, h.given);
    begun = h.begun;
    over = λ same.
        let l = h.given in
        let fresh : (g.id == gw) ≡ false = rw e (ground arith) in
        get-insert_other gw g.id g d.gateways fresh (h.over same);
  };
  enables = λ d e h. record {
    given = h.given;
    begun = omega (arith, h.begun);
    over = λ same. absurd (omega (arith, h.begun));
  };
  disables = λ d h. record { given = h.given; begun = omega (arith, h.begun); over = λ same. refl };
}

third_false : (a b c : Bool) → (a && b && c) ≡ false → a ≡ true → b ≡ true → c ≡ false
third_false a b c h ha hb = ground arith

all_false : (a b c : Bool) → (b ≡ true → c ≡ false) → (a && b && c) ≡ false
all_false a true c h = ground (arith, h refl)
all_false a false c h = ground arith

is_open-none : (gw : ℕ) (gs : List (ℕ × Gateway)) → is_open gw gs ≡ false → get gw gs ≡ none
is_open-none gw gs h = elim (Option-cases (get gw gs)) [
  | inl closed ↦ closed
  | inr (g, e) ↦ let contra : true ≡ false = rw (is_open, e) at h in absurd (ground arith)
]

not_live :
    (gw epoch : ℕ) (st : State)
    → IsHouse (doors st)
    → gateway_live gw epoch st ≡ false
    → st.epoch ≡ epoch
    → get gw st.gateways ≡ none
unfolding gateway_live
not_live gw epoch st h live same = elim (Bool-cases st.enabled) [
  | inl on ↦ is_open-none gw st.gateways (
      third_false st.enabled (st.epoch == epoch) (is_open gw st.gateways) live on
        ((==_iff st.epoch epoch).1 same))
  | inr off ↦ ap (get gw) (h.closed off)
]

dead_not_live :
    (gw epoch : ℕ) (st : State) → IsDead gw epoch (doors st) → gateway_live gw epoch st ≡ false
unfolding gateway_live
dead_not_live gw epoch st h =
    all_false st.enabled (st.epoch == epoch) (is_open gw st.gateways) λ same.
      let e : get gw st.gateways ≡ none = h.over ((==_iff st.epoch epoch).0 same) in
      rw (is_open, e) refl

-- Throughout the life of a peer: a receiver that is not live, of a gateway id and an epoch that have been given out,
-- never is live again, whatever happens, and the datagrams that it still gets change nothing.
pub dead_receiver :
    (F : Float) (bpm : F.Double) (node : LinkId) (gw epoch : ℕ) (st st' : State)
    → Reach F (new node (bpm_to_tempo F bpm)) st
    → gw < st.next_gateway_id
    → epoch ≤ st.epoch
    → gateway_live gw epoch st ≡ false
    → Reach F st st'
    → (gateway_live gw epoch st' ≡ false)
      × ((env : Env) (src : SocketAddr) (buf : List ℕ) (role : Role)
          → receive_from env gw epoch src buf role st' ≡ st')
unfolding receive_from
dead_receiver F bpm node gw epoch st st' before g e live r =
    let lived =
      reach-Holds IsHouse-Livable before
        (new-Sound node (bpm_to_tempo F bpm) (bpm_to_tempo-IsClamped F bpm)) in
    let dead = reach-Holds (IsDead-Livable gw epoch) r (record {
      budget = lived.budget;
      clamped = lived.clamped;
      spaced = lived.spaced;
      house = record { given = g; begun = e; over = not_live gw epoch st lived.house live };
    }) in
    let off = dead_not_live gw epoch st' dead.house in (off, λ env src buf role. rw off refl)
