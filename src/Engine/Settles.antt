-- ===== src/Engine/Settles.antt =====
-- The join rule of crates/tactus/src/engine.rs decides between two sessions one way.
use link_wire_rs.Common.{
  ◌≡◌, ◌≢◌, ap, Bool, true, false, not, ◌||◌, ◌&&◌, Bool-cases, inl, inr, arith,
}
use link_wire_rs.Common.Bytes.{InI64}
use link_wire_rs.Common.Int.{ℤ, pos, ◌-ℤ◌, ltb_ℤ, int_laws}
use link_wire_rs.Types.Id
use link_wire_rs.Types.Id.{LinkId}
use link_wire_rs.Math.Word.{sub-exact}
use link_wire_rs.Engine.State.{State, Env, now, join_epsilon}
use link_wire_rs.Engine.Election.{should_join, abs, evaluate_join, do_join}
use link_wire_rs.Engine.Silence.{silence-schedule_broadcast}

-- The rule on the exact difference.
rule : ℤ → LinkId → LinkId → Bool
rule diff a b =
    ltb_ℤ join_epsilon diff
    || ((ltb_ℤ diff join_epsilon && ltb_ℤ (pos 0 -ℤ join_epsilon) diff) && Id.lessb a b)

abs_lem :
    (z : ℤ)
    → InI64 z
    → InI64 (pos 0 -ℤ z)
    → ltb_ℤ (abs z) join_epsilon ≡ (ltb_ℤ z join_epsilon && ltb_ℤ (pos 0 -ℤ join_epsilon) z)
unfolding abs ◌-ℤ◌
abs_lem z h k = rw (sub-exact (pos 0) z k) (ground arith)

swap_lem : (x y : ℤ) → y -ℤ x ≡ pos 0 -ℤ (x -ℤ y)
swap_lem x y = grind int_laws

should_join_lem :
    (a b : LinkId) (x y : ℤ)
    → InI64 (x -ℤ y)
    → InI64 (y -ℤ x)
    → should_join a x b y ≡ rule (x -ℤ y) a b
unfolding should_join rule
should_join_lem a b x y h k = rw (sub-exact x y h, abs_lem (x -ℤ y) h (rw (swap_lem x y) at k))

rule_asymm : (d : ℤ) (a b : LinkId) → rule d a b ≡ true → rule (pos 0 -ℤ d) b a ≡ false
unfolding rule ◌-ℤ◌
rule_asymm d a b h = ground (arith, Id.lessb_asymm a b)

rule_total :
    (d : ℤ) (a b : LinkId)
    → d ≢ join_epsilon
    → d ≢ pos 0 -ℤ join_epsilon
    → Id.eqb a b ≡ false
    → rule d a b ≡ false
    → rule (pos 0 -ℤ d) b a ≡ true
unfolding rule ◌-ℤ◌
rule_total d a b e1 e2 ne h = ground (arith, Id.lessb_total a b)

-- Of two peers whose sessions have different ids and that know each other's offset exactly one
-- joins the other, where the difference of the offsets fits an `i64` either way and is not
-- exactly the threshold, up or down.
pub should_join_decides :
    (a b : LinkId) (x y : ℤ)
    → InI64 (x -ℤ y)
    → InI64 (y -ℤ x)
    → x -ℤ y ≢ join_epsilon
    → x -ℤ y ≢ pos 0 -ℤ join_epsilon
    → Id.eqb a b ≡ false
    → should_join a x b y ≡ not (should_join b y a x)
should_join_decides a b x y h k e1 e2 ne =
    rw (should_join_lem a b x y h k, should_join_lem b a y x k h, swap_lem x y)
      (elim (Bool-cases (rule (x -ℤ y) a b)) [
        | inl joins ↦ rw (joins, rule_asymm (x -ℤ y) a b joins)
        | inr stays ↦ rw (stays, rule_total (x -ℤ y) a b e1 e2 ne stays)
      ])

pub do_join-session :
    (env : Env) (sess : LinkId) (offset : ℤ) (st : State)
    → (do_join env sess offset st).session ≡ sess
unfolding do_join now
do_join-session env sess offset st = ap (λ s. s.session) (silence-schedule_broadcast env _)

pub do_join-ghost_offset :
    (env : Env) (sess : LinkId) (offset : ℤ) (st : State)
    → (do_join env sess offset st).ghost_offset ≡ offset
unfolding do_join now
do_join-ghost_offset env sess offset st =
    ap (λ s. s.ghost_offset) (silence-schedule_broadcast env _)

should_join_asymm :
    (a b : LinkId) (x y : ℤ)
    → InI64 (x -ℤ y)
    → InI64 (y -ℤ x)
    → should_join a x b y ≡ true
    → should_join b y a x ≡ false
should_join_asymm a b x y h k j =
    rw (should_join_lem b a y x k h, swap_lem x y)
      (rule_asymm (x -ℤ y) a b (rw (should_join_lem a b x y h k) at j))

-- A peer does not go back: after it has evaluated a session, evaluating the one that it was in,
-- at the offset that it had there, changes nothing, where the difference of the two offsets fits
-- an `i64` either way.
pub evaluate_join_settles :
    (env : Env) (sess : LinkId) (offset : ℤ) (st : State)
    → InI64 (offset -ℤ st.ghost_offset)
    → InI64 (st.ghost_offset -ℤ offset)
    → evaluate_join env st.session st.ghost_offset (evaluate_join env sess offset st)
      ≡ evaluate_join env sess offset st
unfolding evaluate_join
evaluate_join_settles env sess offset st h k = elim (Bool-cases (Id.eqb sess st.session)) [
  | inl own ↦ rw (own, Id.eqb_self st.session)
  | inr foreign ↦ elim (Bool-cases (should_join sess offset st.session st.ghost_offset)) [
    | inr stays ↦ rw (foreign, stays, Id.eqb_self st.session)
    | inl joins ↦
        rw
          (
            foreign,
            joins,
            do_join-session env sess offset st,
            do_join-ghost_offset env sess offset st,
            should_join_asymm sess st.session offset st.ghost_offset h k joins,
          )
          (elim (Bool-cases (Id.eqb st.session sess)) [ inl e ↦ rw e | inr e ↦ rw e ])
  ]
]
