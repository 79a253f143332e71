-- ===== src/Engine/Membership.antt =====
-- What crates/tactus/src/engine.rs remembers of peers that have gone, and of their session.
use link_wire_rs.Common.{
  ℕ, ◌≡◌, refl, ap, ◌∙◌, List, [], ◌∷◌, Bool, true, false, not, ◌&&◌, Bool-cases, inl, inr, ◌⊎◌,
  All, not-eq-false, ◌==◌,
}
use link_wire_rs.Common.Int.{pos}
use link_wire_rs.Common.Maps.{retain, any, retain-All, nat_eq}
use link_wire_rs.Types.Id
use link_wire_rs.Types.Id.{LinkId}
use link_wire_rs.Math.Word.{◌-w◌}
use link_wire_rs.Engine.State.{State, Env, PeerEntry, MeasureTask, now, random_id, id_eq, key_eq}
use link_wire_rs.Engine.Election.{check_session_loss, reset_session, is_member}
use link_wire_rs.Engine.Gossip.{close_gateway, forget_nodes, say_bye}
use link_wire_rs.Engine.Silence.{silence-schedule_broadcast}

-- The peers and the tasks.
abbrev Queues : Type 0
Queues = List ((LinkId × ℕ) × PeerEntry) × List MeasureTask

abbrev queues : State → Queues
queues st = (st.peers, st.pending)

queues-reset_session : (env : Env) (st : State) → queues (reset_session env st) ≡ queues st
unfolding reset_session now random_id
queues-reset_session env st = ap queues (silence-schedule_broadcast env _)

queues-check_session_loss :
    (env : Env) (st : State) → queues (check_session_loss env st) ≡ queues st
unfolding check_session_loss
queues-check_session_loss env st =
    elim (Bool-cases (st.session_member_seen && not (any (is_member st.session) st.peers))) [
      | inl lost ↦ rw lost (queues-reset_session env st)
      | inr kept ↦ rw kept
    ]

queues-forget_nodes : (ns : List LinkId) (st : State) → queues (forget_nodes ns st) ≡ queues st
unfolding forget_nodes
queues-forget_nodes [] st = refl
queues-forget_nodes (n ∷ ns) st = elim (Bool-cases (any (λ p. Id.eqb p.0.0 n) st.peers)) [
  | inl left ↦ rw (forget_nodes, left) (queues-forget_nodes ns st)
  | inr gone ↦ rw (forget_nodes, gone) (queues-forget_nodes ns _)
]

queues-close_gateway :
    (env : Env) (id : ℕ) (st : State)
    → queues (close_gateway env id st) ≡ (
      retain (λ p. not (p.0.1 == id)) (say_bye id st).peers,
      retain (λ t. not (t.gateway == id)) (say_bye id st).pending,
    )
unfolding close_gateway
queues-close_gateway env id st = queues-check_session_loss env _ ∙ queues-forget_nodes _ _

-- A closed gateway leaves no peer entry that was learned through it and no measurement that waits
-- for it.
pub close_gateway_forgets :
    (env : Env) (id : ℕ) (st : State)
    → All (λ p. not (p.0.1 == id) ≡ true) (close_gateway env id st).peers
      × All (λ t. not (t.gateway == id) ≡ true) (close_gateway env id st).pending
close_gateway_forgets env id st =
    let same = queues-close_gateway env id st in
    rw (ap (λ (q : Queues). q.0) same, ap (λ (q : Queues). q.1) same)
      (
        retain-All (λ p. not (p.0.1 == id)) (say_bye id st).peers,
        retain-All (λ t. not (t.gateway == id)) (say_bye id st).pending,
      )

-- The fields that a reset sets.
reset_session_lem :
    (env : Env) (st : State)
    → ((reset_session env st).node ≡ env.ids st.draws)
      × ((reset_session env st).session ≡ env.ids st.draws)
      × ((reset_session env st).session_member_seen ≡ false)
      × ((reset_session env st).ghost_offset ≡ pos 0 -w env.clock st.reads)
unfolding reset_session now random_id
reset_session_lem env st =
    let quiet = silence-schedule_broadcast env _ in
    (
      ap (λ s. s.node) quiet,
      ap (λ s. s.session) quiet,
      ap (λ s. s.session_member_seen) quiet,
      ap (λ s. s.ghost_offset) quiet,
    )

abbrev loses : State → Bool
loses st = st.session_member_seen && not (any (is_member st.session) st.peers)

check_lost :
    (env : Env) (st : State) → loses st ≡ true → check_session_loss env st ≡ reset_session env st
unfolding check_session_loss
check_lost env st lost = rw lost

check_kept : (env : Env) (st : State) → loses st ≡ false → check_session_loss env st ≡ st
unfolding check_session_loss
check_kept env st kept = rw kept

and_not-false : (a b : Bool) → (a && not b) ≡ false → (a ≡ false) ⊎ (b ≡ true)
and_not-false true b h = inr (not-eq-false b h)
and_not-false false b h = inl refl

-- After the check the peer either is in a session of which it has seen no member yet, or knows one.
check_session_loss_lem :
    (env : Env) (st : State)
    → ((check_session_loss env st).session_member_seen ≡ false)
      ⊎ (any (is_member (check_session_loss env st).session) (check_session_loss env st).peers
          ≡ true)
check_session_loss_lem env st = elim (Bool-cases (loses st)) [
  | inl lost ↦ rw (check_lost env st lost) (inl (reset_session_lem env st).2)
  | inr kept ↦
      rw (check_kept env st kept)
        (and_not-false st.session_member_seen (any (is_member st.session) st.peers) kept)
]
