-- ===== src/LinkAudio/Expiry.antt =====
-- The expiry of channels and requesters by `housekeeping` in crates/tactus/src/audio.rs.
use link_wire_rs.Common.{
  ℕ, ◌^◌, ◌<◌, ◌≡◌, refl, ap, ◌∙◌, List, [], ◌∷◌, map, Option, none, some, false, not, Bool-cases,
  inl, inr, if-intro, arith, All,
}
use link_wire_rs.Common.Int.{ℤ, pos, ◌+ℤ◌, ◌≤ℤ◌, ◌<ℤ◌, leb_ℤ, int_laws}
use link_wire_rs.Math.Word.{◌+w◌, add-exact}
use link_wire_rs.Types.Id.{LinkId}
use link_wire_rs.LinkAudio.State.{AudioState, Sink, Source}
use link_wire_rs.LinkAudio.Announce.{announcing, encode_parts}
use link_wire_rs.LinkAudio.Paths.{session_endpoints}
use link_wire_rs.LinkAudio.Round.{announcement_round}
use link_wire_rs.LinkAudio.Timers.{
  announce_period, i64_max, request_period, send_round, prune, announce_step, is_due, refresh,
  expiry_of, known_deadline, prune_sink, later_timers, after_announce, housekeeping, min_audio,
  whole_pass,
}
use link_wire_rs.Engine.State.{State, Env, now, alive_period}
use link_wire_rs.Engine.Wakes.{min_ℤ-le, housekeeping_pass-Wakes}
use link_wire_rs.Engine.Housekeeping.{min_ℤ, housekeeping_pass}
use link_wire_rs.LinkAudio.Pruning.{InReach, later-InI64, IsPruned, prune-IsPruned}

-- Of every sink nothing changes but its requesters, which are pruned.
abbrev pub HavePruned : ℤ → List Sink → List Sink → Type 0
HavePruned at [] [] = Unit
HavePruned at [] (t ∷ ts) = ⊥
HavePruned at (s ∷ ss) [] = ⊥
HavePruned at (s ∷ ss) (t ∷ ts) =
    (t ≡ record s { requesters = t.requesters })
    × IsPruned expiry_of at s.requesters t.requesters
    × HavePruned at ss ts

-- What a pass makes of `a`: nothing is overdue.
pub record IsCurrent (at : ℤ) (a a' : AudioState) : Type 0 where
  pub announced : at <ℤ a'.last_announce_at +ℤ announce_period
  pub requested : All (λ p. at <ℤ p.1.last_request_at +ℤ request_period) a'.sources
  pub known : IsPruned known_deadline at a.known a'.known
  pub sinks : HavePruned at a.sinks a'.sinks

-- Every time that LinkAudio keeps is in reach.
pub record IsTimely (a : AudioState) : Type 0 where
  pub announced : InReach a.last_announce_at
  pub requested : All (λ p. InReach p.1.last_request_at) a.sources
  pub known : All InReach (map known_deadline a.known)
  pub sinks : All (λ s. All InReach (map expiry_of s.requesters)) a.sinks

not_due :
    (at t : ℤ) (n : ℕ) → n < 2 ^ 62 → InReach t → leb_ℤ (t +w pos n) at ≡ false → at <ℤ t +ℤ pos n
not_due at t n l h ahead =
    let exact : t +w pos n ≡ t +ℤ pos n = add-exact t (pos n) (later-InI64 t n l h) in
    let a = rw exact at ahead in ground arith

announced :
    (at : ℤ) (a : AudioState) (st : State)
    → InReach a.last_announce_at
    → (t next : ℤ) × (st1 : State) × (announce_step at a st
        ≡ some (next, record a { last_announce_at = t }, st1))
      × (at <ℤ t +ℤ announce_period)
unfolding announce_step
announced at a st h = elim (Bool-cases (leb_ℤ (a.last_announce_at +w announce_period) at)) [
  | inl due ↦
      let (taken, parts, made, all, quiet) = announcement_round st.node st.session a at in
      (
        at,
        at +w announce_period,
        send_round (session_endpoints st.peers st.session)
            (encode_parts (announcing st.node st.session a) ((taken, some at) ∷ parts)) st,
        rw (due, made) refl,
        omega int_laws,
      )
  | inr ahead ↦ (
    a.last_announce_at,
    a.last_announce_at +w announce_period,
    st,
    rw ahead refl,
    not_due at a.last_announce_at 250000 (omega arith) h ahead,
  )
]

refresh-requested :
    (at : ℤ) (ps : List (LinkId × Source))
    → All (λ p. InReach p.1.last_request_at) ps
    → All (λ p. at <ℤ p.1.last_request_at +ℤ request_period) (map (refresh at) ps)
refresh-requested at [] h = tt
refresh-requested at (p ∷ ps) (hp, h) = (
  if-intro (λ s. at <ℤ s.last_request_at +ℤ request_period) (is_due at p.1)
      (record p.1 { last_request_at = at }) p.1 (λ due. omega int_laws)
      (λ ahead. not_due at p.1.last_request_at 5000000 (omega arith) hp ahead),
  refresh-requested at ps h,
)

sinks-HavePruned :
    (at : ℤ) (ss : List Sink)
    → All (λ s. All InReach (map expiry_of s.requesters)) ss
    → HavePruned at ss (map (prune_sink at) ss)
sinks-HavePruned at [] h = tt
sinks-HavePruned at (s ∷ ss) (hs, h) =
    (refl, prune-IsPruned expiry_of at s.requesters hs, sinks-HavePruned at ss h)

-- A pass of LinkAudio always returns, and leaves nothing overdue: the announcements and the requests of the
-- subscriptions are within their periods; no channel and no requester is left whose deadline is past by the
-- padding of a second, and none is gone before its deadline. This is where the times that are kept are below
-- 2^62 microseconds, up or down.
pub housekeeping-IsCurrent :
    (rank : List ℤ → ℤ) (at : ℤ) (st : State) (a : AudioState)
    → st.audio ≡ some a
    → IsTimely a
    → (next : ℤ) × (st' : State) × (a' : AudioState) × (housekeeping rank at st ≡ some (next, st'))
      × (st'.audio ≡ some a')
      × IsCurrent at a a'
unfolding housekeeping later_timers
housekeeping-IsCurrent rank at st a has h =
    let (t, next, st1, e, l) = announced at a st h.announced in
    (
      (later_timers rank at next (record a { last_announce_at = t }) st1).0,
      (later_timers rank at next (record a { last_announce_at = t }) st1).1,
      record a {
        last_announce_at = t;
        sources = map (refresh at) a.sources;
        sinks = map (prune_sink at) a.sinks;
        known = prune known_deadline at a.known;
      },
      ap
            (λ o. elim o as (λ _. Option (ℤ × State)) [
              | none ↦ some (i64_max, st)
              | some b ↦ after_announce rank at (announce_step at b st)
            ])
            has
          ∙ ap (after_announce rank at) e,
      refl,
      record {
        announced = l;
        requested = refresh-requested at a.sources h.requested;
        known = prune-IsPruned known_deadline at a.known h.known;
        sinks = sinks-HavePruned at a.sinks h.sinks;
      },
    )

announce_step_returns :
    (at : ℤ) (a : AudioState) (st : State)
    → (r : ℤ × AudioState × State) × (announce_step at a st ≡ some r)
unfolding announce_step
announce_step_returns at a st =
    elim (Bool-cases (leb_ℤ (a.last_announce_at +w announce_period) at)) [
      | inl due ↦
          let (taken, parts, made, all, quiet) = announcement_round st.node st.session a at in
          (
            (
              at +w announce_period,
              record a { last_announce_at = at },
              send_round (session_endpoints st.peers st.session)
                  (encode_parts (announcing st.node st.session a) ((taken, some at) ∷ parts)) st,
            ),
            rw (due, made) refl,
          )
      | inr ahead ↦ ((a.last_announce_at +w announce_period, a, st), rw ahead refl)
    ]

housekeeping_returns :
    (rank : List ℤ → ℤ) (at : ℤ) (st : State) → (r : ℤ × State) × (housekeeping rank at st ≡ some r)
unfolding housekeeping
housekeeping_returns rank at st = go st.audio
  where
    go :
        (o : Option AudioState)
        → (r : ℤ × State) × (elim o as (λ _. Option (ℤ × State)) [
          | none ↦ some (i64_max, st)
          | some b ↦ after_announce rank at (announce_step at b st)
        ]
            ≡ some r)
    go none = ((i64_max, st), refl)
    go (some a) =
        let ((next, a', st'), e) = announce_step_returns at a st in
        (later_timers rank at next a' st', ap (after_announce rank at) e)

-- A pass of housekeeping, with that of LinkAudio at its end, returns from every state, and asks to run again no later
-- than a period of the Alives, 250 milliseconds, after its time.
pub whole_pass_returns :
    (rank : List ℤ → ℤ) (env : Env) (st : State)
    → (r : ℤ × State) × (whole_pass rank env st ≡ some r)
      × (r.0 ≤ℤ env.clock st.reads +w alive_period)
unfolding whole_pass now
whole_pass_returns rank env st =
    let soon = housekeeping_pass-Wakes env st in
    if-intro (λ o. (r : ℤ × State) × (o ≡ some r) × (r.0 ≤ℤ env.clock st.reads +w alive_period))
      (not st.enabled) _ _ (λ off. (housekeeping_pass env st, refl, soon))
      (λ on.
        let (r, e) = housekeeping_returns rank (env.clock st.reads) (housekeeping_pass env st).1 in
        let next = (housekeeping_pass env st).0 in
        ((min_ℤ next r.0, r.1), ap (min_audio next) e, min_ℤ-le next r.0 _ soon))
