-- ===== src/Link/Visible.antt =====
-- What `visible_channels` of crates/tactus/src/lib.rs lists.
use link_wire_rs.Common.{
  ℕ, ap, ◌∙◌, ◌≡◌, refl, List, [], ◌∷◌, none, some, Bool, ◌||◌, if-intro, map, arith,
}
use link_wire_rs.Common.Maps.{any}
use link_wire_rs.Types.Id
use link_wire_rs.Types.Id.{LinkId}
use link_wire_rs.LinkAudio.State.{AudioState, KnownChannel}
use link_wire_rs.Engine.State.{State}
use link_wire_rs.Link.Audio.{
  VisibleChannel, channel_ltb, insert_channel, sort_channels, dedup_from, dedup, visible_of,
  visible_channels,
}

-- A channel of that id is listed.
abbrev lists : LinkId → List VisibleChannel → Bool
lists i cs = any (λ c. Id.eqb c.id i) cs

lists-insert_channel :
    (i : LinkId) (c : VisibleChannel) (cs : List VisibleChannel)
    → lists i (insert_channel c cs) ≡ (Id.eqb c.id i || lists i cs)
lists-insert_channel i c [] = refl
lists-insert_channel i c (d ∷ ds) =
    if-intro (λ l. lists i l ≡ (Id.eqb c.id i || (Id.eqb d.id i || lists i ds))) (channel_ltb d c)
      (d ∷ insert_channel c ds) (c ∷ d ∷ ds)
      (λ before. rw (lists-insert_channel i c ds) (ground arith)) (λ after. refl)

lists-sort_channels :
    (i : LinkId) (cs : List VisibleChannel) → lists i (sort_channels cs) ≡ lists i cs
unfolding sort_channels
lists-sort_channels i [] = refl
lists-sort_channels i (c ∷ cs) =
    rw (lists-insert_channel i c (sort_channels cs), lists-sort_channels i cs) refl

lists-dedup_from :
    (i : LinkId) (c : VisibleChannel) (cs : List VisibleChannel)
    → lists i (dedup_from c cs) ≡ (Id.eqb c.id i || lists i cs)
unfolding dedup_from
lists-dedup_from i c [] = refl
lists-dedup_from i c (d ∷ ds) =
    if-intro (λ l. lists i l ≡ (Id.eqb c.id i || (Id.eqb d.id i || lists i ds))) (Id.eqb d.id c.id)
      (dedup_from c ds) (c ∷ dedup_from d ds)
      (λ same.
        let alike : Id.eqb d.id i ≡ Id.eqb c.id i =
          ap (λ x. Id.eqb x i) ((Id.eqb_iff d.id c.id).0 same) in
        rw (lists-dedup_from i c ds, alike) (ground arith))
      (λ other. rw (lists-dedup_from i d ds) refl)

lists-dedup : (i : LinkId) (cs : List VisibleChannel) → lists i (dedup cs) ≡ lists i cs
lists-dedup i [] = refl
lists-dedup i (c ∷ cs) = lists-dedup_from i c cs

known_ids :
    (i : LinkId) (ks : List ((LinkId × ℕ) × KnownChannel))
    → lists i (map visible_of ks) ≡ any (λ k. Id.eqb k.0.0 i) ks
known_ids i [] = refl
known_ids i (k ∷ ks) = rw (known_ids i ks) refl

-- The channels that are listed are those that are known, through whichever gateways: of every id one is listed if
-- and only if one is known.
visible_channels-known :
    (st : State) (a : AudioState) (i : LinkId)
    → st.audio ≡ some a
    → any (λ c. Id.eqb c.id i) (visible_channels st) ≡ any (λ k. Id.eqb k.0.0 i) a.known
unfolding visible_channels
visible_channels-known st a i h =
    ap
      (λ o. lists i (elim o as (λ _. List VisibleChannel) [
        | none ↦ []
        | some b ↦ dedup (sort_channels (map visible_of b.known))
      ]))
      h
    ∙ lists-dedup i (sort_channels (map visible_of a.known))
    ∙ lists-sort_channels i (map visible_of a.known)
    ∙ known_ids i a.known
