-- ===== src/LinkAudio/Offers.antt =====
-- The paths that the entries of peers offer to a node, of which crates/tactus/src/audio.rs takes the best.
use link_wire_rs.Common.{
  ℕ, ◌≡◌, refl, sym, ap, List, [], ◌∷◌, ◌++◌, none, some, Bool, true, false, if-intro,
  if◌then◌else◌, Option, All-map, arith, All, All-append, ltb→lt,
}
use link_wire_rs.Common.Int.{ℤ, ◌≤ℤ◌, ◌<ℤ◌, ltb_ℤ}
use mathlib.Core.Path.{subst}
use link_wire_rs.Common.Maps.{retain}
use link_wire_rs.Types.Id
use link_wire_rs.Types.Id.{LinkId}
use link_wire_rs.Types.Endpoint.{SocketAddr}
use link_wire_rs.LinkAudio.Paths.{max_by, paths_to, filter_map, audio_path, with_endpoint}
use link_wire_rs.Engine.State.{PeerEntry, key_eq}

abbrev pub via : ℕ → Option SocketAddr → Option (ℕ × SocketAddr)
via gw none = none
via gw (some ep) = some (gw, ep)

-- Of a peer's entry the path that it offers to the node: its gateway, and its audio endpoint, if it has one.
abbrev pub offer : LinkId → (LinkId × ℕ) × PeerEntry → Option (ℕ × SocketAddr)
offer node e = if Id.eqb e.0.0 node then via e.0.1 e.1.state.audio_endpoint else none

-- A path that is offered is no better, or worse.
abbrev pub AtMost : (ℕ × SocketAddr → ℤ) → ℤ → Option (ℕ × SocketAddr) → Type 0
AtMost f k none = Unit
AtMost f k (some q) = f q ≤ℤ k

abbrev pub Below : (ℕ × SocketAddr → ℤ) → ℤ → Option (ℕ × SocketAddr) → Type 0
Below f k none = Unit
Below f k (some q) = f q <ℤ k

-- No entry offers a path; or `p` is offered by one, none before it offers a better one, and those that are offered
-- after it are worse.
abbrev pub IsBest :
    (ℕ × SocketAddr → ℤ)
    → LinkId
    → List ((LinkId × ℕ) × PeerEntry)
    → Option (ℕ × SocketAddr)
    → Type 0
IsBest f node peers none = All (λ e. offer node e ≡ none) peers
IsBest f node peers (some p) =
    (before : List ((LinkId × ℕ) × PeerEntry)) × (e : (LinkId × ℕ) × PeerEntry) × (after : List
      ((LinkId × ℕ) × PeerEntry))
    × (peers ≡ before ++ (e ∷ after))
    × (offer node e ≡ some p)
    × All (λ d. AtMost f (f p) (offer node d)) before
    × All (λ d. Below f (f p) (offer node d)) after

module _ (f : ℕ × SocketAddr → ℤ) (node : LinkId) where
  Below-none : (k : ℤ) (o : Option (ℕ × SocketAddr)) → o ≡ none → Below f k o
  Below-none k o e = rw e tt

  Below-AtMost : (j k : ℤ) (o : Option (ℕ × SocketAddr)) → j <ℤ k → AtMost f j o → Below f k o
  Below-AtMost j k none l h = tt
  Below-AtMost j k (some q) l h = omega arith

  Below-Below : (j k : ℤ) (o : Option (ℕ × SocketAddr)) → j <ℤ k → Below f j o → Below f k o
  Below-Below j k none l h = tt
  Below-Below j k (some q) l h = omega arith

  -- One more entry, which offers nothing.
  skip-IsBest :
      (e : (LinkId × ℕ) × PeerEntry) (peers : List ((LinkId × ℕ) × PeerEntry))
      (o : Option (ℕ × SocketAddr))
      → offer node e ≡ none
      → IsBest f node peers o
      → IsBest f node (e ∷ peers) o
  skip-IsBest e peers none idle h = (idle, h)
  skip-IsBest e peers (some p) idle (before, d, after, split, it, le, lt) =
      (e ∷ before, d, after, ap (◌∷◌ e) split, it, (rw idle tt, le), lt)

  -- What `max_by` makes of the result for the others, where it offers `q`.
  abbrev better : ℕ × SocketAddr → Option (ℕ × SocketAddr) → Option (ℕ × SocketAddr)
  better q none = some q
  better q (some y) = if ltb_ℤ (f y) (f q) then some q else some y

  better-IsBest :
      (e : (LinkId × ℕ) × PeerEntry) (peers : List ((LinkId × ℕ) × PeerEntry)) (q : ℕ × SocketAddr)
      (o : Option (ℕ × SocketAddr))
      → offer node e ≡ some q
      → IsBest f node peers o
      → IsBest f node (e ∷ peers) (better q o)
  better-IsBest e peers q none it h =
      ([], e, peers, refl, it, tt, All-map (λ d. Below-none (f q) (offer node d)) peers h)
  better-IsBest e peers q (some y) it (before, d, after, split, known, le, lt) =
      if-intro (IsBest f node (e ∷ peers)) (ltb_ℤ (f y) (f q)) _ _
        (λ less.
          let l : f y <ℤ f q = ltb→lt _ _ less in
          let rest : All (λ d. Below f (f q) (offer node d)) (before ++ (d ∷ after)) =
            All-append (λ d. Below f (f q) (offer node d)) before (d ∷ after)
              (All-map (λ d. Below-AtMost (f y) (f q) (offer node d) l) before le)
              (rw known l, All-map (λ d. Below-Below (f y) (f q) (offer node d) l) after lt) in
          ([], e, peers, refl, it, tt, rw split rest))
        (λ more. (e ∷ before, d, after, ap (◌∷◌ e) split, known, (rw it (ground arith), le), lt))

  max_by-better :
      (q : ℕ × SocketAddr) (qs : List (ℕ × SocketAddr)) → max_by f (q ∷ qs) ≡ better q (max_by f qs)
  unfolding max_by
  max_by-better q qs = by_cases (max_by f qs)
    where
      by_cases :
          (o : Option (ℕ × SocketAddr))
          → elim o as (λ _. Option (ℕ × SocketAddr)) [
            | none ↦ some q
            | some y ↦ if ltb_ℤ (f y) (f q) then some q else some y
          ]
            ≡ better q o
      by_cases none = refl
      by_cases (some y) = refl

  abbrev offered : Option (ℕ × SocketAddr) → List (ℕ × SocketAddr) → List (ℕ × SocketAddr)
  offered none qs = qs
  offered (some q) qs = q ∷ qs

  -- The paths are those that the entries offer.
  paths_to-offer :
      (e : (LinkId × ℕ) × PeerEntry) (peers : List ((LinkId × ℕ) × PeerEntry))
      → paths_to (e ∷ peers) node ≡ offered (offer node e) (paths_to peers node)
  paths_to-offer e peers = kept (Id.eqb e.0.0 node) (retain (λ p. Id.eqb p.0.0 node) peers)
    where
      path :
          (qs : List (ℕ × SocketAddr)) (o : Option SocketAddr)
          → elim (with_endpoint e.0.1 o) as (λ _. List (ℕ × SocketAddr)) [
            | none ↦ qs
            | some q ↦ q ∷ qs
          ]
            ≡ offered (via e.0.1 o) qs
      path qs none = refl
      path qs (some ep) = refl

      kept :
          (b : Bool) (rest : List ((LinkId × ℕ) × PeerEntry))
          → filter_map audio_path (if b then e ∷ rest else rest)
            ≡ offered
                (if b then via e.0.1 e.1.state.audio_endpoint else none)
                (filter_map audio_path rest)
      kept true rest = path (filter_map audio_path rest) e.1.state.audio_endpoint
      kept false rest = refl

  pub paths_to-IsBest :
      (peers : List ((LinkId × ℕ) × PeerEntry))
      → IsBest f node peers (max_by f (paths_to peers node))
  unfolding max_by
  paths_to-IsBest [] = tt
  paths_to-IsBest (e ∷ peers) =
      subst (λ qs. IsBest f node (e ∷ peers) (max_by f qs)) (sym (paths_to-offer e peers))
        (with_offer (paths_to-IsBest peers) (offer node e) refl)
    where
      with_offer :
          IsBest f node peers (max_by f (paths_to peers node))
          → (o : Option (ℕ × SocketAddr)) → offer node e ≡ o
          → IsBest f node (e ∷ peers) (max_by f (offered o (paths_to peers node)))
      with_offer h none idle = skip-IsBest e peers _ idle h
      with_offer h (some q) it =
          subst (IsBest f node (e ∷ peers)) (sym (max_by-better q (paths_to peers node)))
            (better-IsBest e peers q _ it h)
