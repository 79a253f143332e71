-- ===== src/LinkAudio/Paths.antt =====
-- Where the datagrams of LinkAudio go, in crates/tactus/src/audio.rs: the endpoints of the session's peers and
-- the best path to one of them. `rank` stands for the floating-point formula of `PathStats::quality` on the
-- round-trip times of a path that has any, as the place of its value in the order of `total_cmp`, where 0.0
-- has place 0.
use link_wire_rs.Common.{ℕ, List, [], ◌∷◌, Option, none, some, if◌then◌else◌}
use link_wire_rs.Common.Int.{ℤ, pos, ltb_ℤ}
use link_wire_rs.Common.Maps.{get, retain}
use link_wire_rs.Types.Id
use link_wire_rs.Types.Id.{LinkId}
use link_wire_rs.Types.Endpoint.{SocketAddr}
use link_wire_rs.LinkAudio.State.{PathStats}
use link_wire_rs.LinkAudio.Inbound.{send_via}
use link_wire_rs.Engine.State.{State, PeerEntry, key_eq}
use link_wire_rs.Engine.Election.{is_member}

abbrev pub filter_map {ℓ κ} : {A : Type ℓ} {B : Type κ} → (A → Option B) → List A → List B
filter_map f [] = []
filter_map f (x ∷ xs) = elim (f x) [ none ↦ filter_map f xs | some y ↦ y ∷ filter_map f xs ]

abbrev pub with_endpoint : ℕ → Option SocketAddr → Option (ℕ × SocketAddr)
with_endpoint gw none = none
with_endpoint gw (some ep) = some (gw, ep)

abbrev pub audio_path : (LinkId × ℕ) × PeerEntry → Option (ℕ × SocketAddr)
audio_path p = with_endpoint p.0.1 p.1.state.audio_endpoint

unfoldable pub session_endpoints : List ((LinkId × ℕ) × PeerEntry) → LinkId → List (ℕ × SocketAddr)
session_endpoints peers session = filter_map audio_path (retain (is_member session) peers)

abbrev pub rank_of : (List ℤ → ℤ) → List ℤ → ℤ
rank_of rank [] = pos 0
rank_of rank (r ∷ rs) = rank (r ∷ rs)

-- `paths.get(..).map_or(0.0, PathStats::quality)`
unfoldable pub quality : (List ℤ → ℤ) → Option PathStats → ℤ
quality rank none = pos 0
quality rank (some p) = rank_of rank p.rtts

-- `max_by`, which gives the last of several that are greatest.
unfoldable pub max_by {ℓ} : {A : Type ℓ} → (A → ℤ) → List A → Option A
max_by f [] = none
max_by f (x ∷ xs) = elim (max_by f xs) [
  | none ↦ some x
  | some y ↦ if ltb_ℤ (f y) (f x) then some x else some y
]

abbrev pub paths_to : List ((LinkId × ℕ) × PeerEntry) → LinkId → List (ℕ × SocketAddr)
paths_to peers node = filter_map audio_path (retain (λ p. Id.eqb p.0.0 node) peers)

unfoldable pub best_path :
    (List ℤ → ℤ)
    → List ((LinkId × ℕ) × PeerEntry)
    → List ((LinkId × ℕ) × PathStats)
    → LinkId
    → Option (ℕ × SocketAddr)
best_path rank peers paths node =
    max_by (λ p. quality rank (get (node, p.0) paths)) (paths_to peers node)

-- The loop over endpoints, each of which gets the message.
unfoldable pub send_to : List (ℕ × SocketAddr) → List ℕ → State → State
send_to [] bytes st = st
send_to (p ∷ ps) bytes st = send_to ps bytes (send_via p.0 bytes p.1 st)

-- The loop over messages, each of which goes to the endpoint.
unfoldable pub send_each : ℕ × SocketAddr → List (List ℕ) → State → State
send_each p [] st = st
send_each p (bytes ∷ rest) st = send_each p rest (send_via p.0 bytes p.1 st)
