-- ===== src/LinkAudio/Windows.antt =====
-- Which channels and which round-trip times `handle_datagram` of crates/tactus/src/audio.rs keeps.
use link_wire_rs.Common.{
  ℕ, ◌≤◌, ◌≡◌, refl, List, [], ◌∷◌, none, some, Bool, false, length, drop, length-append,
  length-drop, All, ◌==◌, Bool-cases, inl, inr, arith,
}
use link_wire_rs.Common.Int.{ℤ}
use link_wire_rs.Common.Maps.{Eq, get, insert, retain}
use link_wire_rs.Types.Id
use link_wire_rs.Types.Id.{LinkId}
use link_wire_rs.Types.Endpoint.{SocketAddr}
use link_wire_rs.AudioWire.Message.{
  Message, peer_announcement, channel_byes, pong, channel_request, stop_channel_request,
  audio_buffer,
}
use link_wire_rs.LinkAudio.State.{AudioState, PathStats}
use link_wire_rs.LinkAudio.Inbound.{
  rtt_window, record_rtt, endpoint_known, receive, path_or_default,
}
use link_wire_rs.Engine.State.{State, key_eq}

module _ {K V : Type 0} ⦃e : Eq K⦄ (P : V → Type 0) where
  All-insert :
      (k : K) (v : V) (m : List (K × V))
      → P v
      → All (λ p. P p.1) m
      → All (λ p. P p.1) (insert k v m)
  All-insert k v [] h hs = (h, tt)
  All-insert k v (p ∷ ps) h (hp, hs) = elim (Bool-cases (e.same p.0 k)) [
    | inl here ↦ rw here (h, hs)
    | inr other ↦ rw other (hp, All-insert k v ps h hs)
  ]

module _ {K V : Type 0} ⦃e : Eq K⦄ where
  -- What is not in the map is not in a part of it.
  get-retain :
      (q : K × V → Bool) (k : K) (m : List (K × V)) → get k m ≡ none → get k (retain q m) ≡ none
  get-retain q k [] h = refl
  get-retain q k (p ∷ ps) h = elim (Bool-cases (e.same p.0 k)) [
    | inl here ↦ (let bad : some p.1 ≡ none = rw here at h in cc)
    | inr other ↦ elim (Bool-cases (q p)) [
      | inl keep ↦ rw (keep, other) (get-retain q k ps (rw other at h))
      | inr skip ↦ rw skip (get-retain q k ps (rw other at h))
    ]
  ]

-- The window of a path.
abbrev pub HasWindow : PathStats → Type 0
HasWindow p = length p.rtts ≤ rtt_window

record_rtt-HasWindow : (rtt : ℤ) (p : PathStats) → HasWindow p → HasWindow (record_rtt rtt p)
unfolding record_rtt
record_rtt-HasWindow rtt p h = elim (Bool-cases (length p.rtts == rtt_window)) [
  | inl full ↦
      rw full (omega (arith, length-append (drop 1 p.rtts) (rtt ∷ []), length-drop 1 p.rtts))
  | inr room ↦ rw room (ground (arith, length-append p.rtts (rtt ∷ [])))
]

path-HasWindow :
    (k : LinkId × ℕ) (m : List ((LinkId × ℕ) × PathStats))
    → All (λ p. HasWindow p.1) m
    → HasWindow (path_or_default (get k m))
path-HasWindow k [] h = omega arith
path-HasWindow k (p ∷ ps) (hp, h) = elim (Bool-cases (key_eq.same p.0 k)) [
  | inl here ↦ rw here hp
  | inr other ↦ rw other (path-HasWindow k ps h)
]

-- Where at most ten round-trip times are kept of every path, so it is after any message.
pub receive-HasWindow :
    (st : State) (gw : ℕ) (src : SocketAddr) (at : ℤ) (node : LinkId) (ttl : ℕ) (m : Message)
    (a : AudioState)
    → All (λ p. HasWindow p.1) a.paths
    → All (λ p. HasWindow p.1) (receive st gw src at node ttl m a).paths
unfolding receive
receive-HasWindow st gw src at node ttl (peer_announcement session peer_name channels ping) a h =
    elim (Bool-cases (endpoint_known node gw src st)) [
      | inl known ↦ rw known h
      | inr unknown ↦ rw unknown h
    ]
receive-HasWindow st gw src at node ttl (pong host_time) a h =
    All-insert HasWindow (node, gw) _ a.paths
      (record_rtt-HasWindow _ _ (path-HasWindow (node, gw) a.paths h)) h
receive-HasWindow st gw src at node ttl (channel_request channel) a h = h
receive-HasWindow st gw src at node ttl (stop_channel_request channel) a h = h
receive-HasWindow st gw src at node ttl (channel_byes channels) a h = h
receive-HasWindow st gw src at node ttl (audio_buffer buf) a h =
    elim (Bool-cases (Id.eqb buf.session st.session)) [
      | inl same ↦ rw same h
      | inr other ↦ rw other h
    ]

-- From an endpoint that discovery has not named for its sender, no message makes a channel known
-- that was not.
pub receive_unadvertised :
    (st : State) (gw : ℕ) (src : SocketAddr) (at : ℤ) (node : LinkId) (ttl : ℕ) (m : Message)
    (a : AudioState) (k : LinkId × ℕ)
    → endpoint_known node gw src st ≡ false
    → get k a.known ≡ none
    → get k (receive st gw src at node ttl m a).known ≡ none
unfolding receive
receive_unadvertised st gw src at node ttl (peer_announcement session peer_name channels ping) a k
      unknown absent =
    rw unknown absent
receive_unadvertised st gw src at node ttl (pong host_time) a k unknown absent = absent
receive_unadvertised st gw src at node ttl (channel_request channel) a k unknown absent = absent
receive_unadvertised st gw src at node ttl (stop_channel_request channel) a k unknown absent =
    absent
receive_unadvertised st gw src at node ttl (channel_byes channels) a k unknown absent =
    get-retain _ k a.known absent
receive_unadvertised st gw src at node ttl (audio_buffer buf) a k unknown absent =
    elim (Bool-cases (Id.eqb buf.session st.session)) [
      | inl same ↦ rw same absent
      | inr other ↦ rw other absent
    ]
