-- ===== src/LinkAudio/Timers.antt =====
-- `housekeeping` of crates/tactus/src/audio.rs, and the end of the engine's pass that calls it.
use link_wire_rs.Common.{
  ℕ, ◌-◌, List, [], ◌∷◌, map, Option, none, some, Bool, false, not, if◌then◌else◌,
}
use link_wire_rs.Common.Int.{ℤ, pos, leb_ℤ, ltb_ℤ}
use link_wire_rs.Common.Maps.{retain}
use link_wire_rs.Common.Bytes.{half_64}
use link_wire_rs.Types.Id.{LinkId}
use link_wire_rs.Types.Endpoint.{SocketAddr}
use link_wire_rs.Math.Word.{◌+w◌}
use link_wire_rs.LinkAudio.State.{AudioState, KnownChannel, Sink, Source}
use link_wire_rs.LinkAudio.Announce.{build_announcement_round}
use link_wire_rs.LinkAudio.Paths.{session_endpoints, send_each}
use link_wire_rs.LinkAudio.Requests.{send_request}
use link_wire_rs.Engine.State.{State, Env, now, prune_padding}
use link_wire_rs.Engine.Housekeeping.{min_ℤ, housekeeping_pass}

abbrev pub announce_period : ℤ
announce_period = pos 250000

abbrev pub request_period : ℤ
request_period = pos 5000000

abbrev pub i64_max : ℤ
i64_max = pos (half_64 - 1)

-- The earliest of some deadlines.
unfoldable pub earliest_of : List ℤ → Option ℤ
earliest_of [] = none
earliest_of (d ∷ ds) = elim (earliest_of ds) [ none ↦ some d | some e ↦ some (min_ℤ d e) ]

-- What has expired goes, once the earliest is past its deadline by the padding.
abbrev pub prune : {A : Type 0} → (A → ℤ) → ℤ → List A → List A
prune deadline at xs = elim (earliest_of (map deadline xs)) [
  | none ↦ xs
  | some e ↦ if leb_ℤ (e +w prune_padding) at then retain (λ x. ltb_ℤ at (deadline x)) xs else xs
]

abbrev pub next_prune : {A : Type 0} → (A → ℤ) → List A → ℤ → ℤ
next_prune deadline xs next = elim (earliest_of (map deadline xs)) [
  | none ↦ next
  | some e ↦ min_ℤ next (e +w prune_padding)
]

-- The loop over endpoints, each of which gets the round.
unfoldable pub send_round : List (ℕ × SocketAddr) → List (List ℕ) → State → State
send_round [] round st = st
send_round (p ∷ ps) round st = send_round ps round (send_each p round st)

-- Where a round is due: the time of the next, the audio state and the state.
abbrev pub announce_due :
    ℤ → AudioState → State → Option (List (List ℕ)) → Option (ℤ × AudioState × State)
announce_due at a st none = none
announce_due at a st (some round) = some (
  at +w announce_period,
  record a { last_announce_at = at },
  send_round (session_endpoints st.peers st.session) round st,
)

unfoldable pub announce_step : ℤ → AudioState → State → Option (ℤ × AudioState × State)
announce_step at a st =
    if leb_ℤ (a.last_announce_at +w announce_period) at
    then announce_due at a st (build_announcement_round st.node st.session a at)
    else some (a.last_announce_at +w announce_period, a, st)

abbrev pub is_due : ℤ → Source → Bool
is_due at s = leb_ℤ (s.last_request_at +w request_period) at

abbrev pub refresh : ℤ → LinkId × Source → LinkId × Source
refresh at p = (p.0, if is_due at p.1 then record p.1 { last_request_at = at } else p.1)

abbrev pub due_ids : ℤ → List (LinkId × Source) → List LinkId
due_ids at [] = []
due_ids at (p ∷ ps) = let rest = due_ids at ps in if is_due at p.1 then p.0 ∷ rest else rest

abbrev pub next_request : List (LinkId × Source) → ℤ → ℤ
next_request [] next = next
next_request (p ∷ ps) next = next_request ps (min_ℤ next (p.1.last_request_at +w request_period))

-- The loop over the sources that are due.
unfoldable pub request_all : (List ℤ → ℤ) → AudioState → List LinkId → State → State
request_all rank a [] st = st
request_all rank a (i ∷ ids) st = request_all rank a ids (send_request rank a i false st)

abbrev pub expiry_of : LinkId × ℤ → ℤ
expiry_of r = r.1

abbrev pub known_deadline : (LinkId × ℕ) × KnownChannel → ℤ
known_deadline k = k.1.deadline

abbrev pub prune_sink : ℤ → Sink → Sink
prune_sink at s = record s { requesters = prune expiry_of at s.requesters }

abbrev pub next_sinks : List Sink → ℤ → ℤ
next_sinks [] next = next
next_sinks (s ∷ sinks) next = next_sinks sinks (next_prune expiry_of s.requesters next)

-- The timers after the announcements: requests, requesters and known channels.
unfoldable pub later_timers : (List ℤ → ℤ) → ℤ → ℤ → AudioState → State → ℤ × State
later_timers rank at next a st =
    let sources = map (refresh at) a.sources in
    let a1 : AudioState = record a { sources = sources } in
    let st1 = request_all rank a1 (due_ids at a.sources) st in
    let sinks = map (prune_sink at) a.sinks in
    let known = prune known_deadline at a.known in
    (
      next_prune known_deadline known (next_sinks sinks (next_request sources next)),
      record st1 { audio = some (record a1 { sinks = sinks; known = known }) },
    )

abbrev pub after_announce : (List ℤ → ℤ) → ℤ → Option (ℤ × AudioState × State) → Option (ℤ × State)
after_announce rank at none = none
after_announce rank at (some (next, a, st)) = some (later_timers rank at next a st)

-- `none` where a round would not end.
unfoldable pub housekeeping : (List ℤ → ℤ) → ℤ → State → Option (ℤ × State)
housekeeping rank at st = elim st.audio [
  | none ↦ some (i64_max, st)
  | some a ↦ after_announce rank at (announce_step at a st)
]

abbrev pub min_audio : ℤ → Option (ℤ × State) → Option (ℤ × State)
min_audio next none = none
min_audio next (some (audio_next, st)) = some (min_ℤ next audio_next, st)

-- The engine's pass with its last line, which a peer that is not enabled does not reach.
unfoldable pub whole_pass : (List ℤ → ℤ) → Env → State → Option (ℤ × State)
whole_pass rank env st =
    let (at, st0) = now env st in
    let (next, st1) = housekeeping_pass env st in
    if not st.enabled then some (next, st1) else min_audio next (housekeeping rank at st1)
