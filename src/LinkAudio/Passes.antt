-- ===== src/LinkAudio/Passes.antt =====
-- Writing to a sink and the pass of LinkAudio in crates/tactus/src/audio.rs leave the measurements and the gateways alone.
use link_wire_rs.Common.{ℕ, List, [], ◌∷◌, Option, none, some, Bool, not, if-intro}
use link_wire_rs.Common.Int.{ℤ, leb_ℤ}
use link_wire_rs.Common.Maps.{nat_eq}
use link_wire_rs.Types.Id.{LinkId}
use link_wire_rs.Types.Endpoint.{SocketAddr}
use link_wire_rs.AudioWire.Message.{AudioBuffer}
use link_wire_rs.LinkAudio.State.{AudioState, PathStats, Sink}
use link_wire_rs.LinkAudio.Paths.{best_path}
use link_wire_rs.LinkAudio.Write.{send_copies, finish_write, write_sink, find_sink}
use link_wire_rs.LinkAudio.Timers.{
  send_round, announce_due, announce_step, request_all, later_timers, after_announce, housekeeping,
  announce_period, i64_max, min_audio, whole_pass,
}
use link_wire_rs.Math.Word.{◌+w◌}
use link_wire_rs.LinkAudio.Announce.{build_announcement_round}
use link_wire_rs.Engine.Housekeeping.{housekeeping_pass}
use link_wire_rs.Engine.Runs.{housekeeping-Holds}
use link_wire_rs.Engine.State.{State, Env, now, id_eq}
use link_wire_rs.Engine.Budget.{Doors, Holds, option-Holds}
use link_wire_rs.LinkAudio.Sound.{send_each-Holds, request-Holds}

-- What holds of a result, where there is one.
pub data Returns (D : Doors → Type 0) : Option State → Type 0 where
  nothing : Returns D none
  just : {t : State} → Holds D t → Returns D (some t)

pub data ReturnsNext (D : Doors → Type 0) : Option (ℤ × State) → Type 0 where
  nothing_next : ReturnsNext D none
  just_next : {next : ℤ} {t : State} → Holds D t → ReturnsNext D (some (next, t))

data ReturnsAudio (D : Doors → Type 0) : Option (ℤ × AudioState × State) → Type 0 where
  nothing_audio : ReturnsAudio D none
  just_audio :
      {next : ℤ} {a : AudioState} {t : State} → Holds D t → ReturnsAudio D (some (next, a, t))

option-Returns :
    {D : Doors → Type 0} {A : Type 0} (o : Option A) (r : Option State) (f : A → Option State)
    → Returns D r
    → ((a : A) → Returns D (f a))
    → Returns D (elim o [ none ↦ r | some a ↦ f a ])
option-Returns none r f h k = h
option-Returns (some a) r f h k = k a

module _ {D : Doors → Type 0} where
  copies-Holds :
      (rank : List ℤ → ℤ) (paths : List ((LinkId × ℕ) × PathStats)) (rs : List (LinkId × ℤ))
      (ds : List (List ℕ)) (st : State)
      → Holds D st
      → Holds D (send_copies rank paths rs ds st)
  unfolding send_copies
  copies-Holds rank paths [] ds st h = h
  copies-Holds rank paths (r ∷ rs) ds st h =
      option-Holds (best_path rank st.peers paths r.0) _ _ (copies-Holds rank paths rs ds st h)
        (λ p. copies-Holds rank paths rs ds _ (send_each-Holds p ds st h))

  round-Holds :
      (ps : List (ℕ × SocketAddr)) (round : List (List ℕ)) (st : State)
      → Holds D st
      → Holds D (send_round ps round st)
  unfolding send_round
  round-Holds [] round st h = h
  round-Holds (p ∷ ps) round st h = round-Holds ps round _ (send_each-Holds p round st h)

  requests-Holds :
      (rank : List ℤ → ℤ) (a : AudioState) (ids : List LinkId) (st : State)
      → Holds D st
      → Holds D (request_all rank a ids st)
  unfolding request_all
  requests-Holds rank a [] st h = h
  requests-Holds rank a (i ∷ ids) st h = requests-Holds rank a ids _ (request-Holds rank a i _ st h)

  finish-Returns :
      (rank : List ℤ → ℤ) (a : AudioState) (channel : LinkId) (o : Option (List AudioBuffer × Sink))
      (st : State)
      → Holds D st
      → Returns D (finish_write rank a channel o st)
  finish-Returns rank a channel none st h = nothing
  finish-Returns rank a channel (some (bufs, sink)) st h =
      just (copies-Holds rank a.paths sink.requesters _ _ h)

  pub write_sink-Returns :
      (rank : List ℤ → ℤ) (env : Env) (fill : Bool) (channel : LinkId) (samples : List ℤ)
      (sample_rate num_channels : ℕ) (begin_app quantum : ℤ) (st : State)
      → Holds D st
      → Returns D
          (write_sink rank env fill channel samples sample_rate num_channels begin_app quantum st)
  unfolding write_sink now
  write_sink-Returns rank env fill channel samples sample_rate num_channels begin_app quantum st h =
      option-Returns st.audio _ _ (just h) λ a.
        option-Returns (find_sink channel a.sinks) _ _ (just h)
          (λ s. finish-Returns rank a channel _ _ h)

  due-ReturnsAudio :
      (at : ℤ) (a : AudioState) (st : State) (o : Option (List (List ℕ)))
      → Holds D st
      → ReturnsAudio D (announce_due at a st o)
  due-ReturnsAudio at a st none h = nothing_audio
  due-ReturnsAudio at a st (some round) h = just_audio (round-Holds _ round st h)

  announce-ReturnsAudio :
      (at : ℤ) (a : AudioState) (st : State) → Holds D st → ReturnsAudio D (announce_step at a st)
  unfolding announce_step
  announce-ReturnsAudio at a st h =
      if-intro (ReturnsAudio D) (leb_ℤ (a.last_announce_at +w announce_period) at) _ _
        (λ e. due-ReturnsAudio at a st (build_announcement_round st.node st.session a at) h)
        (λ e. just_audio h)

  after-ReturnsNext :
      (rank : List ℤ → ℤ) (at : ℤ) (o : Option (ℤ × AudioState × State))
      → ReturnsAudio D o
      → ReturnsNext D (after_announce rank at o)
  unfolding later_timers
  after-ReturnsNext rank at none h = nothing_next
  after-ReturnsNext rank at (some (next, a, st)) (just_audio h) =
      just_next (requests-Holds rank _ _ _ h)

  audio_pass-ReturnsNext :
      (rank : List ℤ → ℤ) (at : ℤ) (st : State)
      → Holds D st
      → ReturnsNext D (housekeeping rank at st)
  unfolding housekeeping
  audio_pass-ReturnsNext rank at st h = go st.audio
    where
      go :
          (o : Option AudioState)
          → ReturnsNext D (elim o [
            | none ↦ some (i64_max, st)
            | some a ↦ after_announce rank at (announce_step at a st)
          ])
      go none = just_next h
      go (some a) = after-ReturnsNext rank at _ (announce-ReturnsAudio at a st h)

  min_audio-ReturnsNext :
      (next : ℤ) (o : Option (ℤ × State)) → ReturnsNext D o → ReturnsNext D (min_audio next o)
  min_audio-ReturnsNext next none h = nothing_next
  min_audio-ReturnsNext next (some (n, st)) (just_next h) = just_next h

  pub pass-ReturnsNext :
      (rank : List ℤ → ℤ) (env : Env) (st : State)
      → Holds D st
      → ReturnsNext D (whole_pass rank env st)
  unfolding whole_pass now
  pass-ReturnsNext rank env st h =
      let passed = housekeeping-Holds env st h in
      if-intro (ReturnsNext D) (not st.enabled) _ _ (λ e. just_next passed)
        (λ e.
          min_audio-ReturnsNext (housekeeping_pass env st).0 _
            (audio_pass-ReturnsNext rank (env.clock st.reads) (housekeeping_pass env st).1 passed))
