-- ===== src/Candidate/Publishing.antt =====
-- The channel that crates/tactus/src/bin/conformance-peer.rs publishes.
use link_wire_rs.Common.{
  ℕ, ◌≡◌, refl, ap, arith, if-intro, option-intro, not, List, [], ◌∷◌, Option, none, some, true,
}
use link_wire_rs.Types.Id.{LinkId}
use link_wire_rs.Math.Float.{Float}
use link_wire_rs.Engine.State.{State, Env}
use link_wire_rs.Engine.Silence.{silence-schedule_broadcast}
use link_wire_rs.LinkAudio.State as AudioStates
use link_wire_rs.LinkAudio.State.{AudioState}
use link_wire_rs.LinkAudio.Requests.{new_sink, shutdown, publish}
use link_wire_rs.LinkAudio.Requests as Requests
use link_wire_rs.Runtime.Gateways as Gateways
use link_wire_rs.Candidate.Commands.{World, System, codes, disable, audio_enable, run_command}

shutdown-audio : (st : State) → (shutdown st).audio ≡ none
unfolding shutdown
shutdown-audio st =
    option-intro (λ (s : State). s.audio ≡ none) st.audio _ _ (λ off. off) (λ a on. refl)

disable-audio : (st : State) → st.enabled ≡ true → (Gateways.disable st).audio ≡ none
unfolding Gateways.disable
disable-audio st on =
    if-intro (λ (s : State). s.audio ≡ none) (not st.enabled) _ _ (λ off. absurd (ground arith))
      (λ yes. shutdown-audio st)

-- Enabled where it was off, the audio is new.
enable-audio :
    (env : Env) (name : List ℕ) (st : State)
    → st.audio ≡ none
    → (Requests.enable env name st).audio ≡ some (AudioStates.new name)
unfolding Requests.enable
enable-audio env name st off =
    option-intro (λ (s : State). s.audio ≡ some (AudioStates.new name)) st.audio _ (λ a. st)
      (λ yes. ap (λ s. s.audio) (silence-schedule_broadcast env _)) (λ a on. absurd (ground arith))

-- One channel is published, under the id that is given.
abbrev pub IsSole : List ℕ → Option LinkId × State → Type 0
IsSole name (given, st) =
    (id : LinkId) × (a : AudioState) × (st.audio ≡ some a)
    × (a.sinks ≡ new_sink id name ∷ [])
    × (given ≡ some id)

publish-IsSole :
    (env : Env) (name : List ℕ) (a : AudioState) (st : State)
    → st.audio ≡ some a
    → a.sinks ≡ []
    → IsSole name (publish env name st)
unfolding publish
publish-IsSole env name a st on none_yet = rw on (_, _, refl, rw none_yet refl, refl)

module _ (F : Float) (sys : System) where
  audio_enable_again :
      (w : World) (a : AudioState) (id : LinkId)
      → w.link.audio ≡ some a
      → w.ctl.published ≡ some id
      → run_command F sys audio_enable w ≡ w
  unfolding run_command Requests.enable
  audio_enable_again w a id on published = rw (on, published) refl

  audio_enable-IsSole :
      (w : World)
      → w.link.audio ≡ none
      → w.ctl.published ≡ none
      → IsSole (codes "tactus") (
        (run_command F sys audio_enable w).ctl.published,
        (run_command F sys audio_enable w).link,
      )
  unfolding run_command AudioStates.new
  audio_enable-IsSole w off first = rw first (
      publish-IsSole sys.env (codes "tactus") (AudioStates.new (codes "tactus-peer"))
        (Requests.enable sys.env (codes "tactus-peer") w.link)
        (enable-audio sys.env (codes "tactus-peer") w.link off) refl)

  -- Audio that is enabled for the first time publishes one channel, named tactus, whose id is remembered; enabling it
  -- again changes nothing.
  audio_enable_publishes :
      (w : World)
      → w.link.audio ≡ none
      → w.ctl.published ≡ none
      → IsSole (codes "tactus") (
        (run_command F sys audio_enable w).ctl.published,
        (run_command F sys audio_enable w).link,
      )
        × (run_command F sys audio_enable (run_command F sys audio_enable w)
            ≡ run_command F sys audio_enable w)
  audio_enable_publishes w off first =
      let (id, a, on, sole, given) = audio_enable-IsSole w off first in
      (
        (id, a, on, sole, given),
        audio_enable_again (run_command F sys audio_enable w) a id on given,
      )

  -- A peer that is enabled and has published, and then is disabled and enables audio, has audio without a channel,
  -- and still remembers the channel as published.
  pub publication_lost :
      (w : World) (id : LinkId)
      → w.link.enabled ≡ true
      → w.ctl.published ≡ some id
      → (a : AudioState) × ((run_command F sys audio_enable
            (run_command F sys disable w)).link.audio
          ≡ some a)
        × (a.sinks ≡ [])
        × ((run_command F sys audio_enable (run_command F sys disable w)).ctl.published ≡ some id)
  unfolding run_command AudioStates.new
  publication_lost w id on published =
      let fresh =
        enable-audio sys.env (codes "tactus-peer") (Gateways.disable w.link)
          (disable-audio w.link on) in
      rw published (AudioStates.new (codes "tactus-peer"), fresh, refl, refl)
