-- ===== src/Runtime/Steps.antt =====
-- The life of a peer: what its threads (crates/tactus/src/runtime.rs) and its application
-- (crates/tactus/src/lib.rs) do to the state, one step at a time, since each step holds the lock.
use link_wire_rs.Common.{ℕ, ◌≡◌, List, Option, none, some, Bool}
use mathlib.Core.Path.{subst}
use link_wire_rs.Common.Int.{ℤ}
use link_wire_rs.Common.Maps.{get}
use link_wire_rs.Types.Id.{LinkId}
use link_wire_rs.Types.Endpoint.{SocketAddr}
use link_wire_rs.Iface.Plan.{Interface}
use link_wire_rs.LinkAudio.State.{AudioState, Source}
use link_wire_rs.LinkAudio.Requests.{publish, unpublish, subscribe, unsubscribe}
use link_wire_rs.LinkAudio.Requests as Requests
use link_wire_rs.LinkAudio.Write.{write_sink}
use link_wire_rs.LinkAudio.Timers.{whole_pass}
use link_wire_rs.LinkAudio.Sound as Audio
use link_wire_rs.LinkAudio.Passes.{
  Returns, just, ReturnsNext, just_next, write_sink-Returns, pass-ReturnsNext,
}
use link_wire_rs.Engine.State.{State, Env, id_eq}
use link_wire_rs.Engine.Budget.{Doors, Holds}
use link_wire_rs.Math.Float.{Float, bpm_to_tempo, bpm_to_tempo-IsClamped}
use link_wire_rs.Link.Calls.{set_tempo, set_is_playing, enable_start_stop_sync}
use link_wire_rs.Link.Audio.{simulate_crash, poll_source, poll_audio, poll_channel}
use link_wire_rs.Runtime.Gateways
use link_wire_rs.Runtime.Gateways.{Role, Sockets, Gateways, receive_from, rescan}
use link_wire_rs.Runtime.Sound
use link_wire_rs.Runtime.Sound.{Livable}

-- `F` is the arithmetic of doubles, by which the tempo of the application becomes a period.
pub data Step (F : Float) : State → State → Type 0 where
  received :
      {st : State} (env : Env) (gw epoch : ℕ) (src : SocketAddr) (buf : List ℕ) (role : Role)
      → Step F st (receive_from env gw epoch src buf role st)
  passed :
      {st st' : State} {next : ℤ} (rank : List ℤ → ℤ) (env : Env)
      → whole_pass rank env st ≡ some (next, st')
      → Step F st st'
  rescanned :
      {st : State} (sockets : Sockets) (env : Env) (epoch : ℕ) (scan : Option (List Interface))
      (failed : List ℕ)
      → Step F st (rescan sockets env epoch scan failed st).1
  enabled :
      {st : State} (sockets : Sockets) (config : Gateways) (scan : Option (List Interface))
      (env : Env)
      → Step F st (Gateways.enable sockets config scan env st)
  disabled : {st : State} → Step F st (Gateways.disable st)
  crashed : {st : State} → Step F st (simulate_crash st)
  tempo_set :
      {st : State} (env : Env) (bpm : F.Double) → Step F st (set_tempo env (bpm_to_tempo F bpm) st)
  playing_set :
      {st : State} (env : Env) (playing : Bool) → Step F st (set_is_playing env playing st)
  sync_set : {st : State} (on : Bool) → Step F st (enable_start_stop_sync on st)
  audio_enabled : {st : State} (env : Env) (name : List ℕ) → Step F st (Requests.enable env name st)
  audio_disabled : {st : State} (env : Env) → Step F st (Requests.disable env st)
  published : {st : State} (env : Env) (name : List ℕ) → Step F st (publish env name st).1
  unpublished : {st : State} (channel : LinkId) → Step F st (unpublish channel st)
  subscribed :
      {st : State} (rank : List ℤ → ℤ) (env : Env) (channel : LinkId) (quantum : ℤ)
      → Step F st (subscribe rank env channel quantum st)
  unsubscribed :
      {st : State} (rank : List ℤ → ℤ) (channel : LinkId) → Step F st (unsubscribe rank channel st)
  written :
      {st st' : State} (rank : List ℤ → ℤ) (env : Env) (fill : Bool) (channel : LinkId)
      (samples : List ℤ) (sample_rate num_channels : ℕ) (begin_app quantum : ℤ)
      → write_sink rank env fill channel samples sample_rate num_channels begin_app quantum st
        ≡ some st'
      → Step F st st'
  polled : {st : State} (channel : LinkId) → Step F st (poll_channel channel st).1

-- Any number of steps.
pub data Reach (F : Float) (st : State) : State → Type 0 where
  here : Reach F st st
  next : {mid end : State} → Reach F st mid → Step F mid end → Reach F st end

returned : {D : Doors → Type 0} {t : State} → Returns D (some t) → Holds D t
returned (just h) = h

returned_next : {D : Doors → Type 0} {n : ℤ} {t : State} → ReturnsNext D (some (n, t)) → Holds D t
returned_next (just_next h) = h

source-Holds :
    {D : Doors → Type 0} (channel : LinkId) (a : AudioState) (o : Option Source) (st : State)
    → Holds D st
    → Holds D (poll_source channel a o st).1
source-Holds channel a none st h = h
source-Holds channel a (some s) st h = h

poll-Holds :
    {D : Doors → Type 0} (channel : LinkId) (o : Option AudioState) (st : State)
    → Holds D st
    → Holds D (poll_audio channel o st).1
poll-Holds channel none st h = h
poll-Holds channel (some a) st h = source-Holds channel a (get channel a.sources) st h

pub step-Holds :
    {F : Float} {D : Doors → Type 0} {s t : State} → Livable D → Step F s t → Holds D s → Holds D t
step-Holds {s = s} l (received env gw epoch src buf role) h =
    Sound.receive-Holds env gw epoch src buf role s h
step-Holds {D = D} {s = s} l (passed rank env e) h =
    returned_next (subst (ReturnsNext D) e (pass-ReturnsNext rank env s h))
step-Holds {s = s} l (rescanned sockets env epoch scan failed) h =
    Sound.rescan-Holds l sockets env epoch scan failed s h
step-Holds {s = s} l (enabled sockets config scan env) h =
    Sound.enable-Holds l sockets config scan env s h
step-Holds {s = s} l disabled h = Sound.disable-Holds s l h
step-Holds {s = s} l crashed h = Sound.crash-Holds s l h
step-Holds {F = F} {s = s} l (tempo_set env bpm) h =
    Sound.tempo-Holds env (bpm_to_tempo F bpm) s (bpm_to_tempo-IsClamped F bpm) h
step-Holds {s = s} l (playing_set env playing) h = Sound.transport-Holds env playing s h
step-Holds {s = s} l (sync_set on) h = unfold enable_start_stop_sync in h
step-Holds {s = s} l (audio_enabled env name) h = Audio.enable-Holds env name s h
step-Holds {s = s} l (audio_disabled env) h = Audio.disable-Holds env s h
step-Holds {s = s} l (published env name) h = Audio.publish-Holds env name s h
step-Holds {s = s} l (unpublished channel) h = Audio.unpublish-Holds channel s h
step-Holds {s = s} l (subscribed rank env channel quantum) h =
    Audio.subscribe-Holds rank env channel quantum s h
step-Holds {s = s} l (unsubscribed rank channel) h = Audio.unsubscribe-Holds rank channel s h
step-Holds {D = D} {s = s} l
      (written rank env fill channel samples rate channels begin_app quantum e) h =
    returned (
      subst (Returns D) e
        (write_sink-Returns rank env fill channel samples rate channels begin_app quantum s h))
step-Holds {s = s} l (polled channel) h = unfold poll_channel in poll-Holds channel s.audio s h

pub reach-Holds :
    {F : Float} {D : Doors → Type 0} {s t : State} → Livable D → Reach F s t → Holds D s → Holds D t
reach-Holds l here h = h
reach-Holds l (next r step) h = step-Holds l step (reach-Holds l r h)
