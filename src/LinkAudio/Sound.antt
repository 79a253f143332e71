-- ===== src/LinkAudio/Sound.antt =====
-- LinkAudio in crates/tactus/src/audio.rs leaves the measurements and the gateways of the engine alone.
use link_wire_rs.Common.{
  ℕ, suc, List, [], ◌∷◌, ◌++◌, Option, none, some, Bool, not, ◌||◌, ◌==◌, length,
}
use link_wire_rs.Common.Int.{ℤ, pos}
use link_wire_rs.Common.Maps.{get, nat_eq}
use link_wire_rs.Types.Id
use link_wire_rs.Types.Id.{LinkId}
use link_wire_rs.Types.Endpoint.{SocketAddr}
use link_wire_rs.Codec.Error.{Result, ok, err, stuck}
use link_wire_rs.AudioWire.Message.{Frame}
use link_wire_rs.AudioWire.Decode.{decode}
use link_wire_rs.LinkAudio.State.{AudioState}
use link_wire_rs.LinkAudio.Inbound.{
  send_via, answer_keepalive, receive_frame, handle_datagram, ping_of,
}
use link_wire_rs.LinkAudio.Paths.{best_path, send_to, send_each}
use link_wire_rs.LinkAudio.Requests.{
  publisher, send_request, send_chunks, send_byes, shutdown, enable, disable, publish, unpublish,
  subscribe, unsubscribe, without, new_sink,
}
use link_wire_rs.Engine.State.{State, Env, now, random_id, push, id_eq}
use link_wire_rs.Engine.Budget.{Doors, Holds, if-Holds, option-Holds, schedule_broadcast-Holds}

module _ {D : Doors → Type 0} where
  pub send_via-Holds :
      (gw : ℕ) (bytes : List ℕ) (dst : SocketAddr) (st : State)
      → Holds D st
      → Holds D (send_via gw bytes dst st)
  unfolding send_via push
  send_via-Holds gw bytes dst st h = option-Holds (get gw st.gateways) st _ h (λ g. h)

  keepalive-Holds :
      (gw : ℕ) (src : SocketAddr) (o : Option ℤ) (st : State)
      → Holds D st
      → Holds D (answer_keepalive gw src o st)
  unfolding answer_keepalive
  keepalive-Holds gw src none st h = h
  keepalive-Holds gw src (some ht) st h = send_via-Holds gw _ src st h

  pub datagram-Holds :
      (env : Env) (gw : ℕ) (src : SocketAddr) (buf : List ℕ) (st : State)
      → Holds D st
      → Holds D (handle_datagram env gw src buf st)
  unfolding handle_datagram receive_frame now
  datagram-Holds env gw src buf st h =
      if-Holds (not st.enabled) st _ h (option-Holds st.audio st _ h (λ a. go a (decode buf)))
    where
      go :
          (a : AudioState) (r : Result Frame)
          → Holds D (elim r [ ok f ↦ receive_frame env gw src f a st | err e ↦ st | stuck ↦ st ])
      go a (ok f) =
          if-Holds (Id.eqb f.node st.node || not (f.group_id == 0)) st _ h
            (keepalive-Holds gw src (ping_of f.message) _ h)
      go a (err e) = h
      go a stuck = h

  pub send_to-Holds :
      (ps : List (ℕ × SocketAddr)) (bytes : List ℕ) (st : State)
      → Holds D st
      → Holds D (send_to ps bytes st)
  unfolding send_to
  send_to-Holds [] bytes st h = h
  send_to-Holds (p ∷ ps) bytes st h = send_to-Holds ps bytes _ (send_via-Holds p.0 bytes p.1 st h)

  pub send_each-Holds :
      (p : ℕ × SocketAddr) (round : List (List ℕ)) (st : State)
      → Holds D st
      → Holds D (send_each p round st)
  unfolding send_each
  send_each-Holds p [] st h = h
  send_each-Holds p (bytes ∷ rest) st h =
      send_each-Holds p rest _ (send_via-Holds p.0 bytes p.1 st h)

  pub request-Holds :
      (rank : List ℤ → ℤ) (a : AudioState) (channel : LinkId) (stop : Bool) (st : State)
      → Holds D st
      → Holds D (send_request rank a channel stop st)
  unfolding send_request
  request-Holds rank a channel stop st h = option-Holds (publisher channel a.known) st _ h λ node.
      option-Holds (best_path rank st.peers a.paths node) st _ h
        (λ p. send_via-Holds p.0 _ p.1 st h)

  chunks-Holds : (cs : List (List LinkId)) (st : State) → Holds D st → Holds D (send_chunks cs st)
  unfolding send_chunks
  chunks-Holds [] st h = h
  chunks-Holds (c ∷ cs) st h = chunks-Holds cs _ (send_to-Holds _ _ st h)

  byes-Holds : (ids : List LinkId) (st : State) → Holds D st → Holds D (send_byes ids st)
  unfolding send_byes
  byes-Holds ids st h = chunks-Holds _ st h

  pub shutdown-Holds : (st : State) → Holds D st → Holds D (shutdown st)
  unfolding shutdown
  shutdown-Holds st h = option-Holds st.audio st _ h (λ a. byes-Holds _ st h)

  pub enable-Holds :
      (env : Env) (name : List ℕ) (st : State) → Holds D st → Holds D (enable env name st)
  unfolding enable
  enable-Holds env name st h = option-Holds st.audio _ _ (schedule_broadcast-Holds env _ h) (λ a. h)

  pub disable-Holds : (env : Env) (st : State) → Holds D st → Holds D (disable env st)
  unfolding disable
  disable-Holds env st h =
      option-Holds st.audio st _ h (λ a. schedule_broadcast-Holds env _ (shutdown-Holds st h))

  pub unpublish-Holds :
      (channel : LinkId) (st : State) → Holds D st → Holds D (unpublish channel st)
  unfolding unpublish
  unpublish-Holds channel st h =
      option-Holds st.audio st _ h
        λ a. if-Holds (length (without channel a.sinks) == length a.sinks) _ _ h (byes-Holds _ _ h)

  pub subscribe-Holds :
      (rank : List ℤ → ℤ) (env : Env) (channel : LinkId) (quantum : ℤ) (st : State)
      → Holds D st
      → Holds D (subscribe rank env channel quantum st)
  unfolding subscribe now
  subscribe-Holds rank env channel quantum st h =
      option-Holds st.audio _ _ h (λ a. request-Holds rank _ channel _ _ h)

  pub unsubscribe-Holds :
      (rank : List ℤ → ℤ) (channel : LinkId) (st : State)
      → Holds D st
      → Holds D (unsubscribe rank channel st)
  unfolding unsubscribe
  unsubscribe-Holds rank channel st h =
      option-Holds st.audio st _ h
        λ a. option-Holds (get channel a.sources) st _ h (λ s. request-Holds rank _ channel _ _ h)

  pub publish-Holds :
      (env : Env) (name : List ℕ) (st : State) → Holds D st → Holds D (publish env name st).1
  unfolding publish random_id
  publish-Holds env name st h = go st.audio
    where
      go :
          (o : Option AudioState)
          → Holds D
              (elim o as (λ x. Option LinkId × State) [
                | none ↦ (none, st)
                | some a ↦ (
                  some (env.ids st.draws),
                  record st {
                    draws = suc st.draws;
                    audio = some (record a {
                      sinks = a.sinks ++ (new_sink (env.ids st.draws) name ∷ []);
                      last_announce_at = pos 0;
                    });
                  },
                )
              ]).1
      go none = h
      go (some a) = h
