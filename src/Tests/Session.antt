-- ===== src/Tests/Session.antt =====
-- The theorems of the session's beats, of the application's calls and of LinkAudio's bookkeeping at concrete
-- states.
use link_wire_rs.Common.{
  ◌≡◌, refl, [], ◌∷◌, ◌++◌, List, none, some, true, false, All, if◌then◌else◌, arith,
}
use link_wire_rs.Common.Bytes.{as_signed, as_unsigned}
use link_wire_rs.Common.Int.{ℤ, pos, ◌+ℤ◌, ◌-ℤ◌, ◌*ℤ◌}
use link_wire_rs.Common.Maps.{get}
use link_wire_rs.Types.Id.{LinkId}
use link_wire_rs.Types.Endpoint.{SocketAddr, v4}
use link_wire_rs.Types.Timeline.{Timeline}
use link_wire_rs.AudioWire.Message.{peer_announcement}
use link_wire_rs.Math.Word.{wrap, ◌+w◌, ◌-w◌, quot}
use link_wire_rs.Math.Grid.{round_div, beats_at_ghost, app_beat_at_ghost, session_offset}
use link_wire_rs.Math.SessionBeat.{session_beat}
use link_wire_rs.Engine.State.{State, Env, Gateway, key_eq}
use link_wire_rs.Engine.Send.{build_state}
use link_wire_rs.Engine.Gossip.{process_peer_state}
use link_wire_rs.Link.Calls.{set_tempo, set_is_playing}
use link_wire_rs.Link.Propagates.{set_tempo_propagates, set_is_playing_propagates}
use link_wire_rs.LinkAudio.State.{AudioState}
use link_wire_rs.LinkAudio.Inbound.{receive, endpoint_known}
use link_wire_rs.AudioWire.Message.{ChannelInfo}
use link_wire_rs.LinkAudio.Announce.{Part, announcing, encode_parts, build_announcement_round}
use link_wire_rs.LinkAudio.Round.{listed, announcement_round}
use link_wire_rs.LinkAudio.Windows.{receive_unadvertised}

abbrev grid : Timeline
grid = record { tempo = pos 500000; beat_origin = pos 7; time_origin = pos 12 }

-- A second after the origin.
abbrev a_second : ℤ
a_second = pos 1000012

two_beats : beats_at_ghost grid a_second ≡ pos 2000007
unfolding beats_at_ghost round_div quot wrap ◌+w◌ ◌-w◌ ◌+ℤ◌ ◌-ℤ◌ ◌*ℤ◌ as_signed as_unsigned
two_beats = refl

session_beat_example :
    app_beat_at_ghost grid a_second (pos 4000000) -ℤ session_offset grid (pos 4000000)
    ≡ beats_at_ghost grid a_second -ℤ pos 7
session_beat_example =
    session_beat grid a_second 500000 4000000 (omega arith) refl (omega arith) (omega arith)
      (omega arith) (rw two_beats (unfold ◌-ℤ◌ in omega arith))
      (rw two_beats (unfold ◌-ℤ◌ ◌+ℤ◌ in omega arith)) (unfold ◌-ℤ◌ ◌+ℤ◌ in omega arith)

abbrev me : LinkId
me = 1 ∷ 2 ∷ 3 ∷ 4 ∷ 5 ∷ 6 ∷ 7 ∷ 8 ∷ []

abbrev you : LinkId
you = 1 ∷ 2 ∷ 3 ∷ 4 ∷ 5 ∷ 6 ∷ 7 ∷ 9 ∷ []

abbrev here : SocketAddr
here = v4 1 20808

abbrev steady : Env
steady = record { clock = λ n. pos 40; ids = λ n. me }

abbrev door : Gateway
door = record { id = 0; addr = 1; measurement_endpoint = here; audio_endpoint = here }

abbrev member : State
member = record {
  enabled = true;
  epoch = 1;
  node = me;
  session = you;
  timeline = grid;
  ghost_offset = pos 70;
  held_stst = record { is_playing = false; beats = pos 0; timestamp = pos 5 };
  app_playing = false;
  sst_sync = true;
  gateways = (0, door) ∷ [];
  next_gateway_id = 1;
  peers = [];
  session_member_seen = true;
  foreign_timelines = [];
  measured = [];
  measurement = none;
  pending = [];
  last_alive_at = pos 0;
  last_broadcast_at = pos 0;
  broadcast_due = none;
  next_remeasure_at = none;
  audio = none;
  reads = 0;
  draws = 0;
  sent = [];
}

abbrev founder : State
founder = record member { node = you; timeline = record grid { beat_origin = pos 3 } }

set_tempo_propagates_example :
    (process_peer_state steady 0 me 5
      (build_state (set_tempo steady (pos 600000) member) door)
      founder).timeline
    ≡ (set_tempo steady (pos 600000) member).timeline
set_tempo_propagates_example =
    set_tempo_propagates steady steady (pos 600000) member founder door 0 me 5
      (omega arith, omega arith) (unfold ◌+ℤ◌ in omega arith) refl (omega arith)

set_is_playing_propagates_example :
    ((process_peer_state steady 0 me 5
        (build_state (set_is_playing steady true member) door)
        founder).held_stst
      ≡ (set_is_playing steady true member).held_stst)
    × ((process_peer_state steady 0 me 5
          (build_state (set_is_playing steady true member) door)
          founder).app_playing
        ≡ (if founder.sst_sync then true else founder.app_playing))
set_is_playing_propagates_example =
    set_is_playing_propagates steady steady true member founder door 0 me 5 refl (omega arith)
      (unfold ◌+ℤ◌ in omega arith) refl (omega arith)

abbrev listener : AudioState
listener = record {
  peer_name = [];
  sinks = [];
  sources = [];
  known = [];
  paths = ((you, 0), record { rtts = pos 3 ∷ [] }) ∷ [];
  last_announce_at = pos 0;
}

receive_unadvertised_example :
    get
      (me, 0)
      (receive member 0 here
        (pos 40)
        you
        5
        (peer_announcement you [] (record { name = []; id = me } ∷ []) none)
        listener).known
    ≡ none
unfolding endpoint_known
receive_unadvertised_example =
    receive_unadvertised member 0 here (pos 40) you 5
      (peer_announcement you [] (record { name = []; id = me } ∷ []) none) listener (me, 0) refl
      refl

abbrev speaker : AudioState
speaker = record listener {
  sinks =
      record { id = me; name = []; requesters = []; next_seq = 1; segments = []; format = none }
      ∷ [];
}

announcement_round_example :
    (taken : List ChannelInfo) × (parts : List Part) × (build_announcement_round me you speaker
        (pos 9)
      ≡ some (encode_parts (announcing me you speaker) ((taken, some (pos 9)) ∷ parts)))
    × (taken ++ listed parts ≡ record { name = []; id = me } ∷ [])
    × All (λ p. p.1 ≡ none) parts
announcement_round_example = announcement_round me you speaker (pos 9)
