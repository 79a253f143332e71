-- ===== src/Tests/Driver.antt =====
-- The theorems of the conformance peer at concrete lines.
use link_wire_rs.Common.{◌≡◌, refl, [], ◌∷◌, none, some, true}
use link_wire_rs.Common.Bytes.{bytes_eqb}
use link_wire_rs.Common.Int.{pos}
use link_wire_rs.Types.Id.{LinkId}
use link_wire_rs.Types.Endpoint.{v4}
use link_wire_rs.Math.Float.{Float, bpm_to_tempo}
use link_wire_rs.Engine.State.{new}
use link_wire_rs.LinkAudio.State.{AudioState}
use link_wire_rs.Candidate.Commands.{
  World, System, codes, disable, tempo, audio_enable, audio_subscribe, unknown, run_command,
  parse_line, words_from, command, parse_usize, digits,
}
use link_wire_rs.Tests.Life.{whole}
use link_wire_rs.Candidate.Publishing.{publication_lost}

-- It reads decimal digits.
abbrev decimal : Float
decimal = record whole { parse = digits 0 }

abbrev node_id : LinkId
node_id = 1 ∷ 2 ∷ 3 ∷ 4 ∷ 5 ∷ 6 ∷ 7 ∷ 8 ∷ []

abbrev machine : System
machine = record {
  env = record { clock = λ n. pos n; ids = λ n. node_id };
  sockets = λ id addr. some (v4 addr 20000, v4 addr 20001);
  scan = λ n. none;
  rank = λ samples. pos 0;
}

lines_read :
    (parse_line decimal (codes "  tempo 90 ") ≡ tempo 90)
    × (parse_line decimal (codes "audio-subscribe +12") ≡ audio_subscribe 12)
    × (parse_line decimal (codes "Tempo 90") ≡ unknown)
    × (parse_usize (codes "18446744073709551615") ≡ some 18446744073709551615)
    × (parse_usize (codes "18446744073709551616") ≡ none)
unfolding parse_line words_from command parse_usize digits bytes_eqb
lines_read = (refl, refl, refl, refl, refl)

-- A peer that has joined no network.
abbrev quiet : World
quiet = record {
  link = new node_id (bpm_to_tempo decimal 120);
  ctl = record { published = none; subscribed = none };
}

abbrev joined : World
joined = record {
  link = record (new node_id (bpm_to_tempo decimal 120)) { enabled = true };
  ctl = record { published = some node_id; subscribed = none };
}

publication_lost_example :
    (a : AudioState) × ((run_command decimal machine audio_enable
        (run_command decimal machine disable joined)).link.audio
      ≡ some a)
    × (a.sinks ≡ [])
    × ((run_command decimal machine audio_enable
          (run_command decimal machine disable joined)).ctl.published
        ≡ some node_id)
publication_lost_example = publication_lost decimal machine joined node_id refl refl
