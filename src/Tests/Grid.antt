-- ===== src/Tests/Grid.antt =====
-- The theorems of the beat grid, the gateway plans and the delivery of audio at concrete values.
use link_wire_rs.Common.{◌-◌, ◌≤◌, ◌≡◌, refl, [], ◌∷◌, some, true, false, length, drop, arith}
use link_wire_rs.Common.Int.{pos, negsuc, ◌+ℤ◌, ◌≤ℤ◌}
use link_wire_rs.Types.Timeline.{Timeline}
use link_wire_rs.AudioWire.Message.{AudioBuffer}
use link_wire_rs.Math.Word.{rem_euclid}
use link_wire_rs.Math.Grid.{phase, align_up}
use link_wire_rs.Math.Align.{align_up_least}
use link_wire_rs.Iface.Plan.{Interface}
use link_wire_rs.LinkAudio.State.{Source, inbox_limit}
use link_wire_rs.LinkAudio.Deliver.{deliver}
use link_wire_rs.LinkAudio.Inbox.{all_units, deliver_inbox}

align_up_least_example :
    (negsuc 4 ≤ℤ align_up (negsuc 4) (pos 3) (pos 4))
    × (phase (align_up (negsuc 4) (pos 3) (pos 4)) (pos 4) ≡ phase (pos 3) (pos 4))
    × (align_up (negsuc 4) (pos 3) (pos 4) ≤ℤ pos 7)
align_up_least_example =
    align_up_least (negsuc 4) (pos 3) 4 (pos 7) (omega arith) (omega arith) (omega arith)
      (unfold ◌+ℤ◌ in omega arith) (omega arith) (unfold phase rem_euclid in refl)

abbrev wired : Interface
wired = record { addr = 77; up = true; loopback = false; multicast = true; point_to_point = false }

abbrev origin : Timeline
origin = record { tempo = pos 500000; beat_origin = pos 0; time_origin = pos 0 }

abbrev listening : Source
listening = record {
  quantum = pos 4000000;
  last_request_at = pos 0;
  last_buffer_at = pos 0;
  inbox = [];
  next_seq_expected = some 8;
  lost_chunks = 2;
}

abbrev received : AudioBuffer
received = record {
  channel = [];
  session = [];
  chunks =
      record { seq = 8; num_frames = 1; begin_beats = pos 0; tempo = pos 500000 }
      ∷ record { seq = 9; num_frames = 1; begin_beats = pos 5; tempo = pos 500000 }
      ∷ [];
  codec = 1;
  sample_rate = 48000;
  num_channels = 1;
  sample_data = 0 ∷ 1 ∷ 0 ∷ 2 ∷ [];
}

deliver_inbox_example :
    ((deliver listening received origin (pos 4)).inbox
      ≡ drop
          (length (all_units listening received origin) - inbox_limit)
          (all_units listening received origin))
    × (length (deliver listening received origin (pos 4)).inbox ≤ inbox_limit)
deliver_inbox_example = deliver_inbox listening received origin (pos 4)
