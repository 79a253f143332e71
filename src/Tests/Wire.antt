-- ===== src/Tests/Wire.antt =====
-- The theorems of the wire format at concrete datagrams.
use link_wire_rs.Common.{ℕ, ◌+◌, ◌≡◌, refl, [], ◌∷◌, ◌++◌, none, some, true, length, arith}
use link_wire_rs.Common.Int.{pos, negsuc}
use link_wire_rs.Codec.Error.{Result, ok}
use link_wire_rs.Codec.Entries.{Entry}
use link_wire_rs.Codec.EntryBytes.{entry_bytes}
use link_wire_rs.Codec.ReadWrite.{i64_bytes}
use link_wire_rs.Types.Id.{LinkId}
use link_wire_rs.Types.Endpoint.{v6}
use link_wire_rs.Sync
use link_wire_rs.Sync.Message.{Ping, Pong}
use link_wire_rs.Sync.RoundTrip.{measurement_round}
use link_wire_rs.Discovery
use link_wire_rs.AudioWire
use link_wire_rs.Discovery.Message.{alive}
use link_wire_rs.Discovery.RoundTrip.{decode-encode_discovery}
use link_wire_rs.Discovery.Totality.{decode_header_agrees}
use link_wire_rs.AudioWire.RoundTrip.{decode-encode_audio}

abbrev node_a : LinkId
node_a = 1 ∷ 2 ∷ 3 ∷ 4 ∷ 5 ∷ 6 ∷ 7 ∷ 8 ∷ []

abbrev node_b : LinkId
node_b = 1 ∷ 2 ∷ 3 ∷ 4 ∷ 5 ∷ 6 ∷ 7 ∷ 9 ∷ []

abbrev gossip : Discovery.Message.Frame
gossip = record {
  ttl = 5;
  group_id = 0;
  node = node_a;
  message = alive (record {
    timeline = some (record { tempo = pos 500000; beat_origin = negsuc 4; time_origin = pos 12 });
    session = some node_b;
    start_stop = some (record { is_playing = true; beats = pos 1; timestamp = pos 2 });
    measurement_endpoint = some (v6 1 20808 0 0);
    audio_endpoint = none;
  });
}

gossip-IsFrame : Discovery.Message.IsFrame gossip
gossip-IsFrame = record {
  ttl = omega arith;
  group_id = omega arith;
  node = refl;
  message = record {
    timeline = record { tempo = omega arith; beat_origin = omega arith; time_origin = omega arith };
    session = refl;
    start_stop = record { beats = omega arith; timestamp = omega arith };
    measurement_endpoint = (omega arith, omega arith, refl, refl);
    audio_endpoint = tt;
  };
}

decode-encode_discovery_example :
    Discovery.Decode.decode (Discovery.Encode.encode gossip) ≡ ok gossip
decode-encode_discovery_example = decode-encode_discovery gossip gossip-IsFrame

decode_header_agrees_example :
    Discovery.Decode.decode_header (Discovery.Encode.encode gossip)
    ≡ ok (record { msg_type = 1; ttl = 5; group_id = 0; node = node_a })
decode_header_agrees_example =
    decode_header_agrees (Discovery.Encode.encode gossip) gossip
      (decode-encode_discovery gossip gossip-IsFrame)

abbrev echoed : Ping
echoed = record {
  host_time = some (pos 7);
  prev_ghost_time = some (negsuc 2);
  payload =
      entry_bytes Sync.Message.ht (i64_bytes (pos 7))
      ++ entry_bytes Sync.Message.pgt (i64_bytes (negsuc 2));
}

abbrev answer : Pong
answer = record { session = node_b; ghost_time = negsuc 40; echo = echoed.payload }

measurement_round_example :
    (received : Ping) × (reply : Pong) × (Sync.Decode.decode
        (Sync.Encode.encode_ping (pos 7) (some (negsuc 2)))
      ≡ ok (Sync.Message.Message.ping received))
    × (Sync.Decode.decode (Sync.Encode.encode_pong node_b (negsuc 40) received.payload)
        ≡ ok (Sync.Message.Message.pong reply))
    × (reply.session ≡ node_b)
    × (reply.ghost_time ≡ negsuc 40)
    × (Sync.Decode.parse_echo reply.echo ≡ ok (some (pos 7), some (negsuc 2)))
measurement_round_example =
    measurement_round (pos 7) (some (negsuc 2)) node_b (negsuc 40) (omega arith) (omega arith) refl
      (omega arith)

-- A step that adds the sizes up.
abbrev add_size : ℕ → Entry → Result ℕ
add_size n e = ok (n + length e.value)

abbrev announcement : AudioWire.Message.Frame
announcement = record {
  ttl = 5;
  group_id = 0;
  node = node_a;
  message = AudioWire.Message.Message.audio_buffer (record {
    channel = node_a;
    session = node_b;
    chunks = record { seq = 1; num_frames = 2; begin_beats = negsuc 7; tempo = pos 500000 } ∷ [];
    codec = 1;
    sample_rate = 48000;
    num_channels = 1;
    sample_data = 0 ∷ 1 ∷ 2 ∷ 3 ∷ [];
  });
}

announcement-IsFrame : AudioWire.RoundTrip.IsFrame announcement
announcement-IsFrame = record {
  ttl = omega arith;
  group_id = omega arith;
  node = refl;
  message = record {
    channel = refl;
    session = refl;
    some_chunk = omega arith;
    few_chunks = omega arith;
    chunks = (
      record {
        seq = omega arith;
        num_frames = omega arith;
        begin_beats = omega arith;
        tempo = omega arith;
      },
      tt,
    );
    codec = refl;
    sample_rate = omega arith;
    num_channels = omega arith;
    few_bytes = omega arith;
    agree = unfold AudioWire.Message.total_frames in refl;
  };
}

decode-encode_audio_example :
    AudioWire.Decode.decode (AudioWire.Encode.encode announcement) ≡ ok announcement
decode-encode_audio_example = decode-encode_audio announcement announcement-IsFrame
