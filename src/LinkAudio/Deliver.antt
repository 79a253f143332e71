-- ===== src/LinkAudio/Deliver.antt =====
-- `deliver` of crates/tactus/src/audio.rs: the chunks of a received buffer go to the inbox of a source,
-- and gaps in their numbers are counted.
use link_wire_rs.Common.{
  ℕ, ◌+◌, ◌-◌, ◌*◌, ◌%◌, ◌^◌, List, [], ◌∷◌, ◌++◌, none, some, leb, if◌then◌else◌, max, length,
  take, drop,
}
use link_wire_rs.Common.Int.{ℤ}
use link_wire_rs.Types.Timeline.{Timeline}
use link_wire_rs.Math.Word.{◌+w◌}
use link_wire_rs.Math.Grid.{session_offset}
use link_wire_rs.AudioWire.Message.{AudioBuffer, Chunk}
use link_wire_rs.AudioWire.Samples.{samples}
use link_wire_rs.LinkAudio.State.{Source, ReceivedChunk, inbox_limit}

-- The `match` on the expected number; the counters are `u64`.
unfoldable pub count_losses : ℕ → Source → Source
count_losses seq source = elim source.next_seq_expected [
  | none ↦ record source { next_seq_expected = some ((seq + 1) % 2 ^ 64) }
  | some expected ↦
      if leb expected seq
      then record source {
        lost_chunks = (source.lost_chunks + (seq - expected)) % 2 ^ 64;
        next_seq_expected = some ((seq + 1) % 2 ^ 64);
      }
      else record source { lost_chunks = source.lost_chunks - 1 }
]

-- The loop over the chunks: `rest` are the samples from `at` on.
unfoldable pub deliver_loop : AudioBuffer → ℤ → ℕ → List Chunk → List ℤ → Source → Source
deliver_loop buf delta ch [] rest source = source
deliver_loop buf delta ch (c ∷ cs) rest source =
    let counted = count_losses c.seq source in
    let n = c.num_frames * ch in
    let received : ReceivedChunk = record {
      samples = take n rest;
      begin_app_beat = c.begin_beats +w delta;
      tempo_micros_per_beat = c.tempo;
      sample_rate = buf.sample_rate;
      channels = buf.num_channels;
      seq = c.seq;
    } in
    deliver_loop buf delta ch cs (drop n rest)
      (record counted { inbox = counted.inbox ++ (received ∷ []) })

unfoldable pub deliver : Source → AudioBuffer → Timeline → ℤ → Source
deliver source buf timeline now =
    let delta = session_offset timeline source.quantum in
    let done =
      deliver_loop buf delta (max buf.num_channels 1) buf.chunks (samples buf.sample_data) source in
    record done { inbox = drop (length done.inbox - inbox_limit) done.inbox; last_buffer_at = now }
