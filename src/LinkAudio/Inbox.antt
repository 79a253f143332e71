-- ===== src/LinkAudio/Inbox.antt =====
-- What `deliver` of crates/tactus/src/audio.rs hands on, and what it counts as lost.
use link_wire_rs.Common.{
  ℕ, suc, ◌+◌, ◌-◌, ◌*◌, ◌^◌, ◌≤◌, ◌<◌, ◌≡◌, refl, sym, ap, ◌∙◌, List, [], ◌∷◌, ◌++◌, append_assoc,
  append-nil, some, max, length, take, drop, length-drop, arith,
}
use link_wire_rs.Common.Int.{ℤ}
use link_wire_rs.Types.Timeline.{Timeline}
use native.Mathlib.Nat.{mod-eq_of_lt}
use link_wire_rs.Math.Word.{◌+w◌}
use link_wire_rs.Math.Grid.{session_offset}
use link_wire_rs.AudioWire.Message.{AudioBuffer, Chunk}
use link_wire_rs.AudioWire.Samples.{samples}
use link_wire_rs.LinkAudio.State.{Source, ReceivedChunk, inbox_limit}
use link_wire_rs.LinkAudio.Deliver.{count_losses, deliver_loop, deliver}

-- The units that a buffer comes to: one to a chunk, in order, each with its own part of the samples.
abbrev pub units : AudioBuffer → ℤ → ℕ → List Chunk → List ℤ → List ReceivedChunk
units buf delta ch [] rest = []
units buf delta ch (c ∷ cs) rest =
    record {
      samples = take (c.num_frames * ch) rest;
      begin_app_beat = c.begin_beats +w delta;
      tempo_micros_per_beat = c.tempo;
      sample_rate = buf.sample_rate;
      channels = buf.num_channels;
      seq = c.seq;
    }
    ∷ units buf delta ch cs (drop (c.num_frames * ch) rest)

inbox-count_losses : (seq : ℕ) (s : Source) → (count_losses seq s).inbox ≡ s.inbox
unfolding count_losses
inbox-count_losses seq s = ground arith

inbox-deliver_loop :
    (buf : AudioBuffer) (delta : ℤ) (ch : ℕ) (cs : List Chunk) (rest : List ℤ) (s : Source)
    → (deliver_loop buf delta ch cs rest s).inbox ≡ s.inbox ++ units buf delta ch cs rest
unfolding deliver_loop
inbox-deliver_loop buf delta ch [] rest s = sym (append-nil s.inbox)
inbox-deliver_loop buf delta ch (c ∷ cs) rest s =
    inbox-deliver_loop buf delta ch cs (drop (c.num_frames * ch) rest) _
    ∙ append_assoc (count_losses c.seq s).inbox _ _
    ∙ ap (λ i. i ++ units buf delta ch (c ∷ cs) rest) (inbox-count_losses c.seq s)

-- The old inbox followed by the buffer's units.
abbrev pub all_units : Source → AudioBuffer → Timeline → List ReceivedChunk
all_units source buf timeline =
    source.inbox
    ++ units buf (session_offset timeline source.quantum) (max buf.num_channels 1) buf.chunks
        (samples buf.sample_data)

limited : (xs : List ReceivedChunk) → length (drop (length xs - inbox_limit) xs) ≤ inbox_limit
limited xs = omega (arith, length-drop (length xs - inbox_limit) xs)

-- The inbox after a buffer is the old one followed by the buffer's units, less the oldest where there are more
-- than 256.
pub deliver_inbox :
    (source : Source) (buf : AudioBuffer) (timeline : Timeline) (now : ℤ)
    → ((deliver source buf timeline now).inbox
        ≡ drop
            (length (all_units source buf timeline) - inbox_limit)
            (all_units source buf timeline))
      × (length (deliver source buf timeline now).inbox ≤ inbox_limit)
unfolding deliver
deliver_inbox source buf timeline now =
    rw
      (inbox-deliver_loop buf (session_offset timeline source.quantum) (max buf.num_channels 1)
        buf.chunks (samples buf.sample_data) source)
      (refl, limited (all_units source buf timeline))

-- Chunks numbered one after the other, from `n` on, all below 2^64 - 1.
abbrev pub Consecutive : ℕ → List Chunk → Type 0
Consecutive n [] = Unit
Consecutive n (c ∷ cs) = (c.seq ≡ n) × (suc n < 2 ^ 64) × Consecutive (suc n) cs

losses-count_losses :
    (n : ℕ) (s : Source)
    → s.next_seq_expected ≡ some n
    → suc n < 2 ^ 64
    → s.lost_chunks < 2 ^ 64
    → ((count_losses n s).lost_chunks ≡ s.lost_chunks)
      × ((count_losses n s).next_seq_expected ≡ some (suc n))
unfolding count_losses
losses-count_losses n s e h k = rw e (ground (arith, mod-eq_of_lt k, mod-eq_of_lt h))

-- `s` expects `n` and has lost what `t` has lost.
losses-loop :
    (buf : AudioBuffer) (delta : ℤ) (ch : ℕ) (n : ℕ) (cs : List Chunk) (rest : List ℤ) (s : Source)
    → Consecutive n cs
    → s.next_seq_expected ≡ some n
    → s.lost_chunks < 2 ^ 64
    → ((deliver_loop buf delta ch cs rest s).lost_chunks ≡ s.lost_chunks)
      × ((deliver_loop buf delta ch cs rest s).next_seq_expected ≡ some (n + length cs))
unfolding deliver_loop
losses-loop buf delta ch n [] rest s h e k = (refl, e ∙ ap some (omega arith))
losses-loop buf delta ch n (c ∷ cs) rest s (here, small, h) e k =
    let (same, next) = losses-count_losses c.seq s (e ∙ ap some (sym here)) (omega arith) k in
    let (same', next') =
      losses-loop buf delta ch (suc n) cs (drop (c.num_frames * ch) rest) _ h
        (next ∙ ap some (omega arith)) (omega (arith, same)) in
    (same' ∙ same, next' ∙ ap some (omega arith))

-- A buffer whose chunks have consecutive numbers from the one that the source expects on, below
-- 2^64 - 1, adds no loss, and the source then expects the number after the last.
pub deliver_lossless :
    (source : Source) (buf : AudioBuffer) (timeline : Timeline) (now : ℤ) (n : ℕ)
    → Consecutive n buf.chunks
    → source.next_seq_expected ≡ some n
    → source.lost_chunks < 2 ^ 64
    → ((deliver source buf timeline now).lost_chunks ≡ source.lost_chunks)
      × ((deliver source buf timeline now).next_seq_expected ≡ some (n + length buf.chunks))
unfolding deliver
deliver_lossless source buf timeline now n h e k =
    losses-loop buf (session_offset timeline source.quantum) (max buf.num_channels 1) n buf.chunks
      (samples buf.sample_data) source h e k
