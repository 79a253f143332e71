-- ===== src/LinkAudio/Round.antt =====
-- An announcement round of crates/tactus/src/audio.rs lists every channel once.
use link_wire_rs.Common.{
  ℕ, zero, suc, ◌≤◌, ◌≡◌, refl, ap, ◌∙◌, List, [], ◌∷◌, ◌++◌, append_assoc, length, length-append,
  Option, none, some, false, All, Bool-cases, inl, inr, arith,
}
use link_wire_rs.Common.Int.{ℤ}
use link_wire_rs.Types.Id.{LinkId}
use link_wire_rs.AudioWire.Message.{ChannelInfo}
use link_wire_rs.LinkAudio.State.{AudioState, Sink}
use link_wire_rs.LinkAudio.Announce.{
  is_over, fill, Part, finish_round, round_loop, channel_infos, encode_parts, encode_round,
  announcing, build_announcement_round,
}

-- The channels of all messages, in order.
abbrev pub listed : List Part → List ChannelInfo
listed [] = []
listed (p ∷ ps) = p.0 ++ listed ps

fill_lem :
    (bytes : List ChannelInfo → List ℕ) (taken remaining : List ChannelInfo)
    → (fill bytes taken remaining).0 ++ (fill bytes taken remaining).1 ≡ taken ++ remaining
unfolding fill
fill_lem bytes taken [] = refl
fill_lem bytes taken (ch ∷ remaining) = elim (Bool-cases (is_over bytes (taken ++ (ch ∷ [])))) [
  | inl over ↦ rw over
  | inr room ↦
      rw room
        (fill_lem bytes (taken ++ (ch ∷ [])) remaining ∙ append_assoc taken (ch ∷ []) remaining)
]

length-fill :
    (bytes : List ChannelInfo → List ℕ) (taken remaining : List ChannelInfo)
    → length taken ≤ length (fill bytes taken remaining).0
unfolding fill
length-fill bytes taken [] = omega arith
length-fill bytes taken (ch ∷ remaining) = elim (Bool-cases (is_over bytes (taken ++ (ch ∷ [])))) [
  | inl over ↦ rw over (omega arith)
  | inr room ↦ rw room (
      omega
        (arith, length-append taken (ch ∷ []), length-fill bytes (taken ++ (ch ∷ [])) remaining))
]

one_fits : (bytes : List ChannelInfo → List ℕ) (ch : ChannelInfo) → is_over bytes (ch ∷ []) ≡ false
unfolding is_over
one_fits bytes ch = ground arith

-- A message takes a channel where there is one.
fill_takes :
    (bytes : List ChannelInfo → List ℕ) (ch : ChannelInfo) (remaining : List ChannelInfo)
    → 1 ≤ length (fill bytes [] (ch ∷ remaining)).0
unfolding fill
fill_takes bytes ch remaining = rw (one_fits bytes ch) (length-fill bytes (ch ∷ []) remaining)

fill_shrinks :
    (bytes : List ChannelInfo → List ℕ) (remaining : List ChannelInfo) (n : ℕ)
    → length remaining ≤ suc n
    → length (fill bytes [] remaining).1 ≤ n
fill_shrinks bytes [] n h = unfold fill in omega arith
fill_shrinks bytes (ch ∷ remaining) n h = omega (
  arith,
  fill_takes bytes ch remaining,
  length-append (fill bytes [] (ch ∷ remaining)).0 (fill bytes [] (ch ∷ remaining)).1,
  ap length (fill_lem bytes [] (ch ∷ remaining)),
)

-- A round of messages that list the channels in order, the ping in the first alone.
abbrev pub Lists : Option ℤ → List ChannelInfo → Option (List Part) → Type 0
Lists ping channels round =
    (taken : List ChannelInfo) × (parts : List Part) × (round ≡ some ((taken, ping) ∷ parts))
    × (taken ++ listed parts ≡ channels)
    × All (λ p. p.1 ≡ none) parts

finish-Lists :
    (rest : List ChannelInfo → Option (List Part)) (m : ℕ) (ping : Option ℤ)
    (channels : List ChannelInfo) (f : List ChannelInfo × List ChannelInfo)
    → f.0 ++ f.1 ≡ channels
    → length f.1 ≤ m
    → ((l : List ChannelInfo) → length l ≤ m → Lists none l (rest l))
    → Lists ping channels (finish_round f ping rest)
finish-Lists rest m ping channels (taken, []) e h ih = (taken, [], refl, e, tt)
finish-Lists rest m ping channels (taken, ch ∷ chs) e h ih =
    let (t, ps, r, l, q) = ih (ch ∷ chs) h in
    (taken, (t, none) ∷ ps, rw (finish_round, r), ap (λ x. taken ++ x) l ∙ e, (refl, q))

-- With as much fuel as there are channels, and one more, the loop ends with such a round.
round_loop-Lists :
    (bytes : Option ℤ → List ChannelInfo → List ℕ) (n : ℕ) (ping : Option ℤ)
    (channels : List ChannelInfo)
    → length channels ≤ n
    → Lists ping channels (round_loop bytes (suc n) ping channels)
unfolding round_loop
round_loop-Lists bytes zero ping [] h = unfold fill in ([], [], refl, refl, tt)
round_loop-Lists bytes zero ping (ch ∷ chs) h = absurd (omega arith)
round_loop-Lists bytes (suc m) ping channels h =
    finish-Lists (round_loop bytes (suc m) none) m ping channels (fill (bytes ping) [] channels)
      (fill_lem (bytes ping) [] channels) (fill_shrinks (bytes ping) channels m h)
      (round_loop-Lists bytes m none)

length-channel_infos : (sinks : List Sink) → length (channel_infos sinks) ≡ length sinks
length-channel_infos [] = refl
length-channel_infos (s ∷ sinks) = omega (arith, length-channel_infos sinks)

-- Every announcement round ends. Its messages are the encodings of announcements that between them list all
-- the channels of the peer, each once and in order; the first carries the ping, the others none.
pub announcement_round :
    (node session : LinkId) (audio : AudioState) (at : ℤ)
    → (taken : List ChannelInfo) × (parts : List Part) × (build_announcement_round node session
          audio at
        ≡ some (encode_parts (announcing node session audio) ((taken, some at) ∷ parts)))
      × (taken ++ listed parts ≡ channel_infos audio.sinks)
      × All (λ p. p.1 ≡ none) parts
unfolding build_announcement_round
announcement_round node session audio at =
    let (taken, parts, made, all, quiet) =
      round_loop-Lists (announcing node session audio) (length audio.sinks) (some at)
        (channel_infos audio.sinks) (omega (arith, length-channel_infos audio.sinks)) in
    (taken, parts, ap (encode_round (announcing node session audio)) made, all, quiet)
