-- ===== src/LinkAudio/Announce.antt =====
-- The announcement rounds of crates/tactus/src/audio.rs: the full list of channels, split across messages
-- within the payload budget.
use link_wire_rs.Common.{
  ℕ, zero, suc, ◌+◌, List, [], ◌∷◌, ◌++◌, length, Option, none, some, Bool, ◌&&◌, ltb,
  if◌then◌else◌,
}
use link_wire_rs.Common.Int.{ℤ}
use link_wire_rs.Types.Id.{LinkId}
use link_wire_rs.AudioWire.Message.{ChannelInfo, peer_announcement, new_frame, max_payload}
use link_wire_rs.AudioWire.Encode.{encode}
use link_wire_rs.LinkAudio.State.{AudioState, Sink}

unfoldable pub encode_announcement : LinkId → LinkId → List ℕ → List ChannelInfo → Option ℤ → List ℕ
encode_announcement node session peer_name channels ping =
    encode (new_frame node (peer_announcement session peer_name channels ping))

-- The message that `taken` would make is over the budget, and has more than one channel to shed.
unfoldable pub is_over : (List ChannelInfo → List ℕ) → List ChannelInfo → Bool
is_over bytes taken = ltb (20 + max_payload) (length (bytes taken)) && ltb 1 (length taken)

-- The inner loop: what one message takes, and what remains.
unfoldable pub fill :
    (List ChannelInfo → List ℕ)
    → List ChannelInfo
    → List ChannelInfo
    → List ChannelInfo × List ChannelInfo
fill bytes taken [] = (taken, [])
fill bytes taken (ch ∷ remaining) =
    let more = fill bytes (taken ++ (ch ∷ [])) remaining in
    if is_over bytes (taken ++ (ch ∷ [])) then (taken, ch ∷ remaining) else more

-- A message of a round: its channels and its ping.
abbrev pub Part : Type 0
Part = List ChannelInfo × Option ℤ

-- The round ends where nothing remains.
abbrev pub finish_round :
    List ChannelInfo × List ChannelInfo
    → Option ℤ
    → (List ChannelInfo → Option (List Part))
    → Option (List Part)
finish_round (taken, []) ping rest = some ((taken, ping) ∷ [])
finish_round (taken, ch ∷ remaining) ping rest = elim (rest (ch ∷ remaining)) [
  | none ↦ none
  | some parts ↦ some ((taken, ping) ∷ parts)
]

-- The outer loop on fuel, `none` where it runs out. Only the first message carries the ping.
unfoldable pub round_loop :
    (Option ℤ → List ChannelInfo → List ℕ) → ℕ → Option ℤ → List ChannelInfo → Option (List Part)
round_loop bytes zero ping remaining = none
round_loop bytes (suc n) ping remaining =
    finish_round (fill (bytes ping) [] remaining) ping (round_loop bytes n none)

abbrev pub channel_infos : List Sink → List ChannelInfo
channel_infos [] = []
channel_infos (s ∷ sinks) = record { name = s.name; id = s.id } ∷ channel_infos sinks

abbrev pub encode_parts : (Option ℤ → List ChannelInfo → List ℕ) → List Part → List (List ℕ)
encode_parts bytes [] = []
encode_parts bytes (p ∷ ps) = bytes p.1 p.0 ∷ encode_parts bytes ps

abbrev pub encode_round :
    (Option ℤ → List ChannelInfo → List ℕ) → Option (List Part) → Option (List (List ℕ))
encode_round bytes none = none
encode_round bytes (some parts) = some (encode_parts bytes parts)

abbrev pub announcing : LinkId → LinkId → AudioState → Option ℤ → List ChannelInfo → List ℕ
announcing node session audio ping taken =
    encode_announcement node session audio.peer_name taken ping

unfoldable pub build_announcement_round : LinkId → LinkId → AudioState → ℤ → Option (List (List ℕ))
build_announcement_round node session audio at = encode_round (announcing node session audio) (
    round_loop (announcing node session audio) (suc (length audio.sinks)) (some at)
      (channel_infos audio.sinks))
