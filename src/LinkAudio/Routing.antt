-- ===== src/LinkAudio/Routing.antt =====
-- The best path of crates/tactus/src/audio.rs, and the withdrawal of channels in messages within the budget.
use link_wire_rs.Common.{
  ℕ, zero, suc, ◌+◌, ◌*◌, ◌%◌, ◌^◌, ◌≤◌, ◌≡◌, refl, ap, ◌∙◌, List, [], ◌∷◌, ◌++◌, length, take,
  drop, length-append, length-take, length-drop, take-append-drop, All-take, All-drop, arith, All,
}
use link_wire_rs.Common.Bytes.{to_be_bytes, length-to_be_bytes}
use link_wire_rs.Codec.EntryBytes.{entry_bytes, length-entry_bytes}
use link_wire_rs.Common.Int.{ℤ}
use link_wire_rs.Common.Maps.{get}
use link_wire_rs.Codec.Error.{ok}
use link_wire_rs.Types.Id.{LinkId}
use link_wire_rs.AudioWire.Message.{new_frame, channel_byes, max_payload, ttl_seconds, aucb}
use link_wire_rs.AudioWire.Decode.{decode}
use link_wire_rs.AudioWire.Encode.{message_type}
use link_wire_rs.AudioWire.Bytes.{ids_bytes, id_list_bytes, encode_lem}
use link_wire_rs.AudioWire.RoundTrip.{decode-encode_audio, length-frame_bytes}
use link_wire_rs.LinkAudio.State.{PathStats}
use link_wire_rs.LinkAudio.Paths.{quality, best_path}
use link_wire_rs.LinkAudio.Offers.{IsBest, paths_to-IsBest}
use link_wire_rs.LinkAudio.Requests.{per_message, id_chunks, byes}
use link_wire_rs.Engine.State.{PeerEntry, key_eq}

-- The best path to a node is none where no entry of a peer with the node's id has an audio endpoint; else it is the
-- gateway and the audio endpoint of such an entry, none is better, and of equally good ones it is the last.
pub best_path_lem :
    (rank : List ℤ → ℤ) (peers : List ((LinkId × ℕ) × PeerEntry))
    (paths : List ((LinkId × ℕ) × PathStats)) (node : LinkId)
    → IsBest
        (λ q. quality rank (get (node, q.0) paths))
        node
        peers
        (best_path rank peers paths node)
unfolding best_path
best_path_lem rank peers paths node =
    paths_to-IsBest (λ q. quality rank (get (node, q.0) paths)) node peers

abbrev pub concat : List (List LinkId) → List LinkId
concat [] = []
concat (ids ∷ rest) = ids ++ concat rest

-- With as much fuel as there are ids the chunks are all of them, in order.
pub concat-id_chunks : (n : ℕ) (ids : List LinkId) → length ids ≤ n → concat (id_chunks n ids) ≡ ids
unfolding id_chunks
concat-id_chunks zero [] h = refl
concat-id_chunks zero (i ∷ ids) h = absurd (omega arith)
concat-id_chunks (suc n) [] h = refl
concat-id_chunks (suc n) (i ∷ ids) h =
    ap (λ xs. take per_message (i ∷ ids) ++ xs)
      (concat-id_chunks n (drop per_message (i ∷ ids))
        (omega (arith, length-drop per_message (i ∷ ids))))
    ∙ take-append-drop per_message (i ∷ ids)

-- Every message names as many channels as the budget has room for at most.
pub id_chunks-fit :
    (n : ℕ) (ids : List LinkId)
    → All (λ i. length i ≡ 8) ids
    → All (λ c. (length c ≤ per_message) × All (λ i. length i ≡ 8) c) (id_chunks n ids)
unfolding id_chunks
id_chunks-fit zero ids h = tt
id_chunks-fit (suc n) [] h = tt
id_chunks-fit (suc n) (i ∷ ids) h = (
  (
    omega (arith, length-take per_message (i ∷ ids)),
    All-take (λ j. length j ≡ 8) per_message (i ∷ ids) h,
  ),
  id_chunks-fit n (drop per_message (i ∷ ids))
      (All-drop (λ j. length j ≡ 8) per_message (i ∷ ids) h),
)

length-ids_bytes :
    (ids : List LinkId) → All (λ i. length i ≡ 8) ids → length (ids_bytes ids) ≡ 8 * length ids
length-ids_bytes [] h = omega arith
length-ids_bytes (i ∷ ids) (hi, h) =
    omega (arith, length-append i (ids_bytes ids), hi, length-ids_bytes ids h)

length-id_list_bytes :
    (ids : List LinkId)
    → All (λ i. length i ≡ 8) ids
    → length (id_list_bytes ids) ≡ 4 + 8 * length ids
length-id_list_bytes ids h = omega (
  arith,
  length-append (to_be_bytes 4 (length ids % 2 ^ 32)) (ids_bytes ids),
  length-to_be_bytes 4 (length ids % 2 ^ 32),
  length-ids_bytes ids h,
)

-- A message of withdrawals decodes to them, and is within the payload budget.
pub byes_lem :
    (node : LinkId) (ids : List LinkId)
    → length node ≡ 8
    → length ids ≤ per_message
    → All (λ i. length i ≡ 8) ids
    → (decode (byes node ids) ≡ ok (new_frame node (channel_byes ids)))
      × (length (byes node ids) ≤ 20 + max_payload)
unfolding byes new_frame
byes_lem node ids n l h = (
  decode-encode_audio (new_frame node (channel_byes ids)) (record {
    ttl = omega arith;
    group_id = omega arith;
    node = n;
    message = (h, omega arith, omega (arith, length-id_list_bytes ids h));
  }),
  omega (
    arith,
    ap length (encode_lem (new_frame node (channel_byes ids))),
    length-frame_bytes (message_type (channel_byes ids)) ttl_seconds 0 node
        (entry_bytes aucb (id_list_bytes ids)) n,
    length-entry_bytes aucb (id_list_bytes ids),
    length-id_list_bytes ids h,
  ),
)

all-byes :
    (node : LinkId) (chunks : List (List LinkId))
    → length node ≡ 8
    → All (λ c. (length c ≤ per_message) × All (λ i. length i ≡ 8) c) chunks
    → All
        (λ c.
          (decode (byes node c) ≡ ok (new_frame node (channel_byes c)))
          × (length (byes node c) ≤ 20 + max_payload))
        chunks
all-byes node [] n h = tt
all-byes node (c ∷ chunks) n ((l, k), h) = (byes_lem node c n l k, all-byes node chunks n h)

-- The messages that withdraw some channels decode, name between them all of the channels in order, and are 1196
-- bytes long at most.
pub withdrawal_round :
    (node : LinkId) (ids : List LinkId)
    → length node ≡ 8
    → All (λ i. length i ≡ 8) ids
    → (concat (id_chunks (length ids) ids) ≡ ids)
      × All
          (λ c.
            (decode (byes node c) ≡ ok (new_frame node (channel_byes c)))
            × (length (byes node c) ≤ 20 + max_payload))
          (id_chunks (length ids) ids)
withdrawal_round node ids n h = (
  concat-id_chunks (length ids) ids (omega arith),
  all-byes node (id_chunks (length ids) ids) n (id_chunks-fit (length ids) ids h),
)
