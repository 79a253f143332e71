-- ===== src/AudioWire/Lists.antt =====
-- The lists of channels and of ids in crates/tactus-wire/src/audio.rs read back from their bytes.
use link_wire_rs.Common.{
  ℕ, ◌<◌, ◌%◌, ◌^◌, ◌≡◌, refl, List, [], ◌∷◌, ◌++◌, length, length-append, append_assoc, false,
  arith, All,
}
use native.Mathlib.Nat.{mod-eq_of_lt}
use link_wire_rs.Common.Bytes.{to_be_bytes, length-to_be_bytes}
use link_wire_rs.Codec.Error.{ok}
use link_wire_rs.Codec.Reader
use link_wire_rs.Codec.Reader.{Reader}
use link_wire_rs.Codec.ReadWrite.{string_bytes, u32_exact, string_exact}
use link_wire_rs.Types.Id.{LinkId}
use link_wire_rs.AudioWire.Message.{ChannelInfo}
use link_wire_rs.AudioWire.Decode.{channels_loop, ids_loop, read_channels, read_ids}
use link_wire_rs.AudioWire.Bytes.{channels_bytes, ids_bytes, channel_list_bytes, id_list_bytes}
use link_wire_rs.AudioWire.Buffer.{id_read}

-- An id of eight bytes behind a name that its length prefix can carry.
pub record IsChannelInfo (ch : ChannelInfo) : Type 0 where
  pub name : length ch.name < 2 ^ 32
  pub id : length ch.id ≡ 8

string_bytes-full : (s rest : List ℕ) → Reader.is_empty (string_bytes s ++ rest) ≡ false
string_bytes-full s rest = full (string_bytes s ++ rest) (
    omega (
      arith,
      length-append (string_bytes s) rest,
      length-append (to_be_bytes 4 (length s % 2 ^ 32)) s,
      length-to_be_bytes 4 (length s % 2 ^ 32),
    ))
  where
    full : (r : List ℕ) → 0 < length r → Reader.is_empty r ≡ false
    full [] h = absurd (omega arith)
    full (b ∷ bs) h = refl

id-full : (i rest : List ℕ) → length i ≡ 8 → Reader.is_empty (i ++ rest) ≡ false
id-full [] rest h = absurd (omega arith)
id-full (b ∷ bs) rest h = refl

channels_loop-exact :
    (cs : List ChannelInfo) (rest : List ℕ)
    → All IsChannelInfo cs
    → channels_loop (length cs) (channels_bytes cs ++ rest) ≡ ok (cs, rest)
unfolding channels_loop
channels_loop-exact [] rest h = refl
channels_loop-exact (c ∷ cs) rest (hc, h) = rw (
  append_assoc,
  string_bytes-full c.name,
  string_exact c.name _ hc.name,
  append_assoc,
  id_read c.id _ hc.id,
  channels_loop-exact cs rest h,
)

ids_loop-exact :
    (is : List LinkId) (rest : List ℕ)
    → All (λ i. length i ≡ 8) is
    → ids_loop (length is) (ids_bytes is ++ rest) ≡ ok (is, rest)
unfolding ids_loop
ids_loop-exact [] rest h = refl
ids_loop-exact (i ∷ is) rest (hi, h) =
    rw (append_assoc, id-full i _ hi, id_read i _ hi, ids_loop-exact is rest h)

-- The closures read the lists back to the end of the value.
pub read_channels-exact :
    (cs : List ChannelInfo)
    → All IsChannelInfo cs
    → length cs < 2 ^ 32
    → read_channels (channel_list_bytes cs ++ []) ≡ ok (cs, [])
unfolding read_channels
read_channels-exact cs h few =
    rw (append_assoc, mod-eq_of_lt few, u32_exact (length cs) _ few, channels_loop-exact cs [] h)

pub read_ids-exact :
    (is : List LinkId)
    → All (λ i. length i ≡ 8) is
    → length is < 2 ^ 32
    → read_ids (id_list_bytes is ++ []) ≡ ok (is, [])
unfolding read_ids
read_ids-exact is h few =
    rw (append_assoc, mod-eq_of_lt few, u32_exact (length is) _ few, ids_loop-exact is [] h)
