-- ===== src/AudioWire/Payload.antt =====
-- The messages of crates/tactus-wire/src/audio.rs that are containers of entries decode from their
-- bytes.
use link_wire_rs.Common.{
  ℕ, ◌<◌, ◌^◌, ◌≡◌, refl, ◌∙◌, List, [], Option, none, some, length, append-nil, arith, All,
}
use link_wire_rs.Common.Bytes.{length-to_be_bytes, InI64}
use link_wire_rs.Common.Int.{ℤ}
use link_wire_rs.Codec.Error.{Result, ok}
use link_wire_rs.Codec.Reader
use link_wire_rs.Codec.Reader.{Reader}
use link_wire_rs.Codec.Entries
use link_wire_rs.Codec.Entries.{Entry, scan}
use link_wire_rs.Codec.EntryBytes.{entry_bytes}
use link_wire_rs.Codec.ReadWrite.{i64_bytes, string_bytes, i64_exact, string_exact}
use link_wire_rs.Codec.Scan.{scan-nil, scan-entry_bytes}
use link_wire_rs.Types.Id
use link_wire_rs.Types.Id.{LinkId}
use link_wire_rs.Types.RoundTrip.{decode_exact}
use link_wire_rs.AudioWire.Message.{
  ChannelInfo, peer_announcement, channel_byes, pong, channel_request, stop_channel_request,
  type_channel_request, type_stop_channel_request, sess, pi, auca, aucb, chid, ht,
}
use link_wire_rs.AudioWire.Decode.{
  read_channels, read_ids, Announcement, no_announcement, announcement_step, decode_announcement,
  byes_step, decode_byes, pong_step, decode_pong, request_step, decode_request,
}
use link_wire_rs.AudioWire.Bytes.{channel_list_bytes, id_list_bytes, ping_bytes, message_bytes}
use link_wire_rs.AudioWire.Buffer.{id_read}
use link_wire_rs.AudioWire.Lists.{IsChannelInfo, read_channels-exact, read_ids-exact}

abbrev pub HasI64 : Option ℤ → Type 0
HasI64 none = Unit
HasI64 (some v) = InI64 v

decode-id :
    (key : ℕ) (i : LinkId)
    → length i ≡ 8
    → Entries.decode (record { key = key; value = i }) Id.read ≡ ok i
decode-id key i h = decode_exact key i Id.read i (id_read i [] h)

decode-i64 :
    (key : ℕ) (z : ℤ)
    → InI64 z
    → Entries.decode (record { key = key; value = i64_bytes z }) Reader.i64 ≡ ok z
decode-i64 key z h = decode_exact key (i64_bytes z) Reader.i64 z (i64_exact z [] h)

step-sess :
    (s : Announcement) (i : LinkId)
    → length i ≡ 8
    → announcement_step s (record { key = sess; value = i }) ≡ ok (record s { session = some i })
unfolding announcement_step
step-sess s i h = rw (decode-id sess i h)

step-pi :
    (s : Announcement) (name : List ℕ)
    → length name < 2 ^ 32
    → announcement_step s (record { key = pi; value = string_bytes name })
      ≡ ok (record s { peer_name = name })
unfolding announcement_step
step-pi s name h =
    rw (decode_exact pi (string_bytes name) Reader.string name (string_exact name [] h))

step-auca :
    (s : Announcement) (cs : List ChannelInfo)
    → All IsChannelInfo cs
    → length cs < 2 ^ 32
    → announcement_step s (record { key = auca; value = channel_list_bytes cs })
      ≡ ok (record s { channels = cs })
unfolding announcement_step
step-auca s cs h few =
    rw (decode_exact auca (channel_list_bytes cs) read_channels cs (read_channels-exact cs h few))

step-ht :
    (s : Announcement) (v : ℤ)
    → InI64 v
    → announcement_step s (record { key = ht; value = i64_bytes v })
      ≡ ok (record s { ping = some v })
unfolding announcement_step
step-ht s v h = rw (decode-i64 ht v h)

i64-fits : (z : ℤ) → length (i64_bytes z) < 2 ^ 32
i64-fits z = omega (arith, length-to_be_bytes 8)

scan-ping_bytes :
    (s : Announcement) (ping : Option ℤ)
    → HasI64 ping
    → s.ping ≡ none
    → scan announcement_step s (ping_bytes ping) ≡ ok (record s { ping = ping })
scan-ping_bytes s none h e = rw (← e) (scan-nil announcement_step s)
scan-ping_bytes s (some v) h e = rw (← append-nil (ping_bytes (some v))) (
    scan-entry_bytes announcement_step s ht (i64_bytes v) [] (omega arith) (i64-fits v)
    ∙ rw (step-ht s v h) (scan-nil announcement_step _))

-- An announcement's parts, each of a size that its length field can carry.
pub record IsAnnouncement (i : LinkId) (name : List ℕ) (cs : List ChannelInfo) (t : Option ℤ)
    : Type 0 where
  pub session : length i ≡ 8
  pub peer_name : length name < 2 ^ 32
  pub name_entry : length (string_bytes name) < 2 ^ 32
  pub channels : All IsChannelInfo cs
  pub few_channels : length cs < 2 ^ 32
  pub channels_entry : length (channel_list_bytes cs) < 2 ^ 32
  pub ping : HasI64 t

pub decode_announcement-bytes :
    (session : LinkId) (peer_name : List ℕ) (channels : List ChannelInfo) (ping : Option ℤ)
    → IsAnnouncement session peer_name channels ping
    → decode_announcement (message_bytes (peer_announcement session peer_name channels ping))
      ≡ ok (peer_announcement session peer_name channels ping)
unfolding decode_announcement
decode_announcement-bytes session peer_name channels ping h = rw (
  scan-entry_bytes announcement_step no_announcement sess session _ (omega arith)
      (omega (arith, h.session)),
  step-sess no_announcement session h.session,
  scan-entry_bytes announcement_step (record no_announcement { session = some session }) pi
      (string_bytes peer_name) _ (omega arith) h.name_entry,
  step-pi (record no_announcement { session = some session }) peer_name h.peer_name,
  scan-entry_bytes announcement_step
      (record no_announcement { session = some session; peer_name = peer_name }) auca
      (channel_list_bytes channels) _ (omega arith) h.channels_entry,
  step-auca (record no_announcement { session = some session; peer_name = peer_name }) channels
      h.channels h.few_channels,
  scan-ping_bytes
      (record no_announcement {
        session = some session;
        peer_name = peer_name;
        channels = channels;
      })
      ping h.ping refl,
)

-- The loop over one entry whose step gives `t`.
scan-one {ℓ} :
    {S : Type ℓ} (step : S → Entry → Result S) (s t : S) (key : ℕ) (v : List ℕ)
    → key < 2 ^ 32
    → length v < 2 ^ 32
    → step s (record { key = key; value = v }) ≡ ok t
    → scan step s (entry_bytes key v) ≡ ok t
scan-one step s t key v hk hv e =
    rw (← append-nil (entry_bytes key v))
      (scan-entry_bytes step s key v [] hk hv ∙ rw e (scan-nil step t))

pub decode_byes-bytes :
    (ids : List LinkId)
    → All (λ i. length i ≡ 8) ids
    → length ids < 2 ^ 32
    → length (id_list_bytes ids) < 2 ^ 32
    → decode_byes (message_bytes (channel_byes ids)) ≡ ok (channel_byes ids)
unfolding decode_byes byes_step
decode_byes-bytes ids h few fits = rw (
    scan-one byes_step [] ids aucb (id_list_bytes ids) (omega arith) fits
      (decode_exact aucb (id_list_bytes ids) read_ids ids (read_ids-exact ids h few)))

pub decode_pong-bytes :
    (host_time : ℤ)
    → InI64 host_time
    → decode_pong (message_bytes (pong host_time)) ≡ ok (pong host_time)
unfolding decode_pong pong_step
decode_pong-bytes host_time h = rw (
    scan-one pong_step none (some host_time) ht (i64_bytes host_time) (omega arith)
      (i64-fits host_time) (rw (decode-i64 ht host_time h)))

-- Both kinds of request carry one channel, and the type tells them apart.
scan-request :
    (channel : LinkId)
    → length channel ≡ 8
    → scan request_step none (entry_bytes chid channel) ≡ ok (some channel)
unfolding request_step
scan-request channel h =
    scan-one request_step none (some channel) chid channel (omega arith) (omega (arith, h))
      (rw (decode-id chid channel h))

pub decode_request-bytes :
    (channel : LinkId)
    → length channel ≡ 8
    → (decode_request type_channel_request (message_bytes (channel_request channel))
        ≡ ok (channel_request channel))
      × (decode_request type_stop_channel_request (message_bytes (stop_channel_request channel))
          ≡ ok (stop_channel_request channel))
unfolding decode_request
decode_request-bytes channel h = (rw (scan-request channel h), rw (scan-request channel h))
