-- ===== src/ServerCheck/Packet.antt =====
-- servercheck/probe.go: `BuildQueryPacket`, `ParseResponse` and the packet reader. Integers of the
-- packet are numbers; `& 0x1F` is written as the remainder by 32.
pub mod Query
pub mod Reader
pub mod Field
pub mod Response
use bee_ba.Common.{
  ℕ, zero, suc, ◌+◌, ◌-◌, ◌*◌, ◌/◌, ◌%◌, ◌^◌, Bool, true, false, ◌&&◌, ◌||◌, not, List, [], ◌∷◌,
  ◌++◌, Result, ok, err, ◌>>=◌, ◌>>◌, fail_if, ltb, ◌==◌, if◌then◌else◌, length, take, drop,
}
use bee_ba.Common.Text.{Bytes, valid_utf8}
use bee_ba.BasisBee.Frame.{le_value, le_bytes}

abbrev pub query_magic : ℕ
query_magic = 0xBA515101

abbrev pub response_magic : ℕ
response_magic = 0xBA515102

abbrev pub info_protocol_version : ℕ
info_protocol_version = 1

abbrev pub min_request_bytes : ℕ
min_request_bytes = 384

abbrev pub property_mask : ℕ
property_mask = 0x1F

abbrev pub unconnected_message : ℕ
unconnected_message = 8

abbrev pub invalid_protocol : ℕ
invalid_protocol = 15

abbrev pub header_size : ℕ
header_size = 1

pub record Info : Type 0 where
  pub online_players : ℕ
  pub max_players : ℕ
  pub protocol_version : ℕ
  pub server_name : Bytes
  pub motd : Bytes
  pub round_trip_ms : ℕ

pub data PacketError : Type 0 where
  truncated rejected bad_property bad_magic bad_nonce : PacketError
  string_truncated string_not_utf8 : PacketError

-- `for len(packet)-1 < 384 { packet = append(packet, 0) }`, with fuel.
unfoldable pub pad_request : ℕ → Bytes → Bytes
pad_request zero packet = packet
pad_request (suc k) packet =
    let padded = pad_request k (packet ++ 0 ∷ []) in
    if ltb (length packet - header_size) min_request_bytes then padded else packet

unfoldable pub build_query_packet : ℕ → Bytes
unfolding pad_request le_bytes
build_query_packet nonce = pad_request min_request_bytes (
    unconnected_message
    ∷ (le_bytes 4 query_magic ++ (le_bytes 2 info_protocol_version ++ le_bytes 2 nonce)))

pub record PacketReader : Type 0 where
  pub buf : Bytes
  pub pos : ℕ

unfoldable pub read_bytes :
    ℕ → PacketError → PacketReader → Result PacketError (Bytes × PacketReader)
read_bytes n e r =
    if ltb (length r.buf - r.pos) n
    then err e
    else ok (take n (drop r.pos r.buf), record r { pos = r.pos + n })

unfoldable pub uint16 : PacketReader → Result PacketError (ℕ × PacketReader)
unfolding read_bytes le_value
uint16 r = do (raw, r') ← read_bytes 2 truncated r; ok (le_value raw, r')

unfoldable pub uint32 : PacketReader → Result PacketError (ℕ × PacketReader)
unfolding read_bytes le_value
uint32 r = do (raw, r') ← read_bytes 4 truncated r; ok (le_value raw, r')

unfoldable pub read_text : ℕ → PacketReader → Result PacketError (Bytes × PacketReader)
unfolding read_bytes
read_text size r = do
  (raw, r') ← read_bytes (size - 1) string_truncated r
  fail_if (not (valid_utf8 raw)) string_not_utf8
  ok (raw, r')

unfoldable pub lite_net_string : PacketReader → Result PacketError (Bytes × PacketReader)
unfolding uint16 read_text
lite_net_string r = do
  (size, r') ← uint16 r
  let text = read_text size r'
  if size == 0 then ok ([], r') else text

unfoldable pub unwrap_packet : Bytes → Result PacketError Bytes
unwrap_packet [] = err truncated
unwrap_packet (first ∷ payload) = do
  let property = first % (property_mask + 1)
  fail_if (property == invalid_protocol) rejected
  fail_if (not (property == unconnected_message)) bad_property
  ok payload

unfoldable pub parse_response : Bytes → ℕ → ℕ → Result PacketError Info
unfolding unwrap_packet uint16 uint32 lite_net_string
parse_response packet expected_nonce round_trip_ms = do
  payload ← unwrap_packet packet
  (magic, r1) ← uint32 (record { buf = payload; pos = 0 })
  fail_if (not (magic == response_magic)) bad_magic
  (protocol, r2) ← uint16 r1
  (nonce, r3) ← uint16 r2
  fail_if (not (nonce == expected_nonce)) bad_nonce
  (online, r4) ← uint16 r3
  (max_players, r5) ← uint16 r4
  (name, r6) ← lite_net_string r5
  (motd, _) ← lite_net_string r6
  ok (record {
    online_players = online;
    max_players = max_players;
    protocol_version = protocol;
    server_name = name;
    motd = motd;
    round_trip_ms = round_trip_ms;
  })

-- The length is a uint16, so that it wraps for a text of 65535 bytes or more.
unfoldable pub append_lite_net_string : Bytes → Bytes → Bytes
unfolding le_bytes
append_lite_net_string packet value =
    if length value == 0
    then packet ++ le_bytes 2 0
    else (packet ++ le_bytes 2 ((length value + 1) % 2 ^ 16)) ++ value
