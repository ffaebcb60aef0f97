-- ===== src/ServerCheck/Tests.antt =====
-- Runs of the server check at concrete inputs.
use bee_ba.Common.{◌≡◌, refl, true, false, none, some, [], ◌∷◌, ◌++◌, ok, arith, length, replicate}
use bee_ba.Common.Text.{
  Bytes, Tables, utf8, valid_utf8, rune_len, rune_count, trim_space, trim_by, space_len,
  space_len_back, to_lower, runes, rune_lower, encode_runes, bytes_eq,
}
use bee_ba.BasisBee.Frame.{le_value, le_bytes}
use bee_ba.Servers.Endpoint.{validate_endpoint_shape, has_url_syntax}
use bee_ba.Servers.Address.{
  v4, IpText, validate_for_public_check, is_localhost, has_suffix, validate_slice,
  validate_public_ip, unmap, is_loopback, is_private, is_link_local_unicast,
  is_link_local_multicast, is_multicast, is_unspecified, is_interface_local_multicast,
}
use bee_ba.ServerCheck.Packet.{
  Info, parse_response, unwrap_packet, uint16, uint32, read_bytes, read_text, lite_net_string,
  build_query_packet, query_magic, info_protocol_version, unconnected_message,
}
use bee_ba.ServerCheck.Packet.Query.{build_query_packet_lem}
use bee_ba.ServerCheck.Packet.Response.{IsResponse, parse_response_iff}
use bee_ba.ServerCheck.Probe.{Network, Sent, probe, select}
use bee_ba.ServerCheck.Probe.Target.{AtMostOne, IsSafeSend, probe-IsSafeSend}

abbrev pub plain_tables : Tables
plain_tables = record { lower = λ c. c; letter = λ c. false; digit = λ c. false }

build_query_packet_lem_example :
    (build_query_packet 7
      ≡ unconnected_message
        ∷ (le_bytes 4 query_magic
            ++ (le_bytes 2 info_protocol_version ++ (le_bytes 2 7 ++ replicate 376 0))))
    × (length (build_query_packet 7) ≡ 385)
build_query_packet_lem_example = build_query_packet_lem 7

-- Three players of ten on a server called "Lamp", with no message of the day.
abbrev pub sample_answer : Bytes
sample_answer =
    8
    ∷ (2
        ∷ (81
            ∷ (81
                ∷ (186
                    ∷ (1
                        ∷ (0
                            ∷ (7
                                ∷ (0
                                    ∷ (3
                                        ∷ (0
                                            ∷ (10
                                                ∷ (0
                                                    ∷ (5
                                                        ∷ (0
                                                            ∷ (utf8 "Lamp"
                                                            ++ (0 ∷ (0 ∷ [])))))))))))))))))

abbrev pub sample_info : Info
sample_info = record {
  online_players = 3;
  max_players = 10;
  protocol_version = 1;
  server_name = utf8 "Lamp";
  motd = [];
  round_trip_ms = 20;
}

answer_run : parse_response sample_answer 7 20 ≡ ok sample_info
unfolding parse_response unwrap_packet uint32 uint16 read_bytes le_value lite_net_string read_text
    valid_utf8 rune_len
answer_run = refl

parse_response_iff_example :
    IsResponse sample_answer 7 sample_info × (sample_info.round_trip_ms ≡ 20)
parse_response_iff_example =
    (parse_response_iff sample_answer 7 20 sample_info (ground arith)).0 answer_run

-- The host has a private address and a public one.
abbrev pub sample_ip : IpText
sample_ip = record {
  parse_addr = λ t. elim (bytes_eq t (utf8 "10.0.0.1")) [
    | true ↦ some (v4 10 0 0 1)
    | false ↦ elim (bytes_eq t (utf8 "8.8.4.4")) [ true ↦ some (v4 8 8 4 4) | false ↦ none ]
  ];
  parse_ip = λ t. none;
}

abbrev pub sample_network : Network
sample_network = record {
  lookup = λ host. some (utf8 "10.0.0.1" ∷ (utf8 "8.8.4.4" ∷ []));
  nonce = some 7;
  answer = λ s. some (some sample_answer);
  round_trip_ms = 20;
}

abbrev pub sample_query : Sent
sample_query = record { address = utf8 "8.8.4.4"; port = 4296; packet = build_query_packet 7 }

probe_run :
    probe plain_tables sample_ip sample_network (utf8 "a.b") 4296
    ≡ (sample_query ∷ [], ok sample_info)
unfolding probe select validate_for_public_check validate_endpoint_shape has_url_syntax rune_count
    rune_len to_lower runes rune_lower encode_runes trim_space trim_by space_len space_len_back
    is_localhost has_suffix bytes_eq validate_slice validate_public_ip unmap is_loopback is_private
    is_link_local_unicast is_link_local_multicast is_multicast is_unspecified
    is_interface_local_multicast parse_response unwrap_packet uint32 uint16 read_bytes le_value
    lite_net_string read_text valid_utf8
probe_run = refl

probe-IsSafeSend_example :
    AtMostOne
      (IsSafeSend plain_tables sample_ip sample_network (utf8 "a.b") 4296)
      (probe plain_tables sample_ip sample_network (utf8 "a.b") 4296).0
probe-IsSafeSend_example = probe-IsSafeSend plain_tables sample_ip sample_network (utf8 "a.b") 4296
