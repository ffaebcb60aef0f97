-- ===== src/Servers/Tests.antt =====
-- Runs of the server values at concrete inputs.
use bee_ba.Common.{◌≡◌, refl, Bool, false, none, some, ok}
use bee_ba.Common.Text.{Tables, utf8, trim_space, to_lower, rune_count, valid_utf8}
use bee_ba.Servers.Endpoint.{
  parse_connection_string, connection_string, validate_endpoint_shape, normalize_host,
  has_url_syntax, contains_byte, parse_port, decimal, split_password, split_host, split_bracketed,
  split_plain, bracket_port, cut_first, cut_last, parse_uint16, bracket, password_suffix,
}
use bee_ba.Common.{arith, []}
use bee_ba.Common.Text.{trim_by, space_len, space_len_back}
use bee_ba.Servers.Endpoint.{Endpoint}
use bee_ba.Servers.Endpoint.RoundTrip.{IsCanonical, parse-connection_string}
use bee_ba.Servers.Endpoint.Shape.{IsEndpoint, parse_connection_string-IsEndpoint}
use bee_ba.Servers.Address.{
  Groups, v4, v6, validate_public_ip, unmap, is_loopback, is_private, is_link_local_unicast,
  is_link_local_multicast, is_multicast, is_unspecified, is_interface_local_multicast,
}
use bee_ba.Servers.Address.Ranges.{
  IsPublicV4, IsPublicV6, mapped, validate_public_ip-v4, validate_public_ip-mapped,
  validate_public_ip-v6,
}

-- No letter beyond ASCII has a lower case of its own.
abbrev plain_tables : Tables
plain_tables = record { lower = λ c. c; letter = λ c. false; digit = λ c. false }

parse_with_port :
    parse_connection_string plain_tables (utf8 " Example.com:4300#p w ")
    ≡ ok (record { host = utf8 "example.com"; port = 4300; password = some (utf8 "p w") })
unfolding parse_connection_string trim_space to_lower normalize_host validate_endpoint_shape
    rune_count has_url_syntax parse_port split_password split_host split_bracketed split_plain
    bracket_port cut_first cut_last parse_uint16
parse_with_port = refl

parse_ipv6 :
    parse_connection_string plain_tables (utf8 "[2001:DB8::1]")
    ≡ ok (record { host = utf8 "2001:db8::1"; port = 4296; password = none })
unfolding parse_connection_string trim_space to_lower normalize_host validate_endpoint_shape
    rune_count has_url_syntax parse_port split_password split_host split_bracketed split_plain
    bracket_port cut_first cut_last parse_uint16
parse_ipv6 = refl

print_ipv6 :
    connection_string
      (record { host = utf8 "2001:db8::1"; port = 65535; password = some (utf8 "x") })
    ≡ utf8 "[2001:db8::1]:65535#x"
unfolding connection_string bracket password_suffix trim_space contains_byte decimal
print_ipv6 = refl

cyrillic : (rune_count (utf8 "русский") ≡ 7)
unfolding rune_count
cyrillic = refl

cyrillic_valid : (valid_utf8 (utf8 "русский€😀") ≡ Bool.true)
unfolding valid_utf8
cyrillic_valid = refl

abbrev named_endpoint : Endpoint
named_endpoint = record { host = utf8 "a.b"; port = 4300; password = some (utf8 "pw") }

named_endpoint-IsCanonical : IsCanonical named_endpoint
unfolding trim_space trim_by space_len space_len_back
named_endpoint-IsCanonical = record {
  host = record { bytes = ground arith; some_byte = λ e. cc; short = omega arith };
  port_min = omega arith;
  port_max = omega arith;
  password = (refl, refl, λ e. cc);
}

parse-connection_string_example :
    parse_connection_string plain_tables (connection_string named_endpoint) ≡ ok named_endpoint
parse-connection_string_example =
    parse-connection_string plain_tables named_endpoint named_endpoint-IsCanonical

parse_connection_string-IsEndpoint_example :
    IsEndpoint (record { host = utf8 "example.com"; port = 4300; password = some (utf8 "p w") })
parse_connection_string-IsEndpoint_example =
    parse_connection_string-IsEndpoint plain_tables (utf8 " Example.com:4300#p w ") parse_with_port

public_run : validate_public_ip (v4 8 8 4 4) ≡ ok tt
unfolding validate_public_ip unmap is_loopback is_private is_link_local_unicast
    is_link_local_multicast is_multicast is_unspecified is_interface_local_multicast
public_run = refl

validate_public_ip-v4_example : IsPublicV4 8 8 4 4
validate_public_ip-v4_example = (validate_public_ip-v4 8 8 4 4).0 public_run

mapped_run : validate_public_ip (v6 (mapped 8 8 4 4) []) ≡ ok tt
unfolding validate_public_ip unmap is_loopback is_private is_link_local_unicast
    is_link_local_multicast is_multicast is_unspecified is_interface_local_multicast
mapped_run = refl

validate_public_ip-mapped_example : IsPublicV4 8 8 4 4
validate_public_ip-mapped_example =
    (validate_public_ip-mapped 8 8 4 4 [] (omega arith) (omega arith)).0 mapped_run

abbrev global_groups : Groups
global_groups = record {
  g0 = 0x2001;
  g1 = 0x4860;
  g2 = 0;
  g3 = 0;
  g4 = 0;
  g5 = 0;
  g6 = 0;
  g7 = 0x8888;
}

global_run : validate_public_ip (v6 global_groups []) ≡ ok tt
unfolding validate_public_ip unmap is_loopback is_private is_link_local_unicast
    is_link_local_multicast is_multicast is_unspecified is_interface_local_multicast
global_run = refl

validate_public_ip-v6_example : IsPublicV6 global_groups []
validate_public_ip-v6_example =
    (validate_public_ip-v6 global_groups [] (omega arith) (λ m. ground arith)).0 global_run
