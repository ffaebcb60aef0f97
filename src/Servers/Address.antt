-- ===== src/Servers/Address.antt =====
-- domain/servers/server.go: `validatePublicIP` and `ValidateEndpointForPublicCheck`. An address is
-- that of net/netip: four bytes, or eight 16-bit groups with a zone.
pub mod Ranges
use bee_ba.Common.{
  ℕ, zero, suc, ◌+◌, ◌-◌, ◌*◌, ◌/◌, ◌%◌, Bool, true, false, ◌&&◌, ◌||◌, List, [], ◌∷◌, Option, none,
  some, Result, ok, err, ◌>>=◌, ◌>>◌, fail_if, leb, ◌==◌, if◌then◌else◌, length, drop,
}
use bee_ba.Common.Text.{Bytes, Tables, trim_space, to_lower, utf8, bytes_eq}
use bee_ba.Servers.Endpoint.{
  Endpoint, EndpointError, unsafe_endpoint, validate_endpoint_shape, is_empty,
}

pub record Groups : Type 0 where
  pub g0 : ℕ
  pub g1 : ℕ
  pub g2 : ℕ
  pub g3 : ℕ
  pub g4 : ℕ
  pub g5 : ℕ
  pub g6 : ℕ
  pub g7 : ℕ

pub data Addr : Type 0 where
  v4 : ℕ → ℕ → ℕ → ℕ → Addr
  v6 : Groups → Bytes → Addr

abbrev pub upper_zero : Groups → Bool
upper_zero g = g.g0 == 0 && g.g1 == 0 && g.g2 == 0 && g.g3 == 0 && g.g4 == 0

-- `if addr.Is4In6() { addr = addr.Unmap() }`
unfoldable pub unmap : Addr → Addr
unmap (v4 a b c d) = v4 a b c d
unmap (v6 g zone) =
    if upper_zero g && g.g5 == 0xFFFF
    then v4 (g.g6 / 256) (g.g6 % 256) (g.g7 / 256) (g.g7 % 256)
    else v6 g zone

unfoldable pub is_loopback : Addr → Bool
is_loopback (v4 a b c d) = a == 127
is_loopback (v6 g zone) = upper_zero g && g.g5 == 0 && g.g6 == 0 && g.g7 == 1

-- 10/8, 172.16/12, 192.168/16 and fc00::/7
unfoldable pub is_private : Addr → Bool
is_private (v4 a b c d) = a == 10 || (a == 172 && b / 16 == 1) || (a == 192 && b == 168)
is_private (v6 g zone) = g.g0 / 512 == 0xFC00 / 512

-- 169.254/16 and fe80::/10
unfoldable pub is_link_local_unicast : Addr → Bool
is_link_local_unicast (v4 a b c d) = a == 169 && b == 254
is_link_local_unicast (v6 g zone) = g.g0 / 64 == 0xFE80 / 64

-- 224.0.0/24, and ff02 with any flags
unfoldable pub is_link_local_multicast : Addr → Bool
is_link_local_multicast (v4 a b c d) = a == 224 && b == 0 && c == 0
is_link_local_multicast (v6 g zone) = g.g0 / 256 == 0xFF && g.g0 % 16 == 2

-- 224/4 and ff00::/8
unfoldable pub is_multicast : Addr → Bool
is_multicast (v4 a b c d) = a / 16 == 14
is_multicast (v6 g zone) = g.g0 / 256 == 0xFF

-- netip compares whole addresses here, so that `::` with a zone is not unspecified.
unfoldable pub is_unspecified : Addr → Bool
is_unspecified (v4 a b c d) = a == 0 && b == 0 && c == 0 && d == 0
is_unspecified (v6 g zone) = upper_zero g && g.g5 == 0 && g.g6 == 0 && g.g7 == 0 && is_empty zone

unfoldable pub is_interface_local_multicast : Addr → Bool
is_interface_local_multicast (v4 a b c d) = false
is_interface_local_multicast (v6 g zone) = g.g0 / 256 == 0xFF && g.g0 % 16 == 1

abbrev pub is_6 : Addr → Bool
is_6 (v4 a b c d) = false
is_6 (v6 g zone) = true

unfoldable pub validate_public_ip : Addr → Result EndpointError (Unit {0})
validate_public_ip given = do
  let addr = unmap given
  fail_if
      (is_loopback addr
        || is_private addr
        || is_link_local_unicast addr
        || is_link_local_multicast addr
        || is_multicast addr
        || is_unspecified addr)
      unsafe_endpoint
  fail_if (is_6 addr && is_interface_local_multicast addr) unsafe_endpoint

-- netip.ParseAddr and net.ParseIP.
pub record IpText : Type 0 where
  pub parse_addr : Bytes → Option Addr
  pub parse_ip : Bytes → Option Bytes

abbrev pair : ℕ → ℕ → ℕ
pair a b = a * 256 + b

-- netip.AddrFromSlice
unfoldable pub addr_from_slice : Bytes → Option Addr
addr_from_slice (a ∷ b ∷ c ∷ d ∷ []) = some (v4 a b c d)
addr_from_slice (a ∷ b ∷ c ∷ d ∷ e ∷ f ∷ g ∷ h ∷ i ∷ j ∷ k ∷ l ∷ m ∷ n ∷ o ∷ p ∷ []) = some (
    v6
      (record {
        g0 = pair a b;
        g1 = pair c d;
        g2 = pair e f;
        g3 = pair g h;
        g4 = pair i j;
        g5 = pair k l;
        g6 = pair m n;
        g7 = pair o p;
      })
      [])
addr_from_slice _ = none

unfoldable pub has_suffix : Bytes → Bytes → Bool
unfolding bytes_eq
has_suffix suffix s =
    leb (length suffix) (length s) && bytes_eq (drop (length s - length suffix) s) suffix

unfoldable pub is_localhost : Bytes → Bool
unfolding has_suffix
is_localhost host = bytes_eq host (utf8 "localhost") || has_suffix (utf8 ".localhost") host

unfoldable pub validate_slice : Option Bytes → Result EndpointError (Unit {0})
validate_slice none = ok tt
validate_slice (some ip) = elim (addr_from_slice ip) [
  | none ↦ err unsafe_endpoint
  | some addr ↦ validate_public_ip addr
]

abbrev pub check_parsed : Option Addr → Option Bytes → Result EndpointError (Unit {0})
check_parsed (some addr) slice = validate_public_ip addr
check_parsed none slice = validate_slice slice

-- netip.ParseAddr, and net.ParseIP where that fails.
abbrev pub validate_host_text : IpText → Bytes → Result EndpointError (Unit {0})
validate_host_text ip host = check_parsed (ip.parse_addr host) (ip.parse_ip host)

unfoldable pub validate_for_public_check :
    Tables → IpText → Endpoint → Result EndpointError (Unit {0})
validate_for_public_check u ip endpoint = do
  validate_endpoint_shape endpoint
  let host = to_lower u (trim_space endpoint.host)
  fail_if (is_localhost host) unsafe_endpoint
  validate_host_text ip host
