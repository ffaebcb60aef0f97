-- ===== src/ServerCheck/Probe.antt =====
-- servercheck/probe.go: `Probe`. The resolver, the random source and the network are arguments.
pub mod Target
use bee_ba.Common.{
  ℕ, ◌≡◌, ◌⊎◌, refl, sym, ap, ◌∙◌, Bool, true, false, Option, none, some, List, [], ◌∷◌, Result, ok,
  err, ◌>>=◌, or_fail, take, inl, inr,
}
use bee_ba.Common.Text.{Bytes, Tables, to_lower, trim_space}
use bee_ba.Servers.Endpoint.{Endpoint, EndpointError, unsafe_endpoint}
use bee_ba.Servers.Address.{IpText, validate_for_public_check}
use bee_ba.ServerCheck.Packet.{Info, PacketError, build_query_packet, parse_response}

pub data ProbeError : Type 0 where
  bad_endpoint : EndpointError → ProbeError
  no_lookup no_nonce no_dial no_answer : ProbeError
  bad_answer : PacketError → ProbeError

-- A packet that is sent: the text of the address, the port and the bytes.
pub record Sent : Type 0 where
  pub address : Bytes
  pub port : ℕ
  pub packet : Bytes

-- `lookup` gives the texts of the host's addresses; `answer` is none where the socket cannot be
-- opened or written, and its inner none is a read that fails.
pub record Network : Type 0 where
  pub lookup : Bytes → Option (List Bytes)
  pub nonce : Option ℕ
  pub answer : Sent → Option (Option Bytes)
  pub round_trip_ms : ℕ

abbrev pub bare : Bytes → ℕ → Endpoint
bare host port = record { host = host; port = port; password = none }

abbrev pub prefer : Result EndpointError (Unit {0}) → Bytes → Option Bytes → Option Bytes
prefer (ok _) address later = some address
prefer (err e) address later = later

-- The first address that is public.
unfoldable pub select : Tables → IpText → ℕ → List Bytes → Option Bytes
unfolding validate_for_public_check
select u ip port [] = none
select u ip port (address ∷ rest) =
    prefer (validate_for_public_check u ip (bare address port)) address (select u ip port rest)

-- make([]byte, 1024)
abbrev pub buffer_size : ℕ
buffer_size = 1024

abbrev pub received : ℕ → ℕ → Option (Option Bytes) → Result ProbeError Info
received nonce ms none = err no_dial
received nonce ms (some none) = err no_answer
received nonce ms (some (some packet)) = elim (parse_response (take buffer_size packet) nonce ms) [
  | ok info ↦ ok info
  | err e ↦ err (bad_answer e)
]

-- Nothing is sent where the socket cannot be opened or written.
abbrev pub delivered : Sent → Option (Option Bytes) → List Sent
delivered sent none = []
delivered sent (some answer) = sent ∷ []

-- The query, once the address and the nonce are there.
abbrev pub ask : Network → ℕ → Bytes → Option ℕ → List Sent × Result ProbeError Info
ask net port address none = ([], err no_nonce)
ask net port address (some nonce) =
    let sent : Sent = record {
      address = address;
      port = port;
      packet = build_query_packet nonce;
    } in
    (delivered sent (net.answer sent), received nonce net.round_trip_ms (net.answer sent))

abbrev pub ask_selected : Network → ℕ → Option Bytes → List Sent × Result ProbeError Info
ask_selected net port none = ([], err (bad_endpoint unsafe_endpoint))
ask_selected net port (some address) = ask net port address net.nonce

abbrev pub ask_resolved :
    Tables → IpText → Network → ℕ → Option (List Bytes) → List Sent × Result ProbeError Info
ask_resolved u ip net port none = ([], err no_lookup)
ask_resolved u ip net port (some addresses) = ask_selected net port (select u ip port addresses)

abbrev pub checked :
    Result EndpointError (Unit {0})
    → List Sent × Result ProbeError Info
    → List Sent × Result ProbeError Info
checked (ok _) rest = rest
checked (err e) rest = ([], err (bad_endpoint e))

-- What is sent, and the result.
unfoldable pub probe : Tables → IpText → Network → Bytes → ℕ → List Sent × Result ProbeError Info
unfolding validate_for_public_check select build_query_packet parse_response
probe u ip net host port =
    checked (validate_for_public_check u ip (bare host port))
      (ask_resolved u ip net port (net.lookup host))
