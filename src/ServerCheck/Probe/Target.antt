-- ===== src/ServerCheck/Probe/Target.antt =====
-- Where the query of `Probe` goes.
use mathlib.Core.List.{Memᴰ}
use bee_ba.Common.{
  ℕ, ◌≡◌, refl, sym, ap, ◌∙◌, Option, none, some, List, [], ◌∷◌, Result, ok, err, >>-eq-ok, fail_if,
}
use bee_ba.Common.Text.{Bytes, Tables, to_lower, trim_space}
use bee_ba.Servers.Endpoint.{EndpointError, unsafe_endpoint, validate_endpoint_shape}
use bee_ba.Servers.Address.{
  Addr, IpText, is_localhost, validate_host_text, validate_public_ip, validate_for_public_check,
}
use bee_ba.ServerCheck.Packet.{build_query_packet}
use bee_ba.ServerCheck.Probe.{
  Sent, Network, bare, select, prefer, ask, ask_selected, ask_resolved, checked, delivered, probe,
}

-- The packet goes to an address of the host that was checked, and is the query with the nonce.
pub record IsSafeSend (u : Tables) (ip : IpText) (net : Network) (host : Bytes) (port : ℕ)
    (s : Sent) : Type 0 where
  pub host_checked : validate_for_public_check u ip (bare host port) ≡ ok tt
  pub addresses : List Bytes
  pub resolved : net.lookup host ≡ some addresses
  pub is_address : Memᴰ s.address addresses
  pub address_checked : validate_for_public_check u ip (bare s.address port) ≡ ok tt
  pub public_ip :
      (addr : Addr)
      → ip.parse_addr (to_lower u (trim_space s.address)) ≡ some addr
      → validate_public_ip addr ≡ ok tt
  pub nonce : ℕ
  pub has_nonce : net.nonce ≡ some nonce
  pub port_is : s.port ≡ port
  pub packet_is : s.packet ≡ build_query_packet nonce

-- At most one packet, and it satisfies P.
abbrev pub AtMostOne : (Sent → Type 0) → List Sent → Type 0
AtMostOne P [] = Unit {0}
AtMostOne P (s ∷ []) = P s
AtMostOne P (s ∷ (t ∷ rest)) = ⊥

select-Mem :
    (u : Tables) (ip : IpText) (port : ℕ) (addresses : List Bytes) (address : Bytes)
    → select u ip port addresses ≡ some address
    → Memᴰ address addresses × (validate_for_public_check u ip (bare address port) ≡ ok tt)
unfolding select
select-Mem u ip port [] address h = cc
select-Mem u ip port (x ∷ rest) address h =
    by_check (validate_for_public_check u ip (bare x port)) refl (select-Mem u ip port rest address)
      h
  where
    by_check :
        (r : Result EndpointError (Unit {0}))
        → validate_for_public_check u ip (bare x port) ≡ r
        → (select u ip port rest ≡ some address
            → Memᴰ address rest × (validate_for_public_check u ip (bare address port) ≡ ok tt))
        → prefer r x (select u ip port rest) ≡ some address
        → Memᴰ address (x ∷ rest) × (validate_for_public_check u ip (bare address port) ≡ ok tt)
    by_check (ok tt) e later h =
        let same : x ≡ address = cc h in
        (
          Memᴰ.head (sym same),
          ap (λ a. validate_for_public_check u ip (bare a port)) (sym same) ∙ e,
        )
    by_check (err x') e later h = let r = later h in (Memᴰ.tail r.0, r.1)

validate_host_text-addr :
    (ip : IpText) (text : Bytes) (addr : Addr)
    → ip.parse_addr text ≡ some addr
    → validate_host_text ip text ≡ ok tt
    → validate_public_ip addr ≡ ok tt
validate_host_text-addr ip text addr e h = rw e at h

public_ip-checked :
    (u : Tables) (ip : IpText) (host : Bytes) (port : ℕ) (addr : Addr)
    → validate_for_public_check u ip (bare host port) ≡ ok tt
    → ip.parse_addr (to_lower u (trim_space host)) ≡ some addr
    → validate_public_ip addr ≡ ok tt
unfolding validate_for_public_check
public_ip-checked u ip host port addr h e =
    let (shape, h1) = >>-eq-ok (validate_endpoint_shape (bare host port)) _ h in
    let (local, h2) =
      >>-eq-ok (fail_if (is_localhost (to_lower u (trim_space host))) unsafe_endpoint) _ h1 in
    validate_host_text-addr ip (to_lower u (trim_space host)) addr e h2

-- `Probe` sends at most one packet. It goes only to an address that the host resolves to, if the
-- host and the address both pass `ValidateEndpointForPublicCheck`; where the address's text is
-- one that netip.ParseAddr reads, the address passes `validatePublicIP`. The packet is the query
-- with the random nonce, and goes to the port asked for.
pub probe-IsSafeSend :
    (u : Tables) (ip : IpText) (net : Network) (host : Bytes) (port : ℕ)
    → AtMostOne (IsSafeSend u ip net host port) (probe u ip net host port).0
unfolding probe
probe-IsSafeSend u ip net host port = by_host (validate_for_public_check u ip (bare host port)) refl
  where
    by_answer :
        (s : Sent) (answer : Option (Option Bytes))
        → IsSafeSend u ip net host port s
        → AtMostOne (IsSafeSend u ip net host port) (delivered s answer)
    by_answer s none safe = tt
    by_answer s (some a) safe = safe

    by_nonce :
        (addresses : List Bytes) (address : Bytes) (nonce : Option ℕ)
        → validate_for_public_check u ip (bare host port) ≡ ok tt
        → net.lookup host ≡ some addresses
        → select u ip port addresses ≡ some address
        → net.nonce ≡ nonce
        → AtMostOne (IsSafeSend u ip net host port) (ask net port address nonce).0
    by_nonce addresses address none ok_host found selected n = tt
    by_nonce addresses address (some nonce) ok_host found selected n =
        let (member, is_checked) = select-Mem u ip port addresses address selected in
        by_answer _ _ (record {
          host_checked = ok_host;
          addresses = addresses;
          resolved = found;
          is_address = member;
          address_checked = is_checked;
          public_ip = λ addr parsed. public_ip-checked u ip address port addr is_checked parsed;
          nonce = nonce;
          has_nonce = n;
          port_is = refl;
          packet_is = refl;
        })

    by_selected :
        (addresses : List Bytes) (selected : Option Bytes)
        → validate_for_public_check u ip (bare host port) ≡ ok tt
        → net.lookup host ≡ some addresses
        → select u ip port addresses ≡ selected
        → AtMostOne (IsSafeSend u ip net host port) (ask_selected net port selected).0
    by_selected addresses none ok_host found e = tt
    by_selected addresses (some address) ok_host found e =
        by_nonce addresses address net.nonce ok_host found e refl

    by_lookup :
        (addresses : Option (List Bytes))
        → validate_for_public_check u ip (bare host port) ≡ ok tt
        → net.lookup host ≡ addresses
        → AtMostOne (IsSafeSend u ip net host port) (ask_resolved u ip net port addresses).0
    by_lookup none ok_host found = tt
    by_lookup (some addresses) ok_host found =
        by_selected addresses (select u ip port addresses) ok_host found refl

    by_host :
        (r : Result EndpointError (Unit {0}))
        → validate_for_public_check u ip (bare host port) ≡ r
        → AtMostOne
            (IsSafeSend u ip net host port)
            (checked r (ask_resolved u ip net port (net.lookup host))).0
    by_host (err e) h = tt
    by_host (ok tt) h = by_lookup (net.lookup host) h refl
