-- ===== src/Servers/Address/Ranges.antt =====
-- The addresses that `validatePublicIP` lets through.
use bee_ba.Common.{
  ℕ, ◌+◌, ◌*◌, ◌<◌, ◌≡◌, ◌≢◌, ◌↔◌, ◌⊎◌, refl, [], ◌∷◌, ok, arith, Bool-cases, inl, inr, ◌==◌, ◌&&◌,
}
use bee_ba.Common.Text.{Bytes}
use bee_ba.Servers.Address.{
  Groups, v4, v6, upper_zero, unmap, is_loopback, is_private, is_link_local_unicast,
  is_link_local_multicast, is_multicast, is_unspecified, is_interface_local_multicast,
  validate_public_ip,
}

-- No loopback, private, link-local or multicast address, and not 0.0.0.0.
pub record IsPublicV4 (a b c d : ℕ) : Type 0 where
  pub not_loopback : a ≢ 127
  pub not_ten : a ≢ 10
  pub not_172 : a ≡ 172 → (b < 16) ⊎ (31 < b)
  pub not_192 : a ≡ 192 → b ≢ 168
  pub not_link_local : a ≡ 169 → b ≢ 254
  pub not_multicast : (a < 224) ⊎ (239 < a)
  pub not_zero : (a ≢ 0) ⊎ (b ≢ 0) ⊎ (c ≢ 0) ⊎ (d ≢ 0)

-- `validatePublicIP` accepts an IPv4 address exactly when it lies outside 127/8, 10/8, 172.16/12,
-- 192.168/16, 169.254/16 and 224/4 and is not 0.0.0.0; every other reserved block is let through.
pub validate_public_ip-v4 :
    (a b c d : ℕ) → (validate_public_ip (v4 a b c d) ≡ ok tt) ↔ IsPublicV4 a b c d
unfolding validate_public_ip unmap is_loopback is_private is_link_local_unicast
    is_link_local_multicast is_multicast is_unspecified is_interface_local_multicast
validate_public_ip-v4 a b c d = (
  λ h. record {
    not_loopback = ground arith;
    not_ten = ground arith;
    not_172 = ground arith;
    not_192 = ground arith;
    not_link_local = ground arith;
    not_multicast = ground arith;
    not_zero = ground arith;
  },
  λ v. ground arith,
)

-- ::ffff:a.b.c.d
abbrev pub mapped : ℕ → ℕ → ℕ → ℕ → Groups
mapped a b c d = record {
  g0 = 0;
  g1 = 0;
  g2 = 0;
  g3 = 0;
  g4 = 0;
  g5 = 0xFFFF;
  g6 = a * 256 + b;
  g7 = c * 256 + d;
}

unmap-mapped :
    (a b c d : ℕ) (zone : Bytes) → b < 256 → d < 256 → unmap (v6 (mapped a b c d) zone) ≡ v4 a b c d
unfolding unmap
unmap-mapped a b c d zone h k = ground arith

unmap-v4 : (a b c d : ℕ) → unmap (v4 a b c d) ≡ v4 a b c d
unfolding unmap
unmap-v4 a b c d = refl

verdict-mapped :
    (a b c d : ℕ) (zone : Bytes)
    → b < 256
    → d < 256
    → validate_public_ip (v6 (mapped a b c d) zone) ≡ validate_public_ip (v4 a b c d)
unfolding validate_public_ip
verdict-mapped a b c d zone h k = rw (unmap-mapped a b c d zone h k, unmap-v4 a b c d) refl

-- An IPv4 address in an IPv6 one, with or without a zone, gets the verdict of the IPv4 address.
pub validate_public_ip-mapped :
    (a b c d : ℕ) (zone : Bytes)
    → b < 256
    → d < 256
    → (validate_public_ip (v6 (mapped a b c d) zone) ≡ ok tt) ↔ IsPublicV4 a b c d
validate_public_ip-mapped a b c d zone h k =
    rw (verdict-mapped a b c d zone h k) (validate_public_ip-v4 a b c d)

abbrev pub IsZeroPrefix : Groups → Type 0
IsZeroPrefix g =
    (g.g0 ≡ 0) × (g.g1 ≡ 0) × (g.g2 ≡ 0) × (g.g3 ≡ 0) × (g.g4 ≡ 0) × (g.g5 ≡ 0) × (g.g6 ≡ 0)

abbrev pub IsMapped : Groups → Type 0
IsMapped g = (g.g0 ≡ 0) × (g.g1 ≡ 0) × (g.g2 ≡ 0) × (g.g3 ≡ 0) × (g.g4 ≡ 0) × (g.g5 ≡ 0xFFFF)

-- Not ::1, not `::` without a zone, and outside fc00::/7, fe80::/10 and ff00::/8.
pub record IsPublicV6 (g : Groups) (zone : Bytes) : Type 0 where
  pub not_loopback : IsZeroPrefix g → g.g7 ≢ 1
  pub not_unspecified : IsZeroPrefix g → g.g7 ≡ 0 → zone ≢ []
  pub not_private : (g.g0 < 0xFC00) ⊎ (0xFDFF < g.g0)
  pub not_link_local : (g.g0 < 0xFE80) ⊎ (0xFEBF < g.g0)
  pub not_multicast : g.g0 < 0xFF00

unmap-v6 : (g : Groups) (zone : Bytes) → ¬ IsMapped g → unmap (v6 g zone) ≡ v6 g zone
unfolding unmap
unmap-v6 g zone m = elim (Bool-cases (upper_zero g && g.g5 == 0xFFFF)) [
  | inl b ↦
      absurd
        (m (ground arith, ground arith, ground arith, ground arith, ground arith, ground arith))
  | inr b ↦ rw b
]

verdict-v6 :
    (g : Groups) (zone : Bytes)
    → g.g0 < 0x10000
    → unmap (v6 g zone) ≡ v6 g zone
    → (validate_public_ip (v6 g zone) ≡ ok tt) ↔ IsPublicV6 g zone
unfolding validate_public_ip is_loopback is_private is_link_local_unicast is_link_local_multicast
    is_multicast is_unspecified is_interface_local_multicast
verdict-v6 g [] h m = rw m (
  λ r. record {
    not_loopback = ground arith;
    not_unspecified = ground arith;
    not_private = ground arith;
    not_link_local = ground arith;
    not_multicast = ground arith;
  },
  λ v. ground arith,
)
verdict-v6 g (z ∷ zs) h m = rw m (
  λ r. record {
    not_loopback = ground arith;
    not_unspecified = λ _ _ e. cc;
    not_private = ground arith;
    not_link_local = ground arith;
    not_multicast = ground arith;
  },
  λ v. ground arith,
)

-- `validatePublicIP` accepts an IPv6 address that is not IPv4-mapped exactly when it is not ::1,
-- is not `::` without a zone, and lies outside fc00::/7, fe80::/10 and ff00::/8.
pub validate_public_ip-v6 :
    (g : Groups) (zone : Bytes)
    → g.g0 < 0x10000
    → ¬ IsMapped g
    → (validate_public_ip (v6 g zone) ≡ ok tt) ↔ IsPublicV6 g zone
validate_public_ip-v6 g zone h m = verdict-v6 g zone h (unmap-v6 g zone m)
