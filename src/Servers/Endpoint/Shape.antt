-- ===== src/Servers/Endpoint/Shape.antt =====
-- What every endpoint that `ParseConnectionString` returns satisfies.
use mathlib.Core.Path.{subst}
use bee_ba.Common.{
  ℕ, ◌^◌, ◌≤◌, ◌<◌, ◌≡◌, ◌≢◌, ◌↔◌, refl, inl, inr, ◌||◌, false, [], ◌∷◌, ok, Option, none, some,
  arith, length, All, >>=-eq-ok, >>-eq-ok, ◌>>◌, Option-cases, Result-cases, Bool-cases,
}
use bee_ba.Common.Text.{Bytes, Tables, rune_count, trim_space}
use bee_ba.Servers.Endpoint.{
  Endpoint, is_empty, starts_with, has_url_syntax, parse_uint16, parse_port, port_or_host,
  cut_first, cut_last, validate_endpoint_shape, split_password, split_host, split_plain,
  split_bracketed, bracket_port, parse_connection_string,
}

abbrev pub NoUrlSyntax : ℕ → Type 0
NoUrlSyntax c = (c ≢ b'/') × (c ≢ b'?') × (c ≢ b'#') × (c ≢ b'\\')

-- What `ValidateEndpointShape` asks of an endpoint.
pub record IsShape (e : Endpoint) : Type 0 where
  pub host_some : trim_space e.host ≢ []
  pub host_short : rune_count (trim_space e.host) ≤ 253
  pub host_plain : All NoUrlSyntax (trim_space e.host)
  pub port_some : e.port ≢ 0

url_syntax_iff : (s : Bytes) → (has_url_syntax s ≡ false) ↔ All NoUrlSyntax s
unfolding has_url_syntax
url_syntax_iff [] = (λ h. tt, λ h. refl)
url_syntax_iff (c ∷ cs) = (
  λ h. (ground arith, (url_syntax_iff cs).0 (ground arith)),
  λ h. ground (arith, (url_syntax_iff cs).1 h.1),
)

length-zero_iff : (s : Bytes) → (length s ≡ 0) ↔ (s ≡ [])
length-zero_iff [] = (λ h. refl, λ h. refl)
length-zero_iff (c ∷ cs) = (λ h. absurd (omega arith), λ h. cc)

pub validate_endpoint_shape_iff : (e : Endpoint) → (validate_endpoint_shape e ≡ ok tt) ↔ IsShape e
unfolding validate_endpoint_shape
validate_endpoint_shape_iff e = (
  λ h. record {
    host_some = λ z. ground (arith, (length-zero_iff (trim_space e.host)).1 z);
    host_short = ground arith;
    host_plain = (url_syntax_iff (trim_space e.host)).0 (ground arith);
    port_some = ground arith;
  },
  λ s. ground (
    arith,
    (length-zero_iff (trim_space e.host)).0,
    s.host_some,
    (url_syntax_iff (trim_space e.host)).1 s.host_plain,
  ),
)

abbrev IsPort : ℕ → Type 0
IsPort n = (0 < n) × (n < 2 ^ 16)

parse_uint16-lt : (s : Bytes) (n : ℕ) → parse_uint16 s ≡ some n → n < 2 ^ 16
unfolding parse_uint16
parse_uint16-lt [] n h = cc
parse_uint16-lt (c ∷ cs) n h = ground arith

parse_port-IsPort : (s : Bytes) (n : ℕ) → parse_port s ≡ ok n → IsPort n
unfolding parse_port
parse_port-IsPort s n h = (ground arith, ground (arith, parse_uint16-lt (trim_space s) n))

bracket_port-IsPort : (s : Bytes) (n : ℕ) → bracket_port s ≡ ok n → IsPort n
unfolding bracket_port
bracket_port-IsPort [] n h = (ground arith, ground arith)
bracket_port-IsPort (c ∷ cs) n h =
    (ground (arith, parse_port-IsPort cs n), ground (arith, parse_port-IsPort cs n))

port_or_host-IsPort : (s l r : Bytes) → IsPort (port_or_host s l (parse_port r)).1
unfolding port_or_host
port_or_host-IsPort s l r = elim (Result-cases (parse_port r)) [
  | inl (e, h) ↦ rw h (omega arith, omega arith)
  | inr (n, h) ↦ rw h (parse_port-IsPort r n h)
]

split_plain-IsPort : (s : Bytes) → IsPort (split_plain s).1
unfolding split_plain
split_plain-IsPort s = elim (Option-cases (cut_last b':' s)) [
  | inl e ↦ rw (e, split_plain) (omega arith, omega arith)
  | inr (cut, e) ↦
      rw (e, split_plain)
        (elim (Bool-cases (is_empty cut.0 || is_empty cut.1)) [
          | inl b ↦ rw b (omega arith, omega arith)
          | inr b ↦ rw b (port_or_host-IsPort s cut.0 cut.1)
        ])
]

split_bracketed-IsPort : (s : Bytes) (h : Bytes) (n : ℕ) → split_bracketed s ≡ ok (h, n) → IsPort n
unfolding split_bracketed
split_bracketed-IsPort s h n e = elim (Option-cases (cut_first b']' s)) [
  | inl c ↦ ground arith
  | inr (cut, c) ↦ bracket_port-IsPort (trim_space cut.1) n (ground arith)
]

split_host-IsPort : (s : Bytes) (r : Bytes × ℕ) → split_host s ≡ ok r → IsPort r.1
unfolding split_host
split_host-IsPort s r e = elim (Bool-cases (starts_with b'[' s)) [
  | inl b ↦ split_bracketed-IsPort s r.0 r.1 (ground arith)
  | inr b ↦ let same : split_plain s ≡ r = ground arith in rw (← same) (split_plain-IsPort s)
]

abbrev pub PasswordGiven : Option Bytes → Type 0
PasswordGiven none = Unit {0}
PasswordGiven (some p) = trim_space p ≢ []

split_password-given : (s : Bytes) → PasswordGiven (split_password s).1
unfolding split_password
split_password-given s = elim (Option-cases (cut_first b'#' s)) [
  | inl c ↦ rw (c, split_password) tt
  | inr (cut, c) ↦
      rw (c, split_password)
        (elim (Bool-cases (is_empty (trim_space cut.1))) [
          | inl b ↦ rw b tt
          | inr b ↦ rw b (λ z. ground (arith, (length-zero_iff (trim_space cut.1)).1 z))
        ])
]

pub record IsEndpoint (e : Endpoint) : Type 0 where
  pub shape : IsShape e
  pub port_max : e.port < 2 ^ 16
  pub password_given : PasswordGiven e.password

validated :
    (c : Endpoint) {e : Endpoint}
    → IsPort c.port
    → PasswordGiven c.password
    → (validate_endpoint_shape c >> ok c) ≡ ok e
    → IsEndpoint e
validated c {e} port given h =
    let (shape, same) = >>-eq-ok (validate_endpoint_shape c) (ok c) h in
    let eq : c ≡ e = cc same in
    subst IsEndpoint eq (record {
      shape = (validate_endpoint_shape_iff c).0 shape;
      port_max = port.1;
      password_given = given;
    })

-- An endpoint that `ParseConnectionString` returns has a host that is not blank and that, read without
-- the white space around it, has at most 253 runes and none of `/ ? # \`; a port from 1 to 65535; and
-- no password or one that is not blank.
pub parse_connection_string-IsEndpoint :
    (u : Tables) (raw : Bytes) {e : Endpoint} → parse_connection_string u raw ≡ ok e → IsEndpoint e
unfolding parse_connection_string
parse_connection_string-IsEndpoint u raw {e} h =
    let value = trim_space raw in
    let (_, h1) = >>-eq-ok _ _ h in
    let (split, e1, h2) = >>=-eq-ok (split_host (trim_space (split_password value).0)) _ h1 in
    validated _ (split_host-IsPort _ split e1) (split_password-given value) h2
