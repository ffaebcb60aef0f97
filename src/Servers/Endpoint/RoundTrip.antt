-- ===== src/Servers/Endpoint/RoundTrip.antt =====
-- `ParseConnectionString` reads back what `ConnectionString` prints.
use mathlib.Core.List.{append_assoc, reverse, reverse-append, reverse-cons, append-nil}
use bee_ba.Common.{
  ℕ, ◌^◌, ◌≤◌, ◌<◌, ◌≡◌, ◌≢◌, refl, false, [], ◌∷◌, ◌++◌, Option, none, some, ok, arith, length,
  All, All-map, All-append, Bool-cases, inl, inr, ◌==◌, last_or,
}
use bee_ba.Common.Text.{
  Bytes, Tables, trim_space, space_len_back, trim_space_id, IsGraphic, IsLow, space_len_back-append,
  space_len-All, trim_space-graphic, to_lower_id, rune_count-length,
}
use bee_ba.Servers.Endpoint.{
  Endpoint, contains_byte, starts_with, ends_with, is_empty, has_url_syntax, decimal, parse_port,
  validate_endpoint_shape, normalize_host, split_password, split_bracketed, split_plain, split_host,
  bracket_port, parse_connection_string, connection_string, bracket, password_suffix,
}
use bee_ba.Servers.Endpoint.Pieces.{
  cut_first-absent, cut_first-none, cut_last-absent, contains_byte-append, IsDigits,
  IsDigits-absent, decimal-IsDigits, decimal-ne-nil, parse_uint16-decimal,
}

-- A byte of a host name or of an address as `normalizeHost` leaves it.
abbrev pub IsHostByte : ℕ → Type 0
IsHostByte c =
    IsGraphic c
    × IsLow c
    × (c ≢ b'#')
    × (c ≢ b'/')
    × (c ≢ b'?')
    × (c ≢ b'\\')
    × (c ≢ b'[')
    × (c ≢ b']')

pub record IsHost (host : Bytes) : Type 0 where
  pub bytes : All IsHostByte host
  pub some_byte : host ≢ []
  pub short : length host ≤ 253

-- None, or a password that is not blank and does not end in white space.
abbrev pub IsPassword : Option Bytes → Type 0
IsPassword none = Unit {0}
IsPassword (some p) =
    (is_empty (trim_space p) ≡ false) × (space_len_back (reverse p) ≡ 0) × (reverse p ≢ [])

pub record IsCanonical (e : Endpoint) : Type 0 where
  pub host : IsHost e.host
  pub port_min : 0 < e.port
  pub port_max : e.port < 2 ^ 16
  pub password : IsPassword e.password

absent :
    (b : ℕ) (s : Bytes)
    → ((c : ℕ) → IsHostByte c → c ≢ b)
    → All IsHostByte s
    → contains_byte b s ≡ false
unfolding contains_byte
absent b [] f h = refl
absent b (c ∷ cs) f h = ground (arith, f c h.0, absent b cs f h.1)

graphic : (s : Bytes) → All IsHostByte s → All IsGraphic s
graphic s h = All-map IsHostByte IsGraphic s (λ c k. k.0) h

digits-IsGraphic : (s : Bytes) → IsDigits s → All IsGraphic s
digits-IsGraphic s h = All-map _ IsGraphic s (λ c k. omega arith) h

no_url_syntax : (s : Bytes) → All IsHostByte s → has_url_syntax s ≡ false
unfolding has_url_syntax
no_url_syntax [] h = refl
no_url_syntax (c ∷ cs) h = ground (arith, no_url_syntax cs h.1)

no_opening : (s : Bytes) → All IsHostByte s → starts_with b'[' s ≡ false
no_opening [] h = refl
no_opening (c ∷ cs) h = ground arith

parse_port-decimal : (n : ℕ) → 0 < n → n < 2 ^ 16 → parse_port (decimal n) ≡ ok n
unfolding parse_port
parse_port-decimal n h k =
    rw
      (
        trim_space-graphic (decimal n) (digits-IsGraphic (decimal n) (decimal-IsDigits n)),
        parse_uint16-decimal n k,
      )
      (ground arith)

closing_absent : (s : Bytes) → All IsHostByte s → contains_byte b']' (b'[' ∷ s) ≡ false
unfolding contains_byte
closing_absent s h = ground (arith, absent b']' s (λ c k. k.7) h)

length-ne-zero : (s : Bytes) → s ≢ [] → length s ≢ 0
length-ne-zero [] h = absurd (h refl)
length-ne-zero (c ∷ cs) h = omega arith

no_opening_append : (s r : Bytes) → All IsHostByte s → s ≢ [] → starts_with b'[' (s ++ r) ≡ false
no_opening_append [] r h ne = absurd (ne refl)
no_opening_append (c ∷ cs) r h ne = ground arith

split_plain-host :
    (host : Bytes) (n : ℕ)
    → IsHost host
    → 0 < n
    → n < 2 ^ 16
    → split_plain (host ++ b':' ∷ decimal n) ≡ (host, n)
unfolding split_plain
split_plain-host host n v a b = ground (
  arith,
  cut_last-absent b':' host (decimal n)
      (IsDigits-absent b':' (decimal n) (inr (omega arith)) (decimal-IsDigits n)),
  length-ne-zero host v.some_byte,
  length-ne-zero (decimal n) (decimal-ne-nil n),
  parse_port-decimal n a b,
  trim_space-graphic host (graphic host v.bytes),
)

split_bracketed-host :
    (host : Bytes) (n : ℕ)
    → IsHost host
    → 0 < n
    → n < 2 ^ 16
    → split_bracketed (b'[' ∷ (host ++ b']' ∷ b':' ∷ decimal n)) ≡ ok (host, n)
unfolding split_bracketed bracket_port
split_bracketed-host host n v a b = ground (
  arith,
  cut_first-absent b']' (b'[' ∷ host) (b':' ∷ decimal n) (closing_absent host v.bytes),
  trim_space-graphic (b':' ∷ decimal n)
      ((omega arith, omega arith), digits-IsGraphic (decimal n) (decimal-IsDigits n)),
  parse_port-decimal n a b,
  trim_space-graphic host (graphic host v.bytes),
)

split_host-plain :
    (host : Bytes) (n : ℕ)
    → IsHost host
    → contains_byte b':' host ≡ false
    → 0 < n
    → n < 2 ^ 16
    → split_host (host ++ b':' ∷ decimal n) ≡ ok (host, n)
unfolding split_host
split_host-plain host n v h a b = ground (
  arith,
  no_opening_append host (b':' ∷ decimal n) v.bytes v.some_byte,
  split_plain-host host n v a b,
)

split_host-bracketed :
    (host : Bytes) (n : ℕ)
    → IsHost host
    → 0 < n
    → n < 2 ^ 16
    → split_host (b'[' ∷ (host ++ b']' ∷ b':' ∷ decimal n)) ≡ ok (host, n)
unfolding split_host
split_host-bracketed host n v a b = split_bracketed-host host n v a b

normalize_host_id : (u : Tables) (host : Bytes) → IsHost host → normalize_host u host ≡ host
unfolding normalize_host
normalize_host_id u host v = rw (trim_space-graphic host (graphic host v.bytes)) (
    rw (no_opening host v.bytes)
      (to_lower_id u host (All-map IsHostByte IsLow host (λ c k. k.1) v.bytes)))

validate_shape-canonical : (e : Endpoint) → IsCanonical e → validate_endpoint_shape e ≡ ok tt
unfolding validate_endpoint_shape
validate_shape-canonical e v = ground (
  arith,
  trim_space-graphic e.host (graphic e.host v.host.bytes),
  rune_count-length e.host (All-map IsHostByte IsLow e.host (λ c k. k.1) v.host.bytes),
  no_url_syntax e.host v.host.bytes,
  length-ne-zero e.host v.host.some_byte,
)

-- What stands before the password.
record IsFront (host : Bytes) (port : ℕ) (front : Bytes) : Type 0 where
  graphic_text : All IsGraphic front
  no_hash : contains_byte b'#' front ≡ false
  some_byte : front ≢ []
  splits : split_host front ≡ ok (host, port)

port_text : (n : ℕ) → All IsGraphic (b':' ∷ decimal n)
port_text n = ((omega arith, omega arith), digits-IsGraphic (decimal n) (decimal-IsDigits n))

port_no_hash : (n : ℕ) → contains_byte b'#' (b':' ∷ decimal n) ≡ false
unfolding contains_byte
port_no_hash n = IsDigits-absent b'#' (decimal n) (inl (omega arith)) (decimal-IsDigits n)

append-ne-nil : (s r : Bytes) → s ≢ [] → s ++ r ≢ []
append-ne-nil [] r h = absurd (h refl)
append-ne-nil (c ∷ cs) r h = λ e. cc

no_closing : (c : ℕ) (cs : Bytes) → All IsHostByte (c ∷ cs) → (last_or c cs == b']') ≡ false
no_closing c [] h = ground arith
no_closing c (d ∷ cs) h = no_closing d cs h.1

no_closing_end : (s : Bytes) → All IsHostByte s → ends_with b']' s ≡ false
no_closing_end [] h = refl
no_closing_end (c ∷ cs) h = no_closing c cs h

IsFront-plain :
    (host : Bytes) (n : ℕ)
    → IsHost host
    → 0 < n
    → n < 2 ^ 16
    → contains_byte b':' host ≡ false
    → IsFront host n (host ++ b':' ∷ decimal n)
IsFront-plain host n v a b h = record {
  graphic_text = All-append IsGraphic host (b':' ∷ decimal n) (graphic host v.bytes) (port_text n);
  no_hash =
      contains_byte-append b'#' host (b':' ∷ decimal n) (absent b'#' host (λ c k. k.2) v.bytes)
        (port_no_hash n);
  some_byte = append-ne-nil host _ v.some_byte;
  splits = split_host-plain host n v h a b;
}

IsFront-bracketed :
    (host : Bytes) (n : ℕ)
    → IsHost host
    → 0 < n
    → n < 2 ^ 16
    → IsFront host n (b'[' ∷ (host ++ b']' ∷ b':' ∷ decimal n))
unfolding contains_byte
IsFront-bracketed host n v a b = record {
  graphic_text = (
    (omega arith, omega arith),
    All-append IsGraphic host (b']' ∷ b':' ∷ decimal n) (graphic host v.bytes)
        ((omega arith, omega arith), port_text n),
  );
  no_hash =
      contains_byte-append b'#' host (b']' ∷ b':' ∷ decimal n)
        (absent b'#' host (λ c k. k.2) v.bytes) (port_no_hash n);
  some_byte = λ e. cc;
  splits = split_host-bracketed host n v a b;
}

bracket-IsFront :
    (host : Bytes) (n : ℕ)
    → IsHost host
    → 0 < n
    → n < 2 ^ 16
    → IsFront host n (bracket host ++ b':' ∷ decimal n)
unfolding bracket
bracket-IsFront host n v a b = elim (Bool-cases (contains_byte b':' host)) [
  | inl colon ↦
      rw (colon, no_opening host v.bytes, no_closing_end host v.bytes)
        (rw append_assoc (IsFront-bracketed host n v a b))
  | inr none_there ↦ rw none_there (IsFront-plain host n v a b none_there)
]

module _ (u : Tables) (e : Endpoint) (v : IsCanonical e) where
  parse_value :
      (value front : Bytes) (password : Option Bytes)
      → IsFront e.host e.port front
      → trim_space value ≡ value
      → value ≢ []
      → split_password value ≡ (front, password)
      → password ≡ e.password
      → parse_connection_string u value ≡ ok e
  unfolding parse_connection_string
  parse_value value front password f t ne s p = ground (
    arith,
    length-ne-zero value ne,
    trim_space-graphic front f.graphic_text,
    f.splits,
    normalize_host_id u e.host v.host,
    validate_shape-canonical e v,
  )

  trim_with_password :
      (front p : Bytes)
      → IsFront e.host e.port front
      → space_len_back (reverse p) ≡ 0
      → reverse p ≢ []
      → trim_space (front ++ b'#' ∷ p) ≡ front ++ b'#' ∷ p
  trim_with_password front p f h ne =
      trim_space_id (front ++ b'#' ∷ p) (space_len-All front (b'#' ∷ p) f.graphic_text f.some_byte)
        (rw (reverse-append front (b'#' ∷ p), reverse-cons b'#' p, append_assoc (reverse p))
          (space_len_back-append (reverse p) b'#' (reverse front) (omega arith, omega arith) ne h))

  parse_suffix :
      (front : Bytes) (password : Option Bytes)
      → IsFront e.host e.port front
      → IsPassword password
      → password ≡ e.password
      → parse_connection_string u (front ++ password_suffix password) ≡ ok e
  unfolding password_suffix split_password
  parse_suffix front none f k p = rw (append-nil front) (
      parse_value front front none f (trim_space-graphic front f.graphic_text) f.some_byte
        (rw (cut_first-none b'#' front f.no_hash, split_password)) p)
  parse_suffix front (some q) f k p = rw k.0 (
      parse_value (front ++ b'#' ∷ q) front (some q) f (trim_with_password front q f k.1 k.2)
        (append-ne-nil front _ f.some_byte)
        (rw (cut_first-absent b'#' front q f.no_hash, split_password) (rw k.0)) p)

-- `ParseConnectionString` returns the endpoint whose `ConnectionString` it is given, for every
-- endpoint with a lower-case ASCII host of 1 to 253 printable characters other than `# / ? \ [ ]`
-- (a name, or an IPv6 address, which is printed in brackets), a port from 1 to 65535, and no
-- password or one that is not blank and does not end in white space.
pub parse-connection_string :
    (u : Tables) (e : Endpoint)
    → IsCanonical e
    → parse_connection_string u (connection_string e) ≡ ok e
unfolding connection_string
parse-connection_string u e v = rw (trim_space-graphic e.host (graphic e.host v.host.bytes)) (
    rw (← append_assoc (bracket e.host) (b':' ∷ decimal e.port) (password_suffix e.password)) (
      parse_suffix u e v (bracket e.host ++ b':' ∷ decimal e.port) e.password
        (bracket-IsFront e.host e.port v.host v.port_min v.port_max) v.password refl))
