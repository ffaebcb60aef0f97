-- ===== src/Servers/Endpoint.antt =====
-- domain/servers/server.go: endpoints, `ConnectionString`, `ParseConnectionString` and the checks
-- on an endpoint's shape. A port is a number below 2^16.
pub mod Pieces
pub mod RoundTrip
pub mod Shape
use bee_ba.Common.{
  ℕ, zero, suc, ◌+◌, ◌-◌, ◌*◌, ◌/◌, ◌%◌, ◌^◌, Bool, true, false, ◌&&◌, ◌||◌, not, List, [], ◌∷◌,
  ◌++◌, Option, none, some, Result, ok, err, ◌>>=◌, ◌>>◌, fail_if, ltb, leb, ◌==◌, if◌then◌else◌,
  within, length, drop, take, last_or,
}
use bee_ba.Common.Text.{Bytes, Tables, rune_count, trim_space, to_lower, utf8, bytes_eq}

abbrev pub default_port : ℕ
default_port = 4296

pub data EndpointError : Type 0 where
  address_required bad_ipv6_host bad_host_suffix bad_port : EndpointError
  host_required port_required host_too_long url_syntax : EndpointError
  unsafe_endpoint : EndpointError

pub record Endpoint : Type 0 where
  pub host : Bytes
  pub port : ℕ
  pub password : Option Bytes

-- strings.IndexByte: the text before the first `b` and the text after it.
unfoldable pub cut_first : ℕ → Bytes → Option (Bytes × Bytes)
cut_first b [] = none
cut_first b (x ∷ xs) =
    let rest = cut_first b xs in
    if x == b then some ([], xs) else elim rest [ none ↦ none | some (l, r) ↦ some (x ∷ l, r) ]

-- strings.LastIndexByte, likewise.
unfoldable pub cut_last : ℕ → Bytes → Option (Bytes × Bytes)
cut_last b [] = none
cut_last b (x ∷ xs) = elim (cut_last b xs) [
  | some (l, r) ↦ some (x ∷ l, r)
  | none ↦ if x == b then some ([], xs) else none
]

abbrev pub starts_with : ℕ → Bytes → Bool
starts_with b [] = false
starts_with b (x ∷ xs) = x == b

abbrev pub ends_with : ℕ → Bytes → Bool
ends_with b [] = false
ends_with b (x ∷ xs) = last_or x xs == b

abbrev pub is_empty : Bytes → Bool
is_empty s = length s == 0

unfoldable pub contains_byte : ℕ → Bytes → Bool
contains_byte b [] = false
contains_byte b (x ∷ xs) = x == b || contains_byte b xs

-- strings.ContainsAny(host, "/?#\\")
unfoldable pub has_url_syntax : Bytes → Bool
has_url_syntax [] = false
has_url_syntax (x ∷ xs) = x == b'/' || x == b'?' || x == b'#' || x == b'\\' || has_url_syntax xs

-- The decimal digits of a port, as `%d` prints them.
decimal_from : ℕ → ℕ → Bytes
decimal_from zero n = []
decimal_from (suc k) n =
    let front = decimal_from k (n / 10) in
    if ltb n 10 then (b'0' + n) ∷ [] else front ++ (b'0' + n % 10) ∷ []

-- A port has at most five digits.
unfoldable pub decimal : ℕ → Bytes
unfolding decimal_from
decimal n = decimal_from 5 n

abbrev pub is_digit : ℕ → Bool
is_digit = within b'0' b'9'

-- strconv.ParseUint(s, 10, 16): none for a text that is no number below 2^16.
unfoldable pub digits_value : ℕ → Bytes → Option ℕ
digits_value n [] = some n
digits_value n (c ∷ cs) =
    let rest = digits_value (n * 10 + (c - b'0')) cs in if is_digit c then rest else none

unfoldable pub parse_uint16 : Bytes → Option ℕ
unfolding digits_value
parse_uint16 [] = none
parse_uint16 (c ∷ cs) = elim (digits_value 0 (c ∷ cs)) [
  | none ↦ none
  | some n ↦ if ltb n (2 ^ 16) then some n else none
]

parsed_port : Option ℕ → Result EndpointError ℕ
parsed_port none = err bad_port
parsed_port (some n) = if n == 0 then err bad_port else ok n

unfoldable pub parse_port : Bytes → Result EndpointError ℕ
unfolding parsed_port
parse_port raw = parsed_port (parse_uint16 (trim_space raw))

unfoldable pub validate_endpoint_shape : Endpoint → Result EndpointError (Unit {0})
validate_endpoint_shape endpoint = do
  let host = trim_space endpoint.host
  fail_if (is_empty host) host_required
  fail_if (endpoint.port == 0) port_required
  fail_if (ltb 253 (rune_count host)) host_too_long
  fail_if (has_url_syntax host) url_syntax

-- `host[1 : len(host)-1]`
abbrev pub inner : Bytes → Bytes
inner s = take (length s - 2) (drop 1 s)

unfoldable pub normalize_host : Tables → Bytes → Bytes
normalize_host u raw =
    let host = trim_space raw in
    let bracketed = starts_with b'[' host && ends_with b']' host && ltb 1 (length host) in
    to_lower u (if bracketed then trim_space (inner host) else host)

-- The text before the first `#`, and the password behind it unless that is blank.
abbrev pub some_password : Bytes → Option Bytes
some_password raw = if is_empty (trim_space raw) then none else some raw

unfoldable pub split_password : Bytes → Bytes × Option Bytes
split_password value = elim (cut_first b'#' value) [
  | none ↦ (value, none)
  | some (l, r) ↦ (l, some_password r)
]

-- The suffix behind the closing bracket.
unfoldable pub bracket_port : Bytes → Result EndpointError ℕ
bracket_port [] = ok default_port
bracket_port (c ∷ cs) = if c == b':' then parse_port cs else err bad_host_suffix

unfoldable pub split_bracketed : Bytes → Result EndpointError (Bytes × ℕ)
split_bracketed host = elim (cut_first b']' host) [
  | none ↦ err bad_ipv6_host
  | some (l, r) ↦ do port ← bracket_port (trim_space r); ok (trim_space (drop 1 l), port)
]

-- A port that does not parse is left in the host.
port_or_host : Bytes → Bytes → Result EndpointError ℕ → Bytes × ℕ
port_or_host host l (ok port) = (trim_space l, port)
port_or_host host l (err e) = (host, default_port)

unfoldable pub split_plain : Bytes → Bytes × ℕ
unfolding port_or_host
split_plain host = elim (cut_last b':' host) [
  | none ↦ (host, default_port)
  | some (l, r) ↦
      if is_empty l || is_empty r then (host, default_port) else port_or_host host l (parse_port r)
]

unfoldable pub split_host : Bytes → Result EndpointError (Bytes × ℕ)
split_host host = if starts_with b'[' host then split_bracketed host else ok (split_plain host)

unfoldable pub parse_connection_string : Tables → Bytes → Result EndpointError Endpoint
parse_connection_string u raw = do
  let value = trim_space raw
  fail_if (is_empty value) address_required
  let (left, password) = split_password value
  (host, port) ← split_host (trim_space left)
  let endpoint : Endpoint = record {
    host = normalize_host u host;
    port = port;
    password = password;
  }
  validate_endpoint_shape endpoint
  ok endpoint

unfoldable pub bracket : Bytes → Bytes
bracket host =
    if contains_byte b':' host && not (starts_with b'[' host) && not (ends_with b']' host)
    then b'[' ∷ (host ++ b']' ∷ [])
    else host

unfoldable pub password_suffix : Option Bytes → Bytes
password_suffix none = []
password_suffix (some password) = if is_empty (trim_space password) then [] else b'#' ∷ password

unfoldable pub connection_string : Endpoint → Bytes
connection_string e =
    bracket (trim_space e.host) ++ (b':' ∷ (decimal e.port ++ password_suffix e.password))
