-- ===== src/BasisBee/Frame/Layout.antt =====
-- The files that `readRemoteSDKBEE` accepts: a length, a connector and a section, and nothing else.
use native.Mathlib.Nat.{pow-suc}
use mathlib.Core.Path.{ap₂}
use bee_ba.Common.{
  ℕ, zero, suc, ◌+◌, ◌*◌, ◌^◌, ◌/◌, ◌≤◌, ◌<◌, ◌≡◌, ◌≢◌, ◌↔◌, ◌⊎◌, refl, ap, sym, ◌∙◌, false, [],
  ◌∷◌, ◌++◌, ok, arith, inl, inr, length, take, drop, All, All-take, length-append,
  take-length-append, drop-length-append, take-append_of_length, drop-append_of_length,
  take-append-drop, length-drop, length-take,
}
use bee_ba.Common.Int.{
  ℤ, pos, negsuc, wrap_int64, wrap_int64-small, wrap_int64-eq-pos, add_int64-pos,
}
use bee_ba.Common.Text.{Bytes}
use bee_ba.BasisBee.Frame.{
  Stream, le_value, le_bytes, over_limit, check_connector_length, check_section_length,
  frame_result, read_remote,
}
use bee_ba.BasisBee.Types.{
  BeeResult, max_connector_bytes, max_section_bytes, encrypted_min_length, remote_header_size,
}

abbrev pub IsByte : ℕ → Type 0
IsByte b = b < 256

pub length-le_bytes : (k n : ℕ) → length (le_bytes k n) ≡ k
unfolding le_bytes
length-le_bytes zero n = refl
length-le_bytes (suc k) n = ap suc (length-le_bytes k (n / 256))

pub le_value-le_bytes : (k n : ℕ) → n < 256 ^ k → le_value (le_bytes k n) ≡ n
unfolding le_bytes le_value
le_value-le_bytes zero n h = omega arith
le_value-le_bytes (suc k) n h =
    let bound : n < 256 ^ k * 256 = rw pow-suc at h in
    omega (arith, le_value-le_bytes k (n / 256) (omega arith))

pub le_bytes-le_value : (bs : Bytes) → All IsByte bs → le_bytes (length bs) (le_value bs) ≡ bs
unfolding le_bytes le_value
le_bytes-le_value [] h = refl
le_bytes-le_value (b ∷ bs) (h, t) = ap₂ ◌∷◌ (omega arith) (rw e (le_bytes-le_value bs t))
  where
    e : (b + 256 * le_value bs) / 256 ≡ le_value bs
    e = omega arith

pub le_value_lt : (bs : Bytes) → All IsByte bs → le_value bs < 256 ^ length bs
unfolding le_value
le_value_lt [] h = omega arith
le_value_lt (b ∷ bs) (h, t) = rw pow-suc (omega (arith, le_value_lt bs t))

-- `maxBytes` is no limit, or `n` bytes are within it.
abbrev pub FitsLimit : ℤ → ℕ → Type 0
FitsLimit (pos m) n = (m ≡ 0) ⊎ (n ≤ m)
FitsLimit (negsuc m) n = Unit {0}

over_limit-pos : (max : ℤ) (n : ℕ) → (over_limit max (pos n) ≡ false) ↔ FitsLimit max n
over_limit-pos (pos m) n = (λ h. ground arith, λ h. ground arith)
over_limit-pos (negsuc m) n = (λ h. tt, λ h. refl)

FitsLimit-le : (max : ℤ) {m n : ℕ} → m ≤ n → FitsLimit max n → FitsLimit max m
FitsLimit-le (pos k) h (inl e) = inl e
FitsLimit-le (pos k) h (inr e) = inr (omega arith)
FitsLimit-le (negsuc k) h t = tt

-- The connector's length as eight little-endian bytes, the connector, and the bundle's section.
pub record IsFrame (reader : Stream) (max : ℤ) (connector section : Bytes) : Type 0 where
  pub layout :
      reader.bytes ≡ le_bytes remote_header_size (length connector) ++ (connector ++ section)
  pub complete : reader.fails ≡ false
  pub connector_min : encrypted_min_length ≤ length connector
  pub connector_max : length connector ≤ max_connector_bytes
  pub section_min : 0 < length section
  pub section_max : length section ≤ max_section_bytes
  pub fits : FitsLimit max (length reader.bytes)

check_connector_length-pos :
    (n : ℕ) (max : ℤ)
    → (check_connector_length (pos n) max ≡ ok tt)
      ↔ (encrypted_min_length ≤ n)
        × (n ≤ max_connector_bytes)
        × FitsLimit max (remote_header_size + n)
unfolding check_connector_length
check_connector_length-pos n (pos m) =
    (λ h. ground (arith, add_int64-pos 8 n), λ h. ground (arith, add_int64-pos 8 n))
check_connector_length-pos n (negsuc m) = (λ h. ground arith, λ h. ground arith)

check_connector_length-negsuc : (n : ℕ) (max : ℤ) → check_connector_length (negsuc n) max ≢ ok tt
unfolding check_connector_length
check_connector_length-negsuc n max = λ h. cc

check_section_length-pos :
    (n size : ℕ) (max : ℤ)
    → (check_section_length (pos n) (pos size) max ≡ ok tt)
      ↔ (0 < n) × (n ≤ max_section_bytes) × FitsLimit max size
unfolding check_section_length
check_section_length-pos n size (pos m) = (λ h. ground arith, λ h. ground arith)
check_section_length-pos n size (negsuc m) = (λ h. ground arith, λ h. ground arith)

header_is :
    (header : Bytes) (n : ℕ)
    → All IsByte header
    → length header ≡ 8
    → wrap_int64 (le_value header) ≡ pos n
    → header ≡ le_bytes 8 n
header_is header n bytes h e =
    let bound : le_value header < 2 ^ 64 = rw h at (le_value_lt header bytes) in
    let value : le_value header ≡ n = wrap_int64-eq-pos (le_value header) n bound e in
    sym (rw (h, value) at (le_bytes-le_value header bytes))

module _ (sum256 : Bytes → Bytes) where
  -- The reading of a reader whose parts are known.
  read_parts :
      (reader : Stream) (max : ℤ) (header connector section : Bytes)
      → reader.bytes ≡ header ++ (connector ++ section)
      → length header ≡ remote_header_size
      → wrap_int64 (le_value header) ≡ pos (length connector)
      → length reader.bytes < 2 ^ 63
      → (read_remote sum256 reader max
          ≡ ok (
            frame_result sum256 reader.bytes (pos (length connector)) (pos (length section)),
            connector,
          ))
        ↔ (reader.fails ≡ false)
          × (check_connector_length (pos (length connector)) max ≡ ok tt)
          × (check_section_length (pos (length section)) (pos (length reader.bytes)) max ≡ ok tt)
  unfolding read_remote
  read_parts reader max header connector section e h w small =
      let front : take remote_header_size reader.bytes ≡ header =
        rw e (take-append_of_length 8 header (connector ++ section) h) in
      let behind : drop remote_header_size reader.bytes ≡ connector ++ section =
        rw e (drop-append_of_length 8 header (connector ++ section) h) in
      let total : length reader.bytes ≡ 8 + (length connector + length section) =
        rw (e, length-append header (connector ++ section), h, length-append connector section) in
      let cut : drop (length connector) (connector ++ section) ≡ section =
        drop-length-append connector section in
      let kept : take (length connector) (connector ++ section) ≡ connector =
        take-length-append connector section in
      let size = wrap_int64-small (length reader.bytes) small in
      let section_size : wrap_int64 (length section) ≡ pos (length section) =
        wrap_int64-small (length section) (omega (arith, total)) in
      let joined = length-append connector section in (λ r. ground arith, λ c. ground arith)

  -- What a successful call has read, before the lengths are related.
  record Inverted (reader : Stream) (res : BeeResult) (connector : Bytes) : Type 0 where
    count : ℕ
    header_read : 8 ≤ length reader.bytes
    prefix_is : wrap_int64 (le_value (take 8 reader.bytes)) ≡ pos count
    connector_read : count ≤ length (drop 8 reader.bytes)
    connector_is : connector ≡ take count (drop 8 reader.bytes)
    res_is :
        res
        ≡ frame_result sum256 reader.bytes
            (pos count)
            (wrap_int64 (length (drop count (drop 8 reader.bytes))))

  invert :
      (reader : Stream) (max : ℤ) (res : BeeResult) (connector : Bytes) (w : ℤ)
      → wrap_int64 (le_value (take 8 reader.bytes)) ≡ w
      → read_remote sum256 reader max ≡ ok (res, connector)
      → Inverted reader res connector
  unfolding read_remote
  invert reader max res connector (pos n) e h = record {
    count = n;
    header_read = ground arith;
    prefix_is = e;
    connector_read = ground arith;
    connector_is = ground arith;
    res_is = ground arith;
  }
  invert reader max res connector (negsuc n) e h =
      absurd (ground (arith, check_connector_length-negsuc n max))

  Inverted-IsFrame :
      (reader : Stream) (max : ℤ) {res : BeeResult} {connector : Bytes}
      → All IsByte reader.bytes
      → length reader.bytes < 2 ^ 63
      → read_remote sum256 reader max ≡ ok (res, connector)
      → Inverted reader res connector
      → (section : Bytes) × IsFrame reader max connector section
        × (res ≡ frame_result sum256 reader.bytes (pos (length connector)) (pos (length section)))
  Inverted-IsFrame reader max {res} {connector} bytes small h v =
      let rest = drop 8 reader.bytes in
      let header = take 8 reader.bytes in
      let section = drop v.count rest in
      let clen : length connector ≡ v.count =
        rw (v.connector_is, length-take v.count rest) (omega (arith, v.connector_read)) in
      let slen : wrap_int64 (length section) ≡ pos (length section) =
        wrap_int64-small (length section)
          (omega (arith, length-drop v.count rest, length-drop 8 reader.bytes)) in
      let whole : connector ++ section ≡ rest = rw v.connector_is (take-append-drop v.count rest) in
      let split : reader.bytes ≡ header ++ (connector ++ section) =
        rw whole (sym (take-append-drop 8 reader.bytes)) in
      let hlen : length header ≡ 8 = length-take 8 reader.bytes ∙ omega (arith, v.header_read) in
      let result : res
          ≡ frame_result sum256 reader.bytes (pos (length connector)) (pos (length section)) =
        rw (v.res_is, clen, slen) refl in
      let parts =
        (read_parts reader max header connector section split hlen (rw clen v.prefix_is) small).0
          (rw (← result) h) in
      let front = (check_connector_length-pos (length connector) max).0 parts.1 in
      let back = (check_section_length-pos (length section) (length reader.bytes) max).0 parts.2 in
      (
        section,
        record {
          layout =
              rw
                (← header_is header (length connector) (All-take IsByte 8 reader.bytes bytes) hlen
                  (rw clen v.prefix_is))
                split;
          complete = parts.0;
          connector_min = front.0;
          connector_max = front.1;
          section_min = back.0;
          section_max = back.1;
          fits = back.2;
        },
        result,
      )

  IsFrame-prefix :
      {reader : Stream} {max : ℤ} {connector section : Bytes}
      → IsFrame reader max connector section
      → wrap_int64 (le_value (le_bytes 8 (length connector))) ≡ pos (length connector)
  IsFrame-prefix {connector = connector} f =
      rw (le_value-le_bytes 8 (length connector) (omega (arith, f.connector_max)))
        (wrap_int64-small (length connector) (omega (arith, f.connector_max)))

  IsFrame-checks :
      {reader : Stream} {max : ℤ} {connector section : Bytes}
      → IsFrame reader max connector section
      → (reader.fails ≡ false)
        × (check_connector_length (pos (length connector)) max ≡ ok tt)
        × (check_section_length (pos (length section)) (pos (length reader.bytes)) max ≡ ok tt)
  IsFrame-checks {reader} {max} {connector} {section} f =
      let total : length reader.bytes ≡ 8 + (length connector + length section) = rw (
        f.layout,
        length-append (le_bytes 8 (length connector)) (connector ++ section),
        length-le_bytes 8 (length connector),
        length-append connector section,
      ) in
      (
        f.complete,
        (check_connector_length-pos (length connector) max).1
            (f.connector_min, f.connector_max, FitsLimit-le max (omega (arith, total)) f.fits),
        (check_section_length-pos (length section) (length reader.bytes) max).1
            (f.section_min, f.section_max, f.fits),
      )

  -- For a file of bytes shorter than 2^63, `readRemoteSDKBEE` succeeds exactly when the reader ends
  -- without an error and the file is an 8-byte little-endian length, a connector of that length
  -- within 33 bytes and 64 MiB, and a section of 1 byte to 4 GiB, all within a positive `maxBytes`.
  -- It returns that connector, and the sizes and the digest of exactly these parts.
  pub read_remote_iff :
      (reader : Stream) (max : ℤ) (res : BeeResult) (connector : Bytes)
      → All IsByte reader.bytes
      → length reader.bytes < 2 ^ 63
      → (read_remote sum256 reader max ≡ ok (res, connector)) ↔ (
          (section : Bytes) × IsFrame reader max connector section
          × (res
              ≡ frame_result sum256 reader.bytes (pos (length connector)) (pos (length section))))
  read_remote_iff reader max res connector bytes small = (
    λ h. Inverted-IsFrame reader max bytes small h (invert reader max res connector _ refl h),
    λ (section, f, e). rw e (
        (read_parts reader max (le_bytes 8 (length connector)) connector section f.layout
            (length-le_bytes 8 (length connector)) (IsFrame-prefix f) small).1
          (IsFrame-checks f)),
  )
