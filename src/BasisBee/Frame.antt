-- ===== src/BasisBee/Frame.antt =====
-- security/basisbee/validator.go: `readRemoteSDKBEE` and `countingReader`. A reader is the bytes it
-- yields and whether it ends with an error in place of io.EOF.
pub mod Layout
use bee_ba.Common.{
  ℕ, ◌+◌, ◌*◌, ◌/◌, ◌%◌, zero, suc, Bool, true, ◌&&◌, List, [], ◌∷◌, Result, ok, ◌>>=◌, ◌>>◌,
  fail_if, ltb, length, take, drop,
}
use bee_ba.Common.Int.{ℤ, pos, negsuc, wrap_int64, add_int64, leb_int, ltb_int}
use bee_ba.Common.Text.{Bytes}
use bee_ba.BasisBee.Types.{
  BeeResult, Error, remote_header_size, max_connector_bytes, max_section_bytes,
  encrypted_min_length, header_short, connector_not_positive, connector_exceeds_max,
  connector_too_small, connector_exceeds_limit, connector_short, section_read_failed,
  no_section_bytes, section_exceeds_max, size_exceeds_limit,
}

pub record Stream : Type 0 where
  pub bytes : Bytes
  pub fails : Bool

-- binary.LittleEndian, reading and appending
unfoldable pub le_value : Bytes → ℕ
le_value [] = 0
le_value (b ∷ bs) = b + 256 * le_value bs

unfoldable pub le_bytes : ℕ → ℕ → Bytes
le_bytes zero n = []
le_bytes (suc k) n = (n % 256) ∷ le_bytes k (n / 256)

-- `maxBytes > 0 && value > maxBytes`
abbrev pub over_limit : ℤ → ℤ → Bool
over_limit max_bytes value = ltb_int (pos 0) max_bytes && ltb_int max_bytes value

-- The count of bytes that a positive int64 stands for.
abbrev pub count_of : ℤ → ℕ
count_of (pos n) = n
count_of (negsuc n) = 0

unfoldable pub check_connector_length : ℤ → ℤ → Result Error (Unit {0})
check_connector_length connector_bytes max_bytes = do
  fail_if (leb_int connector_bytes (pos 0)) connector_not_positive
  fail_if (ltb_int (pos max_connector_bytes) connector_bytes) connector_exceeds_max
  fail_if (ltb_int connector_bytes (pos encrypted_min_length)) connector_too_small
  fail_if (over_limit max_bytes (add_int64 (pos remote_header_size) connector_bytes))
      connector_exceeds_limit

unfoldable pub check_section_length : ℤ → ℤ → ℤ → Result Error (Unit {0})
check_section_length section_bytes size max_bytes = do
  fail_if (leb_int section_bytes (pos 0)) no_section_bytes
  fail_if (ltb_int (pos max_section_bytes) section_bytes) section_exceeds_max
  fail_if (over_limit max_bytes size) size_exceeds_limit

-- `sum256` stands for hex(sha256(...)) of all bytes read.
module _ (sum256 : Bytes → Bytes) where
  unfoldable pub frame_result : Bytes → ℤ → ℤ → BeeResult
  unfolding wrap_int64
  frame_result bytes connector_bytes section_bytes = record {
    size = wrap_int64 (length bytes);
    sha256 = sum256 bytes;
    connector_bytes = connector_bytes;
    section_bytes = section_bytes;
    header_bytes = remote_header_size;
    remote_sdk_format = true;
    unique_version = [];
    asset_name = [];
    asset_mode = [];
    platform_count = 0;
  }

  unfoldable pub read_remote : Stream → ℤ → Result Error (BeeResult × Bytes)
  read_remote reader max_bytes = do
    fail_if (ltb (length reader.bytes) remote_header_size) header_short
    let connector_bytes = wrap_int64 (le_value (take remote_header_size reader.bytes))
    check_connector_length connector_bytes max_bytes
    let rest = drop remote_header_size reader.bytes
    fail_if (ltb (length rest) (count_of connector_bytes)) connector_short
    let section = drop (count_of connector_bytes) rest
    fail_if reader.fails section_read_failed
    let section_bytes = wrap_int64 (length section)
    check_section_length section_bytes (wrap_int64 (length reader.bytes)) max_bytes
    ok (
      frame_result reader.bytes connector_bytes section_bytes,
      take (count_of connector_bytes) rest,
    )
