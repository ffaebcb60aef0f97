-- ===== src/Common/Text.antt =====
-- Go strings: the names of the children, passed on.
mod Strings
mod Utf8
mod Space
mod Case
mod Ascii
unfoldable pub use Strings.{bytes_eq, contains}
pub use Strings.{Bytes, bytes_eq_iff, NotIn, Distinct, contains-NotIn}
pub use Utf8.{encode_rune, utf8}
unfoldable pub use Utf8.{rune_len, valid_utf8, rune_count, runes}
unfoldable pub use Space.{space_len, space_len_back, trim_by, trim_space}
pub use Case.{Tables}
unfoldable pub use Case.{rune_lower, encode_runes, to_lower}
pub use Ascii.*
