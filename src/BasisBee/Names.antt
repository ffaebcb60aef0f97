-- ===== src/BasisBee/Names.antt =====
-- security/basisbee/validator.go: `validateString`, `validateTags`, `validateAssetMode` and
-- `allowedPlatform`.
pub mod Spec
use bee_ba.Common.{
  ℕ, Bool, true, false, ◌&&◌, ◌||◌, not, List, [], ◌∷◌, Result, ok, err, ◌>>=◌, ◌>>◌, fail_if, ltb,
  ◌==◌, if◌then◌else◌, length,
}
use bee_ba.Common.Text.{Bytes, Tables, utf8, bytes_eq, contains, valid_utf8, trim_space, to_lower}
use bee_ba.BasisBee.Types.{
  Error, missing, not_utf8, too_long, too_many_tags, duplicate_tag, missing_mode, unsupported_mode,
  max_tags, max_tag_bytes,
}

abbrev pub is_empty : Bytes → Bool
is_empty s = length s == 0

-- A string that is blank once trimmed.
abbrev pub is_blank : Bytes → Bool
is_blank s = is_empty (trim_space s)

unfoldable pub validate_string : Bytes → ℕ → Bool → Result Error (Unit {0})
validate_string value max_bytes required = do
  fail_if (required && is_blank value) missing
  fail_if (not (is_empty value) && not (valid_utf8 value)) not_utf8
  fail_if (ltb max_bytes (length value)) too_long

abbrev pub fold_key : Tables → Bytes → Bytes
fold_key u s = to_lower u (trim_space s)

unfoldable pub tags_loop : Tables → List Bytes → List Bytes → Result Error (Unit {0})
tags_loop u seen [] = ok tt
tags_loop u seen (tag ∷ tags) = do
  validate_string tag max_tag_bytes false
  let key = fold_key u tag
  let skipped = tags_loop u seen tags
  let recorded = tags_loop u (key ∷ seen) tags
  if is_blank tag then skipped else if contains key seen then err duplicate_tag else recorded

unfoldable pub validate_tags : Tables → List Bytes → Result Error (Unit {0})
unfolding tags_loop validate_string
validate_tags u tags = do fail_if (ltb max_tags (length tags)) too_many_tags; tags_loop u [] tags

abbrev pub asset_modes : List Bytes
asset_modes = utf8 "Scene" ∷ utf8 "GameObject" ∷ utf8 "Gameobject" ∷ []

unfoldable pub validate_asset_mode : Bytes → Result Error (Unit {0})
unfolding contains
validate_asset_mode mode = do
  let trimmed = trim_space mode
  fail_if (is_empty trimmed) missing_mode
  fail_if (not (contains trimmed asset_modes)) unsupported_mode

abbrev pub platforms : List Bytes
platforms =
    utf8 "StandaloneWindows"
    ∷ utf8 "StandaloneWindows64"
    ∷ utf8 "StandaloneOSX"
    ∷ utf8 "Android"
    ∷ utf8 "iOS"
    ∷ utf8 "StandaloneLinux64"
    ∷ []

unfoldable pub allowed_platform : Bytes → Bool
unfolding contains
allowed_platform platform = contains (trim_space platform) platforms
