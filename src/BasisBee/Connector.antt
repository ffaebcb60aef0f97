-- ===== src/BasisBee/Connector.antt =====
-- security/basisbee/validator.go: `validateConnector`.
pub mod Sections
pub mod Loop
pub mod Overflow
pub mod Spec
use bee_ba.Common.{
  ℕ, Bool, true, false, ◌&&◌, ◌||◌, not, List, [], ◌∷◌, Option, none, some, Result, ok, err, ◌>>=◌,
  ◌>>◌, fail_if, ltb, ◌==◌, if◌then◌else◌, length,
}
use bee_ba.Common.Int.{ℤ, pos, negsuc, add_int64, sub_int64, leb_int, ltb_int, max_int64}
use bee_ba.Common.Text.{Bytes, Tables, contains}
use bee_ba.BasisBee.Names.{
  validate_string, validate_tags, validate_asset_mode, allowed_platform, is_blank, fold_key,
}
use bee_ba.BasisBee.Types.{
  Error, Generated, ComponentName, Metadata, Connector, max_section_bytes, max_platforms,
  max_string_bytes, max_description_bytes, max_graphics_apis, max_components, no_platforms,
  too_many_platforms, negative_counter, too_many_components, negative_count, bad_end_byte,
  end_byte_exceeds_max, sections_overflow, sections_exceed_max, unsupported_platform,
  duplicate_platform, missing_bundle_password, bundle_password_long, too_many_apis,
  section_bytes_mismatch,
}

abbrev pub eq_int : ℤ → ℤ → Bool
eq_int (pos a) (pos b) = a == b
eq_int (pos a) (negsuc b) = false
eq_int (negsuc a) (pos b) = false
eq_int (negsuc a) (negsuc b) = a == b

-- A nil slice has length 0.
abbrev pub items {ℓ} : {A : Type ℓ} → Option (List A) → List A
items none = []
items (some xs) = xs

unfoldable pub validate_components : List ComponentName → Result Error (Unit {0})
validate_components [] = ok tt
validate_components (component ∷ components) = do
  validate_string component.name max_string_bytes false
  fail_if (ltb_int component.count (pos 0)) negative_count
  validate_components components

unfoldable pub validate_apis : List Bytes → Result Error (Unit {0})
validate_apis [] = ok tt
validate_apis (api ∷ apis) = do validate_string api max_string_bytes false; validate_apis apis

-- `declaredSections += generated.EndByte`, with the tests before and after it.
unfoldable pub add_declared : ℤ → ℤ → Result Error ℤ
unfolding add_int64 sub_int64
add_declared declared end_byte = do
  fail_if (leb_int end_byte (pos 0)) bad_end_byte
  fail_if (ltb_int (pos max_section_bytes) end_byte) end_byte_exceeds_max
  fail_if (ltb_int (sub_int64 (pos max_int64) end_byte) declared) sections_overflow
  let total = add_int64 declared end_byte
  fail_if (ltb_int (pos max_section_bytes) total) sections_exceed_max
  ok total

-- The tests on one section that need neither the sum nor the platforms seen before.
unfoldable pub validate_names : Generated → Result Error (Unit {0})
validate_names generated = do
  validate_string generated.asset_bundle_hash max_string_bytes true
  validate_string generated.asset_to_load_name max_string_bytes true
  validate_string generated.platform max_string_bytes true
  fail_if (not (allowed_platform generated.platform)) unsupported_platform

unfoldable pub validate_bundle : Generated → Result Error (Unit {0})
unfolding validate_apis
validate_bundle generated = do
  validate_asset_mode generated.asset_mode
  fail_if (generated.is_encrypted && is_blank generated.password) missing_bundle_password
  fail_if (ltb max_string_bytes (length generated.password)) bundle_password_long
  fail_if (ltb max_graphics_apis (length generated.graphics_apis)) too_many_apis
  validate_apis generated.graphics_apis

-- The loop over the sections; it returns the sum of their declared sizes.
unfoldable pub sections_loop : Tables → List Bytes → ℤ → List Generated → Result Error ℤ
sections_loop u seen declared [] = ok declared
sections_loop u seen declared (generated ∷ rest) = do
  total ← add_declared declared generated.end_byte
  validate_names generated
  let key = fold_key u generated.platform
  fail_if (contains key seen) duplicate_platform
  validate_bundle generated
  sections_loop u (key ∷ seen) total rest

unfoldable pub validate_metadata : Metadata → Result Error (Unit {0})
validate_metadata m = do
  fail_if
      (ltb_int m.triangles_count (pos 0)
        || ltb_int m.material_count (pos 0)
        || ltb_int m.bones_count (pos 0)
        || ltb_int m.texture_memory_bytes (pos 0))
      negative_counter
  validate_string m.graphics_pipeline max_string_bytes false
  fail_if (ltb max_components (length m.component_names)) too_many_components
  validate_components m.component_names

unfoldable pub validate_connector : Tables → Connector → ℤ → Result Error (Unit {0})
validate_connector u connector section_bytes = do
  let description = connector.basis_bundle_description
  let generated = items connector.basis_bundle_generated
  validate_string connector.unique_version max_string_bytes true
  validate_string description.asset_bundle_name max_string_bytes true
  validate_string description.asset_bundle_description max_description_bytes false
  validate_tags u description.tags
  fail_if (length generated == 0) no_platforms
  fail_if (ltb max_platforms (length generated)) too_many_platforms
  validate_metadata connector.meta_data
  declared ← sections_loop u [] (pos 0) generated
  fail_if (not (eq_int declared section_bytes)) section_bytes_mismatch
