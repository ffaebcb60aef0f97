-- ===== src/BasisBee/Types.antt =====
-- security/basisbee/validator.go: the limits, the records and the errors of the BEE validator.
use bee_ba.Common.{ℕ, ◌*◌, Bool, List, Option}
use bee_ba.Common.Int.{ℤ}
use bee_ba.Common.Text.{Bytes}

abbrev pub remote_header_size : ℕ
remote_header_size = 8

abbrev pub max_connector_bytes : ℕ
max_connector_bytes = 64 * 1024 * 1024

abbrev pub max_section_bytes : ℕ
max_section_bytes = 4 * 1024 * 1024 * 1024

abbrev pub encrypted_min_length : ℕ
encrypted_min_length = 33

abbrev pub max_platforms : ℕ
max_platforms = 16

abbrev pub max_string_bytes : ℕ
max_string_bytes = 512

abbrev pub max_description_bytes : ℕ
max_description_bytes = 8192

abbrev pub max_tags : ℕ
max_tags = 64

abbrev pub max_tag_bytes : ℕ
max_tag_bytes = 64

abbrev pub max_graphics_apis : ℕ
max_graphics_apis = 16

abbrev pub max_components : ℕ
max_components = 256

-- aes.BlockSize
abbrev pub block_size : ℕ
block_size = 16

-- `Result`
pub record BeeResult : Type 0 where
  pub size : ℤ
  pub sha256 : Bytes
  pub connector_bytes : ℤ
  pub section_bytes : ℤ
  pub header_bytes : ℕ
  pub remote_sdk_format : Bool
  pub unique_version : Bytes
  pub asset_name : Bytes
  pub asset_mode : Bytes
  pub platform_count : ℕ

pub record Description : Type 0 where
  pub asset_bundle_name : Bytes
  pub asset_bundle_description : Bytes
  pub tags : List Bytes

pub record Generated : Type 0 where
  pub asset_bundle_hash : Bytes
  pub asset_mode : Bytes
  pub asset_to_load_name : Bytes
  pub asset_bundle_crc : ℕ
  pub is_encrypted : Bool
  pub password : Bytes
  pub platform : Bytes
  pub end_byte : ℤ
  pub graphics_apis : List Bytes

pub record ComponentName : Type 0 where
  pub name : Bytes
  pub count : ℤ

pub record Metadata : Type 0 where
  pub triangles_count : ℤ
  pub material_count : ℤ
  pub bones_count : ℤ
  pub texture_memory_bytes : ℤ
  pub graphics_pipeline : Bytes
  pub component_names : List ComponentName

-- `none` is the nil slice, which `parseConnectorJSON` tells from an empty one.
pub record Connector : Type 0 where
  pub unique_version : Bytes
  pub basis_bundle_description : Description
  pub basis_bundle_generated : Option (List Generated)
  pub image_base64 : Bytes
  pub date_of_creation : Bytes
  pub meta_data : Metadata

-- One constructor for each message of the validator, without its formatted values.
pub data Error : Type 0 where
  header_short connector_not_positive connector_exceeds_max connector_too_small : Error
  connector_exceeds_limit connector_short section_read_failed no_section_bytes : Error
  section_exceeds_max size_exceeds_limit : Error
  password_required encrypted_short not_block_aligned bad_cipher_key : Error
  pkcs7_length pkcs7_padding : Error
  bad_json section_count_mismatch : Error
  missing not_utf8 too_long too_many_tags duplicate_tag : Error
  no_platforms too_many_platforms negative_counter too_many_components negative_count : Error
  bad_end_byte end_byte_exceeds_max sections_overflow sections_exceed_max : Error
  unsupported_platform duplicate_platform missing_mode unsupported_mode : Error
  missing_bundle_password bundle_password_long too_many_apis section_bytes_mismatch : Error
