-- ===== src/BasisBee/Tests.antt =====
-- Runs of the BEE validator at concrete inputs.
use bee_ba.Common.{
  ◌≡◌, ◌≢◌, refl, ltb, Bool, true, false, none, some, [], ◌∷◌, ◌++◌, ok, err, arith, length,
  replicate, All,
}
use bee_ba.Common.Int.{pos, wrap_int64, add_int64, sub_int64}
use bee_ba.Common.Text.{
  Bytes, Tables, utf8, valid_utf8, trim_space, trim_by, space_len, space_len_back, to_lower, runes,
  rune_len, rune_lower, encode_runes, bytes_eq, contains,
}
use bee_ba.BasisBee.Types.{BeeResult, Generated, Connector, sections_overflow}
use bee_ba.BasisBee.Frame.{
  Stream, read_remote, check_connector_length, check_section_length, frame_result, le_value,
}
use bee_ba.BasisBee.Frame.Layout.{IsByte, IsFrame, read_remote_iff}
use bee_ba.BasisBee.Json.{
  RawConnector, parse_connector_json, unmarshal_connector, unmarshal_value,
  parse_generated_sections,
}
use bee_ba.BasisBee.Pkcs7.{
  decrypt_basis_bytes, pkcs7_unpad, pkcs7_pad, scan_padding, constant_time_byte_eq,
}
use bee_ba.BasisBee.Pkcs7.RoundTrip.{pkcs7_unpad_iff}
use bee_ba.BasisBee.Names.{
  validate_string, validate_tags, tags_loop, validate_asset_mode, allowed_platform,
}
use bee_ba.BasisBee.Names.Spec.{IsString, IsTags, validate_string_iff, validate_tags_iff}
use bee_ba.BasisBee.Connector.{
  validate_connector, validate_metadata, validate_components, sections_loop, add_declared,
  validate_names, validate_bundle, validate_apis,
}
use bee_ba.BasisBee.Connector.Spec.{
  IsConnector, validate_connector_iff, validate_connector-ne-overflow,
}
use bee_ba.BasisBee.Validator.{Host, validate_with_password}
use bee_ba.BasisBee.Validator.Accepts.{Accepted, validate_with_password_iff}

abbrev pub plain_tables : Tables
plain_tables = record { lower = λ c. c; letter = λ c. false; digit = λ c. false }

abbrev pub raw_connector : RawConnector
raw_connector = record {
  unique_version = utf8 "1";
  basis_bundle_description = record {
    asset_bundle_name = utf8 "Lamp";
    asset_bundle_description = [];
    tags = utf8 "Light" ∷ [];
  };
  basis_bundle_generated = utf8 "[]";
  image_base64 = [];
  date_of_creation = [];
  meta_data = record {
    triangles_count = pos 12;
    material_count = pos 1;
    bones_count = pos 0;
    texture_memory_bytes = pos 0;
    graphics_pipeline = [];
    component_names = [];
  };
}

abbrev pub linux_section : Generated
linux_section = record {
  asset_bundle_hash = utf8 "h";
  asset_mode = utf8 "GameObject";
  asset_to_load_name = utf8 "lamp";
  asset_bundle_crc = 7;
  is_encrypted = false;
  password = [];
  platform = utf8 "StandaloneLinux64";
  end_byte = pos 3;
  graphics_apis = [];
}

abbrev pub sample_connector : Connector
sample_connector = record {
  unique_version = raw_connector.unique_version;
  basis_bundle_description = raw_connector.basis_bundle_description;
  basis_bundle_generated = some (linux_section ∷ []);
  image_base64 = [];
  date_of_creation = [];
  meta_data = raw_connector.meta_data;
}

-- A cipher that leaves the text as it is, and a decoder that knows one text.
abbrev pub sample_host : Host
sample_host = record {
  sum256 = λ b. length b ∷ [];
  crypto = record {
    Cipher = Unit {0};
    derive_key = λ password salt. password;
    new_cipher = λ key. some tt;
    cbc_decrypt = λ c iv text. text;
  };
  codec = record {
    raw = λ t. some raw_connector;
    list = λ t. some (linux_section ∷ []);
    wrapped = λ t. none;
    single = λ t. none;
    value = λ t. none;
  };
  tables = plain_tables;
}

-- A salt, a vector, and a block of two bytes with their padding.
abbrev pub sample_encrypted : Bytes
sample_encrypted = replicate 32 0 ++ (utf8 "{}" ++ replicate 14 14)

abbrev pub sample_file : Stream
sample_file = record {
  bytes = 48 ∷ (replicate 7 0 ++ (sample_encrypted ++ (1 ∷ (2 ∷ (3 ∷ [])))));
  fails = false;
}

abbrev pub sample_result : BeeResult
sample_result = record {
  size = pos 59;
  sha256 = 59 ∷ [];
  connector_bytes = pos 48;
  section_bytes = pos 3;
  header_bytes = 8;
  remote_sdk_format = true;
  unique_version = utf8 "1";
  asset_name = utf8 "Lamp";
  asset_mode = utf8 "GameObject";
  platform_count = 1;
}

pub sample_run :
    validate_with_password sample_host sample_file (utf8 "pw") (pos 1000)
    ≡ ok (sample_result, sample_connector)
unfolding validate_with_password read_remote check_connector_length check_section_length
    frame_result le_value wrap_int64 decrypt_basis_bytes pkcs7_unpad scan_padding
    constant_time_byte_eq parse_connector_json unmarshal_connector unmarshal_value
    parse_generated_sections trim_space trim_by space_len space_len_back bytes_eq validate_connector
    validate_string valid_utf8 rune_len validate_tags tags_loop to_lower runes rune_lower
    encode_runes contains validate_metadata validate_components sections_loop add_declared add_int64
    sub_int64 validate_names validate_bundle validate_apis validate_asset_mode allowed_platform
sample_run = refl

abbrev are_bytes : Bytes → Bool
are_bytes [] = true
are_bytes (b ∷ bs) = elim (ltb b 256) [ true ↦ are_bytes bs | false ↦ false ]

are_bytes-All : (bs : Bytes) → are_bytes bs ≡ true → All IsByte bs
are_bytes-All [] h = tt
are_bytes-All (b ∷ bs) h = (ground (arith, h), are_bytes-All bs (ground (arith, h)))

validate_with_password_iff_example :
    Accepted sample_host sample_file (utf8 "pw") (pos 1000) sample_result sample_connector
validate_with_password_iff_example =
    (validate_with_password_iff sample_host sample_file (utf8 "pw") (pos 1000) sample_result
        sample_connector (are_bytes-All sample_file.bytes refl) (omega arith)).0
      sample_run

frame_run :
    read_remote sample_host.sum256 sample_file (pos 1000)
    ≡ ok (frame_result sample_host.sum256 sample_file.bytes (pos 48) (pos 3), sample_encrypted)
unfolding read_remote check_connector_length check_section_length le_value wrap_int64 add_int64
frame_run = refl

read_remote_iff_example :
    (section : Bytes) × IsFrame sample_file (pos 1000) sample_encrypted section
    × (frame_result sample_host.sum256 sample_file.bytes (pos 48) (pos 3)
        ≡ frame_result sample_host.sum256 sample_file.bytes
            (pos (length sample_encrypted))
            (pos (length section)))
read_remote_iff_example =
    (read_remote_iff sample_host.sum256 sample_file (pos 1000)
        (frame_result sample_host.sum256 sample_file.bytes (pos 48) (pos 3)) sample_encrypted
        (are_bytes-All sample_file.bytes refl) (omega arith)).0
      frame_run

unpad_run : pkcs7_unpad (1 ∷ (2 ∷ (2 ∷ (2 ∷ [])))) 4 ≡ ok (1 ∷ (2 ∷ []))
unfolding pkcs7_unpad scan_padding constant_time_byte_eq
unpad_run = refl

pkcs7_unpad_iff_example : (1 ∷ (2 ∷ (2 ∷ (2 ∷ [])))) ≡ pkcs7_pad (1 ∷ (2 ∷ [])) 4
pkcs7_unpad_iff_example =
    (pkcs7_unpad_iff (1 ∷ (2 ∷ (2 ∷ (2 ∷ [])))) (1 ∷ (2 ∷ [])) 4 (omega arith)).0 unpad_run

connector_run : validate_connector plain_tables sample_connector (pos 3) ≡ ok tt
unfolding validate_connector validate_string valid_utf8 rune_len validate_tags tags_loop to_lower
    runes rune_lower encode_runes contains validate_metadata validate_components sections_loop
    add_declared add_int64 sub_int64 wrap_int64 validate_names validate_bundle validate_apis
    validate_asset_mode allowed_platform trim_space trim_by space_len space_len_back bytes_eq
connector_run = refl

validate_connector_iff_example : IsConnector plain_tables sample_connector (pos 3)
validate_connector_iff_example =
    (validate_connector_iff plain_tables sample_connector (pos 3)).0 connector_run

validate_connector-ne-overflow_example :
    validate_connector plain_tables sample_connector (pos 4) ≢ err sections_overflow
validate_connector-ne-overflow_example =
    validate_connector-ne-overflow plain_tables sample_connector (pos 4)

string_run : validate_string (utf8 "Lamp") 4 true ≡ ok tt
unfolding validate_string valid_utf8 rune_len trim_space trim_by space_len space_len_back
string_run = refl

validate_string_iff_example : IsString (utf8 "Lamp") 4 true
validate_string_iff_example = (validate_string_iff (utf8 "Lamp") 4 true).0 string_run

tags_run : validate_tags plain_tables (utf8 "Light" ∷ (utf8 " " ∷ (utf8 "light2" ∷ []))) ≡ ok tt
unfolding validate_tags tags_loop validate_string valid_utf8 rune_len trim_space trim_by space_len
    space_len_back to_lower runes rune_lower encode_runes contains bytes_eq
tags_run = refl

validate_tags_iff_example : IsTags plain_tables (utf8 "Light" ∷ (utf8 " " ∷ (utf8 "light2" ∷ [])))
validate_tags_iff_example =
    (validate_tags_iff plain_tables (utf8 "Light" ∷ (utf8 " " ∷ (utf8 "light2" ∷ [])))).0 tags_run
