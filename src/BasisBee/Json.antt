-- ===== src/BasisBee/Json.antt =====
-- security/basisbee/validator.go: `Connector.UnmarshalJSON`, `parseConnectorJSON` and
-- `parseGeneratedSections`. What encoding/json makes of a text at each Go type is a parameter.
use bee_ba.Common.{
  Bool, true, false, ◌&&◌, ◌||◌, not, List, [], ◌∷◌, Option, none, some, Result, ok, err, ◌>>=◌,
  or_fail, length, if◌then◌else◌,
}
use bee_ba.Common.Int.{ℤ, pos, ltb_int}
use bee_ba.Common.Text.{Bytes, utf8, bytes_eq, trim_space}
use bee_ba.BasisBee.Connector.{eq_int}
use bee_ba.BasisBee.Names.{is_empty}
use bee_ba.BasisBee.Types.{
  Description, Generated, Metadata, Connector, Error, bad_json, section_count_mismatch,
}

-- The anonymous struct that `UnmarshalJSON` decodes: the sections stay unparsed text.
pub record RawConnector : Type 0 where
  pub unique_version : Bytes
  pub basis_bundle_description : Description
  pub basis_bundle_generated : Bytes
  pub image_base64 : Bytes
  pub date_of_creation : Bytes
  pub meta_data : Metadata

-- json.Unmarshal at each type that the validator decodes; none is its error. `wrapped` is the
-- struct of `$rlength` and `$rcontent` (none for a nil slice), `value` the text of the key `Value`.
pub record Codec : Type 0 where
  pub raw : Bytes → Option RawConnector
  pub list : Bytes → Option (List Generated)
  pub wrapped : Bytes → Option (ℤ × Option (List Generated))
  pub single : Bytes → Option Generated
  pub value : Bytes → Option (Option Bytes)

abbrev pub empty_connector : Connector
empty_connector = record {
  unique_version = [];
  basis_bundle_description = record {
    asset_bundle_name = [];
    asset_bundle_description = [];
    tags = [];
  };
  basis_bundle_generated = none;
  image_base64 = [];
  date_of_creation = [];
  meta_data = record {
    triangles_count = pos 0;
    material_count = pos 0;
    bones_count = pos 0;
    texture_memory_bytes = pos 0;
    graphics_pipeline = [];
    component_names = [];
  };
}

module _ (codec : Codec) where
  unfoldable pub parse_single : Bytes → Result Error (Option (List Generated))
  parse_single text = do single ← or_fail (codec.single text) bad_json; ok (some (single ∷ []))

  unfoldable pub parse_wrapped :
      Bytes → Option (ℤ × Option (List Generated)) → Result Error (Option (List Generated))
  unfolding parse_single
  parse_wrapped text (some (declared, some content)) =
      if ltb_int (pos 0) declared && not (eq_int declared (pos (length content)))
      then err section_count_mismatch
      else ok (some content)
  parse_wrapped text (some (declared, none)) = parse_single text
  parse_wrapped text none = parse_single text

  unfoldable pub parse_generated_sections : Bytes → Result Error (Option (List Generated))
  unfolding parse_wrapped bytes_eq
  parse_generated_sections text =
      if is_empty text || bytes_eq (trim_space text) (utf8 "null")
      then ok none
      else elim (codec.list text) [
        | some generated ↦ ok (some generated)
        | none ↦ parse_wrapped text (codec.wrapped text)
      ]

  unfoldable pub unmarshal_connector : Bytes → Result Error Connector
  unfolding parse_generated_sections
  unmarshal_connector text = do
    raw ← or_fail (codec.raw text) bad_json
    generated ← parse_generated_sections raw.basis_bundle_generated
    ok (record {
      unique_version = raw.unique_version;
      basis_bundle_description = raw.basis_bundle_description;
      basis_bundle_generated = generated;
      image_base64 = raw.image_base64;
      date_of_creation = raw.date_of_creation;
      meta_data = raw.meta_data;
    })

  unfoldable pub unmarshal_value : Option Bytes → Result Error Connector
  unmarshal_value none = ok empty_connector
  unmarshal_value (some text) = unmarshal_connector text

  abbrev pub is_some {ℓ} : {A : Type ℓ} → Option A → Bool
  is_some none = false
  is_some (some a) = true

  unfoldable pub parse_connector_json : Bytes → Result Error Connector
  unfolding unmarshal_connector unmarshal_value
  parse_connector_json text = do
    connector ← unmarshal_connector text
    let named =
        is_some connector.basis_bundle_generated
        || not (is_empty connector.basis_bundle_description.asset_bundle_name)
        || not (is_empty connector.unique_version)
    let wrapped = or_fail (codec.value text) bad_json >>= unmarshal_value
    if named then ok connector else wrapped
