-- ===== src/BasisBee/Validator.antt =====
-- security/basisbee/validator.go: the two entry points.
pub mod Accepts
use bee_ba.Common.{ℕ, List, [], ◌∷◌, Result, ok, err, ◌>>=◌, ◌>>◌, length}
use bee_ba.Common.Int.{ℤ}
use bee_ba.Common.Text.{Bytes, Tables}
use bee_ba.BasisBee.Connector.{items, validate_connector}
use bee_ba.BasisBee.Frame.{Stream, read_remote}
use bee_ba.BasisBee.Json.{Codec, parse_connector_json}
use bee_ba.BasisBee.Pkcs7.{Crypto, decrypt_basis_bytes}
use bee_ba.BasisBee.Types.{BeeResult, Generated, Connector, Error}

-- What the validator calls and src/ does not hold.
pub record Host : Type 1 where
  pub sum256 : Bytes → Bytes
  pub crypto : Crypto
  pub codec : Codec
  pub tables : Tables

abbrev pub first_mode : List Generated → Bytes
first_mode [] = []
first_mode (g ∷ gs) = g.asset_mode

module _ (host : Host) where
  unfoldable pub validate_remote_sdk_bee : Stream → ℤ → Result Error BeeResult
  validate_remote_sdk_bee reader max_bytes = do
    (result, _) ← read_remote host.sum256 reader max_bytes
    ok result

  -- The result with what the connector says of the bundle.
  abbrev pub described : BeeResult → Connector → BeeResult
  described result connector = record result {
    unique_version = connector.unique_version;
    asset_name = connector.basis_bundle_description.asset_bundle_name;
    platform_count = length (items connector.basis_bundle_generated);
    asset_mode = first_mode (items connector.basis_bundle_generated);
  }

  unfoldable pub validate_with_password : Stream → Bytes → ℤ → Result Error (BeeResult × Connector)
  validate_with_password reader password max_bytes = do
    (result, encrypted) ← read_remote host.sum256 reader max_bytes
    plain ← decrypt_basis_bytes host.crypto password encrypted
    connector ← parse_connector_json host.codec plain
    validate_connector host.tables connector result.section_bytes
    ok (described result connector, connector)
