-- ===== src/BasisBee/Validator/Accepts.antt =====
-- The files that `ValidateRemoteSDKBEEWithPassword` accepts, and what it reports of them.
use mathlib.Core.Path.{ap₂}
use bee_ba.Common.{
  ◌^◌, ◌<◌, ◌≡◌, ◌↔◌, refl, sym, ap, ◌∙◌, ok, length, All, >>=-eq-ok, >>-eq-ok, Result,
}
use bee_ba.Common.Int.{ℤ, pos}
use bee_ba.Common.Text.{Bytes}
use bee_ba.BasisBee.Connector.{validate_connector}
use bee_ba.BasisBee.Connector.Spec.{IsConnector, validate_connector_iff}
use bee_ba.BasisBee.Frame.{Stream, read_remote, frame_result}
use bee_ba.BasisBee.Frame.Layout.{IsByte, IsFrame, read_remote_iff}
use bee_ba.BasisBee.Json.{parse_connector_json}
use bee_ba.BasisBee.Pkcs7.{decrypt_basis_bytes}
use bee_ba.BasisBee.Types.{BeeResult, Connector, Error}
use bee_ba.BasisBee.Validator.{Host, described, validate_with_password}

module _ (host : Host) where
  -- A framed file whose connector decrypts, parses and describes the section that is there.
  pub record Accepted (reader : Stream) (password : Bytes) (max : ℤ) (res : BeeResult)
      (connector : Connector) : Type 0 where
    pub encrypted : Bytes
    pub section : Bytes
    pub plain : Bytes
    pub frame : IsFrame reader max encrypted section
    pub decrypted : decrypt_basis_bytes host.crypto password encrypted ≡ ok plain
    pub parsed : parse_connector_json host.codec plain ≡ ok connector
    pub valid : IsConnector host.tables connector (pos (length section))
    pub reported :
        res
        ≡ described host
            (frame_result host.sum256 reader.bytes (pos (length encrypted)) (pos (length section)))
            connector

  Accepted-of_parts :
      (reader : Stream) (password : Bytes) (max : ℤ) {res : BeeResult} {connector : Connector}
      (read : BeeResult) (encrypted section plain : Bytes) (parsed : Connector)
      → IsFrame reader max encrypted section
      → read ≡ frame_result host.sum256 reader.bytes (pos (length encrypted)) (pos (length section))
      → decrypt_basis_bytes host.crypto password encrypted ≡ ok plain
      → parse_connector_json host.codec plain ≡ ok parsed
      → validate_connector host.tables parsed read.section_bytes ≡ ok tt
      → ◌≡◌ {A = Result Error (BeeResult × Connector)}
          (ok (described host read parsed, parsed))
          (ok (res, connector))
      → Accepted reader password max res connector
  unfolding frame_result
  Accepted-of_parts reader password max {res} {connector} read encrypted section plain parsed frame
        result e1 e2 e3 h =
      let same : parsed ≡ connector = cc in
      let shown : res ≡ described host read parsed = cc in
      let size : read.section_bytes ≡ pos (length section) =
        ap (λ (r : BeeResult). r.section_bytes) result in
      record {
        encrypted = encrypted;
        section = section;
        plain = plain;
        frame = frame;
        decrypted = e1;
        parsed = e2 ∙ ap ok same;
        valid =
            (validate_connector_iff host.tables connector (pos (length section))).0
              (rw (← same, ← size) e3);
        reported = shown ∙ ap₂ (described host) result same;
      }

  Accepted-of_run :
      (reader : Stream) (password : Bytes) (max : ℤ) {res : BeeResult} {connector : Connector}
      → All IsByte reader.bytes
      → length reader.bytes < 2 ^ 63
      → validate_with_password host reader password max ≡ ok (res, connector)
      → Accepted reader password max res connector
  unfolding validate_with_password
  Accepted-of_run reader password max {res} {connector} bytes small h =
      let (read, e0, h0) = >>=-eq-ok (read_remote host.sum256 reader max) _ h in
      let (plain, e1, h1) = >>=-eq-ok (decrypt_basis_bytes host.crypto password read.1) _ h0 in
      let (parsed, e2, h2) = >>=-eq-ok (parse_connector_json host.codec plain) _ h1 in
      let (e3, h3) = >>-eq-ok (validate_connector host.tables parsed read.0.section_bytes) _ h2 in
      let (section, frame, result) =
        (read_remote_iff host.sum256 reader max read.0 read.1 bytes small).0 e0 in
      Accepted-of_parts reader password max read.0 read.1 section plain parsed frame result e1 e2 e3
        h3

  -- For a file of bytes shorter than 2^63, the validator succeeds exactly when the file is a frame
  -- whose connector decrypts under the password, parses, and is valid for the section bytes found;
  -- it returns that connector, and reports the measured sizes with the connector's names.
  pub validate_with_password_iff :
      (reader : Stream) (password : Bytes) (max : ℤ) (res : BeeResult) (connector : Connector)
      → All IsByte reader.bytes
      → length reader.bytes < 2 ^ 63
      → (validate_with_password host reader password max ≡ ok (res, connector))
        ↔ Accepted reader password max res connector
  unfolding validate_with_password frame_result
  validate_with_password_iff reader password max res connector bytes small = (
    λ h. Accepted-of_run reader password max bytes small h,
    λ a.
        let read =
          (read_remote_iff host.sum256 reader max _ a.encrypted bytes small).1
            (a.section, a.frame, refl) in
        rw (read, a.decrypted, a.parsed, (validate_connector_iff host.tables connector _).1 a.valid)
          (ap (λ r. ok (r, connector)) (sym a.reported)),
  )
