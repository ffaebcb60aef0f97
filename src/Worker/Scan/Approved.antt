-- ===== src/Worker/Scan/Approved.antt =====
-- The files that the worker's checks let through.
use mathlib.Core.Path.{subst}
use bee_ba.Common.{
  ◌≡◌, ◌≢◌, ◌↔◌, ◌⊎◌, refl, sym, ap, ◌∙◌, Bool, true, false, not, Option, none, some, List, [], ◌∷◌,
  Result, ok, err, ◌>>=◌, >>=-eq-ok, >>-eq-ok, or_fail, or_fail-eq-ok, fail_if, fail_if-eq-ok,
  ok-injective, arith, not-eq-false, ==_iff, ◌==◌, Bool-cases, inl, inr, if◌then◌else◌, length,
}
use bee_ba.Common.Text.{Bytes, bytes_eq_iff}
use bee_ba.BasisBee.Frame.{Stream}
use bee_ba.BasisBee.Types.{BeeResult, Connector, Error}
use bee_ba.BasisBee.Validator.{validate_with_password}
use bee_ba.Publish.{
  suspicious, object_hash_or_size_mismatch, payload_metadata_mismatch, FileRow,
  get_content_file_for_scan,
}
use bee_ba.Worker.Scan.{
  Env, AvResult, av_clean, av_skipped, av_infected, av_failed, reject, publish, FileScanPayload,
  object_unreadable, password_unreadable, payload_incomplete, file_not_found,
  scan_quarantine_object, scan_with, scanner_missing, judge_bee, judge_format, judge_scanned,
  is_intact, judge_object, is_complete, matches, judge,
}

-- The object can be read in full, has the size and the hash of the upload, a scanner is configured
-- and calls it clean, the password can be read, and it is a valid BEE file.
pub record IsSafe (env : Env) (file : FileRow) (result : BeeResult) : Type 0 where
  pub object : Stream
  pub read : env.read_object 0 file.bucket file.storage_key ≡ some object
  pub complete : object.fails ≡ false
  pub size_is : length object.bytes ≡ file.file_size
  pub hash_is : env.sha256_hex object.bytes ≡ file.file_hash_sha256
  pub run : Stream → AvResult
  pub has_scanner : env.scanner ≡ some run
  pub scanned : Stream
  pub read_again : env.read_object 1 file.bucket file.storage_key ≡ some scanned
  pub is_av_clean : run scanned ≡ av_clean
  pub checked : Stream
  pub read_last : env.read_object 2 file.bucket file.storage_key ≡ some checked
  pub password : Bytes
  pub decrypted : env.decrypt_string file.unlock_password_ciphertext ≡ some password
  pub connector : Connector
  pub accepted :
      validate_with_password env.host checked password env.max_upload_bytes ≡ ok (result, connector)

-- The payload names the file's row and agrees with it.
pub record IsApproved (env : Env) (p : FileScanPayload) (files : List FileRow) (file : FileRow)
    (result : BeeResult) : Type 0 where
  pub has_file_id : p.file_id ≢ []
  pub has_content_id : p.content_id ≢ []
  pub has_bucket : p.bucket ≢ []
  pub has_storage_key : p.storage_key ≢ []
  pub found : get_content_file_for_scan p.file_id files ≡ some file
  pub content_is : file.content_id ≡ p.content_id
  pub bucket_is : file.bucket ≡ p.bucket
  pub key_is : file.storage_key ≡ p.storage_key
  pub safe : IsSafe env file result

is_intact-facts :
    (env : Env) (file : FileRow) (object : Stream)
    → is_intact env file object ≡ true
    → (length object.bytes ≡ file.file_size) × (env.sha256_hex object.bytes ≡ file.file_hash_sha256)
unfolding is_intact
is_intact-facts env file object h =
    ground (arith, bytes_eq_iff (env.sha256_hex object.bytes) file.file_hash_sha256)

record FormatOk (env : Env) (file : FileRow) (f : FileRow) (result : BeeResult) : Type 0 where
  same : f ≡ file
  checked : Stream
  read_last : env.read_object 2 file.bucket file.storage_key ≡ some checked
  password : Bytes
  decrypted : env.decrypt_string file.unlock_password_ciphertext ≡ some password
  connector : Connector
  accepted :
      validate_with_password env.host checked password env.max_upload_bytes ≡ ok (result, connector)

judge_format-skipped :
    (env : Env) (file f : FileRow) (result : BeeResult)
    → judge_format env file true ≢ ok (publish f result)
unfolding judge_format
judge_format-skipped env file f result h =
    let (object, e1, h1) =
      >>=-eq-ok (or_fail (env.read_object 2 file.bucket file.storage_key) object_unreadable) _ h in
    let (password, e2, h2) =
      >>=-eq-ok (or_fail (env.decrypt_string file.unlock_password_ciphertext) password_unreadable) _
        h1 in
    not_published (validate_with_password env.host object password env.max_upload_bytes)
      (ok-injective _ _ h2)
  where
    not_published :
        (r : Result Error (BeeResult × Connector)) → judge_bee file true r ≢ publish f result
    not_published (err e) q = cc
    not_published (ok (res, c)) q = cc

judge_format-publish :
    (env : Env) (file f : FileRow) (result : BeeResult)
    → judge_format env file false ≡ ok (publish f result)
    → FormatOk env file f result
unfolding judge_format
judge_format-publish env file f result h =
    let (object, e1, h1) =
      >>=-eq-ok (or_fail (env.read_object 2 file.bucket file.storage_key) object_unreadable) _ h in
    let (password, e2, h2) =
      >>=-eq-ok (or_fail (env.decrypt_string file.unlock_password_ciphertext) password_unreadable) _
        h1 in
    published object password (or_fail-eq-ok _ object_unreadable object e1)
      (or_fail-eq-ok _ password_unreadable password e2)
      (validate_with_password env.host object password env.max_upload_bytes) refl
      (ok-injective _ _ h2)
  where
    published :
        (object : Stream) (password : Bytes)
        → env.read_object 2 file.bucket file.storage_key ≡ some object
        → env.decrypt_string file.unlock_password_ciphertext ≡ some password
        → (r : Result Error (BeeResult × Connector))
        → validate_with_password env.host object password env.max_upload_bytes ≡ r
        → judge_bee file false r ≡ publish f result
        → FormatOk env file f result
    published object password e1 e2 (err e) v q = cc
    published object password e1 e2 (ok (res, c)) v q =
        let same : res ≡ result = cc q in
        record {
          same = cc q;
          checked = object;
          read_last = e1;
          password = password;
          decrypted = e2;
          connector = c;
          accepted = v ∙ ap (λ x. ok (x, c)) same;
        }

record ScanOk (env : Env) (file : FileRow) (av : AvResult) : Type 0 where
  run : Stream → AvResult
  has_scanner : env.scanner ≡ some run
  scanned : Stream
  read_again : env.read_object 1 file.bucket file.storage_key ≡ some scanned
  result_is : run scanned ≡ av

judge_scanned-publish :
    (env : Env) (file f : FileRow) (result : BeeResult) (av : AvResult)
    → judge_scanned env file av ≡ ok (publish f result)
    → (av ≡ av_clean) × FormatOk env file f result
unfolding judge_scanned
judge_scanned-publish env file f result (av_infected signature) h = cc
judge_scanned-publish env file f result av_failed h = cc
judge_scanned-publish env file f result av_skipped h =
    absurd (judge_format-skipped env file f result h)
judge_scanned-publish env file f result av_clean h =
    (refl, judge_format-publish env file f result h)

scan_with-clean :
    (env : Env) (file : FileRow) (scanner : Option (Stream → AvResult))
    → env.scanner ≡ scanner
    → scan_with env file scanner ≡ ok av_clean
    → ScanOk env file av_clean
unfolding scan_with
scan_with-clean env file none e h = absurd (not_skipped env.scanner_required h)
  where
    not_skipped : (b : Bool) → (if b then err scanner_missing else ok av_skipped) ≢ ok av_clean
    not_skipped true q = cc
    not_skipped false q = cc
scan_with-clean env file (some run) e h =
    let (object, e1, h1) =
      >>=-eq-ok (or_fail (env.read_object 1 file.bucket file.storage_key) object_unreadable) _ h in
    record {
      run = run;
      has_scanner = e;
      scanned = object;
      read_again = or_fail-eq-ok _ object_unreadable object e1;
      result_is = ok-injective _ _ h1;
    }

judge_object-publish :
    (env : Env) (file f : FileRow) (result : BeeResult)
    → judge_object env file ≡ ok (publish f result)
    → (f ≡ file) × IsSafe env file result
unfolding judge_object
judge_object-publish env file f result h =
    let (object, e1, h1) =
      >>=-eq-ok (or_fail (env.read_object 0 file.bucket file.storage_key) object_unreadable) _ h in
    let (whole, h2) = >>-eq-ok (fail_if object.fails object_unreadable) _ h1 in
    by_intact object (or_fail-eq-ok _ object_unreadable object e1)
      ((fail_if-eq-ok _ object_unreadable).0 whole) (Bool-cases (is_intact env file object)) h2
  where
    by_intact :
        (object : Stream)
        → env.read_object 0 file.bucket file.storage_key ≡ some object
        → object.fails ≡ false
        → (is_intact env file object ≡ true) ⊎ (is_intact env file object ≡ false)
        → (if is_intact env file object
            then scan_quarantine_object env file >>= judge_scanned env file
            else ok (
                reject file.file_id file.content_id suspicious (
                  object_hash_or_size_mismatch
                    (length object.bytes)
                    (env.sha256_hex object.bytes))))
          ≡ ok (publish f result)
        → (f ≡ file) × IsSafe env file result
    by_intact object e whole (inr n) h = absurd (cc (rw n at h))
    by_intact object e whole (inl y) h =
        let (av, scanned, h1) = >>=-eq-ok (scan_quarantine_object env file) _ (rw y at h) in
        let (is_clean, format) = judge_scanned-publish env file f result av h1 in
        let sc = scan_with-clean env file env.scanner refl (scanned ∙ ap ok is_clean) in
        let intact = is_intact-facts env file object y in
        (
          format.same,
          record {
            object = object;
            read = e;
            complete = whole;
            size_is = intact.0;
            hash_is = intact.1;
            run = sc.run;
            has_scanner = sc.has_scanner;
            scanned = sc.scanned;
            read_again = sc.read_again;
            is_av_clean = sc.result_is;
            checked = format.checked;
            read_last = format.read_last;
            password = format.password;
            decrypted = format.decrypted;
            connector = format.connector;
            accepted = format.accepted;
          },
        )

matches-facts :
    (p : FileScanPayload) (file : FileRow)
    → (matches p file ≡ true) ↔ (
        (file.content_id ≡ p.content_id)
        × (file.bucket ≡ p.bucket)
        × (file.storage_key ≡ p.storage_key))
unfolding matches
matches-facts p file =
    let c = bytes_eq_iff file.content_id p.content_id in
    let b = bytes_eq_iff file.bucket p.bucket in
    let k = bytes_eq_iff file.storage_key p.storage_key in
    (
      λ h. (c.0 (ground (arith, h)), b.0 (ground (arith, h)), k.0 (ground (arith, h))),
      λ (ec, eb, ek). rw (c.1 ec, b.1 eb, k.1 ek) refl,
    )

-- The four fields that `processFileScan` needs.
abbrev pub IsComplete : FileScanPayload → Type 0
IsComplete p = (p.file_id ≢ []) × (p.content_id ≢ []) × (p.bucket ≢ []) × (p.storage_key ≢ [])

is_empty_text_iff : (t : Bytes) → ((length t == 0) ≡ false) ↔ (t ≢ [])
is_empty_text_iff [] = (λ h. cc, λ n. absurd (n refl))
is_empty_text_iff (c ∷ cs) = (λ h e. cc, λ n. ground arith)

is_complete_iff : (p : FileScanPayload) → (is_complete p ≡ true) ↔ IsComplete p
unfolding is_complete
is_complete_iff p =
    let f = is_empty_text_iff p.file_id in
    let c = is_empty_text_iff p.content_id in
    let b = is_empty_text_iff p.bucket in
    let k = is_empty_text_iff p.storage_key in
    (
      λ h. (
        f.0 (ground (arith, h)),
        c.0 (ground (arith, h)),
        b.0 (ground (arith, h)),
        k.0 (ground (arith, h)),
      ),
      λ (nf, nc, nb, nk). rw (f.1 nf, c.1 nc, b.1 nb, k.1 nk) refl,
    )

judge-publish :
    (env : Env) (p : FileScanPayload) (files : List FileRow) (file : FileRow) (result : BeeResult)
    → judge env p files ≡ ok (publish file result)
    → IsApproved env p files file result
unfolding judge
judge-publish env p files file result h =
    let (complete, h1) = >>-eq-ok (fail_if (not (is_complete p)) payload_incomplete) _ h in
    let (row, found, h2) =
      >>=-eq-ok (or_fail (get_content_file_for_scan p.file_id files) file_not_found) _ h1 in
    by_match row
      ((is_complete_iff p).0 (not-eq-false _ ((fail_if-eq-ok _ payload_incomplete).0 complete)))
      (or_fail-eq-ok _ file_not_found row found) (Bool-cases (matches p row)) h2
  where
    by_match :
        (row : FileRow)
        → IsComplete p
        → get_content_file_for_scan p.file_id files ≡ some row
        → (matches p row ≡ true) ⊎ (matches p row ≡ false)
        → (if matches p row
            then judge_object env row
            else ok (reject p.file_id p.content_id suspicious payload_metadata_mismatch))
          ≡ ok (publish file result)
        → IsApproved env p files file result
    by_match row c found (inr n) h = absurd (cc (rw n at h))
    by_match row c found (inl y) h =
        let (same, safe) = judge_object-publish env row file result (rw y at h) in
        let agree = (matches-facts p row).0 y in
        record {
          has_file_id = c.0;
          has_content_id = c.1;
          has_bucket = c.2;
          has_storage_key = c.3;
          found = found ∙ ap some (sym same);
          content_is = ap (λ x. x.content_id) same ∙ agree.0;
          bucket_is = ap (λ x. x.bucket) same ∙ agree.1;
          key_is = ap (λ x. x.storage_key) same ∙ agree.2;
          safe = subst (λ x. IsSafe env x result) (sym same) safe;
        }

IsSafe-judge_object :
    (env : Env) (file : FileRow) (result : BeeResult)
    → IsSafe env file result
    → judge_object env file ≡ ok (publish file result)
unfolding judge_object is_intact scan_with judge_scanned judge_format
IsSafe-judge_object env file result s =
    rw
      (
        s.read,
        s.complete,
        (==_iff (length s.object.bytes) file.file_size).1 s.size_is,
        (bytes_eq_iff (env.sha256_hex s.object.bytes) file.file_hash_sha256).1 s.hash_is,
        s.has_scanner,
        s.read_again,
        s.is_av_clean,
        s.read_last,
        s.decrypted,
        s.accepted,
      )
      refl

-- The worker decides to publish a file exactly when the job's payload is complete and agrees with
-- the file's row, the object has the size and the hash of the upload, a scanner is configured and
-- finds the object clean, and the object is a BEE file that the validator accepts with the
-- decrypted password. The verdict names that row and the validator's result.
pub judge_iff :
    (env : Env) (p : FileScanPayload) (files : List FileRow) (file : FileRow) (result : BeeResult)
    → (judge env p files ≡ ok (publish file result)) ↔ IsApproved env p files file result
unfolding judge
judge_iff env p files file result = (
  judge-publish env p files file result,
  λ a.
      rw
        (
          (is_complete_iff p).1 (a.has_file_id, a.has_content_id, a.has_bucket, a.has_storage_key),
          a.found,
          (matches-facts p file).1 (a.content_is, a.bucket_is, a.key_is),
        )
        (IsSafe-judge_object env file result a.safe),
)
