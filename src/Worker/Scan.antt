-- ===== src/Worker/Scan.antt =====
-- app/worker.go: `scanQuarantineObject`, `processFileScan`, `autoPublishCleanFile` and
-- `publishCleanCandidate`. The object store, the virus scanner and the secret box are arguments. A read
-- of the store has a number, since two reads of one object need not agree.
pub mod Approved
pub mod Published
pub mod Stored
use bee_ba.Common.{
  ℕ, zero, suc, ◌+◌, Bool, true, false, ◌&&◌, ◌||◌, not, Option, none, some, List, [], ◌∷◌, ◌++◌,
  Result, ok, err, ◌>>=◌, ◌>>◌, fail_if, or_fail, map_err, ◌==◌, if◌then◌else◌, length,
}
use bee_ba.Common.Int.{ℤ}
use bee_ba.Common.Text.{Bytes, bytes_eq, utf8}
use bee_ba.BasisBee.Frame.{Stream}
use bee_ba.BasisBee.Types.{BeeResult, Connector, Error}
use bee_ba.BasisBee.Validator.{Host, validate_with_password}
use bee_ba.Jobs.Row.{Payload, Job, JobError, member}
use bee_ba.Publish.{
  FileRow, Db, ScanStatus, clean, suspicious, infected, scan_error, ContentStatus, scan_failed,
  ScanReport, payload_metadata_mismatch, object_hash_or_size_mismatch,
  antivirus_detected_infected_content, basis_bee_format, antivirus_scan_skipped, valid,
  complete_file_scan, complete_file_scan_and_publish, publish_clean_content,
  get_content_file_for_scan,
}

pub data WorkerError : Type 0 where
  payload_incomplete file_not_found object_unreadable scanner_missing scanner_failed : WorkerError
  password_unreadable storage_unready copy_failed no_transaction : WorkerError
  database : JobError → WorkerError

-- The result of antivirus.Result, and its error ErrInfected or another.
pub data AvResult : Type 0 where
  av_clean av_skipped : AvResult
  av_infected : (signature : Bytes) → AvResult
  av_failed : AvResult

-- What the worker is given: `scanner` is none where no scanner is configured; the Booleans say
-- whether the object store and the database carry out a call.
pub record Env : Type 1 where
  pub read_object : ℕ → Bytes → Bytes → Option Stream
  pub scanner : Option (Stream → AvResult)
  pub scanner_required : Bool
  pub decrypt_string : Bytes → Option Bytes
  pub sha256_hex : Bytes → Bytes
  pub host : Host
  pub max_upload_bytes : ℤ
  pub quarantine_bucket : Bytes
  pub private_bucket : Bytes
  pub ensure_bucket : Bytes → Bool
  pub copies : Bool
  pub removes : Bool
  pub commits : Bool

pub record FileScanPayload : Type 0 where
  pub content_id : Bytes
  pub file_id : Bytes
  pub bucket : Bytes
  pub storage_key : Bytes

abbrev pub text_of : Option Bytes → Bytes
text_of none = []
text_of (some t) = t

-- json.Unmarshal of the payload: a member that is absent is the empty string.
unfoldable pub decode_file_scan : Payload → FileScanPayload
unfolding member
decode_file_scan p = record {
  content_id = text_of (member (utf8 "content_id") p);
  file_id = text_of (member (utf8 "file_id") p);
  bucket = text_of (member (utf8 "bucket") p);
  storage_key = text_of (member (utf8 "storage_key") p);
}

abbrev is_empty_text : Bytes → Bool
is_empty_text t = length t == 0

-- What the checks decide, before anything is written.
pub data Verdict : Type 0 where
  reject : (file_id content_id : Bytes) → ScanStatus → ScanReport → Verdict
  publish : FileRow → BeeResult → Verdict

unfoldable pub scan_with : Env → FileRow → Option (Stream → AvResult) → Result WorkerError AvResult
scan_with env file none = if env.scanner_required then err scanner_missing else ok av_skipped
scan_with env file (some run) = do
  object ← or_fail (env.read_object 1 file.bucket file.storage_key) object_unreadable
  ok (run object)

abbrev pub scan_quarantine_object : Env → FileRow → Result WorkerError AvResult
scan_quarantine_object env file = scan_with env file env.scanner

-- The checks after the virus scan: the file has to be a valid BEE file.
abbrev pub judge_bee : FileRow → Bool → Result Error (BeeResult × Connector) → Verdict
judge_bee file was_skipped (err e) = reject file.file_id file.content_id suspicious basis_bee_format
judge_bee file was_skipped (ok (result, connector)) =
    if was_skipped
    then reject file.file_id file.content_id scan_error (antivirus_scan_skipped result)
    else publish file result

unfoldable pub judge_format : Env → FileRow → Bool → Result WorkerError Verdict
judge_format env file was_skipped = do
  object ← or_fail (env.read_object 2 file.bucket file.storage_key) object_unreadable
  password ← or_fail (env.decrypt_string file.unlock_password_ciphertext) password_unreadable
  ok (
      judge_bee file was_skipped
        (validate_with_password env.host object password env.max_upload_bytes))

unfoldable pub judge_scanned : Env → FileRow → AvResult → Result WorkerError Verdict
unfolding judge_format
judge_scanned env file (av_infected signature) =
    ok
      (reject file.file_id file.content_id infected (antivirus_detected_infected_content signature))
judge_scanned env file av_failed = err scanner_failed
judge_scanned env file av_skipped = judge_format env file true
judge_scanned env file av_clean = judge_format env file false

-- The size and the hash of the object are those of the upload.
unfoldable pub is_intact : Env → FileRow → Stream → Bool
unfolding bytes_eq
is_intact env file object =
    length object.bytes == file.file_size
    && bytes_eq (env.sha256_hex object.bytes) file.file_hash_sha256

unfoldable pub judge_object : Env → FileRow → Result WorkerError Verdict
unfolding is_intact scan_with judge_scanned
judge_object env file = do
  object ← or_fail (env.read_object 0 file.bucket file.storage_key) object_unreadable
  fail_if object.fails object_unreadable
  let rest = scan_quarantine_object env file >>= judge_scanned env file
  if is_intact env file object
      then rest
      else ok (
          reject file.file_id file.content_id suspicious
            (object_hash_or_size_mismatch (length object.bytes) (env.sha256_hex object.bytes)))

unfoldable pub is_complete : FileScanPayload → Bool
is_complete p = not (
    is_empty_text p.file_id
    || is_empty_text p.content_id
    || is_empty_text p.bucket
    || is_empty_text p.storage_key)

unfoldable pub matches : FileScanPayload → FileRow → Bool
unfolding bytes_eq
matches p file =
    bytes_eq file.content_id p.content_id
    && (bytes_eq file.bucket p.bucket && bytes_eq file.storage_key p.storage_key)

unfoldable pub judge : Env → FileScanPayload → List FileRow → Result WorkerError Verdict
unfolding is_complete matches get_content_file_for_scan judge_object
judge env payload files = do
  fail_if (not (is_complete payload)) payload_incomplete
  file ← or_fail (get_content_file_for_scan payload.file_id files) file_not_found
  let checked = judge_object env file
  if matches payload file
      then checked
      else ok (reject payload.file_id payload.content_id suspicious payload_metadata_mismatch)

-- The places of the objects in the store.
abbrev pub Place : Type 0
Place = Bytes × Bytes

abbrev pub same_place : Place → Place → Bool
same_place (b, k) (b', k') = bytes_eq b b' && bytes_eq k k'

unfoldable pub remove_place : Place → List Place → List Place
unfolding bytes_eq
remove_place p [] = []
remove_place p (q ∷ qs) = let rest = remove_place p qs in if same_place q p then rest else q ∷ rest

pub record World : Type 0 where
  pub db : Db
  pub objects : List Place

-- `_ = w.objects.RemoveObject(...)`: its error is dropped.
abbrev pub try_remove : Env → Place → List Place → List Place
try_remove env p objects = if env.removes then remove_place p objects else objects

-- A transaction: the database as it leaves it, or as it was.
abbrev pub transaction : Env → Result JobError Db → Result WorkerError Db
transaction env r = do db ← map_err database r; fail_if (not env.commits) no_transaction; ok db

abbrev pub content_key : FileRow → Bytes
content_key file =
    utf8 "content/" ++ (file.content_id ++ (utf8 "/" ++ (file.file_id ++ utf8 ".bee")))

-- Both publishing functions: the object is copied out of quarantine, the transaction runs with the
-- new place, and then the object that is not referred to is removed.
abbrev pub Outcome : Type 0
Outcome = World × Result WorkerError (Unit {0})

abbrev pub source_of : FileRow → Place
source_of file = (file.bucket, file.storage_key)

abbrev pub target_of : Env → FileRow → Place
target_of env file = (env.private_bucket, content_key file)

abbrev pub settle : World → Result WorkerError Db → Outcome
settle w (ok db) = (record w { db = db }, ok tt)
settle w (err e) = (w, err e)

abbrev pub settle_promoted : Env → FileRow → World → Result WorkerError Db → Outcome
settle_promoted env file w (ok db) = (
  record { db = db; objects = try_remove env (source_of file) (target_of env file ∷ w.objects) },
  ok tt,
)
settle_promoted env file w (err e) = (
  record w { objects = try_remove env (target_of env file) (target_of env file ∷ w.objects) },
  err e,
)

unfoldable pub publish_with :
    Env → FileRow → (Bytes → Bytes → Db → Result JobError Db) → World → Outcome
unfolding remove_place bytes_eq
publish_with env file commit w =
    if not (bytes_eq file.bucket env.quarantine_bucket)
    then settle w (transaction env (commit file.bucket file.storage_key w.db))
    else if not (env.ensure_bucket env.private_bucket)
    then (w, err storage_unready)
    else if not env.copies
    then (w, err copy_failed)
    else settle_promoted env file w
        (transaction env (commit env.private_bucket (content_key file) w.db))

abbrev pub auto_publish_clean_file : Env → ℕ → ℕ → ℕ → FileRow → BeeResult → World → Outcome
auto_publish_clean_file env now search_job job_id file result w =
    publish_with env file
      (complete_file_scan_and_publish now search_job job_id file.file_id file.content_id clean
        (valid result))
      w

abbrev pub publish_clean_candidate : Env → ℕ → ℕ → FileRow → World → Outcome
publish_clean_candidate env now search_job file w =
    publish_with env file (publish_clean_content now search_job file.file_id file.content_id) w

abbrev pub act : Env → ℕ → ℕ → ℕ → World → Result WorkerError Verdict → Outcome
act env now search_job job_id w (err e) = (w, err e)
act env now search_job job_id w (ok (reject file_id content_id status report)) = settle w (
    transaction env
      (complete_file_scan now job_id file_id content_id status scan_failed report w.db))
act env now search_job job_id w (ok (publish file result)) =
    auto_publish_clean_file env now search_job job_id file result w

unfoldable pub process_file_scan : Env → ℕ → ℕ → Job → World → Outcome
unfolding decode_file_scan judge complete_file_scan complete_file_scan_and_publish publish_with
process_file_scan env now search_job job w =
    act env now search_job job.id w (judge env (decode_file_scan job.payload) w.db.files)
