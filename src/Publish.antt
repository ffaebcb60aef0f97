-- ===== src/Publish.antt =====
-- repository/postgres/jobs.go: the transactions that record a scan and publish content. Ids of
-- files and contents are the texts that payloads hold.
pub mod Tables
pub mod Effects
use bee_ba.Common.{
  ℕ, Bool, true, false, ◌&&◌, ◌||◌, not, Option, none, some, List, [], ◌∷◌, ◌++◌, Result, ok, err,
  ◌>>=◌, ◌>>◌, or_fail, fail_if, if◌then◌else◌,
}
use bee_ba.Common.Int.{ℤ}
use bee_ba.Common.Text.{Bytes, bytes_eq, utf8}
use bee_ba.BasisBee.Types.{BeeResult}
use bee_ba.Jobs.Row.{AdminJob, JobError, no_rows}
use bee_ba.Jobs.Queue.{mark_succeeded, enqueue_search_index}

-- content_files.scan_status
pub data ScanStatus : Type 0 where
  scan_pending scan_running clean suspicious infected scan_error skipped : ScanStatus

-- content_items.status
pub data ContentStatus : Type 0 where
  draft uploaded pending_scan scan_failed pending_moderation approved published rejected :
      ContentStatus
  hidden deleted : ContentStatus

-- The JSON of content_files.scan_result, by the place that writes it.
pub data ScanReport : Type 0 where
  not_scanned : ScanReport
  payload_metadata_mismatch : ScanReport
  object_hash_or_size_mismatch : (actual_size : ℕ) (actual_hash : Bytes) → ScanReport
  antivirus_detected_infected_content : (signature : Bytes) → ScanReport
  basis_bee_format : ScanReport
  antivirus_scan_skipped : BeeResult → ScanReport
  valid : BeeResult → ScanReport

pub record FileRow : Type 0 where
  pub file_id : Bytes
  pub content_id : Bytes
  pub bucket : Bytes
  pub storage_key : Bytes
  pub file_size : ℕ
  pub file_hash_sha256 : Bytes
  pub scan_status : ScanStatus
  pub scan_result : ScanReport
  pub unlock_password_ciphertext : Bytes
  pub updated_at : ℕ

pub record ItemRow : Type 0 where
  pub content_id : Bytes
  pub status : ContentStatus
  pub published_at : Option ℕ
  pub hidden_at : Option ℕ
  pub deleted_at : Option ℕ
  pub updated_at : ℕ

-- A row of moderation_actions or of audit_logs.
pub data LogRow : Type 0 where
  moderation audit : (action content_id file_id : Bytes) → LogRow

pub record Db : Type 0 where
  pub jobs : List AdminJob
  pub files : List FileRow
  pub items : List ItemRow
  pub logs : List LogRow

abbrev pub is_clean : ScanStatus → Bool
is_clean clean = true
is_clean _ = false

abbrev pub is_publishable : ContentStatus → Bool
is_publishable pending_scan = true
is_publishable pending_moderation = true
is_publishable _ = false

abbrev pub is_none : Option ℕ → Bool
is_none none = true
is_none (some t) = false

-- `UPDATE content_files SET ... WHERE id = $1 AND ...` and the test of the affected rows.
unfoldable pub update_file :
    (FileRow → Bool) → (FileRow → FileRow) → Bytes → List FileRow → Result JobError (List FileRow)
unfolding bytes_eq
update_file allowed f id [] = err no_rows
update_file allowed f id (row ∷ rows) = do
  let rest = update_file allowed f id rows
  if bytes_eq row.file_id id
      then (if allowed row then ok (f row ∷ rows) else err no_rows)
      else (rest >>= λ rows'. ok (row ∷ rows'))

unfoldable pub update_item :
    (ItemRow → Bool) → (ItemRow → ItemRow) → Bytes → List ItemRow → Result JobError (List ItemRow)
unfolding bytes_eq
update_item allowed f id [] = err no_rows
update_item allowed f id (row ∷ rows) = do
  let rest = update_item allowed f id rows
  if bytes_eq row.content_id id
      then (if allowed row then ok (f row ∷ rows) else err no_rows)
      else (rest >>= λ rows'. ok (row ∷ rows'))

abbrev pub scanned_row : ScanStatus → ScanReport → ℕ → FileRow → FileRow
scanned_row status report now row = record row {
  scan_status = status;
  scan_result = report;
  updated_at = now;
}

abbrev pub status_row : ContentStatus → ℕ → ItemRow → ItemRow
status_row status now row = record row { status = status; updated_at = now }

unfoldable pub complete_file_scan :
    ℕ → ℕ → Bytes → Bytes → ScanStatus → ContentStatus → ScanReport → Db → Result JobError Db
unfolding update_file update_item mark_succeeded
complete_file_scan now job_id file_id content_id scan_status content_status report db = do
  files ← update_file (λ row. true) (scanned_row scan_status report now) file_id db.files
  items ← update_item (λ row. true) (status_row content_status now) content_id db.items
  jobs ← mark_succeeded now job_id db.jobs
  ok (record db { jobs = jobs; files = files; items = items })

-- COALESCE(published_at, now())
abbrev pub coalesce : Option ℕ → ℕ → Option ℕ
coalesce none now = some now
coalesce (some at) now = some at

abbrev pub moved_row : Bytes → Bytes → ℕ → FileRow → FileRow
moved_row bucket storage_key now row = record row {
  bucket = bucket;
  storage_key = storage_key;
  updated_at = now;
}

abbrev pub published_row : ℕ → ItemRow → ItemRow
published_row now row = record row {
  status = published;
  published_at = coalesce row.published_at now;
  hidden_at = none;
  updated_at = now;
}

abbrev pub is_clean_file : Bytes → FileRow → Bool
is_clean_file content_id row = bytes_eq row.content_id content_id && is_clean row.scan_status

abbrev pub is_publishable_item : ItemRow → Bool
is_publishable_item row = is_publishable row.status && is_none row.deleted_at

unfoldable pub publish_clean_content_tx :
    ℕ → ℕ → Bytes → Bytes → Bytes → Bytes → Bytes → Db → Result JobError Db
unfolding update_file update_item bytes_eq
publish_clean_content_tx now search_job file_id content_id bucket storage_key action db = do
  files ← update_file (is_clean_file content_id) (moved_row bucket storage_key now) file_id db.files
  items ← update_item is_publishable_item (published_row now) content_id db.items
  ok (record {
    jobs = enqueue_search_index now search_job content_id (utf8 "upsert_content") db.jobs;
    files = files;
    items = items;
    logs =
        audit (utf8 "content." ++ action) content_id file_id
        ∷ (moderation action content_id file_id ∷ db.logs);
  })

abbrev pub publish_clean_content : ℕ → ℕ → Bytes → Bytes → Bytes → Bytes → Db → Result JobError Db
publish_clean_content now search_job file_id content_id bucket storage_key db =
    publish_clean_content_tx now search_job file_id content_id bucket storage_key
      (utf8 "auto_publish_reconcile") db

unfoldable pub complete_file_scan_and_publish :
    ℕ → ℕ → ℕ → Bytes → Bytes → ScanStatus → ScanReport → Bytes → Bytes → Db → Result JobError Db
unfolding update_file publish_clean_content_tx mark_succeeded
complete_file_scan_and_publish now search_job job_id file_id content_id scan_status report bucket
      storage_key db =
    do
      files ←
          update_file (λ row. true)
            (λ row. moved_row bucket storage_key now (scanned_row scan_status report now row))
            file_id db.files
      shown ←
          publish_clean_content_tx now search_job file_id content_id bucket storage_key
            (utf8 "auto_publish") (record db { files = files })
      jobs ← mark_succeeded now job_id shown.jobs
      ok (record shown { jobs = jobs })

-- `GetContentFileForScan`
unfoldable pub get_content_file_for_scan : Bytes → List FileRow → Option FileRow
unfolding bytes_eq
get_content_file_for_scan id [] = none
get_content_file_for_scan id (row ∷ rows) =
    let rest = get_content_file_for_scan id rows in
    if bytes_eq row.file_id id then some row else rest
