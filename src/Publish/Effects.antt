-- ===== src/Publish/Effects.antt =====
-- What the transactions leave in the database when they commit.
use mathlib.Core.Option.{some-injective}
use bee_ba.Common.{
  ℕ, ◌≡◌, ◌≢◌, refl, sym, ap, ◌∙◌, true, some, ◌∷◌, ◌++◌, ok, >>=-eq-ok, ok-injective, arith,
}
use bee_ba.Common.Text.{Bytes, bytes_eq_iff, utf8}
use bee_ba.Jobs.Queue.{mark_succeeded, enqueue_search_index}
use bee_ba.Publish.{
  FileRow, ScanStatus, ContentStatus, ScanReport, Db, is_clean, is_clean_file, is_publishable_item,
  scanned_row, status_row, moved_row, published_row, update_file, update_item, complete_file_scan,
  publish_clean_content_tx, complete_file_scan_and_publish, get_content_file_for_scan, audit,
  moderation,
}
use bee_ba.Publish.Tables.{ItemUpdate, update_item-ItemUpdate, FileUpdate, update_file-FileUpdate}

pub record ScanCompleted (now job_id : ℕ) (file_id content_id : Bytes) (status : ScanStatus)
    (content_status : ContentStatus) (report : ScanReport) (db db' : Db) : Type 0 where
  pub file : FileUpdate (λ row. true) (scanned_row status report now) file_id db.files db'.files
  pub item : ItemUpdate (λ row. true) (status_row content_status now) content_id db.items db'.items
  pub job : mark_succeeded now job_id db.jobs ≡ ok db'.jobs
  pub logs_is : db'.logs ≡ db.logs

pub complete_file_scan-ok :
    (now job_id : ℕ) (file_id content_id : Bytes) (status : ScanStatus)
    (content_status : ContentStatus) (report : ScanReport) (db db' : Db)
    → complete_file_scan now job_id file_id content_id status content_status report db ≡ ok db'
    → ScanCompleted now job_id file_id content_id status content_status report db db'
unfolding complete_file_scan
complete_file_scan-ok now job_id file_id content_id status content_status report db db' h =
    let (files, e1, h1) =
      >>=-eq-ok (update_file (λ row. true) (scanned_row status report now) file_id db.files) _ h in
    let (items, e2, h2) =
      >>=-eq-ok (update_item (λ row. true) (status_row content_status now) content_id db.items) _
        h1 in
    let (jobs, e3, h3) = >>=-eq-ok (mark_succeeded now job_id db.jobs) _ h2 in
    let same = ok-injective _ _ h3 in
    record {
      file =
          rw (sym (ap (λ x. x.files) same))
            (update_file-FileUpdate _ _ file_id db.files files (λ row. refl) e1);
      item =
          rw (sym (ap (λ x. x.items) same))
            (update_item-ItemUpdate _ _ content_id db.items items (λ row. refl) e2);
      job = e3 ∙ ap (λ x. ok x.jobs) same;
      logs_is = sym (ap (λ x. x.logs) same);
    }

pub record CleanPublished (now search_job : ℕ)
    (file_id content_id bucket storage_key action : Bytes) (db db' : Db) : Type 0 where
  pub file :
      FileUpdate
        (is_clean_file content_id)
        (moved_row bucket storage_key now)
        file_id
        db.files
        db'.files
  pub item : ItemUpdate is_publishable_item (published_row now) content_id db.items db'.items
  pub jobs_is :
      db'.jobs ≡ enqueue_search_index now search_job content_id (utf8 "upsert_content") db.jobs
  pub logs_is :
      db'.logs
      ≡ audit (utf8 "content." ++ action) content_id file_id
        ∷ (moderation action content_id file_id ∷ db.logs)

pub publish_clean_content_tx-ok :
    (now search_job : ℕ) (file_id content_id bucket storage_key action : Bytes) (db db' : Db)
    → publish_clean_content_tx now search_job file_id content_id bucket storage_key action db
      ≡ ok db'
    → CleanPublished now search_job file_id content_id bucket storage_key action db db'
unfolding publish_clean_content_tx
publish_clean_content_tx-ok now search_job file_id content_id bucket storage_key action db db' h =
    let (files, e1, h1) =
      >>=-eq-ok
        (update_file (is_clean_file content_id) (moved_row bucket storage_key now) file_id db.files)
        _ h in
    let (items, e2, h2) =
      >>=-eq-ok (update_item is_publishable_item (published_row now) content_id db.items) _ h1 in
    let same = ok-injective _ _ h2 in
    record {
      file =
          rw (sym (ap (λ x. x.files) same))
            (update_file-FileUpdate _ _ file_id db.files files (λ row. refl) e1);
      item =
          rw (sym (ap (λ x. x.items) same))
            (update_item-ItemUpdate _ _ content_id db.items items (λ row. refl) e2);
      jobs_is = sym (ap (λ x. x.jobs) same);
      logs_is = sym (ap (λ x. x.logs) same);
    }

pub record ScanPublished (now search_job job_id : ℕ) (file_id content_id : Bytes)
    (status : ScanStatus) (report : ScanReport) (bucket storage_key : Bytes) (db db' : Db)
    : Type 0 where
  pub was_clean : is_clean status ≡ true
  pub old_file : FileRow
  pub file_found : get_content_file_for_scan file_id db.files ≡ some old_file
  pub content_is : old_file.content_id ≡ content_id
  pub file_written :
      get_content_file_for_scan file_id db'.files
      ≡ some (moved_row bucket storage_key now (scanned_row status report now old_file))
  pub other_files :
      (other : Bytes)
      → other ≢ file_id
      → get_content_file_for_scan other db'.files ≡ get_content_file_for_scan other db.files
  pub item : ItemUpdate is_publishable_item (published_row now) content_id db.items db'.items
  pub job :
      mark_succeeded now job_id
        (enqueue_search_index now search_job content_id (utf8 "upsert_content") db.jobs)
      ≡ ok db'.jobs

pub complete_file_scan_and_publish-ok :
    (now search_job job_id : ℕ) (file_id content_id : Bytes) (status : ScanStatus)
    (report : ScanReport) (bucket storage_key : Bytes) (db db' : Db)
    → complete_file_scan_and_publish now search_job job_id file_id content_id status report bucket
        storage_key db
      ≡ ok db'
    → ScanPublished now search_job job_id file_id content_id status report bucket storage_key db db'
unfolding complete_file_scan_and_publish
complete_file_scan_and_publish-ok now search_job job_id file_id content_id status report bucket
      storage_key db db' h =
    let scanned : FileRow → FileRow =
      λ row. moved_row bucket storage_key now (scanned_row status report now row) in
    let (files, e1, h1) = >>=-eq-ok (update_file (λ row. true) scanned file_id db.files) _ h in
    let (shown, e2, h2) =
      >>=-eq-ok
        (publish_clean_content_tx now search_job file_id content_id bucket storage_key
          (utf8 "auto_publish") (record db { files = files }))
        _ h1 in
    let (jobs, e3, h3) = >>=-eq-ok (mark_succeeded now job_id shown.jobs) _ h2 in
    let same = ok-injective _ _ h3 in
    let first =
      update_file-FileUpdate (λ row. true) scanned file_id db.files files (λ row. refl) e1 in
    let second =
      publish_clean_content_tx-ok now search_job file_id content_id bucket storage_key
        (utf8 "auto_publish") (record db { files = files }) shown e2 in
    let between : second.file.old ≡ scanned first.old =
      some-injective _ _ (sym second.file.found ∙ first.written) in
    let allowed : is_clean_file content_id (scanned first.old) ≡ true =
      ap (is_clean_file content_id) (sym between) ∙ second.file.is_allowed in
    let files_is : db'.files ≡ shown.files = sym (ap (λ x. x.files) same) in
    record {
      was_clean = ground (arith, allowed);
      old_file = first.old;
      file_found = first.found;
      content_is = (bytes_eq_iff first.old.content_id content_id).0 (ground (arith, allowed));
      file_written =
          ap (get_content_file_for_scan file_id) files_is
          ∙ second.file.written
          ∙ ap (λ x. some (moved_row bucket storage_key now x)) between;
      other_files = λ other n.
          ap (get_content_file_for_scan other) files_is
          ∙ second.file.others other n
          ∙ first.others other n;
      item = rw (sym (ap (λ x. x.items) same)) second.item;
      job = ap (mark_succeeded now job_id) (sym second.jobs_is) ∙ e3 ∙ ap (λ x. ok x.jobs) same;
    }
