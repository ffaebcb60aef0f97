-- ===== src/Worker/Scan/Published.antt =====
-- When a content becomes public by the scan of its file.
use mathlib.Core.Path.{subst}
use mathlib.Core.Option.{some-injective}
use bee_ba.Common.{
  ℕ, ◌≡◌, ◌≢◌, ◌⊎◌, refl, sym, ap, ◌∙◌, Bool, not, some, ok, err, Result, ok-injective, Bool-cases,
  inl, inr, fail_if_ok,
}
use bee_ba.Common.Text.{Bytes, bytes_eq, bytes_eq_iff}
use bee_ba.BasisBee.Types.{BeeResult}
use bee_ba.Jobs.Row.{Job, JobError}
use bee_ba.Publish.{
  FileRow, ItemRow, Db, ScanStatus, clean, published, scan_failed, ScanReport, valid,
  complete_file_scan, complete_file_scan_and_publish, published_row, status_row, moved_row,
  scanned_row, is_publishable_item, get_content_file_for_scan,
}
use bee_ba.Publish.Tables.{find_item, ItemUpdate}
use bee_ba.Publish.Effects.{complete_file_scan-ok, complete_file_scan_and_publish-ok}
use bee_ba.Worker.Scan.{
  Env, World, Outcome, WorkerError, no_transaction, storage_unready, copy_failed, Verdict, reject,
  publish, settle, settle_promoted, transaction, content_key, publish_with, act, judge,
  decode_file_scan, process_file_scan,
}
use bee_ba.Worker.Scan.Approved.{IsApproved, judge_iff}

-- The content is public.
abbrev pub IsPublic : Bytes → Db → Type 0
IsPublic content_id db =
    (row : ItemRow) × (find_item content_id db.items ≡ some row) × (row.status ≡ published)

pub transaction-ok :
    (env : Env) (r : Result JobError Db) (db : Db) → transaction env r ≡ ok db → r ≡ ok db
transaction-ok env (err e) db h = cc
transaction-ok env (ok d) db h =
    ap ok (ok-injective _ _ (fail_if_ok (not env.commits) no_transaction h).1)

-- Where the worker put the file.
abbrev pub IsPlaced : Env → FileRow → Bytes → Bytes → Type 0
IsPlaced env file bucket key =
    ((file.bucket ≢ env.quarantine_bucket) × (bucket ≡ file.bucket) × (key ≡ file.storage_key))
    ⊎ ((file.bucket ≡ env.quarantine_bucket)
        × (bucket ≡ env.private_bucket)
        × (key ≡ content_key file))

-- Publishing leaves the database as it was, or as the transaction leaves it with the file's place.
pub record Committed (env : Env) (file : FileRow) (commit : Bytes → Bytes → Db → Result JobError Db)
    (db db' : Db) : Type 0 where
  pub bucket : Bytes
  pub key : Bytes
  pub placed : IsPlaced env file bucket key
  pub committed : commit bucket key db ≡ ok db'

pub settle-db :
    (env : Env) (w : World) (r : Result JobError Db)
    → ((settle w (transaction env r)).0.db ≡ w.db) ⊎ (r ≡ ok (settle w (transaction env r)).0.db)
settle-db env w r = by_result (transaction env r) refl
  where
    by_result :
        (t : Result WorkerError Db)
        → transaction env r ≡ t
        → ((settle w t).0.db ≡ w.db) ⊎ (r ≡ ok (settle w t).0.db)
    by_result (ok db) e = inr (transaction-ok env r db e)
    by_result (err x) e = inl refl

pub settle_promoted-db :
    (env : Env) (file : FileRow) (w : World) (r : Result JobError Db)
    → ((settle_promoted env file w (transaction env r)).0.db ≡ w.db)
      ⊎ (r ≡ ok (settle_promoted env file w (transaction env r)).0.db)
settle_promoted-db env file w r = by_result (transaction env r) refl
  where
    by_result :
        (t : Result WorkerError Db)
        → transaction env r ≡ t
        → ((settle_promoted env file w t).0.db ≡ w.db)
          ⊎ (r ≡ ok (settle_promoted env file w t).0.db)
    by_result (ok db) e = inr (transaction-ok env r db e)
    by_result (err x) e = inl refl

-- The ways through the publishing functions.
pub data Way (env : Env) (file : FileRow) (commit : Bytes → Bytes → Db → Result JobError Db)
    (w : World) (out : Outcome) : Type 0 where
  in_place :
      file.bucket ≢ env.quarantine_bucket
      → out ≡ settle w (transaction env (commit file.bucket file.storage_key w.db))
      → Way env file commit w out
  not_started :
      (e : WorkerError)
      → file.bucket ≡ env.quarantine_bucket
      → out ≡ (w, err e)
      → Way env file commit w out
  promoted :
      file.bucket ≡ env.quarantine_bucket
      → out
        ≡ settle_promoted env file w
            (transaction env (commit env.private_bucket (content_key file) w.db))
      → Way env file commit w out

pub publish_with-Way :
    (env : Env) (file : FileRow) (commit : Bytes → Bytes → Db → Result JobError Db) (w : World)
    → Way env file commit w (publish_with env file commit w)
unfolding publish_with
publish_with-Way env file commit w =
    elim (Bool-cases (bytes_eq file.bucket env.quarantine_bucket)) [
      | inr n ↦
          in_place (λ same. cc ((bytes_eq_iff file.bucket env.quarantine_bucket).1 same, n))
            (rw n refl)
      | inl y ↦
          let same = (bytes_eq_iff file.bucket env.quarantine_bucket).0 y in
          elim (Bool-cases (env.ensure_bucket env.private_bucket)) [
            | inr n ↦ not_started storage_unready same (rw (y, n) refl)
            | inl ready ↦ elim (Bool-cases env.copies) [
              | inr n ↦ not_started copy_failed same (rw (y, ready, n) refl)
              | inl copied ↦ promoted same (rw (y, ready, copied) refl)
            ]
          ]
    ]

pub Way-db :
    (env : Env) (file : FileRow) (commit : Bytes → Bytes → Db → Result JobError Db) (w : World)
    (out : Outcome)
    → Way env file commit w out
    → (out.0.db ≡ w.db) ⊎ Committed env file commit w.db out.0.db
Way-db env file commit w out (in_place n e) =
    elim (settle-db env w (commit file.bucket file.storage_key w.db)) [
      | inl same ↦ inl (ap (λ o. o.0.db) e ∙ same)
      | inr done ↦ inr (record {
        bucket = file.bucket;
        key = file.storage_key;
        placed = inl (n, refl, refl);
        committed = done ∙ ap (λ o. ok o.0.db) (sym e);
      })
    ]
Way-db env file commit w out (not_started x q e) = inl (ap (λ o. o.0.db) e)
Way-db env file commit w out (promoted q e) =
    elim (settle_promoted-db env file w (commit env.private_bucket (content_key file) w.db)) [
      | inl same ↦ inl (ap (λ o. o.0.db) e ∙ same)
      | inr done ↦ inr (record {
        bucket = env.private_bucket;
        key = content_key file;
        placed = inr (q, refl, refl);
        committed = done ∙ ap (λ o. ok o.0.db) (sym e);
      })
    ]

-- The content was published by this scan: its file was approved, is clean now, and stands where
-- the worker put its object.
pub record PublishedBy (env : Env) (job : Job) (w w' : World) (content_id : Bytes) : Type 0 where
  pub file : FileRow
  pub result : BeeResult
  pub approved : IsApproved env (decode_file_scan job.payload) w.db.files file result
  pub content_is : file.content_id ≡ content_id
  pub bucket : Bytes
  pub key : Bytes
  pub placed : IsPlaced env file bucket key
  pub row : FileRow
  pub row_found : get_content_file_for_scan file.file_id w'.db.files ≡ some row
  pub row_clean : row.scan_status ≡ clean
  pub row_report : row.scan_result ≡ valid result
  pub row_bucket : row.bucket ≡ bucket
  pub row_key : row.storage_key ≡ key

-- A content that an item update has not touched, or the row that it has written.
item_now :
    (allowed : ItemRow → Bool) (f : ItemRow → ItemRow) (id other : Bytes) (db db' : Db)
    → ItemUpdate allowed f id db.items db'.items
    → IsPublic other db'
    → IsPublic other db ⊎ ((other ≡ id) × ((old : ItemRow) × ((f old).status ≡ published)))
item_now allowed f id other db db' u (row, found, public) = elim (Bool-cases (bytes_eq other id)) [
  | inl y ↦
      let same = (bytes_eq_iff other id).0 y in
      let row_is : row ≡ f u.old =
        some-injective _ _ (sym found ∙ ap (λ x. find_item x db'.items) same ∙ u.written) in
      inr (same, (u.old, ap (λ r. r.status) (sym row_is) ∙ public))
  | inr n ↦
      inl
        (row, sym (u.others other (λ same. cc ((bytes_eq_iff other id).1 same, n))) ∙ found, public)
]

Outcomes-reject :
    (env : Env) (now job_id : ℕ) (file_id content_id c : Bytes) (status : ScanStatus)
    (report : ScanReport) (w : World)
    → IsPublic c
        (settle w (
          transaction env
            (complete_file_scan now job_id file_id content_id status scan_failed report w.db))).0.db
    → IsPublic c w.db
Outcomes-reject env now job_id file_id content_id c status report w public =
    by_db
      (settle-db env w
        (complete_file_scan now job_id file_id content_id status scan_failed report w.db))
      public
  where
    by_db :
        {db' : Db}
        → (db' ≡ w.db)
          ⊎ (complete_file_scan now job_id file_id content_id status scan_failed report w.db
              ≡ ok db')
        → IsPublic c db'
        → IsPublic c w.db
    by_db (inl same) public = subst (IsPublic c) same public
    by_db {db'} (inr done) public =
        let completed =
          complete_file_scan-ok now job_id file_id content_id status scan_failed report w.db db'
            done in
        elim (item_now _ (status_row scan_failed now) content_id c w.db db' completed.item public) [
          | inl before ↦ before
          | inr (_, (_, wrong)) ↦ absurd (cc wrong)
        ]

PublishedBy-act :
    (env : Env) (now search_job : ℕ) (job : Job) (w : World) (c : Bytes) (file : FileRow)
    (result : BeeResult) (db' : Db)
    → IsApproved env (decode_file_scan job.payload) w.db.files file result
    → Committed env file
        (complete_file_scan_and_publish now search_job job.id file.file_id file.content_id clean
          (valid result))
        w.db
        db'
    → IsPublic c db'
    → (w' : World) → w'.db ≡ db'
    → IsPublic c w.db ⊎ PublishedBy env job w w' c
PublishedBy-act env now search_job job w c file result db' approved done public w' is_db =
    let p =
      complete_file_scan_and_publish-ok now search_job job.id file.file_id file.content_id clean
        (valid result) done.bucket done.key w.db db' done.committed in
    elim (item_now is_publishable_item (published_row now) file.content_id c w.db db' p.item
      public) [
        | inl before ↦ inl before
        | inr (same, _) ↦ inr (record {
          file = file;
          result = result;
          approved = approved;
          content_is = sym same;
          bucket = done.bucket;
          key = done.key;
          placed = done.placed;
          row =
              moved_row done.bucket done.key now (scanned_row clean (valid result) now p.old_file);
          row_found =
              ap (λ d. get_content_file_for_scan file.file_id d.files) is_db ∙ p.file_written;
          row_clean = refl;
          row_report = refl;
          row_bucket = refl;
          row_key = refl;
        })
      ]

-- A content that is public after `processFileScan` was public before, or the scan has published it:
-- its file, as the job's payload names it, passed every check (`IsApproved`), and its row is now
-- clean with the validator's result, and stands in the private bucket if it was in quarantine and
-- where it was otherwise.
pub process_file_scan-published :
    (env : Env) (now search_job : ℕ) (job : Job) (w : World) (content_id : Bytes)
    → IsPublic content_id (process_file_scan env now search_job job w).0.db
    → IsPublic content_id w.db
      ⊎ PublishedBy env job w (process_file_scan env now search_job job w).0 content_id
unfolding process_file_scan
process_file_scan-published env now search_job job w c public =
    by_verdict (judge env (decode_file_scan job.payload) w.db.files) refl public
  where
    by_verdict :
        (v : Result WorkerError Verdict)
        → judge env (decode_file_scan job.payload) w.db.files ≡ v
        → IsPublic c (act env now search_job job.id w v).0.db
        → IsPublic c w.db ⊎ PublishedBy env job w (act env now search_job job.id w v).0 c
    by_verdict (err e) j public = inl public
    by_verdict (ok (reject file_id content_id status report)) j public =
        inl (Outcomes-reject env now job.id file_id content_id c status report w public)
    by_verdict (ok (publish file result)) j public =
        let approved = (judge_iff env (decode_file_scan job.payload) w.db.files file result).0 j in
        let commit =
          complete_file_scan_and_publish now search_job job.id file.file_id file.content_id clean
            (valid result) in
        elim (Way-db env file commit w (publish_with env file commit w)
          (publish_with-Way env file commit w)) [
            | inl same ↦ inl (subst (IsPublic c) same public)
            | inr done ↦
                PublishedBy-act env now search_job job w c file result
                  (publish_with env file commit w).0.db approved done public
                  (publish_with env file commit w).0 refl
          ]
