-- ===== src/Worker/Scan/Stored.antt =====
-- The objects that the rows of content_files refer to stay in the store.
use mathlib.Core.Path.{subst}
use mathlib.Core.Option.{some-injective}
use mathlib.Core.List.{Memᴰ}
use bee_ba.Common.{
  ℕ, ◌≡◌, ◌≢◌, refl, sym, ap, ◌∙◌, Bool, true, false, some, List, [], ◌∷◌, ok, err, Result, arith,
  Bool-cases, inl, inr,
}
use bee_ba.Common.Text.{Bytes, bytes_eq, bytes_eq_iff}
use bee_ba.Jobs.Row.{Job, JobError}
use bee_ba.Publish.{
  FileRow, Db, clean, ScanStatus, scan_failed, ScanReport, valid, complete_file_scan,
  complete_file_scan_and_publish, get_content_file_for_scan,
}
use bee_ba.Publish.Tables.{get_content_file_for_scan-id}
use bee_ba.Publish.Effects.{complete_file_scan-ok, complete_file_scan_and_publish-ok}
use bee_ba.Worker.Scan.{
  Env, World, Outcome, WorkerError, Verdict, reject, publish, settle, settle_promoted, transaction,
  content_key, Place, same_place, remove_place, try_remove, source_of, target_of, publish_with, act,
  judge, decode_file_scan, process_file_scan,
}
use bee_ba.Worker.Scan.Approved.{judge_iff}
use bee_ba.Worker.Scan.Published.{
  transaction-ok, Way, in_place, not_started, promoted, publish_with-Way,
}

abbrev pub place_of : FileRow → Place
place_of row = (row.bucket, row.storage_key)

-- Each row of the database finds its object.
abbrev pub AllStored : Db → List Place → Type 0
AllStored db objects =
    (id : Bytes)
    → (row : FileRow) → get_content_file_for_scan id db.files ≡ some row
    → Memᴰ (place_of row) objects

-- Two rows have different places (the index content_files_storage_object_unique).
abbrev pub OwnPlaces : Db → Type 0
OwnPlaces db =
    (id other : Bytes)
    → (row row' : FileRow) → get_content_file_for_scan id db.files ≡ some row
    → get_content_file_for_scan other db.files ≡ some row'
    → place_of row ≡ place_of row'
    → id ≡ other

-- No row has the place that the worker would copy a file in quarantine to.
abbrev pub TargetsFree : Env → Db → Type 0
TargetsFree env db =
    (id other : Bytes)
    → (file row : FileRow) → get_content_file_for_scan id db.files ≡ some file
    → file.bucket ≡ env.quarantine_bucket
    → get_content_file_for_scan other db.files ≡ some row
    → place_of row ≢ target_of env file

same_place_eq : (p q : Place) → same_place p q ≡ true → p ≡ q
same_place_eq (b, k) (b', k') h =
    let eb : b ≡ b' = (bytes_eq_iff b b').0 (ground (arith, h)) in
    let ek : k ≡ k' = (bytes_eq_iff k k').0 (ground (arith, h)) in rw (eb, ek) refl

different : (b : Bool) → (b ≡ true → ⊥) → b ≡ false
different true n = absurd (n refl)
different false n = refl

Memᴰ-remove_place :
    (p q : Place) (objects : List Place) → q ≢ p → Memᴰ q objects → Memᴰ q (remove_place p objects)
unfolding remove_place
Memᴰ-remove_place p q [] n m = elim m [ ]
Memᴰ-remove_place p q (x ∷ objects) n (Memᴰ.head e) =
    rw (different (same_place x p) (λ y. n (e ∙ same_place_eq x p y))) (Memᴰ.head e)
Memᴰ-remove_place p q (x ∷ objects) n (Memᴰ.tail m) = elim (Bool-cases (same_place x p)) [
  | inl y ↦ rw y (Memᴰ-remove_place p q objects n m)
  | inr z ↦ rw z (Memᴰ.tail (Memᴰ-remove_place p q objects n m))
]

Memᴰ-try_remove :
    (env : Env) (p q : Place) (objects : List Place)
    → q ≢ p
    → Memᴰ q objects
    → Memᴰ q (try_remove env p objects)
Memᴰ-try_remove env p q objects n m = elim (Bool-cases env.removes) [
  | inl y ↦ rw y (Memᴰ-remove_place p q objects n m)
  | inr z ↦ rw z m
]

-- The transaction has given the file a place and left the other rows.
record Moved (id : Bytes) (place : Place) (db db' : Db) : Type 0 where
  row : FileRow
  found : get_content_file_for_scan id db'.files ≡ some row
  place_is : place_of row ≡ place
  others :
      (other : Bytes)
      → other ≢ id
      → get_content_file_for_scan other db'.files ≡ get_content_file_for_scan other db.files

AllStored-Moved :
    (id : Bytes) (place : Place) (db db' : Db) (objects : List Place)
    → Moved id place db db'
    → Memᴰ place objects
    → ((other : Bytes)
        → (row : FileRow) → other ≢ id
        → get_content_file_for_scan other db.files ≡ some row
        → Memᴰ (place_of row) objects)
    → AllStored db' objects
AllStored-Moved id place db db' objects m here there other row found =
    elim (Bool-cases (bytes_eq other id)) [
      | inl y ↦
          let same = (bytes_eq_iff other id).0 y in
          let row_is : row ≡ m.row =
            some-injective _ _
              (sym found ∙ ap (λ x. get_content_file_for_scan x db'.files) same ∙ m.found) in
          subst (λ p. Memᴰ p objects) (sym (ap place_of row_is ∙ m.place_is)) here
      | inr z ↦
          let n : other ≢ id = λ same. cc ((bytes_eq_iff other id).1 same, z) in
          there other row n (sym (m.others other n) ∙ found)
    ]

-- What the worker knows of the file that it publishes, and what its transaction does.
record Ready (env : Env) (id : Bytes) (file : FileRow)
    (commit : Bytes → Bytes → Db → Result JobError Db) (w : World) : Type 0 where
  found : get_content_file_for_scan id w.db.files ≡ some file
  stored : AllStored w.db w.objects
  own : OwnPlaces w.db
  free : TargetsFree env w.db
  buckets : env.quarantine_bucket ≢ env.private_bucket
  moves :
      (bucket key : Bytes)
      → (db' : Db) → commit bucket key w.db ≡ ok db'
      → Moved id (bucket, key) w.db db'

settle-stored :
    (env : Env) (id : Bytes) (file : FileRow) (commit : Bytes → Bytes → Db → Result JobError Db)
    (w : World)
    → Ready env id file commit w
    → (t : Result WorkerError Db) → transaction env (commit file.bucket file.storage_key w.db) ≡ t
    → AllStored (settle w t).0.db (settle w t).0.objects
settle-stored env id file commit w r (err e) q = r.stored
settle-stored env id file commit w r (ok db) q =
    AllStored-Moved id (place_of file) w.db db w.objects
      (r.moves file.bucket file.storage_key db
        (transaction-ok env (commit file.bucket file.storage_key w.db) db q))
      (r.stored id file r.found) (λ other row n found. r.stored other row found)

settle_promoted-stored :
    (env : Env) (id : Bytes) (file : FileRow) (commit : Bytes → Bytes → Db → Result JobError Db)
    (w : World)
    → Ready env id file commit w
    → file.bucket ≡ env.quarantine_bucket
    → (t : Result WorkerError Db)
    → transaction env (commit env.private_bucket (content_key file) w.db) ≡ t
    → AllStored (settle_promoted env file w t).0.db (settle_promoted env file w t).0.objects
settle_promoted-stored env id file commit w r q (err e) h = λ other row found.
    Memᴰ-try_remove env (target_of env file) (place_of row) _
      (r.free id other file row r.found q found) (Memᴰ.tail (r.stored other row found))
settle_promoted-stored env id file commit w r q (ok db) h =
    AllStored-Moved id (target_of env file) w.db db _
      (r.moves env.private_bucket (content_key file) db
        (transaction-ok env (commit env.private_bucket (content_key file) w.db) db h))
      (Memᴰ-try_remove env (source_of file) (target_of env file) _
        (λ same. r.buckets (sym q ∙ sym (ap (λ x. x.0) same))) (Memᴰ.head refl))
      (λ other row n found.
        Memᴰ-try_remove env (source_of file) (place_of row) _
          (λ same. n (r.own other id row file found r.found same))
          (Memᴰ.tail (r.stored other row found)))

Way-stored :
    (env : Env) (id : Bytes) (file : FileRow) (commit : Bytes → Bytes → Db → Result JobError Db)
    (w : World) (out : Outcome)
    → Ready env id file commit w
    → Way env file commit w out
    → AllStored out.0.db out.0.objects
Way-stored env id file commit w out r (in_place n e) =
    subst (λ (o : Outcome). AllStored o.0.db o.0.objects) (sym e)
      (settle-stored env id file commit w r _ refl)
Way-stored env id file commit w out r (not_started x q e) =
    subst (λ (o : Outcome). AllStored o.0.db o.0.objects) (sym e) r.stored
Way-stored env id file commit w out r (promoted q e) =
    subst (λ (o : Outcome). AllStored o.0.db o.0.objects) (sym e)
      (settle_promoted-stored env id file commit w r q _ refl)

complete-Moved :
    (now search_job job_id : ℕ) (file_id content_id : Bytes) (status : ScanStatus)
    (report : ScanReport) (bucket key : Bytes) (db db' : Db)
    → complete_file_scan_and_publish now search_job job_id file_id content_id status report bucket
        key db
      ≡ ok db'
    → Moved file_id (bucket, key) db db'
complete-Moved now search_job job_id file_id content_id status report bucket key db db' h =
    let p =
      complete_file_scan_and_publish-ok now search_job job_id file_id content_id status report
        bucket key db db' h in
    record { row = _; found = p.file_written; place_is = refl; others = p.other_files }

reject-stored :
    (env : Env) (now job_id : ℕ) (file_id content_id : Bytes) (status : ScanStatus)
    (report : ScanReport) (w : World)
    → AllStored w.db w.objects
    → (t : Result WorkerError Db)
    → transaction env
        (complete_file_scan now job_id file_id content_id status scan_failed report w.db)
      ≡ t
    → AllStored (settle w t).0.db (settle w t).0.objects
reject-stored env now job_id file_id content_id status report w stored (err e) h = stored
reject-stored env now job_id file_id content_id status report w stored (ok db) h =
    let c = complete_file_scan-ok now job_id file_id content_id status scan_failed report w.db db (
      transaction-ok env
        (complete_file_scan now job_id file_id content_id status scan_failed report w.db) db h) in
    AllStored-Moved file_id (place_of c.file.old) w.db db w.objects
      (record { row = _; found = c.file.written; place_is = refl; others = c.file.others })
      (stored file_id c.file.old c.file.found) (λ other row n found. stored other row found)

-- `processFileScan` keeps every row's object in the store, whether the scan publishes, rejects or
-- fails at any call, and whether or not the store carries out its removals: if each row of
-- content_files has its object before, has a place of its own, and no row has the place that a
-- file in quarantine would be copied to, then each row has its object afterwards. The quarantine
-- bucket and the private bucket have to be different.
pub process_file_scan-stored :
    (env : Env) (now search_job : ℕ) (job : Job) (w : World)
    → AllStored w.db w.objects
    → OwnPlaces w.db
    → TargetsFree env w.db
    → env.quarantine_bucket ≢ env.private_bucket
    → AllStored
        (process_file_scan env now search_job job w).0.db
        (process_file_scan env now search_job job w).0.objects
unfolding process_file_scan
process_file_scan-stored env now search_job job w stored own free buckets =
    by_verdict (judge env (decode_file_scan job.payload) w.db.files) refl
  where
    by_verdict :
        (v : Result WorkerError Verdict)
        → judge env (decode_file_scan job.payload) w.db.files ≡ v
        → AllStored
            (act env now search_job job.id w v).0.db
            (act env now search_job job.id w v).0.objects
    by_verdict (err e) j = stored
    by_verdict (ok (reject file_id content_id status report)) j =
        reject-stored env now job.id file_id content_id status report w stored _ refl
    by_verdict (ok (publish file result)) j =
        let approved = (judge_iff env (decode_file_scan job.payload) w.db.files file result).0 j in
        let commit =
          complete_file_scan_and_publish now search_job job.id file.file_id file.content_id clean
            (valid result) in
        let id_is =
          get_content_file_for_scan-id (decode_file_scan job.payload).file_id w.db.files file
            approved.found in
        Way-stored env file.file_id file commit w (publish_with env file commit w)
          (record {
            found = ap (λ x. get_content_file_for_scan x w.db.files) id_is ∙ approved.found;
            stored = stored;
            own = own;
            free = free;
            buckets = buckets;
            moves = λ bucket key db' h.
                complete-Moved now search_job job.id file.file_id file.content_id clean
                  (valid result) bucket key w.db db' h;
          })
          (publish_with-Way env file commit w)
