-- ===== src/Worker/Tests.antt =====
-- Runs of the worker at concrete inputs: a file in quarantine that is scanned and published, and a
-- mail job that is retried.
use mathlib.Core.Bool.{false≢true}
use mathlib.Core.Option.{some-injective}
use mathlib.Core.List.{Memᴰ}
use bee_ba.Common.{
  ◌≡◌, ◌≢◌, ◌⊎◌, refl, true, none, some, List, [], ◌∷◌, ok, err, inl, inr, sym, ap, ◌∙◌, Bool-cases,
}
use bee_ba.Common.Int.{pos}
use bee_ba.Common.Text.{Bytes, utf8, bytes_eq, bytes_eq_iff}
use bee_ba.BasisBee.Tests.{sample_host, sample_file, sample_result, sample_run}
use bee_ba.Jobs.Row.{
  AdminJob, Job, claimed, member, find_row, put_row, update_row, kept_payload, without,
}
use bee_ba.Jobs.Queue.{start, insert_job, mark_succeeded}
use bee_ba.Jobs.Tests.{
  mail_job, over, over-Reached, retry_input, retry_result, retry_run, dead_row, dead_row_found,
  busy_row,
}
use bee_ba.Publish.{
  FileRow, ItemRow, scan_pending, pending_scan, published, not_scanned, get_content_file_for_scan,
  update_file, update_item, complete_file_scan_and_publish, publish_clean_content_tx,
}
use bee_ba.Publish.Tables.{find_item}
use bee_ba.Worker.Scan.{
  Env, World, av_clean, decode_file_scan, judge, judge_object, judge_scanned, judge_format,
  is_intact, is_complete, matches, scan_with, publish, publish_with, process_file_scan,
}
use bee_ba.Worker.Scan.Approved.{IsApproved, judge_iff}
use bee_ba.Worker.Scan.Published.{IsPublic, PublishedBy, process_file_scan-published}
use bee_ba.Worker.Scan.Stored.{
  AllStored, OwnPlaces, TargetsFree, place_of, process_file_scan-stored,
}
use bee_ba.Worker.Email.{
  MailEnv, TokenRow, decode_mail, find_token, process_confirmation, is_full,
  mail_payload_incomplete,
}
use bee_ba.Worker.Email.Mails.{
  AtMostOneMail, IsDue, process_confirmation-IsDue, retry_admin_job-not_sent,
}

abbrev scan_env : Env
scan_env = record {
  read_object = λ n bucket key. some sample_file;
  scanner = some (λ s. av_clean);
  scanner_required = true;
  decrypt_string = λ c. some (utf8 "pw");
  sha256_hex = λ b. utf8 "abc";
  host = sample_host;
  max_upload_bytes = pos 1000;
  quarantine_bucket = utf8 "q";
  private_bucket = utf8 "p";
  ensure_bucket = λ b. true;
  copies = true;
  removes = true;
  commits = true;
}

abbrev file_row : FileRow
file_row = record {
  file_id = utf8 "f";
  content_id = utf8 "c";
  bucket = utf8 "q";
  storage_key = utf8 "k";
  file_size = 59;
  file_hash_sha256 = utf8 "abc";
  scan_status = scan_pending;
  scan_result = not_scanned;
  unlock_password_ciphertext = utf8 "x";
  updated_at = 1;
}

abbrev item_row : ItemRow
item_row = record {
  content_id = utf8 "c";
  status = pending_scan;
  published_at = none;
  hidden_at = none;
  deleted_at = none;
  updated_at = 1;
}

abbrev scan_payload : List (Bytes × Bytes)
scan_payload =
    (utf8 "content_id", utf8 "c")
    ∷ ((utf8 "file_id", utf8 "f")
        ∷ ((utf8 "bucket", utf8 "q") ∷ ((utf8 "storage_key", utf8 "k") ∷ [])))

abbrev scan_table : List AdminJob
scan_table = insert_job 1 5 (utf8 "file_scan_queue") (utf8 "scan_content_file") scan_payload 5 []

abbrev scan_job : Job
scan_job = record {
  id = 5;
  queue_name = utf8 "file_scan_queue";
  job_type = utf8 "scan_content_file";
  payload = scan_payload;
  attempt_count = 1;
  max_attempts = 5;
  created_at = 1;
}

abbrev scan_world : World
scan_world = record {
  db = record { jobs = scan_table; files = file_row ∷ []; items = item_row ∷ []; logs = [] };
  objects = (utf8 "q", utf8 "k") ∷ [];
}

judge_run :
    judge scan_env (decode_file_scan scan_payload) (file_row ∷ [])
    ≡ ok (publish file_row sample_result)
unfolding judge decode_file_scan member bytes_eq is_complete matches get_content_file_for_scan
    judge_object is_intact scan_with judge_scanned judge_format
judge_run = rw sample_run refl

judge_iff_example :
    IsApproved scan_env (decode_file_scan scan_payload) (file_row ∷ []) file_row sample_result
judge_iff_example =
    (judge_iff scan_env (decode_file_scan scan_payload) (file_row ∷ []) file_row sample_result).0
      judge_run

scan-IsPublic : IsPublic (utf8 "c") (process_file_scan scan_env 50 6 scan_job scan_world).0.db
unfolding process_file_scan publish_with complete_file_scan_and_publish publish_clean_content_tx
    update_file update_item mark_succeeded update_row find_row put_row kept_payload without bytes_eq
    find_item
scan-IsPublic = rw judge_run (record row { status = published }, refl, refl)
  where
    row : ItemRow
    row = record {
      content_id = utf8 "c";
      status = published;
      published_at = some 50;
      hidden_at = none;
      deleted_at = none;
      updated_at = 50;
    }

process_file_scan-published_example :
    IsPublic (utf8 "c") scan_world.db
    ⊎ PublishedBy scan_env scan_job scan_world
        (process_file_scan scan_env 50 6 scan_job scan_world).0
        (utf8 "c")
process_file_scan-published_example =
    process_file_scan-published scan_env 50 6 scan_job scan_world (utf8 "c") scan-IsPublic

only_row :
    (id : Bytes) (row : FileRow)
    → get_content_file_for_scan id (file_row ∷ []) ≡ some row
    → (row ≡ file_row) × (id ≡ utf8 "f")
unfolding get_content_file_for_scan
only_row id row h = elim (Bool-cases (bytes_eq (utf8 "f") id)) [
  | inl y ↦
      let found : some file_row ≡ some row = rw y at h in
      (sym (some-injective _ _ found), sym ((bytes_eq_iff (utf8 "f") id).0 y))
  | inr n ↦ absurd (cc (rw n at h))
]

different_buckets : utf8 "q" ≢ utf8 "p"
unfolding bytes_eq
different_buckets e = false≢true (sym (ap (bytes_eq (utf8 "q")) e))

scan_world-AllStored : AllStored scan_world.db scan_world.objects
scan_world-AllStored id row h = Memᴰ.head (ap place_of (only_row id row h).0)

scan_world-OwnPlaces : OwnPlaces scan_world.db
scan_world-OwnPlaces id other row row' h k same =
    (only_row id row h).1 ∙ sym (only_row other row' k).1

scan_world-TargetsFree : TargetsFree scan_env scan_world.db
scan_world-TargetsFree id other file row h q k same =
    different_buckets (sym (ap (λ r. r.bucket) (only_row other row k).0) ∙ ap (λ x. x.0) same)

process_file_scan-stored_example :
    AllStored
      (process_file_scan scan_env 50 6 scan_job scan_world).0.db
      (process_file_scan scan_env 50 6 scan_job scan_world).0.objects
process_file_scan-stored_example =
    process_file_scan-stored scan_env 50 6 scan_job scan_world scan_world-AllStored
      scan_world-OwnPlaces scan_world-TargetsFree different_buckets

abbrev mail_env : MailEnv
mail_env = record { sender = some (λ m. true); delivery_enabled = true; clock = 15; now = 15 }

abbrev token_row : TokenRow
token_row = record {
  id = utf8 "t";
  user_id = utf8 "u";
  email = utf8 "a@b";
  expires_at = 99;
  used_at = none;
}

mail_run :
    (process_confirmation mail_env (token_row ∷ []) mail_job (busy_row ∷ [])).0
    ≡ record {
      to = utf8 "a@b";
      username = [];
      token_id = utf8 "t";
      token = utf8 "secret";
      expires_at = 99;
    }
      ∷ []
unfolding process_confirmation is_full decode_mail member bytes_eq find_token
mail_run = refl

process_confirmation-IsDue_example :
    AtMostOneMail
      (IsDue mail_env (token_row ∷ []) (decode_mail mail_job.payload))
      (process_confirmation mail_env (token_row ∷ []) mail_job (busy_row ∷ [])).0
process_confirmation-IsDue_example =
    process_confirmation-IsDue mail_env (token_row ∷ []) mail_job (busy_row ∷ [])

retry_admin_job-not_sent_example :
    (row : AdminJob) × (find_row 1 retry_result.table ≡ some row)
    × (process_confirmation mail_env
          (token_row ∷ [])
          (claimed (start 50 (utf8 "w") row))
          retry_result.table
        ≡ ([], err mail_payload_incomplete))
retry_admin_job-not_sent_example =
    retry_admin_job-not_sent over 40 50 (utf8 "w") retry_input retry_result mail_env
      (token_row ∷ []) dead_row over-Reached dead_row_found refl retry_run
