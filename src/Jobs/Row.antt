-- ===== src/Jobs/Row.antt =====
-- domain/jobs/job.go: the records of a job, with the columns of the table worker_jobs, and the
-- statements on one row that repository/postgres/jobs.go makes. A payload is a JSON object whose
-- members are strings, as all payloads of the program are; an id and a time are numbers.
pub mod Table
use bee_ba.Common.{
  ℕ, zero, suc, ◌+◌, Bool, true, false, ◌&&◌, not, Option, none, some, List, [], ◌∷◌, Result, ok,
  err, ◌>>=◌, ◌>>◌, fail_if, or_fail, ltb, leb, ◌==◌, if◌then◌else◌,
}
use bee_ba.Common.Text.{Bytes, bytes_eq, utf8}

-- worker_jobs.status
pub data Status : Type 0 where
  pending running succeeded failed dead : Status

abbrev pub Payload : Type 0
Payload = List (Bytes × Bytes)

unfoldable pub member : Bytes → Payload → Option Bytes
unfolding bytes_eq
member key [] = none
member key ((k, v) ∷ rest) = let found = member key rest in if bytes_eq k key then some v else found

-- `payload - 'token'`
unfoldable pub without : Bytes → Payload → Payload
unfolding bytes_eq
without key [] = []
without key ((k, v) ∷ rest) =
    let kept = without key rest in if bytes_eq k key then kept else (k, v) ∷ kept

-- `payload["token"] = "[redacted]"` where the key is present.
unfoldable pub overwrite : Bytes → Bytes → Payload → Payload
unfolding bytes_eq
overwrite key value [] = []
overwrite key value ((k, v) ∷ rest) =
    let kept = overwrite key value rest in (k, if bytes_eq k key then value else v) ∷ kept

pub record AdminJob : Type 0 where
  pub id : ℕ
  pub queue_name : Bytes
  pub job_type : Bytes
  pub payload : Payload
  pub status : Status
  pub attempt_count : ℕ
  pub max_attempts : ℕ
  pub last_error : Option Bytes
  pub next_retry_at : Option ℕ
  pub locked_by : Option Bytes
  pub locked_at : Option ℕ
  pub created_at : ℕ
  pub updated_at : ℕ

pub record Job : Type 0 where
  pub id : ℕ
  pub queue_name : Bytes
  pub job_type : Bytes
  pub payload : Payload
  pub attempt_count : ℕ
  pub max_attempts : ℕ
  pub created_at : ℕ

pub data JobError : Type 0 where
  -- pgx.ErrNoRows
  no_rows : JobError
  -- the constraint worker_jobs_attempts_valid
  check_violation : JobError
  -- ErrAdminJobNotRetryable
  not_retryable : JobError

abbrev pub email_queue : Bytes
email_queue = utf8 "email_queue"

abbrev pub token_key : Bytes
token_key = utf8 "token"

abbrev pub redacted : Bytes
redacted = utf8 "[redacted]"

-- The columns that `Claim` returns.
abbrev pub claimed : AdminJob → Job
claimed row = record {
  id = row.id;
  queue_name = row.queue_name;
  job_type = row.job_type;
  payload = row.payload;
  attempt_count = row.attempt_count;
  max_attempts = row.max_attempts;
  created_at = row.created_at;
}

-- The payload of an email job that is over is kept without its token.
unfoldable pub kept_payload : AdminJob → Payload
unfolding bytes_eq without
kept_payload row =
    if bytes_eq row.queue_name email_queue then without token_key row.payload else row.payload

unfoldable pub redact_admin_job : AdminJob → AdminJob
unfolding bytes_eq overwrite
redact_admin_job row =
    if bytes_eq row.queue_name email_queue
    then record row { payload = overwrite token_key redacted row.payload }
    else row

abbrev pub attempts_valid : AdminJob → Bool
attempts_valid row = ltb 0 row.max_attempts && leb row.attempt_count row.max_attempts

unfoldable pub find_row : ℕ → List AdminJob → Option AdminJob
find_row id [] = none
find_row id (row ∷ rows) = let rest = find_row id rows in if row.id == id then some row else rest

unfoldable pub put_row : AdminJob → List AdminJob → List AdminJob
put_row row [] = []
put_row row (old ∷ rows) =
    let rest = put_row row rows in if old.id == row.id then row ∷ rows else old ∷ rest

-- `UPDATE worker_jobs SET ... WHERE id = $1 RETURNING ...`
unfoldable pub update_row :
    (AdminJob → AdminJob) → ℕ → List AdminJob → Result JobError (AdminJob × List AdminJob)
unfolding find_row put_row
update_row f id table = do
  row ← or_fail (find_row id table) no_rows
  fail_if (not (attempts_valid (f row))) check_violation
  ok (f row, put_row (f row) table)
