-- ===== src/Jobs/Queue.antt =====
-- repository/postgres/jobs.go: the operations on the queue of jobs. Each is one statement or one
-- transaction, that is, one function of the table. `now` is the time of the database and `clock`
-- that of the worker; times are nanoseconds. `skip` tells which rows another transaction locks.
pub mod Sound
pub mod Order
pub mod Run
pub mod Held
pub mod Invariant
pub mod Outcome
pub mod Admin
pub mod Attempts
use bee_ba.Common.{
  ℕ, zero, suc, ◌+◌, ◌-◌, ◌*◌, ◌^◌, Bool, true, false, ◌&&◌, ◌||◌, not, Option, none, some, List,
  [], ◌∷◌, Result, ok, err, ◌>>=◌, ◌>>◌, fail_if, or_fail, ltb, leb, ◌==◌, if◌then◌else◌,
}
use bee_ba.Common.Text.{Bytes, bytes_eq, utf8}
use bee_ba.Jobs.Row.{
  Status, pending, running, succeeded, failed, dead, Payload, AdminJob, Job, JobError, no_rows,
  not_retryable, claimed, kept_payload, redact_admin_job, find_row, update_row,
}

abbrev pub is_pending : Status → Bool
is_pending pending = true
is_pending _ = false

-- next_retry_at IS NULL OR next_retry_at <= now()
abbrev pub is_due : ℕ → Option ℕ → Bool
is_due now none = true
is_due now (some at) = leb at now

-- The rows that `Claim` can pick.
unfoldable pub claimable : (ℕ → Bool) → ℕ → Bytes → AdminJob → Bool
unfolding bytes_eq
claimable skip now queue row =
    bytes_eq row.queue_name queue
    && (is_pending row.status && (is_due now row.next_retry_at && not (skip row.id)))

-- ORDER BY created_at ... LIMIT 1
abbrev pub earlier : Bool → AdminJob → Option AdminJob → Option AdminJob
earlier wanted row none = if wanted then some row else none
earlier wanted row (some other) =
    if wanted && leb row.created_at other.created_at then some row else some other

unfoldable pub pick : (AdminJob → Bool) → List AdminJob → Option AdminJob
pick wanted [] = none
pick wanted (row ∷ rows) = earlier (wanted row) row (pick wanted rows)

abbrev pub start : ℕ → Bytes → AdminJob → AdminJob
start now worker row = record row {
  status = running;
  attempt_count = row.attempt_count + 1;
  locked_by = some worker;
  locked_at = some now;
  updated_at = now;
}

unfoldable pub claim :
    (ℕ → Bool) → ℕ → Bytes → Bytes → List AdminJob → Result JobError (Job × List AdminJob)
unfolding claimable pick update_row
claim skip now queue worker table = do
  picked ← or_fail (pick (claimable skip now queue) table) no_rows
  (row, table') ← update_row (start now worker) picked.id table
  ok (claimed row, table')

abbrev pub succeed : ℕ → AdminJob → AdminJob
succeed now row = record row {
  status = succeeded;
  payload = kept_payload row;
  locked_by = none;
  locked_at = none;
  updated_at = now;
}

-- `MarkSucceeded` and `markSucceededTx`
unfoldable pub mark_succeeded : ℕ → ℕ → List AdminJob → Result JobError (List AdminJob)
unfolding update_row kept_payload
mark_succeeded now id table = do (_, table') ← update_row (succeed now) id table; ok table'

-- time.Minute
abbrev pub minute : ℕ
minute = 60 * 1000000000

abbrev pub clamp_attempt : ℕ → ℕ
clamp_attempt attempt = if ltb attempt 1 then 1 else if ltb 6 attempt then 6 else attempt

unfoldable pub backoff : ℕ → ℕ
backoff attempt = 2 ^ (clamp_attempt attempt - 1) * minute

-- What `MarkFailed` writes, once it is known whether the attempts are used up.
unfoldable pub fail_row : Bool → ℕ → ℕ → Job → Bytes → AdminJob → AdminJob
unfolding kept_payload backoff
fail_row spent clock now job message row = record row {
  status = if spent then dead else pending;
  payload = if spent then kept_payload row else row.payload;
  last_error = some message;
  next_retry_at = if spent then none else some (clock + backoff job.attempt_count);
  locked_by = none;
  locked_at = none;
  updated_at = now;
}

unfoldable pub mark_failed : ℕ → ℕ → Job → Bytes → List AdminJob → Result JobError (List AdminJob)
unfolding update_row fail_row
mark_failed clock now job message table = do
  (_, table') ←
      update_row (fail_row (leb job.max_attempts job.attempt_count) clock now job message) job.id
        table
  ok table'

pub record AdminRetryInput : Type 0 where
  pub actor_user_id : ℕ
  pub job_id : ℕ
  pub reason : Bytes
  pub ip_address : Bytes
  pub user_agent : Bytes

-- The row of audit_logs that `RetryAdminJob` inserts.
pub record RetryAudit : Type 0 where
  pub actor_user_id : ℕ
  pub entity_id : ℕ
  pub before : AdminJob
  pub status : Status
  pub attempt_count : ℕ
  pub reason : Bytes
  pub ip_address : Option Bytes
  pub user_agent : Option Bytes

pub record Retried : Type 0 where
  pub job : AdminJob
  pub table : List AdminJob
  pub audit : RetryAudit

-- NULLIF(value, '')
abbrev pub null_if_empty : Bytes → Option Bytes
null_if_empty [] = none
null_if_empty (c ∷ cs) = some (c ∷ cs)

abbrev pub retryable : Status → Bool
retryable failed = true
retryable dead = true
retryable _ = false

abbrev pub requeue : ℕ → AdminJob → AdminJob
requeue now row = record row {
  status = pending;
  attempt_count = 0;
  last_error = none;
  next_retry_at = some now;
  locked_by = none;
  locked_at = none;
  updated_at = now;
}

unfoldable pub retry_admin_job : ℕ → AdminRetryInput → List AdminJob → Result JobError Retried
unfolding find_row update_row redact_admin_job
retry_admin_job now input table = do
  before ← or_fail (find_row input.job_id table) no_rows
  fail_if (not (retryable before.status)) not_retryable
  (after, table') ← update_row (requeue now) input.job_id table
  ok (record {
    job = redact_admin_job after;
    table = table';
    audit = record {
      actor_user_id = input.actor_user_id;
      entity_id = input.job_id;
      before = redact_admin_job before;
      status = after.status;
      attempt_count = after.attempt_count;
      reason = input.reason;
      ip_address = null_if_empty input.ip_address;
      user_agent = null_if_empty input.user_agent;
    };
  })

-- The default of worker_jobs.max_attempts.
abbrev pub default_attempts : ℕ
default_attempts = 5

-- INSERT INTO worker_jobs (queue_name, job_type, payload, max_attempts), with the columns' defaults
-- and the id that the database makes.
abbrev pub insert_job : ℕ → ℕ → Bytes → Bytes → Payload → ℕ → List AdminJob → List AdminJob
insert_job now id queue job_type payload max_attempts table =
    record {
      id = id;
      queue_name = queue;
      job_type = job_type;
      payload = payload;
      status = pending;
      attempt_count = 0;
      max_attempts = max_attempts;
      last_error = none;
      next_retry_at = none;
      locked_by = none;
      locked_at = none;
      created_at = now;
      updated_at = now;
    }
    ∷ table

abbrev pub enqueue_search_index : ℕ → ℕ → Bytes → Bytes → List AdminJob → List AdminJob
enqueue_search_index now id content_id action table =
    insert_job now id (utf8 "search_index_queue") (utf8 "sync_content_search")
      ((utf8 "content_id", content_id) ∷ (utf8 "action", action) ∷ []) default_attempts table
