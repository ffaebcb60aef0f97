-- ===== src/Jobs/Tests.antt =====
-- Runs of the queue at concrete inputs: a mail job that is claimed, fails for good and is retried.
use Prim.Native.Nat.{min}
use bee_ba.Common.{ℕ, ◌+◌, ◌*◌, ◌≤◌, ◌≡◌, refl, Bool, false, none, some, List, [], ◌∷◌, ok, arith}
use bee_ba.Common.Text.{utf8, bytes_eq}
use bee_ba.Jobs.Row.{
  Status, dead, Payload, AdminJob, Job, claimed, email_queue, find_row, put_row, update_row,
  kept_payload, without, redact_admin_job, overwrite, member,
}
use bee_ba.Jobs.Queue.{
  claimable, pick, claim, start, fail_row, mark_failed, backoff, minute, AdminRetryInput, Retried,
  retry_admin_job, insert_job, requeue,
}
use bee_ba.Jobs.Queue.Run.{
  State, first, Step, enqueue, claims, fails, Reached, at_start, after, IsGood,
}
use bee_ba.Jobs.Queue.Invariant.{Reached-IsGood}
use bee_ba.Jobs.Queue.Outcome.{
  ClaimOutcome, claim-Reached, backoff_lem, IsFailed, mark_failed-Reached,
}
use bee_ba.Jobs.Queue.Admin.{shown, redact_admin_job_lem, IsRetried, retry_admin_job-Reached}
use bee_ba.Jobs.Queue.Attempts.{Steps, done, next, claims_of, claims_of_le}

abbrev pub mail_payload : Payload
mail_payload =
    (utf8 "user_id", utf8 "u")
    ∷ ((utf8 "email", utf8 "a@b")
        ∷ ((utf8 "token_id", utf8 "t") ∷ ((utf8 "token", utf8 "secret") ∷ [])))

abbrev pub no_skip : ℕ → Bool
no_skip id = false

abbrev pub queued : State
queued = record {
  table = insert_job 10 1 email_queue (utf8 "send_email_verification") mail_payload 1 [];
  held = [];
}

abbrev pub mail_row : AdminJob
mail_row = record {
  id = 1;
  queue_name = email_queue;
  job_type = utf8 "send_email_verification";
  payload = mail_payload;
  status = Status.pending;
  attempt_count = 0;
  max_attempts = 1;
  last_error = none;
  next_retry_at = none;
  locked_by = none;
  locked_at = none;
  created_at = 10;
  updated_at = 10;
}

abbrev pub busy_row : AdminJob
busy_row = start 20 (utf8 "w") mail_row

abbrev pub mail_job : Job
mail_job = claimed busy_row

abbrev pub busy : State
busy = record { table = busy_row ∷ []; held = mail_job ∷ [] }

abbrev pub dead_row : AdminJob
dead_row = record busy_row {
  status = dead;
  payload =
      (utf8 "user_id", utf8 "u")
      ∷ ((utf8 "email", utf8 "a@b") ∷ ((utf8 "token_id", utf8 "t") ∷ []));
  last_error = some (utf8 "down");
  locked_by = none;
  locked_at = none;
  updated_at = 30;
}

abbrev pub over : State
over = record { table = dead_row ∷ []; held = [] }

pub queued-Reached : Reached queued
queued-Reached =
    after at_start
      (enqueue 10 1 email_queue (utf8 "send_email_verification") mail_payload 1 tt (omega arith))

claim_run : claim no_skip 20 email_queue (utf8 "w") queued.table ≡ ok (mail_job, busy_row ∷ [])
unfolding claim pick claimable bytes_eq update_row find_row put_row
claim_run = refl

abbrev claim_step : Step queued busy
claim_step = claims no_skip 20 email_queue (utf8 "w") mail_job (busy_row ∷ []) claim_run

pub busy-Reached : Reached busy
busy-Reached = after queued-Reached claim_step

fail_run : mark_failed 25 30 mail_job (utf8 "down") busy.table ≡ ok (dead_row ∷ [])
unfolding mark_failed update_row find_row put_row fail_row kept_payload bytes_eq without backoff
fail_run = refl

abbrev fail_step : Step busy over
fail_step = fails 25 30 mail_job (utf8 "down") (dead_row ∷ []) [] first fail_run

pub over-Reached : Reached over
over-Reached = after busy-Reached fail_step

Reached-IsGood_example : IsGood over
Reached-IsGood_example = Reached-IsGood over over-Reached

claim-Reached_example : ClaimOutcome no_skip 20 email_queue (utf8 "w") queued.table
claim-Reached_example = claim-Reached queued no_skip 20 email_queue (utf8 "w") queued-Reached

mark_failed-Reached_example :
    (table : List AdminJob) × (mark_failed 25 30 mail_job (utf8 "down") busy.table ≡ ok table)
    × IsFailed 25 mail_job (utf8 "down") table
mark_failed-Reached_example =
    mark_failed-Reached busy mail_job [] 25 30 (utf8 "down") busy-Reached first

backoff_lem_example :
    (backoff 1 ≡ minute)
    × (minute ≤ backoff 3)
    × (backoff 3 ≤ 32 * minute)
    × (backoff (3 + 1) ≡ min (2 * backoff 3) (32 * minute))
backoff_lem_example = backoff_lem 3 (omega arith)

abbrev pub retry_input : AdminRetryInput
retry_input = record {
  actor_user_id = 9;
  job_id = 1;
  reason = utf8 "again";
  ip_address = [];
  user_agent = [];
}

abbrev pub retry_result : Retried
retry_result = record {
  job = requeue 40 dead_row;
  table = requeue 40 dead_row ∷ [];
  audit = record {
    actor_user_id = 9;
    entity_id = 1;
    before = dead_row;
    status = Status.pending;
    attempt_count = 0;
    reason = utf8 "again";
    ip_address = none;
    user_agent = none;
  };
}

pub retry_run : retry_admin_job 40 retry_input over.table ≡ ok retry_result
unfolding retry_admin_job update_row find_row put_row redact_admin_job overwrite bytes_eq
retry_run = refl

pub dead_row_found : find_row 1 over.table ≡ some dead_row
unfolding find_row
dead_row_found = refl

mail_row_found : find_row 1 queued.table ≡ some mail_row
unfolding find_row
mail_row_found = refl

retry_admin_job-Reached_example :
    (before : AdminJob) × (find_row 1 over.table ≡ some before)
    × IsRetried 40 1 before (requeue 40 dead_row ∷ [])
retry_admin_job-Reached_example =
    retry_admin_job-Reached over 40 retry_input retry_result over-Reached retry_run

redact_admin_job_lem_example :
    member (utf8 "token") (redact_admin_job mail_row).payload ≡ shown (utf8 "token") mail_payload
redact_admin_job_lem_example = redact_admin_job_lem mail_row (utf8 "token") refl

abbrev two_steps : Steps queued over
two_steps = next (next done claim_step) fail_step

claims_of_le_example : 0 + claims_of 1 two_steps ≤ 1
claims_of_le_example =
    claims_of_le 1 queued over two_steps mail_row dead_row queued-Reached ((tt, λ e. e), λ e. e)
      mail_row_found dead_row_found
