-- ===== src/Jobs/Queue/Admin.antt =====
-- What an administrator sees of a job, and what a retry does.
use mathlib.Core.Path.{subst}
use mathlib.Core.Option.{some-injective}
use mathlib.Core.Option
use bee_ba.Common.{
  ℕ, ◌≡◌, ◌≢◌, refl, sym, ap, ◌∙◌, true, false, Option, some, List, [], ◌∷◌, ok, arith, le→leb,
  Bool-cases, inl, inr, if◌then◌else◌,
}
use bee_ba.Common.Text.{Bytes, bytes_eq, bytes_eq_iff}
use bee_ba.Jobs.Row.{
  Status, pending, running, succeeded, failed, dead, Payload, AdminJob, find_row, put_row,
  redact_admin_job, member, overwrite, email_queue, token_key, redacted,
}
use bee_ba.Jobs.Row.Table.{find_row-id, All-find_row, find_row-put_row}
use bee_ba.Jobs.Queue.{claimable, AdminRetryInput, Retried, retryable, requeue, retry_admin_job}
use bee_ba.Jobs.Queue.Sound.{IsSound, IsSound-Fits, Fits, HasNoToken}
use bee_ba.Jobs.Queue.Run.{State, Reached}
use bee_ba.Jobs.Queue.Invariant.{Reached-IsGood, retry-Updated}

bytes_eq_refl : (a : Bytes) → bytes_eq a a ≡ true
bytes_eq_refl a = (bytes_eq_iff a a).1 refl

bytes_eq_ne : (a b : Bytes) → a ≢ b → bytes_eq a b ≡ false
bytes_eq_ne a b n = ground (arith, bytes_eq_iff a b)

member-overwrite :
    (key value : Bytes) (p : Payload)
    → member key (overwrite key value p) ≡ Option.map (λ old. value) (member key p)
unfolding member overwrite
member-overwrite key value [] = refl
member-overwrite key value ((k, v) ∷ rest) = elim (Bool-cases (bytes_eq k key)) [
  | inl e ↦ rw e refl
  | inr e ↦ rw e (member-overwrite key value rest)
]

member-overwrite-ne :
    (other key value : Bytes) (p : Payload)
    → other ≢ key
    → member other (overwrite key value p) ≡ member other p
unfolding member overwrite
member-overwrite-ne other key value [] n = refl
member-overwrite-ne other key value ((k, v) ∷ rest) n = elim (Bool-cases (bytes_eq k other)) [
  | inl e ↦ rw (e, bytes_eq_ne k key (λ same. n (sym ((bytes_eq_iff k other).0 e) ∙ same))) refl
  | inr e ↦ rw e (member-overwrite-ne other key value rest n)
]

-- A member of an email job as an administrator sees it.
abbrev pub shown : Bytes → Payload → Option Bytes
shown key payload =
    if bytes_eq key token_key
    then Option.map (λ old. redacted) (member key payload)
    else member key payload

-- `redactAdminJob` shows each member of an email job's payload as it is, but for a token, in whose
-- place it shows the text `[redacted]`.
pub redact_admin_job_lem :
    (row : AdminJob) (key : Bytes)
    → row.queue_name ≡ email_queue
    → member key (redact_admin_job row).payload ≡ shown key row.payload
unfolding redact_admin_job
redact_admin_job_lem row key h =
    rw ((bytes_eq_iff row.queue_name email_queue).1 h) (elim (Bool-cases (bytes_eq key token_key)) [
      | inl e ↦ rw e (
          subst
            (λ k.
              member k (overwrite token_key redacted row.payload)
              ≡ Option.map (λ old. redacted) (member k row.payload))
            (sym ((bytes_eq_iff key token_key).0 e))
            (member-overwrite token_key redacted row.payload))
      | inr e ↦ rw e (
          member-overwrite-ne key token_key redacted row.payload
            (λ same. cc ((bytes_eq_iff key token_key).1 same, e)))
    ])

retryable-dead : (row : AdminJob) → IsSound row → retryable row.status ≡ true → row.status ≡ dead
retryable-dead row s h = by_status row.status s.fits h refl
  where
    by_status :
        (st : Status) → Fits st row → retryable st ≡ true → row.status ≡ st → row.status ≡ dead
    by_status dead f h e = e
    by_status failed f h e = absurd f
    by_status pending f h e = cc
    by_status running f h e = cc
    by_status succeeded f h e = cc

-- The row after a retry: it can be claimed at once, with all its attempts, and it was dead.
pub record IsRetried (now : ℕ) (id : ℕ) (before : AdminJob) (table : List AdminJob) : Type 0 where
  pub row : AdminJob
  pub found : find_row id table ≡ some row
  pub was_dead : before.status ≡ dead
  pub attempts : row.attempt_count ≡ 0
  pub payload_is : row.payload ≡ before.payload
  pub queue_is : row.queue_name ≡ before.queue_name
  pub no_token : HasNoToken row
  pub claimable_now : claimable (λ x. false) now before.queue_name row ≡ true

-- In a state that the queue reaches, a job that `RetryAdminJob` accepts was dead, and afterwards
-- it is pending with no attempts, is due at once, and keeps its queue and payload. The payload of an email
-- job holds no token then, since it was taken out when the job died.
pub retry_admin_job-Reached :
    (s : State) (now : ℕ) (input : AdminRetryInput) (r : Retried)
    → Reached s
    → retry_admin_job now input s.table ≡ ok r
    → (before : AdminJob) × (find_row input.job_id s.table ≡ some before)
      × IsRetried now input.job_id before r.table
unfolding claimable
retry_admin_job-Reached s now input r reached h =
    let g = Reached-IsGood s reached in
    let (before, new, found, allowed, u) = retry-Updated now input s.table r h in
    let sound = All-find_row IsSound input.job_id s.table before g.sound found in
    let was_dead = retryable-dead before sound allowed in
    let new_is : new ≡ requeue now before =
      u.new_is ∙ ap (requeue now) (some-injective _ _ (sym u.found ∙ found)) in
    let id_is : before.id ≡ input.job_id = find_row-id input.job_id s.table before found in
    (
      before,
      found,
      record {
        row = requeue now before;
        found =
            ap (λ x. find_row input.job_id x) (u.table_is ∙ ap (λ x. put_row x s.table) new_is)
            ∙ ap (λ x. find_row x (put_row (requeue now before) s.table)) (sym id_is)
            ∙ find_row-put_row (requeue now before) s.table before
                (ap (λ x. find_row x s.table) id_is ∙ found);
        was_dead = was_dead;
        attempts = refl;
        payload_is = refl;
        queue_is = refl;
        no_token = (IsSound-Fits before dead sound was_dead).2;
        claimable_now = rw (bytes_eq_refl before.queue_name, le→leb now now (omega arith)) refl;
      },
    )
