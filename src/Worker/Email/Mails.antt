-- ===== src/Worker/Email/Mails.antt =====
-- Which mails are sent, and what becomes of a retried mail.
use mathlib.Core.Option.{some-injective}
use bee_ba.Common.{
  ℕ, ◌<◌, ◌≡◌, ◌≢◌, refl, sym, ap, ◌∙◌, Bool, true, false, ◌&&◌, ◌||◌, not, Option, none, some,
  List, [], ◌∷◌, ok, err, arith, Bool-cases, inl, inr, length, ◌==◌, not,
}
use bee_ba.Common.Text.{Bytes, bytes_eq, bytes_eq_iff}
use bee_ba.Jobs.Row.{Payload, Job, AdminJob, member, email_queue, token_key, claimed, find_row}
use bee_ba.Jobs.Queue.{AdminRetryInput, Retried, retry_admin_job, start}
use bee_ba.Jobs.Queue.Admin.{retry_admin_job-Reached}
use bee_ba.Jobs.Queue.Run.{State, Reached}
use bee_ba.Worker.Email.{
  MailPayload, TokenRow, Mail, MailEnv, mail_payload_incomplete, decode_mail, find_token, is_full,
  is_stale, mail_of, send_with, send_for, process_confirmation,
}

-- The mail that a job asks for: its token is in the table, is that of the user and of the address,
-- is unused and has not expired.
pub record IsDue (env : MailEnv) (tokens : List TokenRow) (p : MailPayload) (mail : Mail)
    : Type 0 where
  pub has_token : p.token ≢ []
  pub row : TokenRow
  pub found : find_token p.token_id tokens ≡ some row
  pub user_is : row.user_id ≡ p.user_id
  pub email_is : row.email ≡ p.email
  pub unused : row.used_at ≡ none
  pub in_time : env.clock < row.expires_at
  pub mail_is : mail ≡ mail_of p row
  pub send : Mail → Bool
  pub has_sender : env.sender ≡ some send
  pub taken : send mail ≡ true

-- At most one mail, and it satisfies P.
abbrev pub AtMostOneMail : (Mail → Type 0) → List Mail → Type 0
AtMostOneMail P [] = Unit {0}
AtMostOneMail P (m ∷ []) = P m
AtMostOneMail P (m ∷ (n ∷ rest)) = ⊥

not_stale :
    (clock : ℕ) (row : TokenRow)
    → is_stale clock row ≡ false
    → (row.used_at ≡ none) × (clock < row.expires_at)
not_stale clock row h = (unused row.used_at (ground (arith, h)), ground (arith, h))
  where
    unused : (u : Option ℕ) → (elim u [ none ↦ false | some at ↦ true ]) ≡ false → u ≡ none
    unused none e = refl
    unused (some at) e = cc

same_owner :
    (row : TokenRow) (p : MailPayload)
    → (bytes_eq row.user_id p.user_id && bytes_eq row.email p.email) ≡ true
    → (row.user_id ≡ p.user_id) × (row.email ≡ p.email)
same_owner row p h =
    ground (arith, bytes_eq_iff row.user_id p.user_id, bytes_eq_iff row.email p.email)

is_full-token : (p : MailPayload) → is_full p ≡ true → p.token ≢ []
unfolding is_full
is_full-token p h = λ e. no_token (rw e at h)
  where
    no_token :
        not ((length p.user_id == 0) || (length p.email == 0) || (length p.token_id == 0) || true)
          ≡ true
        → ⊥
    no_token h = ground (arith, h)

send_with-IsDue :
    (env : MailEnv) (tokens : List TokenRow) (p : MailPayload) (job : Job) (table : List AdminJob)
    (row : TokenRow)
    → p.token ≢ []
    → find_token p.token_id tokens ≡ some row
    → (row.user_id ≡ p.user_id) × (row.email ≡ p.email)
    → (row.used_at ≡ none) × (env.clock < row.expires_at)
    → (sender : Option (Mail → Bool)) → env.sender ≡ sender
    → AtMostOneMail (IsDue env tokens p) (send_with env job (mail_of p row) table sender).0
send_with-IsDue env tokens p job table row has found owner fresh none e = tt
send_with-IsDue env tokens p job table row has found owner fresh (some send) e =
    elim (Bool-cases (send (mail_of p row))) [
      | inl y ↦ rw y (record {
        has_token = has;
        row = row;
        found = found;
        user_is = owner.0;
        email_is = owner.1;
        unused = fresh.0;
        in_time = fresh.1;
        mail_is = refl;
        send = send;
        has_sender = e;
        taken = y;
      })
      | inr n ↦ rw n tt
    ]

send_for-IsDue :
    (env : MailEnv) (tokens : List TokenRow) (p : MailPayload) (job : Job) (table : List AdminJob)
    → p.token ≢ []
    → (row : Option TokenRow) → find_token p.token_id tokens ≡ row
    → AtMostOneMail (IsDue env tokens p) (send_for env p job table row).0
send_for-IsDue env tokens p job table has none found = tt
send_for-IsDue env tokens p job table has (some row) found =
    elim (Bool-cases (bytes_eq row.user_id p.user_id && bytes_eq row.email p.email)) [
      | inr n ↦ rw n tt
      | inl y ↦ elim (Bool-cases (is_stale env.clock row)) [
        | inl stale ↦ rw (y, stale) tt
        | inr fresh ↦
            rw (y, fresh)
              (send_with-IsDue env tokens p job table row has found (same_owner row p y)
                (not_stale env.clock row fresh) env.sender refl)
      ]
    ]

-- A confirmation job sends at most one mail. It is sent only if the payload holds a token, the
-- token's row is in the table, belongs to the payload's user and address, is unused and has not
-- expired; the mail goes to that address, with the payload's token and the row's expiry.
pub process_confirmation-IsDue :
    (env : MailEnv) (tokens : List TokenRow) (job : Job) (table : List AdminJob)
    → AtMostOneMail
        (IsDue env tokens (decode_mail job.payload))
        (process_confirmation env tokens job table).0
unfolding process_confirmation
process_confirmation-IsDue env tokens job table =
    elim (Bool-cases (is_full (decode_mail job.payload))) [
      | inr n ↦ rw n tt
      | inl y ↦ rw y (
          send_for-IsDue env tokens (decode_mail job.payload) job table
            (is_full-token (decode_mail job.payload) y) _ refl)
    ]

not-or_true : (a b c : Bool) → not (a || b || c || true) ≡ false
not-or_true true b c = refl
not-or_true false true c = refl
not-or_true false false true = refl
not-or_true false false false = refl

is_full-no_token : (p : MailPayload) → p.token ≡ [] → is_full p ≡ false
unfolding is_full
is_full-no_token p h =
    rw h (not-or_true (length p.user_id == 0) (length p.email == 0) (length p.token_id == 0))

decode_mail-no_token : (p : Payload) → member token_key p ≡ none → (decode_mail p).token ≡ []
unfolding decode_mail
decode_mail-no_token p h = rw h refl

no_token-incomplete :
    (env : MailEnv) (tokens : List TokenRow) (job : Job) (table : List AdminJob)
    → member token_key job.payload ≡ none
    → process_confirmation env tokens job table ≡ ([], err mail_payload_incomplete)
unfolding process_confirmation
no_token-incomplete env tokens job table h =
    rw (is_full-no_token (decode_mail job.payload) (decode_mail-no_token job.payload h)) refl

-- A mail job that `RetryAdminJob` accepts cannot be sent any more: its row, however it is claimed
-- and whatever the tokens and the mail service are, is refused as incomplete, since its token was
-- taken out when the job died.
pub retry_admin_job-not_sent :
    (s : State) (now later : ℕ) (worker : Bytes) (input : AdminRetryInput) (r : Retried)
    (env : MailEnv) (tokens : List TokenRow) (before : AdminJob)
    → Reached s
    → find_row input.job_id s.table ≡ some before
    → before.queue_name ≡ email_queue
    → retry_admin_job now input s.table ≡ ok r
    → (row : AdminJob) × (find_row input.job_id r.table ≡ some row)
      × (process_confirmation env tokens (claimed (start later worker row)) r.table
          ≡ ([], err mail_payload_incomplete))
retry_admin_job-not_sent s now later worker input r env tokens before reached is_before queue h =
    let (dead_row, found, x) = retry_admin_job-Reached s now input r reached h in
    let same : dead_row ≡ before = some-injective _ _ (sym found ∙ is_before) in
    let mail_queue : x.row.queue_name ≡ email_queue =
      x.queue_is ∙ ap (λ b. b.queue_name) same ∙ queue in
    (
      x.row,
      x.found,
      no_token-incomplete env tokens (claimed (start later worker x.row)) r.table
          (x.no_token mail_queue),
    )
