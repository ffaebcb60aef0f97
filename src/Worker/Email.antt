-- ===== src/Worker/Email.antt =====
-- app/worker.go: the confirmation mails. `processEmailVerification`,
-- `processPasswordChangeConfirmation` and `processEmailChangeConfirmation` take the same steps on
-- three tables of tokens. The mail service is an argument.
pub mod Mails
use bee_ba.Common.{
  ℕ, Bool, true, false, ◌&&◌, ◌||◌, not, Option, none, some, List, [], ◌∷◌, Result, ok, err, ◌>>=◌,
  map_err, ◌==◌, if◌then◌else◌, length, leb,
}
use bee_ba.Common.Text.{Bytes, bytes_eq, utf8}
use bee_ba.Jobs.Row.{Payload, Job, AdminJob, JobError, member}
use bee_ba.Jobs.Queue.{mark_succeeded}

pub data MailError : Type 0 where
  mail_payload_incomplete metadata_mismatch sender_missing not_delivered : MailError
  mark_failure : JobError → MailError

-- The payloads of the three kinds of mail have the same fields.
pub record MailPayload : Type 0 where
  pub user_id : Bytes
  pub email : Bytes
  pub username : Bytes
  pub token_id : Bytes
  pub token : Bytes

-- A row of email_verification_tokens, password_change_tokens or email_change_tokens (where `email`
-- is the column new_email).
pub record TokenRow : Type 0 where
  pub id : Bytes
  pub user_id : Bytes
  pub email : Bytes
  pub expires_at : ℕ
  pub used_at : Option ℕ

pub record Mail : Type 0 where
  pub to : Bytes
  pub username : Bytes
  pub token_id : Bytes
  pub token : Bytes
  pub expires_at : ℕ

-- `sender` is none where no sender is configured; it says whether a mail was taken.
pub record MailEnv : Type 0 where
  pub sender : Option (Mail → Bool)
  pub delivery_enabled : Bool
  pub clock : ℕ
  pub now : ℕ

abbrev text_of : Option Bytes → Bytes
text_of none = []
text_of (some t) = t

unfoldable pub decode_mail : Payload → MailPayload
unfolding member
decode_mail p = record {
  user_id = text_of (member (utf8 "user_id") p);
  email = text_of (member (utf8 "email") p);
  username = text_of (member (utf8 "username") p);
  token_id = text_of (member (utf8 "token_id") p);
  token = text_of (member (utf8 "token") p);
}

unfoldable pub find_token : Bytes → List TokenRow → Option TokenRow
unfolding bytes_eq
find_token id [] = none
find_token id (row ∷ rows) =
    let rest = find_token id rows in if bytes_eq row.id id then some row else rest

abbrev is_blank_text : Bytes → Bool
is_blank_text t = length t == 0

unfoldable pub is_full : MailPayload → Bool
is_full p = not (
    is_blank_text p.user_id
    || is_blank_text p.email
    || is_blank_text p.token_id
    || is_blank_text p.token)

abbrev is_used : Option ℕ → Bool
is_used none = false
is_used (some at) = true

-- `token.UsedAt != nil || !token.ExpiresAt.After(now)`
abbrev pub is_stale : ℕ → TokenRow → Bool
is_stale clock row = is_used row.used_at || leb row.expires_at clock

-- The mails that the service took, and the table of jobs or the error.
abbrev pub MailOutcome : Type 0
MailOutcome = List Mail × Result MailError (List AdminJob)

unfoldable pub finish : MailEnv → Job → List AdminJob → Result MailError (List AdminJob)
unfolding mark_succeeded
finish env job table = map_err mark_failure (mark_succeeded env.now job.id table)

abbrev pub mail_of : MailPayload → TokenRow → Mail
mail_of p row = record {
  to = p.email;
  username = p.username;
  token_id = p.token_id;
  token = p.token;
  expires_at = row.expires_at;
}

-- `ensureEmailSender`, and the sending.
abbrev pub send_with : MailEnv → Job → Mail → List AdminJob → Option (Mail → Bool) → MailOutcome
send_with env job mail table none =
    ([], if env.delivery_enabled then err sender_missing else finish env job table)
send_with env job mail table (some send) =
    if send mail then (mail ∷ [], finish env job table) else ([], err not_delivered)

abbrev pub send_for : MailEnv → MailPayload → Job → List AdminJob → Option TokenRow → MailOutcome
send_for env p job table none = ([], finish env job table)
send_for env p job table (some row) =
    if not (bytes_eq row.user_id p.user_id && bytes_eq row.email p.email)
    then ([], err metadata_mismatch)
    else if is_stale env.clock row
    then ([], finish env job table)
    else send_with env job (mail_of p row) table env.sender

unfoldable pub process_confirmation : MailEnv → List TokenRow → Job → List AdminJob → MailOutcome
unfolding decode_mail is_full find_token finish bytes_eq
process_confirmation env tokens job table =
    let p = decode_mail job.payload in
    if not (is_full p)
    then ([], err mail_payload_incomplete)
    else send_for env p job table (find_token p.token_id tokens)

-- The tables of tokens.
pub record Tokens : Type 0 where
  pub email_verification : List TokenRow
  pub password_change : List TokenRow
  pub email_change : List TokenRow

abbrev pub process_email_verification : MailEnv → Tokens → Job → List AdminJob → MailOutcome
process_email_verification env t job table = process_confirmation env t.email_verification job table

abbrev pub process_password_change_confirmation :
    MailEnv → Tokens → Job → List AdminJob → MailOutcome
process_password_change_confirmation env t job table =
    process_confirmation env t.password_change job table

abbrev pub process_email_change_confirmation : MailEnv → Tokens → Job → List AdminJob → MailOutcome
process_email_change_confirmation env t job table =
    process_confirmation env t.email_change job table
