-- ===== src/Accounts/Statement.antt =====
-- A transaction of the account repository: a chain of statements on the tables, of which the first
-- that fails ends it. A transaction that fails is rolled back, so a failure carries no tables.
use bee_ba.Common.{
  ℕ, ◌*◌, ◌+◌, Bool, true, false, ◌&&◌, not, Option, none, some, List, ◌∷◌, Result, ok, err, leb,
  is_null, update_where, remove_where, count_where,
}
use bee_ba.Common.Int.{ℤ, pos, leb_int}
use bee_ba.Common.Text.{Bytes, bytes_eq}
use bee_ba.Jobs.Row.{Payload, AdminJob, email_queue, find_row}
use bee_ba.Jobs.Queue.{insert_job, default_attempts}
use bee_ba.Accounts.Db.{
  Db, AccountError, no_rows, email_daily_limit_reached, unique_violation, UserRow, RoleRow, Session,
  VerificationToken, PasswordToken, EmailToken, AuditRow,
}

abbrev pub M : Type 0 → Type 0
M A = Db → Result AccountError (A × Db)

abbrev pub go_on :
    {A B : Type 0} → Result AccountError (A × Db) → (A → M B) → Result AccountError (B × Db)
go_on (err e) f = err e
go_on (ok (a, db)) f = f a db

infixl 5 ◌>>=◌ ◌>>◌
unfoldable pub ◌>>=◌ : {A B : Type 0} → M A → (A → M B) → M B
◌>>=◌ m f db = go_on (m db) f

abbrev pub ◌>>◌ : {B : Type 0} → M (Unit {0}) → M B → M B
m >> k = m >>= λ _. k

unfoldable pub return : {A : Type 0} → A → M A
return a db = ok (a, db)

-- A value that is read from the tables.
unfoldable pub query : {A : Type 0} → (Db → A) → M A
query f db = ok (f db, db)

unfoldable pub refuse_if : Bool → AccountError → M (Unit {0})
refuse_if true e db = err e
refuse_if false e db = ok (tt, db)

-- `if !done { ... }`
unfoldable pub unless : Bool → M (Unit {0}) → M (Unit {0})
unless true m db = ok (tt, db)
unless false m db = m db

-- `QueryRow(...).Scan(...)`
unfoldable pub one_row : {A : Type 0} → Option A → M A
one_row none db = err no_rows
one_row (some a) db = ok (a, db)

unfoldable pub write : (Db → Db) → M (Unit {0})
write f db = ok (tt, f db)

-- UPDATE users SET ... WHERE ...
abbrev pub set_users : (UserRow → Bool) → (UserRow → UserRow) → Db → Db
set_users p f db = record db { users = update_where p f db.users }

abbrev pub set_sessions : (Session → Bool) → (Session → Session) → Db → Db
set_sessions p f db = record db { sessions = update_where p f db.sessions }

-- UPDATE email_verification_tokens SET used_at = now() WHERE ...
abbrev pub use_verification_tokens : ℕ → (VerificationToken → Bool) → Db → Db
use_verification_tokens now p db = record db {
  verification_tokens =
      update_where p (λ t. record t { used_at = some now }) db.verification_tokens;
}

abbrev pub use_password_tokens : ℕ → (PasswordToken → Bool) → Db → Db
use_password_tokens now p db = record db {
  password_tokens = update_where p (λ t. record t { used_at = some now }) db.password_tokens;
}

abbrev pub use_email_tokens : ℕ → (EmailToken → Bool) → Db → Db
use_email_tokens now p db = record db {
  email_tokens = update_where p (λ t. record t { used_at = some now }) db.email_tokens;
}

-- UPDATE auth_sessions SET revoked_at = now(), updated_at = now() WHERE ...
abbrev pub revoke_sessions : ℕ → (Session → Bool) → Db → Db
revoke_sessions now p =
    set_sessions (λ s. p s && is_null s.revoked_at)
      (λ s. record s { revoked_at = some now; updated_at = now })

abbrev pub insert_user : UserRow → Db → Db
insert_user u db = record db { users = u ∷ db.users }

abbrev pub insert_role : RoleRow → Db → Db
insert_role r db = record db { roles = r ∷ db.roles }

abbrev pub delete_roles : Bytes → Db → Db
delete_roles user_id db = record db {
  roles = remove_where (λ r. bytes_eq r.user_id user_id) db.roles;
}

abbrev pub insert_session : Session → Db → Db
insert_session s db = record db { sessions = s ∷ db.sessions }

abbrev pub insert_verification_token : VerificationToken → Db → Db
insert_verification_token t db = record db { verification_tokens = t ∷ db.verification_tokens }

abbrev pub insert_password_token : PasswordToken → Db → Db
insert_password_token t db = record db { password_tokens = t ∷ db.password_tokens }

abbrev pub insert_email_token : EmailToken → Db → Db
insert_email_token t db = record db { email_tokens = t ∷ db.email_tokens }

abbrev pub insert_audit : AuditRow → Db → Db
insert_audit a db = record db { audit_logs = a ∷ db.audit_logs }

-- INSERT INTO worker_jobs (queue_name, job_type, payload) VALUES ('email_queue', ...)
abbrev pub insert_email_job : ℕ → ℕ → Bytes → Payload → Db → Db
insert_email_job now id job_type payload db = record db {
  worker_jobs = insert_job now id email_queue job_type payload default_attempts db.worker_jobs;
}

-- The primary key of worker_jobs is tested first.
unfoldable pub add_email_job : ℕ → ℕ → Bytes → Payload → M (Unit {0})
add_email_job now id job_type payload = do
  taken ← query (λ db. not (is_null (find_row id db.worker_jobs)))
  refuse_if taken unique_violation
  write (insert_email_job now id job_type payload)

-- interval '24 hours', in nanoseconds
abbrev pub day : ℕ
day = 86400 * 1000000000

-- The mail jobs of the last day.
unfoldable pub recent_mails : ℕ → List AdminJob → ℕ
unfolding bytes_eq
recent_mails now jobs =
    count_where (λ j. bytes_eq j.queue_name email_queue && leb now (j.created_at + day)) jobs

unfoldable pub enforce_email_daily_limit : ℕ → ℤ → M (Unit {0})
enforce_email_daily_limit now limit = do
  count ← query (λ db. recent_mails now db.worker_jobs)
  refuse_if (not (leb_int limit (pos 0)) && leb_int limit (pos count)) email_daily_limit_reached
