-- ===== src/Accounts/Db.antt =====
-- The tables that the account repository reads and writes, with the columns that it uses. An id is
-- the text of a uuid, a time is a number. The column avatar_image_id is left out.
use bee_ba.Common.{ℕ, Bool, ◌&&◌, Option, List, is_null}
use bee_ba.Common.Text.{Bytes, utf8}
use bee_ba.Jobs.Row.{AdminJob}

pub record UserRow : Type 0 where
  pub id : Bytes
  pub email : Bytes
  pub username : Bytes
  pub display_name : Option Bytes
  pub password_hash : Bytes
  pub email_verified_at : Option ℕ
  pub banned_at : Option ℕ
  pub deleted_at : Option ℕ
  pub created_at : ℕ
  pub updated_at : ℕ

-- user_roles, with the slug of the role
pub record RoleRow : Type 0 where
  pub user_id : Bytes
  pub role : Bytes
  pub granted_by : Option Bytes

-- auth_sessions
pub record Session : Type 0 where
  pub id : Bytes
  pub user_id : Bytes
  pub access_token_hash : Bytes
  pub refresh_token_hash : Bytes
  pub user_agent : Option Bytes
  pub ip_address : Option Bytes
  pub access_expires_at : ℕ
  pub refresh_expires_at : ℕ
  pub revoked_at : Option ℕ
  pub updated_at : ℕ

-- email_verification_tokens
pub record VerificationToken : Type 0 where
  pub id : Bytes
  pub user_id : Bytes
  pub email : Bytes
  pub token_hash : Bytes
  pub expires_at : ℕ
  pub used_at : Option ℕ

-- password_change_tokens
pub record PasswordToken : Type 0 where
  pub id : Bytes
  pub user_id : Bytes
  pub email : Bytes
  pub token_hash : Bytes
  pub password_hash : Bytes
  pub expires_at : ℕ
  pub used_at : Option ℕ

-- email_change_tokens
pub record EmailToken : Type 0 where
  pub id : Bytes
  pub user_id : Bytes
  pub new_email : Bytes
  pub token_hash : Bytes
  pub expires_at : ℕ
  pub used_at : Option ℕ

-- A member of the JSON objects in audit_logs.
pub data Fact : Type 0 where
  verified_at_is : Option ℕ → Fact
  already_verified_is : Bool → Fact
  email_is : Bytes → Fact
  confirmation_email_is : Bytes → Fact
  pending_email_is : Bytes → Fact
  expires_at_is : ℕ → Fact
  sessions_revoked_is : Bool → Fact
  roles_are : List Bytes → Fact
  banned_at_is : Option ℕ → Fact
  reason_is : Bytes → Fact

pub record AuditRow : Type 0 where
  pub actor_user_id : Bytes
  pub action : Bytes
  pub entity_id : Bytes
  pub before : List Fact
  pub after : List Fact
  pub ip_address : Option Bytes
  pub user_agent : Option Bytes

pub record Db : Type 0 where
  pub users : List UserRow
  pub roles : List RoleRow
  pub sessions : List Session
  pub verification_tokens : List VerificationToken
  pub password_tokens : List PasswordToken
  pub email_tokens : List EmailToken
  pub worker_jobs : List AdminJob
  pub audit_logs : List AuditRow

pub data AccountError : Type 0 where
  -- pgx.ErrNoRows, ErrUserConflict, ErrEmailDailyLimitReached, ErrAdminUserProtected
  no_rows user_conflict email_daily_limit_reached admin_user_protected : AccountError
  -- a unique index or a CHECK of a table refuses the statement
  unique_violation check_violation : AccountError
  -- "email verification token is required" and its siblings, "password change hash is required"
  token_required hash_required : AccountError

-- `deleted_at IS NULL AND banned_at IS NULL`
abbrev pub is_active : UserRow → Bool
is_active u = is_null u.deleted_at && is_null u.banned_at

abbrev pub owner : Bytes
owner = utf8 "owner"

-- What the database supplies for one call: now(), the ids that gen_random_uuid() makes for a row
-- and for a token, the id of a new job, and its functions `lower` and `trim`.
pub record Call : Type 0 where
  pub now : ℕ
  pub row_id : Bytes
  pub token_id : Bytes
  pub job_id : ℕ
  pub lower : Bytes → Bytes
  pub trim : Bytes → Bytes
