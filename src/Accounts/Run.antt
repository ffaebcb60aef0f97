-- ===== src/Accounts/Run.antt =====
-- The account repository over time: the calls that change the tables, in any order, each of which
-- takes effect as a whole or not at all; and what any such run preserves.
pub mod Within
pub mod Calls
pub mod Kept
pub mod Tables
use bee_ba.Common.{
  ℕ, ◌≡◌, refl, Bool, true, false, ◌&&◌, ◌||◌, not, Option, none, some, List, [], ◌∷◌, ok, err,
  Result, Result-cases, inl, inr, is_null,
}
use bee_ba.Common.Int.{ℤ}
use bee_ba.Common.Text.{Bytes, bytes_eq, utf8}
use bee_ba.Accounts.Db.{
  Db, AccountError, UserRow, RoleRow, AuditRow, Session, VerificationToken, PasswordToken,
  EmailToken, Call,
}
use bee_ba.Accounts.Statement.{
  M, ◌>>=◌, return, query, refuse_if, unless, one_row, write, set_users, use_verification_tokens,
  use_password_tokens, use_email_tokens, revoke_sessions, insert_audit, delete_roles,
  enforce_email_daily_limit,
}
use bee_ba.Accounts.Users.{
  CreateInput, RequestInput, Client, add_user, add_role, update_user, load_public_user_for_update,
  insert_email_verification_token, insert_password_change_token, insert_email_change_token,
  insert_user_email_audit,
}
use bee_ba.Accounts.Confirm.{
  create, verify_email, renew_verification_token, request_email_verification, update_profile,
  change_password, request_password_change, confirm_password_change, request_email_change,
  set_email, confirm_email_change,
}
use bee_ba.Accounts.Sessions.{
  SessionInput, create_session, rotate_session, revoke_by_refresh_token_hash,
}
use bee_ba.Accounts.Admin.{
  AdminUserActionInput, AdminUserRolesInput, load_admin_user, load_admin_user_for_update,
  insert_user_audit, ban_user, unban_user, check_role_change, grant_roles, set_user_roles,
}

-- A call of the repository that changes the tables.
pub data Op : Type 0 where
  creates : Call → CreateInput → Op
  verifies_email : Call → Bytes → Client → Op
  requests_verification : Call → RequestInput → Op
  updates_profile : Call → Bytes → Option Bytes → Op
  changes_password : Call → Bytes → Bytes → Bytes → Op
  requests_password : Call → Bytes → RequestInput → Op
  confirms_password : Call → Bytes → Client → Op
  requests_email : Call → Bytes → RequestInput → Op
  confirms_email : Call → Bytes → Client → Op
  creates_session : Call → SessionInput → Op
  rotates_session : Call → Bytes → Bytes → SessionInput → Op
  revokes_session : Call → Bytes → Op
  bans : Call → AdminUserActionInput → Op
  unbans : Call → AdminUserActionInput → Op
  sets_roles : Call → AdminUserRolesInput → Op

-- A transaction that fails leaves the tables as they were.
unfoldable pub commit : {A : Type 0} → M A → Db → Db
commit m db = elim (m db) [ err e ↦ db | ok (a, db') ↦ db' ]

unfoldable pub step : Op → Db → Db
unfolding commit
step (creates c input) = commit (create c input)
step (verifies_email c hash client) = commit (verify_email c hash client)
step (requests_verification c input) = commit (request_email_verification c input)
step (updates_profile c id name) = commit (update_profile c id name)
step (changes_password c id hash session) = commit (change_password c id hash session)
step (requests_password c hash input) = commit (request_password_change c hash input)
step (confirms_password c hash client) = commit (confirm_password_change c hash client)
step (requests_email c email input) = commit (request_email_change c email input)
step (confirms_email c hash client) = commit (confirm_email_change c hash client)
step (creates_session c input) = commit (create_session c input)
step (rotates_session c id hash input) = commit (rotate_session c id hash input)
step (revokes_session c hash) = commit (revoke_by_refresh_token_hash c hash)
step (bans c input) = commit (ban_user c input)
step (unbans c input) = commit (unban_user c input)
step (sets_roles c input) = commit (set_user_roles c input)

unfoldable pub run_all : List Op → Db → Db
unfolding step
run_all [] db = db
run_all (o ∷ ops) db = run_all ops (step o db)

-- Every success of the transaction relates the tables before and after it.
abbrev pub Within : (Db → Db → Type 0) → {A : Type 0} → M A → Type 0
Within R m = (db : Db) (a : _) (db' : Db) → m db ≡ ok (a, db') → R db db'

-- An update that leaves alone who the user is.
pub record IsMinor (f : UserRow → UserRow) : Type 0 where
  pub same_id : (u : UserRow) → (f u).id ≡ u.id
  pub same_email : (u : UserRow) → (f u).email ≡ u.email
  pub same_banned : (u : UserRow) → (f u).banned_at ≡ u.banned_at
  pub same_deleted : (u : UserRow) → (f u).deleted_at ≡ u.deleted_at

-- The statements that every property below treats alike.
pub record Prims (R : Db → Db → Type 0) : Type 0 where
  pub same : (db : Db) → R db db
  pub both : (a b c : Db) → R a b → R b c → R a c
  pub minor :
      (p : UserRow → Bool) (f : UserRow → UserRow) → IsMinor f → (db : Db) → R db (set_users p f db)
  pub use_verification :
      (now : ℕ) (p : VerificationToken → Bool) (db : Db) → R db (use_verification_tokens now p db)
  pub use_password :
      (now : ℕ) (p : PasswordToken → Bool) (db : Db) → R db (use_password_tokens now p db)
  pub use_email : (now : ℕ) (p : EmailToken → Bool) (db : Db) → R db (use_email_tokens now p db)
  pub revoke : (now : ℕ) (p : Session → Bool) (db : Db) → R db (revoke_sessions now p db)
  pub audit : (a : AuditRow) (db : Db) → R db (insert_audit a db)
  pub password_token :
      (c : Call) (u : UserRow) (hash token secret : Bytes) (expires_at : ℕ) (limit : ℤ)
      → Within R (insert_password_change_token c u hash token secret expires_at limit)
  pub email_token :
      (c : Call) (u : UserRow) (email hash token : Bytes) (expires_at : ℕ) (limit : ℤ)
      → Within R (insert_email_change_token c u email hash token expires_at limit)

-- The calls that give tokens to a session.
pub record SessionCalls (R : Db → Db → Type 0) : Type 0 where
  pub new_session : (c : Call) (input : SessionInput) → Within R (create_session c input)
  pub rotation :
      (c : Call) (id hash : Bytes) (input : SessionInput)
      → Within R (rotate_session c id hash input)

-- The same for one call.
abbrev pub KeepsTokens : (Db → Db → Type 0) → Op → Type 0
KeepsTokens R (creates_session c input) = Within R (create_session c input)
KeepsTokens R (rotates_session c id hash input) = Within R (rotate_session c id hash input)
KeepsTokens R _ = Unit {0}
