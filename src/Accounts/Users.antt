-- ===== src/Accounts/Users.antt =====
-- users.go: registration, the profile, and the three confirmations by mail.
use bee_ba.Common.{
  ℕ, Bool, true, ◌&&◌, ◌||◌, not, Option, none, List, [], ◌∷◌, ltb, ◌==◌, length, is_null,
  find_where, any_where, within,
}
use bee_ba.Common.Int.{ℤ}
use bee_ba.Common.Text.{Bytes, bytes_eq, utf8}
use bee_ba.Jobs.Row.{Payload}
use bee_ba.Jobs.Queue.{null_if_empty}
use bee_ba.Accounts.Db.{
  Db, user_conflict, unique_violation, check_violation, token_required, hash_required, UserRow,
  RoleRow, Fact, is_active, Call,
}
use bee_ba.Accounts.Statement.{
  M, ◌>>=◌, ◌>>◌, return, query, refuse_if, one_row, write, set_users, insert_user, insert_role,
  insert_verification_token, insert_password_token, insert_email_token, insert_audit, add_email_job,
  enforce_email_daily_limit,
}

pub record CreateInput : Type 0 where
  pub email : Bytes
  pub username : Bytes
  pub display_name : Option Bytes
  pub password_hash : Bytes
  pub email_verification_token_hash : Bytes
  pub email_verification_token : Bytes
  pub email_verification_token_expires_at : ℕ
  pub email_daily_limit : ℤ

-- The fields that the requests of the three confirmations share.
pub record RequestInput : Type 0 where
  pub user_id : Bytes
  pub token_hash : Bytes
  pub token : Bytes
  pub expires_at : ℕ
  pub email_daily_limit : ℤ
  pub ip_address : Bytes
  pub user_agent : Bytes

-- Who asks: the address and the browser.
pub record Client : Type 0 where
  pub ip_address : Bytes
  pub user_agent : Bytes

abbrev pub is_empty_text : Bytes → Bool
is_empty_text t = length t == 0

-- token_hash ~ '^[a-f0-9]{64}$'
unfoldable pub hex_only : Bytes → Bool
hex_only [] = true
hex_only (x ∷ xs) = (within b'a' b'f' x || within b'0' b'9' x) && hex_only xs

unfoldable pub is_hash : Bytes → Bool
unfolding hex_only
is_hash h = length h == 64 && hex_only h

-- The constraints users_email_normalized, users_email_not_blank and users_username_not_blank
unfoldable pub is_valid_email : Call → Bytes → Bool
unfolding bytes_eq
is_valid_email c email = bytes_eq email (c.lower email) && not (is_empty_text (c.trim email))

-- The primary key and the unique indexes of users: a row that the new one conflicts with.
unfoldable pub clashes : Call → UserRow → UserRow → Bool
unfolding bytes_eq
clashes c new u =
    bytes_eq u.id new.id
    || (is_null u.deleted_at
        && (bytes_eq u.email new.email || bytes_eq (c.lower u.username) (c.lower new.username)))

abbrev pub new_user : Call → CreateInput → UserRow
new_user c input = record {
  id = c.row_id;
  email = input.email;
  username = input.username;
  display_name = input.display_name;
  password_hash = input.password_hash;
  email_verified_at = none;
  banned_at = none;
  deleted_at = none;
  created_at = c.now;
  updated_at = c.now;
}

-- INSERT INTO users
unfoldable pub add_user : Call → UserRow → M (Unit {0})
add_user c u = do
  refuse_if (not (is_valid_email c u.email) || is_empty_text (c.trim u.username)) check_violation
  taken ← query (λ db. any_where (clashes c u) db.users)
  refuse_if taken user_conflict
  write (insert_user u)

-- INSERT INTO user_roles, with its primary key
unfoldable pub add_role : RoleRow → M (Unit {0})
add_role r = do
  taken ←
      query (λ db. any_where (λ x. bytes_eq x.user_id r.user_id && bytes_eq x.role r.role) db.roles)
  refuse_if taken unique_violation
  write (insert_role r)

-- UPDATE users SET ... WHERE id = $1 AND ... RETURNING ...
unfoldable pub update_user : (UserRow → Bool) → (UserRow → UserRow) → Bytes → M UserRow
update_user p f id = do
  found ← query (λ db. find_where (λ u. bytes_eq u.id id && p u) db.users)
  u ← one_row found
  write (set_users (λ u. bytes_eq u.id id && p u) f)
  return (f u)

-- `loadPublicUserForUpdate`
unfoldable pub load_public_user_for_update : Bytes → M UserRow
load_public_user_for_update id = do
  found ← query (λ db. find_where (λ u. bytes_eq u.id id && is_active u) db.users)
  one_row found

-- The user of a token, if the account may be used.
unfoldable pub holder : Bytes → Db → Option UserRow
unfolding bytes_eq
holder id db = find_where (λ u. bytes_eq u.id id && is_active u) db.users

abbrev pub mail_job_payload : Bytes → Bytes → Bytes → Bytes → Bytes → Bytes → Payload
mail_job_payload user_id email username token_id token template =
    (utf8 "user_id", user_id)
    ∷ ((utf8 "email", email)
        ∷ ((utf8 "username", username)
            ∷ ((utf8 "token_id", token_id)
                ∷ ((utf8 "token", token) ∷ ((utf8 "template", template) ∷ [])))))

-- `insertEmailVerificationToken`
unfoldable pub insert_email_verification_token :
    Call → Bytes → Bytes → Bytes → Bytes → Bytes → ℕ → ℤ → M (Unit {0})
insert_email_verification_token c user_id email username token_hash token expires_at limit = do
  refuse_if (is_empty_text token) token_required
  enforce_email_daily_limit c.now limit
  refuse_if
      (not (bytes_eq email (c.lower email))
        || not (is_hash token_hash)
        || not (ltb c.now expires_at))
      check_violation
  taken ← query (λ db.
      any_where (λ t. bytes_eq t.token_hash token_hash) db.verification_tokens
      || any_where (λ t. bytes_eq t.id c.token_id) db.verification_tokens)
  refuse_if taken unique_violation
  write (
      insert_verification_token (record {
        id = c.token_id;
        user_id = user_id;
        email = email;
        token_hash = token_hash;
        expires_at = expires_at;
        used_at = none;
      }))
  add_email_job c.now c.job_id (utf8 "send_email_verification")
      (mail_job_payload user_id email username c.token_id token (utf8 "email_verification"))

-- `insertPasswordChangeToken`
unfoldable pub insert_password_change_token :
    Call → UserRow → Bytes → Bytes → Bytes → ℕ → ℤ → M (Unit {0})
insert_password_change_token c user token_hash token new_password_hash expires_at limit = do
  refuse_if (is_empty_text token) token_required
  refuse_if (is_empty_text new_password_hash) hash_required
  enforce_email_daily_limit c.now limit
  refuse_if
      (not (is_valid_email c user.email)
        || not (is_hash token_hash)
        || is_empty_text (c.trim new_password_hash)
        || not (ltb c.now expires_at))
      check_violation
  taken ← query (λ db.
      any_where (λ t. bytes_eq t.token_hash token_hash) db.password_tokens
      || any_where (λ t. bytes_eq t.id c.token_id) db.password_tokens)
  refuse_if taken unique_violation
  write (
      insert_password_token (record {
        id = c.token_id;
        user_id = user.id;
        email = user.email;
        token_hash = token_hash;
        password_hash = new_password_hash;
        expires_at = expires_at;
        used_at = none;
      }))
  add_email_job c.now c.job_id (utf8 "send_password_change_confirmation") (
      mail_job_payload user.id user.email user.username c.token_id token
        (utf8 "password_change_confirmation"))

-- `insertEmailChangeToken`
unfoldable pub insert_email_change_token :
    Call → UserRow → Bytes → Bytes → Bytes → ℕ → ℤ → M (Unit {0})
insert_email_change_token c user new_email token_hash token expires_at limit = do
  refuse_if (is_empty_text token) token_required
  enforce_email_daily_limit c.now limit
  refuse_if
      (not (is_valid_email c new_email) || not (is_hash token_hash) || not (ltb c.now expires_at))
      check_violation
  taken ← query (λ db.
      any_where (λ t. bytes_eq t.token_hash token_hash) db.email_tokens
      || any_where (λ t. bytes_eq t.id c.token_id) db.email_tokens)
  refuse_if taken unique_violation
  write (
      insert_email_token (record {
        id = c.token_id;
        user_id = user.id;
        new_email = new_email;
        token_hash = token_hash;
        expires_at = expires_at;
        used_at = none;
      }))
  add_email_job c.now c.job_id (utf8 "send_email_change_confirmation") (
      mail_job_payload user.id new_email user.username c.token_id token
        (utf8 "email_change_confirmation"))

-- `insertUserEmailAudit`
unfoldable pub insert_user_email_audit :
    Bytes → Bytes → List Fact → List Fact → Bytes → Bytes → M (Unit {0})
insert_user_email_audit user_id action before after ip_address user_agent = write (
    insert_audit (record {
      actor_user_id = user_id;
      action = action;
      entity_id = user_id;
      before = before;
      after = after;
      ip_address = null_if_empty ip_address;
      user_agent = null_if_empty user_agent;
    }))
