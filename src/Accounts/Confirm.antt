-- ===== src/Accounts/Confirm.antt =====
-- users.go: `Create`, `UpdateProfile`, `ChangePassword`, and the requests and confirmations of an
-- address, of a new password and of a new address.
use bee_ba.Common.{
  ℕ, Bool, true, false, ◌&&◌, ◌||◌, not, Option, none, some, [], ◌∷◌, ltb, is_null, find_where,
  any_where, if◌then◌else◌,
}
use bee_ba.Common.Text.{Bytes, bytes_eq, utf8}
use bee_ba.Accounts.Db.{
  Db, user_conflict, check_violation, UserRow, verified_at_is, already_verified_is, email_is,
  confirmation_email_is, pending_email_is, expires_at_is, sessions_revoked_is, is_active, Call,
}
use bee_ba.Accounts.Statement.{
  M, ◌>>=◌, ◌>>◌, return, query, refuse_if, unless, one_row, write, use_verification_tokens,
  use_password_tokens, use_email_tokens, revoke_sessions,
}
use bee_ba.Accounts.Users.{
  CreateInput, RequestInput, Client, is_empty_text, is_valid_email, new_user, add_user, add_role,
  update_user, load_public_user_for_update, holder, insert_email_verification_token,
  insert_password_change_token, insert_email_change_token, insert_user_email_audit,
}

-- `Create`: the row, the role `user`, and a token if the input has one.
unfoldable pub create : Call → CreateInput → M UserRow
create c input = do
  let u = new_user c input
  add_user c u
  add_role (record { user_id = u.id; role = utf8 "user"; granted_by = none })
  unless (is_empty_text input.email_verification_token_hash) (
      insert_email_verification_token c u.id u.email u.username input.email_verification_token_hash
        input.email_verification_token input.email_verification_token_expires_at
        input.email_daily_limit)
  return u

-- A token that can still be used: not used before, not expired, and its account is in use.
unfoldable pub is_open : ℕ → Bytes → Bytes → Bytes → Option ℕ → ℕ → Db → Bool
unfolding bytes_eq holder
is_open now hash token_hash user_id used_at expires_at db =
    bytes_eq token_hash hash
    && is_null used_at
    && ltb now expires_at
    && not (is_null (holder user_id db))

-- `VerifyEmail`
unfoldable pub verify_email : Call → Bytes → Client → M (UserRow × Bool)
verify_email c hash client = do
  found ← query (λ db.
      find_where (λ t. is_open c.now hash t.token_hash t.user_id t.used_at t.expires_at db)
        db.verification_tokens)
  token ← one_row found
  joined ← query (holder token.user_id)
  user ← one_row joined
  let already = not (is_null user.email_verified_at)
  updated ←
      update_user (λ u. true)
        (λ u. record u {
          email_verified_at =
              if is_null u.email_verified_at then some c.now else u.email_verified_at;
          updated_at = c.now;
        })
        user.id
  write (use_verification_tokens c.now (λ t. bytes_eq t.id token.id))
  insert_user_email_audit updated.id (utf8 "user.email.verify") (verified_at_is none ∷ [])
      (verified_at_is updated.email_verified_at ∷ (already_verified_is already ∷ []))
      client.ip_address client.user_agent
  return (updated, already)

-- The body of `if user.EmailVerifiedAt == nil`.
unfoldable pub renew_verification_token : Call → UserRow → RequestInput → M (Unit {0})
renew_verification_token c user input = do
  write (use_verification_tokens c.now (λ t. bytes_eq t.user_id user.id && is_null t.used_at))
  insert_email_verification_token c user.id user.email user.username input.token_hash input.token
      input.expires_at input.email_daily_limit

-- `RequestEmailVerification`: the old tokens are used up, and a new one is made.
unfoldable pub request_email_verification : Call → RequestInput → M (UserRow × Bool)
request_email_verification c input = do
  user ← load_public_user_for_update input.user_id
  let verified = not (is_null user.email_verified_at)
  unless verified (renew_verification_token c user input)
  insert_user_email_audit user.id (utf8 "user.email.verification.request") []
      (already_verified_is verified ∷ []) input.ip_address input.user_agent
  return (user, verified)

-- `UpdateProfile`
unfoldable pub update_profile : Call → Bytes → Option Bytes → M UserRow
update_profile c user_id display_name =
    update_user is_active (λ u. record u { display_name = display_name; updated_at = c.now })
      user_id

-- `ChangePassword`: the other sessions are revoked.
unfoldable pub change_password : Call → Bytes → Bytes → Bytes → M (Unit {0})
change_password c user_id new_hash current_session = do
  _ ← update_user is_active (λ u. record u { password_hash = new_hash; updated_at = c.now }) user_id
  write (
      revoke_sessions c.now
        (λ s. bytes_eq s.user_id user_id && not (bytes_eq s.id current_session)))

-- `RequestPasswordChange`
unfoldable pub request_password_change : Call → Bytes → RequestInput → M UserRow
request_password_change c new_hash input = do
  user ← load_public_user_for_update input.user_id
  write (use_password_tokens c.now (λ t. bytes_eq t.user_id user.id && is_null t.used_at))
  insert_password_change_token c user input.token_hash input.token new_hash input.expires_at
      input.email_daily_limit
  insert_user_email_audit user.id (utf8 "user.password_change.request") []
      (confirmation_email_is user.email ∷ (expires_at_is input.expires_at ∷ [])) input.ip_address
      input.user_agent
  return user

-- The join `pct.email = u.email`.
unfoldable pub has_address : Bytes → Option UserRow → Bool
unfolding bytes_eq
has_address email none = false
has_address email (some u) = bytes_eq email u.email

-- `ConfirmPasswordChange`: every session of the user is revoked.
unfoldable pub confirm_password_change : Call → Bytes → Client → M UserRow
confirm_password_change c hash client = do
  found ← query (λ db.
      find_where
        (λ t.
          is_open c.now hash t.token_hash t.user_id t.used_at t.expires_at db
          && has_address t.email (holder t.user_id db))
        db.password_tokens)
  token ← one_row found
  joined ← query (holder token.user_id)
  user ← one_row joined
  _ ←
      update_user is_active
        (λ u. record u { password_hash = token.password_hash; updated_at = c.now }) user.id
  write (use_password_tokens c.now (λ t. bytes_eq t.id token.id))
  write (revoke_sessions c.now (λ s. bytes_eq s.user_id user.id))
  insert_user_email_audit user.id (utf8 "user.password_change.confirm") []
      (sessions_revoked_is true ∷ []) client.ip_address client.user_agent
  return user

-- Another account has the address.
unfoldable pub email_taken : Bytes → Bytes → Db → Bool
unfolding bytes_eq
email_taken email id db =
    any_where (λ u. bytes_eq u.email email && not (bytes_eq u.id id) && is_null u.deleted_at)
      db.users

-- `RequestEmailChange`
unfoldable pub request_email_change : Call → Bytes → RequestInput → M UserRow
request_email_change c new_email input = do
  user ← load_public_user_for_update input.user_id
  taken ← query (email_taken new_email user.id)
  refuse_if taken user_conflict
  write (
      use_email_tokens c.now
        (λ t. (bytes_eq t.user_id user.id || bytes_eq t.new_email new_email) && is_null t.used_at))
  insert_email_change_token c user new_email input.token_hash input.token input.expires_at
      input.email_daily_limit
  insert_user_email_audit user.id (utf8 "user.email_change.request") (email_is user.email ∷ [])
      (pending_email_is new_email ∷ (expires_at_is input.expires_at ∷ [])) input.ip_address
      input.user_agent
  return user

-- The row of the user after `ConfirmEmailChange`.
abbrev pub confirmed_row : ℕ → Bytes → UserRow → UserRow
confirmed_row now email u = record u {
  email = email;
  email_verified_at = some now;
  updated_at = now;
}

-- The new address of a user, tested by the constraints of users.
unfoldable pub set_email : Call → Bytes → Bytes → M UserRow
set_email c new_email id = do
  found ← query (holder id)
  _ ← one_row found
  refuse_if (not (is_valid_email c new_email)) check_violation
  conflict ← query (email_taken new_email id)
  refuse_if conflict user_conflict
  update_user is_active (confirmed_row c.now new_email) id

-- `ConfirmEmailChange`: the tokens that verify the old address are used up.
unfoldable pub confirm_email_change : Call → Bytes → Client → M (UserRow × Bytes)
confirm_email_change c hash client = do
  found ← query (λ db.
      find_where (λ t. is_open c.now hash t.token_hash t.user_id t.used_at t.expires_at db)
        db.email_tokens)
  token ← one_row found
  joined ← query (holder token.user_id)
  previous ← one_row joined
  taken ← query (email_taken token.new_email previous.id)
  refuse_if taken user_conflict
  user ← set_email c token.new_email previous.id
  write (use_email_tokens c.now (λ t. bytes_eq t.id token.id))
  write (use_verification_tokens c.now (λ t. bytes_eq t.user_id user.id && is_null t.used_at))
  insert_user_email_audit user.id (utf8 "user.email_change.confirm") (email_is previous.email ∷ [])
      (email_is user.email ∷ (verified_at_is user.email_verified_at ∷ [])) client.ip_address
      client.user_agent
  return (user, previous.email)
