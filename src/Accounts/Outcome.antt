-- ===== src/Accounts/Outcome.antt =====
-- What a confirmation that succeeds has found and done.
use mathlib.Core.List.{Memᴰ}
use mathlib.Core.Path.{subst}
use bee_ba.Common.{
  ℕ, ◌≡◌, sym, ap, ◌∙◌, Bool, true, false, ◌&&◌, some, List, ok, is_null, find_where, update_where,
  find_where-holds, if◌then◌else◌, arith,
}
use bee_ba.Common.Text.{Bytes, bytes_eq}
use bee_ba.Accounts.Db.{Db, UserRow, VerificationToken, PasswordToken, EmailToken, is_active, Call}
use bee_ba.Accounts.Statement.{
  use_verification_tokens, use_password_tokens, use_email_tokens, revoke_sessions,
}
use bee_ba.Accounts.Users.{update_user, holder, Client}
use bee_ba.Accounts.Confirm.{
  is_open, verify_email, has_address, confirm_password_change, email_taken, confirmed_row,
  set_email, confirm_email_change,
}
use bee_ba.Accounts.Run.Within.{bind-ok}
use bee_ba.Accounts.Chains.{
  read-ok, write_then-ok, refuse_then-ok, query_then-ok, UserUpdate, update_user-ok,
  audit_return-ok,
}

abbrev pub verification_after : ℕ → (VerificationToken → Bool) → Db → List VerificationToken
verification_after now p db = (use_verification_tokens now p db).verification_tokens

-- The row of the user after `VerifyEmail`.
abbrev pub verified_row : ℕ → UserRow → UserRow
verified_row now u = record u {
  email_verified_at = if is_null u.email_verified_at then some now else u.email_verified_at;
  updated_at = now;
}

pub record Verified (c : Call) (hash : Bytes) (db : Db) (u : UserRow) (db' : Db) : Type 0 where
  pub token : VerificationToken
  pub in_table : Memᴰ token db.verification_tokens
  pub open_token :
      is_open c.now hash token.token_hash token.user_id token.used_at token.expires_at db ≡ true
  pub user : UserRow
  pub user_found : holder token.user_id db ≡ some user
  pub old : UserRow
  pub old_found : find_where (λ x. bytes_eq x.id user.id && true) db.users ≡ some old
  pub new_is : u ≡ verified_row c.now old
  pub users_are :
      db'.users ≡ update_where (λ x. bytes_eq x.id user.id && true) (verified_row c.now) db.users
  pub tokens_are :
      db'.verification_tokens
      ≡ (use_verification_tokens c.now (λ t. bytes_eq t.id token.id) db).verification_tokens

pub verify_email-Verified :
    (c : Call) (hash : Bytes) (client : Client) (db : Db) (u : UserRow) (already : Bool) (db' : Db)
    → verify_email c hash client db ≡ ok ((u, already), db')
    → Verified c hash db u db'
unfolding verify_email
verify_email-Verified c hash client db u already db' h =
    let (token, found, h1) = read-ok _ _ db h in
    let (user, user_found, h2) = read-ok _ _ db h1 in
    let (updated, d1, h3, h4) = bind-ok (update_user _ _ _) _ db h2 in
    let up = update_user-ok _ _ _ db updated d1 h3 in
    let h5 = write_then-ok _ _ d1 h4 in
    let (out_is, rest) = audit_return-ok _ _ _ _ _ _ (updated, _) _ h5 in
    let (open_token, m) = find_where-holds _ db.verification_tokens token found in
    record {
      token = token;
      in_table = m;
      open_token = open_token;
      user = user;
      user_found = user_found;
      old = up.old;
      old_found = up.found;
      new_is = ap (λ x. x.0) out_is ∙ up.new_is;
      users_are = rest.users ∙ ap (λ d. d.users) up.db_is;
      tokens_are =
          rest.verification_tokens
          ∙ ap
              (λ d.
                (use_verification_tokens c.now (λ t. bytes_eq t.id token.id) d).verification_tokens)
              up.db_is;
    }

-- The row of the user after `ConfirmPasswordChange`.
abbrev pub password_row : ℕ → Bytes → UserRow → UserRow
password_row now hash u = record u { password_hash = hash; updated_at = now }

pub record PasswordConfirmed (c : Call) (hash : Bytes) (db : Db) (u : UserRow) (db' : Db)
    : Type 0 where
  pub token : PasswordToken
  pub in_table : Memᴰ token db.password_tokens
  pub open_token :
      is_open c.now hash token.token_hash token.user_id token.used_at token.expires_at db ≡ true
  pub user_found : holder token.user_id db ≡ some u
  pub address : has_address token.email (holder token.user_id db) ≡ true
  pub users_are :
      db'.users
      ≡ update_where
          (λ x. bytes_eq x.id u.id && is_active x)
          (password_row c.now token.password_hash)
          db.users
  pub sessions_are :
      db'.sessions ≡ (revoke_sessions c.now (λ s. bytes_eq s.user_id u.id) db).sessions
  pub tokens_are :
      db'.password_tokens
      ≡ (use_password_tokens c.now (λ t. bytes_eq t.id token.id) db).password_tokens

both_true : (a b : Bool) → (a && b) ≡ true → (a ≡ true) × (b ≡ true)
both_true a b h = (ground arith, ground arith)

pub confirm_password_change-PasswordConfirmed :
    (c : Call) (hash : Bytes) (client : Client) (db : Db) (u : UserRow) (db' : Db)
    → confirm_password_change c hash client db ≡ ok (u, db')
    → PasswordConfirmed c hash db u db'
unfolding confirm_password_change
confirm_password_change-PasswordConfirmed c hash client db u db' h =
    let (token, found, h1) = read-ok _ _ db h in
    let (user, user_found, h2) = read-ok _ _ db h1 in
    let (updated, d1, h3, h4) = bind-ok (update_user _ _ _) _ db h2 in
    let up = update_user-ok _ _ _ db updated d1 h3 in
    let h5 = write_then-ok _ _ d1 h4 in
    let h6 = write_then-ok _ _ _ h5 in
    let (out_is, rest) = audit_return-ok _ _ _ _ _ _ user _ h6 in
    let (holds, m) = find_where-holds _ db.password_tokens token found in
    let (open_token, address) = both_true _ _ holds in
    record {
      token = token;
      in_table = m;
      open_token = open_token;
      user_found = user_found ∙ ap some (sym out_is);
      address = address;
      users_are =
          subst
            (λ x.
              db'.users
              ≡ update_where (λ r. bytes_eq r.id x.id && is_active r)
                  (password_row c.now token.password_hash) db.users)
            (sym out_is) (rest.users ∙ ap (λ d. d.users) up.db_is);
      sessions_are =
          subst
            (λ x. db'.sessions ≡ (revoke_sessions c.now (λ s. bytes_eq s.user_id x.id) db).sessions)
            (sym out_is)
            (rest.sessions
              ∙ ap (λ d. (revoke_sessions c.now (λ s. bytes_eq s.user_id user.id) d).sessions)
                  up.db_is);
      tokens_are =
          rest.password_tokens
          ∙ ap (λ d. (use_password_tokens c.now (λ t. bytes_eq t.id token.id) d).password_tokens)
              up.db_is;
    }

pub record EmailConfirmed (c : Call) (hash : Bytes) (db : Db) (u : UserRow) (db' : Db)
    : Type 0 where
  pub token : EmailToken
  pub in_table : Memᴰ token db.email_tokens
  pub open_token :
      is_open c.now hash token.token_hash token.user_id token.used_at token.expires_at db ≡ true
  pub previous : UserRow
  pub previous_found : holder token.user_id db ≡ some previous
  pub free : email_taken token.new_email previous.id db ≡ false
  pub old : UserRow
  pub old_found : find_where (λ x. bytes_eq x.id previous.id && is_active x) db.users ≡ some old
  pub new_is : u ≡ confirmed_row c.now token.new_email old
  pub users_are :
      db'.users
      ≡ update_where
          (λ x. bytes_eq x.id previous.id && is_active x)
          (confirmed_row c.now token.new_email)
          db.users
  pub tokens_are :
      db'.email_tokens ≡ (use_email_tokens c.now (λ t. bytes_eq t.id token.id) db).email_tokens
  pub verification_are :
      db'.verification_tokens
      ≡ verification_after c.now (λ t. bytes_eq t.user_id u.id && is_null t.used_at) db

set_email-ok :
    (c : Call) (email id : Bytes) (db : Db) (u : UserRow) (db' : Db)
    → set_email c email id db ≡ ok (u, db')
    → UserUpdate is_active (confirmed_row c.now email) id db u db'
unfolding set_email
set_email-ok c email id db u db' h =
    let (live, found, h1) = read-ok _ _ db h in
    let (valid, h2) = refuse_then-ok _ _ _ db h1 in
    let h3 = query_then-ok _ _ db h2 in
    let (free, h4) = refuse_then-ok _ _ _ db h3 in update_user-ok _ _ _ db u db' h4

pub confirm_email_change-EmailConfirmed :
    (c : Call) (hash : Bytes) (client : Client) (db : Db) (u : UserRow) (was : Bytes) (db' : Db)
    → confirm_email_change c hash client db ≡ ok ((u, was), db')
    → EmailConfirmed c hash db u db'
unfolding confirm_email_change
confirm_email_change-EmailConfirmed c hash client db u was db' h =
    let (token, found, h1) = read-ok _ _ db h in
    let (previous, previous_found, h2) = read-ok _ _ db h1 in
    let h3 = query_then-ok _ _ db h2 in
    let (free, h4) = refuse_then-ok _ _ _ db h3 in
    let (updated, d1, h5, h6) = bind-ok (set_email _ _ _) _ db h4 in
    let up = set_email-ok c token.new_email previous.id db updated d1 h5 in
    let h7 = write_then-ok _ _ d1 h6 in
    let h8 = write_then-ok _ _ _ h7 in
    let (out_is, rest) = audit_return-ok _ _ _ _ _ _ (updated, _) _ h8 in
    let (open_token, m) = find_where-holds _ db.email_tokens token found in
    let u_is : u ≡ updated = ap (λ x. x.0) out_is in
    record {
      token = token;
      in_table = m;
      open_token = open_token;
      previous = previous;
      previous_found = previous_found;
      free = free;
      old = up.old;
      old_found = up.found;
      new_is = u_is ∙ up.new_is;
      users_are = rest.users ∙ ap (λ d. d.users) up.db_is;
      tokens_are =
          rest.email_tokens
          ∙ ap (λ d. (use_email_tokens c.now (λ t. bytes_eq t.id token.id) d).email_tokens)
              up.db_is;
      verification_are =
          rest.verification_tokens
          ∙ ap
              (λ d.
                verification_after c.now (λ t. bytes_eq t.user_id updated.id && is_null t.used_at)
                  d)
              up.db_is
          ∙ ap
              (λ x. verification_after c.now (λ t. bytes_eq t.user_id x.id && is_null t.used_at) db)
              (sym u_is);
    }
