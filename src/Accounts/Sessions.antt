-- ===== src/Accounts/Sessions.antt =====
-- users.go: `CreateSession`, `RotateSession`, `RevokeByRefreshTokenHash` and the search of a session
-- by one of its two tokens.
use bee_ba.Common.{
  ℕ, Bool, ◌&&◌, ◌||◌, not, Option, none, List, [], ◌∷◌, ltb, is_null, find_where, any_where,
  if◌then◌else◌,
}
use bee_ba.Common.Text.{Bytes, bytes_eq, utf8}
use bee_ba.Jobs.Queue.{null_if_empty}
use bee_ba.Accounts.Db.{
  Db, no_rows, unique_violation, check_violation, UserRow, RoleRow, Session, owner, Call,
}
use bee_ba.Accounts.Statement.{
  M, ◌>>=◌, ◌>>◌, return, query, refuse_if, one_row, write, set_sessions, revoke_sessions,
  insert_session,
}
use bee_ba.Accounts.Users.{is_hash}

pub record SessionInput : Type 0 where
  pub user_id : Bytes
  pub access_token_hash : Bytes
  pub refresh_token_hash : Bytes
  pub user_agent : Bytes
  pub ip_address : Bytes
  pub access_expires_at : ℕ
  pub refresh_expires_at : ℕ

-- The constraints of auth_sessions
unfoldable pub session_invalid : SessionInput → Bool
unfolding is_hash
session_invalid input =
    not (is_hash input.access_token_hash)
    || (not (is_hash input.refresh_token_hash)
        || not (ltb input.access_expires_at input.refresh_expires_at))

-- Another session has one of the tokens.
unfoldable pub token_taken : Bytes → SessionInput → Db → Bool
unfolding bytes_eq
token_taken id input db =
    any_where
      (λ s.
        not (bytes_eq s.id id)
        && (bytes_eq s.access_token_hash input.access_token_hash
            || bytes_eq s.refresh_token_hash input.refresh_token_hash))
      db.sessions

-- `CreateSession`
unfoldable pub create_session : Call → SessionInput → M (Unit {0})
create_session c input = do
  refuse_if (session_invalid input) check_violation
  same_id ← query (λ db. any_where (λ s. bytes_eq s.id c.row_id) db.sessions)
  refuse_if same_id unique_violation
  taken ← query (token_taken c.row_id input)
  refuse_if taken unique_violation
  write (
      insert_session (record {
        id = c.row_id;
        user_id = input.user_id;
        access_token_hash = input.access_token_hash;
        refresh_token_hash = input.refresh_token_hash;
        user_agent = null_if_empty input.user_agent;
        ip_address = null_if_empty input.ip_address;
        access_expires_at = input.access_expires_at;
        refresh_expires_at = input.refresh_expires_at;
        revoked_at = none;
        updated_at = c.now;
      }))

-- `RotateSession`: both tokens are replaced, if the old refresh token is still good.
unfoldable pub rotate_session : Call → Bytes → Bytes → SessionInput → M (Unit {0})
rotate_session c session_id current input = do
  let rotates = λ (s : Session).
      bytes_eq s.id session_id
      && bytes_eq s.refresh_token_hash current
      && is_null s.revoked_at
      && ltb c.now s.refresh_expires_at
  some_row ← query (λ db. any_where rotates db.sessions)
  refuse_if (not some_row) no_rows
  refuse_if (session_invalid input) check_violation
  taken ← query (token_taken session_id input)
  refuse_if taken unique_violation
  write (
      set_sessions rotates (λ s. record s {
        access_token_hash = input.access_token_hash;
        refresh_token_hash = input.refresh_token_hash;
        access_expires_at = input.access_expires_at;
        refresh_expires_at = input.refresh_expires_at;
        updated_at = c.now;
      }))

-- `RevokeByRefreshTokenHash`
unfoldable pub revoke_by_refresh_token_hash : Call → Bytes → M (Unit {0})
revoke_by_refresh_token_hash c hash = do
  some_row ← query (λ db.
      any_where (λ s. bytes_eq s.refresh_token_hash hash && is_null s.revoked_at) db.sessions)
  refuse_if (not some_row) no_rows
  write (revoke_sessions c.now (λ s. bytes_eq s.refresh_token_hash hash))

-- `column` of `findSessionByTokenHash`
pub data TokenColumn : Type 0 where
  access_token refresh_token : TokenColumn

abbrev pub hash_of : TokenColumn → Session → Bytes
hash_of access_token s = s.access_token_hash
hash_of refresh_token s = s.refresh_token_hash

abbrev pub expiry_of : TokenColumn → Session → ℕ
expiry_of access_token s = s.access_expires_at
expiry_of refresh_token s = s.refresh_expires_at

pub record SessionWithUser : Type 0 where
  pub session_id : Bytes
  pub user : UserRow
  pub roles : List Bytes
  pub banned_at : Option ℕ
  pub deleted_at : Option ℕ

unfoldable pub has_role : Bytes → Bytes → List RoleRow → Bool
unfolding bytes_eq
has_role user_id role roles =
    any_where (λ r. bytes_eq r.user_id user_id && bytes_eq r.role role) roles

abbrev pub with_role : Bytes → Bytes → List RoleRow → List Bytes → List Bytes
with_role user_id role roles rest = if has_role user_id role roles then role ∷ rest else rest

-- array_agg(r.slug ORDER BY r.slug); the table roles has four slugs.
unfoldable pub roles_of : Bytes → List RoleRow → List Bytes
unfolding has_role
roles_of user_id roles = with_role user_id (utf8 "admin") roles (
    with_role user_id (utf8 "moderator") roles
      (with_role user_id owner roles (with_role user_id (utf8 "user") roles [])))

unfoldable pub find_user : Bytes → List UserRow → Option UserRow
unfolding bytes_eq
find_user id users = find_where (λ u. bytes_eq u.id id) users

-- `findSessionByTokenHash`
unfoldable pub find_session_by_token_hash : TokenColumn → Bytes → ℕ → M SessionWithUser
find_session_by_token_hash column hash now = do
  found ← query (λ db.
      find_where
        (λ s.
          bytes_eq (hash_of column s) hash
          && is_null s.revoked_at
          && ltb now (expiry_of column s)
          && not (is_null (find_user s.user_id db.users)))
        db.sessions)
  s ← one_row found
  joined ← query (λ db. find_user s.user_id db.users)
  user ← one_row joined
  roles ← query (λ db. roles_of user.id db.roles)
  return (record {
    session_id = s.id;
    user = user;
    roles = roles;
    banned_at = user.banned_at;
    deleted_at = user.deleted_at;
  })

abbrev pub find_by_access_token_hash : Bytes → ℕ → M SessionWithUser
find_by_access_token_hash = find_session_by_token_hash access_token

abbrev pub find_by_refresh_token_hash : Bytes → ℕ → M SessionWithUser
find_by_refresh_token_hash = find_session_by_token_hash refresh_token
