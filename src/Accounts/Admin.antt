-- ===== src/Accounts/Admin.antt =====
-- admin_users.go: bans and roles. An owner cannot be banned; only an owner grants or takes the role
-- of an owner; the last owner keeps it.
use bee_ba.Common.{
  ℕ, Bool, false, ◌&&◌, ◌||◌, not, Option, none, some, List, [], ◌∷◌, leb, is_null, if◌then◌else◌,
  find_where, count_where,
}
use bee_ba.Common.Text.{Bytes, bytes_eq, utf8, contains}
use bee_ba.Jobs.Queue.{null_if_empty}
use bee_ba.Accounts.Db.{
  Db, no_rows, admin_user_protected, UserRow, Fact, roles_are, banned_at_is, reason_is, is_active,
  owner, Call,
}
use bee_ba.Accounts.Statement.{
  M, ◌>>=◌, ◌>>◌, return, query, refuse_if, one_row, write, set_users, delete_roles,
  revoke_sessions, insert_audit,
}
use bee_ba.Accounts.Users.{add_role, update_user}
use bee_ba.Accounts.Sessions.{find_user, roles_of}

pub record AdminUserActionInput : Type 0 where
  pub actor_user_id : Bytes
  pub target_user_id : Bytes
  pub reason : Bytes
  pub ip_address : Bytes
  pub user_agent : Bytes

pub record AdminUserRolesInput : Type 0 where
  pub actor_user_id : Bytes
  pub target_user_id : Bytes
  pub roles : List Bytes
  pub allow_owner_role : Bool
  pub ip_address : Bytes
  pub user_agent : Bytes

pub record AdminUser : Type 0 where
  pub row : UserRow
  pub roles : List Bytes

-- `loadAdminUser`
unfoldable pub load_admin_user : Bytes → M AdminUser
load_admin_user id = do
  found ← query (λ db. find_user id db.users)
  row ← one_row found
  roles ← query (λ db. roles_of id db.roles)
  return (record { row = row; roles = roles })

-- `loadAdminUserForUpdate`
unfoldable pub load_admin_user_for_update : Bytes → M AdminUser
load_admin_user_for_update id = do
  found ← query (λ db. find_where (λ u. bytes_eq u.id id && is_null u.deleted_at) db.users)
  _ ← one_row found
  load_admin_user id

-- `insertUserAudit`
unfoldable pub insert_user_audit :
    Bytes → Bytes → Bytes → AdminUser → List Fact → Bytes → Bytes → M (Unit {0})
insert_user_audit actor target action before after ip_address user_agent = write (
    insert_audit (record {
      actor_user_id = actor;
      action = action;
      entity_id = target;
      before = roles_are before.roles ∷ (banned_at_is before.row.banned_at ∷ []);
      after = after;
      ip_address = null_if_empty ip_address;
      user_agent = some user_agent;
    }))

-- SET banned_at = COALESCE(banned_at, now()), updated_at = now()
abbrev pub banned_row : ℕ → UserRow → UserRow
banned_row now u = record u {
  banned_at = if is_null u.banned_at then some now else u.banned_at;
  updated_at = now;
}

-- SET banned_at = NULL, updated_at = now()
abbrev pub unbanned_row : ℕ → UserRow → UserRow
unbanned_row now u = record u { banned_at = none; updated_at = now }

-- `BanUser`: an owner is protected; the sessions of the user are revoked.
unfoldable pub ban_user : Call → AdminUserActionInput → M AdminUser
ban_user c input = do
  before ← load_admin_user_for_update input.target_user_id
  refuse_if (contains owner before.roles) admin_user_protected
  banned ← update_user (λ u. is_null u.deleted_at) (banned_row c.now) input.target_user_id
  write (revoke_sessions c.now (λ s. bytes_eq s.user_id input.target_user_id))
  insert_user_audit input.actor_user_id input.target_user_id (utf8 "user.ban") before
      (banned_at_is banned.banned_at ∷ (reason_is input.reason ∷ [])) input.ip_address
      input.user_agent
  load_admin_user input.target_user_id

-- `UnbanUser`
unfoldable pub unban_user : Call → AdminUserActionInput → M AdminUser
unban_user c input = do
  before ← load_admin_user_for_update input.target_user_id
  write (
      set_users (λ u. bytes_eq u.id input.target_user_id && is_null u.deleted_at)
        (unbanned_row c.now))
  insert_user_audit input.actor_user_id input.target_user_id (utf8 "user.unban") before
      (banned_at_is none ∷ (reason_is input.reason ∷ [])) input.ip_address input.user_agent
  load_admin_user input.target_user_id

abbrev pub is_active_user : Option UserRow → Bool
is_active_user none = false
is_active_user (some u) = is_active u

-- A user that exists and is neither deleted nor banned.
unfoldable pub is_active_id : Bytes → List UserRow → Bool
unfolding find_user
is_active_id id users = is_active_user (find_user id users)

-- The count of the owners in use.
unfoldable pub owner_count : Db → ℕ
unfolding bytes_eq is_active_id
owner_count db =
    count_where (λ r. bytes_eq r.role owner && is_active_id r.user_id db.users) db.roles

-- `allowedAdminRoles`, `allowedAdminUserRole`
unfoldable pub allowed_role : Bytes → Bool
unfolding bytes_eq
allowed_role r =
    bytes_eq r (utf8 "user")
    || bytes_eq r (utf8 "moderator")
    || bytes_eq r (utf8 "admin")
    || bytes_eq r owner

-- The loop over the new roles.
unfoldable pub grant_roles : Bytes → Bytes → List Bytes → M (Unit {0})
grant_roles actor target [] = return tt
grant_roles actor target (role ∷ roles) = do
  refuse_if (not (allowed_role role)) no_rows
  add_role (record { user_id = target; role = role; granted_by = some actor })
  grant_roles actor target roles

-- The tests of `SetUserRoles` before its first write.
unfoldable pub check_role_change : AdminUser → AdminUserRolesInput → M (Unit {0})
check_role_change before input = do
  refuse_if
      ((contains owner before.roles || contains owner input.roles) && not input.allow_owner_role)
      admin_user_protected
  count ← query owner_count
  refuse_if (contains owner before.roles && not (contains owner input.roles) && leb count 1)
      admin_user_protected

-- `SetUserRoles`
unfoldable pub set_user_roles : Call → AdminUserRolesInput → M AdminUser
set_user_roles c input = do
  before ← load_admin_user_for_update input.target_user_id
  check_role_change before input
  write (delete_roles input.target_user_id)
  grant_roles input.actor_user_id input.target_user_id input.roles
  insert_user_audit input.actor_user_id input.target_user_id (utf8 "user.roles.update") before
      (roles_are input.roles ∷ []) input.ip_address input.user_agent
  load_admin_user input.target_user_id
