-- ===== src/Accounts/AdminOutcome.antt =====
-- admin_users.go: what a ban that succeeds has done, and the reads of the administration.
use bee_ba.Common.{◌≡◌, sym, ap, ◌∙◌, false, ◌&&◌, List, ok, is_null, update_where, arith}
use bee_ba.Common.Text.{Bytes, bytes_eq, contains}
use bee_ba.Accounts.Db.{Db, Fact, RoleRow, owner, Call}
use bee_ba.Accounts.Statement.{set_users, revoke_sessions}
use bee_ba.Accounts.Users.{update_user}
use bee_ba.Accounts.Sessions.{roles_of, has_role}
use bee_ba.Accounts.Admin.{
  AdminUser, AdminUserActionInput, load_admin_user, load_admin_user_for_update, insert_user_audit,
  banned_row, ban_user,
}
use bee_ba.Accounts.Run.Within.{bind-ok, write-ok, return-ok}
use bee_ba.Accounts.Chains.{read-ok, write_then-ok, refuse_then-ok, query_then-ok, update_user-ok}

-- A read leaves the tables alone.
pub load_admin_user-db :
    (id : Bytes) (db : Db) (a : AdminUser) (db' : Db)
    → load_admin_user id db ≡ ok (a, db')
    → db' ≡ db
unfolding load_admin_user
load_admin_user-db id db a db' h =
    let (row, found, h1) = read-ok _ _ db h in (return-ok _ _ (query_then-ok _ _ db h1)).1

load_admin_user-roles :
    (id : Bytes) (db : Db) (a : AdminUser) (db' : Db)
    → load_admin_user id db ≡ ok (a, db')
    → a.roles ≡ roles_of id db.roles
unfolding load_admin_user
load_admin_user-roles id db a db' h =
    let (row, found, h1) = read-ok _ _ db h in
    ap (λ (x : AdminUser). x.roles) (return-ok _ _ (query_then-ok _ _ db h1)).0

pub load_admin_user_for_update-ok :
    (id : Bytes) (db : Db) (a : AdminUser) (db' : Db)
    → load_admin_user_for_update id db ≡ ok (a, db')
    → (a.roles ≡ roles_of id db.roles) × (db' ≡ db)
unfolding load_admin_user_for_update
load_admin_user_for_update-ok id db a db' h =
    let (row, found, h1) = read-ok _ _ db h in
    (load_admin_user-roles id db a db' h1, load_admin_user-db id db a db' h1)

-- The list of roles has a role exactly when the table has it.
pub contains-roles_of :
    (id : Bytes) (roles : List RoleRow)
    → contains owner (roles_of id roles) ≡ has_role id owner roles
unfolding roles_of contains
contains-roles_of id roles = ground (arith)

pub insert_user_audit-ok :
    (actor target action : Bytes) (before : AdminUser) (after : List Fact) (ip agent : Bytes)
    (db : Db) {u : Unit {0}} {db' : Db}
    → insert_user_audit actor target action before after ip agent db ≡ ok (u, db')
    → (db'.users ≡ db.users) × (db'.roles ≡ db.roles) × (db'.sessions ≡ db.sessions)
unfolding insert_user_audit
insert_user_audit-ok actor target action before after ip agent db h =
    let e = write-ok _ db h in (ap (λ d. d.users) e, ap (λ d. d.roles) e, ap (λ d. d.sessions) e)

pub record Banned (c : Call) (input : AdminUserActionInput) (db db' : Db) : Type 0 where
  pub not_owner : has_role input.target_user_id owner db.roles ≡ false
  pub users_are :
      db'.users
      ≡ update_where
          (λ x. bytes_eq x.id input.target_user_id && is_null x.deleted_at)
          (banned_row c.now)
          db.users
  pub roles_are : db'.roles ≡ db.roles
  pub sessions_are :
      db'.sessions
      ≡ (revoke_sessions c.now (λ s. bytes_eq s.user_id input.target_user_id) db).sessions

pub ban_user-Banned :
    (c : Call) (input : AdminUserActionInput) (db : Db) (a : AdminUser) (db' : Db)
    → ban_user c input db ≡ ok (a, db')
    → Banned c input db db'
unfolding ban_user
ban_user-Banned c input db a db' h =
    let (before, d1, h1, h2) = bind-ok (load_admin_user_for_update _) _ db h in
    let (roles_is, d1_is) = load_admin_user_for_update-ok _ db before d1 h1 in
    let (free, h3) = refuse_then-ok _ _ _ d1 h2 in
    let (banned, d2, h4, h5) = bind-ok (update_user _ _ _) _ d1 h3 in
    let up = update_user-ok _ _ _ d1 banned d2 h4 in
    let h6 = write_then-ok _ _ d2 h5 in
    let (u, d3, h7, h8) = bind-ok (insert_user_audit _ _ _ before _ _ _) _ _ h6 in
    let (users_same, roles_same, sessions_same) = insert_user_audit-ok _ _ _ before _ _ _ _ h7 in
    let last = load_admin_user-db _ d3 a db' h8 in
    let d2_is = up.db_is ∙ ap (set_users _ (banned_row c.now)) d1_is in
    record {
      not_owner =
          sym (contains-roles_of input.target_user_id db.roles)
          ∙ ap (contains owner) (sym roles_is)
          ∙ free;
      users_are = ap (λ d. d.users) last ∙ users_same ∙ ap (λ d. d.users) d2_is;
      roles_are = ap (λ d. d.roles) last ∙ roles_same ∙ ap (λ d. d.roles) d2_is;
      sessions_are =
          ap (λ d. d.sessions) last
          ∙ sessions_same
          ∙ ap
              (λ d.
                (revoke_sessions c.now (λ s. bytes_eq s.user_id input.target_user_id) d).sessions)
              d2_is;
    }
