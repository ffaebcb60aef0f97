-- ===== src/Accounts/Owner/Grants.antt =====
-- What `SetUserRoles` does to the table user_roles.
use mathlib.Core.Path.{subst}
use bee_ba.Common.{
  ◌≤◌, ◌≡◌, sym, ap, ◌∙◌, Bool, true, false, ◌&&◌, ◌||◌, not, some, List, [], ◌∷◌, ok, leb,
  remove_where, count_where, All, arith, not-eq-false,
}
use bee_ba.Common.Text.{Bytes, bytes_eq, bytes_eq_iff, contains}
use bee_ba.Accounts.Db.{Db, RoleRow, owner, Call}
use bee_ba.Accounts.Statement.{insert_role}
use bee_ba.Accounts.Users.{add_role}
use bee_ba.Accounts.Sessions.{has_role}
use bee_ba.Accounts.Admin.{
  AdminUser, AdminUserRolesInput, load_admin_user_for_update, insert_user_audit, owner_count,
  allowed_role, grant_roles, check_role_change, set_user_roles,
}
use bee_ba.Accounts.Run.Within.{bind-ok, return-ok, write-ok, refuse_if-ok}
use bee_ba.Accounts.Chains.{write_then-ok, refuse_then-ok, query_then-ok}
use bee_ba.Accounts.AdminOutcome.{
  load_admin_user_for_update-ok, load_admin_user-db, insert_user_audit-ok, contains-roles_of,
}

add_role-ok :
    (r : RoleRow) (db : Db) (u : Unit {0}) (db' : Db)
    → add_role r db ≡ ok (u, db')
    → db' ≡ insert_role r db
unfolding add_role
add_role-ok r db u db' h =
    let (free, h1) = refuse_then-ok _ _ _ db (query_then-ok _ _ db h) in write-ok _ db h1

-- The rows of user_roles before and after the loop over the new roles.
pub record Granted (target : Bytes) (roles : List Bytes) (old new : List RoleRow) : Type 0 where
  pub has :
      (id r : Bytes)
      → has_role id r new ≡ (bytes_eq target id && contains r roles || has_role id r old)
  pub kept : (q : RoleRow → Bool) → count_where q old ≤ count_where q new
  pub are_allowed : All (λ r. allowed_role r ≡ true) roles

regroup : (a b x y : Bool) → (a && x || (a && b || y)) ≡ (a && (b || x) || y)
regroup true true x y = ground arith
regroup true false x y = ground arith
regroup false b x y = ground arith

Granted-cons :
    (actor target role : Bytes) (roles : List Bytes) (old new : List RoleRow)
    → allowed_role role ≡ true
    → Granted target roles
        (record { user_id = target; role = role; granted_by = some actor } ∷ old)
        new
    → Granted target (role ∷ roles) old new
unfolding contains has_role
Granted-cons actor target role roles old new allowed g = record {
  has = λ id r.
      g.has id r
      ∙ regroup (bytes_eq target id) (bytes_eq role r) (contains r roles) (has_role id r old);
  kept = λ q. omega (arith, g.kept q);
  are_allowed = (allowed, g.are_allowed);
}

pub grant_roles-Granted :
    (actor target : Bytes) (roles : List Bytes) (db : Db) (u : Unit {0}) (db' : Db)
    → grant_roles actor target roles db ≡ ok (u, db')
    → (db'.users ≡ db.users)
      × (db'.sessions ≡ db.sessions)
      × Granted target roles db.roles db'.roles
unfolding grant_roles contains has_role
grant_roles-Granted actor target [] db u db' h =
    let e = (return-ok tt db h).1 in
    (
      ap (λ d. d.users) e,
      ap (λ d. d.sessions) e,
      record {
        has = λ id r. rw e (ground arith);
        kept = λ q. rw e (omega arith);
        are_allowed = tt;
      },
    )
grant_roles-Granted actor target (role ∷ roles) db u db' h =
    let (allowed, h1) = refuse_then-ok _ _ _ db h in
    let (v, d1, h2, h3) = bind-ok (add_role _) _ db h1 in
    let e = add_role-ok _ db v d1 h2 in
    let (users_are, sessions_are, g) = grant_roles-Granted actor target roles d1 u db' h3 in
    (
      users_are ∙ ap (λ d. d.users) e,
      sessions_are ∙ ap (λ d. d.sessions) e,
      Granted-cons actor target role roles db.roles db'.roles (not-eq-false _ allowed)
          (subst (λ d. Granted target roles d.roles db'.roles) e g),
    )

-- The rows of the other users stay.
pub has_role-delete :
    (target id r : Bytes) (roles : List RoleRow)
    → has_role id r (remove_where (λ x. bytes_eq x.user_id target) roles)
      ≡ (not (bytes_eq target id) && has_role id r roles)
unfolding has_role
has_role-delete target id r [] = ground arith
has_role-delete target id r (x ∷ xs) = ground (
  arith,
  bytes_eq_iff x.user_id target,
  bytes_eq_iff x.user_id id,
  bytes_eq_iff target id,
  has_role-delete target id r xs,
)

-- A change of roles that has succeeded.
pub record RolesSet (input : AdminUserRolesInput) (db db' : Db) : Type 0 where
  pub owner_allowed :
      (has_role input.target_user_id owner db.roles || contains owner input.roles) ≡ true
      → input.allow_owner_role ≡ true
  pub not_last :
      has_role input.target_user_id owner db.roles ≡ true
      → contains owner input.roles ≡ false
      → leb (owner_count db) 1 ≡ false
  pub users_are : db'.users ≡ db.users
  pub sessions_are : db'.sessions ≡ db.sessions
  pub granted :
      Granted input.target_user_id input.roles
        (remove_where (λ x. bytes_eq x.user_id input.target_user_id) db.roles)
        db'.roles

check_role_change-ok :
    (before : AdminUser) (input : AdminUserRolesInput) (db : Db) (u : Unit {0}) (db' : Db)
    → check_role_change before input db ≡ ok (u, db')
    → (((contains owner before.roles || contains owner input.roles) && not input.allow_owner_role)
        ≡ false)
      × ((contains owner before.roles && not (contains owner input.roles) && leb (owner_count db) 1)
          ≡ false)
      × (db' ≡ db)
unfolding check_role_change
check_role_change-ok before input db u db' h =
    let (first, h1) = refuse_then-ok _ _ _ db h in
    let h2 = query_then-ok _ _ db h1 in
    let (second, same) = refuse_if-ok _ _ db h2 in (first, second, same)

allow : (b b' n a : Bool) → ((b' || n) && not a) ≡ false → b' ≡ b → (b || n) ≡ true → a ≡ true
allow b b' n a h e q = ground (arith, h, e, q)

more : (b b' n l : Bool) → (b' && not n && l) ≡ false → b' ≡ b → b ≡ true → n ≡ false → l ≡ false
more b b' n l h e q r = ground (arith, h, e, q, r)

pub set_user_roles-RolesSet :
    (c : Call) (input : AdminUserRolesInput) (db : Db) (a : AdminUser) (db' : Db)
    → set_user_roles c input db ≡ ok (a, db')
    → RolesSet input db db'
unfolding set_user_roles
set_user_roles-RolesSet c input db a db' h =
    let target = input.target_user_id in
    let (before, d1, h1, h2) = bind-ok (load_admin_user_for_update _) _ db h in
    let (roles_is, d1_is) = load_admin_user_for_update-ok target db before d1 h1 in
    let (u, d2, h3, h4) = bind-ok (check_role_change before input) _ d1 h2 in
    let (first, second, d2_is) = check_role_change-ok before input d1 u d2 h3 in
    let h5 = write_then-ok _ _ d2 h4 in
    let (v, d3, h6, h7) = bind-ok (grant_roles _ _ _) _ _ h5 in
    let (users_are, sessions_are, g) =
      grant_roles-Granted input.actor_user_id target input.roles _ v d3 h6 in
    let (w, d4, h8, h9) = bind-ok (insert_user_audit _ _ _ before _ _ _) _ d3 h7 in
    let (users_same, roles_same, sessions_same) = insert_user_audit-ok _ _ _ before _ _ _ d3 h8 in
    let last = load_admin_user-db target d4 a db' h9 in
    let was : contains owner before.roles ≡ has_role target owner db.roles =
      ap (contains owner) roles_is ∙ contains-roles_of target db.roles in
    let d2_db : d2 ≡ db = d2_is ∙ d1_is in
    record {
      owner_allowed = λ e. allow _ _ _ _ first was e;
      not_last = λ e n. sym (ap (λ d. leb (owner_count d) 1) d1_is) ∙ more _ _ _ _ second was e n;
      users_are = ap (λ d. d.users) last ∙ users_same ∙ users_are ∙ ap (λ d. d.users) d2_db;
      sessions_are =
          ap (λ d. d.sessions) last ∙ sessions_same ∙ sessions_are ∙ ap (λ d. d.sessions) d2_db;
      granted =
          subst
            (λ rs.
              Granted target input.roles (remove_where (λ x. bytes_eq x.user_id target) db.roles)
                rs)
            (sym (ap (λ d. d.roles) last ∙ roles_same))
            (subst
              (λ d.
                Granted target input.roles (remove_where (λ x. bytes_eq x.user_id target) d.roles)
                  d3.roles)
              d2_db g);
    }
