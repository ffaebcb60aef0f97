-- ===== src/Accounts/Owner/Roles.antt =====
-- `SetUserRoles`: the exact roles that it leaves, and its inserts of roles.
use bee_ba.Common.{
  ◌≡◌, refl, ap, ◌∙◌, Bool, true, false, ◌&&◌, ◌||◌, not, Option, none, some, List, [], ◌∷◌, Result,
  ok, err, Result-cases, ◌≢◌, if◌then◌else◌, remove_where, All, arith, inl, inr,
}
use bee_ba.Common.Text.{Bytes, bytes_eq, bytes_eq_iff, contains, NotIn, Distinct, Tables}
use bee_ba.Accounts.Db.{Db, AccountError, unique_violation, RoleRow, owner, Call}
use bee_ba.Accounts.Statement.{
  M, ◌>>=◌, return, query, refuse_if, one_row, write, insert_role, delete_roles,
}
use bee_ba.Accounts.Users.{add_role}
use bee_ba.Accounts.Sessions.{has_role}
use bee_ba.Accounts.Admin.{
  AdminUser, AdminUserRolesInput, load_admin_user, load_admin_user_for_update, insert_user_audit,
  owner_count, allowed_role, grant_roles, check_role_change, set_user_roles,
}
use bee_ba.Accounts.Normal.{normalize_admin_roles, normalize_admin_roles-IsNormal}
use bee_ba.Accounts.Run.Within.{write-ok}
use bee_ba.Accounts.Owner.Grants.{set_user_roles-RolesSet, has_role-delete}

final_roles : (e n h : Bool) → (e && n || (not e && h)) ≡ (if e then n else h)
final_roles true n h = ground arith
final_roles false n h = ground arith

first_false : (b n a : Bool) → ((b || n) ≡ true → a ≡ true) → a ≡ false → b ≡ false
first_false true n a h e = absurd (cc (h refl, e))
first_false false n a h e = refl

second_false : (b n a : Bool) → ((b || n) ≡ true → a ≡ true) → a ≡ false → n ≡ false
second_false true true a h e = absurd (cc (h refl, e))
second_false false true a h e = absurd (cc (h refl, e))
second_false b false a h e = refl

-- `SetUserRoles` that succeeds leaves the target with exactly the given roles, all of which are
-- allowed, and every other user with the roles that it had; without the permission of an owner
-- neither the old nor the new roles of the target contain that of an owner; users and sessions are
-- left alone.
pub set_user_roles_lem :
    (c : Call) (input : AdminUserRolesInput) (db : Db) (a : AdminUser) (db' : Db)
    → set_user_roles c input db ≡ ok (a, db')
    → ((id r : Bytes)
        → has_role id r db'.roles ≡ (
            if bytes_eq input.target_user_id id
            then contains r input.roles
            else has_role id r db.roles))
      × All (λ r. allowed_role r ≡ true) input.roles
      × (input.allow_owner_role ≡ false
          → (has_role input.target_user_id owner db.roles ≡ false)
            × (contains owner input.roles ≡ false))
      × (db'.users ≡ db.users)
      × (db'.sessions ≡ db.sessions)
set_user_roles_lem c input db a db' h =
    let v = set_user_roles-RolesSet c input db a db' h in
    let target = input.target_user_id in
    (
      λ id r.
          v.granted.has id r
          ∙ ap (λ b. bytes_eq target id && contains r input.roles || b)
              (has_role-delete target id r db.roles)
          ∙ final_roles (bytes_eq target id) (contains r input.roles) (has_role id r db.roles),
      v.granted.are_allowed,
      λ no. (first_false _ _ _ v.owner_allowed no, second_false _ _ _ v.owner_allowed no),
      v.users_are,
      v.sessions_are,
    )

go-ok :
    {A B : Type 0} (m : M A) (f : A → M B) (db mid : Db) (a : A)
    → m db ≡ ok (a, mid)
    → (m >>= f) db ≡ f a mid
unfolding ◌>>=◌
go-ok m f db mid a h = rw h refl

refuse-passes : (b : Bool) (e : AccountError) (db : Db) → b ≡ false → refuse_if b e db ≡ ok (tt, db)
unfolding refuse_if
refuse-passes b e db h = rw h refl

add_role_total :
    (r : RoleRow) (db : Db)
    → has_role r.user_id r.role db.roles ≡ false
    → add_role r db ≡ ok (tt, insert_role r db)
unfolding add_role query write has_role
add_role_total r db h =
    go-ok (query _) _ db db _ refl ∙ go-ok (refuse_if _ _) _ db db tt (refuse-passes _ _ db h)

-- A further role leaves the other roles missing.
missing-insert :
    (actor target role : Bytes) (roles : List Bytes) (old : List RoleRow)
    → NotIn roles role
    → All (λ r. has_role target r old ≡ false) roles
    → All
        (λ r.
          has_role target r
            (record { user_id = target; role = role; granted_by = some actor } ∷ old)
          ≡ false)
        roles
unfolding has_role
missing-insert actor target role [] old n h = tt
missing-insert actor target role (r ∷ roles) old n h = (
  ground (arith, h.0, n.0, bytes_eq_iff role r),
  missing-insert actor target role roles old n.1 h.1,
)

grant_roles_total :
    (actor target : Bytes) (roles : List Bytes) (db : Db)
    → Distinct roles
    → All (λ r. allowed_role r ≡ true) roles
    → All (λ r. has_role target r db.roles ≡ false) roles
    → (db' : Db) × (grant_roles actor target roles db ≡ ok (tt, db')) × (db'.users ≡ db.users)
unfolding grant_roles return
grant_roles_total actor target [] db d a m = (db, refl, refl)
grant_roles_total actor target (role ∷ roles) db d a m =
    let row : RoleRow = record { user_id = target; role = role; granted_by = some actor } in
    let (db', done, same) =
      grant_roles_total actor target roles (insert_role row db) d.1 a.1
        (missing-insert actor target role roles db.roles d.0 m.1) in
    (
      db',
      go-ok (refuse_if _ _) _ db db tt (refuse-passes _ _ db (ap not a.0))
          ∙ go-ok (add_role row) _ db (insert_role row db) tt (add_role_total row db m.0)
          ∙ done,
      same,
    )

-- Nothing is left of the roles of the target.
deleted_missing :
    (target : Bytes) (old : List RoleRow) (roles : List Bytes)
    → All (λ r. has_role target r (remove_where (λ x. bytes_eq x.user_id target) old) ≡ false) roles
deleted_missing target old [] = tt
deleted_missing target old (r ∷ roles) = (
  has_role-delete target target r old ∙ rw ((bytes_eq_iff target target).1 refl) (ground arith),
  deleted_missing target old roles,
)

err-injective :
    {A : Type 0} {e other : AccountError} (x : Result AccountError A)
    → x ≡ err other
    → x ≡ err e
    → other ≡ e
err-injective x is_other is_e = cc

-- A chain does not fail with an error that none of its statements fails with.
bind-ne :
    {A B : Type 0} (m : M A) (f : A → M B) (e : AccountError) (db : Db)
    → m db ≢ err e
    → ((a : A) (mid : Db) → m db ≡ ok (a, mid) → f a mid ≢ err e)
    → (m >>= f) db ≢ err e
unfolding ◌>>=◌
bind-ne {A = A} {B = B} m f e db first then_no h = elim (Result-cases (m db)) [
  | inl (other, q) ↦ first (q ∙ ap err (err-injective {A = B × Db} (err other) refl (rw q at h)))
  | inr ((a, mid), q) ↦ then_no a mid q (rw q at h)
]

query-ne : {A : Type 0} (f : Db → A) (e : AccountError) (db : Db) → query f db ≢ err e
unfolding query
query-ne f e db h = cc

one_row-ne : {A : Type 0} (o : Option A) (db : Db) → one_row o db ≢ err unique_violation
unfolding one_row
one_row-ne none db h = cc
one_row-ne (some a) db h = cc

refuse_if-ne :
    (b : Bool) (e other : AccountError) (db : Db) → e ≢ other → refuse_if b e db ≢ err other
unfolding refuse_if
refuse_if-ne true e other db differ h = differ (cc h)
refuse_if-ne false e other db differ h = cc

load_admin_user-ne : (id : Bytes) (db : Db) → load_admin_user id db ≢ err unique_violation
unfolding load_admin_user return
load_admin_user-ne id db = bind-ne (query _) _ _ db (query-ne _ _ db) (λ found d1 _.
    bind-ne (one_row found) _ _ d1 (one_row-ne found d1)
      (λ row d2 _. bind-ne (query _) _ _ d2 (query-ne _ _ d2) (λ roles d3 _ h. cc)))

load_admin_user_for_update-ne :
    (id : Bytes) (db : Db) → load_admin_user_for_update id db ≢ err unique_violation
unfolding load_admin_user_for_update
load_admin_user_for_update-ne id db = bind-ne (query _) _ _ db (query-ne _ _ db) (λ found d1 _.
    bind-ne (one_row found) _ _ d1 (one_row-ne found d1) (λ row d2 _. load_admin_user-ne id d2))

check_role_change-ne :
    (before : AdminUser) (input : AdminUserRolesInput) (db : Db)
    → check_role_change before input db ≢ err unique_violation
unfolding check_role_change
check_role_change-ne before input db =
    bind-ne (refuse_if _ _) _ _ db (refuse_if-ne _ _ _ db (λ h. cc)) (λ _ d1 _.
      bind-ne (query owner_count) _ _ d1 (query-ne _ _ d1)
        (λ count d2 _. refuse_if-ne _ _ _ d2 (λ h. cc)))

-- With the roles that `normalizeAdminRoles` has accepted, and on any tables, `SetUserRoles` never
-- fails on the primary key of `user_roles`: the old roles of the target are deleted first, and no
-- role is given twice.
pub set_user_roles-ne-unique_violation :
    (u : Tables) (raw : List Bytes) (c : Call) (input : AdminUserRolesInput) (db : Db)
    → normalize_admin_roles u raw ≡ some input.roles
    → set_user_roles c input db ≢ err unique_violation
unfolding set_user_roles insert_user_audit write
set_user_roles-ne-unique_violation u raw c input db normal =
    let target = input.target_user_id in
    let (n, _) = normalize_admin_roles-IsNormal u raw input.roles normal in
    bind-ne (load_admin_user_for_update target) _ _ db (load_admin_user_for_update-ne target db)
      (λ before d1 _.
        bind-ne (check_role_change before input) _ _ d1 (check_role_change-ne before input d1)
          (λ _ d2 _.
            bind-ne (write (delete_roles target)) _ _ d2 (λ h. cc)
              (λ _ d3 q.
                let bare : d3 ≡ delete_roles target d2 = write-ok (delete_roles target) d2 q in
                let (_, granted, _) =
                  grant_roles_total input.actor_user_id target input.roles d3 n.distinct
                    n.all_allowed (rw bare (deleted_missing target d2.roles input.roles)) in
                bind-ne (grant_roles input.actor_user_id target input.roles) _ _ d3
                  (λ h. cc (granted, h))
                  (λ _ d4 _.
                    bind-ne (insert_user_audit _ _ _ before _ _ _) _ _ d4 (λ h. cc)
                      (λ _ d5 _. load_admin_user-ne target d5)))))
