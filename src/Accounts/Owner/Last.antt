-- ===== src/Accounts/Owner/Last.antt =====
-- Every call of the repository leaves an owner in use.
use bee_ba.Common.{
  ℕ, ◌+◌, ◌≤◌, ◌≡◌, refl, ◌∙◌, true, false, ◌&&◌, List, ok, remove_where, count_where,
  count_where_mono, count_where-remove, count_where_pos, count_where_zero, any_where_none,
  Bool-cases, inl, inr, arith,
}
use bee_ba.Common.Text.{Bytes, bytes_eq, bytes_eq_iff, contains}
use bee_ba.Accounts.Db.{Db, UserRow, RoleRow, Call, owner}
use bee_ba.Accounts.Confirm.{confirmed_row}
use bee_ba.Accounts.Sessions.{has_role}
use bee_ba.Accounts.Admin.{
  AdminUser, AdminUserRolesInput, is_active_id, owner_count, unbanned_row, set_user_roles,
}
use bee_ba.Accounts.Run.{Op, run_all, Within, Prims}
use bee_ba.Accounts.Run.Kept.{
  Kept, create-Within, request_email_verification-Within, set_email-Within,
  confirm_email_change-Within, unban_user-Within, set_user_roles-Within, run_all-Kept,
}
use bee_ba.Accounts.Run.Tables.{
  Base, insert_email_verification_token-Within, insert_password_change_token-Within,
  insert_email_change_token-Within, add_user-Within, add_role-Within,
}
use bee_ba.Accounts.Owner.{is_owner_row, OwnsOnce, insert-OwnsOnce, delete-OwnsOnce}
use bee_ba.Accounts.Owner.Grants.{Granted, set_user_roles-RolesSet}
use bee_ba.Accounts.Owner.Bans.{
  session_calls, owners, HasOwner, Keeps, base, update-HasOwner, new_role-HasOwner,
  new_user-HasOwner, prims, by_ban,
}

-- The rows of owners that the deletion of a user's roles takes.
taken : Bytes → List UserRow → List RoleRow → ℕ
taken target users roles =
    count_where (λ r. is_owner_row users r && bytes_eq r.user_id target) roles

taken-le :
    (target : Bytes) (users : List UserRow) (roles : List RoleRow)
    → taken target users roles
      ≤ count_where (λ r. bytes_eq r.user_id target && bytes_eq r.role owner) roles
unfolding taken
taken-le target users roles = count_where_mono _ _ roles (λ r e. ground (arith, e))

taken_inactive :
    (target : Bytes) (users : List UserRow) (roles : List RoleRow)
    → is_active_id target users ≡ false
    → taken target users roles ≡ 0
unfolding taken
taken_inactive target users roles h = count_where_zero _ roles (λ r. not_both r)
  where
    not_both : (r : RoleRow) → (is_owner_row users r && bytes_eq r.user_id target) ≡ false
    not_both r = elim (Bool-cases (bytes_eq r.user_id target)) [
      | inl e ↦ rw ((bytes_eq_iff r.user_id target).0 e, h) (ground arith)
      | inr e ↦ ground (arith, e)
    ]

deleted_owners :
    (target : Bytes) (users : List UserRow) (roles : List RoleRow)
    → owners users roles
      ≡ owners users (remove_where (λ r. bytes_eq r.user_id target) roles)
        + taken target users roles
unfolding taken
deleted_owners target users roles =
    count_where-remove (is_owner_row users) (λ r. bytes_eq r.user_id target) roles

-- The new rows give the target the role of an owner.
Granted-owner :
    (target : Bytes) (users : List UserRow) (old new : List RoleRow) (roles : List Bytes)
    → Granted target roles old new
    → contains owner roles ≡ true
    → is_active_id target users ≡ true
    → 1 ≤ owners users new
unfolding has_role
Granted-owner target users old new roles g c a =
    count_where_pos (λ r. bytes_eq r.user_id target && bytes_eq r.role owner) (is_owner_row users)
      new (λ r e. is_one r e)
      (g.has target owner ∙ ground (arith, c, (bytes_eq_iff target target).1 refl))
  where
    is_one :
        (r : RoleRow)
        → (bytes_eq r.user_id target && bytes_eq r.role owner) ≡ true
        → is_owner_row users r ≡ true
    is_one r e =
        let same : r.user_id ≡ target = (bytes_eq_iff r.user_id target).0 (ground (arith, e)) in
        let o : bytes_eq r.role owner ≡ true = ground (arith, e) in rw (o, same) a

roles-owners :
    (c : Call) (input : AdminUserRolesInput) (db : Db) (a : AdminUser) (db' : Db)
    → HasOwner db
    → set_user_roles c input db ≡ ok (a, db')
    → 1 ≤ owners db.users db'.roles
unfolding owner_count has_role
roles-owners c input db a db' h e =
    let v = set_user_roles-RolesSet c input db a db' e in
    let target = input.target_user_id in
    let left = remove_where (λ r. bytes_eq r.user_id target) db.roles in
    let split = deleted_owners target db.users db.roles in
    let most = taken-le target db.users db.roles in
    let grown = v.granted.kept (is_owner_row db.users) in
    elim (Bool-cases (contains owner input.roles)) [
      | inl new ↦ elim (Bool-cases (is_active_id target db.users)) [
        | inl active ↦ Granted-owner target db.users left db'.roles input.roles v.granted new active
        | inr inactive ↦
            omega (arith, h.1, split, grown, taken_inactive target db.users db.roles inactive)
      ]
      | inr not_new ↦ elim (Bool-cases (has_role target owner db.roles)) [
        | inl was ↦
            let enough : 2 ≤ owners db.users db.roles = ground (arith, v.not_last was not_new) in
            omega (arith, enough, split, grown, most, h.0 target)
        | inr was_not ↦
            let nothing = any_where_none _ db.roles was_not in
            omega (arith, h.1, split, grown, most, nothing)
      ]
    ]

once_base : Base (λ a b. OwnsOnce a.roles → OwnsOnce b.roles)
once_base = record {
  same = λ db h. h;
  both = λ a b c f g h. g (f h);
  job = λ now id job_type payload db h. h;
}

once_prims : Prims (λ a b. OwnsOnce a.roles → OwnsOnce b.roles)
once_prims = record {
  same = once_base.same;
  both = once_base.both;
  minor = λ p f m db h. h;
  use_verification = λ now p db h. h;
  use_password = λ now p db h. h;
  use_email = λ now p db h. h;
  revoke = λ now p db h. h;
  audit = λ a db h. h;
  password_token = insert_password_change_token-Within _ once_base (λ t db free h. h);
  email_token = insert_email_change_token-Within _ once_base (λ t db free h. h);
}

roles-OwnsOnce :
    (c : Call) (input : AdminUserRolesInput) (db : Db) (a : AdminUser) (db' : Db)
    → set_user_roles c input db ≡ ok (a, db')
    → OwnsOnce db.roles
    → OwnsOnce db'.roles
roles-OwnsOnce c input =
    set_user_roles-Within _ once_prims (λ id db. delete-OwnsOnce id db.roles)
      (add_role-Within _ once_base (λ r db. insert-OwnsOnce r db.roles)) c input

by_roles : (c : Call) (input : AdminUserRolesInput) → Within Keeps (set_user_roles c input)
by_roles c input db a db' e h =
    let v = set_user_roles-RolesSet c input db a db' e in
    (roles-OwnsOnce c input db a db' e h.0, rw v.users_are (roles-owners c input db a db' h e))

kept : Kept Keeps
kept = record {
  prims = prims;
  by_create =
      create-Within Keeps prims (add_user-Within Keeps base new_user-HasOwner)
        (add_role-Within Keeps base new_role-HasOwner)
        (λ c id email name hash token expires_at limit.
          insert_email_verification_token-Within Keeps base c id email name hash token expires_at
            limit (λ x db _ _ free h. h));
  by_request =
      request_email_verification-Within Keeps prims (λ c id email name hash token expires_at limit.
        insert_email_verification_token-Within Keeps base c id email name hash token expires_at
          limit (λ x db _ _ free h. h));
  by_email = confirm_email_change-Within Keeps prims (
      set_email-Within Keeps prims
        (λ now email p db. update-HasOwner p (confirmed_row now email) db (λ u. refl) (λ u a. a)));
  by_ban = by_ban;
  by_unban =
      unban_user-Within Keeps prims (λ now p db.
        update-HasOwner p (unbanned_row now) db (λ u. refl) (λ u a. ground (arith, a)));
  by_roles = by_roles;
}

-- Where no user has the role of an owner twice and some owner is neither banned nor deleted, this
-- stays so under every sequence of calls of the repository, bans, changes of roles and new
-- addresses included.
pub run_all-owner_count :
    (ops : List Op) (db : Db)
    → OwnsOnce db.roles
    → 1 ≤ owner_count db
    → OwnsOnce (run_all ops db).roles × (1 ≤ owner_count (run_all ops db))
unfolding owner_count
run_all-owner_count ops db once h = run_all-Kept Keeps kept session_calls ops db (once, h)
