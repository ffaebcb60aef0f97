-- ===== src/Accounts/Owner/Bans.antt =====
-- That some owner is in use: the statements, and `BanUser`.
use bee_ba.Common.{
  ℕ, ◌≤◌, ◌≡◌, refl, Bool, true, false, ◌&&◌, List, ◌∷◌, is_null, any_where, update_where,
  count_where, count_where_mono-All, any_where-All-false, All-map, arith,
}
use bee_ba.Common.Text.{Bytes, bytes_eq, bytes_eq_iff}
use bee_ba.Accounts.Db.{Db, UserRow, RoleRow, Call, is_active, owner}
use bee_ba.Accounts.Statement.{set_users}
use bee_ba.Accounts.Sessions.{has_role}
use bee_ba.Accounts.Admin.{AdminUserActionInput, is_active_id, banned_row, ban_user}
use bee_ba.Accounts.Run.{Within, Prims, SessionCalls}
use bee_ba.Accounts.Run.Tables.{
  Base, insert_password_change_token-Within, insert_email_change_token-Within,
  create_session-Within, rotate_session-Within,
}
use bee_ba.Accounts.AdminOutcome.{ban_user-Banned}
use bee_ba.Accounts.Owner.{
  is_active_id-update, is_active_id-new, is_owner_row, owner_count-users, OwnsOnce, insert-OwnsOnce,
}

abbrev pub owners : List UserRow → List RoleRow → ℕ
owners users roles = count_where (is_owner_row users) roles

-- No user has the role of an owner twice, and some owner is neither banned nor deleted.
abbrev pub HasOwner : Db → Type 0
HasOwner db = OwnsOnce db.roles × (1 ≤ owners db.users db.roles)

abbrev pub Keeps : Db → Db → Type 0
Keeps a b = HasOwner a → HasOwner b

pub base : Base Keeps
base = record {
  same = λ db h. h;
  both = λ a b c f g h. g (f h);
  job = λ now id job_type payload db h. h;
}

-- An update that leaves active users active.
pub update-HasOwner :
    (p : UserRow → Bool) (f : UserRow → UserRow) (db : Db)
    → ((u : UserRow) → (f u).id ≡ u.id)
    → ((u : UserRow) → is_active u ≡ true → is_active (f u) ≡ true)
    → HasOwner db
    → HasOwner (set_users p f db)
update-HasOwner p f db same keep h = (
  h.0,
  omega (
    arith,
    h.1,
    owner_count-users db.users (update_where p f db.users) db.roles
        (λ id e. is_active_id-update id p f db.users same (λ u _ _ a. keep u a) e),
  ),
)

pub new_role-HasOwner :
    (r : RoleRow) (db : Db)
    → any_where (λ x. bytes_eq x.user_id r.user_id && bytes_eq x.role r.role) db.roles ≡ false
    → HasOwner db
    → HasOwner (record db { roles = r ∷ db.roles })
new_role-HasOwner r db free h = (insert-OwnsOnce r db.roles free h.0, omega (arith, h.1))

pub new_user-HasOwner :
    (u : UserRow) (db : Db)
    → any_where (λ x. bytes_eq x.id u.id) db.users ≡ false
    → HasOwner db
    → HasOwner (record db { users = u ∷ db.users })
new_user-HasOwner u db free h = (
  h.0,
  omega (
    arith,
    h.1,
    owner_count-users db.users (u ∷ db.users) db.roles
        (λ id e. is_active_id-new id u db.users free e),
  ),
)

pub prims : Prims Keeps
prims = record {
  same = base.same;
  both = base.both;
  minor = λ p f m db.
      update-HasOwner p f db m.same_id (λ u a. rw (m.same_deleted u, m.same_banned u) a);
  use_verification = λ now p db h. h;
  use_password = λ now p db h. h;
  use_email = λ now p db h. h;
  revoke = λ now p db h. h;
  audit = λ a db h. h;
  password_token = insert_password_change_token-Within Keeps base (λ t db free h. h);
  email_token = insert_email_change_token-Within Keeps base (λ t db free h. h);
}

pub session_calls : SessionCalls Keeps
session_calls = record {
  new_session = create_session-Within Keeps base (λ s db free h. h);
  rotation = rotate_session-Within Keeps base (λ p f i r db h. h);
}

-- A ban of a user without the role of an owner.
ban-HasOwner :
    (now : ℕ) (target : Bytes) (users : List UserRow) (roles : List RoleRow)
    → has_role target owner roles ≡ false
    → owners users roles
      ≤ owners
          (update_where (λ u. bytes_eq u.id target && is_null u.deleted_at) (banned_row now) users)
          roles
unfolding has_role
ban-HasOwner now target users roles none_has =
    count_where_mono-All _ _ roles
      (All-map _ _ roles (λ r e. keeps r e) (any_where-All-false _ roles none_has))
  where
    keeps :
        (r : RoleRow)
        → (bytes_eq r.user_id target && bytes_eq r.role owner) ≡ false
        → is_owner_row users r ≡ true
        → is_owner_row
            (update_where
              (λ u. bytes_eq u.id target && is_null u.deleted_at)
              (banned_row now)
              users)
            r
          ≡ true
    keeps r e h =
        let active : is_active_id r.user_id users ≡ true = ground (arith, h) in
        let is_owner : bytes_eq r.role owner ≡ true = ground (arith, h) in
        let still =
          is_active_id-update r.user_id (λ u. bytes_eq u.id target && is_null u.deleted_at)
            (banned_row now) users (λ u. refl) (λ u p same a. absurd (apart r u e is_owner p same))
            active in
        ground (arith, still, is_owner)
      where
        apart :
            (x : RoleRow) (u : UserRow)
            → (bytes_eq x.user_id target && bytes_eq x.role owner) ≡ false
            → bytes_eq x.role owner ≡ true
            → (bytes_eq u.id target && is_null u.deleted_at) ≡ true
            → u.id ≡ x.user_id
            → ⊥
        apart x u f o p same =
            ground (arith, f, o, p, same, bytes_eq_iff x.user_id target, bytes_eq_iff u.id target)

pub by_ban : (c : Call) (input : AdminUserActionInput) → Within Keeps (ban_user c input)
by_ban c input db a db' e h =
    let v = ban_user-Banned c input db a db' e in
    let le = ban-HasOwner c.now input.target_user_id db.users db.roles v.not_owner in
    rw (v.users_are, v.roles_are) (h.0, omega (arith, le, h.1))
