-- ===== src/Accounts/Owner.antt =====
-- The last owner: what changes in the tables do to the count of the owners in use.
pub mod Grants
pub mod Bans
pub mod Last
pub mod Roles
use bee_ba.Common.{
  ℕ, ◌+◌, ◌≤◌, ◌<◌, ◌≡◌, ◌≢◌, refl, sym, ap, ◌∙◌, Bool, true, false, ◌&&◌, ◌||◌, not, Option, none,
  some, List, [], ◌∷◌, any_where, find_where, update_where, remove_where, count_where,
  count_where_mono, count_where-remove, any_where_none, Bool-cases, inl, inr, arith,
}
use bee_ba.Common.Text.{Bytes, bytes_eq, bytes_eq_iff}
use bee_ba.Accounts.Db.{Db, UserRow, RoleRow, is_active, owner}
use bee_ba.Accounts.Sessions.{find_user}
use bee_ba.Accounts.Admin.{is_active_id, owner_count}

-- Updates that leave active the users with the id that are active.
pub is_active_id-update :
    (id : Bytes) (p : UserRow → Bool) (f : UserRow → UserRow) (users : List UserRow)
    → ((u : UserRow) → (f u).id ≡ u.id)
    → ((u : UserRow) → p u ≡ true → u.id ≡ id → is_active u ≡ true → is_active (f u) ≡ true)
    → is_active_id id users ≡ true
    → is_active_id id (update_where p f users) ≡ true
unfolding is_active_id find_user
is_active_id-update id p f [] same keep h = h
is_active_id-update id p f (u ∷ us) same keep h = elim (Bool-cases (p u)) [
  | inl e ↦ elim (Bool-cases (bytes_eq u.id id)) [
    | inl here ↦ rw (e, same u, here) (keep u e ((bytes_eq_iff u.id id).0 here) (rw here at h))
    | inr there ↦ rw (e, same u, there) (is_active_id-update id p f us same keep (rw there at h))
  ]
  | inr e ↦ elim (Bool-cases (bytes_eq u.id id)) [
    | inl here ↦ rw (e, here) (rw here at h)
    | inr there ↦ rw (e, there) (is_active_id-update id p f us same keep (rw there at h))
  ]
]

-- A user with a new id hides no other.
pub is_active_id-new :
    (id : Bytes) (u : UserRow) (users : List UserRow)
    → any_where (λ x. bytes_eq x.id u.id) users ≡ false
    → is_active_id id users ≡ true
    → is_active_id id (u ∷ users) ≡ true
unfolding is_active_id find_user
is_active_id-new id u users free h = elim (Bool-cases (bytes_eq u.id id)) [
  | inl e ↦ absurd (cc (not_there users (rw ((bytes_eq_iff u.id id).0 e) h) free))
  | inr e ↦ rw e h
]
  where
    not_there :
        (us : List UserRow)
        → is_active_id u.id us ≡ true
        → any_where (λ x. bytes_eq x.id u.id) us ≡ false
        → true ≡ false
    not_there [] q free = sym q
    not_there (x ∷ us) q free = elim (Bool-cases (bytes_eq x.id u.id)) [
      | inl e ↦ absurd (cc (rw e at free))
      | inr e ↦ not_there us (rw e at q) (rw e at free)
    ]

-- An owner in use, as a row of user_roles.
abbrev pub is_owner_row : List UserRow → RoleRow → Bool
is_owner_row users r = bytes_eq r.role owner && is_active_id r.user_id users

pub owner_count-users :
    (users users' : List UserRow) (roles : List RoleRow)
    → ((id : Bytes) → is_active_id id users ≡ true → is_active_id id users' ≡ true)
    → count_where (is_owner_row users) roles ≤ count_where (is_owner_row users') roles
owner_count-users users users' roles h =
    count_where_mono (is_owner_row users) (is_owner_row users') roles
      (λ r e. ground (arith, e, h r.user_id))

-- No user has the role of an owner twice.
abbrev pub OwnsOnce : List RoleRow → Type 0
OwnsOnce roles =
    (id : Bytes) → count_where (λ r. bytes_eq r.user_id id && bytes_eq r.role owner) roles ≤ 1

pub insert-OwnsOnce :
    (r : RoleRow) (roles : List RoleRow)
    → any_where (λ x. bytes_eq x.user_id r.user_id && bytes_eq x.role r.role) roles ≡ false
    → OwnsOnce roles
    → OwnsOnce (r ∷ roles)
insert-OwnsOnce r roles free h id =
    elim (Bool-cases (bytes_eq r.user_id id && bytes_eq r.role owner)) [
      | inl e ↦
          let id_is : r.user_id ≡ id = (bytes_eq_iff r.user_id id).0 (ground (arith, e)) in
          let role_is : r.role ≡ owner = (bytes_eq_iff r.role owner).0 (ground (arith, e)) in
          let nobody =
            any_where_none (λ (x : RoleRow). bytes_eq x.user_id id && bytes_eq x.role owner) roles
              (rw (id_is, role_is) at free) in
          ground (arith, e, nobody)
      | inr e ↦ ground (arith, e, h id)
    ]

pub delete-OwnsOnce :
    (target : Bytes) (roles : List RoleRow)
    → OwnsOnce roles
    → OwnsOnce (remove_where (λ r. bytes_eq r.user_id target) roles)
delete-OwnsOnce target roles h id = omega (
  arith,
  count_where-remove (λ (r : RoleRow). bytes_eq r.user_id id && bytes_eq r.role owner)
      (λ r. bytes_eq r.user_id target) roles,
  h id,
)
