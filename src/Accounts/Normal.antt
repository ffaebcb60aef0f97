-- ===== src/Accounts/Normal.antt =====
-- http/handlers/admin/users.go: `normalizeAdminRoles`, which prepares the roles of a request.
use bee_ba.Common.{
  ◌≡◌, refl, true, false, not, Option, none, some, List, [], ◌∷◌, ◌++◌, if◌then◌else◌, All,
  All-append, Bool-cases, inl, inr, arith,
}
use bee_ba.Common.Text.{
  Bytes, bytes_eq, bytes_eq_iff, utf8, contains, contains-NotIn, NotIn, Distinct, Tables,
  trim_space, to_lower,
}
use bee_ba.Accounts.Users.{is_empty_text}
use bee_ba.Accounts.Admin.{allowed_role}

abbrev pub user_role : Bytes
user_role = utf8 "user"

-- The loop; `roles` is also the set of the roles that were seen.
unfoldable pub roles_loop : Tables → List Bytes → List Bytes → Option (List Bytes)
unfolding contains allowed_role
roles_loop u [] roles = some roles
roles_loop u (raw ∷ rest) roles =
    let role = to_lower u (trim_space raw) in
    let skip = roles_loop u rest roles in
    let more = roles_loop u rest (roles ++ role ∷ []) in
    if is_empty_text role
    then skip
    else if not (allowed_role role)
    then none
    else if contains role roles
    then skip
    else more

abbrev pub with_user : Option (List Bytes) → Option (List Bytes)
with_user none = none
with_user (some roles) = some (if contains user_role roles then roles else user_role ∷ roles)

unfoldable pub normalize_admin_roles : Tables → List Bytes → Option (List Bytes)
unfolding contains roles_loop
normalize_admin_roles u raw = with_user (roles_loop u raw [])

-- Roles without repetition that are all allowed.
pub record IsNormal (roles : List Bytes) : Type 0 where
  pub distinct : Distinct roles
  pub all_allowed : All (λ r. allowed_role r ≡ true) roles

NotIn-append :
    (k j : Bytes) (ks : List Bytes) → NotIn ks k → bytes_eq j k ≡ false → NotIn (ks ++ j ∷ []) k
NotIn-append k j [] h ne = (λ e. absurd (cc ((bytes_eq_iff j k).1 e, ne)), tt)
NotIn-append k j (x ∷ ks) h ne = (h.0, NotIn-append k j ks h.1 ne)

Distinct-append :
    (j : Bytes) (ks : List Bytes) → Distinct ks → contains j ks ≡ false → Distinct (ks ++ j ∷ [])
unfolding contains
Distinct-append j [] h free = (tt, tt)
Distinct-append j (k ∷ ks) h free = (
  NotIn-append k j ks h.0 (ground (arith, free, bytes_eq_iff j k, bytes_eq_iff k j)),
  Distinct-append j ks h.1 (ground (arith, free)),
)

roles_loop-IsNormal :
    (u : Tables) (raw roles out : List Bytes)
    → IsNormal roles
    → roles_loop u raw roles ≡ some out
    → IsNormal out
unfolding roles_loop
roles_loop-IsNormal u [] roles out n h = let same : roles ≡ out = cc h in rw (← same) n
roles_loop-IsNormal u (r ∷ raw) roles out n h =
    let role = to_lower u (trim_space r) in
    elim (Bool-cases (is_empty_text role)) [
      | inl e ↦ roles_loop-IsNormal u raw roles out n (rw e at h)
      | inr e ↦ elim (Bool-cases (allowed_role role)) [
        | inr bad ↦ absurd (cc (rw (e, bad) at h))
        | inl fine ↦ elim (Bool-cases (contains role roles)) [
          | inl old ↦ roles_loop-IsNormal u raw roles out n (rw (e, fine, old) at h)
          | inr new ↦
              roles_loop-IsNormal u raw (roles ++ role ∷ []) out
                (record {
                  distinct = Distinct-append role roles n.distinct new;
                  all_allowed =
                      All-append (λ x. allowed_role x ≡ true) roles (role ∷ []) n.all_allowed
                        (fine, tt);
                })
                (rw (e, fine, new) at h)
        ]
      ]
    ]

-- The roles that the handler passes on are allowed and distinct, and `user` is among them.
pub normalize_admin_roles-IsNormal :
    (u : Tables) (raw out : List Bytes)
    → normalize_admin_roles u raw ≡ some out
    → IsNormal out × (contains user_role out ≡ true)
unfolding normalize_admin_roles allowed_role contains
normalize_admin_roles-IsNormal u raw out h = by_loop (roles_loop u raw []) refl h
  where
    by_loop :
        (r : Option (List Bytes))
        → roles_loop u raw [] ≡ r
        → with_user r ≡ some out
        → IsNormal out × (contains user_role out ≡ true)
    by_loop none e k = absurd (cc k)
    by_loop (some roles) e k =
        let n = roles_loop-IsNormal u raw [] roles (record { distinct = tt; all_allowed = tt }) e in
        elim (Bool-cases (contains user_role roles)) [
          | inl has ↦ let same : roles ≡ out = cc (rw has at k) in rw (← same) (n, has)
          | inr lacks ↦
              let same : user_role ∷ roles ≡ out = cc (rw lacks at k) in
              rw (← same) (
                record {
                  distinct = ((contains-NotIn user_role roles).0 lacks, n.distinct);
                  all_allowed = (refl, n.all_allowed);
                },
                refl,
              )
        ]
