-- ===== src/Accounts/Run/Kept.antt =====
-- A relation that every transaction keeps, and then every run.
use bee_ba.Common.{All, ℕ, ◌≡◌, refl, Bool, List, [], ◌∷◌, Result-cases, inl, inr}
use bee_ba.Common.Int.{ℤ}
use bee_ba.Common.Text.{Bytes}
use bee_ba.Accounts.Db.{Db, UserRow, RoleRow, Call, Fact}
use bee_ba.Accounts.Statement.{M, set_users, delete_roles}
use bee_ba.Accounts.Users.{
  CreateInput, RequestInput, Client, add_user, add_role, insert_email_verification_token,
}
use bee_ba.Accounts.Confirm.{
  create, renew_verification_token, request_email_verification, confirmed_row, set_email,
  confirm_email_change,
}
use bee_ba.Accounts.Admin.{
  AdminUser, AdminUserActionInput, AdminUserRolesInput, load_admin_user, load_admin_user_for_update,
  insert_user_audit, banned_row, ban_user, unbanned_row, unban_user, check_role_change, grant_roles,
  set_user_roles,
}
use bee_ba.Accounts.Run.{
  Op, creates, verifies_email, requests_verification, updates_profile, changes_password,
  requests_password, confirms_password, requests_email, confirms_email, creates_session,
  rotates_session, revokes_session, bans, unbans, sets_roles, commit, step, run_all, Within, Prims,
  SessionCalls, KeepsTokens,
}
use bee_ba.Accounts.Run.Calls.{
  next, asks, returns, fetches, refuses, writes, update_user-Within,
  load_public_user_for_update-Within, insert_user_email_audit-Within, verify_email-Within,
  update_profile-Within, change_password-Within, request_password_change-Within,
  confirm_password_change-Within, request_email_change-Within, revoke_by_refresh_token_hash-Within,
}
use bee_ba.Accounts.Run.Within.{unless-Within}

pub record Kept (R : Db → Db → Type 0) : Type 0 where
  pub prims : Prims R
  pub by_create : (c : Call) (input : CreateInput) → Within R (create c input)
  pub by_request : (c : Call) (input : RequestInput) → Within R (request_email_verification c input)
  pub by_email :
      (c : Call) (hash : Bytes) (client : Client) → Within R (confirm_email_change c hash client)
  pub by_ban : (c : Call) (input : AdminUserActionInput) → Within R (ban_user c input)
  pub by_unban : (c : Call) (input : AdminUserActionInput) → Within R (unban_user c input)
  pub by_roles : (c : Call) (input : AdminUserRolesInput) → Within R (set_user_roles c input)

module _ (R : Db → Db → Type 0) (k : Kept R) where
  commit-Kept : {A : Type 0} (m : M A) → Within R m → (db : Db) → R db (commit m db)
  unfolding commit
  commit-Kept m h db = elim (Result-cases (m db)) [
    | inl (e, q) ↦ rw (q, commit) (k.prims.same db)
    | inr ((a, db'), q) ↦ rw (q, commit) (h db a db' q)
  ]

  pub step-Kept : (o : Op) → KeepsTokens R o → (db : Db) → R db (step o db)
  unfolding step
  step-Kept (creates c input) t = commit-Kept _ (k.by_create c input)
  step-Kept (verifies_email c hash client) t =
      commit-Kept _ (verify_email-Within R k.prims c hash client)
  step-Kept (requests_verification c input) t = commit-Kept _ (k.by_request c input)
  step-Kept (updates_profile c id name) t =
      commit-Kept _ (update_profile-Within R k.prims c id name)
  step-Kept (changes_password c id hash s) t =
      commit-Kept _ (change_password-Within R k.prims c id hash s)
  step-Kept (requests_password c hash input) t =
      commit-Kept _ (request_password_change-Within R k.prims c hash input)
  step-Kept (confirms_password c hash client) t =
      commit-Kept _ (confirm_password_change-Within R k.prims c hash client)
  step-Kept (requests_email c email input) t =
      commit-Kept _ (request_email_change-Within R k.prims c email input)
  step-Kept (confirms_email c hash client) t = commit-Kept _ (k.by_email c hash client)
  step-Kept (creates_session c input) t = commit-Kept _ t
  step-Kept (rotates_session c id hash input) t = commit-Kept _ t
  step-Kept (revokes_session c hash) t =
      commit-Kept _ (revoke_by_refresh_token_hash-Within R k.prims c hash)
  step-Kept (bans c input) t = commit-Kept _ (k.by_ban c input)
  step-Kept (unbans c input) t = commit-Kept _ (k.by_unban c input)
  step-Kept (sets_roles c input) t = commit-Kept _ (k.by_roles c input)

  -- A run of which each call that gives tokens keeps the relation.
  pub run_all-KeepsTokens :
      (ops : List Op) → All (KeepsTokens R) ops → (db : Db) → R db (run_all ops db)
  unfolding run_all
  run_all-KeepsTokens [] t db = k.prims.same db
  run_all-KeepsTokens (o ∷ ops) t db =
      k.prims.both db (step o db) (run_all ops (step o db)) (step-Kept o t.0 db)
        (run_all-KeepsTokens ops t.1 (step o db))

  -- Any run, where all calls keep it.
  pub run_all-Kept : SessionCalls R → (ops : List Op) (db : Db) → R db (run_all ops db)
  run_all-Kept s ops = run_all-KeepsTokens ops (all_keep ops)
    where
      keep_one : (o : Op) → KeepsTokens R o
      keep_one (creates_session c input) = s.new_session c input
      keep_one (rotates_session c id hash input) = s.rotation c id hash input
      keep_one (creates c input) = tt
      keep_one (verifies_email c hash client) = tt
      keep_one (requests_verification c input) = tt
      keep_one (updates_profile c id name) = tt
      keep_one (changes_password c id hash x) = tt
      keep_one (requests_password c hash input) = tt
      keep_one (confirms_password c hash client) = tt
      keep_one (requests_email c email input) = tt
      keep_one (confirms_email c hash client) = tt
      keep_one (revokes_session c hash) = tt
      keep_one (bans c input) = tt
      keep_one (unbans c input) = tt
      keep_one (sets_roles c input) = tt

      all_keep : (ops : List Op) → All (KeepsTokens R) ops
      all_keep [] = tt
      all_keep (o ∷ ops) = (keep_one o, all_keep ops)

-- The six other transactions, by their statements.
module _ (R : Db → Db → Type 0) (k : Prims R) where
  load_admin_user-Within : (id : Bytes) → Within R (load_admin_user id)
  unfolding load_admin_user
  load_admin_user-Within id = next R k (asks R k _) (λ found.
      next R k (fetches R k found) (λ row. next R k (asks R k _) (λ roles. returns R k _)))

  load_admin_user_for_update-Within : (id : Bytes) → Within R (load_admin_user_for_update id)
  unfolding load_admin_user_for_update
  load_admin_user_for_update-Within id =
      next R k (asks R k _) (λ found. next R k (fetches R k found) (λ _. load_admin_user-Within id))

  insert_user_audit-Within :
      (actor target action : Bytes) (before : AdminUser) (after : List Fact) (ip agent : Bytes)
      → Within R (insert_user_audit actor target action before after ip agent)
  unfolding insert_user_audit
  insert_user_audit-Within actor target action before after ip agent = writes R k _ (k.audit _)

  pub create-Within :
      ((c : Call) (u : UserRow) → Within R (add_user c u))
      → ((r : RoleRow) → Within R (add_role r))
      → ((c : Call) (id email name hash token : Bytes) (expires_at : ℕ) (limit : ℤ)
          → Within R (insert_email_verification_token c id email name hash token expires_at limit))
      → (c : Call) (input : CreateInput) → Within R (create c input)
  unfolding create
  create-Within user role token c input = next R k (user c _) (λ _. next R k (role _) (λ _.
      next R k (unless-Within R k.same k.both _ _ (token c _ _ _ _ _ _ _)) (λ _. returns R k _)))

  pub request_email_verification-Within :
      ((c : Call) (id email name hash token : Bytes) (expires_at : ℕ) (limit : ℤ)
        → Within R (insert_email_verification_token c id email name hash token expires_at limit))
      → (c : Call) (input : RequestInput) → Within R (request_email_verification c input)
  unfolding request_email_verification renew_verification_token
  request_email_verification-Within token c input =
      next R k (load_public_user_for_update-Within R k _) (λ user.
        next R k
          (unless-Within R k.same k.both _ _
            (next R k (writes R k _ (k.use_verification c.now _)) (λ _. token c _ _ _ _ _ _ _)))
          (λ _. next R k (insert_user_email_audit-Within R k _ _ _ _ _ _) (λ _. returns R k _)))

  pub confirm_email_change-Within :
      ((c : Call) (email id : Bytes) → Within R (set_email c email id))
      → (c : Call) (hash : Bytes) (client : Client) → Within R (confirm_email_change c hash client)
  unfolding confirm_email_change
  confirm_email_change-Within email c hash client = next R k (asks R k _) (λ found.
      next R k (fetches R k found) (λ token. next R k (asks R k _) (λ joined.
        next R k (fetches R k joined) (λ previous. next R k (asks R k _) (λ taken.
          next R k (refuses R k taken _) (λ _.
            next R k (email c token.new_email previous.id) (λ user.
              next R k (writes R k _ (k.use_email c.now _)) (λ _.
                next R k (writes R k _ (k.use_verification c.now _)) (λ _.
                  next R k (insert_user_email_audit-Within R k _ _ _ _ _ _)
                    (λ _. returns R k _))))))))))

  pub set_email-Within :
      ((now : ℕ) (email : Bytes) (p : UserRow → Bool) (db : Db)
        → R db (set_users p (confirmed_row now email) db))
      → (c : Call) (email id : Bytes) → Within R (set_email c email id)
  unfolding set_email
  set_email-Within change c email id = next R k (asks R k _) (λ found.
      next R k (fetches R k found) (λ _. next R k (refuses R k _ _) (λ _.
        next R k (asks R k _) (λ conflict.
          next R k (refuses R k conflict _)
            (λ _. update_user-Within R k _ _ id (change c.now email))))))

  pub ban_user-Within :
      ((now : ℕ) (p : UserRow → Bool) (db : Db) → R db (set_users p (banned_row now) db))
      → (c : Call) (input : AdminUserActionInput) → Within R (ban_user c input)
  unfolding ban_user
  ban_user-Within ban c input = next R k (load_admin_user_for_update-Within _) (λ before.
      next R k (refuses R k _ _) (λ _.
        next R k (update_user-Within R k _ _ _ (ban c.now)) (λ banned.
          next R k (writes R k _ (k.revoke c.now _)) (λ _.
            next R k (insert_user_audit-Within _ _ _ before _ _ _)
              (λ _. load_admin_user-Within _)))))

  pub unban_user-Within :
      ((now : ℕ) (p : UserRow → Bool) (db : Db) → R db (set_users p (unbanned_row now) db))
      → (c : Call) (input : AdminUserActionInput) → Within R (unban_user c input)
  unfolding unban_user
  unban_user-Within lift c input = next R k (load_admin_user_for_update-Within _) (λ before.
      next R k (writes R k _ (lift c.now _)) (λ _.
        next R k (insert_user_audit-Within _ _ _ before _ _ _) (λ _. load_admin_user-Within _)))

  grant_roles-Within :
      ((r : RoleRow) → Within R (add_role r))
      → (actor target : Bytes) (roles : List Bytes) → Within R (grant_roles actor target roles)
  unfolding grant_roles
  grant_roles-Within role actor target [] = returns R k tt
  grant_roles-Within role actor target (r ∷ roles) =
      next R k (refuses R k _ _)
        (λ _. next R k (role _) (λ _. grant_roles-Within role actor target roles))

  check_role_change-Within :
      (before : AdminUser) (input : AdminUserRolesInput) → Within R (check_role_change before input)
  unfolding check_role_change
  check_role_change-Within before input =
      next R k (refuses R k _ _) (λ _. next R k (asks R k _) (λ count. refuses R k _ _))

  pub set_user_roles-Within :
      ((id : Bytes) (db : Db) → R db (delete_roles id db))
      → ((r : RoleRow) → Within R (add_role r))
      → (c : Call) (input : AdminUserRolesInput) → Within R (set_user_roles c input)
  unfolding set_user_roles
  set_user_roles-Within delete role c input =
      next R k (load_admin_user_for_update-Within _) (λ before.
        next R k (check_role_change-Within before input) (λ _.
          next R k (writes R k _ (delete _)) (λ _. next R k (grant_roles-Within role _ _ _) (λ _.
            next R k (insert_user_audit-Within _ _ _ before _ _ _)
              (λ _. load_admin_user-Within _)))))

-- The statements besides those of `Prims`, where a property needs nothing of what precedes them.
pub record Free (R : Db → Db → Type 0) : Type 0 where
  pub prims : Prims R
  pub users :
      (p : UserRow → Bool) (f : UserRow → UserRow)
      → ((u : UserRow) → (f u).id ≡ u.id)
      → (db : Db) → R db (set_users p f db)
  pub new_user : (c : Call) (u : UserRow) → Within R (add_user c u)
  pub role : (r : RoleRow) → Within R (add_role r)
  pub no_roles : (id : Bytes) (db : Db) → R db (delete_roles id db)
  pub token :
      (c : Call) (id email name hash token : Bytes) (expires_at : ℕ) (limit : ℤ)
      → Within R (insert_email_verification_token c id email name hash token expires_at limit)

pub Free-Kept : (R : Db → Db → Type 0) → Free R → Kept R
Free-Kept R f = record {
  prims = f.prims;
  by_create = create-Within R f.prims f.new_user f.role f.token;
  by_request = request_email_verification-Within R f.prims f.token;
  by_email =
      confirm_email_change-Within R f.prims (
        set_email-Within R f.prims
          (λ now email p. f.users p (confirmed_row now email) (λ u. refl)));
  by_ban = ban_user-Within R f.prims (λ now p. f.users p (banned_row now) (λ u. refl));
  by_unban = unban_user-Within R f.prims (λ now p. f.users p (unbanned_row now) (λ u. refl));
  by_roles = set_user_roles-Within R f.prims f.no_roles f.role;
}
