-- ===== src/Accounts/Run/Calls.antt =====
-- Each transaction keeps what its statements keep.
use bee_ba.Common.{refl, Bool, Option, List}
use bee_ba.Common.Text.{Bytes}
use bee_ba.Accounts.Db.{Db, AccountError, UserRow, Fact, Call, is_active}
use bee_ba.Accounts.Statement.{M, ◌>>=◌, return, query, refuse_if, one_row, write, set_users}
use bee_ba.Accounts.Users.{
  RequestInput, Client, update_user, load_public_user_for_update, insert_user_email_audit,
}
use bee_ba.Accounts.Confirm.{
  verify_email, update_profile, change_password, request_password_change, confirm_password_change,
  request_email_change,
}
use bee_ba.Accounts.Sessions.{revoke_by_refresh_token_hash}
use bee_ba.Accounts.Run.{Within, IsMinor, Prims}
use bee_ba.Accounts.Run.Within.{
  bind-Within, query-Within, return-Within, one_row-Within, refuse_if-Within, write-Within,
}

module _ (R : Db → Db → Type 0) (k : Prims R) where
  pub next :
      {A B : Type 0} {m : M A} {f : A → M B}
      → Within R m
      → ((a : A) → Within R (f a))
      → Within R (m >>= f)
  next = bind-Within R k.same k.both

  pub asks : {A : Type 0} (f : Db → A) → Within R (query f)
  asks = query-Within R k.same k.both

  pub returns : {A : Type 0} (x : A) → Within R (return x)
  returns = return-Within R k.same k.both

  pub fetches : {A : Type 0} (o : Option A) → Within R (one_row o)
  fetches = one_row-Within R k.same k.both

  pub refuses : (b : Bool) (e : AccountError) → Within R (refuse_if b e)
  refuses = refuse_if-Within R k.same k.both

  pub writes : (f : Db → Db) → ((db : Db) → R db (f db)) → Within R (write f)
  writes = write-Within R k.same k.both

  -- A read that wants a row.
  pub reads : {A : Type 0} (f : Db → Option A) → Within R (query f >>= one_row)
  reads f = next (asks f) fetches

  pub update_user-Within :
      (p : UserRow → Bool) (f : UserRow → UserRow) (id : Bytes)
      → ((q : UserRow → Bool) (db : Db) → R db (set_users q f db))
      → Within R (update_user p f id)
  unfolding update_user
  update_user-Within p f id h =
      next (asks _) (λ found. next (fetches found) (λ u. next (writes _ (h _)) (λ _. returns _)))

  pub load_public_user_for_update-Within : (id : Bytes) → Within R (load_public_user_for_update id)
  unfolding load_public_user_for_update
  load_public_user_for_update-Within id = next (asks _) fetches

  pub insert_user_email_audit-Within :
      (id action : Bytes) (before after : List Fact) (ip agent : Bytes)
      → Within R (insert_user_email_audit id action before after ip agent)
  unfolding insert_user_email_audit
  insert_user_email_audit-Within id action before after ip agent = writes _ (k.audit _)

  minor-Within :
      (p : UserRow → Bool) (f : UserRow → UserRow) (id : Bytes)
      → IsMinor f
      → Within R (update_user p f id)
  minor-Within p f id h = update_user-Within p f id (λ q. k.minor q f h)

  pub verify_email-Within :
      (c : Call) (hash : Bytes) (client : Client) → Within R (verify_email c hash client)
  unfolding verify_email
  verify_email-Within c hash client = next (asks _) (λ found. next (fetches found) (λ token.
      next (asks _) (λ joined. next (fetches joined) (λ user.
        next
          (minor-Within _ _ _ (record {
            same_id = λ u. refl;
            same_email = λ u. refl;
            same_banned = λ u. refl;
            same_deleted = λ u. refl;
          }))
          (λ updated.
            next (writes _ (k.use_verification c.now _))
              (λ _. next (insert_user_email_audit-Within _ _ _ _ _ _) (λ _. returns _)))))))

  pub update_profile-Within :
      (c : Call) (id : Bytes) (name : Option Bytes) → Within R (update_profile c id name)
  unfolding update_profile
  update_profile-Within c id name = minor-Within _ _ _ (record {
    same_id = λ u. refl;
    same_email = λ u. refl;
    same_banned = λ u. refl;
    same_deleted = λ u. refl;
  })

  -- A new password, with what follows it.
  new_password-Within :
      {B : Type 0} (c : Call) (hash id : Bytes) {f : UserRow → M B}
      → ((u : UserRow) → Within R (f u))
      → Within R (
          update_user is_active (λ u. record u { password_hash = hash; updated_at = c.now }) id
          >>= f)
  new_password-Within c hash id rest =
      next
        (minor-Within _ _ _ (record {
          same_id = λ u. refl;
          same_email = λ u. refl;
          same_banned = λ u. refl;
          same_deleted = λ u. refl;
        }))
        rest

  pub change_password-Within :
      (c : Call) (id hash session : Bytes) → Within R (change_password c id hash session)
  unfolding change_password
  change_password-Within c id hash session =
      new_password-Within c hash id (λ _. writes _ (k.revoke c.now _))

  pub request_password_change-Within :
      (c : Call) (hash : Bytes) (input : RequestInput)
      → Within R (request_password_change c hash input)
  unfolding request_password_change
  request_password_change-Within c hash input = next (load_public_user_for_update-Within _) (λ user.
      next (writes _ (k.use_password c.now _)) (λ _.
        next (k.password_token c user _ _ hash _ _)
          (λ _. next (insert_user_email_audit-Within _ _ _ _ _ _) (λ _. returns user))))

  pub confirm_password_change-Within :
      (c : Call) (hash : Bytes) (client : Client) → Within R (confirm_password_change c hash client)
  unfolding confirm_password_change
  confirm_password_change-Within c hash client = next (asks _) (λ found.
      next (fetches found) (λ token. next (asks _) (λ joined. next (fetches joined) (λ user.
        new_password-Within c token.password_hash user.id (λ _.
          next (writes _ (k.use_password c.now _)) (λ _.
            next (writes _ (k.revoke c.now _))
              (λ _. next (insert_user_email_audit-Within _ _ _ _ _ _) (λ _. returns user))))))))

  pub request_email_change-Within :
      (c : Call) (email : Bytes) (input : RequestInput)
      → Within R (request_email_change c email input)
  unfolding request_email_change
  request_email_change-Within c email input = next (load_public_user_for_update-Within _) (λ user.
      next (asks _) (λ taken. next (refuses taken _) (λ _.
        next (writes _ (k.use_email c.now _)) (λ _.
          next (k.email_token c user email _ _ _ _)
            (λ _. next (insert_user_email_audit-Within _ _ _ _ _ _) (λ _. returns user))))))

  pub revoke_by_refresh_token_hash-Within :
      (c : Call) (hash : Bytes) → Within R (revoke_by_refresh_token_hash c hash)
  unfolding revoke_by_refresh_token_hash
  revoke_by_refresh_token_hash-Within c hash =
      next (asks _) (λ some_row. next (refuses _ _) (λ _. writes _ (k.revoke c.now _)))
