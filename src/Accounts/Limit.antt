-- ===== src/Accounts/Limit.antt =====
-- `enforceEmailDailyLimit`: how many mails are asked for in a day.
use bee_ba.Common.{ℕ, suc, ◌≤◌, ◌≡◌, ◌⊎◌, sym, ap, ◌∙◌, Bool, ok}
use bee_ba.Common.Int.{ℤ, pos}
use bee_ba.Common.Text.{Bytes}
use bee_ba.Accounts.Db.{Db, UserRow, Call}
use bee_ba.Accounts.Statement.{M, ◌>>=◌, return, unless, recent_mails}
use bee_ba.Accounts.Users.{
  CreateInput, RequestInput, add_user, add_role, load_public_user_for_update,
  insert_password_change_token, insert_email_change_token,
}
use bee_ba.Accounts.Confirm.{
  create, renew_verification_token, request_email_verification, request_password_change,
  request_email_change,
}
use bee_ba.Accounts.Limited.{
  Limited, verification-Limited, password-Limited, address-Limited, Limited-around, unless-Limited,
  add_user-jobs, add_role-jobs,
}
use bee_ba.Accounts.Run.Within.{bind-ok, return-ok}
use bee_ba.Accounts.Chains.{
  write_then-ok, refuse_then-ok, query_then-ok, audit_return-ok, load_public_user_for_update-ok,
}

-- The calls that query for a mail.
pub data Request : Type 0 where
  registers : CreateInput → Request
  asks_verification : RequestInput → Request
  asks_password : Bytes → RequestInput → Request
  asks_address : Bytes → RequestInput → Request

abbrev pub limit_of : Request → ℤ
limit_of (registers input) = input.email_daily_limit
limit_of (asks_verification input) = input.email_daily_limit
limit_of (asks_password hash input) = input.email_daily_limit
limit_of (asks_address email input) = input.email_daily_limit

done : {A : Type 0} → M A → M (Unit {0})
done m = m >>= λ _. return tt

unfoldable pub request : Call → Request → M (Unit {0})
unfolding done
request c (registers input) = done (create c input)
request c (asks_verification input) = done (request_email_verification c input)
request c (asks_password hash input) = done (request_password_change c hash input)
request c (asks_address email input) = done (request_email_change c email input)

create-Limited :
    (c : Call) (input : CreateInput) (n : ℕ) (db : Db) (out : UserRow) (db' : Db)
    → input.email_daily_limit ≡ pos (suc n)
    → create c input db ≡ ok (out, db')
    → Limited c.now (suc n) db db'
unfolding create
create-Limited c input n db out db' l h =
    let (a1, d1, h1, h2) = bind-ok (add_user c _) _ db h in
    let (a2, d2, h3, h4) = bind-ok (add_role _) _ d1 h2 in
    let (a3, d3, h5, h6) = bind-ok (unless _ _) _ d2 h4 in
    Limited-around c.now (suc n) db d2 d3 db'
      (add_role-jobs _ d1 a2 d2 h3 ∙ add_user-jobs c _ db a1 d1 h1)
      (ap (λ d. d.worker_jobs) (return-ok _ d3 h6).1)
      (unless-Limited c.now (suc n) _ _ d2 a3 d3
        (λ v e. verification-Limited c _ _ _ _ _ _ _ n d2 v d3 l e) h5)

loaded-jobs :
    (id : Bytes) (db : Db) (u : UserRow) (db' : Db)
    → load_public_user_for_update id db ≡ ok (u, db')
    → db'.worker_jobs ≡ db.worker_jobs
loaded-jobs id db u db' h = ap (λ d. d.worker_jobs) (load_public_user_for_update-ok id db u db' h).1

renew-Limited :
    (c : Call) (user : UserRow) (input : RequestInput) (n : ℕ) (db : Db) (u : Unit {0}) (db' : Db)
    → input.email_daily_limit ≡ pos (suc n)
    → renew_verification_token c user input db ≡ ok (u, db')
    → Limited c.now (suc n) db db'
unfolding renew_verification_token
renew-Limited c user input n db u db' l h =
    verification-Limited c _ _ _ _ _ _ _ n _ u db' l (write_then-ok _ _ db h)

request_verification-Limited :
    (c : Call) (input : RequestInput) (n : ℕ) (db : Db) (out : UserRow × Bool) (db' : Db)
    → input.email_daily_limit ≡ pos (suc n)
    → request_email_verification c input db ≡ ok (out, db')
    → Limited c.now (suc n) db db'
unfolding request_email_verification
request_verification-Limited c input n db out db' l h =
    let (user, d1, h1, h2) = bind-ok (load_public_user_for_update _) _ db h in
    let (v, d2, h3, h4) = bind-ok (unless _ _) _ d1 h2 in
    Limited-around c.now (suc n) db d1 d2 db' (loaded-jobs _ db user d1 h1)
      (audit_return-ok _ _ _ _ _ _ _ d2 h4).1.worker_jobs
      (unless-Limited c.now (suc n) _ _ d1 v d2 (λ w e. renew-Limited c user input n d1 w d2 l e)
        h3)

request_password-Limited :
    (c : Call) (hash : Bytes) (input : RequestInput) (n : ℕ) (db : Db) (out : UserRow) (db' : Db)
    → input.email_daily_limit ≡ pos (suc n)
    → request_password_change c hash input db ≡ ok (out, db')
    → Limited c.now (suc n) db db'
unfolding request_password_change
request_password-Limited c hash input n db out db' l h =
    let (user, d1, h1, h2) = bind-ok (load_public_user_for_update _) _ db h in
    let h3 = write_then-ok _ _ d1 h2 in
    let (v, d2, h4, h5) = bind-ok (insert_password_change_token _ _ _ _ _ _ _) _ _ h3 in
    Limited-around c.now (suc n) db d1 d2 db' (loaded-jobs _ db user d1 h1)
      (audit_return-ok _ _ _ _ _ _ _ d2 h5).1.worker_jobs
      (password-Limited c user _ _ hash _ _ n _ v d2 l h4)

request_address-Limited :
    (c : Call) (email : Bytes) (input : RequestInput) (n : ℕ) (db : Db) (out : UserRow) (db' : Db)
    → input.email_daily_limit ≡ pos (suc n)
    → request_email_change c email input db ≡ ok (out, db')
    → Limited c.now (suc n) db db'
unfolding request_email_change
request_address-Limited c email input n db out db' l h =
    let (user, d1, h1, h2) = bind-ok (load_public_user_for_update _) _ db h in
    let (_, h3) = refuse_then-ok _ _ _ d1 (query_then-ok _ _ d1 h2) in
    let h4 = write_then-ok _ _ d1 h3 in
    let (v, d2, h5, h6) = bind-ok (insert_email_change_token _ _ _ _ _ _ _) _ _ h4 in
    Limited-around c.now (suc n) db d1 d2 db' (loaded-jobs _ db user d1 h1)
      (audit_return-ok _ _ _ _ _ _ _ d2 h6).1.worker_jobs
      (address-Limited c user email _ _ _ _ n _ v d2 l h5)

done_ok :
    {A : Type 0} (m : M A) (db : Db) {u : Unit {0}} {db' : Db}
    → done m db ≡ ok (u, db')
    → (a : A) × (m db ≡ ok (a, db'))
unfolding done
done_ok m db h =
    let (a, mid, h1, h2) = bind-ok m _ db h in
    (a, h1 ∙ ap (λ d. ok (a, d)) (sym (return-ok tt mid h2).1))

-- Under a daily limit above zero, a registration or a request for a confirmation that succeeds
-- either enqueues no job, or leaves at most as many mail jobs of the last 24 hours as the limit says.
pub request-recent_mails :
    (c : Call) (r : Request) (n : ℕ) (db db' : Db)
    → limit_of r ≡ pos (suc n)
    → request c r db ≡ ok (tt, db')
    → (db'.worker_jobs ≡ db.worker_jobs) ⊎ (recent_mails c.now db'.worker_jobs ≤ suc n)
unfolding request
request-recent_mails c (registers input) n db db' l h =
    let (out, e) = done_ok _ db h in create-Limited c input n db out db' l e
request-recent_mails c (asks_verification input) n db db' l h =
    let (out, e) = done_ok _ db h in request_verification-Limited c input n db out db' l e
request-recent_mails c (asks_password hash input) n db db' l h =
    let (out, e) = done_ok _ db h in request_password-Limited c hash input n db out db' l e
request-recent_mails c (asks_address email input) n db db' l h =
    let (out, e) = done_ok _ db h in request_address-Limited c email input n db out db' l e
