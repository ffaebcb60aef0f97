-- ===== src/Accounts/Limited.antt =====
-- The count of recent mail jobs through the inserts of tokens.
use bee_ba.Common.{
  ℕ, suc, ◌≤◌, ◌<◌, ◌≡◌, ◌⊎◌, inl, inr, refl, ap, ◌∙◌, Bool, true, false, ok, arith,
}
use bee_ba.Common.Int.{ℤ, pos}
use bee_ba.Common.Text.{Bytes, bytes_eq_iff}
use bee_ba.Jobs.Row.{Payload, email_queue}
use bee_ba.Accounts.Db.{Db, AccountError, UserRow, RoleRow, Call}
use bee_ba.Accounts.Statement.{
  M, ◌>>=◌, ◌>>◌, query, refuse_if, unless, write, insert_email_job, add_email_job, recent_mails,
  enforce_email_daily_limit,
}
use bee_ba.Accounts.Users.{
  add_user, add_role, insert_email_verification_token, insert_password_change_token,
  insert_email_change_token,
}
use bee_ba.Accounts.Run.Within.{bind-ok, write-ok, refuse_if-ok}
use bee_ba.Accounts.Chains.{write_then-ok, refuse_then-ok, query_then-ok}

-- Either no job is new, or the mail jobs of the last day are at most the limit.
abbrev pub Limited : ℕ → ℕ → Db → Db → Type 0
Limited now n a b = (b.worker_jobs ≡ a.worker_jobs) ⊎ (recent_mails now b.worker_jobs ≤ n)

enforce-ok :
    (now : ℕ) (limit : ℤ) (n : ℕ) (db : Db) (u : Unit {0}) (db' : Db)
    → limit ≡ pos (suc n)
    → enforce_email_daily_limit now limit db ≡ ok (u, db')
    → (recent_mails now db.worker_jobs < suc n) × (db' ≡ db)
unfolding enforce_email_daily_limit
enforce-ok now limit n db u db' l h =
    let (small, same) = refuse_if-ok _ _ db (query_then-ok _ _ db h) in
    let few = rw l at small in (ground (arith, few), same)

recent_mails-insert :
    (now id : ℕ) (job_type : Bytes) (payload : Payload) (db : Db)
    → recent_mails now (insert_email_job now id job_type payload db).worker_jobs
      ≡ suc (recent_mails now db.worker_jobs)
unfolding recent_mails
recent_mails-insert now id job_type payload db =
    ground (arith, (bytes_eq_iff email_queue email_queue).1 refl)

-- The end of the insert of a token, which leaves the jobs alone up to the new one.
mail-Limited :
    (n : ℕ) (test : Db → Bool) (e : AccountError) (f : Db → Db) (now id : ℕ) (job_type : Bytes)
    (payload : Payload) (db : Db) (u : Unit {0}) (db' : Db)
    → ((d : Db) → (f d).worker_jobs ≡ d.worker_jobs)
    → recent_mails now db.worker_jobs < suc n
    → (query test >>= λ taken.
          refuse_if taken e >> (write f >> add_email_job now id job_type payload))
        db
      ≡ ok (u, db')
    → Limited now (suc n) db db'
unfolding add_email_job
mail-Limited n test e f now id job_type payload db u db' same few h =
    let (free, h1) = refuse_then-ok _ _ _ db (query_then-ok _ _ db h) in
    let h2 = write_then-ok _ _ db h1 in
    let (new, h3) = refuse_then-ok _ _ _ _ (query_then-ok _ _ _ h2) in
    let db_is = write-ok _ _ h3 in
    let count =
      ap (λ d. recent_mails now d.worker_jobs) db_is
      ∙ recent_mails-insert now id job_type payload (f db) in
    let before = ap (recent_mails now) (same db) in inr (omega (arith, count, before, few))

pub verification-Limited :
    (c : Call) (id email name hash token : Bytes) (at : ℕ) (limit : ℤ) (n : ℕ) (db : Db)
    (u : Unit {0}) (db' : Db)
    → limit ≡ pos (suc n)
    → insert_email_verification_token c id email name hash token at limit db ≡ ok (u, db')
    → Limited c.now (suc n) db db'
unfolding insert_email_verification_token
verification-Limited c id email name hash token at limit n db u db' l h =
    let (_, h1) = refuse_then-ok _ _ _ db h in
    let (v, d1, h2, h3) = bind-ok (enforce_email_daily_limit _ _) _ db h1 in
    let (few, same) = enforce-ok c.now _ n db v d1 l h2 in
    let (_, h4) = refuse_then-ok _ _ _ d1 h3 in
    mail-Limited n _ _ _ _ _ _ _ db u db' (λ d. refl) few (rw same at h4)

pub password-Limited :
    (c : Call) (user : UserRow) (hash token secret : Bytes) (at : ℕ) (limit : ℤ) (n : ℕ) (db : Db)
    (u : Unit {0}) (db' : Db)
    → limit ≡ pos (suc n)
    → insert_password_change_token c user hash token secret at limit db ≡ ok (u, db')
    → Limited c.now (suc n) db db'
unfolding insert_password_change_token
password-Limited c user hash token secret at limit n db u db' l h =
    let (_, h0) = refuse_then-ok _ _ _ db h in
    let (_, h1) = refuse_then-ok _ _ _ db h0 in
    let (v, d1, h2, h3) = bind-ok (enforce_email_daily_limit _ _) _ db h1 in
    let (few, same) = enforce-ok c.now _ n db v d1 l h2 in
    let (_, h4) = refuse_then-ok _ _ _ d1 h3 in
    mail-Limited n _ _ _ _ _ _ _ db u db' (λ d. refl) few (rw same at h4)

pub address-Limited :
    (c : Call) (user : UserRow) (email hash token : Bytes) (at : ℕ) (limit : ℤ) (n : ℕ) (db : Db)
    (u : Unit {0}) (db' : Db)
    → limit ≡ pos (suc n)
    → insert_email_change_token c user email hash token at limit db ≡ ok (u, db')
    → Limited c.now (suc n) db db'
unfolding insert_email_change_token
address-Limited c user email hash token at limit n db u db' l h =
    let (_, h1) = refuse_then-ok _ _ _ db h in
    let (v, d1, h2, h3) = bind-ok (enforce_email_daily_limit _ _) _ db h1 in
    let (few, same) = enforce-ok c.now _ n db v d1 l h2 in
    let (_, h4) = refuse_then-ok _ _ _ d1 h3 in
    mail-Limited n _ _ _ _ _ _ _ db u db' (λ d. refl) few (rw same at h4)

-- Steps before and after that leave the jobs alone.
pub Limited-around :
    (now n : ℕ) (a a' b b' : Db)
    → a'.worker_jobs ≡ a.worker_jobs
    → b'.worker_jobs ≡ b.worker_jobs
    → Limited now n a' b
    → Limited now n a b'
Limited-around now n a a' b b' p q (inl e) = inl (q ∙ e ∙ p)
Limited-around now n a a' b b' p q (inr le) = inr (rw q le)

pub unless-Limited :
    (now n : ℕ) (t : Bool) (m : M (Unit {0})) (db : Db) (u : Unit {0}) (db' : Db)
    → ((v : Unit {0}) → m db ≡ ok (v, db') → Limited now n db db')
    → unless t m db ≡ ok (u, db')
    → Limited now n db db'
unfolding unless
unless-Limited now n true m db u db' k e =
    let same : db' ≡ db = cc e in inl (ap (λ d. d.worker_jobs) same)
unless-Limited now n false m db u db' k e = k u e

pub add_user-jobs :
    (c : Call) (u : UserRow) (db : Db) (v : Unit {0}) (db' : Db)
    → add_user c u db ≡ ok (v, db')
    → db'.worker_jobs ≡ db.worker_jobs
unfolding add_user
add_user-jobs c u db v db' h =
    let (_, h1) = refuse_then-ok _ _ _ db h in
    let (_, h2) = refuse_then-ok _ _ _ db (query_then-ok _ _ db h1) in
    ap (λ d. d.worker_jobs) (write-ok _ db h2)

pub add_role-jobs :
    (r : RoleRow) (db : Db) (v : Unit {0}) (db' : Db)
    → add_role r db ≡ ok (v, db')
    → db'.worker_jobs ≡ db.worker_jobs
unfolding add_role
add_role-jobs r db v db' h =
    let (_, h2) = refuse_then-ok _ _ _ db (query_then-ok _ _ db h) in
    ap (λ d. d.worker_jobs) (write-ok _ db h2)
