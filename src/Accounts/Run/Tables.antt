-- ===== src/Accounts/Run/Tables.antt =====
-- From what single statements keep to what runs keep: an insert is kept where its unique columns
-- are new, an update where it leaves the columns alone that identify the row.
use bee_ba.Common.{ℕ, ◌≡◌, refl, Bool, false, ◌&&◌, ◌||◌, List, [], ◌∷◌, ok, arith, any_where}
use bee_ba.Common.Int.{ℤ}
use bee_ba.Common.Text.{Bytes, bytes_eq}
use bee_ba.Jobs.Row.{Payload}
use bee_ba.Accounts.Db.{
  Db, AccountError, UserRow, RoleRow, Session, VerificationToken, PasswordToken, EmailToken,
  AuditRow, Call,
}
use bee_ba.Accounts.Statement.{
  M, ◌>>=◌, ◌>>◌, query, refuse_if, write, set_users, set_sessions, use_verification_tokens,
  use_password_tokens, use_email_tokens, revoke_sessions, insert_user, insert_role, delete_roles,
  insert_session, insert_verification_token, insert_password_token, insert_email_token,
  insert_audit, insert_email_job, add_email_job, enforce_email_daily_limit,
}
use bee_ba.Accounts.Users.{
  clashes, add_user, add_role, insert_email_verification_token, insert_password_change_token,
  insert_email_change_token,
}
use bee_ba.Accounts.Sessions.{SessionInput, create_session, rotate_session}
use bee_ba.Accounts.Run.{Within, Prims, SessionCalls}
use bee_ba.Accounts.Run.Within.{
  bind-ok, query-ok, refuse_if-ok, write-ok, bind-Within, query-Within, refuse_if-Within,
  write-Within,
}
use bee_ba.Accounts.Run.Kept.{Free}

-- What the statements of every call need.
pub record Base (R : Db → Db → Type 0) : Type 0 where
  pub same : (db : Db) → R db db
  pub both : (a b c : Db) → R a b → R b c → R a c
  pub job :
      (now id : ℕ) (job_type : Bytes) (payload : Payload) (db : Db)
      → R db (insert_email_job now id job_type payload db)

pub record KeptTables (R : Db → Db → Type 0) : Type 0 where
  pub same : (db : Db) → R db db
  pub both : (a b c : Db) → R a b → R b c → R a c
  pub users :
      (p : UserRow → Bool) (f : UserRow → UserRow)
      → ((u : UserRow) → (f u).id ≡ u.id)
      → (db : Db) → R db (set_users p f db)
  pub new_user :
      (u : UserRow) (db : Db)
      → any_where (λ x. bytes_eq x.id u.id) db.users ≡ false
      → R db (insert_user u db)
  pub new_role :
      (r : RoleRow) (db : Db)
      → any_where (λ x. bytes_eq x.user_id r.user_id && bytes_eq x.role r.role) db.roles ≡ false
      → R db (insert_role r db)
  pub no_roles : (id : Bytes) (db : Db) → R db (delete_roles id db)
  pub sessions :
      (p : Session → Bool) (f : Session → Session)
      → ((s : Session) → (f s).id ≡ s.id)
      → ((s : Session) → (f s).revoked_at ≡ s.revoked_at)
      → (db : Db) → R db (set_sessions p f db)
  pub revoke : (now : ℕ) (p : Session → Bool) (db : Db) → R db (revoke_sessions now p db)
  pub new_session :
      (s : Session) (db : Db)
      → any_where (λ x. bytes_eq x.id s.id) db.sessions ≡ false
      → R db (insert_session s db)
  pub use_verification :
      (now : ℕ) (p : VerificationToken → Bool) (db : Db) → R db (use_verification_tokens now p db)
  pub use_password :
      (now : ℕ) (p : PasswordToken → Bool) (db : Db) → R db (use_password_tokens now p db)
  pub use_email : (now : ℕ) (p : EmailToken → Bool) (db : Db) → R db (use_email_tokens now p db)
  pub new_verification :
      (t : VerificationToken) (db : Db)
      → any_where (λ x. bytes_eq x.token_hash t.token_hash) db.verification_tokens ≡ false
      → R db (insert_verification_token t db)
  pub new_password :
      (t : PasswordToken) (db : Db)
      → any_where (λ x. bytes_eq x.token_hash t.token_hash) db.password_tokens ≡ false
      → R db (insert_password_token t db)
  pub new_email :
      (t : EmailToken) (db : Db)
      → any_where (λ x. bytes_eq x.token_hash t.token_hash) db.email_tokens ≡ false
      → R db (insert_email_token t db)
  pub audit : (a : AuditRow) (db : Db) → R db (insert_audit a db)
  pub job :
      (now id : ℕ) (job_type : Bytes) (payload : Payload) (db : Db)
      → R db (insert_email_job now id job_type payload db)

or-false : (a b : Bool) → (a || b) ≡ false → a ≡ false
or-false a b h = ground arith

-- A row that conflicts with none has a new id.
pub clashes-id :
    (c : Call) (u : UserRow) (users : List UserRow)
    → any_where (clashes c u) users ≡ false
    → any_where (λ x. bytes_eq x.id u.id) users ≡ false
unfolding clashes
clashes-id c u [] h = refl
clashes-id c u (x ∷ xs) h = ground (arith, clashes-id c u xs)

module _ (R : Db → Db → Type 0) (t : Base R) where
  next :
      {A B : Type 0} {m : M A} {f : A → M B}
      → Within R m
      → ((a : A) → Within R (f a))
      → Within R (m >>= f)
  next = bind-Within R t.same t.both

  asks : {A : Type 0} (f : Db → A) → Within R (query f)
  asks = query-Within R t.same t.both

  refuses : (b : Bool) (e : AccountError) → Within R (refuse_if b e)
  refuses = refuse_if-Within R t.same t.both

  -- A statement after a test of the tables: the test's outcome is known.
  pub tested :
      {B : Type 0} (test : Db → Bool) (e : AccountError) (m : M B)
      → ((db : Db) → test db ≡ false → (b : B) (db' : Db) → m db ≡ ok (b, db') → R db db')
      → Within R (query test >>= λ taken. refuse_if taken e >> m)
  tested test e m k db b db' h =
      let (taken, d1, h1, h2) = bind-ok (query test) _ db h in
      let (u, d2, h3, h4) = bind-ok (refuse_if taken e) _ d1 h2 in
      let (taken_is, d1_is) = query-ok test db h1 in
      let (free, d2_is) = refuse_if-ok taken e d1 h3 in
      let free_db : test db ≡ false = cc in
      let h5 : m db ≡ ok (b, db') = rw (d2_is, d1_is) at h4 in k db free_db b db' h5

  pub tested_insert :
      (test : Db → Bool) (e : AccountError) (f : Db → Db)
      → ((db : Db) → test db ≡ false → R db (f db))
      → Within R (query test >>= λ taken. refuse_if taken e >> write f)
  tested_insert test e f k =
      tested test e (write f) (λ db free b db' h. rw (write-ok f db h) (k db free))

  pub add_email_job-Within :
      (now id : ℕ) (job_type : Bytes) (payload : Payload)
      → Within R (add_email_job now id job_type payload)
  unfolding add_email_job
  add_email_job-Within now id job_type payload =
      tested_insert _ _ _ (λ db _. t.job now id job_type payload db)

  -- The insert of a token and of the job that mails it.
  pub tested_token :
      (test : Db → Bool) (e : AccountError) (f : Db → Db) (now id : ℕ) (job_type : Bytes)
      (payload : Payload)
      → ((db : Db) → test db ≡ false → R db (f db))
      → Within R (
          query test >>= λ taken.
          refuse_if taken e >> (write f >> add_email_job now id job_type payload))
  tested_token test e f now id job_type payload k = tested test e _ (λ db free b db' h.
      let (u, mid, h1, h2) = bind-ok (write f) _ db h in
      t.both db mid db' (rw (write-ok f db h1) (k db free))
        (add_email_job-Within now id job_type payload mid b db' h2))

  pub enforce_email_daily_limit-Within :
      (now : ℕ) (limit : ℤ) → Within R (enforce_email_daily_limit now limit)
  unfolding enforce_email_daily_limit
  enforce_email_daily_limit-Within now limit = next (asks _) (λ count. refuses _ _)

  pub add_user-Within :
      ((u : UserRow) (db : Db)
        → any_where (λ x. bytes_eq x.id u.id) db.users ≡ false
        → R db (insert_user u db))
      → (c : Call) (u : UserRow) → Within R (add_user c u)
  unfolding add_user
  add_user-Within fresh c u =
      next (refuses _ _)
        (λ _. tested_insert _ _ _ (λ db free. fresh u db (clashes-id c u db.users free)))

  pub add_role-Within :
      ((r : RoleRow) (db : Db)
        → any_where (λ x. bytes_eq x.user_id r.user_id && bytes_eq x.role r.role) db.roles ≡ false
        → R db (insert_role r db))
      → (r : RoleRow) → Within R (add_role r)
  unfolding add_role
  add_role-Within fresh r = tested_insert _ _ _ (λ db free. fresh r db free)

  pub insert_email_verification_token-Within :
      (c : Call) (id email name hash token : Bytes) (expires_at : ℕ) (limit : ℤ)
      → ((x : VerificationToken) (db : Db)
          → x.user_id ≡ id
          → x.email ≡ email
          → any_where (λ y. bytes_eq y.token_hash x.token_hash) db.verification_tokens ≡ false
          → R db (insert_verification_token x db))
      → Within R (insert_email_verification_token c id email name hash token expires_at limit)
  unfolding insert_email_verification_token
  insert_email_verification_token-Within c id email name hash token expires_at limit fresh =
      next (refuses _ _) (λ _. next (enforce_email_daily_limit-Within _ _) (λ _.
        next (refuses _ _)
          (λ _. tested_token _ _ _ _ _ _ _ (λ db free. fresh _ db refl refl (or-false _ _ free)))))

  pub insert_password_change_token-Within :
      ((t : PasswordToken) (db : Db)
        → any_where (λ x. bytes_eq x.token_hash t.token_hash) db.password_tokens ≡ false
        → R db (insert_password_token t db))
      → (c : Call) (u : UserRow) (hash token secret : Bytes) (expires_at : ℕ) (limit : ℤ)
      → Within R (insert_password_change_token c u hash token secret expires_at limit)
  unfolding insert_password_change_token
  insert_password_change_token-Within fresh c u hash token secret expires_at limit =
      next (refuses _ _) (λ _. next (refuses _ _) (λ _.
        next (enforce_email_daily_limit-Within _ _) (λ _.
          next (refuses _ _)
            (λ _. tested_token _ _ _ _ _ _ _ (λ db free. fresh _ db (or-false _ _ free))))))

  pub insert_email_change_token-Within :
      ((t : EmailToken) (db : Db)
        → any_where (λ x. bytes_eq x.token_hash t.token_hash) db.email_tokens ≡ false
        → R db (insert_email_token t db))
      → (c : Call) (u : UserRow) (email hash token : Bytes) (expires_at : ℕ) (limit : ℤ)
      → Within R (insert_email_change_token c u email hash token expires_at limit)
  unfolding insert_email_change_token
  insert_email_change_token-Within fresh c u email hash token expires_at limit =
      next (refuses _ _) (λ _. next (enforce_email_daily_limit-Within _ _) (λ _.
        next (refuses _ _)
          (λ _. tested_token _ _ _ _ _ _ _ (λ db free. fresh _ db (or-false _ _ free)))))

  -- An insert after a second test, of which nothing is needed.
  insert_at :
      (test : Db → Bool) (e : AccountError) (f : Db → Db) (db : Db)
      → R db (f db)
      → (b : Unit {0}) (db' : Db)
      → (query test >>= λ taken. refuse_if taken e >> write f) db ≡ ok (b, db')
      → R db db'
  insert_at test e f db r b db' h =
      let (taken, d1, h1, h2) = bind-ok (query test) _ db h in
      let (u, d2, h3, h4) = bind-ok (refuse_if taken e) _ d1 h2 in
      let d1_is = (query-ok test db h1).1 in
      let d2_is = (refuse_if-ok taken e d1 h3).1 in rw (write-ok f d2 h4, d2_is, d1_is) r

  pub create_session-Within :
      ((s : Session) (db : Db)
        → any_where (λ x. bytes_eq x.id s.id) db.sessions ≡ false
        → R db (insert_session s db))
      → (c : Call) (input : SessionInput) → Within R (create_session c input)
  unfolding create_session
  create_session-Within fresh c input =
      next (refuses _ _)
        (λ _. tested _ _ _ (λ db free b db' h. insert_at _ _ _ db (fresh _ db free) b db' h))

  pub rotate_session-Within :
      ((p : Session → Bool) (f : Session → Session)
        → ((s : Session) → (f s).id ≡ s.id)
        → ((s : Session) → (f s).revoked_at ≡ s.revoked_at)
        → (db : Db) → R db (set_sessions p f db))
      → (c : Call) (id hash : Bytes) (input : SessionInput)
      → Within R (rotate_session c id hash input)
  unfolding rotate_session
  rotate_session-Within keeps c id hash input = next (asks _) (λ some_row. next (refuses _ _) (λ _.
      next (refuses _ _) (λ _. next (asks _) (λ taken.
        next (refuses _ _)
          (λ _. write-Within R t.same t.both _ (keeps _ _ (λ s. refl) (λ s. refl)))))))

module _ (R : Db → Db → Type 0) (t : KeptTables R) where
  KeptTables-Base : Base R
  KeptTables-Base = record { same = t.same; both = t.both; job = t.job }

  pub KeptTables-Prims : Prims R
  KeptTables-Prims = record {
    same = t.same;
    both = t.both;
    minor = λ p f h. t.users p f h.same_id;
    use_verification = t.use_verification;
    use_password = t.use_password;
    use_email = t.use_email;
    revoke = t.revoke;
    audit = t.audit;
    password_token = insert_password_change_token-Within R KeptTables-Base t.new_password;
    email_token = insert_email_change_token-Within R KeptTables-Base t.new_email;
  }

  pub KeptTables-SessionCalls : SessionCalls R
  KeptTables-SessionCalls = record {
    new_session = create_session-Within R KeptTables-Base t.new_session;
    rotation = rotate_session-Within R KeptTables-Base t.sessions;
  }

  pub KeptTables-Free : Free R
  KeptTables-Free = record {
    prims = KeptTables-Prims;
    users = t.users;
    new_user = add_user-Within R KeptTables-Base t.new_user;
    role = add_role-Within R KeptTables-Base t.new_role;
    no_roles = t.no_roles;
    token = λ c id email name hash token expires_at limit.
        insert_email_verification_token-Within R KeptTables-Base c id email name hash token
          expires_at limit (λ x db _ _ free. t.new_verification x db free);
  }
