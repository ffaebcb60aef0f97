-- ===== src/Accounts/Chains.antt =====
-- Chains of statements that succeed: what each statement of users.go has found and written.
use bee_ba.Common.{◌≡◌, sym, ap, ◌∙◌, Bool, false, ◌&&◌, Option, some, List, ok, find_where}
use bee_ba.Common.Text.{Bytes, bytes_eq}
use bee_ba.Accounts.Db.{Db, UserRow, Fact}
use bee_ba.Accounts.Statement.{M, ◌>>=◌, return, query, one_row, write, refuse_if, set_users}
use bee_ba.Accounts.Users.{
  load_public_user_for_update, update_user, holder, insert_user_email_audit,
}
use bee_ba.Accounts.Run.Within.{bind-ok, query-ok, write-ok, return-ok, one_row-ok, refuse_if-ok}

-- A read that wants a row, in a chain.
pub read-ok :
    {A B : Type 0} (f : Db → Option A) (next : A → M B) (db : Db) {b : B} {db' : Db}
    → (query f >>= λ found. one_row found >>= next) db ≡ ok (b, db')
    → (a : A) × (f db ≡ some a) × (next a db ≡ ok (b, db'))
read-ok f next db {b} {db'} h =
    let (found, d1, h1, h2) = bind-ok (query f) _ db h in
    let (a, d2, h3, h4) = bind-ok (one_row found) next d1 h2 in
    let (found_is, d1_is) = query-ok f db h1 in
    let (some_is, d2_is) = one_row-ok found d1 h3 in
    let e : f db ≡ some a = cc in (a, e, rw (d2_is, d1_is) at h4)

pub write_then-ok :
    {B : Type 0} (f : Db → Db) (next : Unit {0} → M B) (db : Db) {b : B} {db' : Db}
    → (write f >>= next) db ≡ ok (b, db')
    → next tt (f db) ≡ ok (b, db')
write_then-ok f next db h =
    let (u, d1, h1, h2) = bind-ok (write f) next db h in rw (write-ok f db h1) at h2

pub refuse_then-ok :
    {B : Type 0} (t : Bool) (e : _) (next : Unit {0} → M B) (db : Db) {b : B} {db' : Db}
    → (refuse_if t e >>= next) db ≡ ok (b, db')
    → (t ≡ false) × (next tt db ≡ ok (b, db'))
refuse_then-ok t e next db h =
    let (u, d1, h1, h2) = bind-ok (refuse_if t e) next db h in
    let (free, d1_is) = refuse_if-ok t e db h1 in (free, rw d1_is at h2)

pub query_then-ok :
    {A B : Type 0} (f : Db → A) (next : A → M B) (db : Db) {b : B} {db' : Db}
    → (query f >>= next) db ≡ ok (b, db')
    → next (f db) db ≡ ok (b, db')
query_then-ok f next db h =
    let (a, d1, h1, h2) = bind-ok (query f) next db h in
    let (a_is, d1_is) = query-ok f db h1 in rw (a_is, d1_is) at h2

pub load_public_user_for_update-ok :
    (id : Bytes) (db : Db) (u : UserRow) (db' : Db)
    → load_public_user_for_update id db ≡ ok (u, db')
    → (holder id db ≡ some u) × (db' ≡ db)
unfolding load_public_user_for_update holder
load_public_user_for_update-ok id db u db' h =
    let (found, d1, h1, h2) = bind-ok (query _) _ db h in
    let (found_is, d1_is) = query-ok _ db h1 in
    let (some_is, d2_is) = one_row-ok found d1 h2 in (sym found_is ∙ some_is, d2_is ∙ d1_is)

-- An update of a user that found its row.
pub record UserUpdate (p : UserRow → Bool) (f : UserRow → UserRow) (id : Bytes) (db : Db)
    (u : UserRow) (db' : Db) : Type 0 where
  pub old : UserRow
  pub found : find_where (λ x. bytes_eq x.id id && p x) db.users ≡ some old
  pub new_is : u ≡ f old
  pub db_is : db' ≡ set_users (λ x. bytes_eq x.id id && p x) f db

pub update_user-ok :
    (p : UserRow → Bool) (f : UserRow → UserRow) (id : Bytes) (db : Db) (u : UserRow) (db' : Db)
    → update_user p f id db ≡ ok (u, db')
    → UserUpdate p f id db u db'
unfolding update_user
update_user-ok p f id db u db' h =
    let (old, found, h1) = read-ok _ _ db h in
    let h2 = write_then-ok _ _ db h1 in
    let (u_is, db_is) = return-ok _ _ h2 in
    record { old = old; found = found; new_is = u_is; db_is = db_is }

-- Two states that differ in the tables of roles and of logs at most.
pub record SameRows (a b : Db) : Type 0 where
  pub users : b.users ≡ a.users
  pub sessions : b.sessions ≡ a.sessions
  pub verification_tokens : b.verification_tokens ≡ a.verification_tokens
  pub password_tokens : b.password_tokens ≡ a.password_tokens
  pub email_tokens : b.email_tokens ≡ a.email_tokens
  pub worker_jobs : b.worker_jobs ≡ a.worker_jobs

-- The audit row and the answer at the end of a confirmation.
pub audit_return-ok :
    {A : Type 0} (id action : Bytes) (before after : List Fact) (ip agent : Bytes) (x : A) (db : Db)
    {a : A} {db' : Db}
    → (insert_user_email_audit id action before after ip agent >>= λ _. return x) db ≡ ok (a, db')
    → (a ≡ x) × SameRows db db'
unfolding insert_user_email_audit
audit_return-ok id action before after ip agent x db h =
    let h1 = write_then-ok _ _ db h in
    let (a_is, db_is) = return-ok x _ h1 in
    (
      a_is,
      record {
        users = ap (λ d. d.users) db_is;
        sessions = ap (λ d. d.sessions) db_is;
        verification_tokens = ap (λ d. d.verification_tokens) db_is;
        password_tokens = ap (λ d. d.password_tokens) db_is;
        email_tokens = ap (λ d. d.email_tokens) db_is;
        worker_jobs = ap (λ d. d.worker_jobs) db_is;
      },
    )
