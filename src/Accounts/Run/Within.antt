-- ===== src/Accounts/Run/Within.antt =====
-- The rules by which a relation on the tables passes from the statements to the transactions.
use bee_ba.Common.{◌≡◌, refl, Bool, true, false, Option, none, some, ok, Result-cases, inl, inr}
use bee_ba.Accounts.Db.{Db, AccountError}
use bee_ba.Accounts.Statement.{M, ◌>>=◌, return, query, refuse_if, unless, one_row, write}
use bee_ba.Accounts.Run.{Within}

-- A chain of two statements that succeeds: both do.
pub bind-ok :
    {A B : Type 0} (m : M A) (f : A → M B) (db : Db) {b : B} {db' : Db}
    → (m >>= f) db ≡ ok (b, db')
    → (a : A) × (mid : Db) × (m db ≡ ok (a, mid)) × (f a mid ≡ ok (b, db'))
unfolding ◌>>=◌
bind-ok m f db h = elim (Result-cases (m db)) [
  | inl (e, q) ↦ absurd (cc (rw q at h))
  | inr ((a, mid), q) ↦ (a, mid, q, rw q at h)
]

pub query-ok :
    {A : Type 0} (f : Db → A) (db : Db) {a : A} {db' : Db}
    → query f db ≡ ok (a, db')
    → (a ≡ f db) × (db' ≡ db)
unfolding query
query-ok f db h = (cc, cc)

pub write-ok :
    (f : Db → Db) (db : Db) {a : Unit {0}} {db' : Db} → write f db ≡ ok (a, db') → db' ≡ f db
unfolding write
write-ok f db h = cc

pub return-ok :
    {A : Type 0} (x : A) (db : Db) {a : A} {db' : Db}
    → return x db ≡ ok (a, db')
    → (a ≡ x) × (db' ≡ db)
unfolding return
return-ok x db h = (cc, cc)

pub one_row-ok :
    {A : Type 0} (o : Option A) (db : Db) {a : A} {db' : Db}
    → one_row o db ≡ ok (a, db')
    → (o ≡ some a) × (db' ≡ db)
unfolding one_row
one_row-ok none db h = (cc, cc)
one_row-ok (some x) db h = (cc, cc)

pub refuse_if-ok :
    (b : Bool) (e : AccountError) (db : Db) {a : Unit {0}} {db' : Db}
    → refuse_if b e db ≡ ok (a, db')
    → (b ≡ false) × (db' ≡ db)
unfolding refuse_if
refuse_if-ok true e db h = (cc, cc)
refuse_if-ok false e db h = (refl, cc)

module _ (R : Db → Db → Type 0) (same : (db : Db) → R db db)
    (both : (a b c : Db) → R a b → R b c → R a c) where
  pub bind-Within :
      {A B : Type 0} {m : M A} {f : A → M B}
      → Within R m
      → ((a : A) → Within R (f a))
      → Within R (m >>= f)
  bind-Within {m = m} {f = f} h k db b db' e =
      let (a, mid, first, second) = bind-ok m f db e in
      both db mid db' (h db a mid first) (k a mid b db' second)

  pub query-Within : {A : Type 0} (f : Db → A) → Within R (query f)
  query-Within f db a db' h = rw (query-ok f db h).1 (same db)

  pub return-Within : {A : Type 0} (x : A) → Within R (return x)
  return-Within x db a db' h = rw (return-ok x db h).1 (same db)

  pub one_row-Within : {A : Type 0} (o : Option A) → Within R (one_row o)
  one_row-Within o db a db' h = rw (one_row-ok o db h).1 (same db)

  pub refuse_if-Within : (b : Bool) (e : AccountError) → Within R (refuse_if b e)
  refuse_if-Within b e db a db' h = rw (refuse_if-ok b e db h).1 (same db)

  pub unless-Within : (b : Bool) (m : M (Unit {0})) → Within R m → Within R (unless b m)
  unfolding unless
  unless-Within true m k db a db' h = let e : db' ≡ db = cc h in rw e (same db)
  unless-Within false m k db a db' h = k db a db' h

  pub write-Within : (f : Db → Db) → ((db : Db) → R db (f db)) → Within R (write f)
  write-Within f k db a db' h = rw (write-ok f db h) (k db)
