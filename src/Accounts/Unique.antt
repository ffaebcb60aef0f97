-- ===== src/Accounts/Unique.antt =====
-- The unique columns that the other properties rest on, and what a finished token or session is.
use bee_ba.Common.{
  refl, Bool, not, List, is_null, Settled, Settled-update, Settled-insert, IsKeyed, IsKeyed-update,
}
use bee_ba.Common.Text.{Bytes}
use bee_ba.Accounts.Db.{Db, Session}
use bee_ba.Accounts.Run.{Op, run_all, SessionCalls}
use bee_ba.Accounts.Run.Kept.{Kept, Free-Kept, run_all-Kept}
use bee_ba.Accounts.Run.Tables.{KeptTables, KeptTables-Free, KeptTables-SessionCalls}

-- The ids of users and sessions, and the hashes of each kind of token, are unique.
abbrev pub IsUnique : Db → Type 0
IsUnique db =
    IsKeyed (λ u. u.id) db.users
    × IsKeyed (λ s. s.id) db.sessions
    × IsKeyed (λ t. t.token_hash) db.verification_tokens
    × IsKeyed (λ t. t.token_hash) db.password_tokens
    × IsKeyed (λ t. t.token_hash) db.email_tokens

pub IsUnique-tables : KeptTables (λ a b. IsUnique a → IsUnique b)
IsUnique-tables = record {
  same = λ db h. h;
  both = λ a b c f g h. g (f h);
  users = λ p f same db h. (IsKeyed-update _ p f db.users same h.0, h.1, h.2, h.3, h.4);
  new_user = λ u db free h. ((free, h.0), h.1, h.2, h.3, h.4);
  new_role = λ r db free h. h;
  no_roles = λ id db h. h;
  sessions = λ p f same keeps db h. (h.0, IsKeyed-update _ p f db.sessions same h.1, h.2, h.3, h.4);
  revoke = λ now p db h. (h.0, IsKeyed-update _ _ _ db.sessions (λ s. refl) h.1, h.2, h.3, h.4);
  new_session = λ s db free h. (h.0, (free, h.1), h.2, h.3, h.4);
  use_verification = λ now p db h.
      (h.0, h.1, IsKeyed-update _ p _ db.verification_tokens (λ t. refl) h.2, h.3, h.4);
  use_password =
      λ now p db h. (h.0, h.1, h.2, IsKeyed-update _ p _ db.password_tokens (λ t. refl) h.3, h.4);
  use_email =
      λ now p db h. (h.0, h.1, h.2, h.3, IsKeyed-update _ p _ db.email_tokens (λ t. refl) h.4);
  new_verification = λ t db free h. (h.0, h.1, (free, h.2), h.3, h.4);
  new_password = λ t db free h. (h.0, h.1, h.2, (free, h.3), h.4);
  new_email = λ t db free h. (h.0, h.1, h.2, h.3, (free, h.4));
  audit = λ a db h. h;
  job = λ now id job_type payload db h. h;
}

pub IsUnique-kept : Kept (λ a b. IsUnique a → IsUnique b)
IsUnique-kept = Free-Kept _ (KeptTables-Free _ IsUnique-tables)

pub IsUnique-sessions : SessionCalls (λ a b. IsUnique a → IsUnique b)
IsUnique-sessions = KeptTables-SessionCalls _ IsUnique-tables

pub run_all-IsUnique : (ops : List Op) (db : Db) → IsUnique db → IsUnique (run_all ops db)
run_all-IsUnique = run_all-Kept _ IsUnique-kept IsUnique-sessions

abbrev pub is_revoked : Session → Bool
is_revoked s = not (is_null s.revoked_at)

-- A session with this id exists and is revoked.
abbrev pub IsRevoked : Bytes → Db → Type 0
IsRevoked id db = Settled (λ s. s.id) is_revoked id db.sessions

IsRevoked-tables : (id : Bytes) → KeptTables (λ a b. IsRevoked id a → IsRevoked id b)
IsRevoked-tables id = record {
  same = λ db h. h;
  both = λ a b c f g h. g (f h);
  users = λ p f same db h. h;
  new_user = λ u db free h. h;
  new_role = λ r db free h. h;
  no_roles = λ id db h. h;
  sessions = λ p f same keeps db h.
      Settled-update _ is_revoked id p f db.sessions same (λ s d. rw (keeps s) d) h;
  revoke = λ now p db h. Settled-update _ is_revoked id _ _ db.sessions (λ s. refl) (λ s d. refl) h;
  new_session = λ s db free h. Settled-insert _ is_revoked id s db.sessions free h;
  use_verification = λ now p db h. h;
  use_password = λ now p db h. h;
  use_email = λ now p db h. h;
  new_verification = λ t db free h. h;
  new_password = λ t db free h. h;
  new_email = λ t db free h. h;
  audit = λ a db h. h;
  job = λ now id job_type payload db h. h;
}

-- A revoked session stays revoked.
pub run_all-IsRevoked :
    (id : Bytes) (ops : List Op) (db : Db) → IsRevoked id db → IsRevoked id (run_all ops db)
run_all-IsRevoked id =
    run_all-Kept _ (Free-Kept _ (KeptTables-Free _ (IsRevoked-tables id)))
      (KeptTables-SessionCalls _ (IsRevoked-tables id))

-- A token with this hash exists and is used.
abbrev pub IsSpentVerification : Bytes → Db → Type 0
IsSpentVerification hash db =
    Settled (λ t. t.token_hash) (λ t. not (is_null t.used_at)) hash db.verification_tokens

abbrev pub IsSpentPassword : Bytes → Db → Type 0
IsSpentPassword hash db =
    Settled (λ t. t.token_hash) (λ t. not (is_null t.used_at)) hash db.password_tokens

abbrev pub IsSpentEmail : Bytes → Db → Type 0
IsSpentEmail hash db =
    Settled (λ t. t.token_hash) (λ t. not (is_null t.used_at)) hash db.email_tokens

-- The three together, so that one table of statements serves them.
abbrev pub Spends : Bytes → Db → Db → Type 0
Spends hash a b =
    (IsSpentVerification hash a → IsSpentVerification hash b)
    × (IsSpentPassword hash a → IsSpentPassword hash b)
    × (IsSpentEmail hash a → IsSpentEmail hash b)

spent_tables : (hash : Bytes) → KeptTables (Spends hash)
spent_tables hash = record {
  same = λ db. (λ h. h, λ h. h, λ h. h);
  both = λ a b c f g. (λ h. g.0 (f.0 h), λ h. g.1 (f.1 h), λ h. g.2 (f.2 h));
  users = λ p f same db. (λ h. h, λ h. h, λ h. h);
  new_user = λ u db free. (λ h. h, λ h. h, λ h. h);
  new_role = λ r db free. (λ h. h, λ h. h, λ h. h);
  no_roles = λ id db. (λ h. h, λ h. h, λ h. h);
  sessions = λ p f same keeps db. (λ h. h, λ h. h, λ h. h);
  revoke = λ now p db. (λ h. h, λ h. h, λ h. h);
  new_session = λ s db free. (λ h. h, λ h. h, λ h. h);
  use_verification = λ now p db. (
    λ h. Settled-update _ _ hash p _ db.verification_tokens (λ t. refl) (λ t d. refl) h,
    λ h. h,
    λ h. h,
  );
  use_password = λ now p db. (
    λ h. h,
    λ h. Settled-update _ _ hash p _ db.password_tokens (λ t. refl) (λ t d. refl) h,
    λ h. h,
  );
  use_email = λ now p db. (
    λ h. h,
    λ h. h,
    λ h. Settled-update _ _ hash p _ db.email_tokens (λ t. refl) (λ t d. refl) h,
  );
  new_verification =
      λ t db free. (λ h. Settled-insert _ _ hash t db.verification_tokens free h, λ h. h, λ h. h);
  new_password =
      λ t db free. (λ h. h, λ h. Settled-insert _ _ hash t db.password_tokens free h, λ h. h);
  new_email = λ t db free. (λ h. h, λ h. h, λ h. Settled-insert _ _ hash t db.email_tokens free h);
  audit = λ a db. (λ h. h, λ h. h, λ h. h);
  job = λ now id job_type payload db. (λ h. h, λ h. h, λ h. h);
}

-- A used token stays used.
pub run_all-Spends : (hash : Bytes) (ops : List Op) (db : Db) → Spends hash db (run_all ops db)
run_all-Spends hash =
    run_all-Kept _ (Free-Kept _ (KeptTables-Free _ (spent_tables hash)))
      (KeptTables-SessionCalls _ (spent_tables hash))
