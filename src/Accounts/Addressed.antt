-- ===== src/Accounts/Addressed.antt =====
-- Tokens that hold the address of their user: what the statements do to them.
use mathlib.Core.List.{Memᴰ}
use bee_ba.Common.{
  ℕ, ◌≡◌, refl, Bool, true, false, some, List, ◌∷◌, ok, is_null, any_where, update_where, All,
  All-map, All-update_where, IsKeyed, IsKeyed-Settled, find_where-holds, Settled, Settled-update,
  Settled-insert, Absent, arith,
}
use bee_ba.Common.Int.{ℤ}
use bee_ba.Common.Text.{Bytes, bytes_eq, bytes_eq_iff}
use bee_ba.Accounts.Db.{Db, UserRow, VerificationToken, Call}
use bee_ba.Accounts.Users.{add_user, holder, insert_email_verification_token}
use bee_ba.Accounts.Run.{SessionCalls, Prims}
use bee_ba.Accounts.Run.Within.{write-ok}
use bee_ba.Accounts.Run.Tables.{
  Base, insert_email_verification_token-Within, insert_password_change_token-Within,
  insert_email_change_token-Within, create_session-Within, rotate_session-Within, clashes-id,
}
use bee_ba.Accounts.Unique.{IsUnique-sessions, IsUnique, IsUnique-kept}
use bee_ba.Accounts.Chains.{refuse_then-ok, query_then-ok}

-- The users with the id are there and have the address.
abbrev pub Owns : Bytes → Bytes → List UserRow → Type 0
Owns id email users = Settled (λ u. u.id) (λ u. bytes_eq u.email email) id users

-- A token that is not used holds the address that its user has.
abbrev pub IsAddressed : List UserRow → VerificationToken → Type 0
IsAddressed users t = is_null t.used_at ≡ true → Owns t.user_id t.email users

abbrev pub AreAddressed : Db → Type 0
AreAddressed db = All (IsAddressed db.users) db.verification_tokens

-- Updates of users that keep ids and addresses.
pub users-IsAddressed :
    (p : UserRow → Bool) (f : UserRow → UserRow) (users : List UserRow) (t : VerificationToken)
    → ((u : UserRow) → (f u).id ≡ u.id)
    → ((u : UserRow) → (f u).email ≡ u.email)
    → IsAddressed users t
    → IsAddressed (update_where p f users) t
users-IsAddressed p f users t same_id same_email h unused =
    Settled-update (λ u. u.id) (λ u. bytes_eq u.email t.email) t.user_id p f users same_id
      (λ u e. rw (same_email u) e) (h unused)

new_user-IsAddressed :
    (u : UserRow) (users : List UserRow) (t : VerificationToken)
    → any_where (λ x. bytes_eq x.id u.id) users ≡ false
    → IsAddressed users t
    → IsAddressed (u ∷ users) t
new_user-IsAddressed u users t free h unused =
    Settled-insert (λ x. x.id) (λ x. bytes_eq x.email t.email) t.user_id u users free (h unused)

pub use-AreAddressed :
    (now : ℕ) (p : VerificationToken → Bool) (users : List UserRow) (ts : List VerificationToken)
    → All (IsAddressed users) ts
    → All (IsAddressed users) (update_where p (λ t. record t { used_at = some now }) ts)
use-AreAddressed now p users ts h =
    All-update_where (IsAddressed users) p _ ts (λ t q unused. absurd (cc unused)) h

-- What the property needs of a state.
abbrev pub IsClean : Db → Type 0
IsClean db = IsUnique db × AreAddressed db

abbrev pub Keeps : Db → Db → Type 0
Keeps a b = IsClean a → IsClean b

pub add_user-AreAddressed :
    (c : Call) (u : UserRow) (db : Db) (a : Unit {0}) (db' : Db)
    → AreAddressed db
    → add_user c u db ≡ ok (a, db')
    → AreAddressed db' × Owns u.id u.email db'.users
unfolding add_user
add_user-AreAddressed c u db a db' h e =
    let (valid, h1) = refuse_then-ok _ _ _ db e in
    let (free, h2) = refuse_then-ok _ _ _ db (query_then-ok _ _ db h1) in
    let new = clashes-id c u db.users free in
    rw (write-ok _ db h2) (
      All-map _ _ db.verification_tokens (λ t q. new_user-IsAddressed u db.users t new q) h,
      record {
        present = ground (arith, (bytes_eq_iff u.id u.id).1 refl);
        settled = (
          λ _. (bytes_eq_iff u.email u.email).1 refl,
          Absent (λ x. x.id) u.id (λ x. bytes_eq x.email u.email) db.users new,
        );
      },
    )

-- A new token for an address that the user has.
pub token-AreAddressed :
    (c : Call) (id email name hash token : Bytes) (expires_at : ℕ) (limit : ℤ) (db : Db)
    (u : Unit {0}) (db' : Db)
    → AreAddressed db
    → Owns id email db.users
    → insert_email_verification_token c id email name hash token expires_at limit db ≡ ok (u, db')
    → AreAddressed db'
token-AreAddressed c id email name hash token expires_at limit db u db' h o e =
    (insert_email_verification_token-Within
      (λ a b. AreAddressed a × Owns id email a.users → AreAddressed b × Owns id email b.users)
      (record {
        same = λ d q. q;
        both = λ x y z f g q. g (f q);
        job = λ now job job_type payload d q. q;
      })
      c id email name hash token expires_at limit
      (λ x d id_is email_is free q. ((λ unused. rw (id_is, email_is) q.1, q.0), q.1)) db u db' e
      (h, o)).0

base : Base (λ a b. AreAddressed a → AreAddressed b)
base = record {
  same = λ d q. q;
  both = λ x y z f g q. g (f q);
  job = λ now job job_type payload d q. q;
}

pub prims : Prims Keeps
prims = record {
  same = λ db h. h;
  both = λ a b c f g h. g (f h);
  minor = λ p f m db h. (
    IsUnique-kept.prims.minor p f m db h.0,
    All-map _ _ db.verification_tokens
        (λ t q. users-IsAddressed p f db.users t m.same_id m.same_email q) h.1,
  );
  use_verification = λ now p db h. (
    IsUnique-kept.prims.use_verification now p db h.0,
    use-AreAddressed now p db.users db.verification_tokens h.1,
  );
  use_password = λ now p db h. (IsUnique-kept.prims.use_password now p db h.0, h.1);
  use_email = λ now p db h. (IsUnique-kept.prims.use_email now p db h.0, h.1);
  revoke = λ now p db h. (IsUnique-kept.prims.revoke now p db h.0, h.1);
  audit = λ a db h. h;
  password_token = λ c u hash token secret expires_at limit db x db' e h. (
    IsUnique-kept.prims.password_token c u hash token secret expires_at limit db x db' e h.0,
    insert_password_change_token-Within (λ a b. AreAddressed a → AreAddressed b) base
        (λ t d free q. q) c u hash token secret expires_at limit db x db' e h.1,
  );
  email_token = λ c u email hash token expires_at limit db x db' e h. (
    IsUnique-kept.prims.email_token c u email hash token expires_at limit db x db' e h.0,
    insert_email_change_token-Within (λ a b. AreAddressed a → AreAddressed b) base (λ t d free q. q)
        c u email hash token expires_at limit db x db' e h.1,
  );
}

pub session_calls : SessionCalls Keeps
session_calls = record {
  new_session = λ c input db x db' e h. (
    IsUnique-sessions.new_session c input db x db' e h.0,
    create_session-Within (λ a b. AreAddressed a → AreAddressed b) base (λ s d free q. q) c input db
        x db' e h.1,
  );
  rotation = λ c id hash input db x db' e h. (
    IsUnique-sessions.rotation c id hash input db x db' e h.0,
    rotate_session-Within (λ a b. AreAddressed a → AreAddressed b) base (λ p f i r d q. q) c id hash
        input db x db' e h.1,
  );
}

-- The row of a user that a search by id has found has this id.
pub holder-holds :
    (id : Bytes) (db : Db) (u : UserRow) → holder id db ≡ some u → (u.id ≡ id) × Memᴰ u db.users
unfolding holder
holder-holds id db u h =
    let (holds, m) = find_where-holds _ db.users u h in
    ((bytes_eq_iff u.id id).0 (ground (arith, holds)), m)

-- A user that is there owns its address, since ids are unique.
pub member-Owns :
    (u : UserRow) (users : List UserRow)
    → IsKeyed (λ x. x.id) users
    → Memᴰ u users
    → Owns u.id u.email users
member-Owns u users k m =
    IsKeyed-Settled (λ x. x.id) (λ x. bytes_eq x.email u.email) u users k m
      ((bytes_eq_iff u.email u.email).1 refl)
