-- ===== src/Accounts/Addresses.antt =====
-- An address counts as verified only by a link that was sent to it.
use mathlib.Core.List.{Memᴰ}
use mathlib.Core.Path.{subst}
use bee_ba.Common.{
  ℕ, ◌≡◌, refl, sym, ap, ◌∙◌, Bool, true, false, ◌&&◌, Option, none, some, List, ok, is_null,
  if◌then◌else◌, update_where, All, All-map, All-Memᴰ, find_where-holds, Settled-update_other,
  All-update_where_if, arith,
}
use bee_ba.Common.Text.{Bytes, bytes_eq, bytes_eq_iff}
use bee_ba.Accounts.Db.{Db, UserRow, VerificationToken, is_active, Call}
use bee_ba.Accounts.Statement.{M, unless}
use bee_ba.Accounts.Users.{
  CreateInput, RequestInput, Client, new_user, add_user, add_role, load_public_user_for_update,
}
use bee_ba.Accounts.Confirm.{
  create, verify_email, renew_verification_token, request_email_verification, confirmed_row,
  confirm_email_change, is_open,
}
use bee_ba.Accounts.Admin.{banned_row, unbanned_row}
use bee_ba.Accounts.Run.{Op, run_all, Within}
use bee_ba.Accounts.Run.Kept.{
  Kept, ban_user-Within, unban_user-Within, set_user_roles-Within, run_all-Kept,
}
use bee_ba.Accounts.Run.Within.{bind-ok, return-ok}
use bee_ba.Accounts.Run.Tables.{add_role-Within}
use bee_ba.Accounts.Unique.{IsUnique-tables, IsUnique-kept}
use bee_ba.Accounts.Outcome.{
  verify_email-Verified, verification_after, confirm_email_change-EmailConfirmed,
}
use bee_ba.Accounts.Chains.{
  load_public_user_for_update-ok, SameRows, audit_return-ok, write_then-ok,
}
use bee_ba.Accounts.Addressed.{
  session_calls, Owns, IsAddressed, AreAddressed, users-IsAddressed, use-AreAddressed, IsClean,
  Keeps, add_user-AreAddressed, token-AreAddressed, prims, holder-holds, member-Owns,
}

SameRows-AreAddressed : (a b : Db) → SameRows a b → AreAddressed a → AreAddressed b
SameRows-AreAddressed a b s h = rw (s.users, s.verification_tokens) h

unless-ends :
    (P : Db → Type 0) (b : Bool) (m : M (Unit {0})) (db : Db) (u : Unit {0}) (db' : Db)
    → P db
    → ((v : Unit {0}) → m db ≡ ok (v, db') → P db')
    → unless b m db ≡ ok (u, db')
    → P db'
unfolding unless
unless-ends P true m db u db' h k e = let same : db' ≡ db = cc e in rw same h
unless-ends P false m db u db' h k e = k u e

renew-AreAddressed :
    (c : Call) (user : UserRow) (input : RequestInput) (db : Db) (u : Unit {0}) (db' : Db)
    → IsClean db
    → Memᴰ user db.users
    → renew_verification_token c user input db ≡ ok (u, db')
    → AreAddressed db'
unfolding renew_verification_token
renew-AreAddressed c user input db u db' h m e =
    token-AreAddressed c user.id user.email user.username _ _ _ _ _ u db'
      (use-AreAddressed c.now _ db.users db.verification_tokens h.1)
      (member-Owns user db.users h.0.0 m) (write_then-ok _ _ db e)

request-AreAddressed :
    (c : Call) (input : RequestInput) (db : Db) (out : UserRow × Bool) (db' : Db)
    → IsClean db
    → request_email_verification c input db ≡ ok (out, db')
    → AreAddressed db'
unfolding request_email_verification
request-AreAddressed c input db out db' h e =
    let (user, d1, h1, h2) = bind-ok (load_public_user_for_update _) _ db e in
    let (found, d1_is) = load_public_user_for_update-ok input.user_id db user d1 h1 in
    let (renewed, d2, h3, h4) = bind-ok (unless _ _) _ d1 h2 in
    let clean : IsClean d1 = rw d1_is h in
    let m : Memᴰ user d1.users = rw d1_is (holder-holds input.user_id db user found).1 in
    let mid : AreAddressed d2 =
      unless-ends AreAddressed _ (renew_verification_token c user input) d1 renewed d2 clean.1
        (λ v q. renew-AreAddressed c user input d1 v d2 clean m q) h3 in
    SameRows-AreAddressed d2 db' (audit_return-ok _ _ _ _ _ _ _ d2 h4).1 mid

create-AreAddressed :
    (c : Call) (input : CreateInput) (db : Db) (out : UserRow) (db' : Db)
    → IsClean db
    → create c input db ≡ ok (out, db')
    → AreAddressed db'
unfolding create
create-AreAddressed c input db out db' h e =
    let u = new_user c input in
    let (a1, d1, h1, h2) = bind-ok (add_user c u) _ db e in
    let (a2, d2, h3, h4) = bind-ok (add_role _) _ d1 h2 in
    let (a3, d3, h5, h6) = bind-ok (unless _ _) _ d2 h4 in
    let first : AreAddressed d1 × Owns u.id u.email d1.users =
      add_user-AreAddressed c u db a1 d1 h.1 h1 in
    let second : AreAddressed d2 × Owns u.id u.email d2.users =
      add_role-Within
        (λ a b.
          AreAddressed a × Owns u.id u.email a.users → AreAddressed b × Owns u.id u.email b.users)
        (record {
          same = λ d q. q;
          both = λ x y z f g q. g (f q);
          job = λ now job job_type payload d q. q;
        })
        (λ r d free q. q) _ d1 a2 d2 h3 first in
    let third : AreAddressed d3 =
      unless-ends AreAddressed _ _ d2 a3 d3 second.0
        (λ v q. token-AreAddressed c u.id u.email u.username _ _ _ _ d2 v d3 second.0 second.1 q)
        h5 in
    rw (return-ok _ d3 h6).1 third

by_create : (c : Call) (input : CreateInput) → Within Keeps (create c input)
by_create c input db out db' e h =
    (IsUnique-kept.by_create c input db out db' e h.0, create-AreAddressed c input db out db' h e)

by_request : (c : Call) (input : RequestInput) → Within Keeps (request_email_verification c input)
by_request c input db out db' e h =
    (IsUnique-kept.by_request c input db out db' e h.0, request-AreAddressed c input db out db' h e)

-- A changed address: the tokens of the user that are not used are used up, and the users of the
-- other tokens keep their addresses.
changed-AreAddressed :
    (now : ℕ) (id : Bytes) (f : UserRow → UserRow) (users : List UserRow)
    (ts : List VerificationToken)
    → ((x : UserRow) → (f x).id ≡ x.id)
    → All (IsAddressed users) ts
    → All (IsAddressed (update_where (λ x. bytes_eq x.id id && is_active x) f users)) (
        update_where
          (λ t. bytes_eq t.user_id id && is_null t.used_at)
          (λ t. record t { used_at = some now })
          ts)
changed-AreAddressed now id f users ts same h =
    All-update_where_if (IsAddressed users)
      (IsAddressed (update_where (λ x. bytes_eq x.id id && is_active x) f users))
      (λ t. bytes_eq t.user_id id && is_null t.used_at) (λ t. record t { used_at = some now }) ts
      (λ t e q unused. absurd (cc unused))
      (λ t e q unused.
        Settled-update_other (λ x. x.id) (λ x. bytes_eq x.email t.email) t.user_id _ f users same
          (λ x p same_id. other x t p e unused same_id) (q unused))
      h
  where
    other :
        (x : UserRow) (t : VerificationToken)
        → (bytes_eq x.id id && is_active x) ≡ true
        → (bytes_eq t.user_id id && is_null t.used_at) ≡ false
        → is_null t.used_at ≡ true
        → x.id ≡ t.user_id
        → ⊥
    other x t p e unused same_id =
        ground (arith, bytes_eq_iff x.id id, bytes_eq_iff t.user_id id, p, e, unused, same_id)

by_email :
    (c : Call) (hash : Bytes) (client : Client) → Within Keeps (confirm_email_change c hash client)
by_email c hash client db (u, was) db' e h =
    let v = confirm_email_change-EmailConfirmed c hash client db u was db' e in
    let old_id : v.old.id ≡ v.previous.id =
      (bytes_eq_iff v.old.id v.previous.id).0
        (ground (arith, (find_where-holds _ db.users v.old v.old_found).0)) in
    let u_id : u.id ≡ v.previous.id = ap (λ x. x.id) v.new_is ∙ old_id in
    (
      IsUnique-kept.by_email c hash client db (u, was) db' e h.0,
      subst (λ ts. All (IsAddressed db'.users) ts) (sym v.verification_are)
          (subst
            (λ us.
              All (IsAddressed us)
                (verification_after c.now (λ t. bytes_eq t.user_id u.id && is_null t.used_at) db))
            (sym v.users_are)
            (subst
              (λ i.
                All
                  (IsAddressed (
                    update_where (λ x. bytes_eq x.id v.previous.id && is_active x)
                      (confirmed_row c.now v.token.new_email) db.users))
                  (verification_after c.now (λ t. bytes_eq t.user_id i && is_null t.used_at) db))
              (sym u_id)
              (changed-AreAddressed c.now v.previous.id (confirmed_row c.now v.token.new_email)
                db.users db.verification_tokens (λ x. refl) h.1))),
    )

kept : Kept Keeps
kept = record {
  prims = prims;
  by_create = by_create;
  by_request = by_request;
  by_email = by_email;
  by_ban = ban_user-Within Keeps prims (λ now p db h. (
    (IsUnique-tables.users p (banned_row now) (λ u. refl) db h.0),
    All-map _ _ db.verification_tokens
        (λ t q. users-IsAddressed p (banned_row now) db.users t (λ u. refl) (λ u. refl) q) h.1,
  ));
  by_unban = unban_user-Within Keeps prims (λ now p db h. (
    (IsUnique-tables.users p (unbanned_row now) (λ u. refl) db h.0),
    All-map _ _ db.verification_tokens
        (λ t q. users-IsAddressed p (unbanned_row now) db.users t (λ u. refl) (λ u. refl) q) h.1,
  ));
  by_roles =
      set_user_roles-Within Keeps prims (λ id db h. h)
        (add_role-Within Keeps
          (record {
            same = λ d q. q;
            both = λ x y z f g q. g (f q);
            job = λ now job job_type payload d q. q;
          })
          (λ r db free h. h));
}

pub run_all-IsClean : (ops : List Op) (db : Db) → IsClean db → IsClean (run_all ops db)
run_all-IsClean = run_all-Kept Keeps kept session_calls

-- After any calls from a state where ids and token hashes are unique and each token that is not used
-- holds the address that its user has: `VerifyEmail` that succeeds has been given the hash of a
-- token that was made for this user and for the very address that now counts as verified, although
-- the address may have been changed since the mail was sent.
pub verify_email-sent_to :
    (ops : List Op) (db : Db) (c : Call) (hash : Bytes) (client : Client) (u : UserRow)
    (already : Bool) (db' : Db)
    → IsClean db
    → verify_email c hash client (run_all ops db) ≡ ok ((u, already), db')
    → (t : VerificationToken) × Memᴰ t (run_all ops db).verification_tokens
      × (t.token_hash ≡ hash)
      × (t.user_id ≡ u.id)
      × (t.email ≡ u.email)
      × (is_null u.email_verified_at ≡ false)
unfolding is_open
verify_email-sent_to ops db c hash client u already db' clean e =
    let now = run_all ops db in
    let v = verify_email-Verified c hash client now u already db' e in
    let t = v.token in
    let safe = run_all-IsClean ops db clean in
    let (user_id, _) = holder-holds t.user_id now v.user v.user_found in
    let (holds, m) = find_where-holds _ now.users v.old v.old_found in
    let old_id : v.old.id ≡ t.user_id =
      (bytes_eq_iff v.old.id v.user.id).0 (ground (arith, holds)) ∙ user_id in
    let owns : Owns t.user_id t.email now.users =
      All-Memᴰ (IsAddressed now.users) now.verification_tokens t safe.1 v.in_table
        (ground (arith, v.open_token)) in
    let address : v.old.email ≡ t.email = (bytes_eq_iff v.old.email t.email).0 (
      All-Memᴰ (λ x. x.id ≡ t.user_id → bytes_eq x.email t.email ≡ true) now.users v.old
        owns.settled m old_id) in
    (
      t,
      v.in_table,
      (bytes_eq_iff t.token_hash hash).0 (ground (arith, v.open_token)),
      sym (ap (λ x. x.id) v.new_is ∙ old_id),
      sym (ap (λ x. x.email) v.new_is ∙ address),
      ap (λ x. is_null x.email_verified_at) v.new_is ∙ verified c.now v.old.email_verified_at,
    )
  where
    verified : (now : ℕ) (o : Option ℕ) → is_null (if is_null o then some now else o) ≡ false
    verified now none = refl
    verified now (some x) = refl
