-- ===== src/Accounts/Revoked.antt =====
-- The sessions of a user end with a new password or a ban.
use mathlib.Core.List.{Memᴰ}
use mathlib.Core.Path.{subst}
use bee_ba.Common.{
  ℕ, ◌≡◌, ◌≢◌, refl, sym, ap, ◌∙◌, true, false, ◌&&◌, not, some, List, ok, err, is_null, All-map,
  All, All-Memᴰ, Memᴰ-All, IsKeyed, IsKeyed-update, IsKeyed-Settled, Memᴰ-update_where,
  any_where-false, find_where-holds, Settled, Settled-update, ltb, arith, Bool-cases, inl, inr,
}
use bee_ba.Common.Text.{Bytes, bytes_eq, bytes_eq_iff}
use bee_ba.Accounts.Db.{Db, no_rows, UserRow, Session, owner, Call}
use bee_ba.Accounts.Statement.{◌>>=◌, query, refuse_if, revoke_sessions}
use bee_ba.Accounts.Users.{Client}
use bee_ba.Accounts.Confirm.{confirm_password_change}
use bee_ba.Accounts.Sessions.{
  has_role, SessionInput, rotate_session, TokenColumn, SessionWithUser, find_session_by_token_hash,
}
use bee_ba.Accounts.Admin.{AdminUser, AdminUserActionInput, ban_user}
use bee_ba.Accounts.Run.{Op, run_all}
use bee_ba.Accounts.Run.Within.{return-ok}
use bee_ba.Accounts.Unique.{IsUnique, is_revoked, IsRevoked, run_all-IsRevoked}
use bee_ba.Accounts.Outcome.{confirm_password_change-PasswordConfirmed}
use bee_ba.Accounts.Chains.{read-ok, query_then-ok}
use bee_ba.Accounts.AdminOutcome.{ban_user-Banned}

-- No token of the session is accepted, and its tokens cannot be replaced.
pub record IsClosed (id : Bytes) (db : Db) : Type 0 where
  pub not_found :
      (column : TokenColumn) (hash : Bytes) (now : ℕ) (r : SessionWithUser) (db' : Db)
      → find_session_by_token_hash column hash now db ≡ ok (r, db')
      → r.session_id ≢ id
  pub not_rotated :
      (c : Call) (current : Bytes) (input : SessionInput)
      → rotate_session c id current input db ≡ err no_rows

revoked_not_found :
    (id : Bytes) (db : Db) (column : TokenColumn) (hash : Bytes) (now : ℕ) (r : SessionWithUser)
    (db' : Db)
    → IsRevoked id db
    → find_session_by_token_hash column hash now db ≡ ok (r, db')
    → r.session_id ≢ id
unfolding find_session_by_token_hash
revoked_not_found id db column hash now r db' s h same =
    let (x, found, h1) = read-ok _ _ db h in
    let (user, user_found, h2) = read-ok _ _ db h1 in
    let h3 = query_then-ok _ _ db h2 in
    let (r_is, d_is) = return-ok _ _ h3 in
    let (holds, m) = find_where-holds _ db.sessions x found in
    let id_is : x.id ≡ id = sym (ap (λ q. q.session_id) r_is) ∙ same in
    let gone : is_revoked x ≡ true =
      All-Memᴰ (λ y. y.id ≡ id → is_revoked y ≡ true) db.sessions x s.settled m id_is in
    ground (arith, holds, gone)

revoked_not_rotated :
    (id : Bytes) (db : Db) (c : Call) (current : Bytes) (input : SessionInput)
    → IsRevoked id db
    → rotate_session c id current input db ≡ err no_rows
unfolding rotate_session ◌>>=◌ query refuse_if
revoked_not_rotated id db c current input s =
    rw
      (any_where-false
        (λ (x : Session).
          bytes_eq x.id id
          && bytes_eq x.refresh_token_hash current
          && is_null x.revoked_at
          && ltb c.now x.refresh_expires_at)
        db.sessions (All-map _ _ db.sessions (λ x h. not_live x h) s.settled))
      refl
  where
    not_live :
        (x : Session)
        → (x.id ≡ id → is_revoked x ≡ true)
        → (bytes_eq x.id id
            && bytes_eq x.refresh_token_hash current
            && is_null x.revoked_at
            && ltb c.now x.refresh_expires_at)
          ≡ false
    not_live x h = ground (arith, bytes_eq_iff x.id id, h)

pub IsRevoked-IsClosed : (id : Bytes) (db : Db) → IsRevoked id db → IsClosed id db
IsRevoked-IsClosed id db s = record {
  not_found = λ column hash now r db' h. revoked_not_found id db column hash now r db' s h;
  not_rotated = λ c current input. revoked_not_rotated id db c current input s;
}

-- The sessions of a user, revoked.
revoke_sessions-IsRevoked :
    (now : ℕ) (user_id : Bytes) (s : Session) (db db' : Db)
    → IsKeyed (λ x. x.id) db.sessions
    → Memᴰ s db.sessions
    → s.user_id ≡ user_id
    → db'.sessions ≡ (revoke_sessions now (λ x. bytes_eq x.user_id user_id) db).sessions
    → IsRevoked s.id db'
revoke_sessions-IsRevoked now user_id s db db' u m e q =
    subst (Settled (λ (x : Session). x.id) is_revoked s.id) (sym q)
      (elim (Bool-cases (is_null s.revoked_at)) [
        | inl live ↦
            IsKeyed-Settled (λ (x : Session). x.id) is_revoked
              (record s { revoked_at = some now; updated_at = now }) _ keyed
              (Memᴰ-update_where (λ x. bytes_eq x.user_id user_id && is_null x.revoked_at)
                (λ x. record x { revoked_at = some now; updated_at = now }) s db.sessions m
                (ground (arith, live, (bytes_eq_iff s.user_id user_id).1 e)))
              refl
        | inr gone ↦
            Settled-update (λ (x : Session). x.id) is_revoked s.id _ _ db.sessions (λ x. refl)
              (λ x d. refl)
              (IsKeyed-Settled (λ (x : Session). x.id) is_revoked s db.sessions u m (ap not gone))
      ])
  where
    keyed : IsKeyed (λ x. x.id) (revoke_sessions now (λ x. bytes_eq x.user_id user_id) db).sessions
    keyed = IsKeyed-update (λ x. x.id) _ _ db.sessions (λ x. refl) u

-- From a state with unique ids and token hashes: once `ConfirmPasswordChange` has succeeded for a
-- user, no session that the user had is found by any access or refresh token, at any time, and none
-- can be rotated, whatever calls of the repository follow.
pub confirm_password_change-IsClosed :
    (c : Call) (hash : Bytes) (client : Client) (db db' : Db) (u : UserRow) (s : Session)
    (ops : List Op)
    → IsUnique db
    → confirm_password_change c hash client db ≡ ok (u, db')
    → Memᴰ s db.sessions
    → s.user_id ≡ u.id
    → IsClosed s.id (run_all ops db')
confirm_password_change-IsClosed c hash client db db' u s ops unique h m e =
    let v = confirm_password_change-PasswordConfirmed c hash client db u db' h in
    IsRevoked-IsClosed s.id (run_all ops db') (
      run_all-IsRevoked s.id ops db'
        (revoke_sessions-IsRevoked c.now u.id s db db' unique.1 m e v.sessions_are))

-- From a state with unique ids and token hashes: `BanUser` succeeds only for a user without the role
-- of an owner, with or without sessions; and then no session that the user had is found by any token,
-- and none can be rotated, whatever calls follow, a lifting of the ban included.
pub ban_user-IsClosed :
    (c : Call) (input : AdminUserActionInput) (db db' : Db) (a : AdminUser) (ops : List Op)
    → IsUnique db
    → ban_user c input db ≡ ok (a, db')
    → (has_role input.target_user_id owner db.roles ≡ false)
      × All (λ s. s.user_id ≡ input.target_user_id → IsClosed s.id (run_all ops db')) db.sessions
ban_user-IsClosed c input db db' a ops unique h =
    let v = ban_user-Banned c input db a db' h in
    (
      v.not_owner,
      Memᴰ-All _ db.sessions (λ s m e. IsRevoked-IsClosed s.id (run_all ops db') (
          run_all-IsRevoked s.id ops db' (
            revoke_sessions-IsRevoked c.now input.target_user_id s db db' unique.1 m e
              v.sessions_are))),
    )
