-- ===== src/Accounts/Rotate.antt =====
-- A refresh token is replaced once.
use mathlib.Core.Path.{subst}
use bee_ba.Common.{
  ℕ, sym, some, All-map, All-update_where, ◌≤◌, ◌≡◌, ◌≢◌, refl, ap, Bool, true, false, ◌&&◌, List,
  [], ◌∷◌, ok, err, ltb, is_null, any_where, update_where, any_where-false, not-eq-false, All,
  Bool-cases, inl, inr, arith,
}
use bee_ba.Common.Text.{Bytes, bytes_eq, bytes_eq_iff}
use bee_ba.Accounts.Db.{Db, no_rows, Session, Call}
use bee_ba.Accounts.Statement.{◌>>=◌, query, refuse_if}
use bee_ba.Accounts.Sessions.{SessionInput, create_session, rotate_session}
use bee_ba.Accounts.Run.{
  Op, creates, verifies_email, requests_verification, updates_profile, changes_password,
  requests_password, confirms_password, requests_email, confirms_email, creates_session,
  rotates_session, revokes_session, bans, unbans, sets_roles, run_all, Within, Prims, KeepsTokens,
}
use bee_ba.Accounts.Run.Kept.{Free, Free-Kept, run_all-KeepsTokens}
use bee_ba.Accounts.Run.Tables.{
  Base, add_user-Within, add_role-Within, insert_email_verification_token-Within,
  insert_password_change_token-Within, insert_email_change_token-Within,
}
use bee_ba.Accounts.Run.Within.{write-ok}
use bee_ba.Accounts.Chains.{query_then-ok, refuse_then-ok}

-- The sessions that `RotateSession` changes.
abbrev rotates : ℕ → Bytes → Bytes → Session → Bool
rotates now id current s =
    bytes_eq s.id id
    && bytes_eq s.refresh_token_hash current
    && is_null s.revoked_at
    && ltb now s.refresh_expires_at

abbrev rotated : ℕ → SessionInput → Session → Session
rotated now input s = record s {
  access_token_hash = input.access_token_hash;
  refresh_token_hash = input.refresh_token_hash;
  access_expires_at = input.access_expires_at;
  refresh_expires_at = input.refresh_expires_at;
  updated_at = now;
}

rotate_session-ok :
    (c : Call) (id current : Bytes) (input : SessionInput) (db : Db) (u : Unit {0}) (db' : Db)
    → rotate_session c id current input db ≡ ok (u, db')
    → (any_where (rotates c.now id current) db.sessions ≡ true)
      × (db'.sessions ≡ update_where (rotates c.now id current) (rotated c.now input) db.sessions)
unfolding rotate_session
rotate_session-ok c id current input db u db' h =
    let (found, h1) = refuse_then-ok _ _ _ db (query_then-ok _ _ db h) in
    let (_, h2) = refuse_then-ok _ _ _ db h1 in
    let (_, h3) = refuse_then-ok _ _ _ db (query_then-ok _ _ db h2) in
    (not-eq-false _ found, ap (λ d. d.sessions) (write-ok _ db h3))

-- After the change no session answers to the old token.
gone :
    (now later : ℕ) (id current : Bytes) (input : SessionInput) (xs : List Session)
    → now ≤ later
    → input.refresh_token_hash ≢ current
    → All
        (λ s. rotates later id current s ≡ false)
        (update_where (rotates now id current) (rotated now input) xs)
gone now later id current input [] le ne = tt
gone now later id current input (s ∷ xs) le ne =
    let rest = gone now later id current input xs le ne in
    let other : bytes_eq input.refresh_token_hash current ≡ false =
      ground (arith, bytes_eq_iff input.refresh_token_hash current) in
    elim (Bool-cases (rotates now id current s)) [
      | inl e ↦ (rw e (ground (arith, other)), rest)
      | inr e ↦ (rw e (ground (arith, e)), rest)
    ]

-- No session answers to the token at that time.
abbrev IsGone : ℕ → Bytes → Bytes → Db → Type 0
IsGone later id current db = All (λ s. rotates later id current s ≡ false) db.sessions

abbrev KeepsGone : ℕ → Bytes → Bytes → Db → Db → Type 0
KeepsGone later id current a b = IsGone later id current a → IsGone later id current b

base : (later : ℕ) (id current : Bytes) → Base (KeepsGone later id current)
base later id current = record {
  same = λ db h. h;
  both = λ a b c f g h. g (f h);
  job = λ now job job_type payload db h. h;
}

gone_prims : (later : ℕ) (id current : Bytes) → Prims (KeepsGone later id current)
gone_prims later id current = record {
  same = λ db h. h;
  both = λ a b c f g h. g (f h);
  minor = λ p f m db h. h;
  use_verification = λ now p db h. h;
  use_password = λ now p db h. h;
  use_email = λ now p db h. h;
  revoke = λ now p db h.
      All-update_where (λ s. rotates later id current s ≡ false) (λ s. p s && is_null s.revoked_at)
        (λ s. record s { revoked_at = some now; updated_at = now }) db.sessions
        (λ s q. ground (arith, q)) h;
  audit = λ a db h. h;
  password_token = insert_password_change_token-Within _ (base later id current) (λ t db free h. h);
  email_token = insert_email_change_token-Within _ (base later id current) (λ t db free h. h);
}

gone_free : (later : ℕ) (id current : Bytes) → Free (KeepsGone later id current)
gone_free later id current = record {
  prims = gone_prims later id current;
  users = λ p f same db h. h;
  new_user = add_user-Within _ (base later id current) (λ u db free h. h);
  role = add_role-Within _ (base later id current) (λ r db free h. h);
  no_roles = λ user_id db h. h;
  token = λ c user_id email name hash token expires_at limit.
      insert_email_verification_token-Within _ (base later id current) c user_id email name hash
        token expires_at limit (λ x db _ _ free h. h);
}

-- The call does not give the token to a session again.
abbrev pub DoesNotReissue : Bytes → Op → Type 0
DoesNotReissue hash (creates_session c input) = input.refresh_token_hash ≢ hash
DoesNotReissue hash (rotates_session c id old input) = input.refresh_token_hash ≢ hash
DoesNotReissue hash _ = Unit {0}

-- A rotation of any session to another token.
rotates-KeepsGone :
    (later : ℕ) (id current : Bytes) (c : Call) (x old : Bytes) (input : SessionInput)
    → input.refresh_token_hash ≢ current
    → Within (KeepsGone later id current) (rotate_session c x old input)
rotates-KeepsGone later id current c x old input ne db u db' e h =
    let (_, sessions_are) = rotate_session-ok c x old input db u db' e in
    let other : bytes_eq input.refresh_token_hash current ≡ false =
      ground (arith, bytes_eq_iff input.refresh_token_hash current) in
    rw sessions_are (
      All-update_where (λ s. rotates later id current s ≡ false) (rotates c.now x old)
        (rotated c.now input) db.sessions (λ s q. ground (arith, other)) h)

creates-KeepsGone :
    (later : ℕ) (id current : Bytes) (c : Call) (input : SessionInput)
    → input.refresh_token_hash ≢ current
    → Within (KeepsGone later id current) (create_session c input)
unfolding create_session
creates-KeepsGone later id current c input ne db u db' e h =
    let (_, h1) = refuse_then-ok _ _ _ db e in
    let (_, h2) = refuse_then-ok _ _ _ db (query_then-ok _ _ db h1) in
    let (_, h3) = refuse_then-ok _ _ _ db (query_then-ok _ _ db h2) in
    let other : bytes_eq input.refresh_token_hash current ≡ false =
      ground (arith, bytes_eq_iff input.refresh_token_hash current) in
    rw (write-ok _ db h3) (ground (arith, other), h)

reissues-KeepsGone :
    (later : ℕ) (id current : Bytes) (o : Op)
    → DoesNotReissue current o
    → KeepsTokens (KeepsGone later id current) o
reissues-KeepsGone later id current (creates_session c input) ne =
    creates-KeepsGone later id current c input ne
reissues-KeepsGone later id current (rotates_session c x old input) ne =
    rotates-KeepsGone later id current c x old input ne
reissues-KeepsGone later id current (creates c input) ne = tt
reissues-KeepsGone later id current (verifies_email c hash client) ne = tt
reissues-KeepsGone later id current (requests_verification c input) ne = tt
reissues-KeepsGone later id current (updates_profile c x name) ne = tt
reissues-KeepsGone later id current (changes_password c x hash s) ne = tt
reissues-KeepsGone later id current (requests_password c hash input) ne = tt
reissues-KeepsGone later id current (confirms_password c hash client) ne = tt
reissues-KeepsGone later id current (requests_email c email input) ne = tt
reissues-KeepsGone later id current (confirms_email c hash client) ne = tt
reissues-KeepsGone later id current (revokes_session c hash) ne = tt
reissues-KeepsGone later id current (bans c input) ne = tt
reissues-KeepsGone later id current (unbans c input) ne = tt
reissues-KeepsGone later id current (sets_roles c input) ne = tt

-- `RotateSession` that has replaced a refresh token by another refuses the old one from then on:
-- after any calls, none of which gives the old token to a session again, a second use at the same
-- time or later changes nothing and fails as unknown.
pub rotate_session_once :
    (c c' : Call) (id current : Bytes) (input input' : SessionInput) (db db' : Db) (ops : List Op)
    → rotate_session c id current input db ≡ ok (tt, db')
    → input.refresh_token_hash ≢ current
    → All (DoesNotReissue current) ops
    → c.now ≤ c'.now
    → rotate_session c' id current input' (run_all ops db') ≡ err no_rows
unfolding rotate_session ◌>>=◌ query refuse_if
rotate_session_once c c' id current input input' db db' ops h ne new le =
    let later = c'.now in
    let (found, sessions_are) = rotate_session-ok c id current input db tt db' h in
    let first : IsGone later id current db' =
      subst (λ xs. All (λ s. rotates later id current s ≡ false) xs) (sym sessions_are)
        (gone c.now later id current input db.sessions le ne) in
    let last : IsGone later id current (run_all ops db') =
      run_all-KeepsTokens (KeepsGone later id current)
        (Free-Kept (KeepsGone later id current) (gone_free later id current)) ops
        (All-map _ _ ops (reissues-KeepsGone later id current) new) db' first in
    rw (any_where-false (rotates later id current) (run_all ops db').sessions last) refl
