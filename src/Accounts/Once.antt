-- ===== src/Accounts/Once.antt =====
-- A confirmation link works once.
use mathlib.Core.List.{Memᴰ}
use mathlib.Core.Path.{subst}
use bee_ba.Common.{
  ℕ, ◌≡◌, refl, sym, ap, ◌∙◌, Bool, true, false, ◌&&◌, not, Option, none, some, List, ok, err,
  is_null, update_where, All-map, IsKeyed, IsKeyed-update, IsKeyed-Settled, Memᴰ-update_where,
  find_where-none, Settled, arith,
}
use bee_ba.Common.Text.{Bytes, bytes_eq, bytes_eq_iff}
use bee_ba.Accounts.Db.{Db, no_rows, UserRow, VerificationToken, PasswordToken, EmailToken, Call}
use bee_ba.Accounts.Statement.{M, ◌>>=◌, return, query, one_row}
use bee_ba.Accounts.Users.{Client, holder}
use bee_ba.Accounts.Confirm.{
  is_open, has_address, verify_email, confirm_password_change, confirm_email_change,
}
use bee_ba.Accounts.Run.{Op, run_all}
use bee_ba.Accounts.Run.Within.{bind-ok, return-ok}
use bee_ba.Accounts.Unique.{
  IsUnique, IsSpentVerification, IsSpentPassword, IsSpentEmail, run_all-Spends,
}
use bee_ba.Accounts.Outcome.{
  verify_email-Verified, confirm_password_change-PasswordConfirmed,
  confirm_email_change-EmailConfirmed,
}

-- The three links that a mail can hold.
pub data Link : Type 0 where
  address_link password_link new_address_link : Link

done : {A : Type 0} → M A → M (Unit {0})
done m = m >>= λ _. return tt

-- The call that a link leads to.
unfoldable pub follow : Link → Call → Bytes → Client → M (Unit {0})
unfolding done
follow address_link c hash client = done (verify_email c hash client)
follow password_link c hash client = done (confirm_password_change c hash client)
follow new_address_link c hash client = done (confirm_email_change c hash client)

open-hash :
    (now : ℕ) (hash token_hash user_id : Bytes) (used_at : Option ℕ) (expires_at : ℕ) (db : Db)
    → is_open now hash token_hash user_id used_at expires_at db ≡ true
    → token_hash ≡ hash
unfolding is_open
open-hash now hash token_hash user_id used_at expires_at db h =
    (bytes_eq_iff token_hash hash).0 (ground arith)

-- A token of another hash, or one that is used, opens nothing.
not-open :
    (now : ℕ) (hash token_hash user_id : Bytes) (used_at : Option ℕ) (expires_at : ℕ) (db : Db)
    → (token_hash ≡ hash → not (is_null used_at) ≡ true)
    → is_open now hash token_hash user_id used_at expires_at db ≡ false
unfolding is_open
not-open now hash token_hash user_id used_at expires_at db h =
    ground (arith, bytes_eq_iff token_hash hash, h)

-- The only token with the hash has been marked.
marked-Settled {ℓ} :
    {A : Type ℓ} (key id : A → Bytes) (used : A → Bool) (mark : A → A) (t : A) (xs ts : List A)
    (hash : Bytes)
    → ((x : A) → key (mark x) ≡ key x)
    → ((x : A) → used (mark x) ≡ true)
    → IsKeyed key xs
    → Memᴰ t xs
    → key t ≡ hash
    → ts ≡ update_where (λ x. bytes_eq (id x) (id t)) mark xs
    → Settled key used hash ts
marked-Settled key id used mark t xs ts hash same marks u m hash_is ts_is =
    subst (Settled key used hash) (sym ts_is) (
      subst (λ k. Settled key used k (update_where (λ x. bytes_eq (id x) (id t)) mark xs))
        (same t ∙ hash_is)
        (IsKeyed-Settled key used (mark t) _ (IsKeyed-update key _ mark xs same u)
          (Memᴰ-update_where _ mark t xs m ((bytes_eq_iff (id t) (id t)).1 refl)) (marks t)))

verify_email-Spent :
    (c : Call) (hash : Bytes) (client : Client) (db db' : Db) (u : UserRow) (already : Bool)
    → IsUnique db
    → verify_email c hash client db ≡ ok ((u, already), db')
    → IsSpentVerification hash db'
verify_email-Spent c hash client db db' u already unique h =
    let v = verify_email-Verified c hash client db u already db' h in
    marked-Settled (λ (t : VerificationToken). t.token_hash) (λ t. t.id)
      (λ t. not (is_null t.used_at)) (λ t. record t { used_at = some c.now }) v.token
      db.verification_tokens db'.verification_tokens hash (λ x. refl) (λ x. refl) unique.2
      v.in_table (open-hash c.now hash v.token.token_hash _ _ _ db v.open_token) v.tokens_are

confirm_password_change-Spent :
    (c : Call) (hash : Bytes) (client : Client) (db db' : Db) (u : UserRow)
    → IsUnique db
    → confirm_password_change c hash client db ≡ ok (u, db')
    → IsSpentPassword hash db'
confirm_password_change-Spent c hash client db db' u unique h =
    let v = confirm_password_change-PasswordConfirmed c hash client db u db' h in
    marked-Settled (λ (t : PasswordToken). t.token_hash) (λ t. t.id) (λ t. not (is_null t.used_at))
      (λ t. record t { used_at = some c.now }) v.token db.password_tokens db'.password_tokens hash
      (λ x. refl) (λ x. refl) unique.3 v.in_table
      (open-hash c.now hash v.token.token_hash _ _ _ db v.open_token) v.tokens_are

confirm_email_change-Spent :
    (c : Call) (hash : Bytes) (client : Client) (db db' : Db) (u : UserRow) (was : Bytes)
    → IsUnique db
    → confirm_email_change c hash client db ≡ ok ((u, was), db')
    → IsSpentEmail hash db'
confirm_email_change-Spent c hash client db db' u was unique h =
    let v = confirm_email_change-EmailConfirmed c hash client db u was db' h in
    marked-Settled (λ (t : EmailToken). t.token_hash) (λ t. t.id) (λ t. not (is_null t.used_at))
      (λ t. record t { used_at = some c.now }) v.token db.email_tokens db'.email_tokens hash
      (λ x. refl) (λ x. refl) unique.4 v.in_table
      (open-hash c.now hash v.token.token_hash _ _ _ db v.open_token) v.tokens_are

-- A search that finds nothing ends the call.
no_row :
    {A B : Type 0} (f : Db → Option A) (next : A → M B) (db : Db)
    → f db ≡ none
    → (query f >>= λ found. one_row found >>= next) db ≡ err no_rows
unfolding ◌>>=◌ query one_row
no_row f next db h = rw h refl

done_err : {A : Type 0} (m : M A) (db : Db) → m db ≡ err no_rows → done m db ≡ err no_rows
unfolding done ◌>>=◌
done_err m db h = rw h refl

verify_email_spent :
    (c : Call) (hash : Bytes) (client : Client) (db : Db)
    → IsSpentVerification hash db
    → verify_email c hash client db ≡ err no_rows
unfolding verify_email
verify_email_spent c hash client db s = no_row _ _ db (
    find_where-none _ db.verification_tokens
      (All-map _ _ db.verification_tokens (λ t h. not-open c.now hash _ _ _ _ db h) s.settled))

confirm_password_change_spent :
    (c : Call) (hash : Bytes) (client : Client) (db : Db)
    → IsSpentPassword hash db
    → confirm_password_change c hash client db ≡ err no_rows
unfolding confirm_password_change
confirm_password_change_spent c hash client db s = no_row _ _ db (
    find_where-none _ db.password_tokens (
      All-map _ _ db.password_tokens
        (λ t h.
          ap (λ b. b && has_address t.email (holder t.user_id db))
            (not-open c.now hash _ _ _ _ db h))
        s.settled))

confirm_email_change_spent :
    (c : Call) (hash : Bytes) (client : Client) (db : Db)
    → IsSpentEmail hash db
    → confirm_email_change c hash client db ≡ err no_rows
unfolding confirm_email_change
confirm_email_change_spent c hash client db s = no_row _ _ db (
    find_where-none _ db.email_tokens
      (All-map _ _ db.email_tokens (λ t h. not-open c.now hash _ _ _ _ db h) s.settled))

done_ok :
    {A : Type 0} (m : M A) (db : Db) {u : Unit {0}} {db' : Db}
    → done m db ≡ ok (u, db')
    → (a : A) × (m db ≡ ok (a, db'))
unfolding done
done_ok m db h =
    let (a, mid, h1, h2) = bind-ok m _ db h in
    (a, h1 ∙ ap (λ d. ok (a, d)) (sym (return-ok tt mid h2).1))

-- From a state with unique ids and token hashes, a link of any of the three kinds (the address of a
-- new account, a new password, a new address) that has been followed with success is refused as
-- unknown ever after, whatever calls of the repository are made in between.
pub follow_once :
    (k : Link) (c c' : Call) (hash : Bytes) (client client' : Client) (db db' : Db) (ops : List Op)
    → IsUnique db
    → follow k c hash client db ≡ ok (tt, db')
    → follow k c' hash client' (run_all ops db') ≡ err no_rows
unfolding follow
follow_once address_link c c' hash client client' db db' ops unique h =
    let (out, h1) = done_ok _ db h in
    done_err _ _ (
      verify_email_spent c' hash client' (run_all ops db') (
        (run_all-Spends hash ops db').0
          (verify_email-Spent c hash client db db' out.0 out.1 unique h1)))
follow_once password_link c c' hash client client' db db' ops unique h =
    let (out, h1) = done_ok _ db h in
    done_err _ _ (
      confirm_password_change_spent c' hash client' (run_all ops db') (
        (run_all-Spends hash ops db').1
          (confirm_password_change-Spent c hash client db db' out unique h1)))
follow_once new_address_link c c' hash client client' db db' ops unique h =
    let (out, h1) = done_ok _ db h in
    done_err _ _ (
      confirm_email_change_spent c' hash client' (run_all ops db') (
        (run_all-Spends hash ops db').2
          (confirm_email_change-Spent c hash client db db' out.0 out.1 unique h1)))
