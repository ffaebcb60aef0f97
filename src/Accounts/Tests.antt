-- ===== src/Accounts/Tests.antt =====
-- Runs of the account repository: an owner, a user with a session, and one link of each kind.
use mathlib.Core.List.{Memᴰ}
use bee_ba.Common.{
  ◌≤◌, ◌≡◌, ◌≢◌, ◌⊎◌, refl, true, false, none, some, List, [], ◌∷◌, ok, err, All, is_null,
  if◌then◌else◌, arith, replicate, count_where, ◌&&◌,
}
use bee_ba.Common.Int.{pos}
use bee_ba.Common.Text.{
  Bytes, bytes_eq, utf8, contains, Tables, trim_space, to_lower, runes, rune_lower, encode_runes,
  trim_by, space_len, space_len_back,
}
use bee_ba.Jobs.Row.{find_row}
use bee_ba.Accounts.Db.{
  Db, no_rows, unique_violation, UserRow, Session, VerificationToken, Call, owner,
}
use bee_ba.Accounts.Statement.{
  ◌>>=◌, return, query, refuse_if, one_row, write, recent_mails, enforce_email_daily_limit,
  add_email_job,
}
use bee_ba.Accounts.Users.{
  RequestInput, Client, update_user, holder, load_public_user_for_update,
  insert_password_change_token, insert_user_email_audit, is_hash, is_valid_email, add_role,
}
use bee_ba.Accounts.Confirm.{
  verify_email, has_address, confirm_password_change, request_password_change, is_open,
}
use bee_ba.Accounts.Sessions.{
  SessionInput, rotate_session, session_invalid, token_taken, has_role, roles_of, find_user,
}
use bee_ba.Accounts.Admin.{
  AdminUser, AdminUserActionInput, AdminUserRolesInput, load_admin_user, load_admin_user_for_update,
  insert_user_audit, ban_user, unban_user, is_active_id, owner_count, allowed_role, grant_roles,
  check_role_change, set_user_roles,
}
use bee_ba.Accounts.Run.{Op, rotates_session, bans, unbans, sets_roles, commit, step, run_all}
use bee_ba.Accounts.Once.{address_link, follow, follow_once}
use bee_ba.Accounts.Revoked.{IsClosed, confirm_password_change-IsClosed, ban_user-IsClosed}
use bee_ba.Accounts.Addresses.{verify_email-sent_to}
use bee_ba.Accounts.Limit.{asks_password, request, request-recent_mails}
use bee_ba.Accounts.Rotate.{rotate_session_once}
use bee_ba.Accounts.Normal.{normalize_admin_roles, roles_loop}
use bee_ba.Accounts.Owner.Last.{run_all-owner_count}
use bee_ba.Accounts.Owner.Roles.{set_user_roles_lem, set_user_roles-ne-unique_violation}

abbrev same_text : Bytes → Bytes
same_text t = t

abbrev call : Call
call = record {
  now = 100;
  row_id = utf8 "r";
  token_id = utf8 "k";
  job_id = 7;
  lower = same_text;
  trim = same_text;
}

abbrev user_of : Bytes → Bytes → UserRow
user_of id email = record {
  id = id;
  email = email;
  username = id;
  display_name = none;
  password_hash = utf8 "p";
  email_verified_at = none;
  banned_at = none;
  deleted_at = none;
  created_at = 1;
  updated_at = 1;
}

abbrev session : Session
session = record {
  id = utf8 "s";
  user_id = utf8 "u";
  access_token_hash = utf8 "a";
  refresh_token_hash = utf8 "f";
  user_agent = none;
  ip_address = none;
  access_expires_at = 150;
  refresh_expires_at = 500;
  revoked_at = none;
  updated_at = 1;
}

abbrev hash : Bytes
hash = utf8 "h"

abbrev db : Db
db = record {
  users = user_of (utf8 "o") (utf8 "o@b") ∷ (user_of (utf8 "u") (utf8 "u@b") ∷ []);
  roles =
      record { user_id = utf8 "o"; role = owner; granted_by = none }
      ∷ (record { user_id = utf8 "u"; role = utf8 "user"; granted_by = none } ∷ []);
  sessions = session ∷ [];
  verification_tokens =
      record {
        id = utf8 "v";
        user_id = utf8 "u";
        email = utf8 "u@b";
        token_hash = hash;
        expires_at = 200;
        used_at = none;
      }
      ∷ [];
  password_tokens =
      record {
        id = utf8 "w";
        user_id = utf8 "u";
        email = utf8 "u@b";
        token_hash = hash;
        password_hash = utf8 "q";
        expires_at = 200;
        used_at = none;
      }
      ∷ [];
  email_tokens = [];
  worker_jobs = [];
  audit_logs = [];
}

abbrev client : Client
client = record { ip_address = []; user_agent = [] }

abbrev on_user : AdminUserActionInput
on_user = record {
  actor_user_id = utf8 "o";
  target_user_id = utf8 "u";
  reason = utf8 "spam";
  ip_address = [];
  user_agent = [];
}

-- A ban and its end.
abbrev ops : List Op
ops = bans call on_user ∷ (unbans call on_user ∷ [])

abbrev verified_user : UserRow
verified_user = record (user_of (utf8 "u") (utf8 "u@b")) {
  email_verified_at = some 100;
  updated_at = 100;
}

verified_run :
    verify_email call hash client db
    ≡ ok ((verified_user, false), commit (verify_email call hash client) db)
unfolding commit verify_email ◌>>=◌ return query one_row write bytes_eq is_open holder update_user
    insert_user_email_audit
verified_run = refl

follow_once_example :
    follow address_link call hash client
      (run_all ops (commit (follow address_link call hash client) db))
    ≡ err no_rows
unfolding commit follow verify_email ◌>>=◌ return query one_row write bytes_eq is_open holder
    update_user insert_user_email_audit
follow_once_example =
    follow_once address_link call call hash client client db
      (commit (follow address_link call hash client) db) ops
      ((refl, (refl, tt)), (refl, tt), (refl, tt), (refl, tt), tt) refl

verify_email-sent_to_example :
    (t : VerificationToken) × Memᴰ t (run_all ops db).verification_tokens
    × (t.token_hash ≡ hash)
    × (t.user_id ≡ utf8 "u")
    × (t.email ≡ utf8 "u@b")
    × (is_null verified_user.email_verified_at ≡ false)
unfolding commit step run_all ban_user load_admin_user load_admin_user_for_update insert_user_audit
    refuse_if contains roles_of has_role find_user unban_user verify_email ◌>>=◌ return query
    one_row write bytes_eq is_open holder update_user insert_user_email_audit
verify_email-sent_to_example =
    verify_email-sent_to ops db call hash client verified_user false
      (commit (verify_email call hash client) (run_all ops db))
      (
        ((refl, (refl, tt)), (refl, tt), (refl, tt), (refl, tt), tt),
        (λ unused. record { present = refl; settled = (λ e. ground arith, (λ e. refl, tt)) }, tt),
      )
      refl

confirm_password_change-IsClosed_example :
    IsClosed (utf8 "s") (run_all ops (commit (confirm_password_change call hash client) db))
unfolding commit confirm_password_change has_address ◌>>=◌ return query one_row write bytes_eq
    is_open holder update_user insert_user_email_audit
confirm_password_change-IsClosed_example =
    confirm_password_change-IsClosed call hash client db
      (commit (confirm_password_change call hash client) db) (user_of (utf8 "u") (utf8 "u@b"))
      session ops ((refl, (refl, tt)), (refl, tt), (refl, tt), (refl, tt), tt) refl (Memᴰ.head refl)
      refl

banned_user : AdminUser
banned_user = record {
  row = record (user_of (utf8 "u") (utf8 "u@b")) { banned_at = some 100; updated_at = 100 };
  roles = utf8 "user" ∷ [];
}

ban_user-IsClosed_example :
    (has_role (utf8 "u") owner db.roles ≡ false)
    × All
        (λ s.
          s.user_id ≡ utf8 "u" → IsClosed s.id (run_all ops (commit (ban_user call on_user) db)))
        db.sessions
unfolding banned_user commit ban_user load_admin_user load_admin_user_for_update insert_user_audit
    refuse_if contains roles_of has_role find_user ◌>>=◌ return query one_row write bytes_eq
    update_user
ban_user-IsClosed_example =
    ban_user-IsClosed call on_user db (commit (ban_user call on_user) db) banned_user ops
      ((refl, (refl, tt)), (refl, tt), (refl, tt), (refl, tt), tt) refl

abbrev demotion : AdminUserRolesInput
demotion = record {
  actor_user_id = utf8 "o";
  target_user_id = utf8 "o";
  roles = utf8 "user" ∷ [];
  allow_owner_role = true;
  ip_address = [];
  user_agent = [];
}

abbrev promotion : AdminUserRolesInput
promotion = record {
  actor_user_id = utf8 "o";
  target_user_id = utf8 "u";
  roles = utf8 "user" ∷ (owner ∷ []);
  allow_owner_role = true;
  ip_address = [];
  user_agent = [];
}

abbrev changes : List Op
changes = sets_roles call demotion ∷ (sets_roles call promotion ∷ (sets_roles call demotion ∷ []))

run_all-owner_count_example :
    ((id : Bytes)
      → count_where (λ r. bytes_eq r.user_id id && bytes_eq r.role owner) (run_all changes db).roles
        ≤ 1)
    × (1 ≤ owner_count (run_all changes db))
unfolding owner_count is_active_id find_user bytes_eq
run_all-owner_count_example = run_all-owner_count changes db (λ id. ground arith) (omega arith)

abbrev promoted : Db
promoted = commit (set_user_roles call promotion) db

abbrev two_roles : AdminUser
two_roles = record { row = user_of (utf8 "u") (utf8 "u@b"); roles = owner ∷ (utf8 "user" ∷ []) }

set_user_roles_lem_example :
    ((id r : Bytes)
      → has_role id r promoted.roles
        ≡ (if bytes_eq (utf8 "u") id then contains r promotion.roles else has_role id r db.roles))
    × All (λ r. allowed_role r ≡ true) promotion.roles
    × (true ≡ false
        → (has_role (utf8 "u") owner db.roles ≡ false) × (contains owner promotion.roles ≡ false))
    × (promoted.users ≡ db.users)
    × (promoted.sessions ≡ db.sessions)
unfolding commit set_user_roles load_admin_user load_admin_user_for_update insert_user_audit
    refuse_if check_role_change grant_roles add_role allowed_role owner_count is_active_id contains
    roles_of has_role find_user ◌>>=◌ return query one_row write bytes_eq
set_user_roles_lem_example = set_user_roles_lem call promotion db two_roles promoted refl

abbrev tables : Tables
tables = record { lower = λ c. c; letter = λ c. true; digit = λ c. false }

set_user_roles-ne-unique_violation_example : set_user_roles call promotion db ≢ err unique_violation
unfolding normalize_admin_roles roles_loop allowed_role contains bytes_eq trim_space to_lower runes
    rune_lower encode_runes trim_by space_len space_len_back
set_user_roles-ne-unique_violation_example =
    set_user_roles-ne-unique_violation tables (utf8 " User" ∷ (utf8 "OWNER" ∷ (utf8 "user" ∷ [])))
      call promotion db refl

abbrev asked : RequestInput
asked = record {
  user_id = utf8 "u";
  token_hash = replicate 64 b'a';
  token = utf8 "t";
  expires_at = 300;
  email_daily_limit = pos 1;
  ip_address = [];
  user_agent = [];
}

request-recent_mails_example :
    ((commit (request call (asks_password (utf8 "z") asked)) db).worker_jobs ≡ [])
    ⊎ (recent_mails 100 (commit (request call (asks_password (utf8 "z") asked)) db).worker_jobs ≤ 1)
unfolding commit request request_password_change load_public_user_for_update
    insert_password_change_token refuse_if is_hash is_valid_email enforce_email_daily_limit
    add_email_job recent_mails ◌>>=◌ return query one_row write bytes_eq insert_user_email_audit
    find_row
request-recent_mails_example =
    request-recent_mails call (asks_password (utf8 "z") asked) 0 db
      (commit (request call (asks_password (utf8 "z") asked)) db) refl refl

abbrev renewed : SessionInput
renewed = record {
  user_id = utf8 "u";
  access_token_hash = replicate 64 b'a';
  refresh_token_hash = replicate 64 b'b';
  user_agent = [];
  ip_address = [];
  access_expires_at = 160;
  refresh_expires_at = 600;
}

-- A further rotation and a ban come in between.
abbrev later_calls : List Op
later_calls =
    rotates_session (record call { now = 110 }) (utf8 "s") (replicate 64 b'b')
      (record renewed { refresh_token_hash = replicate 64 b'c' })
    ∷ (bans call on_user ∷ [])

rotate_session_once_example :
    rotate_session
      (record call { now = 120 })
      (utf8 "s")
      (utf8 "f")
      renewed
      (run_all later_calls (commit (rotate_session call (utf8 "s") (utf8 "f") renewed) db))
    ≡ err no_rows
unfolding commit rotate_session session_invalid token_taken is_hash ◌>>=◌ query refuse_if write
    bytes_eq
rotate_session_once_example =
    rotate_session_once call (record call { now = 120 }) (utf8 "s") (utf8 "f") renewed renewed db
      (commit (rotate_session call (utf8 "s") (utf8 "f") renewed) db) later_calls refl (λ e. cc e)
      ((λ e. cc e), (tt, tt)) (omega arith)
