-- ===== src/Catalogue/Admin.antt =====
-- `Hide`, `Restore` and `GetPublished`.
use bee_ba.Common.{
  ℕ, Bool, true, false, ◌&&◌, not, Option, none, some, ◌∷◌, Result, ok, ◌>>=◌, or_fail, is_null,
  if◌then◌else◌, find_where,
}
use bee_ba.Common.Text.{Bytes, bytes_eq, utf8}
use bee_ba.Jobs.Queue.{null_if_empty}
use bee_ba.Catalogue.Listing.{
  ListingStatus, published, offline, hidden, Listing, Site, ServerError, no_rows, ServerEnv,
}
use bee_ba.Catalogue.Statement.{is_server, set_listings, decrypt_optional, OwnerItem}

pub record AdminInput : Type 0 where
  pub actor_user_id : Bytes
  pub server_id : Bytes
  pub reason : Bytes
  pub ip_address : Bytes
  pub user_agent : Bytes

-- `hiddenAtExpr`, for the status hidden and for any other.
abbrev pub admin_listing : ServerEnv → Bool → Listing → Listing
admin_listing env hide l = record l {
  status = if hide then hidden else published;
  hidden_at = if hide then some env.now else none;
  updated_at = env.now;
}

-- `setAdminStatus`; its status is hidden or published.
unfoldable pub set_admin_status :
    ServerEnv → Bool → AdminInput → Site → Result ServerError (OwnerItem × Site)
unfolding bytes_eq
set_admin_status env hide input site = do
  before ← or_fail (find_where (λ l. bytes_eq l.id input.server_id) site.listings) no_rows
  let site1 = set_listings (is_server input.server_id) (admin_listing env hide) site
  after ← or_fail (find_where (λ l. bytes_eq l.id input.server_id) site1.listings) no_rows
  let site2 : Site = record site1 {
    audit_logs =
        record {
          actor_user_id = input.actor_user_id;
          action = if hide then utf8 "server.hidden" else utf8 "server.published";
          server_id = input.server_id;
          before = before;
          after = after;
          reason = input.reason;
          ip_address = null_if_empty input.ip_address;
          user_agent = null_if_empty input.user_agent;
        }
        ∷ site1.audit_logs;
  }
  password ← decrypt_optional env after.password_ciphertext
  ok (record { row = after; password = password }, site2)

abbrev pub hide : ServerEnv → AdminInput → Site → Result ServerError (OwnerItem × Site)
hide env = set_admin_status env true

abbrev pub restore : ServerEnv → AdminInput → Site → Result ServerError (OwnerItem × Site)
restore env = set_admin_status env false

-- status = 'published' OR (status = 'offline' AND published_at IS NOT NULL)
abbrev pub is_shown : ListingStatus → Option ℕ → Bool
is_shown published at = true
is_shown offline at = not (is_null at)
is_shown _ at = false

-- The condition of `GetPublished`.
abbrev pub is_public : Bytes → Listing → Bool
is_public id l =
    bytes_eq l.id id
    && is_shown l.status l.published_at
    && is_null l.deleted_at
    && is_null l.hidden_at

-- `GetPublished`
unfoldable pub get_published : ServerEnv → Bytes → Site → Result ServerError OwnerItem
unfolding bytes_eq
get_published env id site = do
  row ← or_fail (find_where (is_public id) site.listings) no_rows
  password ← decrypt_optional env row.password_ciphertext
  ok (record { row = row; password = password })
