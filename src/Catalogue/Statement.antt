-- ===== src/Catalogue/Statement.antt =====
-- repository/postgres/servers.go: the statements that its calls share.
use bee_ba.Common.{
  ℕ, Bool, true, false, ◌&&◌, ◌||◌, not, Option, none, some, List, [], ◌∷◌, Result, ok, err, ◌>>=◌,
  or_fail, ltb, leb, is_null, if◌then◌else◌, length, find_where, any_where, update_where,
  remove_where,
}
use bee_ba.Common.Text.{Bytes, bytes_eq, utf8, trim_space}
use bee_ba.Servers.Endpoint.{is_empty}
use bee_ba.Jobs.Row.{AdminJob, Status, pending, running, member}
use bee_ba.Jobs.Queue.{insert_job}
use bee_ba.Catalogue.Listing.{
  Listing, TagInput, Site, ServerError, SecretBox, ServerEnv, no_rows, no_secret_box, not_encrypted,
  not_decrypted,
}

-- WHERE id = $1 AND deleted_at IS NULL
abbrev pub is_server : Bytes → Listing → Bool
is_server id l = bytes_eq l.id id && is_null l.deleted_at

-- WHERE id = $1 AND owner_id = $2 AND deleted_at IS NULL
abbrev pub is_owned : Bytes → Bytes → Listing → Bool
is_owned owner id l = bytes_eq l.id id && bytes_eq l.owner_id owner && is_null l.deleted_at

-- UPDATE server_listings SET ... WHERE ...
abbrev pub set_listings : (Listing → Bool) → (Listing → Listing) → Site → Site
set_listings p f site = record site { listings = update_where p f site.listings }

abbrev pub server_check_queue : Bytes
server_check_queue = utf8 "server_check_queue"

-- status IN ('pending', 'running')
abbrev pub is_active_job : Status → Bool
is_active_job pending = true
is_active_job running = true
is_active_job _ = false

abbrev pub is_text : Bytes → Option Bytes → Bool
is_text id none = false
is_text id (some t) = bytes_eq t id

-- A job that checks the server and is not over.
abbrev pub is_check_job : Bytes → AdminJob → Bool
is_check_job id job =
    bytes_eq job.queue_name server_check_queue
    && is_active_job job.status
    && is_text id (member (utf8 "server_id") job.payload)

abbrev pub insert_check_job : ℕ → ℕ → Bytes → List AdminJob → List AdminJob
insert_check_job now job_id id jobs =
    insert_job now job_id server_check_queue (utf8 "check_basis_server")
      ((utf8 "server_id", id) ∷ []) 3 jobs

-- `enqueueServerCheckTx`: no job where one is pending or running.
unfoldable pub enqueue_server_check : ServerEnv → Bytes → Site → Site
unfolding bytes_eq member
enqueue_server_check env id site = record site {
  jobs =
      if any_where (is_check_job id) site.jobs
      then site.jobs
      else insert_check_job env.now env.job_id id site.jobs;
}

abbrev pub upsert_tag : TagInput → List TagInput → List TagInput
upsert_tag t tags = if any_where (λ x. bytes_eq x.slug t.slug) tags then tags else t ∷ tags

abbrev pub link_tag : Bytes → Bytes → List (Bytes × Bytes) → List (Bytes × Bytes)
link_tag id slug links =
    if any_where (λ (server, tag). bytes_eq server id && bytes_eq tag slug) links
    then links
    else (id, slug) ∷ links

unfoldable pub link_tags : Bytes → List TagInput → Site → Site
unfolding bytes_eq
link_tags id [] site = site
link_tags id (t ∷ ts) site = link_tags id ts (record site {
  tags = upsert_tag t site.tags;
  server_tags = link_tag id t.slug site.server_tags;
})

-- `replaceServerTagsTx`
unfoldable pub replace_server_tags : Bytes → List TagInput → Site → Site
unfolding link_tags bytes_eq
replace_server_tags id tags site = link_tags id tags (record site {
  server_tags = remove_where (λ (server, tag). bytes_eq server id) site.server_tags;
})

abbrev pub is_not_blank : ServerEnv → Bytes → Bool
is_not_blank env t = ltb 0 (length (env.trim t))

-- The constraints of server_listings on a row.
unfoldable pub is_valid_listing : ServerEnv → Listing → Bool
unfolding bytes_eq
is_valid_listing env l =
    is_not_blank env l.name
    && is_not_blank env l.slug
    && is_not_blank env l.host
    && leb 1 l.port
    && leb l.port 65535
    && (bytes_eq l.visibility (utf8 "public") || bytes_eq l.visibility (utf8 "unlisted"))

-- server_listings_owner_slug_unique_active
unfoldable pub slug_taken : Listing → List Listing → Bool
unfolding bytes_eq
slug_taken l listings =
    any_where
      (λ x.
        not (bytes_eq x.id l.id)
        && bytes_eq x.owner_id l.owner_id
        && bytes_eq x.slug l.slug
        && is_null x.deleted_at)
      listings

abbrev pub encrypt_with : Option SecretBox → Bytes → Result ServerError Bytes
encrypt_with none password = err no_secret_box
encrypt_with (some box) password = or_fail (box.encrypt password) not_encrypted

-- `encryptOptional`
abbrev pub encrypt_optional : ServerEnv → Option Bytes → Result ServerError Bytes
encrypt_optional env none = ok []
encrypt_optional env (some password) =
    if is_empty (trim_space password) then ok [] else encrypt_with env.secrets password

abbrev pub decrypt_with : Option SecretBox → Bytes → Result ServerError (Option Bytes)
decrypt_with none text = ok none
decrypt_with (some box) text = do
  password ← or_fail (box.decrypt text) not_decrypted
  ok (some password)

-- The password of a row that is read; without a secret box it is left out.
abbrev pub decrypt_optional : ServerEnv → Option Bytes → Result ServerError (Option Bytes)
decrypt_optional env none = ok none
decrypt_optional env (some text) = decrypt_with env.secrets text

-- The row of a server with its password; the rest of an `OwnerItem` is read from the same tables.
pub record OwnerItem : Type 0 where
  pub row : Listing
  pub password : Option Bytes

-- `getOwnedServerTx`
unfoldable pub get_owned_server : ServerEnv → Bytes → Bytes → Site → Result ServerError OwnerItem
unfolding bytes_eq
get_owned_server env owner id site = do
  row ← or_fail (find_where (is_owned owner id) site.listings) no_rows
  password ← decrypt_optional env row.password_ciphertext
  ok (record { row = row; password = password })
