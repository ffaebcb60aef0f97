-- ===== src/Catalogue/Owner.antt =====
-- The calls of an owner on a server that is listed: `UpdateOwned`, `DeleteOwned` and
-- `RequestVerification`.
use bee_ba.Common.{
  ℕ, Bool, true, false, ◌||◌, not, Option, none, some, List, Result, ok, ◌>>=◌, ◌>>◌, fail_if, ◌==◌,
  if◌then◌else◌, any_where,
}
use bee_ba.Common.Text.{Bytes, bytes_eq, to_lower, trim_space}
use bee_ba.Servers.Address.{validate_for_public_check}
use bee_ba.Jobs.Queue.{null_if_empty}
use bee_ba.Catalogue.Slug.{make_slug}
use bee_ba.Catalogue.Listing.{
  pending_verification, deleted, check_pending, Listing, TagInput, Site, ServerError, no_rows,
  ServerEnv,
}
use bee_ba.Catalogue.Statement.{
  is_owned, set_listings, enqueue_server_check, replace_server_tags, encrypt_optional, OwnerItem,
  get_owned_server,
}
use bee_ba.Catalogue.Create.{optional_string, check_endpoint, check_row}

-- A field is none where the request leaves it alone.
pub record UpdateServer : Type 0 where
  pub name : Option Bytes
  pub description : Option Bytes
  pub host : Option Bytes
  pub port : Option ℕ
  pub password : Option (Option Bytes)
  pub visibility : Option Bytes
  pub region : Option Bytes
  pub language : Option Bytes
  pub nsfw : Option Bool
  pub tags : Option (List TagInput)
  pub rules : Option Bytes
  pub discord_url : Option (Option Bytes)
  pub website_url : Option (Option Bytes)

module _ {A B : Type 0} where
  -- `value := before; if input != nil { value = f(*input) }`
  abbrev pub given : (A → B) → Option A → B → B
  given f none before = before
  given f (some a) before = f a

abbrev pub same_optional_string : Option Bytes → Option Bytes → Bool
same_optional_string none none = true
same_optional_string (some a) (some b) = bytes_eq a b
same_optional_string _ _ = false

-- `passwordCiphertext`
abbrev pub new_ciphertext :
    ServerEnv → Option (Option Bytes) → Option Bytes → Result ServerError (Option Bytes)
new_ciphertext env none before = ok before
new_ciphertext env (some password) before = do
  encrypted ← encrypt_optional env password
  ok (null_if_empty encrypted)

abbrev pub new_host : ServerEnv → UpdateServer → Listing → Bytes
new_host env input before = given (λ h. to_lower env.tables (trim_space h)) input.host before.host

abbrev pub new_port : UpdateServer → Listing → ℕ
new_port input before = given (λ p. p) input.port before.port

-- `endpointChanged`
abbrev pub endpoint_changed : ServerEnv → UpdateServer → Option Bytes → Listing → Bool
endpoint_changed env input ciphertext before =
    not (bytes_eq (new_host env input before) before.host)
    || not (new_port input before == before.port)
    || not (same_optional_string ciphertext before.password_ciphertext)

-- The row that `UpdateOwned` writes.
abbrev pub updated_listing : ServerEnv → UpdateServer → Option Bytes → Listing → Listing
updated_listing env input ciphertext l = record l {
  name = given trim_space input.name l.name;
  slug = given (λ n. make_slug env.tables (trim_space n)) input.name l.slug;
  description = given trim_space input.description l.description;
  host = new_host env input l;
  port = new_port input l;
  password_ciphertext = ciphertext;
  visibility = given trim_space input.visibility l.visibility;
  region = given trim_space input.region l.region;
  language = given trim_space input.language l.language;
  nsfw = given (λ b. b) input.nsfw l.nsfw;
  rules = given trim_space input.rules l.rules;
  discord_url = null_if_empty (optional_string (given (λ t. t) input.discord_url l.discord_url));
  website_url = null_if_empty (optional_string (given (λ t. t) input.website_url l.website_url));
  status = if endpoint_changed env input ciphertext l then pending_verification else l.status;
  check_status = if endpoint_changed env input ciphertext l then check_pending else l.check_status;
  updated_at = env.now;
}

-- `if input.Tags != nil`
abbrev pub update_tags : Bytes → Option (List TagInput) → Site → Site
update_tags id none site = site
update_tags id (some tags) site = replace_server_tags id tags site

-- `if endpointChanged`
abbrev pub check_again : ServerEnv → Bool → Bytes → Site → Site
check_again env changed id site = if changed then enqueue_server_check env id site else site

-- `UpdateOwned`
unfoldable pub update_owned :
    ServerEnv → Bytes → Bytes → UpdateServer → Site → Result ServerError (OwnerItem × Site)
unfolding validate_for_public_check make_slug bytes_eq
update_owned env owner id input site = do
  before ← get_owned_server env owner id site
  ciphertext ← new_ciphertext env input.password before.row.password_ciphertext
  check_endpoint env (new_host env input before.row) (new_port input before.row)
      (given (λ p. p) input.password before.password)
  let l = updated_listing env input ciphertext before.row
  check_row env l site
  let site1 =
      update_tags id input.tags
        (set_listings (is_owned owner id) (updated_listing env input ciphertext) site)
  let site2 = check_again env (endpoint_changed env input ciphertext before.row) id site1
  item ← get_owned_server env owner id site2
  ok (item, site2)

abbrev pub deleted_listing : ServerEnv → Listing → Listing
deleted_listing env l = record l {
  status = deleted;
  deleted_at = some env.now;
  updated_at = env.now;
}

-- `DeleteOwned`
unfoldable pub delete_owned : ServerEnv → Bytes → Bytes → Site → Result ServerError Site
unfolding bytes_eq
delete_owned env owner id site = do
  fail_if (not (any_where (is_owned owner id) site.listings)) no_rows
  ok (set_listings (is_owned owner id) (deleted_listing env) site)

abbrev pub requested_listing : ServerEnv → Listing → Listing
requested_listing env l = record l {
  status = pending_verification;
  check_status = check_pending;
  check = record l.check { last_error = none };
  updated_at = env.now;
}

-- `RequestVerification`
unfoldable pub request_verification :
    ServerEnv → Bytes → Bytes → Site → Result ServerError (OwnerItem × Site)
unfolding bytes_eq
request_verification env owner id site = do
  fail_if (not (any_where (is_owned owner id) site.listings)) no_rows
  let site1 =
      enqueue_server_check env id (set_listings (is_owned owner id) (requested_listing env) site)
  item ← get_owned_server env owner id site1
  ok (item, site1)
