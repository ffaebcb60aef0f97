-- ===== src/Catalogue/Create.antt =====
-- `Create`, and the checks that it shares with `UpdateOwned`.
use bee_ba.Common.{
  ℕ, Bool, not, Option, none, some, List, [], ◌∷◌, Result, ok, ◌>>=◌, ◌>>◌, fail_if, map_err,
  any_where,
}
use bee_ba.Common.Text.{Bytes, bytes_eq, to_lower, trim_space}
use bee_ba.Servers.Address.{validate_for_public_check}
use bee_ba.Jobs.Queue.{null_if_empty}
use bee_ba.Catalogue.Slug.{make_slug}
use bee_ba.Catalogue.Listing.{
  pending_verification, check_pending, Listing, TagInput, Site, ServerError, check_violation,
  unique_violation, bad_address, ServerEnv,
}
use bee_ba.Catalogue.Statement.{
  enqueue_server_check, replace_server_tags, is_valid_listing, slug_taken, encrypt_optional,
  OwnerItem, get_owned_server,
}

pub record CreateServer : Type 0 where
  pub owner_id : Bytes
  pub name : Bytes
  pub description : Bytes
  pub host : Bytes
  pub port : ℕ
  pub password : Option Bytes
  pub visibility : Bytes
  pub region : Bytes
  pub language : Bytes
  pub nsfw : Bool
  pub tags : List TagInput
  pub rules : Bytes
  pub discord_url : Option Bytes
  pub website_url : Option Bytes

-- `optionalString`
abbrev pub optional_string : Option Bytes → Bytes
optional_string none = []
optional_string (some t) = trim_space t

-- The row that `Create` inserts, with the defaults of the other columns.
abbrev pub new_listing : ServerEnv → CreateServer → Bytes → Listing
new_listing env input ciphertext = record {
  id = env.server_id;
  owner_id = input.owner_id;
  name = input.name;
  slug = make_slug env.tables input.name;
  description = input.description;
  host = to_lower env.tables (trim_space input.host);
  port = input.port;
  password_ciphertext = null_if_empty ciphertext;
  visibility = input.visibility;
  status = pending_verification;
  region = input.region;
  language = input.language;
  nsfw = input.nsfw;
  rules = input.rules;
  discord_url = null_if_empty (optional_string input.discord_url);
  website_url = null_if_empty (optional_string input.website_url);
  check_status = check_pending;
  check = record {
    online_players = none;
    max_players = none;
    protocol_version = none;
    server_name = none;
    motd = none;
    round_trip_ms = none;
    last_error = none;
  };
  last_checked_at = none;
  published_at = none;
  hidden_at = none;
  deleted_at = none;
  created_at = env.now;
  updated_at = env.now;
}

abbrev pub insert_listing : Listing → Site → Site
insert_listing l site = record site { listings = l ∷ site.listings }

-- `ValidateEndpointForPublicCheck`
abbrev pub check_endpoint : ServerEnv → Bytes → ℕ → Option Bytes → Result ServerError (Unit {0})
check_endpoint env host port password = map_err bad_address (
    validate_for_public_check env.tables env.ip
      (record { host = host; port = port; password = password }))

-- The constraints and the unique index on the row that is written.
abbrev pub check_row : ServerEnv → Listing → Site → Result ServerError (Unit {0})
check_row env l site = do
  fail_if (not (is_valid_listing env l)) check_violation
  fail_if (slug_taken l site.listings) unique_violation

-- `Create`; the primary key is tested with the row.
unfoldable pub create_server :
    ServerEnv → CreateServer → Site → Result ServerError (OwnerItem × Site)
unfolding validate_for_public_check make_slug bytes_eq
create_server env input site = do
  check_endpoint env input.host input.port input.password
  ciphertext ← encrypt_optional env input.password
  let l = new_listing env input ciphertext
  check_row env l site
  fail_if (any_where (λ x. bytes_eq x.id l.id) site.listings) unique_violation
  let site1 =
      enqueue_server_check env l.id (replace_server_tags l.id input.tags (insert_listing l site))
  item ← get_owned_server env input.owner_id l.id site1
  ok (item, site1)
