-- ===== src/Catalogue/Listing.antt =====
-- The tables server_listings, server_checks and server_tags. The id of a server is the text of its
-- uuid.
use bee_ba.Common.{ℕ, Bool, Option, List}
use bee_ba.Common.Text.{Bytes, Tables}
use bee_ba.Servers.Endpoint.{EndpointError}
use bee_ba.Servers.Address.{IpText}
use bee_ba.Jobs.Row.{AdminJob}

-- server_listings.status
pub data ListingStatus : Type 0 where
  draft pending_verification pending_moderation published offline failed hidden deleted :
      ListingStatus

-- server_listings.check_status
pub data CheckStatus : Type 0 where
  check_pending check_running check_online check_offline check_failed : CheckStatus

-- The columns check_online_players to check_error; those of server_checks have the same meaning.
pub record CheckColumns : Type 0 where
  pub online_players : Option ℕ
  pub max_players : Option ℕ
  pub protocol_version : Option ℕ
  pub server_name : Option Bytes
  pub motd : Option Bytes
  pub round_trip_ms : Option ℕ
  pub last_error : Option Bytes

pub record CheckResult : Type 0 where
  pub status : CheckStatus
  pub columns : CheckColumns
  pub checked_at : ℕ

pub record Listing : Type 0 where
  pub id : Bytes
  pub owner_id : Bytes
  pub name : Bytes
  pub slug : Bytes
  pub description : Bytes
  pub host : Bytes
  pub port : ℕ
  pub password_ciphertext : Option Bytes
  pub visibility : Bytes
  pub status : ListingStatus
  pub region : Bytes
  pub language : Bytes
  pub nsfw : Bool
  pub rules : Bytes
  pub discord_url : Option Bytes
  pub website_url : Option Bytes
  pub check_status : CheckStatus
  pub check : CheckColumns
  pub last_checked_at : Option ℕ
  pub published_at : Option ℕ
  pub hidden_at : Option ℕ
  pub deleted_at : Option ℕ
  pub created_at : ℕ
  pub updated_at : ℕ

pub record TagInput : Type 0 where
  pub slug : Bytes
  pub name : Bytes

-- A row of audit_logs with the entity type `server_listing`.
pub record ServerAudit : Type 0 where
  pub actor_user_id : Bytes
  pub action : Bytes
  pub server_id : Bytes
  pub before : Listing
  pub after : Listing
  pub reason : Bytes
  pub ip_address : Option Bytes
  pub user_agent : Option Bytes

-- A tag is named by its slug, which is unique, so server_tags is a list of server ids and slugs.
pub record Site : Type 0 where
  pub listings : List Listing
  pub checks : List (Bytes × CheckResult)
  pub tags : List TagInput
  pub server_tags : List (Bytes × Bytes)
  pub jobs : List AdminJob
  pub audit_logs : List ServerAudit

pub data ServerError : Type 0 where
  no_rows check_violation unique_violation foreign_key_violation : ServerError
  no_secret_box not_encrypted not_decrypted : ServerError
  bad_address : EndpointError → ServerError

-- security/secretbox
pub record SecretBox : Type 0 where
  pub encrypt : Bytes → Option Bytes
  pub decrypt : Bytes → Option Bytes

-- What a call is given: now(), the uuid that it draws for a server, the first of the ids that the
-- database draws for jobs, the Unicode tables, the parsers of addresses, the database's trim, and
-- the secret box where there is one.
pub record ServerEnv : Type 0 where
  pub now : ℕ
  pub server_id : Bytes
  pub job_id : ℕ
  pub tables : Tables
  pub ip : IpText
  pub trim : Bytes → Bytes
  pub secrets : Option SecretBox
