-- ===== src/Catalogue/Tests.antt =====
-- Runs of the server catalogue at concrete inputs.
use mathlib.Core.List.{Memᴰ}
use bee_ba.Common.{
  ◌+◌, ◌⊎◌, All, length, ◌*◌, ◌≡◌, ◌≤◌, ◌<◌, refl, true, false, none, some, List, [], ◌∷◌, err,
  arith,
}
use bee_ba.Common.Int.{pos}
use bee_ba.Common.Text.{
  Bytes, utf8, bytes_eq, to_lower, runes, rune_len, rune_lower, encode_runes, trim_space, trim_by,
  space_len, space_len_back,
}
use bee_ba.ServerCheck.Tests.{plain_tables, sample_ip}
use bee_ba.Catalogue.Slug.{make_slug, slug_loop, drop_hyphens}
use bee_ba.Catalogue.Listing.{
  hidden, check_online, check_pending, pending_verification, CheckColumns, CheckResult, Listing,
  Site, no_rows, ServerEnv,
}
use bee_ba.Jobs.Row.{member}
use bee_ba.Catalogue.Check.{
  Intervals, candidates, insert_candidate, needs_check, interval_of, duration_milliseconds,
  due_listings, insert_check_jobs, enqueue_due_checks, millisecond,
}
use bee_ba.Catalogue.Admin.{get_published}
use bee_ba.Catalogue.Run.{ServerOp, requests, schedules, completes, run_servers}
use bee_ba.Catalogue.Hidden.{run_servers-get_published}
use bee_ba.Catalogue.Single.{IsSingle, run_servers-IsSingle}
use bee_ba.Catalogue.Checking.{HasCheck}
use bee_ba.Catalogue.Wanted.{IsDue}
use bee_ba.Catalogue.Due.{enqueue_due_checks_fair}

slug_run : make_slug plain_tables (utf8 " Old  Lamp! ") ≡ utf8 "old-lamp"
unfolding make_slug slug_loop drop_hyphens to_lower runes rune_len rune_lower encode_runes
    trim_space trim_by space_len space_len_back
slug_run = refl

abbrev pub no_columns : CheckColumns
no_columns = record {
  online_players = none;
  max_players = none;
  protocol_version = none;
  server_name = none;
  motd = none;
  round_trip_ms = none;
  last_error = none;
}

abbrev pub server_env : ServerEnv
server_env = record {
  now = 500;
  server_id = utf8 "s9";
  job_id = 40;
  tables = plain_tables;
  ip = sample_ip;
  trim = λ t. t;
  secrets = none;
}

abbrev pub waiting_listing : Listing
waiting_listing = record {
  id = utf8 "s1";
  owner_id = utf8 "u1";
  name = utf8 "Lamp";
  slug = utf8 "lamp";
  description = [];
  host = utf8 "a.b";
  port = 4296;
  password_ciphertext = none;
  visibility = utf8 "public";
  status = pending_verification;
  region = [];
  language = [];
  nsfw = false;
  rules = [];
  discord_url = none;
  website_url = none;
  check_status = check_pending;
  check = no_columns;
  last_checked_at = none;
  published_at = none;
  hidden_at = none;
  deleted_at = none;
  created_at = 1;
  updated_at = 1;
}

abbrev hidden_listing : Listing
hidden_listing = record waiting_listing { status = hidden; hidden_at = some 300 }

abbrev pub site_of : Listing → Site
site_of l = record {
  listings = l ∷ [];
  checks = [];
  tags = [];
  server_tags = [];
  jobs = [];
  audit_logs = [];
}

abbrev found_online : CheckResult
found_online = record { status = check_online; columns = no_columns; checked_at = 600 }

abbrev every_minute : Intervals
every_minute = record {
  pending_interval = pos (60000 * millisecond);
  online_interval = pos (60000 * millisecond);
  offline_interval = pos (60000 * millisecond);
}

-- The owner asks for a check of the hidden server, and it is found online.
abbrev owner_calls : List ServerOp
owner_calls =
    requests server_env (utf8 "u1") (utf8 "s1")
    ∷ (completes server_env (utf8 "s1") found_online ∷ [])

run_servers-get_published_example :
    get_published server_env (utf8 "s1") (run_servers owner_calls (site_of hidden_listing))
    ≡ err no_rows
unfolding bytes_eq
run_servers-get_published_example =
    run_servers-get_published (utf8 "s1") owner_calls server_env (site_of hidden_listing)
      (record { present = refl; settled = ((λ _. refl), tt) }) (tt, (tt, tt))

abbrev busy_calls : List ServerOp
busy_calls =
    schedules server_env true every_minute (pos 10)
    ∷ (requests server_env (utf8 "u1") (utf8 "s1")
        ∷ (schedules server_env true every_minute (pos 10) ∷ []))

run_servers-IsSingle_example : IsSingle (run_servers busy_calls (site_of waiting_listing))
run_servers-IsSingle_example =
    run_servers-IsSingle busy_calls (site_of waiting_listing)
      (record { keyed = (refl, tt); single = λ id. omega arith })

enqueue_due_checks_fair_example :
    (length
        (enqueue_due_checks server_env true every_minute (pos 10) (site_of waiting_listing)).1.jobs
      ≡ (enqueue_due_checks server_env true every_minute (pos 10) (site_of waiting_listing)).0 + 0)
    × ((enqueue_due_checks server_env true every_minute (pos 10) (site_of waiting_listing)).0 ≤ 10)
    × ((id : Bytes)
        → HasCheck id
            (enqueue_due_checks server_env true every_minute
              (pos 10)
              (site_of waiting_listing)).1.jobs
        → HasCheck id []
          ⊎ ((l : Listing) × Memᴰ l (waiting_listing ∷ [])
              × (l.id ≡ id)
              × IsDue 500 every_minute [] l))
    × ((enqueue_due_checks server_env true every_minute (pos 10) (site_of waiting_listing)).0 < 10
        → All
            (λ l.
              IsDue 500 every_minute [] l
              → HasCheck l.id
                  (enqueue_due_checks server_env true every_minute
                    (pos 10)
                    (site_of waiting_listing)).1.jobs)
            (waiting_listing ∷ []))
enqueue_due_checks_fair_example =
    enqueue_due_checks_fair server_env every_minute 10 (site_of waiting_listing)

-- The server that was just registered is due, and one check is added.
due_run : (enqueue_due_checks server_env true every_minute (pos 10) (site_of waiting_listing)).0 ≡ 1
unfolding enqueue_due_checks due_listings candidates insert_candidate needs_check interval_of
    duration_milliseconds insert_check_jobs bytes_eq member
due_run = refl
