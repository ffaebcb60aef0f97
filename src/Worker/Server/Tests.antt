-- ===== src/Worker/Server/Tests.antt =====
-- Runs of a server check at concrete inputs.
use mathlib.Core.List.{Memᴰ}
use bee_ba.Common.{◌≡◌, refl, ◌⊎◌, none, some, List, [], ◌∷◌}
use bee_ba.Common.Text.{
  utf8, bytes_eq, valid_utf8, rune_len, rune_count, trim_space, trim_by, space_len, space_len_back,
  to_lower, runes, rune_lower, encode_runes,
}
use bee_ba.BasisBee.Frame.{le_value}
use bee_ba.Jobs.Row.{Job, member}
use bee_ba.Servers.Endpoint.{validate_endpoint_shape, has_url_syntax}
use bee_ba.Servers.Address.{
  validate_for_public_check, is_localhost, has_suffix, validate_slice, validate_public_ip, unmap,
  is_loopback, is_private, is_link_local_unicast, is_link_local_multicast, is_multicast,
  is_unspecified, is_interface_local_multicast,
}
use bee_ba.ServerCheck.Packet.{
  parse_response, unwrap_packet, uint16, uint32, read_bytes, read_text, lite_net_string,
}
use bee_ba.ServerCheck.Probe.{probe, select}
use bee_ba.ServerCheck.Tests.{sample_network}
use bee_ba.Catalogue.Listing.{published, check_online, Listing}
use bee_ba.Catalogue.Check.{get_check_target, complete_check, new_status}
use bee_ba.Catalogue.Owner.{request_verification}
use bee_ba.Catalogue.Statement.{get_owned_server, enqueue_server_check}
use bee_ba.Catalogue.Run.{ServerOp, requests, server_step, run_servers}
use bee_ba.Catalogue.Tests.{server_env, waiting_listing, site_of}
use bee_ba.Worker.Server.{
  ServerCheckEnv, finish_check, complete_with, check_target, process_server_check,
}
use bee_ba.Worker.Server.Shown.{IsAnswered, process_server_check-published}

abbrev check_env : ServerCheckEnv
check_env = record {
  server = server_env;
  net = sample_network;
  checked_at = 480;
  error_text = λ e. utf8 "no answer";
}

abbrev check_job : Job
check_job = record {
  id = 40;
  queue_name = utf8 "server_check_queue";
  job_type = utf8 "check_basis_server";
  payload = (utf8 "server_id", utf8 "s1") ∷ [];
  attempt_count = 1;
  max_attempts = 3;
  created_at = 400;
}

abbrev online_listing : Listing
online_listing = record waiting_listing {
  status = published;
  check_status = check_online;
  check = record {
    online_players = some 3;
    max_players = some 10;
    protocol_version = some 1;
    server_name = some (utf8 "Lamp");
    motd = some [];
    round_trip_ms = some 20;
    last_error = none;
  };
  last_checked_at = some 480;
  published_at = some 480;
  updated_at = 500;
}

-- While the probe waits, the owner asks for another check of the server.
abbrev waiting : List ServerOp
waiting = requests server_env (utf8 "u1") (utf8 "s1") ∷ []

check_run :
    (process_server_check check_env check_job waiting (site_of waiting_listing)).site.listings
    ≡ online_listing ∷ []
unfolding process_server_check check_target complete_with finish_check get_check_target
    complete_check new_status member probe select validate_for_public_check validate_endpoint_shape
    has_url_syntax rune_count rune_len to_lower runes rune_lower encode_runes trim_space trim_by
    space_len space_len_back is_localhost has_suffix bytes_eq validate_slice validate_public_ip
    unmap is_loopback is_private is_link_local_unicast is_link_local_multicast is_multicast
    is_unspecified is_interface_local_multicast parse_response unwrap_packet uint32 uint16
    read_bytes le_value lite_net_string read_text valid_utf8 run_servers server_step
    request_verification get_owned_server enqueue_server_check
check_run = refl

process_server_check-published_example :
    (Memᴰ online_listing (site_of waiting_listing).listings
      ⊎ Memᴰ online_listing (run_servers waiting (site_of waiting_listing)).listings)
    ⊎ IsAnswered check_env waiting
        (site_of waiting_listing)
        (process_server_check check_env check_job waiting (site_of waiting_listing)).sent
        online_listing
process_server_check-published_example =
    process_server_check-published check_env check_job waiting (site_of waiting_listing)
      online_listing (refl, tt) refl (rw check_run (Memᴰ.head refl))
