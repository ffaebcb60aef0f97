-- ===== src/Worker/Server.antt =====
-- app/worker.go: `processServerCheck`. The clock, the network and the text of an error are
-- arguments.
pub mod Shown
mod Tests
use bee_ba.Common.{ℕ, Option, none, some, List, [], ◌∷◌, Result, ok, err, map_err, if◌then◌else◌}
use bee_ba.Common.Text.{Bytes, bytes_eq, trim_space, utf8}
use bee_ba.Jobs.Row.{AdminJob, Job, JobError, member}
use bee_ba.Jobs.Queue.{mark_succeeded}
use bee_ba.Servers.Endpoint.{is_empty}
use bee_ba.ServerCheck.Packet.{Info}
use bee_ba.ServerCheck.Probe.{Network, ProbeError, Sent, probe}
use bee_ba.Catalogue.Listing.{
  check_online, check_offline, CheckResult, Site, ServerEnv, ServerError, no_rows,
}
use bee_ba.Catalogue.Run.{ServerOp, run_servers}
use bee_ba.Catalogue.Check.{ServerCheckTarget, get_check_target, complete_check}

pub data ServerCheckError : Type 0 where
  check_payload_incomplete : ServerCheckError
  target_failure complete_failure : ServerError → ServerCheckError
  check_mark_failure : JobError → ServerCheckError

pub record ServerCheckEnv : Type 0 where
  pub server : ServerEnv
  pub net : Network
  pub checked_at : ℕ
  pub error_text : ProbeError → Bytes

-- What was sent, the tables afterwards, and the error if there is one. What `CompleteCheck` has
-- committed stays, also where the job cannot be marked.
pub record ServerChecked : Type 0 where
  pub sent : List Sent
  pub site : Site
  pub outcome : Result ServerCheckError (Unit {0})

abbrev pub server_id_of : Option Bytes → Bytes
server_id_of none = []
server_id_of (some id) = id

-- The result of a check, for an answer and for an error of the probe.
abbrev pub check_result : ServerCheckEnv → Result ProbeError Info → CheckResult
check_result env (ok info) = record {
  status = check_online;
  columns = record {
    online_players = some info.online_players;
    max_players = some info.max_players;
    protocol_version = some info.protocol_version;
    server_name = some (trim_space info.server_name);
    motd = some (trim_space info.motd);
    round_trip_ms = some info.round_trip_ms;
    last_error = none;
  };
  checked_at = env.checked_at;
}
check_result env (err e) = record {
  status = check_offline;
  columns = record {
    online_players = none;
    max_players = none;
    protocol_version = none;
    server_name = none;
    motd = none;
    round_trip_ms = none;
    last_error = some (env.error_text e);
  };
  checked_at = env.checked_at;
}

abbrev pub marked : List Sent → Site → Result JobError (List AdminJob) → ServerChecked
marked sent site (ok jobs) = record {
  sent = sent;
  site = record site { jobs = jobs };
  outcome = ok tt;
}
marked sent site (err e) = record { sent = sent; site = site; outcome = err (check_mark_failure e) }

-- `MarkSucceeded`, after `sent`.
unfoldable pub finish_check : ServerCheckEnv → Job → List Sent → Site → ServerChecked
unfolding mark_succeeded
finish_check env job sent site = marked sent site (mark_succeeded env.server.now job.id site.jobs)

abbrev pub completed :
    ServerCheckEnv → Job → List Sent → Site → Result ServerError Site → ServerChecked
completed env job sent site (ok after) = finish_check env job sent after
completed env job sent site (err e) = record {
  sent = sent;
  site = site;
  outcome = err (complete_failure e);
}

-- `CompleteCheck` with the result of the probe.
unfoldable pub complete_with :
    ServerCheckEnv → Job → Bytes → Site → List Sent × Result ProbeError Info → ServerChecked
unfolding complete_check finish_check
complete_with env job id site (sent, answer) =
    completed env job sent site (complete_check env.server id (check_result env answer) site)

-- A server that is not available for a check ends the job. `meanwhile` are the tables once the probe
-- is over.
unfoldable pub check_target :
    ServerCheckEnv
    → Job
    → Bytes
    → Site
    → Site
    → Result ServerError ServerCheckTarget
    → ServerChecked
unfolding probe complete_with finish_check
check_target env job id site meanwhile (err no_rows) = finish_check env job [] site
check_target env job id site meanwhile (err e) = record {
  sent = [];
  site = site;
  outcome = err (target_failure e);
}
check_target env job id site meanwhile (ok target) =
    complete_with env job id meanwhile
      (probe env.server.tables env.server.ip env.net target.host target.port)

-- `processServerCheck`. Its statements are transactions of their own: `waiting` are the calls of the
-- catalogue, by any client and by other workers, that commit between `GetCheckTarget` and
-- `CompleteCheck`, while the probe waits for its answer. `MarkSucceeded` writes to no listing, so that
-- a call between it and `CompleteCheck` can be taken to come after both.
unfoldable pub process_server_check : ServerCheckEnv → Job → List ServerOp → Site → ServerChecked
unfolding member get_check_target check_target run_servers
process_server_check env job waiting site =
    let id = server_id_of (member (utf8 "server_id") job.payload) in
    if is_empty id
    then record { sent = []; site = site; outcome = err check_payload_incomplete }
    else check_target env job id site (run_servers waiting site) (get_check_target id site)
