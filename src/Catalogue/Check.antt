-- ===== src/Catalogue/Check.antt =====
-- `GetCheckTarget`, `CompleteCheck` and `EnqueueDueChecks`.
use bee_ba.Common.{
  ℕ, suc, ◌+◌, ◌*◌, ◌/◌, ◌%◌, ◌^◌, Bool, true, false, ◌&&◌, ◌||◌, not, Option, none, some, List, [],
  ◌∷◌, Result, ok, ◌>>=◌, ◌>>◌, fail_if, or_fail, ltb, leb, ◌==◌, is_null, if◌then◌else◌, length,
  take, find_where, any_where,
}
use bee_ba.Common.Int.{ℤ, pos, negsuc}
use bee_ba.Common.Text.{Bytes, bytes_eq}
use bee_ba.Jobs.Row.{AdminJob, member}
use bee_ba.Catalogue.Listing.{
  ListingStatus, pending_verification, published, offline, failed, hidden, CheckStatus,
  check_online, check_offline, check_failed, CheckResult, Listing, Site, ServerError, no_rows,
  foreign_key_violation, ServerEnv,
}
use bee_ba.Catalogue.Statement.{is_server, set_listings, is_check_job, insert_check_job}

pub record ServerCheckTarget : Type 0 where
  pub server_id : Bytes
  pub host : Bytes
  pub port : ℕ

abbrev pub is_hidden : ListingStatus → Bool
is_hidden hidden = true
is_hidden _ = false

-- WHERE id = $1 AND deleted_at IS NULL AND status <> 'hidden'
abbrev pub can_be_checked : Bytes → Listing → Bool
can_be_checked id l = is_server id l && not (is_hidden l.status)

-- `GetCheckTarget`; the port is cut to a uint16.
unfoldable pub get_check_target : Bytes → Site → Result ServerError ServerCheckTarget
unfolding bytes_eq
get_check_target id site = do
  l ← or_fail (find_where (can_be_checked id) site.listings) no_rows
  ok (record { server_id = l.id; host = l.host; port = l.port % 2 ^ 16 })

-- `newStatus`, for a check of each status.
unfoldable pub new_status : CheckStatus → ListingStatus → ListingStatus
new_status check_online pending_verification = published
new_status check_online offline = published
new_status check_online failed = published
new_status check_offline pending_verification = offline
new_status check_offline published = offline
new_status check_failed pending_verification = failed
new_status check_failed published = failed
new_status check_failed offline = failed
new_status _ status = status

abbrev pub is_online : CheckStatus → Bool
is_online check_online = true
is_online _ = false

abbrev pub checked_listing : ℕ → CheckResult → Listing → Listing
checked_listing now r l = record l {
  check_status = r.status;
  check = r.columns;
  last_checked_at = some r.checked_at;
  status = new_status r.status l.status;
  published_at =
      if is_online r.status && is_null l.published_at then some r.checked_at else l.published_at;
  updated_at = now;
}

-- `CompleteCheck`
unfoldable pub complete_check : ServerEnv → Bytes → CheckResult → Site → Result ServerError Site
unfolding bytes_eq new_status
complete_check env id r site = do
  fail_if (not (any_where (λ l. bytes_eq l.id id) site.listings)) foreign_key_violation
  ok (
      set_listings (can_be_checked id) (checked_listing env.now r)
        (record site { checks = (id, r) ∷ site.checks }))

abbrev pub millisecond : ℕ
millisecond = 1000000

abbrev at_least_one : ℕ → ℕ
at_least_one n = if ltb n 1 then 1 else n

-- `durationMilliseconds`
unfoldable pub duration_milliseconds : ℤ → ℕ
duration_milliseconds (negsuc d) = 0
duration_milliseconds (pos d) = if d == 0 then 0 else at_least_one (d / millisecond)

pub record Intervals : Type 0 where
  pub pending_interval : ℤ
  pub online_interval : ℤ
  pub offline_interval : ℤ

-- The interval for a listing's last check.
unfoldable pub interval_of : Intervals → CheckStatus → ℕ
unfolding duration_milliseconds
interval_of i check_online = duration_milliseconds i.online_interval * millisecond
interval_of i check_offline = duration_milliseconds i.offline_interval * millisecond
interval_of i check_failed = duration_milliseconds i.offline_interval * millisecond
interval_of i _ = duration_milliseconds i.pending_interval * millisecond

-- status IN ('pending_verification', 'published', 'offline', 'failed')
abbrev pub is_scheduled : ListingStatus → Bool
is_scheduled pending_verification = true
is_scheduled published = true
is_scheduled offline = true
is_scheduled failed = true
is_scheduled _ = false

abbrev pub is_past : ℕ → ℕ → Option ℕ → Bool
is_past now interval none = true
is_past now interval (some at) = leb (at + interval) now

-- The condition of the candidates.
unfoldable pub needs_check : ℕ → Intervals → List AdminJob → Listing → Bool
unfolding interval_of bytes_eq member
needs_check now i jobs l =
    is_null l.deleted_at
    && is_scheduled l.status
    && is_past now (interval_of i l.check_status) l.last_checked_at
    && not (any_where (is_check_job l.id) jobs)

-- The order of two texts of a uuid.
unfoldable pub id_before : Bytes → Bytes → Bool
id_before [] [] = false
id_before [] (y ∷ ys) = true
id_before (x ∷ xs) [] = false
id_before (x ∷ xs) (y ∷ ys) = ltb x y || (x == y && id_before xs ys)

abbrev pub made_before : Listing → Listing → Bool
made_before a b =
    ltb a.created_at b.created_at || (a.created_at == b.created_at && id_before a.id b.id)

-- ORDER BY last_checked_at ASC NULLS FIRST, created_at ASC, id ASC
abbrev pub stale_before : Option ℕ → Option ℕ → Bool → Bool
stale_before none none tie = tie
stale_before none (some b) tie = true
stale_before (some a) none tie = false
stale_before (some a) (some b) tie = ltb a b || (a == b && tie)

unfoldable pub insert_candidate : Listing → List Listing → List Listing
unfolding id_before
insert_candidate l [] = l ∷ []
insert_candidate l (x ∷ xs) =
    let rest = insert_candidate l xs in
    if stale_before x.last_checked_at l.last_checked_at (made_before x l)
    then x ∷ rest
    else l ∷ x ∷ xs

unfoldable pub candidates : (Listing → Bool) → List Listing → List Listing
unfolding insert_candidate
candidates p [] = []
candidates p (l ∷ ls) = let rest = candidates p ls in if p l then insert_candidate l rest else rest

unfoldable pub insert_check_jobs : ℕ → ℕ → List Listing → List AdminJob → List AdminJob
insert_check_jobs now job_id [] jobs = jobs
insert_check_jobs now job_id (l ∷ ls) jobs =
    insert_check_jobs now (suc job_id) ls (insert_check_job now job_id l.id jobs)

-- The listings that a run of the scheduler takes.
unfoldable pub due_listings : ℕ → Intervals → ℕ → Site → List Listing
unfolding candidates needs_check
due_listings now i limit site = take limit (candidates (needs_check now i site.jobs) site.listings)

-- `EnqueueDueChecks`, with the answer of the advisory lock; the count of the new jobs.
unfoldable pub enqueue_due_checks : ServerEnv → Bool → Intervals → ℤ → Site → ℕ × Site
unfolding due_listings insert_check_jobs
enqueue_due_checks env locked i (negsuc limit) site = (0, site)
enqueue_due_checks env locked i (pos limit) site = if limit == 0 || not locked then (0, site) else (
  length (due_listings env.now i limit site),
  record site {
    jobs = insert_check_jobs env.now env.job_id (due_listings env.now i limit site) site.jobs;
  },
)
