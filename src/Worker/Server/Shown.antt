-- ===== src/Worker/Server/Shown.antt =====
-- `processServerCheck`: the listings that are published afterwards, and what was sent for them.
use mathlib.Core.List.{Memᴰ}
use mathlib.Core.List.Memᴰ
use bee_ba.Common.{
  ◌%◌, ◌^◌, IsKeyed, any_where, ◌≡◌, ◌≢◌, refl, sym, ap, ◌∙◌, ◌⊎◌, inl, inr, Bool, true, List, [],
  ◌∷◌, Result, ok, err, Bool-cases, update_where, arith,
}
use bee_ba.Common.Text.{Bytes, bytes_eq_iff, utf8}
use bee_ba.Jobs.Row.{AdminJob, Job, JobError, member}
use bee_ba.Servers.Endpoint.{is_empty}
use bee_ba.ServerCheck.Packet.{Info}
use bee_ba.ServerCheck.Probe.{ProbeError, Sent, probe}
use bee_ba.ServerCheck.Probe.Target.{IsSafeSend, AtMostOne, probe-IsSafeSend}
use bee_ba.Catalogue.Listing.{
  ListingStatus, draft, pending_verification, pending_moderation, published, offline, failed,
  hidden, deleted, check_offline, Listing, Site, ServerError, no_rows, check_violation,
  unique_violation, foreign_key_violation, no_secret_box, not_encrypted, not_decrypted, bad_address,
}
use bee_ba.Catalogue.Check.{
  ServerCheckTarget, get_check_target, complete_check, new_status, can_be_checked, checked_listing,
}
use bee_ba.Catalogue.Run.{ServerOp, run_servers}
use bee_ba.Catalogue.Endpoints.{
  is_update_of, get_check_target-HasEndpoint, run-HasEndpoint, HasEndpoint-same,
}
use bee_ba.Catalogue.Outcome.{complete_check-ok}
use bee_ba.Worker.Server.{
  ServerCheckEnv, server_id_of, check_result, marked, finish_check, completed, complete_with,
  check_target, process_server_check,
}

update_where-Memᴰ :
    {A : Type 0} (p : A → Bool) (f : A → A) (x : A) (xs : List A)
    → Memᴰ x (update_where p f xs)
    → Memᴰ x xs ⊎ ((y : A) × Memᴰ y xs × (p y ≡ true) × (x ≡ f y))
update_where-Memᴰ p f x [] m = elim m [ ]
update_where-Memᴰ p f x (y ∷ ys) m = elim (Memᴰ.cases_cons m) [
  | inl e ↦ elim (Bool-cases (p y)) [
    | inl q ↦ inr (y, Memᴰ.head refl, q, rw q at e)
    | inr q ↦ inl (Memᴰ.head (rw q at e))
  ]
  | inr n ↦ elim (update_where-Memᴰ p f x ys n) [
    | inl old ↦ inl (Memᴰ.tail old)
    | inr (z, at, q, is) ↦ inr (z, Memᴰ.tail at, q, is)
  ]
]

offline-not_published : (s : ListingStatus) → new_status check_offline s ≢ published
unfolding new_status
offline-not_published draft e = cc
offline-not_published pending_verification e = cc
offline-not_published pending_moderation e = cc
offline-not_published published e = cc
offline-not_published offline e = cc
offline-not_published failed e = cc
offline-not_published hidden e = cc
offline-not_published deleted e = cc

-- The server was there to be checked when the worker read its endpoint, was asked at an address of
-- that endpoint that is safe to send to, and gave the answer that the listing shows. The listing still
-- has that endpoint, unless an `UpdateOwned` of the server was called while the probe waited.
pub record IsAnswered (env : ServerCheckEnv) (waiting : List ServerOp) (site : Site)
    (sent : List Sent) (l : Listing) : Type 0 where
  pub target : ServerCheckTarget
  pub found : get_check_target l.id site ≡ ok target
  pub info : Info
  pub answered : (probe env.server.tables env.server.ip env.net target.host target.port).1 ≡ ok info
  pub shown : l.check ≡ (check_result env (ok info)).columns
  pub is_safe :
      AtMostOne (IsSafeSend env.server.tables env.server.ip env.net target.host target.port) sent
  pub endpoint :
      (any_where (is_update_of l.id) waiting ≡ true)
      ⊎ ((l.host ≡ target.host) × (l.port % 2 ^ 16 ≡ target.port))

-- Marking the job leaves the listings alone.
marked-same :
    (sent : List Sent) (site : Site) (r : Result JobError (List AdminJob))
    → ((marked sent site r).site.listings ≡ site.listings) × ((marked sent site r).sent ≡ sent)
marked-same sent site (ok jobs) = (refl, refl)
marked-same sent site (err e) = (refl, refl)

finish_check-same :
    (env : ServerCheckEnv) (job : Job) (sent : List Sent) (site : Site)
    → ((finish_check env job sent site).site.listings ≡ site.listings)
      × ((finish_check env job sent site).sent ≡ sent)
unfolding finish_check
finish_check-same env job sent site = marked-same sent site _

module _ (env : ServerCheckEnv) (waiting : List ServerOp) (site : Site)
    (keyed : IsKeyed (λ l. l.id) site.listings) (l : Listing) (shown : l.status ≡ published) where
  abbrev Before : List Sent → Type 0
  Before sent =
      (Memᴰ l site.listings ⊎ Memᴰ l (run_servers waiting site).listings)
      ⊎ IsAnswered env waiting site sent l

  -- The endpoint of a row at the end of the wait.
  by_endpoint :
      (id : Bytes) (target : ServerCheckTarget) (y : Listing)
      → get_check_target id site ≡ ok target
      → Memᴰ y (run_servers waiting site).listings
      → y.id ≡ id
      → (any_where (is_update_of id) waiting ≡ true)
        ⊎ ((y.host ≡ target.host) × (y.port % 2 ^ 16 ≡ target.port))
  by_endpoint id target y found m same = elim (Bool-cases (any_where (is_update_of id) waiting)) [
    | inl changed ↦ inl changed
    | inr stays ↦
        let at_first = get_check_target-HasEndpoint id site target keyed found in
        inr (
          HasEndpoint-same target id (run_servers waiting site) y
            (run-HasEndpoint target id waiting site stays at_first) m same)
  ]

  -- A row that the result of the check was written to.
  by_row :
      (id : Bytes) (target : ServerCheckTarget) (y : Listing)
      → get_check_target id site ≡ ok target
      → Memᴰ y (run_servers waiting site).listings
      → can_be_checked id y ≡ true
      → (answer : Result ProbeError Info)
      → (probe env.server.tables env.server.ip env.net target.host target.port).1 ≡ answer
      → l ≡ checked_listing env.server.now (check_result env answer) y
      → IsAnswered env waiting site
          (probe env.server.tables env.server.ip env.net target.host target.port).0
          l
  by_row id target y found m q (err e) p is =
      absurd (offline-not_published y.status (sym (ap (λ x. x.status) is) ∙ shown))
  by_row id target y found m q (ok info) p is =
      let y_id : y.id ≡ id = (bytes_eq_iff y.id id).0 (ground (arith, q)) in
      let same : l.id ≡ id = ap (λ x. x.id) is ∙ y_id in
      record {
        target = target;
        found = rw same found;
        info = info;
        answered = p;
        shown = ap (λ x. x.check) is;
        is_safe = probe-IsSafeSend env.server.tables env.server.ip env.net target.host target.port;
        endpoint = elim (by_endpoint id target y found m y_id) [
          | inl changed ↦ inl (rw same changed)
          | inr (host, port) ↦ inr (ap (λ x. x.host) is ∙ host, ap (λ x. x.port % 2 ^ 16) is ∙ port)
        ];
      }

  by_completed :
      (job : Job) (id : Bytes) (target : ServerCheckTarget)
      → get_check_target id site ≡ ok target
      → (sent : List Sent) (answer : Result ProbeError Info)
      → probe env.server.tables env.server.ip env.net target.host target.port ≡ (sent, answer)
      → (r : Result ServerError Site)
      → complete_check env.server id (check_result env answer) (run_servers waiting site) ≡ r
      → Memᴰ l (completed env job sent (run_servers waiting site) r).site.listings
      → Before (completed env job sent (run_servers waiting site) r).sent
  by_completed job id target found sent answer p (err e) q m = inl (inr m)
  by_completed job id target found sent answer p (ok after) q m =
      let mid = run_servers waiting site in
      let (same, sent_is) = finish_check-same env job sent after in
      let (is, _) = complete_check-ok env.server id (check_result env answer) mid after q in
      elim (update_where-Memᴰ (can_be_checked id)
        (checked_listing env.server.now (check_result env answer)) l mid.listings
        (rw (same, is) at m)) [
          | inl old ↦ inl (inr old)
          | inr (y, there, can, l_is) ↦ inr (
              rw (sent_is, ← (ap (λ x. x.0) p))
                (by_row id target y found there can answer (ap (λ x. x.1) p) l_is))
        ]

  by_probe :
      (job : Job) (id : Bytes) (target : ServerCheckTarget)
      → get_check_target id site ≡ ok target
      → (p : List Sent × Result ProbeError Info)
      → probe env.server.tables env.server.ip env.net target.host target.port ≡ p
      → Memᴰ l (complete_with env job id (run_servers waiting site) p).site.listings
      → Before (complete_with env job id (run_servers waiting site) p).sent
  unfolding complete_with
  by_probe job id target found (sent, answer) q m =
      by_completed job id target found sent answer q _ refl m

  by_target :
      (job : Job) (id : Bytes) (t : Result ServerError ServerCheckTarget)
      → get_check_target id site ≡ t
      → Memᴰ l (check_target env job id site (run_servers waiting site) t).site.listings
      → Before (check_target env job id site (run_servers waiting site) t).sent
  unfolding check_target
  by_target job id (ok target) found m = by_probe job id target found _ refl m
  by_target job id (err no_rows) found m = inl (inl (rw (finish_check-same env job [] site).0 at m))
  by_target job id (err check_violation) found m = inl (inl m)
  by_target job id (err unique_violation) found m = inl (inl m)
  by_target job id (err foreign_key_violation) found m = inl (inl m)
  by_target job id (err no_secret_box) found m = inl (inl m)
  by_target job id (err not_encrypted) found m = inl (inl m)
  by_target job id (err not_decrypted) found m = inl (inl m)
  by_target job id (err (bad_address e)) found m = inl (inl m)

-- Where the ids of listings are unique, and whatever calls of the catalogue commit while the probe
-- waits (`waiting`): a listing that is published after `processServerCheck` was there, unchanged,
-- before it or at the end of the wait; or its server could be checked at the start, what was sent
-- went to an address of the endpoint that the worker had read and that is safe to send to, and the
-- listing shows the answer to it. In the last case the listing still has that endpoint, unless an
-- `UpdateOwned` of the server was called during the wait.
pub process_server_check-published :
    (env : ServerCheckEnv) (job : Job) (waiting : List ServerOp) (site : Site) (l : Listing)
    → IsKeyed (λ x. x.id) site.listings
    → l.status ≡ published
    → Memᴰ l (process_server_check env job waiting site).site.listings
    → (Memᴰ l site.listings ⊎ Memᴰ l (run_servers waiting site).listings)
      ⊎ IsAnswered env waiting site (process_server_check env job waiting site).sent l
unfolding process_server_check
process_server_check-published env job waiting site l keyed shown m =
    let id = server_id_of (member (utf8 "server_id") job.payload) in
    elim (Bool-cases (is_empty id)) [
      | inl e ↦ inl (inl (rw e at m))
      | inr e ↦ rw e (by_target env waiting site keyed l shown job id _ refl (rw e at m))
    ]
