-- ===== src/Catalogue/Single.antt =====
-- At most one job checks a server at a time.
use bee_ba.Common.{
  ℕ, ◌+◌, ◌≤◌, ◌≡◌, refl, inl, inr, Bool, true, false, not, ◌&&◌, ◌||◌, List, [], ◌∷◌, count_where,
  update_where, any_where, any_where_none, count_where_zero, count_where_mono, IsKeyed,
  IsKeyed-update, Bool-cases, arith, ◌==◌,
}
use bee_ba.Common.Int.{ℤ, pos, negsuc}
use bee_ba.Common.Text.{Bytes, bytes_eq, bytes_eq_iff}
use bee_ba.Catalogue.Listing.{Listing, Site, ServerEnv}
use bee_ba.Catalogue.Statement.{is_check_job}
use bee_ba.Catalogue.Owner.{update_owned, delete_owned, request_verification}
use bee_ba.Catalogue.Create.{create_server}
use bee_ba.Catalogue.Check.{
  Intervals, candidates, needs_check, due_listings, enqueue_due_checks, complete_check,
}
use bee_ba.Catalogue.Admin.{AdminInput, set_admin_status}
use bee_ba.Catalogue.Run.{
  ServerOp, creates, updates, deletes, requests, schedules, completes, hides, restores, item_after,
  server_step, run_servers, site_after-keeps, item_after-keeps,
}
use bee_ba.Catalogue.Outcome.{
  Enqueued, create_server-ok, update_owned-ok, delete_owned-ok, request_verification-ok,
  complete_check-ok, set_admin_status-ok,
}
use bee_ba.Catalogue.Jobs.{
  active_checks, named, inserts-active_checks, candidates-count, take-count, enqueue-active_checks,
}

-- The ids of the listings are unique, and no server has two jobs that are pending or running.
pub record IsSingle (site : Site) : Type 0 where
  pub keyed : IsKeyed (λ l. l.id) site.listings
  pub single : (id : Bytes) → active_checks id site.jobs ≤ 1

Enqueued-single :
    (site after : Site)
    → Enqueued site after
    → ((id : Bytes) → active_checks id site.jobs ≤ 1)
    → (id : Bytes) → active_checks id after.jobs ≤ 1
Enqueued-single site after (inl e) h id = rw e (h id)
Enqueued-single site after (inr (env, x, e)) h id =
    rw e (enqueue-active_checks env x site id (h id))

update-IsSingle :
    (p : Listing → Bool) (f : Listing → Listing) (site after : Site)
    → after.listings ≡ update_where p f site.listings
    → ((l : Listing) → (f l).id ≡ l.id)
    → Enqueued site after
    → IsSingle site
    → IsSingle after
update-IsSingle p f site after e same jobs h = record {
  keyed = rw e (IsKeyed-update (λ l. l.id) p f site.listings same h.keyed);
  single = Enqueued-single site after jobs h.single;
}

-- Unique ids: no more than one row has the id.
keyed-count :
    (id : Bytes) (ls : List Listing) → IsKeyed (λ l. l.id) ls → count_where (named id) ls ≤ 1
keyed-count id [] k = omega arith
keyed-count id (l ∷ ls) k = elim (Bool-cases (bytes_eq l.id id)) [
  | inl e ↦
      let same : l.id ≡ id = (bytes_eq_iff l.id id).0 e in
      let zero_rows : count_where (named id) ls ≡ 0 =
        rw (← same) (any_where_none (named l.id) ls k.0) in
      rw e (omega (arith, zero_rows))
  | inr e ↦ rw e (omega (arith, keyed-count id ls k.1))
]

-- A server with an active job needs no other.
busy :
    (now : ℕ) (i : Intervals) (site : Site) (id : Bytes) (l : Listing)
    → any_where (is_check_job id) site.jobs ≡ true
    → (needs_check now i site.jobs l && named id l) ≡ false
unfolding needs_check
busy now i site id l e = elim (Bool-cases (bytes_eq l.id id)) [
  | inl q ↦ let same : l.id ≡ id = (bytes_eq_iff l.id id).0 q in rw same (ground (arith, e))
  | inr q ↦ ground (arith, q)
]

-- The listings that are taken have no active job.
due-single :
    (now : ℕ) (i : Intervals) (n : ℕ) (site : Site) (id : Bytes)
    → IsSingle site
    → count_where (named id) (due_listings now i n site) + active_checks id site.jobs ≤ 1
unfolding due_listings
due-single now i n site id h =
    let taken = take-count (named id) n (candidates (needs_check now i site.jobs) site.listings) in
    let counted = candidates-count (needs_check now i site.jobs) (named id) site.listings in
    let both : Listing → Bool = λ l. needs_check now i site.jobs l && named id l in
    elim (Bool-cases (any_where (is_check_job id) site.jobs)) [
      | inl e ↦
          let none_due : count_where both site.listings ≡ 0 =
            count_where_zero both site.listings (λ l. busy now i site id l e) in
          omega (arith, taken, counted, none_due, h.single id)
      | inr e ↦
          let few : count_where both site.listings ≤ count_where (named id) site.listings =
            count_where_mono both (named id) site.listings (λ l q. ground (arith, q)) in
          omega (
            arith,
            taken,
            counted,
            few,
            keyed-count id site.listings h.keyed,
            any_where_none (is_check_job id) site.jobs e,
          )
    ]

enqueue_due_checks-IsSingle :
    (env : ServerEnv) (locked : Bool) (i : Intervals) (limit : ℤ) (site : Site)
    → IsSingle site
    → IsSingle (enqueue_due_checks env locked i limit site).1
unfolding enqueue_due_checks
enqueue_due_checks-IsSingle env locked i (negsuc n) site h = h
enqueue_due_checks-IsSingle env locked i (pos n) site h = elim (Bool-cases (n == 0 || not locked)) [
  | inl e ↦ rw e h
  | inr e ↦ rw e (record {
    keyed = h.keyed;
    single = λ id.
        rw (inserts-active_checks id env.now env.job_id (due_listings env.now i n site) site.jobs)
          (due-single env.now i n site id h);
  })
]

by_admin :
    (env : ServerEnv) (hide : Bool) (input : AdminInput) (site : Site)
    → IsSingle site
    → IsSingle (item_after site (set_admin_status env hide input site))
by_admin env hide input site h =
    item_after-keeps IsSingle site (set_admin_status env hide input site) h (λ item after q.
      let (is, jobs) = set_admin_status-ok env hide input site item after q in
      update-IsSingle _ _ site after is (λ l. refl) (inl jobs) h)

step-IsSingle : (o : ServerOp) (site : Site) → IsSingle site → IsSingle (server_step o site)
unfolding server_step
step-IsSingle (creates env input) site h =
    item_after-keeps IsSingle site (create_server env input site) h (λ item after q.
      let (c, fresh, is, jobs) = create_server-ok env input site item after q in
      record { keyed = rw is (fresh, h.keyed); single = Enqueued-single site after jobs h.single })
step-IsSingle (updates env owner x input) site h =
    item_after-keeps IsSingle site (update_owned env owner x input site) h (λ item after q.
      let (c, is, jobs) = update_owned-ok env owner x input site item after q in
      update-IsSingle _ _ site after is (λ l. refl) jobs h)
step-IsSingle (deletes env owner x) site h =
    site_after-keeps IsSingle site (delete_owned env owner x site) h (λ after q.
      let (is, jobs) = delete_owned-ok env owner x site after q in
      update-IsSingle _ _ site after is (λ l. refl) (inl jobs) h)
step-IsSingle (requests env owner x) site h =
    item_after-keeps IsSingle site (request_verification env owner x site) h (λ item after q.
      let (is, jobs) = request_verification-ok env owner x site item after q in
      update-IsSingle _ _ site after is (λ l. refl) jobs h)
step-IsSingle (schedules env locked i limit) site h =
    enqueue_due_checks-IsSingle env locked i limit site h
step-IsSingle (completes env x r) site h =
    site_after-keeps IsSingle site (complete_check env x r site) h (λ after q.
      let (is, jobs) = complete_check-ok env x r site after q in
      update-IsSingle _ _ site after is (λ l. refl) (inl jobs) h)
step-IsSingle (hides env input) site h = by_admin env true input site h
step-IsSingle (restores env input) site h = by_admin env false input site h

-- In a state where the ids of listings are unique and each server has at most one job that checks
-- it and is pending or running, this stays so under every sequence of the catalogue's calls: new
-- servers, new endpoints, requests for verification and runs of the scheduler included.
pub run_servers-IsSingle :
    (ops : List ServerOp) (site : Site) → IsSingle site → IsSingle (run_servers ops site)
unfolding run_servers
run_servers-IsSingle [] site h = h
run_servers-IsSingle (o ∷ ops) site h =
    run_servers-IsSingle ops (server_step o site) (step-IsSingle o site h)
