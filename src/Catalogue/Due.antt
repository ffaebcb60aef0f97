-- ===== src/Catalogue/Due.antt =====
-- `EnqueueDueChecks`: the batch that a run takes, and the servers that are due.
use mathlib.Core.List.{Memᴰ}
use mathlib.Core.List.Memᴰ
use bee_ba.Common.{
  ◌+◌, ◌⊎◌, All, Memᴰ-All, any_where_none, count_where_pos, ℕ, zero, suc, ◌≤◌, ◌<◌, ◌≡◌, refl, ap,
  Bool, true, ◌&&◌, ◌==◌, List, [], ◌∷◌, length, length-take, take, any_where, count_where,
  Bool-cases, inl, inr, arith,
}
use bee_ba.Common.Int.{pos}
use bee_ba.Common.Text.{Bytes, bytes_eq_iff}
use bee_ba.Jobs.Row.{AdminJob}
use bee_ba.Catalogue.Listing.{Listing, Site, ServerEnv}
use bee_ba.Catalogue.Statement.{is_check_job, insert_check_job}
use bee_ba.Catalogue.Check.{
  Intervals, candidates, needs_check, due_listings, insert_check_jobs, enqueue_due_checks,
}
use bee_ba.Catalogue.Checking.{HasCheck, HasCheck-iff, any_where-Memᴰ}
use bee_ba.Catalogue.Wanted.{IsDue, needs_check_iff}
use bee_ba.Catalogue.Jobs.{
  active_checks, take-count, named, inserts-active_checks, candidates-count, any_where-count,
}

take-short : {A : Type 0} (n : ℕ) (xs : List A) → length (take n xs) < n → take n xs ≡ xs
take-short zero xs h = absurd (omega (arith, h))
take-short (suc n) [] h = refl
take-short (suc n) (x ∷ xs) h = ap (λ ys. x ∷ ys) (take-short n xs (omega (arith, h)))

count_where-Memᴰ :
    {A : Type 0} (q : A → Bool) (x : A) (xs : List A)
    → Memᴰ x xs
    → q x ≡ true
    → 1 ≤ count_where q xs
count_where-Memᴰ q x [] m h = elim m [ ]
count_where-Memᴰ q x (y ∷ ys) m h = elim (Memᴰ.cases_cons m) [
  | inl e ↦ let here : q y ≡ true = rw (← e) h in rw here (omega arith)
  | inr n ↦ omega (arith, count_where-Memᴰ q x ys n h)
]

few : (now : ℕ) (i : Intervals) (n : ℕ) (site : Site) → length (due_listings now i n site) ≤ n
unfolding due_listings
few now i n site =
    omega (arith, length-take n (candidates (needs_check now i site.jobs) site.listings))

-- A due listing is taken by a batch that is not full.
due-named :
    (now : ℕ) (i : Intervals) (n : ℕ) (site : Site) (l : Listing)
    → length (due_listings now i n site) < n
    → Memᴰ l site.listings
    → needs_check now i site.jobs l ≡ true
    → 1 ≤ count_where (named l.id) (due_listings now i n site)
unfolding due_listings
due-named now i n site l short m due =
    let all = candidates (needs_check now i site.jobs) site.listings in
    let both : Listing → Bool = λ x. needs_check now i site.jobs x && named l.id x in
    let some_due : 1 ≤ count_where both site.listings =
      count_where-Memᴰ both l site.listings m
        (ground (arith, due, (bytes_eq_iff l.id l.id).1 refl)) in
    rw
      (
        take-short n all short,
        candidates-count (needs_check now i site.jobs) (named l.id) site.listings,
      )
      some_due

inserts-length :
    (now job_id : ℕ) (ls : List Listing) (jobs : List AdminJob)
    → length (insert_check_jobs now job_id ls jobs) ≡ length ls + length jobs
unfolding insert_check_jobs
inserts-length now job_id [] jobs = omega arith
inserts-length now job_id (l ∷ ls) jobs =
    omega (arith, inserts-length now (suc job_id) ls (insert_check_job now job_id l.id jobs))

-- A check that is there afterwards was there before, or is one of a server that was due.
taken-IsDue :
    (env : ServerEnv) (i : Intervals) (n : ℕ) (site : Site) (id : Bytes)
    → HasCheck id (insert_check_jobs env.now env.job_id (due_listings env.now i n site) site.jobs)
    → HasCheck id site.jobs
      ⊎ ((l : Listing) × Memᴰ l site.listings × (l.id ≡ id) × IsDue env.now i site.jobs l)
unfolding due_listings
taken-IsDue env i n site id h =
    let due = due_listings env.now i n site in
    let both : Listing → Bool = λ x. needs_check env.now i site.jobs x && named id x in
    let after = insert_check_jobs env.now env.job_id due site.jobs in
    let present : 1 ≤ active_checks id after =
      count_where_pos (is_check_job id) (is_check_job id) after (λ j e. e)
        ((HasCheck-iff id after).1 h) in
    let split = inserts-active_checks id env.now env.job_id due site.jobs in
    elim (Bool-cases (any_where (is_check_job id) site.jobs)) [
      | inl before ↦ inl ((HasCheck-iff id site.jobs).0 before)
      | inr new ↦
          let all = candidates (needs_check env.now i site.jobs) site.listings in
          let some_due : 1 ≤ count_where both site.listings = omega (
            arith,
            present,
            split,
            take-count (named id) n all,
            candidates-count (needs_check env.now i site.jobs) (named id) site.listings,
            any_where_none (is_check_job id) site.jobs new,
          ) in
          let (l, m, q) =
            any_where-Memᴰ both site.listings (any_where-count both site.listings some_due) in
          inr (
            l,
            m,
            (bytes_eq_iff l.id id).0 (ground (arith, q)),
            (needs_check_iff env.now i site.jobs l).0 (ground (arith, q)),
          )
    ]

-- A due server is taken where the batch is not full.
due-HasCheck :
    (env : ServerEnv) (i : Intervals) (n : ℕ) (site : Site) (l : Listing)
    → length (due_listings env.now i n site) < n
    → Memᴰ l site.listings
    → IsDue env.now i site.jobs l
    → HasCheck l.id (insert_check_jobs env.now env.job_id (due_listings env.now i n site) site.jobs)
due-HasCheck env i n site l short m due =
    let taken = due_listings env.now i n site in
    let after = insert_check_jobs env.now env.job_id taken site.jobs in
    (HasCheck-iff l.id after).0 (
      any_where-count (is_check_job l.id) after (
        rw (inserts-active_checks l.id env.now env.job_id taken site.jobs) (
          omega (
            arith,
            due-named env.now i n site l short m ((needs_check_iff env.now i site.jobs l).1 due),
          ))))

-- A run of the scheduler that holds the lock returns the number of jobs that it adds, and that is at
-- most `limit`. It checks only servers that are due (`IsDue`): not deleted, in one of the four
-- statuses that are checked, never checked or not within the interval that belongs to the last
-- result, and with no check that is pending or running. Where it adds fewer than `limit`, each server
-- that is due has a check afterwards.
pub enqueue_due_checks_fair :
    (env : ServerEnv) (i : Intervals) (limit : ℕ) (site : Site)
    → (length (enqueue_due_checks env true i (pos limit) site).1.jobs
        ≡ (enqueue_due_checks env true i (pos limit) site).0 + length site.jobs)
      × ((enqueue_due_checks env true i (pos limit) site).0 ≤ limit)
      × ((id : Bytes)
          → HasCheck id (enqueue_due_checks env true i (pos limit) site).1.jobs
          → HasCheck id site.jobs
            ⊎ ((l : Listing) × Memᴰ l site.listings × (l.id ≡ id) × IsDue env.now i site.jobs l))
      × ((enqueue_due_checks env true i (pos limit) site).0 < limit
          → All
              (λ l.
                IsDue env.now i site.jobs l
                → HasCheck l.id (enqueue_due_checks env true i (pos limit) site).1.jobs)
              site.listings)
unfolding enqueue_due_checks
enqueue_due_checks_fair env i limit site = elim (Bool-cases (limit == 0)) [
  | inl e ↦
      rw e (omega arith, omega arith, λ id h. inl h, λ short. absurd (ground (arith, e, short)))
  | inr e ↦ rw e (
    inserts-length env.now env.job_id (due_listings env.now i limit site) site.jobs,
    few env.now i limit site,
    taken-IsDue env i limit site,
    λ short. Memᴰ-All _ site.listings (λ l m due. due-HasCheck env i limit site l short m due),
  )
]
