-- ===== src/Catalogue/Jobs.antt =====
-- How many jobs check one server, counted through the inserts.
use bee_ba.Common.{
  ℕ, zero, suc, ◌+◌, ◌≤◌, ◌≡◌, refl, Bool, true, false, ◌&&◌, List, [], ◌∷◌, if◌then◌else◌, take,
  any_where, any_where_none, count_where, Bool-cases, inl, inr, arith,
}
use bee_ba.Common.Text.{Bytes, bytes_eq, bytes_eq_iff}
use bee_ba.Jobs.Row.{AdminJob, member}
use bee_ba.Catalogue.Listing.{Listing, Site, ServerEnv}
use bee_ba.Catalogue.Statement.{is_check_job, insert_check_job, enqueue_server_check}
use bee_ba.Catalogue.Check.{
  insert_candidate, candidates, insert_check_jobs, stale_before, made_before,
}

-- The jobs that check the server and are not over.
abbrev pub active_checks : Bytes → List AdminJob → ℕ
active_checks id jobs = count_where (is_check_job id) jobs

abbrev pub named : Bytes → Listing → Bool
named id l = bytes_eq l.id id

insert-active_checks :
    (id x : Bytes) (now job_id : ℕ) (jobs : List AdminJob)
    → active_checks id (insert_check_job now job_id x jobs)
      ≡ (if bytes_eq x id then 1 else 0) + active_checks id jobs
unfolding bytes_eq member
insert-active_checks id x now job_id jobs = refl

pub inserts-active_checks :
    (id : Bytes) (now job_id : ℕ) (ls : List Listing) (jobs : List AdminJob)
    → active_checks id (insert_check_jobs now job_id ls jobs)
      ≡ count_where (named id) ls + active_checks id jobs
unfolding insert_check_jobs
inserts-active_checks id now job_id [] jobs = omega arith
inserts-active_checks id now job_id (l ∷ ls) jobs = omega (
  arith,
  inserts-active_checks id now (suc job_id) ls (insert_check_job now job_id l.id jobs),
  insert-active_checks id l.id now job_id jobs,
)

insert_candidate-count :
    (q : Listing → Bool) (l : Listing) (xs : List Listing)
    → count_where q (insert_candidate l xs) ≡ count_where q (l ∷ xs)
unfolding insert_candidate
insert_candidate-count q l [] = refl
insert_candidate-count q l (x ∷ xs) =
    elim (Bool-cases (stale_before x.last_checked_at l.last_checked_at (made_before x l))) [
      | inl e ↦ rw e (omega (arith, insert_candidate-count q l xs))
      | inr e ↦ rw e refl
    ]

-- Sorting keeps what is there.
pub candidates-count :
    (p q : Listing → Bool) (ls : List Listing)
    → count_where q (candidates p ls) ≡ count_where (λ l. p l && q l) ls
unfolding candidates
candidates-count p q [] = refl
candidates-count p q (l ∷ ls) = elim (Bool-cases (p l)) [
  | inl e ↦
      rw e (omega (arith, insert_candidate-count q l (candidates p ls), candidates-count p q ls))
  | inr e ↦ rw e (omega (arith, candidates-count p q ls))
]

pub take-count :
    {A : Type 0} (q : A → Bool) (n : ℕ) (xs : List A) → count_where q (take n xs) ≤ count_where q xs
take-count q zero xs = omega arith
take-count q (suc n) [] = omega arith
take-count q (suc n) (x ∷ xs) = omega (arith, take-count q n xs)

pub any_where-count :
    {A : Type 0} (q : A → Bool) (xs : List A) → 1 ≤ count_where q xs → any_where q xs ≡ true
any_where-count q [] h = absurd (omega (arith, h))
any_where-count q (x ∷ xs) h = ground (arith, any_where-count q xs)

-- A job for a server without one.
pub insert-active_checks_le :
    (id x : Bytes) (now job_id : ℕ) (jobs : List AdminJob)
    → any_where (is_check_job x) jobs ≡ false
    → active_checks id jobs ≤ 1
    → active_checks id (insert_check_job now job_id x jobs) ≤ 1
insert-active_checks_le id x now job_id jobs none_active h = elim (Bool-cases (bytes_eq x id)) [
  | inl e ↦
      let same : x ≡ id = (bytes_eq_iff x id).0 e in
      let zero_jobs : active_checks id jobs ≡ 0 =
        rw (← same) (any_where_none (is_check_job x) jobs none_active) in
      rw (insert-active_checks id x now job_id jobs, e) (omega (arith, zero_jobs))
  | inr e ↦ rw (insert-active_checks id x now job_id jobs, e) (omega (arith, h))
]

-- A job is inserted only where none is active.
pub enqueue-active_checks :
    (env : ServerEnv) (x : Bytes) (site : Site) (id : Bytes)
    → active_checks id site.jobs ≤ 1
    → active_checks id (enqueue_server_check env x site).jobs ≤ 1
unfolding enqueue_server_check
enqueue-active_checks env x site id h = elim (Bool-cases (any_where (is_check_job x) site.jobs)) [
  | inl e ↦ rw e h
  | inr e ↦ rw e (insert-active_checks_le id x env.now env.job_id site.jobs e h)
]
