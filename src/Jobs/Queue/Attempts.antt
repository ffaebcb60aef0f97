-- ===== src/Jobs/Queue/Attempts.antt =====
-- How often a job is claimed.
use mathlib.Core.Path.{subst}
use bee_ba.Common.{
  ℕ, ◌+◌, ◌≤◌, ◌≡◌, refl, sym, ap, ◌∙◌, Bool, Option, none, some, List, >>=-eq-ok, ok-injective,
  arith, ==_iff, leb, Bool-cases, inl, inr, ◌==◌, if◌then◌else◌,
}
use bee_ba.Common.Text.{Bytes}
use bee_ba.Jobs.Row.{AdminJob, Job, find_row, put_row, update_row}
use bee_ba.Jobs.Row.Table.{
  find_row-id, All-find_row, NotAmong-find_row, find_row-put_row, find_row-put_row-ne,
  find_row-cons, find_row-cons-ne, Updated, update_row-Updated,
}
use bee_ba.Jobs.Queue.{
  claimable, start, succeed, mark_succeeded, fail_row, mark_failed, requeue, insert_job,
}
use bee_ba.Jobs.Queue.Sound.{IsSound, IsSound-attempts_le, fail_row-id, fail_row-attempts}
use bee_ba.Jobs.Queue.Run.{
  State, Step, enqueue, claims, succeeds, fails, retries, stops, Reached, after, IsGood,
}
use bee_ba.Jobs.Queue.Held.{Claimed, claim-Claimed}
use bee_ba.Jobs.Queue.Invariant.{Reached-IsGood, retry-Updated}

-- The attempts that the table counts for an id.
abbrev count_of : Option AdminJob → ℕ
count_of none = 0
count_of (some row) = row.attempt_count

abbrev attempts : ℕ → List AdminJob → ℕ
attempts id table = count_of (find_row id table)

-- Steps one after the other.
pub data Steps (s : State) : State → Type 0 where
  done : Steps s s
  next : {s' s'' : State} → Steps s s' → Step s' s'' → Steps s s''

abbrev claims_in_step : ℕ → {s s' : State} → Step s s' → ℕ
claims_in_step id (claims _ _ _ _ job _ _) = if job.id == id then 1 else 0
claims_in_step id _ = 0

abbrev RetriedInStep : ℕ → {s s' : State} → Step s s' → Type 0
RetriedInStep id (retries _ input _ _) = input.job_id ≡ id
RetriedInStep id _ = ⊥

-- How often a job is claimed on the way, and whether an administrator retries it.
abbrev pub claims_of : ℕ → {s s' : State} → Steps s s' → ℕ
claims_of id done = 0
claims_of id (next steps step) = claims_of id steps + claims_in_step id step

abbrev pub IsNotRetried : ℕ → {s s' : State} → Steps s s' → Type 0
IsNotRetried id done = Unit {0}
IsNotRetried id (next steps step) = IsNotRetried id steps × (RetriedInStep id step → ⊥)

attempts-Updated :
    (f : AdminJob → AdminJob) (job id : ℕ) (table : List AdminJob) (new : AdminJob)
    (table' : List AdminJob)
    → ((row : AdminJob) → (f row).id ≡ row.id)
    → ((row : AdminJob) → job ≡ id → (f row).attempt_count ≡ row.attempt_count)
    → Updated f job table new table'
    → attempts id table' ≡ attempts id table
attempts-Updated f job id table new table' same_id same_count u =
    let id_is : u.old.id ≡ job = find_row-id job table u.old u.found in
    let new_id : new.id ≡ job = ap (λ x. x.id) u.new_is ∙ same_id u.old ∙ id_is in
    let found : find_row new.id table ≡ some u.old = ap (λ x. find_row x table) new_id ∙ u.found in
    elim (Bool-cases (job == id)) [
      | inl e ↦
          let same : job ≡ id = (==_iff job id).0 e in
          ap (attempts id) u.table_is
          ∙ ap (λ x. attempts x (put_row new table)) (sym (new_id ∙ same))
          ∙ ap count_of (find_row-put_row new table u.old found)
          ∙ ap (λ x. x.attempt_count) u.new_is
          ∙ same_count u.old same
          ∙ ap count_of (sym u.found)
          ∙ ap (λ x. attempts x table) same
      | inr e ↦
          ap (attempts id) u.table_is
          ∙ ap count_of (find_row-put_row-ne new table id (λ h. ground (arith, e, new_id, h)))
    ]

attempts-Claimed :
    (skip : ℕ → Bool) (now id : ℕ) (queue worker : Bytes) (table : List AdminJob) (job : Job)
    (table' : List AdminJob)
    → Claimed (claimable skip now queue) now worker table job table'
    → attempts id table' ≡ attempts id table + (if job.id == id then 1 else 0)
attempts-Claimed skip now id queue worker table job table' c =
    let new = start now worker c.row in
    let job_id : job.id ≡ c.row.id = ap (λ x. x.id) c.job_is in
    elim (Bool-cases (job.id == id)) [
      | inl e ↦
          let same : c.row.id ≡ id = sym job_id ∙ (==_iff job.id id).0 e in
          rw e (
            ap (attempts id) c.table_is
            ∙ ap (λ x. attempts x (put_row new table)) (sym same)
            ∙ ap count_of (find_row-put_row new table c.row c.found)
            ∙ ap (λ x. count_of x + 1) (sym c.found ∙ ap (λ x. find_row x table) same))
      | inr e ↦ rw e (
          ap (attempts id) c.table_is
          ∙ ap count_of (find_row-put_row-ne new table id (λ h. ground (arith, e, job_id, h)))
          ∙ omega arith)
    ]

attempts-Step :
    (id : ℕ) (s s' : State) (step : Step s s')
    → IsGood s
    → (RetriedInStep id step → ⊥)
    → attempts id s'.table ≡ attempts id s.table + claims_in_step id step
unfolding mark_succeeded mark_failed
attempts-Step id s s' (enqueue now new queue job_type payload max_attempts fresh positive) g n =
    elim (Bool-cases (new == id)) [
      | inl e ↦
          let same : new ≡ id = (==_iff new id).0 e in
          ap (λ x. attempts x (insert_job now new queue job_type payload max_attempts s.table))
            (sym same)
          ∙ ap count_of (find_row-cons _ s.table)
          ∙ ap count_of
              (sym (ap (λ x. find_row x s.table) (sym same) ∙ NotAmong-find_row new s.table fresh))
          ∙ omega arith
      | inr e ↦
          ap count_of (find_row-cons-ne _ s.table id (λ h. ground (arith, e, h))) ∙ omega arith
    ]
attempts-Step id s s' (claims skip now queue worker job table h) g n =
    attempts-Claimed skip now id queue worker s.table job table
      (claim-Claimed skip now queue worker s.table job table g.keyed h)
attempts-Step id s s' (succeeds now job table held t h) g n =
    let (new, updated, same) = >>=-eq-ok (update_row (succeed now) job.id s.table) _ h in
    attempts-Updated (succeed now) job.id id s.table new.0 table (λ row. refl) (λ row e. refl)
      (subst (Updated (succeed now) job.id s.table new.0) (ok-injective _ _ same)
        (update_row-Updated (succeed now) job.id s.table new.0 new.1 updated))
    ∙ omega arith
attempts-Step id s s' (fails clock now job message table held t h) g n =
    let f = fail_row (leb job.max_attempts job.attempt_count) clock now job message in
    let (new, updated, same) = >>=-eq-ok (update_row f job.id s.table) _ h in
    attempts-Updated f job.id id s.table new.0 table
      (fail_row-id (leb job.max_attempts job.attempt_count) clock now job message)
      (λ row e.
        fail_row-attempts (leb job.max_attempts job.attempt_count) clock now job message row)
      (subst (Updated f job.id s.table new.0) (ok-injective _ _ same)
        (update_row-Updated f job.id s.table new.0 new.1 updated))
    ∙ omega arith
attempts-Step id s s' (retries now input r h) g n =
    let (before, new, found, allowed, u) = retry-Updated now input s.table r h in
    attempts-Updated (requeue now) input.job_id id s.table new r.table (λ row. refl)
      (λ row e. absurd (n e)) u
    ∙ omega arith
attempts-Step id s s' (stops job held t) g n = omega arith

Steps-Reached : (s s' : State) → Reached s → Steps s s' → Reached s'
Steps-Reached s _ r done = r
Steps-Reached s s'' r (next {s'} steps step) = after (Steps-Reached s s' r steps) step

attempts-Steps :
    (id : ℕ) (s s' : State) (steps : Steps s s')
    → Reached s
    → IsNotRetried id steps
    → attempts id s'.table ≡ attempts id s.table + claims_of id steps
attempts-Steps id s _ done r n = omega arith
attempts-Steps id s s'' (next {s'} steps step) r n = omega (
  arith,
  attempts-Steps id s s' steps r n.0,
  attempts-Step id s' s'' step (Reached-IsGood s' (Steps-Reached s s' r steps)) n.1,
)

-- From a state that the queue reaches, and over any further steps in which no administrator
-- retries the job, a job is claimed no more often than its maximum of attempts, less those that it
-- had already used.
pub claims_of_le :
    (id : ℕ) (s s' : State) (steps : Steps s s') (old row : AdminJob)
    → Reached s
    → IsNotRetried id steps
    → find_row id s.table ≡ some old
    → find_row id s'.table ≡ some row
    → old.attempt_count + claims_of id steps ≤ row.max_attempts
claims_of_le id s s' steps old row r n before found =
    let sound =
      All-find_row IsSound id s'.table row (Reached-IsGood s' (Steps-Reached s s' r steps)).sound
        found in
    omega (
      arith,
      attempts-Steps id s s' steps r n,
      ap count_of before,
      ap count_of found,
      IsSound-attempts_le row sound,
    )
