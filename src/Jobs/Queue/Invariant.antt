-- ===== src/Jobs/Queue/Invariant.antt =====
-- The invariant of the queue, kept by every step.
use mathlib.Core.Path.{subst}
use mathlib.Core.Option.{some-injective}
use bee_ba.Common.{
  ℕ, ◌<◌, ◌≡◌, ◌≢◌, refl, sym, ap, ◌∙◌, Bool, true, not, some, List, [], ◌∷◌, ok, or_fail,
  >>=-eq-ok, or_fail-eq-ok, ok-injective, leb, All, not-eq-false, >>-eq-ok, fail_if, fail_if-eq-ok,
}
use bee_ba.Common.Text.{Bytes}
use bee_ba.Jobs.Row.{
  Status, pending, running, Payload, AdminJob, Job, no_rows, not_retryable, claimed, find_row,
  update_row,
}
use bee_ba.Jobs.Row.Table.{
  NotAmong, find_row-id, All-find_row, NotAmong-find_row, find_row-put_row, find_row-cons-ne,
  Updated, update_row-Updated,
}
use bee_ba.Jobs.Queue.{
  claimable, start, succeed, mark_succeeded, fail_row, mark_failed, AdminRetryInput, Retried,
  retryable, requeue, retry_admin_job, insert_job,
}
use bee_ba.Jobs.Queue.Sound.{
  IsSound, start-IsSound, succeed-IsSound, fail_row-IsSound, requeue-IsSound, fail_row-id,
}
use bee_ba.Jobs.Queue.Run.{
  State, Taken, Step, enqueue, claims, succeeds, fails, retries, stops, Reached, at_start, after,
  IsHeld, NotHeld, IsGood,
}
use bee_ba.Jobs.Queue.Held.{
  All-Taken, HeldOnce-Taken, NotHeld-idle, put_row-IsGood, Claimed, claim-Claimed,
  claimable-pending,
}

idle : (row : AdminJob) (s : Status) → row.status ≡ s → s ≢ running → row.status ≢ running
idle row s e n h = n (sym e ∙ h)

enqueue-IsGood :
    (s : State) (now id : ℕ) (queue job_type : Bytes) (payload : Payload) (max_attempts : ℕ)
    → IsGood s
    → NotAmong id s.table
    → 0 < max_attempts
    → IsGood (record {
      table = insert_job now id queue job_type payload max_attempts s.table;
      held = s.held;
    })
enqueue-IsGood s now id queue job_type payload max_attempts g fresh positive = record {
  keyed = (fresh, g.keyed);
  sound = (
    record {
      has_attempts = positive;
      fits = (positive, record { no_owner = refl; no_time = refl });
    },
    g.sound,
  );
  running_held = still s.held g.running_held;
  held_once = g.held_once;
}
  where
    still :
        (held : List Job)
        → All (IsHeld s.table) held
        → All (IsHeld (insert_job now id queue job_type payload max_attempts s.table)) held
    still [] h = tt
    still (job ∷ held) h = (
      record {
        row = h.0.row;
        found = found job.id h.0.row h.0.found;
        is_running = h.0.is_running;
        copy = h.0.copy;
      },
      still held h.1,
    )
      where
        found :
            (other : ℕ) (row : AdminJob)
            → find_row other s.table ≡ some row
            → find_row other (insert_job now id queue job_type payload max_attempts s.table)
              ≡ some row
        found other row e =
            find_row-cons-ne _ s.table other
              (λ same. absurd (cc (NotAmong-find_row id s.table fresh, e, same)))
            ∙ e

claims-IsGood :
    (s : State) (skip : ℕ → Bool) (now : ℕ) (queue worker : Bytes) (job : Job)
    (table : List AdminJob)
    → IsGood s
    → Claimed (claimable skip now queue) now worker s.table job table
    → IsGood (record { table = table; held = job ∷ s.held })
claims-IsGood s skip now queue worker job table g c =
    let row = c.row in
    let new = start now worker row in
    let waiting = claimable-pending skip now queue row c.oldest.is_wanted in
    let free =
      NotHeld-idle row s.table s.held c.found (idle row pending waiting (λ e. cc)) g.running_held in
    let written =
      put_row-IsGood new s.table s.held g.keyed g.sound g.running_held g.held_once
        (start-IsSound now worker row (All-find_row IsSound row.id s.table row g.sound c.found)
          waiting)
        free in
    subst (λ x. IsGood (record { table = x; held = job ∷ s.held })) (sym c.table_is)
      (record {
        keyed = written.keyed;
        sound = written.sound;
        running_held = (
          record {
            row = new;
            found = rw c.job_is (find_row-put_row new s.table row c.found);
            is_running = refl;
            copy = c.job_is;
          },
          written.running_held,
        );
        held_once = (rw c.job_is free, written.held_once);
      })

-- A held job's row, written by its worker.
marks-IsGood :
    (s : State) (f : AdminJob → AdminJob) (job : Job) (held : List Job) (new : AdminJob)
    (table : List AdminJob)
    → ((row : AdminJob) → IsSound row → row.status ≡ running → job ≡ claimed row → IsSound (f row))
    → ((row : AdminJob) → (f row).id ≡ row.id)
    → IsGood s
    → Taken job s.held held
    → Updated f job.id s.table new table
    → IsGood (record { table = table; held = held })
marks-IsGood s f job held new table keeps same_id g t u =
    let (mine, others) = All-Taken (IsHeld s.table) job s.held held t g.running_held in
    let (alone, once) = HeldOnce-Taken job s.held held t g.held_once in
    let row_is : u.old ≡ mine.row = some-injective _ _ (sym u.found ∙ mine.found) in
    let new_is : new ≡ f mine.row = u.new_is ∙ ap f row_is in
    let id_is : new.id ≡ job.id =
      ap (λ x. x.id) new_is ∙ same_id mine.row ∙ find_row-id job.id s.table mine.row mine.found in
    let new_sound : IsSound new = rw new_is (
      keeps mine.row (All-find_row IsSound job.id s.table mine.row g.sound mine.found)
        mine.is_running mine.copy) in
    subst (λ x. IsGood (record { table = x; held = held })) (sym u.table_is)
      (put_row-IsGood new s.table held g.keyed g.sound others once new_sound
        (subst (λ x. NotHeld x held) (sym id_is) alone))

pub mark_failed-keeps :
    (clock now : ℕ) (job : Job) (message : Bytes) (row : AdminJob)
    → IsSound row
    → row.status ≡ running
    → job ≡ claimed row
    → IsSound (fail_row (leb job.max_attempts job.attempt_count) clock now job message row)
mark_failed-keeps clock now job message row s h copy =
    rw copy (fail_row-IsSound clock now message row s h)

retries-IsGood :
    (s : State) (now id : ℕ) (before new : AdminJob) (table : List AdminJob)
    → IsGood s
    → find_row id s.table ≡ some before
    → retryable before.status ≡ true
    → Updated (requeue now) id s.table new table
    → IsGood (record { table = table; held = s.held })
retries-IsGood s now id before new table g found allowed u =
    let row_is : u.old ≡ before = some-injective _ _ (sym u.found ∙ found) in
    let new_is : new ≡ requeue now before = u.new_is ∙ ap (requeue now) row_is in
    let id_is = find_row-id id s.table before found in
    let before_found : find_row before.id s.table ≡ some before =
      ap (λ x. find_row x s.table) id_is ∙ found in
    let free =
      NotHeld-idle before s.table s.held before_found (λ e. cc (allowed, ap retryable e))
        g.running_held in
    subst (λ x. IsGood (record { table = x; held = s.held })) (sym u.table_is)
      (put_row-IsGood new s.table s.held g.keyed g.sound g.running_held g.held_once
        (rw new_is
          (requeue-IsSound now before (All-find_row IsSound id s.table before g.sound found)))
        (rw new_is free))

stops-IsGood :
    (s : State) (job : Job) (held : List Job)
    → IsGood s
    → Taken job s.held held
    → IsGood (record { table = s.table; held = held })
stops-IsGood s job held g t = record {
  keyed = g.keyed;
  sound = g.sound;
  running_held = (All-Taken (IsHeld s.table) job s.held held t g.running_held).1;
  held_once = (HeldOnce-Taken job s.held held t g.held_once).1;
}

pub retry-Updated :
    (now : ℕ) (input : AdminRetryInput) (table : List AdminJob) (r : Retried)
    → retry_admin_job now input table ≡ ok r
    → (before : AdminJob) × (new : AdminJob) × (find_row input.job_id table ≡ some before)
      × (retryable before.status ≡ true)
      × Updated (requeue now) input.job_id table new r.table
unfolding retry_admin_job
retry-Updated now input table r h =
    let (before, found, h1) = >>=-eq-ok (or_fail (find_row input.job_id table) no_rows) _ h in
    let (allowed, h2) = >>-eq-ok (fail_if (not (retryable before.status)) not_retryable) _ h1 in
    let (new, updated, h3) = >>=-eq-ok (update_row (requeue now) input.job_id table) _ h2 in
    (
      before,
      new.0,
      or_fail-eq-ok _ no_rows before found,
      not-eq-false _ ((fail_if-eq-ok _ not_retryable).0 allowed),
      subst (Updated (requeue now) input.job_id table new.0)
          (ap (λ x. x.table) (ok-injective _ _ h3))
          (update_row-Updated (requeue now) input.job_id table new.0 new.1 updated),
    )

pub Step-IsGood : (s s' : State) → IsGood s → Step s s' → IsGood s'
unfolding mark_succeeded mark_failed
Step-IsGood s s' g (enqueue now id queue job_type payload max_attempts fresh positive) =
    enqueue-IsGood s now id queue job_type payload max_attempts g fresh positive
Step-IsGood s s' g (claims skip now queue worker job table h) =
    claims-IsGood s skip now queue worker job table g
      (claim-Claimed skip now queue worker s.table job table g.keyed h)
Step-IsGood s s' g (succeeds now job table held t h) =
    let (new, updated, same) = >>=-eq-ok (update_row (succeed now) job.id s.table) _ h in
    marks-IsGood s (succeed now) job held new.0 table
      (λ row sound run _. succeed-IsSound now row sound run) (λ row. refl) g t
      (subst (Updated (succeed now) job.id s.table new.0) (ok-injective _ _ same)
        (update_row-Updated (succeed now) job.id s.table new.0 new.1 updated))
Step-IsGood s s' g (fails clock now job message table held t h) =
    let f = fail_row (leb job.max_attempts job.attempt_count) clock now job message in
    let (new, updated, same) = >>=-eq-ok (update_row f job.id s.table) _ h in
    marks-IsGood s f job held new.0 table (mark_failed-keeps clock now job message)
      (fail_row-id (leb job.max_attempts job.attempt_count) clock now job message) g t
      (subst (Updated f job.id s.table new.0) (ok-injective _ _ same)
        (update_row-Updated f job.id s.table new.0 new.1 updated))
Step-IsGood s s' g (retries now input r h) =
    let (before, new, found, allowed, u) = retry-Updated now input s.table r h in
    retries-IsGood s now input.job_id before new r.table g found allowed u
Step-IsGood s s' g (stops job held t) = stops-IsGood s job held g t

-- In every state that the queue's operations reach from the empty table, whatever the order of
-- claims, marks, retries, inserts and workers that stop: ids are unique; each row fits its status
-- (attempts are left while it is pending, are never over the maximum, and are used up when it is
-- dead; it has an owner when running and none otherwise; the status `failed` does not occur; an
-- email job that succeeded or died holds no token); each job that a worker holds is a running row
-- that the worker's copy agrees with; and no two workers hold the same job.
pub Reached-IsGood : (s : State) → Reached s → IsGood s
Reached-IsGood _ at_start = record { keyed = tt; sound = tt; running_held = tt; held_once = tt }
Reached-IsGood s' (after {s} r step) = Step-IsGood s s' (Reached-IsGood s r) step
