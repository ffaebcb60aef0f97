-- ===== src/Jobs/Queue/Held.antt =====
-- The jobs that workers hold: what a step does to them, and what `Claim` has done.
use mathlib.Core.Path.{subst}
use mathlib.Core.Option.{some-injective}
use bee_ba.Common.{
  ℕ, ◌≡◌, ◌≢◌, refl, sym, ap, ◌∙◌, Bool, true, some, List, [], ◌∷◌, ok, or_fail, >>=-eq-ok,
  or_fail-eq-ok, ok-injective, arith, All,
}
use bee_ba.Common.Text.{Bytes}
use bee_ba.Jobs.Row.{
  Status, pending, running, succeeded, failed, dead, AdminJob, Job, no_rows, claimed, find_row,
  put_row, update_row,
}
use bee_ba.Jobs.Row.Table.{
  NotAmong, IsKeyed, NotAmong-find_row, Mem-find_row, find_row-put_row-ne, All-put_row,
  IsKeyed-put_row, Updated, update_row-Updated,
}
use bee_ba.Jobs.Queue.{claimable, pick, claim, start, is_pending}
use bee_ba.Jobs.Queue.Sound.{IsSound}
use bee_ba.Jobs.Queue.Order.{IsOldest, Picked, pick-Picked}
use bee_ba.Jobs.Queue.Run.{Taken, first, later, IsHeld, NotHeld, HeldOnce, IsGood}

pub All-Taken :
    (P : Job → Type 0) (job : Job) (held rest : List Job)
    → Taken job held rest
    → All P held
    → P job × All P rest
All-Taken P job held rest first h = h
All-Taken P job (x ∷ held) (_ ∷ rest) (later t) h =
    let k = All-Taken P job held rest t h.1 in (k.0, (h.0, k.1))

pub NotHeld-Taken :
    (id : ℕ) (job : Job) (held rest : List Job)
    → Taken job held rest
    → NotHeld id held
    → (job.id ≢ id) × NotHeld id rest
NotHeld-Taken id job held rest first h = h
NotHeld-Taken id job (x ∷ held) (_ ∷ rest) (later t) h =
    let k = NotHeld-Taken id job held rest t h.1 in (k.0, (h.0, k.1))

pub HeldOnce-Taken :
    (job : Job) (held rest : List Job)
    → Taken job held rest
    → HeldOnce held
    → NotHeld job.id rest × HeldOnce rest
HeldOnce-Taken job held rest first h = h
HeldOnce-Taken job (x ∷ held) (_ ∷ rest) (later t) h =
    let k = HeldOnce-Taken job held rest t h.1 in
    let n = NotHeld-Taken x.id job held rest t h.0 in (((λ e. n.0 (sym e)), k.0), (n.1, k.1))

-- Writing a row leaves the other held jobs as they are.
pub IsHeld-put_row :
    (row : AdminJob) (table : List AdminJob) (held : List Job)
    → NotHeld row.id held
    → All (IsHeld table) held
    → All (IsHeld (put_row row table)) held
IsHeld-put_row row table [] n h = tt
IsHeld-put_row row table (job ∷ held) n h = (
  record {
    row = h.0.row;
    found = find_row-put_row-ne row table job.id (λ e. n.0 (sym e)) ∙ h.0.found;
    is_running = h.0.is_running;
    copy = h.0.copy;
  },
  IsHeld-put_row row table held n.1 h.1,
)

-- A row that is not running is not held.
pub NotHeld-idle :
    (row : AdminJob) (table : List AdminJob) (held : List Job)
    → find_row row.id table ≡ some row
    → row.status ≢ running
    → All (IsHeld table) held
    → NotHeld row.id held
NotHeld-idle row table [] e n h = tt
NotHeld-idle row table (job ∷ held) e n h = (
  λ same. n (
      ap (λ x. x.status)
        (some-injective _ _ (sym e ∙ ap (λ x. find_row x table) (sym same) ∙ h.0.found))
      ∙ h.0.is_running),
  NotHeld-idle row table held e n h.1,
)

pub NotHeld-new :
    (id : ℕ) (table : List AdminJob) (held : List Job)
    → NotAmong id table
    → All (IsHeld table) held
    → NotHeld id held
NotHeld-new id table [] n h = tt
NotHeld-new id table (job ∷ held) n h =
    (λ same. cc (NotAmong-find_row id table n, h.0.found, same), NotHeld-new id table held n h.1)

-- A written row that no held job names.
pub put_row-IsGood :
    (row : AdminJob) (table : List AdminJob) (held : List Job)
    → IsKeyed table
    → All IsSound table
    → All (IsHeld table) held
    → HeldOnce held
    → IsSound row
    → NotHeld row.id held
    → IsGood (record { table = put_row row table; held = held })
put_row-IsGood row table held k s r o new n = record {
  keyed = IsKeyed-put_row row table k;
  sound = All-put_row IsSound row table new s;
  running_held = IsHeld-put_row row table held n r;
  held_once = o;
}

-- What `Claim` has done when it succeeds.
pub record Claimed (wanted : AdminJob → Bool) (now : ℕ) (worker : Bytes) (table : List AdminJob)
    (job : Job) (table' : List AdminJob) : Type 0 where
  pub row : AdminJob
  pub oldest : IsOldest wanted table row
  pub found : find_row row.id table ≡ some row
  pub job_is : job ≡ claimed (start now worker row)
  pub table_is : table' ≡ put_row (start now worker row) table

pub claim-Claimed :
    (skip : ℕ → Bool) (now : ℕ) (queue worker : Bytes) (table : List AdminJob) (job : Job)
    (table' : List AdminJob)
    → IsKeyed table
    → claim skip now queue worker table ≡ ok (job, table')
    → Claimed (claimable skip now queue) now worker table job table'
unfolding claim
claim-Claimed skip now queue worker table job table' k h =
    let (row, picked, h1) =
      >>=-eq-ok (or_fail (pick (claimable skip now queue) table) no_rows) _ h in
    let (new, updated, h2) = >>=-eq-ok (update_row (start now worker) row.id table) _ h1 in
    of_update row new.0 new.1 (or_fail-eq-ok _ no_rows row picked)
      (update_row-Updated (start now worker) row.id table new.0 new.1 updated) (ok-injective _ _ h2)
  where
    of_update :
        (row new : AdminJob) (left : List AdminJob)
        → pick (claimable skip now queue) table ≡ some row
        → Updated (start now worker) row.id table new left
        → ◌≡◌ {A = Job × List AdminJob} (claimed new, left) (job, table')
        → Claimed (claimable skip now queue) now worker table job table'
    of_update row new left picked u e =
        let oldest : IsOldest (claimable skip now queue) table row =
          subst (Picked (claimable skip now queue) table) picked
            (pick-Picked (claimable skip now queue) table) in
        let found = Mem-find_row table row k oldest.in_table in
        let same : u.old ≡ row = some-injective _ _ (sym u.found ∙ found) in
        let new_is : new ≡ start now worker row = u.new_is ∙ ap (start now worker) same in
        record {
          row = row;
          oldest = oldest;
          found = found;
          job_is = sym (ap (λ x. x.0) e) ∙ ap claimed new_is;
          table_is = sym (ap (λ x. x.1) e) ∙ u.table_is ∙ ap (λ x. put_row x table) new_is;
        }

pub claimable-pending :
    (skip : ℕ → Bool) (now : ℕ) (queue : Bytes) (row : AdminJob)
    → claimable skip now queue row ≡ true
    → row.status ≡ pending
unfolding claimable
claimable-pending skip now queue row h = is_pending-eq row.status (ground (arith, h))
  where
    is_pending-eq : (s : Status) → is_pending s ≡ true → s ≡ pending
    is_pending-eq pending e = refl
    is_pending-eq running e = cc
    is_pending-eq succeeded e = cc
    is_pending-eq failed e = cc
    is_pending-eq dead e = cc
