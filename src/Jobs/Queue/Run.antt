-- ===== src/Jobs/Queue/Run.antt =====
-- The queue over time: the table and the jobs that the workers hold, step by step.
use bee_ba.Common.{ℕ, ◌<◌, ◌≡◌, ◌≢◌, Bool, some, List, [], ◌∷◌, ok, All}
use bee_ba.Common.Text.{Bytes}
use bee_ba.Jobs.Row.{running, Payload, AdminJob, Job, claimed, find_row}
use bee_ba.Jobs.Row.Table.{NotAmong, IsKeyed}
use bee_ba.Jobs.Queue.{
  claim, mark_succeeded, mark_failed, AdminRetryInput, Retried, retry_admin_job, insert_job,
}
use bee_ba.Jobs.Queue.Sound.{IsSound}

pub record State : Type 0 where
  pub table : List AdminJob
  -- The copies that `Claim` returned and that are neither marked nor lost.
  pub held : List Job

-- One element taken out of a list.
pub data Taken (job : Job) : List Job → List Job → Type 0 where
  first : {rest : List Job} → Taken job (job ∷ rest) rest
  later : {x : Job} {xs rest : List Job} → Taken job xs rest → Taken job (x ∷ xs) (x ∷ rest)

pub data Step (s : State) : State → Type 0 where
  enqueue :
      (now id : ℕ) (queue job_type : Bytes) (payload : Payload) (max_attempts : ℕ)
      → NotAmong id s.table
      → 0 < max_attempts
      → Step s (record {
        table = insert_job now id queue job_type payload max_attempts s.table;
        held = s.held;
      })
  claims :
      (skip : ℕ → Bool) (now : ℕ) (queue worker : Bytes) (job : Job) (table : List AdminJob)
      → claim skip now queue worker s.table ≡ ok (job, table)
      → Step s (record { table = table; held = job ∷ s.held })
  succeeds :
      (now : ℕ) (job : Job) (table : List AdminJob) (held : List Job)
      → Taken job s.held held
      → mark_succeeded now job.id s.table ≡ ok table
      → Step s (record { table = table; held = held })
  fails :
      (clock now : ℕ) (job : Job) (message : Bytes) (table : List AdminJob) (held : List Job)
      → Taken job s.held held
      → mark_failed clock now job message s.table ≡ ok table
      → Step s (record { table = table; held = held })
  retries :
      (now : ℕ) (input : AdminRetryInput) (r : Retried)
      → retry_admin_job now input s.table ≡ ok r
      → Step s (record { table = r.table; held = s.held })
  -- A worker stops without marking its job.
  stops :
      (job : Job) (held : List Job)
      → Taken job s.held held
      → Step s (record { table = s.table; held = held })

abbrev pub empty : State
empty = record { table = []; held = [] }

pub data Reached : State → Type 0 where
  at_start : Reached empty
  after : {s s' : State} → Reached s → Step s s' → Reached s'

-- The row of a held job is running, and the worker's copy agrees with it.
pub record IsHeld (table : List AdminJob) (job : Job) : Type 0 where
  pub row : AdminJob
  pub found : find_row job.id table ≡ some row
  pub is_running : row.status ≡ running
  pub copy : job ≡ claimed row

abbrev pub NotHeld : ℕ → List Job → Type 0
NotHeld id [] = Unit {0}
NotHeld id (job ∷ jobs) = (job.id ≢ id) × NotHeld id jobs

abbrev pub HeldOnce : List Job → Type 0
HeldOnce [] = Unit {0}
HeldOnce (job ∷ jobs) = NotHeld job.id jobs × HeldOnce jobs

pub record IsGood (s : State) : Type 0 where
  pub keyed : IsKeyed s.table
  pub sound : All IsSound s.table
  pub running_held : All (IsHeld s.table) s.held
  pub held_once : HeldOnce s.held
