-- ===== src/Jobs/Queue/Outcome.antt =====
-- What the queue's operations answer in the states that they reach.
use Prim.Native.Nat.{min}
use bee_ba.Common.{
  ℕ, zero, suc, ◌+◌, ◌*◌, ◌≤◌, ◌≡◌, ◌⊎◌, refl, sym, ap, ◌∙◌, Bool, true, Option, none, some, List,
  ok, err, arith, leb, inl, inr, if◌then◌else◌,
}
use bee_ba.Common.Text.{Bytes}
use bee_ba.Jobs.Row.{
  pending, dead, AdminJob, Job, no_rows, claimed, find_row, put_row, update_row, attempts_valid,
}
use bee_ba.Jobs.Row.Table.{find_row-id, All-find_row, All-Mem, Mem-find_row, find_row-put_row}
use bee_ba.Jobs.Queue.{
  claimable, pick, claim, start, clamp_attempt, fail_row, mark_failed, minute, backoff,
}
use bee_ba.Jobs.Queue.Sound.{IsSound, IsSound-attempts_le, start-IsSound}
use bee_ba.Jobs.Queue.Order.{IsOldest, Picked, NoneWanted, pick-Picked}
use bee_ba.Jobs.Queue.Run.{State, Taken, Reached, IsHeld, IsGood}
use bee_ba.Jobs.Queue.Held.{All-Taken, claimable-pending}
use bee_ba.Jobs.Queue.Invariant.{Reached-IsGood, mark_failed-keeps}

-- A sound row passes the constraint of the table.
IsSound-attempts_valid : (row : AdminJob) → IsSound row → attempts_valid row ≡ true
IsSound-attempts_valid row s = ground (arith, s.has_attempts, IsSound-attempts_le row s)

update_row-ok :
    (f : AdminJob → AdminJob) (id : ℕ) (table : List AdminJob) (row : AdminJob)
    → find_row id table ≡ some row
    → IsSound (f row)
    → update_row f id table ≡ ok (f row, put_row (f row) table)
unfolding update_row
update_row-ok f id table row found s = rw (found, IsSound-attempts_valid (f row) s) refl

-- No row can be claimed, or the oldest claimable one is claimed.
abbrev pub ClaimOutcome : (ℕ → Bool) → ℕ → Bytes → Bytes → List AdminJob → Type 0
ClaimOutcome skip now queue worker table =
    ((claim skip now queue worker table ≡ err no_rows)
      × NoneWanted (claimable skip now queue) table)
    ⊎ ((row : AdminJob) × IsOldest (claimable skip now queue) table row
        × (claim skip now queue worker table
            ≡ ok (claimed (start now worker row), put_row (start now worker row) table)))

-- In a state that the queue reaches, `Claim` returns either no rows, when no row of the queue is
-- pending, due and free of other transactions' locks, or the oldest such row by its creation
-- time, as it is after the claim: running, owned by the worker, with one attempt more. No other
-- error occurs and no other row of the table changes.
pub claim-Reached :
    (s : State) (skip : ℕ → Bool) (now : ℕ) (queue worker : Bytes)
    → Reached s
    → ClaimOutcome skip now queue worker s.table
unfolding claim
claim-Reached s skip now queue worker r =
    by_pick _ (pick-Picked (claimable skip now queue) s.table) refl
  where
    g : IsGood s
    g = Reached-IsGood s r

    by_pick :
        (best : Option AdminJob)
        → Picked (claimable skip now queue) s.table best
        → pick (claimable skip now queue) s.table ≡ best
        → ClaimOutcome skip now queue worker s.table
    by_pick none p e = inl (rw e refl, p)
    by_pick (some row) p e =
        let found = Mem-find_row s.table row g.keyed p.in_table in
        let sound =
          start-IsSound now worker row (All-Mem IsSound s.table row g.sound p.in_table)
            (claimable-pending skip now queue row p.is_wanted) in
        inr (row, p, rw (e, update_row-ok (start now worker) row.id s.table row found sound) refl)

clamp_attempt-large : (n : ℕ) → 6 ≤ n → clamp_attempt n ≡ 6
clamp_attempt-large n h = ground arith

backoff-large : (n : ℕ) → 6 ≤ n → backoff n ≡ 32 * minute
unfolding backoff
backoff-large n h = rw (clamp_attempt-large n h) refl

backoff-ceiling :
    (n : ℕ)
    → 6 ≤ n
    → (minute ≤ backoff n)
      × (backoff n ≤ 32 * minute)
      × (backoff (n + 1) ≡ min (2 * backoff n) (32 * minute))
backoff-ceiling n h =
    let now = backoff-large n h in
    let next = backoff-large (n + 1) (omega (arith, h)) in
    (omega (arith, now), omega (arith, now), omega (arith, now, next))

-- The first attempt waits for a minute. From attempt `n` to the next, the wait doubles, but never
-- beyond 32 minutes, and it is never below one minute.
pub backoff_lem :
    (n : ℕ)
    → 1 ≤ n
    → (backoff 1 ≡ minute)
      × (minute ≤ backoff n)
      × (backoff n ≤ 32 * minute)
      × (backoff (n + 1) ≡ min (2 * backoff n) (32 * minute))
unfolding backoff
backoff_lem zero h = absurd (omega (arith, h))
backoff_lem (suc zero) h = (refl, omega arith, omega arith, refl)
backoff_lem (suc (suc zero)) h = (refl, omega arith, omega arith, refl)
backoff_lem (suc (suc (suc zero))) h = (refl, omega arith, omega arith, refl)
backoff_lem (suc (suc (suc (suc zero)))) h = (refl, omega arith, omega arith, refl)
backoff_lem (suc (suc (suc (suc (suc zero))))) h = (refl, omega arith, omega arith, refl)
backoff_lem (suc (suc (suc (suc (suc (suc n)))))) h =
    let c = backoff-ceiling (suc (suc (suc (suc (suc (suc n)))))) (omega arith) in
    (refl, c.0, c.1, c.2)

-- A job that fails is retried while attempts are left, no earlier than its backoff allows, and is
-- dead otherwise.
pub record IsFailed (clock : ℕ) (job : Job) (message : Bytes) (table : List AdminJob) : Type 0 where
  pub row : AdminJob
  pub found : find_row job.id table ≡ some row
  pub status_is : row.status ≡ (if leb job.max_attempts job.attempt_count then dead else pending)
  pub waits : row.next_retry_at ≡ (
      if leb job.max_attempts job.attempt_count
      then none
      else some (clock + backoff job.attempt_count))
  pub attempts : row.attempt_count ≡ job.attempt_count
  pub message_is : row.last_error ≡ some message
  pub is_free : row.locked_by ≡ none

-- `MarkFailed` of a job that a worker holds, in a state that the queue reaches, succeeds. The
-- job's row is then free, keeps its attempts and has the message; it is dead and waits for nothing
-- if the attempts are used up, and otherwise pending until the backoff after the worker's clock.
pub mark_failed-Reached :
    (s : State) (job : Job) (held : List Job) (clock now : ℕ) (message : Bytes)
    → Reached s
    → Taken job s.held held
    → (table : List AdminJob) × (mark_failed clock now job message s.table ≡ ok table)
      × IsFailed clock job message table
unfolding mark_failed fail_row
mark_failed-Reached s job held clock now message r t =
    let g = Reached-IsGood s r in
    let (mine, _) = All-Taken (IsHeld s.table) job s.held held t g.running_held in
    let f = fail_row (leb job.max_attempts job.attempt_count) clock now job message in
    let sound =
      mark_failed-keeps clock now job message mine.row
        (All-find_row IsSound job.id s.table mine.row g.sound mine.found) mine.is_running
        mine.copy in
    let id_is = find_row-id job.id s.table mine.row mine.found in
    (
      put_row (f mine.row) s.table,
      rw (update_row-ok f job.id s.table mine.row mine.found sound) refl,
      record {
        row = f mine.row;
        found =
            ap (λ x. find_row x (put_row (f mine.row) s.table)) (sym id_is)
            ∙ find_row-put_row (f mine.row) s.table mine.row
                (ap (λ x. find_row x s.table) id_is ∙ mine.found);
        status_is = refl;
        waits = refl;
        attempts = rw mine.copy refl;
        message_is = refl;
        is_free = refl;
      },
    )
