-- ===== src/Jobs/Queue/Sound.antt =====
-- What a row of the queue satisfies in each status, and that every write keeps it.
use mathlib.Core.Path.{subst}
use bee_ba.Common.{
  ℕ, ◌≤◌, ◌<◌, ◌≡◌, refl, Bool, none, some, [], ◌∷◌, arith, leb, Bool-cases, inl, inr,
}
use bee_ba.Common.Text.{Bytes, bytes_eq, bytes_eq_iff}
use bee_ba.Jobs.Row.{
  Status, pending, running, succeeded, failed, dead, Payload, AdminJob, Job, member, without,
  email_queue, token_key, kept_payload, claimed,
}
use bee_ba.Jobs.Queue.{start, succeed, fail_row, requeue}

pub record IsUnlocked (row : AdminJob) : Type 0 where
  pub no_owner : row.locked_by ≡ none
  pub no_time : row.locked_at ≡ none

-- An email job holds no token.
abbrev pub HasNoToken : AdminJob → Type 0
HasNoToken row = row.queue_name ≡ email_queue → member token_key row.payload ≡ none

-- Attempts are left while a job waits; only a running job has an owner; a job dies when its
-- attempts are used up; an email job that is over holds no token; the status `failed` is not used.
abbrev pub Fits : Status → AdminJob → Type 0
Fits pending row = (row.attempt_count < row.max_attempts) × IsUnlocked row
Fits running row =
    (0 < row.attempt_count)
    × (row.attempt_count ≤ row.max_attempts)
    × ((worker : Bytes) × (row.locked_by ≡ some worker))
Fits succeeded row = (row.attempt_count ≤ row.max_attempts) × IsUnlocked row × HasNoToken row
Fits failed row = ⊥
Fits dead row = (row.attempt_count ≡ row.max_attempts) × IsUnlocked row × HasNoToken row

pub record IsSound (row : AdminJob) : Type 0 where
  pub has_attempts : 0 < row.max_attempts
  pub fits : Fits row.status row

pub IsSound-Fits : (row : AdminJob) (s : Status) → IsSound row → row.status ≡ s → Fits s row
IsSound-Fits row s h e = subst (λ x. Fits x row) e h.fits

pub member-without : (key : Bytes) (p : Payload) → member key (without key p) ≡ none
unfolding member without
member-without key [] = refl
member-without key ((k, v) ∷ rest) = elim (Bool-cases (bytes_eq k key)) [
  | inl e ↦ rw e (member-without key rest)
  | inr e ↦ rw (e, e) (member-without key rest)
]

pub member-kept_payload :
    (row : AdminJob) → row.queue_name ≡ email_queue → member token_key (kept_payload row) ≡ none
unfolding kept_payload
member-kept_payload row h =
    rw ((bytes_eq_iff row.queue_name email_queue).1 h) (member-without token_key row.payload)

pub start-IsSound :
    (now : ℕ) (worker : Bytes) (row : AdminJob)
    → IsSound row
    → row.status ≡ pending
    → IsSound (start now worker row)
start-IsSound now worker row s h =
    let waiting : Fits pending row = IsSound-Fits row pending s h in
    record {
      has_attempts = s.has_attempts;
      fits = (omega arith, omega (arith, waiting.0), (worker, refl));
    }

pub succeed-IsSound :
    (now : ℕ) (row : AdminJob) → IsSound row → row.status ≡ running → IsSound (succeed now row)
succeed-IsSound now row s h =
    let busy : Fits running row = IsSound-Fits row running s h in
    record {
      has_attempts = s.has_attempts;
      fits = (busy.1, record { no_owner = refl; no_time = refl }, λ e. member-kept_payload row e);
    }

pub fail_row-IsSound :
    (clock now : ℕ) (message : Bytes) (row : AdminJob)
    → IsSound row
    → row.status ≡ running
    → IsSound
        (fail_row (leb row.max_attempts row.attempt_count) clock now (claimed row) message row)
unfolding fail_row
fail_row-IsSound clock now message row s h =
    let busy : Fits running row = IsSound-Fits row running s h in
    elim (Bool-cases (leb row.max_attempts row.attempt_count)) [
      | inl e ↦ rw e (record {
        has_attempts = s.has_attempts;
        fits = (
          ground (arith, e, busy.1),
          record { no_owner = refl; no_time = refl },
          λ q. member-kept_payload row q,
        );
      })
      | inr e ↦ rw e (record {
        has_attempts = s.has_attempts;
        fits = (ground (arith, e), record { no_owner = refl; no_time = refl });
      })
    ]

pub requeue-IsSound : (now : ℕ) (row : AdminJob) → IsSound row → IsSound (requeue now row)
requeue-IsSound now row s = record {
  has_attempts = s.has_attempts;
  fits = (s.has_attempts, record { no_owner = refl; no_time = refl });
}

pub fail_row-id :
    (spent : Bool) (clock now : ℕ) (job : Job) (message : Bytes) (row : AdminJob)
    → (fail_row spent clock now job message row).id ≡ row.id
unfolding fail_row
fail_row-id spent clock now job message row = refl

pub fail_row-attempts :
    (spent : Bool) (clock now : ℕ) (job : Job) (message : Bytes) (row : AdminJob)
    → (fail_row spent clock now job message row).attempt_count ≡ row.attempt_count
unfolding fail_row
fail_row-attempts spent clock now job message row = refl

pub IsSound-attempts_le : (row : AdminJob) → IsSound row → row.attempt_count ≤ row.max_attempts
IsSound-attempts_le row s = by_status row.status s.fits
  where
    by_status : (st : Status) → Fits st row → row.attempt_count ≤ row.max_attempts
    by_status pending f = omega (arith, f.0)
    by_status running f = f.1
    by_status succeeded f = f.0
    by_status failed f = absurd f
    by_status dead f = omega (arith, f.0)
