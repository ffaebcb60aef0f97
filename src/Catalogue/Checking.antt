-- ===== src/Catalogue/Checking.antt =====
-- A server that has a check, said without the code's tests.
use mathlib.Core.List.{Memᴰ}
use mathlib.Core.List.Memᴰ
use bee_ba.Common.{
  ◌≡◌, ◌↔◌, ◌⊎◌, refl, inl, inr, Bool, true, Option, none, some, List, [], ◌∷◌, any_where,
  Bool-cases, arith,
}
use bee_ba.Common.Text.{Bytes, bytes_eq_iff, utf8}
use bee_ba.Jobs.Row.{AdminJob, Status, pending, running, succeeded, failed, dead, member}
use bee_ba.Catalogue.Statement.{is_active_job, is_text, is_check_job}

-- A job that checks the server and is pending or running.
pub record IsCheck (id : Bytes) (job : AdminJob) : Type 0 where
  pub queue : job.queue_name ≡ utf8 "server_check_queue"
  pub active : (job.status ≡ pending) ⊎ (job.status ≡ running)
  pub server : member (utf8 "server_id") job.payload ≡ some id

abbrev pub HasCheck : Bytes → List AdminJob → Type 0
HasCheck id jobs = (job : AdminJob) × Memᴰ job jobs × IsCheck id job

active_iff : (s : Status) → (is_active_job s ≡ true) ↔ ((s ≡ pending) ⊎ (s ≡ running))
active_iff pending = (λ h. inl refl, λ h. refl)
active_iff running = (λ h. inr refl, λ h. refl)
active_iff succeeded = (λ h. cc, λ h. elim h [ inl e ↦ cc | inr e ↦ cc ])
active_iff failed = (λ h. cc, λ h. elim h [ inl e ↦ cc | inr e ↦ cc ])
active_iff dead = (λ h. cc, λ h. elim h [ inl e ↦ cc | inr e ↦ cc ])

text_iff : (id : Bytes) (t : Option Bytes) → (is_text id t ≡ true) ↔ (t ≡ some id)
text_iff id none = (λ h. cc, λ h. cc)
text_iff id (some t) = (λ h. rw ((bytes_eq_iff t id).0 h) refl, λ h. (bytes_eq_iff t id).1 (cc h))

pub is_check_job_iff : (id : Bytes) (job : AdminJob) → (is_check_job id job ≡ true) ↔ IsCheck id job
is_check_job_iff id job = (
  λ h. record {
    queue = (bytes_eq_iff job.queue_name (utf8 "server_check_queue")).0 (ground (arith, h));
    active = (active_iff job.status).0 (ground (arith, h));
    server = (text_iff id (member (utf8 "server_id") job.payload)).0 (ground (arith, h));
  },
  λ c. ground (
    arith,
    (bytes_eq_iff job.queue_name (utf8 "server_check_queue")).1 c.queue,
    (active_iff job.status).1 c.active,
    (text_iff id (member (utf8 "server_id") job.payload)).1 c.server,
  ),
)

pub any_where-Memᴰ :
    {A : Type 0} (q : A → Bool) (xs : List A)
    → any_where q xs ≡ true
    → (x : A) × Memᴰ x xs × (q x ≡ true)
any_where-Memᴰ q [] h = absurd (cc h)
any_where-Memᴰ q (x ∷ xs) h = elim (Bool-cases (q x)) [
  | inl e ↦ (x, Memᴰ.head refl, e)
  | inr e ↦ let (y, m, holds) = any_where-Memᴰ q xs (rw e at h) in (y, Memᴰ.tail m, holds)
]

Memᴰ-any_where :
    {A : Type 0} (q : A → Bool) (x : A) (xs : List A)
    → Memᴰ x xs
    → q x ≡ true
    → any_where q xs ≡ true
Memᴰ-any_where q x [] m h = elim m [ ]
Memᴰ-any_where q x (y ∷ ys) m h = elim (Memᴰ.cases_cons m) [
  | inl e ↦ let here : q y ≡ true = rw (← e) h in ground (arith, here)
  | inr n ↦ ground (arith, Memᴰ-any_where q x ys n h)
]

pub HasCheck-iff :
    (id : Bytes) (jobs : List AdminJob)
    → (any_where (is_check_job id) jobs ≡ true) ↔ HasCheck id jobs
HasCheck-iff id jobs = (
  λ h.
      let (job, m, holds) = any_where-Memᴰ (is_check_job id) jobs h in
      (job, m, (is_check_job_iff id job).0 holds),
  λ (job, m, c). Memᴰ-any_where (is_check_job id) job jobs m ((is_check_job_iff id job).1 c),
)
