-- ===== src/Catalogue/Wanted.antt =====
-- When a server is due for a check, said without the code's tests.
use bee_ba.Common.{
  ℕ, ◌+◌, ◌-◌, ◌*◌, ◌%◌, ◌≤◌, ◌≡◌, ◌↔◌, ◌⊎◌, refl, inl, inr, true, Option, none, some, List, ltb,
  ◌==◌, is_null, if◌then◌else◌, any_where, Bool-cases, arith,
}
use bee_ba.Common.Int.{ℤ, pos, negsuc}
use bee_ba.Jobs.Row.{AdminJob}
use bee_ba.Catalogue.Listing.{
  ListingStatus, draft, pending_verification, pending_moderation, published, offline, failed,
  hidden, deleted, CheckStatus, check_pending, check_running, check_online, check_offline,
  check_failed, Listing,
}
use bee_ba.Catalogue.Statement.{is_check_job}
use bee_ba.Catalogue.Checking.{HasCheck, HasCheck-iff}
use bee_ba.Catalogue.Check.{
  Intervals, duration_milliseconds, millisecond, interval_of, is_scheduled, is_past, needs_check,
}

-- The wait of an interval in nanoseconds: whole milliseconds, and one at least; none for an interval
-- that is zero or negative.
abbrev pub wait : ℤ → ℕ
wait (negsuc d) = 0
wait (pos d) = if d == 0 then 0 else if ltb d 1000000 then 1000000 else d - d % 1000000

-- Never checked, or not within the interval.
abbrev pub IsLongAgo : ℕ → ℤ → Option ℕ → Type 0
IsLongAgo now interval none = Unit {0}
IsLongAgo now interval (some at) = at + wait interval ≤ now

-- The interval depends on the last result.
pub data IsRested (now : ℕ) (i : Intervals) (at : Option ℕ) : CheckStatus → Type 0 where
  rested_online : IsLongAgo now i.online_interval at → IsRested now i at check_online
  rested_offline : IsLongAgo now i.offline_interval at → IsRested now i at check_offline
  rested_failed : IsLongAgo now i.offline_interval at → IsRested now i at check_failed
  rested_pending : IsLongAgo now i.pending_interval at → IsRested now i at check_pending
  rested_running : IsLongAgo now i.pending_interval at → IsRested now i at check_running

abbrev pub IsCheckable : ListingStatus → Type 0
IsCheckable s = (s ≡ pending_verification) ⊎ ((s ≡ published) ⊎ ((s ≡ offline) ⊎ (s ≡ failed)))

pub record IsDue (now : ℕ) (i : Intervals) (jobs : List AdminJob) (l : Listing) : Type 0 where
  pub not_deleted : l.deleted_at ≡ none
  pub checkable : IsCheckable l.status
  pub rested : IsRested now i l.last_checked_at l.check_status
  pub no_check : ¬ HasCheck l.id jobs

duration-wait : (d : ℤ) → duration_milliseconds d * millisecond ≡ wait d
unfolding duration_milliseconds
duration-wait (negsuc d) = refl
duration-wait (pos d) = ground arith

past_iff :
    (now : ℕ) (d : ℤ) (at : Option ℕ)
    → (is_past now (duration_milliseconds d * millisecond) at ≡ true) ↔ IsLongAgo now d at
past_iff now d none = (λ h. tt, λ h. refl)
past_iff now d (some at) = rw (duration-wait d) (λ h. ground (arith, h), λ h. ground (arith, h))

IsRested-iff :
    (now : ℕ) (i : Intervals) (at : Option ℕ) (s : CheckStatus)
    → (is_past now (interval_of i s) at ≡ true) ↔ IsRested now i at s
unfolding interval_of
IsRested-iff now i at check_online = (
  λ h. rested_online ((past_iff now i.online_interval at).0 h),
  λ r. elim r [ rested_online a ↦ (past_iff now i.online_interval at).1 a ],
)
IsRested-iff now i at check_offline = (
  λ h. rested_offline ((past_iff now i.offline_interval at).0 h),
  λ r. elim r [ rested_offline a ↦ (past_iff now i.offline_interval at).1 a ],
)
IsRested-iff now i at check_failed = (
  λ h. rested_failed ((past_iff now i.offline_interval at).0 h),
  λ r. elim r [ rested_failed a ↦ (past_iff now i.offline_interval at).1 a ],
)
IsRested-iff now i at check_pending = (
  λ h. rested_pending ((past_iff now i.pending_interval at).0 h),
  λ r. elim r [ rested_pending a ↦ (past_iff now i.pending_interval at).1 a ],
)
IsRested-iff now i at check_running = (
  λ h. rested_running ((past_iff now i.pending_interval at).0 h),
  λ r. elim r [ rested_running a ↦ (past_iff now i.pending_interval at).1 a ],
)

IsCheckable-is_scheduled : (s : ListingStatus) → IsCheckable s → is_scheduled s ≡ true
IsCheckable-is_scheduled s (inl e) = rw e refl
IsCheckable-is_scheduled s (inr (inl e)) = rw e refl
IsCheckable-is_scheduled s (inr (inr (inl e))) = rw e refl
IsCheckable-is_scheduled s (inr (inr (inr e))) = rw e refl

is_scheduled-IsCheckable : (s : ListingStatus) → is_scheduled s ≡ true → IsCheckable s
is_scheduled-IsCheckable pending_verification h = inl refl
is_scheduled-IsCheckable published h = inr (inl refl)
is_scheduled-IsCheckable offline h = inr (inr (inl refl))
is_scheduled-IsCheckable failed h = inr (inr (inr refl))
is_scheduled-IsCheckable draft h = absurd (cc h)
is_scheduled-IsCheckable pending_moderation h = absurd (cc h)
is_scheduled-IsCheckable hidden h = absurd (cc h)
is_scheduled-IsCheckable deleted h = absurd (cc h)

is_null_iff : (o : Option ℕ) → (is_null o ≡ true) ↔ (o ≡ none)
is_null_iff none = (λ h. refl, λ h. refl)
is_null_iff (some n) = (λ h. cc, λ h. cc)

-- The scheduler's condition says that the server is due.
pub needs_check_iff :
    (now : ℕ) (i : Intervals) (jobs : List AdminJob) (l : Listing)
    → (needs_check now i jobs l ≡ true) ↔ IsDue now i jobs l
unfolding needs_check
needs_check_iff now i jobs l = (
  λ h. record {
    not_deleted = (is_null_iff l.deleted_at).0 (ground (arith, h));
    checkable = is_scheduled-IsCheckable l.status (ground (arith, h));
    rested = (IsRested-iff now i l.last_checked_at l.check_status).0 (ground (arith, h));
    no_check = λ c. let busy = (HasCheck-iff l.id jobs).1 c in absurd (ground (arith, h, busy));
  },
  λ d. elim (Bool-cases (any_where (is_check_job l.id) jobs)) [
    | inl busy ↦ absurd (d.no_check ((HasCheck-iff l.id jobs).0 busy))
    | inr free ↦ ground (
      arith,
      (is_null_iff l.deleted_at).1 d.not_deleted,
      IsCheckable-is_scheduled l.status d.checkable,
      (IsRested-iff now i l.last_checked_at l.check_status).1 d.rested,
      free,
    )
  ],
)
