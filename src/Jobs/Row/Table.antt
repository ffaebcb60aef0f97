-- ===== src/Jobs/Row/Table.antt =====
-- The table as a map from ids to rows: looking up, writing, and what an update keeps.
use mathlib.Core.List.{Memᴰ}
use bee_ba.Common.{
  ℕ, ◌≡◌, ◌≢◌, refl, sym, ap, true, not, none, some, Bool-cases, inl, inr, or_fail-eq-ok,
  ok-injective, not-eq-false, fail_if_ok, List, [], ◌∷◌, ok, arith, ◌==◌, ==_iff, ==-refl, All,
  >>=-eq-ok, or_fail,
}
use bee_ba.Jobs.Row.{
  AdminJob, no_rows, check_violation, attempts_valid, find_row, put_row, update_row,
}

abbrev pub NotAmong : ℕ → List AdminJob → Type 0
NotAmong id [] = Unit {0}
NotAmong id (row ∷ rows) = (row.id ≢ id) × NotAmong id rows

-- The ids are a primary key.
abbrev pub IsKeyed : List AdminJob → Type 0
IsKeyed [] = Unit {0}
IsKeyed (row ∷ rows) = NotAmong row.id rows × IsKeyed rows

pub find_row-id :
    (id : ℕ) (table : List AdminJob) (row : AdminJob) → find_row id table ≡ some row → row.id ≡ id
unfolding find_row
find_row-id id [] row h = cc
find_row-id id (old ∷ rows) row h = ground (arith, find_row-id id rows row)

pub find_row-Mem :
    (id : ℕ) (table : List AdminJob) (row : AdminJob)
    → find_row id table ≡ some row
    → Memᴰ row table
unfolding find_row
find_row-Mem id [] row h = cc
find_row-Mem id (old ∷ rows) row h = elim (Bool-cases (old.id == id)) [
  | inl e ↦ (let same : some old ≡ some row = rw e at h in Memᴰ.head (cc same))
  | inr e ↦ Memᴰ.tail (find_row-Mem id rows row (rw e at h))
]

pub All-Mem :
    (P : AdminJob → Type 0) (table : List AdminJob) (row : AdminJob)
    → All P table
    → Memᴰ row table
    → P row
All-Mem P (x ∷ rows) row h (Memᴰ.head e) = rw e h.0
All-Mem P (x ∷ rows) row h (Memᴰ.tail m) = All-Mem P rows row h.1 m
All-Mem P [] row h m = elim m [ ]

pub All-find_row :
    (P : AdminJob → Type 0) (id : ℕ) (table : List AdminJob) (row : AdminJob)
    → All P table
    → find_row id table ≡ some row
    → P row
All-find_row P id table row h e = All-Mem P table row h (find_row-Mem id table row e)

pub NotAmong-find_row :
    (id : ℕ) (table : List AdminJob) → NotAmong id table → find_row id table ≡ none
unfolding find_row
NotAmong-find_row id [] h = refl
NotAmong-find_row id (row ∷ rows) h = ground (arith, NotAmong-find_row id rows)

pub NotAmong-Mem :
    (id : ℕ) (table : List AdminJob) (row : AdminJob)
    → NotAmong id table
    → Memᴰ row table
    → row.id ≢ id
NotAmong-Mem id (x ∷ rows) row h (Memᴰ.head e) = rw e h.0
NotAmong-Mem id (x ∷ rows) row h (Memᴰ.tail m) = NotAmong-Mem id rows row h.1 m
NotAmong-Mem id [] row h m = elim m [ ]

pub Mem-find_row :
    (table : List AdminJob) (row : AdminJob)
    → IsKeyed table
    → Memᴰ row table
    → find_row row.id table ≡ some row
unfolding find_row
Mem-find_row (x ∷ rows) row k (Memᴰ.head e) = rw (sym e, ==-refl row.id) refl
Mem-find_row (x ∷ rows) row k (Memᴰ.tail m) =
    ground (arith, Mem-find_row rows row k.1 m, NotAmong-Mem x.id rows row k.0 m)
Mem-find_row [] row k m = elim m [ ]

-- What is written is found, and no other row has changed.
pub find_row-put_row :
    (row : AdminJob) (table : List AdminJob) (old : AdminJob)
    → find_row row.id table ≡ some old
    → find_row row.id (put_row row table) ≡ some row
unfolding find_row put_row
find_row-put_row row [] old h = cc
find_row-put_row row (x ∷ rows) old h = elim (Bool-cases (x.id == row.id)) [
  | inl e ↦ rw (e, ==-refl row.id) refl
  | inr e ↦ rw (e, e) (find_row-put_row row rows old (rw e at h))
]

pub find_row-put_row-ne :
    (row : AdminJob) (table : List AdminJob) (id : ℕ)
    → row.id ≢ id
    → find_row id (put_row row table) ≡ find_row id table
unfolding find_row put_row
find_row-put_row-ne row [] id h = refl
find_row-put_row-ne row (x ∷ rows) id h = elim (Bool-cases (x.id == row.id)) [
  | inl e ↦ rw e (ground arith)
  | inr e ↦ rw (e, find_row-put_row-ne row rows id h) refl
]

pub find_row-cons :
    (row : AdminJob) (table : List AdminJob) → find_row row.id (row ∷ table) ≡ some row
unfolding find_row
find_row-cons row table = rw (==-refl row.id) refl

pub find_row-cons-ne :
    (row : AdminJob) (table : List AdminJob) (id : ℕ)
    → row.id ≢ id
    → find_row id (row ∷ table) ≡ find_row id table
unfolding find_row
find_row-cons-ne row table id h = ground arith

pub All-put_row :
    (P : AdminJob → Type 0) (row : AdminJob) (table : List AdminJob)
    → P row
    → All P table
    → All P (put_row row table)
unfolding put_row
All-put_row P row [] p h = tt
All-put_row P row (x ∷ rows) p h = elim (Bool-cases (x.id == row.id)) [
  | inl e ↦ rw e (p, h.1)
  | inr e ↦ rw e (h.0, All-put_row P row rows p h.1)
]

pub NotAmong-put_row :
    (id : ℕ) (row : AdminJob) (table : List AdminJob)
    → NotAmong id table
    → NotAmong id (put_row row table)
unfolding put_row
NotAmong-put_row id row [] h = tt
NotAmong-put_row id row (x ∷ rows) h = elim (Bool-cases (x.id == row.id)) [
  | inl e ↦ rw e (rw ((==_iff x.id row.id).0 e) at h.0, h.1)
  | inr e ↦ rw e (h.0, NotAmong-put_row id row rows h.1)
]

pub IsKeyed-put_row :
    (row : AdminJob) (table : List AdminJob) → IsKeyed table → IsKeyed (put_row row table)
unfolding put_row
IsKeyed-put_row row [] k = tt
IsKeyed-put_row row (x ∷ rows) k = elim (Bool-cases (x.id == row.id)) [
  | inl e ↦ rw e (rw ((==_iff x.id row.id).0 e) at k.0, k.1)
  | inr e ↦ rw e (NotAmong-put_row x.id row rows k.0, IsKeyed-put_row row rows k.1)
]

-- An update that succeeds: the row it found, and the table it leaves.
pub record Updated (f : AdminJob → AdminJob) (id : ℕ) (table : List AdminJob) (new : AdminJob)
    (table' : List AdminJob) : Type 0 where
  pub old : AdminJob
  pub found : find_row id table ≡ some old
  pub valid : attempts_valid new ≡ true
  pub new_is : new ≡ f old
  pub table_is : table' ≡ put_row new table

pub update_row-Updated :
    (f : AdminJob → AdminJob) (id : ℕ) (table : List AdminJob) (new : AdminJob)
    (table' : List AdminJob)
    → update_row f id table ≡ ok (new, table')
    → Updated f id table new table'
unfolding update_row
update_row-Updated f id table new table' h =
    let (old, found, h1) = >>=-eq-ok (or_fail (find_row id table) no_rows) _ h in
    let (valid, same) = fail_if_ok (not (attempts_valid (f old))) check_violation h1 in
    let pair = ok-injective _ _ same in
    record {
      old = old;
      found = or_fail-eq-ok (find_row id table) no_rows old found;
      valid = rw (sym (ap (λ x. x.0) pair)) (not-eq-false (attempts_valid (f old)) valid);
      new_is = sym (ap (λ x. x.0) pair);
      table_is = rw (sym (ap (λ x. x.0) pair)) (sym (ap (λ x. x.1) pair));
    }
