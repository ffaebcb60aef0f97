-- ===== src/Jobs/Queue/Order.antt =====
-- The order of the queue: which row `Claim` picks.
use mathlib.Core.List.{Memᴰ}
use mathlib.Core.List.Memᴰ
use bee_ba.Common.{
  ◌≤◌, ◌≡◌, ◌⊎◌, refl, Bool, true, false, ◌&&◌, Option, none, some, List, [], ◌∷◌, arith, leb,
  Bool-cases, inl, inr,
}
use bee_ba.Jobs.Row.{AdminJob}
use bee_ba.Jobs.Queue.{pick, earlier}

-- A row that is wanted, and no wanted row is older.
pub record IsOldest (wanted : AdminJob → Bool) (table : List AdminJob) (row : AdminJob)
    : Type 0 where
  pub in_table : Memᴰ row table
  pub is_wanted : wanted row ≡ true
  pub oldest :
      (other : AdminJob)
      → Memᴰ other table
      → wanted other ≡ true
      → row.created_at ≤ other.created_at

abbrev pub NoneWanted : (AdminJob → Bool) → List AdminJob → Type 0
NoneWanted wanted table = (other : AdminJob) → Memᴰ other table → wanted other ≡ false

-- What `pick` answers.
abbrev pub Picked : (AdminJob → Bool) → List AdminJob → Option AdminJob → Type 0
Picked wanted table none = NoneWanted wanted table
Picked wanted table (some row) = IsOldest wanted table row

earlier-Picked :
    (wanted : AdminJob → Bool) (row : AdminJob) (rows : List AdminJob) (best : Option AdminJob)
    → Picked wanted rows best
    → Picked wanted (row ∷ rows) (earlier (wanted row) row best)
earlier-Picked wanted row rows none h = elim (Bool-cases (wanted row)) [
  | inl e ↦ rw e (record {
    in_table = Memᴰ.head refl;
    is_wanted = e;
    oldest = λ other m w. only other w (Memᴰ.cases_cons m);
  })
  | inr e ↦ rw e (λ other m. not_any other e (Memᴰ.cases_cons m))
]
  where
    only :
        (other : AdminJob)
        → wanted other ≡ true
        → (other ≡ row) ⊎ Memᴰ other rows
        → row.created_at ≤ other.created_at
    only other w (inl e) = rw e (omega arith)
    only other w (inr m) = absurd (cc (w, h other m))

    not_any :
        (other : AdminJob)
        → wanted row ≡ false
        → (other ≡ row) ⊎ Memᴰ other rows
        → wanted other ≡ false
    not_any other e (inl same) = rw same e
    not_any other e (inr m) = h other m
earlier-Picked wanted row rows (some best) h =
    elim (Bool-cases (wanted row && leb row.created_at best.created_at)) [
      | inl e ↦ rw e (record {
        in_table = Memᴰ.head refl;
        is_wanted = ground (arith, e);
        oldest = λ other m w. first other (ground (arith, e)) w (Memᴰ.cases_cons m);
      })
      | inr e ↦ rw e (record {
        in_table = Memᴰ.tail h.in_table;
        is_wanted = h.is_wanted;
        oldest = λ other m w. still other e w (Memᴰ.cases_cons m);
      })
    ]
  where
    first :
        (other : AdminJob)
        → row.created_at ≤ best.created_at
        → wanted other ≡ true
        → (other ≡ row) ⊎ Memᴰ other rows
        → row.created_at ≤ other.created_at
    first other le w (inl e) = rw e (omega arith)
    first other le w (inr m) = omega (arith, le, h.oldest other m w)

    still :
        (other : AdminJob)
        → (wanted row && leb row.created_at best.created_at) ≡ false
        → wanted other ≡ true
        → (other ≡ row) ⊎ Memᴰ other rows
        → best.created_at ≤ other.created_at
    still other e w (inl same) = rw same (ground (arith, e, rw same at w))
    still other e w (inr m) = h.oldest other m w

pub pick-Picked :
    (wanted : AdminJob → Bool) (table : List AdminJob) → Picked wanted table (pick wanted table)
unfolding pick
pick-Picked wanted [] = λ other m. elim m [ ]
pick-Picked wanted (row ∷ rows) =
    earlier-Picked wanted row rows (pick wanted rows) (pick-Picked wanted rows)
