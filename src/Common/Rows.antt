-- ===== src/Common/Rows.antt =====
-- SQL statements on a table that is a list of rows: SELECT, UPDATE and DELETE with a condition.
use Prim.Native.Nat.{ℕ, ◌+◌, ◌≤◌}
use mathlib.Core.Path.{◌≡◌, refl}
use mathlib.Core.Bool.{Bool, true, false, ◌&&◌, ◌||◌}
use mathlib.Core.Option.{Option, none, some}
use mathlib.Core.List.{List, [], ◌∷◌, Memᴰ}
use mathlib.Core.List.Memᴰ
use mathlib.Core.Logic.{inl, inr, ◌≢◌}
use native.Mathlib.Omega.{arith}
use bee_ba.Common.Tests.{if◌then◌else◌, Bool-cases}
use bee_ba.Common.Lists.{All}
use bee_ba.Common.Text.{Bytes, bytes_eq, bytes_eq_iff}

-- `value IS NULL`
abbrev pub is_null {ℓ} : {A : Type ℓ} → Option A → Bool
is_null none = true
is_null (some a) = false

module _ {ℓ} {A : Type ℓ} where
  abbrev pub find_where : (A → Bool) → List A → Option A
  find_where p [] = none
  find_where p (x ∷ xs) = let rest = find_where p xs in if p x then some x else rest

  abbrev pub any_where : (A → Bool) → List A → Bool
  any_where p [] = false
  any_where p (x ∷ xs) = p x || any_where p xs

  abbrev pub update_where : (A → Bool) → (A → A) → List A → List A
  update_where p f [] = []
  update_where p f (x ∷ xs) = (if p x then f x else x) ∷ update_where p f xs

  abbrev pub remove_where : (A → Bool) → List A → List A
  remove_where p [] = []
  remove_where p (x ∷ xs) = let rest = remove_where p xs in if p x then rest else x ∷ rest

  abbrev pub count_where : (A → Bool) → List A → ℕ
  count_where p [] = 0
  count_where p (x ∷ xs) = (if p x then 1 else 0) + count_where p xs

  pub find_where-holds :
      (p : A → Bool) (xs : List A) (x : A) → find_where p xs ≡ some x → (p x ≡ true) × Memᴰ x xs
  find_where-holds p [] x h = (cc, cc)
  find_where-holds p (y ∷ ys) x h = elim (Bool-cases (p y)) [
    | inl e ↦
        let same : some y ≡ some x = rw e at h in
        let here : y ≡ x = cc same in (rw (← here) e, rw (← here) (Memᴰ.head refl))
    | inr e ↦ let (holds, m) = find_where-holds p ys x (rw e at h) in (holds, Memᴰ.tail m)
  ]

  pub count_where-ext :
      (p q : A → Bool) (xs : List A) → ((x : A) → p x ≡ q x) → count_where p xs ≡ count_where q xs
  count_where-ext p q [] h = refl
  count_where-ext p q (x ∷ xs) h = rw (h x, count_where-ext p q xs h)

  pub count_where_mono :
      (p q : A → Bool) (xs : List A)
      → ((x : A) → p x ≡ true → q x ≡ true)
      → count_where p xs ≤ count_where q xs
  count_where_mono p q [] h = omega arith
  count_where_mono p q (x ∷ xs) h = ground (arith, h x, count_where_mono p q xs h)

  -- What is removed and what stays.
  pub count_where-remove :
      (p q : A → Bool) (xs : List A)
      → count_where p xs ≡ count_where p (remove_where q xs) + count_where (λ x. p x && q x) xs
  count_where-remove p q [] = omega arith
  count_where-remove p q (x ∷ xs) = ground (arith, count_where-remove p q xs)

  pub any_where_none : (p : A → Bool) (xs : List A) → any_where p xs ≡ false → count_where p xs ≡ 0
  any_where_none p [] h = refl
  any_where_none p (x ∷ xs) h = ground (arith, any_where_none p xs)

module _ {ℓ κ} {A : Type ℓ} where
  pub All-update_where :
      (P : A → Type κ) (p : A → Bool) (f : A → A) (xs : List A)
      → ((x : A) → P x → P (f x))
      → All P xs
      → All P (update_where p f xs)
  All-update_where P p f [] keep h = tt
  All-update_where P p f (x ∷ xs) keep h = elim (Bool-cases (p x)) [
    | inl e ↦ (rw e (keep x h.0), All-update_where P p f xs keep h.1)
    | inr e ↦ (rw e h.0, All-update_where P p f xs keep h.1)
  ]

  pub All-update_where_if :
      (P Q : A → Type κ) (p : A → Bool) (f : A → A) (xs : List A)
      → ((x : A) → p x ≡ true → P x → Q (f x))
      → ((x : A) → p x ≡ false → P x → Q x)
      → All P xs
      → All Q (update_where p f xs)
  All-update_where_if P Q p f [] change keep h = tt
  All-update_where_if P Q p f (x ∷ xs) change keep h = elim (Bool-cases (p x)) [
    | inl e ↦ (rw e (change x e h.0), All-update_where_if P Q p f xs change keep h.1)
    | inr e ↦ (rw e (keep x e h.0), All-update_where_if P Q p f xs change keep h.1)
  ]

  pub All-Memᴰ : (P : A → Type κ) (xs : List A) (x : A) → All P xs → Memᴰ x xs → P x
  All-Memᴰ P [] x h m = elim m [ ]
  All-Memᴰ P (y ∷ ys) x h m = elim (Memᴰ.cases_cons m) [
    | inl e ↦ rw e h.0
    | inr n ↦ All-Memᴰ P ys x h.1 n
  ]

  pub Memᴰ-All : (P : A → Type κ) (xs : List A) → ((x : A) → Memᴰ x xs → P x) → All P xs
  Memᴰ-All P [] h = tt
  Memᴰ-All P (x ∷ xs) h = (h x (Memᴰ.head refl), Memᴰ-All P xs (λ y m. h y (Memᴰ.tail m)))

module _ {ℓ} {A : Type ℓ} (key : A → Bytes) (k : Bytes) where
  pub any_where-update :
      (p : A → Bool) (f : A → A) (xs : List A)
      → ((x : A) → key (f x) ≡ key x)
      → any_where (λ x. bytes_eq (key x) k) (update_where p f xs)
        ≡ any_where (λ x. bytes_eq (key x) k) xs
  any_where-update p f [] h = refl
  any_where-update p f (x ∷ xs) h = elim (Bool-cases (p x)) [
    | inl e ↦ rw (e, h x, any_where-update p f xs h)
    | inr e ↦ rw (e, any_where-update p f xs h)
  ]

-- A row with the key `k` is there, and each such row is done: used, or revoked.
module _ {ℓ} {A : Type ℓ} (key : A → Bytes) (done : A → Bool) (k : Bytes) where
  pub record Settled (xs : List A) : Type ℓ where
    pub present : any_where (λ x. bytes_eq (key x) k) xs ≡ true
    pub settled : All (λ x. key x ≡ k → done x ≡ true) xs

  pub Settled-update :
      (p : A → Bool) (f : A → A) (xs : List A)
      → ((x : A) → key (f x) ≡ key x)
      → ((x : A) → done x ≡ true → done (f x) ≡ true)
      → Settled xs
      → Settled (update_where p f xs)
  Settled-update p f xs same keep s = record {
    present = rw (any_where-update key k p f xs same) s.present;
    settled =
        All-update_where (λ x. key x ≡ k → done x ≡ true) p f xs
          (λ x h e. keep x (h (rw (← same x) e))) s.settled;
  }

  -- An update of the rows with other keys.
  pub Settled-update_other :
      (p : A → Bool) (f : A → A) (xs : List A)
      → ((x : A) → key (f x) ≡ key x)
      → ((x : A) → p x ≡ true → key x ≢ k)
      → Settled xs
      → Settled (update_where p f xs)
  Settled-update_other p f xs same other s = record {
    present = rw (any_where-update key k p f xs same) s.present;
    settled =
        All-update_where_if (λ x. key x ≡ k → done x ≡ true) (λ x. key x ≡ k → done x ≡ true) p f xs
          (λ x h q e. absurd (other x h (rw (← same x) e))) (λ x h q. q) s.settled;
  }

  pub Settled-insert :
      (x : A) (xs : List A)
      → any_where (λ y. bytes_eq (key y) (key x)) xs ≡ false
      → Settled xs
      → Settled (x ∷ xs)
  Settled-insert x xs fresh s = elim (Bool-cases (bytes_eq (key x) k)) [
    | inl e ↦ let same = (bytes_eq_iff (key x) k).0 e in absurd (cc (rw same at fresh, s.present))
    | inr e ↦ record {
      present = rw e s.present;
      settled = (λ h. absurd (cc ((bytes_eq_iff (key x) k).1 h, e)), s.settled);
    }
  ]

-- A unique column.
module _ {ℓ} {A : Type ℓ} (key : A → Bytes) where
  abbrev pub IsKeyed : List A → Type 0
  IsKeyed [] = Unit {0}
  IsKeyed (x ∷ xs) = (any_where (λ y. bytes_eq (key y) (key x)) xs ≡ false) × IsKeyed xs

  pub IsKeyed-update :
      (p : A → Bool) (f : A → A) (xs : List A)
      → ((x : A) → key (f x) ≡ key x)
      → IsKeyed xs
      → IsKeyed (update_where p f xs)
  IsKeyed-update p f [] same h = tt
  IsKeyed-update p f (x ∷ xs) same h = elim (Bool-cases (p x)) [
    | inl e ↦ (
      rw (e, same x, any_where-update key (key x) p f xs same) h.0,
      IsKeyed-update p f xs same h.1,
    )
    | inr e ↦ (rw (e, any_where-update key (key x) p f xs same) h.0, IsKeyed-update p f xs same h.1)
  ]

  pub Absent :
      (k : Bytes) (done : A → Bool) (xs : List A)
      → any_where (λ y. bytes_eq (key y) k) xs ≡ false
      → All (λ x. key x ≡ k → done x ≡ true) xs
  Absent k done [] h = tt
  Absent k done (x ∷ xs) h =
      (λ e. absurd (cc ((bytes_eq_iff (key x) k).1 e, h)), Absent k done xs (ground (arith, h)))

  -- The only row with its key.
  pub IsKeyed-Settled :
      (done : A → Bool) (x : A) (xs : List A)
      → IsKeyed xs
      → Memᴰ x xs
      → done x ≡ true
      → Settled key done (key x) xs
  IsKeyed-Settled done x [] u m d = elim m [ ]
  IsKeyed-Settled done x (y ∷ ys) u m d = elim (Memᴰ.cases_cons m) [
    | inl e ↦ record {
      present = rw e (ground (arith, (bytes_eq_iff (key y) (key y)).1 refl));
      settled = (λ _. rw (← e) d, Absent (key x) done ys (rw e u.0));
    }
    | inr n ↦ Settled-insert key done (key x) y ys u.0 (IsKeyed-Settled done x ys u.1 n d)
  ]

module _ {ℓ} {A : Type ℓ} where
  pub Memᴰ-update_where :
      (p : A → Bool) (f : A → A) (x : A) (xs : List A)
      → Memᴰ x xs
      → p x ≡ true
      → Memᴰ (f x) (update_where p f xs)
  Memᴰ-update_where p f x [] m h = elim m [ ]
  Memᴰ-update_where p f x (y ∷ ys) m h = elim (Memᴰ.cases_cons m) [
    | inl e ↦ rw (← e) (rw h (Memᴰ.head refl))
    | inr n ↦ Memᴰ.tail (Memᴰ-update_where p f x ys n h)
  ]

  pub find_where-none :
      (p : A → Bool) (xs : List A) → All (λ x. p x ≡ false) xs → find_where p xs ≡ none
  find_where-none p [] h = refl
  find_where-none p (x ∷ xs) h = rw h.0 (find_where-none p xs h.1)

  pub any_where-false :
      (p : A → Bool) (xs : List A) → All (λ x. p x ≡ false) xs → any_where p xs ≡ false
  any_where-false p [] h = refl
  any_where-false p (x ∷ xs) h = rw h.0 (any_where-false p xs h.1)

  pub count_where_mono-All :
      (p q : A → Bool) (xs : List A)
      → All (λ x. p x ≡ true → q x ≡ true) xs
      → count_where p xs ≤ count_where q xs
  count_where_mono-All p q [] h = omega arith
  count_where_mono-All p q (x ∷ xs) h = ground (arith, h.0, count_where_mono-All p q xs h.1)

  pub any_where-All-false :
      (p : A → Bool) (xs : List A) → any_where p xs ≡ false → All (λ x. p x ≡ false) xs
  any_where-All-false p [] h = tt
  any_where-All-false p (x ∷ xs) h =
      (ground (arith, h), any_where-All-false p xs (ground (arith, h)))

  pub count_where_pos :
      (p q : A → Bool) (xs : List A)
      → ((x : A) → p x ≡ true → q x ≡ true)
      → any_where p xs ≡ true
      → 1 ≤ count_where q xs
  count_where_pos p q [] h e = cc
  count_where_pos p q (x ∷ xs) h e = ground (arith, h x, count_where_pos p q xs h)

  pub count_where_zero :
      (p : A → Bool) (xs : List A) → ((x : A) → p x ≡ false) → count_where p xs ≡ 0
  count_where_zero p [] h = refl
  count_where_zero p (x ∷ xs) h = ground (arith, h x, count_where_zero p xs h)
