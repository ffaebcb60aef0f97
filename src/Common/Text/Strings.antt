-- ===== src/Common/Text/Strings.antt =====
-- Go strings as bytes: comparison, and sets of strings.
use Prim.Native.Nat.{ℕ}
use mathlib.Core.Path.{◌≡◌, refl}
use mathlib.Core.Logic.{◌↔◌, ◌≢◌}
use native.Mathlib.Omega.{arith}
use mathlib.Core.Bool.{Bool, true, false, ◌&&◌, ◌||◌}
use mathlib.Core.List.{List, [], ◌∷◌}
use bee_ba.Common.Tests.{◌==◌}

abbrev pub Bytes : Type 0
Bytes = List ℕ

unfoldable pub bytes_eq : Bytes → Bytes → Bool
bytes_eq [] [] = true
bytes_eq (x ∷ xs) (y ∷ ys) = x == y && bytes_eq xs ys
bytes_eq _ _ = false

pub bytes_eq_iff : (a b : Bytes) → (bytes_eq a b ≡ true) ↔ (a ≡ b)
unfolding bytes_eq
bytes_eq_iff (x ∷ a) (y ∷ b) = ground (arith, bytes_eq_iff a b)
bytes_eq_iff _ _ = ground arith

-- A set of strings, as the keys of `map[string]struct{}`.
unfoldable pub contains : Bytes → List Bytes → Bool
unfolding bytes_eq
contains k [] = false
contains k (j ∷ ks) = bytes_eq j k || contains k ks

abbrev pub NotIn : List Bytes → Bytes → Type 0
NotIn [] k = Unit {0}
NotIn (j ∷ ks) k = (j ≢ k) × NotIn ks k

-- No two strings of the list are equal.
abbrev pub Distinct : List Bytes → Type 0
Distinct [] = Unit {0}
Distinct (k ∷ ks) = NotIn ks k × Distinct ks

pub contains-NotIn : (k : Bytes) (ks : List Bytes) → (contains k ks ≡ false) ↔ NotIn ks k
unfolding contains
contains-NotIn k [] = (λ h. tt, λ h. refl)
contains-NotIn k (j ∷ ks) = (
  λ h. ground (arith, bytes_eq_iff j k, contains-NotIn k ks),
  λ h. ground (arith, bytes_eq_iff j k, contains-NotIn k ks),
)
