-- ===== src/Common/Int.antt =====
-- Go's int64: an integer, with two's complement wrap-around written out on the 64-bit pattern.
use Prim.Native.Nat.{ℕ, ◌+◌, ◌-◌, ◌%◌, ◌^◌, ◌≤◌, ◌<◌}
use mathlib.Core.Path.{◌≡◌}
use mathlib.Core.Bool.{Bool, true, false}
use native.Mathlib.Omega.{arith}
use bee_ba.Common.Tests.{ltb, leb, if◌then◌else◌}

-- `negsuc n` is -(n + 1).
pub data ℤ : Type 0 where
  pos : ℕ → ℤ
  negsuc : ℕ → ℤ

abbrev pub int64_mod : ℕ
int64_mod = 2 ^ 64

abbrev pub max_int64 : ℕ
max_int64 = 2 ^ 63 - 1

-- The int64 of a 64-bit pattern, and back.
unfoldable pub wrap_int64 : ℕ → ℤ
wrap_int64 n = let r = n % 2 ^ 64 in if ltb r (2 ^ 63) then pos r else negsuc (2 ^ 64 - 1 - r)

unfoldable pub bits_int64 : ℤ → ℕ
bits_int64 (pos n) = n
bits_int64 (negsuc n) = 2 ^ 64 - 1 - n

unfoldable pub add_int64 : ℤ → ℤ → ℤ
unfolding wrap_int64 bits_int64
add_int64 a b = wrap_int64 (bits_int64 a + bits_int64 b)

unfoldable pub sub_int64 : ℤ → ℤ → ℤ
unfolding wrap_int64 bits_int64
sub_int64 a b = wrap_int64 (bits_int64 a + (2 ^ 64 - bits_int64 b))

-- a <= b and a < b
abbrev pub leb_int : ℤ → ℤ → Bool
leb_int (pos a) (pos b) = leb a b
leb_int (pos a) (negsuc b) = false
leb_int (negsuc a) (pos b) = true
leb_int (negsuc a) (negsuc b) = leb b a

abbrev pub ltb_int : ℤ → ℤ → Bool
ltb_int (pos a) (pos b) = ltb a b
ltb_int (pos a) (negsuc b) = false
ltb_int (negsuc a) (pos b) = true
ltb_int (negsuc a) (negsuc b) = ltb b a

pub wrap_int64-small : (n : ℕ) → n < 2 ^ 63 → wrap_int64 n ≡ pos n
unfolding wrap_int64
wrap_int64-small n h = ground arith

pub wrap_int64-eq-pos : (n m : ℕ) → n < 2 ^ 64 → wrap_int64 n ≡ pos m → n ≡ m
unfolding wrap_int64
wrap_int64-eq-pos n m h e = ground arith

pub add_int64-pos : (a b : ℕ) → a + b < 2 ^ 63 → add_int64 (pos a) (pos b) ≡ pos (a + b)
unfolding add_int64
add_int64-pos a b h = ground arith

pub sub_int64-pos : (a b : ℕ) → b ≤ a → a < 2 ^ 63 → sub_int64 (pos a) (pos b) ≡ pos (a - b)
unfolding sub_int64
sub_int64-pos a b h k = ground arith
