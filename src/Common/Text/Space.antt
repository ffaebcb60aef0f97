-- ===== src/Common/Text/Space.antt =====
-- strings.TrimSpace, by the encodings of the runes that unicode.IsSpace accepts.
use Prim.Native.Nat.{ℕ, zero, suc}
use mathlib.Core.Bool.{Bool, ◌&&◌, ◌||◌}
use mathlib.Core.List.{[], ◌∷◌, reverse}
use bee_ba.Common.Tests.{◌==◌, if◌then◌else◌, within}
use bee_ba.Common.Text.Strings.{Bytes}

-- unicode.IsSpace at the front of a string: the length of the encoded space, or 0.
space3 : ℕ → ℕ → ℕ → Bool
space3 a b c =
    (a == 0xE1 && b == 0x9A && c == 0x80)
    || (a == 0xE2 && b == 0x80 && (within 0x80 0x8A c || c == 0xA8 || c == 0xA9 || c == 0xAF))
    || (a == 0xE2 && b == 0x81 && c == 0x9F)
    || (a == 0xE3 && b == 0x80 && c == 0x80)

space1 : ℕ → Bool
space1 a = within 9 13 a || a == 32

space2 : ℕ → ℕ → Bool
space2 a b = a == 0xC2 && (b == 0x85 || b == 0xA0)

unfoldable pub space_len : Bytes → ℕ
unfolding space1 space2 space3
space_len [] = 0
space_len (a ∷ []) = if space1 a then 1 else 0
space_len (a ∷ b ∷ []) = if space1 a then 1 else if space2 a b then 2 else 0
space_len (a ∷ b ∷ c ∷ _) =
    if space1 a then 1 else if space2 a b then 2 else if space3 a b c then 3 else 0

-- The same at the end of a string that is given back to front.
unfoldable pub space_len_back : Bytes → ℕ
unfolding space1 space2 space3
space_len_back [] = 0
space_len_back (a ∷ []) = if space1 a then 1 else 0
space_len_back (a ∷ b ∷ []) = if space1 a then 1 else if space2 b a then 2 else 0
space_len_back (a ∷ b ∷ c ∷ _) =
    if space1 a then 1 else if space2 b a then 2 else if space3 c b a then 3 else 0

-- Drops runes from the front as long as `len` finds one.
unfoldable pub trim_by : (Bytes → ℕ) → ℕ → Bytes → Bytes
trim_by len k [] = []
trim_by len (suc k) (x ∷ xs) = trim_by len k xs
trim_by len zero (x ∷ xs) = elim (len (x ∷ xs)) [ zero ↦ x ∷ xs | suc k ↦ trim_by len k xs ]

-- strings.TrimSpace
unfoldable pub trim_space : Bytes → Bytes
unfolding trim_by space_len space_len_back
trim_space s = reverse (trim_by space_len_back zero (reverse (trim_by space_len zero s)))
