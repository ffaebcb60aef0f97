-- ===== src/Common/Text/Case.antt =====
-- strings.ToLower: ASCII by its rule, the rest by the Unicode tables.
use Prim.Native.Nat.{ℕ, ◌+◌}
use mathlib.Core.Bool.{Bool}
use mathlib.Core.List.{List, [], ◌∷◌, ◌++◌, map}
use bee_ba.Common.Tests.{ltb, if◌then◌else◌, within}
use bee_ba.Common.Text.Strings.{Bytes}
use bee_ba.Common.Text.Utf8.{encode_rune, runes}

-- The parts of the Unicode tables beyond ASCII that `unicode.ToLower`, `IsLetter` and `IsDigit` read.
pub record Tables : Type 0 where
  pub lower : ℕ → ℕ
  pub letter : ℕ → Bool
  pub digit : ℕ → Bool

unfoldable pub rune_lower : Tables → ℕ → ℕ
rune_lower u c = if ltb c 128 then (if within b'A' b'Z' c then c + 32 else c) else u.lower c

unfoldable pub encode_runes : List ℕ → Bytes
encode_runes [] = []
encode_runes (c ∷ cs) = encode_rune c ++ encode_runes cs

-- strings.ToLower
unfoldable pub to_lower : Tables → Bytes → Bytes
unfolding runes rune_lower encode_runes
to_lower u s = encode_runes (map (rune_lower u) (runes s))
