-- ===== src/Common/Text/Utf8.antt =====
-- unicode/utf8: encoding, decoding, validity and counting, on bytes.
use Prim.Native.Char.{code}
use Prim.Native.String.{String}
use Prim.Native.Nat.{ℕ, zero, suc, ◌+◌, ◌*◌, ◌/◌, ◌%◌}
use mathlib.Core.Bool.{Bool, true, false, ◌&&◌}
use mathlib.Core.List.{List, [], ◌∷◌, ◌++◌}
use bee_ba.Common.Tests.{ltb, ◌==◌, if◌then◌else◌, within}
use bee_ba.Common.Text.Strings.{Bytes}

-- utf8.AppendRune of one scalar value.
abbrev pub encode_rune : ℕ → Bytes
encode_rune c =
    if ltb c 0x80
    then c ∷ []
    else if ltb c 0x800
    then (0xC0 + c / 64) ∷ (0x80 + c % 64) ∷ []
    else if ltb c 0x10000
    then (0xE0 + c / 4096) ∷ (0x80 + c / 64 % 64) ∷ (0x80 + c % 64) ∷ []
    else (0xF0 + c / 262144) ∷ (0x80 + c / 4096 % 64) ∷ (0x80 + c / 64 % 64) ∷ (0x80 + c % 64) ∷ []

-- A string literal of the source.
abbrev pub utf8 : String → Bytes
utf8 String.[] = []
utf8 (String.◌∷◌ c s) = encode_rune (code c) ++ utf8 s

abbrev tail_byte : ℕ → Bool
tail_byte = within 0x80 0xBF

-- The accepted range of the second byte after the first byte `a` (Go's acceptRanges).
second_ok : ℕ → ℕ → Bool
second_ok a b =
    if a == 0xE0
    then within 0xA0 0xBF b
    else if a == 0xED
    then within 0x80 0x9F b
    else if a == 0xF0
    then within 0x90 0xBF b
    else if a == 0xF4
    then within 0x80 0x8F b
    else tail_byte b

-- utf8.DecodeRune at the front: the length of a well-formed rune, or 0.
unfoldable pub rune_len : Bytes → ℕ
unfolding second_ok
rune_len [] = 0
rune_len (a ∷ []) = if ltb a 0x80 then 1 else 0
rune_len (a ∷ b ∷ []) = if ltb a 0x80 then 1 else if within 0xC2 0xDF a && tail_byte b then 2 else 0
rune_len (a ∷ b ∷ c ∷ []) =
    if ltb a 0x80
    then 1
    else if within 0xC2 0xDF a && tail_byte b
    then 2
    else if within 0xE0 0xEF a && second_ok a b && tail_byte c
    then 3
    else 0
rune_len (a ∷ b ∷ c ∷ d ∷ _) =
    if ltb a 0x80
    then 1
    else if within 0xC2 0xDF a && tail_byte b
    then 2
    else if within 0xE0 0xEF a && second_ok a b && tail_byte c
    then 3
    else if within 0xF0 0xF4 a && second_ok a b && tail_byte c && tail_byte d
    then 4
    else 0

-- utf8.Valid; the number counts the bytes still owed to the rune that was read last.
unfoldable pub valid_from : ℕ → Bytes → Bool
unfolding rune_len
valid_from k [] = true
valid_from (suc k) (x ∷ xs) = valid_from k xs
valid_from zero (x ∷ xs) = elim (rune_len (x ∷ xs)) [ zero ↦ false | suc k ↦ valid_from k xs ]

unfoldable pub valid_utf8 : Bytes → Bool
unfolding valid_from
valid_utf8 = valid_from zero

-- utf8.RuneCount: a byte that starts no well-formed rune counts as one.
unfoldable pub count_from : ℕ → Bytes → ℕ
unfolding rune_len
count_from k [] = 0
count_from (suc k) (x ∷ xs) = count_from k xs
count_from zero (x ∷ xs) =
    suc (elim (rune_len (x ∷ xs)) [ zero ↦ count_from zero xs | suc k ↦ count_from k xs ])

unfoldable pub rune_count : Bytes → ℕ
unfolding count_from
rune_count = count_from zero

-- The scalar value of the well-formed rune of that length at the front.
unfoldable pub rune_at : ℕ → Bytes → ℕ
rune_at (suc zero) (a ∷ _) = a
rune_at (suc (suc zero)) (a ∷ b ∷ _) = (a % 32) * 64 + b % 64
rune_at (suc (suc (suc zero))) (a ∷ b ∷ c ∷ _) = (a % 16) * 4096 + (b % 64) * 64 + c % 64
rune_at (suc (suc (suc (suc zero)))) (a ∷ b ∷ c ∷ d ∷ _) =
    (a % 8) * 262144 + (b % 64) * 4096 + (c % 64) * 64 + d % 64
rune_at _ _ = 0xFFFD

unfoldable pub runes_from : ℕ → Bytes → List ℕ
unfolding rune_len rune_at
runes_from k [] = []
runes_from (suc k) (x ∷ xs) = runes_from k xs
runes_from zero (x ∷ xs) = elim (rune_len (x ∷ xs)) [
  | zero ↦ 0xFFFD ∷ runes_from zero xs
  | suc k ↦ rune_at (suc k) (x ∷ xs) ∷ runes_from k xs
]

-- The runes that `for _, r := range s` visits: U+FFFD for a byte that starts no rune.
unfoldable pub runes : Bytes → List ℕ
unfolding runes_from
runes = runes_from zero
