-- ===== src/Common/Text/Ascii.antt =====
-- Trimming, lowering and counting of texts that these leave as they are.
use Prim.Native.Nat.{ℕ, suc, ◌<◌}
use mathlib.Core.Path.{◌≡◌, refl, ap, ◌∙◌}
use mathlib.Core.Logic.{◌≢◌, ◌⊎◌}
use native.Mathlib.Omega.{arith}
use mathlib.Core.List.{[], ◌∷◌, ◌++◌, reverse, map, reverse-reverse}
use bee_ba.Common.Lists.{length, All, All-reverse}
use bee_ba.Common.Text.Strings.{Bytes}
use bee_ba.Common.Text.Utf8.{encode_rune, rune_len, rune_count, count_from, runes_from, rune_at}
use bee_ba.Common.Text.Space.{space_len, space_len_back, trim_by, trim_space}
use bee_ba.Common.Text.Case.{Tables, rune_lower, encode_runes, to_lower}

trim_by_id : (len : Bytes → ℕ) (s : Bytes) → len s ≡ 0 → trim_by len 0 s ≡ s
unfolding trim_by
trim_by_id len [] h = refl
trim_by_id len (x ∷ xs) h = rw (h, trim_by)

-- A text with no space at either end is left as it is.
pub trim_space_id :
    (s : Bytes) → space_len s ≡ 0 → space_len_back (reverse s) ≡ 0 → trim_space s ≡ s
unfolding trim_space
trim_space_id s h k =
    ap (λ t. reverse (trim_by space_len_back 0 (reverse t))) (trim_by_id space_len s h)
    ∙ ap reverse (trim_by_id space_len_back (reverse s) k)
    ∙ reverse-reverse s

-- A printable ASCII character other than the space.
abbrev pub IsGraphic : ℕ → Type 0
IsGraphic c = (32 < c) × (c < 127)

pub space_len-graphic : (c : ℕ) (cs : Bytes) → IsGraphic c → space_len (c ∷ cs) ≡ 0
unfolding space_len
space_len-graphic c [] h = ground arith
space_len-graphic c (d ∷ []) h = ground arith
space_len-graphic c (d ∷ e ∷ cs) h = ground arith

pub space_len_back-graphic : (c : ℕ) (cs : Bytes) → IsGraphic c → space_len_back (c ∷ cs) ≡ 0
unfolding space_len_back
space_len_back-graphic c [] h = ground arith
space_len_back-graphic c (d ∷ []) h = ground arith
space_len_back-graphic c (d ∷ e ∷ cs) h = ground arith

-- What precedes an ASCII character that is no space does not change the end of a text.
pub space_len_back-append :
    (q : Bytes) (c : ℕ) (r : Bytes)
    → IsGraphic c
    → q ≢ []
    → space_len_back q ≡ 0
    → space_len_back (q ++ c ∷ r) ≡ 0
unfolding space_len_back
space_len_back-append [] c r g ne h = absurd (ne refl)
space_len_back-append (x ∷ []) c [] g ne h = ground arith
space_len_back-append (x ∷ []) c (y ∷ r) g ne h = ground arith
space_len_back-append (x ∷ y ∷ []) c r g ne h = ground arith
space_len_back-append (x ∷ y ∷ z ∷ q) c r g ne h = h

-- ASCII with no capital letter.
abbrev pub IsLow : ℕ → Type 0
IsLow c = (c < 128) × ((c < 65) ⊎ (90 < c))

rune_len-ascii : (c : ℕ) (cs : Bytes) → c < 128 → rune_len (c ∷ cs) ≡ 1
unfolding rune_len
rune_len-ascii c [] h = ground arith
rune_len-ascii c (d ∷ []) h = ground arith
rune_len-ascii c (d ∷ e ∷ []) h = ground arith
rune_len-ascii c (d ∷ e ∷ f ∷ cs) h = ground arith

rune_at-ascii : (c : ℕ) (cs : Bytes) → rune_at 1 (c ∷ cs) ≡ c
unfolding rune_at
rune_at-ascii c cs = refl

rune_lower_id : (u : Tables) (c : ℕ) → IsLow c → encode_rune (rune_lower u c) ≡ c ∷ []
unfolding rune_lower
rune_lower_id u c h = ground arith

lower_runes :
    (u : Tables) (s : Bytes) → All IsLow s → encode_runes (map (rune_lower u) (runes_from 0 s)) ≡ s
unfolding runes_from encode_runes
lower_runes u [] h = refl
lower_runes u (c ∷ cs) h =
    rw (rune_len-ascii c cs h.0.0, runes_from, rune_at-ascii c cs, rune_lower_id u c h.0)
      (ap (◌∷◌ c) (lower_runes u cs h.1))

pub to_lower_id : (u : Tables) (s : Bytes) → All IsLow s → to_lower u s ≡ s
unfolding to_lower
to_lower_id u s h = lower_runes u s h

count_from-length : (s : Bytes) → All IsLow s → count_from 0 s ≡ length s
unfolding count_from
count_from-length [] h = refl
count_from-length (c ∷ cs) h =
    rw (rune_len-ascii c cs h.0.0, count_from) (ap suc (count_from-length cs h.1))

pub rune_count-length : (s : Bytes) → All IsLow s → rune_count s ≡ length s
unfolding rune_count
rune_count-length s h = count_from-length s h

space_len_back-All : (s : Bytes) → All IsGraphic s → space_len_back s ≡ 0
unfolding space_len_back
space_len_back-All [] h = refl
space_len_back-All (c ∷ cs) h = space_len_back-graphic c cs h.0

pub space_len-All : (s r : Bytes) → All IsGraphic s → s ≢ [] → space_len (s ++ r) ≡ 0
space_len-All [] r h ne = absurd (ne refl)
space_len-All (c ∷ cs) r h ne = space_len-graphic c (cs ++ r) h.0

pub trim_space-graphic : (s : Bytes) → All IsGraphic s → trim_space s ≡ s
unfolding space_len space_len_back
trim_space-graphic [] h = trim_space_id [] refl refl
trim_space-graphic (c ∷ cs) h =
    trim_space_id (c ∷ cs) (space_len-graphic c cs h.0)
      (space_len_back-All (reverse (c ∷ cs)) (All-reverse IsGraphic (c ∷ cs) h))
