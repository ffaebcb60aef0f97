-- ===== src/Catalogue/Slug.antt =====
-- domain/servers/server.go: `Slug`.
use mathlib.Core.List.{reverse}
use bee_ba.Common.{
  ℕ, Bool, true, false, ◌&&◌, ◌||◌, not, List, [], ◌∷◌, ◌++◌, ltb, ◌==◌, if◌then◌else◌, within,
  length,
}
use bee_ba.Common.Text.{Bytes, Tables, encode_rune, runes, to_lower, trim_space, utf8}
use bee_ba.Servers.Endpoint.{is_empty}

-- unicode.IsLetter(r) || unicode.IsDigit(r)
abbrev pub is_letter_or_digit : Tables → ℕ → Bool
is_letter_or_digit u r =
    if ltb r 128
    then within b'a' b'z' r || within b'A' b'Z' r || within b'0' b'9' r
    else u.letter r || u.digit r

-- The builder, and `lastHyphen`.
abbrev pub Slugging : Type 0
Slugging = Bytes × Bool

abbrev pub slug_step : Tables → ℕ → Slugging → Slugging
slug_step u r (built, last_hyphen) =
    if is_letter_or_digit u r
    then (built ++ encode_rune r, false)
    else if not last_hyphen && ltb 0 (length built)
    then (built ++ b'-' ∷ [], true)
    else (built, last_hyphen)

unfoldable pub slug_loop : Tables → List ℕ → Slugging → Slugging
slug_loop u [] s = s
slug_loop u (r ∷ rs) s = slug_loop u rs (slug_step u r s)

unfoldable pub drop_hyphens : Bytes → Bytes
drop_hyphens [] = []
drop_hyphens (x ∷ xs) = let rest = drop_hyphens xs in if x == b'-' then rest else x ∷ xs

-- strings.Trim(..., "-")
abbrev pub trim_hyphens : Bytes → Bytes
trim_hyphens s = reverse (drop_hyphens (reverse (drop_hyphens s)))

abbrev or_default : Bytes → Bytes
or_default s = if is_empty s then utf8 "basis-server" else s

unfoldable pub make_slug : Tables → Bytes → Bytes
unfolding slug_loop
make_slug u value =
    let (built, _) = slug_loop u (runes (to_lower u (trim_space value))) ([], false) in
    or_default (trim_hyphens built)
