-- ===== src/Servers/Endpoint/Pieces.antt =====
-- The pieces of a connection string: ports in decimal, and cuts at a separator.
use mathlib.Core.List.{append_assoc, append-nil}
use native.Mathlib.Nat.{pow-suc}
use bee_ba.Common.{
  ℕ, zero, suc, ◌+◌, ◌*◌, ◌/◌, ◌%◌, ◌^◌, ◌≤◌, ◌<◌, ◌≡◌, ◌≢◌, ◌⊎◌, refl, ap, sym, ◌∙◌, false, [],
  ◌∷◌, ◌++◌, none, some, arith, All, ltb, ltb→lt, Bool-cases, inl, inr,
}
use bee_ba.Common.Text.{Bytes}
use bee_ba.Servers.Endpoint.{
  cut_first, cut_last, contains_byte, decimal_from, decimal, digits_value, parse_uint16,
}

pub cut_first-absent :
    (b : ℕ) (l r : Bytes) → contains_byte b l ≡ false → cut_first b (l ++ b ∷ r) ≡ some (l, r)
unfolding cut_first contains_byte
cut_first-absent b [] r h = ground arith
cut_first-absent b (x ∷ l) r h = ground (arith, cut_first-absent b l r)

pub cut_first-none : (b : ℕ) (l : Bytes) → contains_byte b l ≡ false → cut_first b l ≡ none
unfolding cut_first contains_byte
cut_first-none b [] h = refl
cut_first-none b (x ∷ l) h = ground (arith, cut_first-none b l)

pub cut_last-none : (b : ℕ) (l : Bytes) → contains_byte b l ≡ false → cut_last b l ≡ none
unfolding cut_last contains_byte
cut_last-none b [] h = refl
cut_last-none b (x ∷ l) h = ground (arith, cut_last-none b l)

pub cut_last-absent :
    (b : ℕ) (l r : Bytes) → contains_byte b r ≡ false → cut_last b (l ++ b ∷ r) ≡ some (l, r)
unfolding cut_last
cut_last-absent b [] r h = ground (arith, cut_last-none b r h)
cut_last-absent b (x ∷ l) r h = ground (arith, cut_last-absent b l r h)

pub contains_byte-append :
    (b : ℕ) (l r : Bytes)
    → contains_byte b l ≡ false
    → contains_byte b r ≡ false
    → contains_byte b (l ++ r) ≡ false
unfolding contains_byte
contains_byte-append b [] r h k = k
contains_byte-append b (x ∷ l) r h k = ground (arith, contains_byte-append b l r)

abbrev pub IsDigits : Bytes → Type 0
IsDigits = All (λ c. (b'0' ≤ c) × (c ≤ b'9'))

pub IsDigits-append : (l r : Bytes) → IsDigits l → IsDigits r → IsDigits (l ++ r)
IsDigits-append [] r h k = k
IsDigits-append (c ∷ l) r h k = (h.0, IsDigits-append l r h.1 k)

pub IsDigits-absent :
    (b : ℕ) (l : Bytes) → (b < b'0') ⊎ (b'9' < b) → IsDigits l → contains_byte b l ≡ false
unfolding contains_byte
IsDigits-absent b [] h k = refl
IsDigits-absent b (c ∷ l) h k = ground (arith, IsDigits-absent b l h k.1)

decimal_from-IsDigits : (k n : ℕ) → IsDigits (decimal_from k n)
unfolding decimal_from
decimal_from-IsDigits zero n = tt
decimal_from-IsDigits (suc k) n = elim (Bool-cases (ltb n 10)) [
  | inl small ↦ rw small ((omega arith, omega (arith, ltb→lt n 10 small)), tt)
  | inr large ↦ rw large (
      IsDigits-append (decimal_from k (n / 10)) ((b'0' + n % 10) ∷ [])
        (decimal_from-IsDigits k (n / 10)) ((omega arith, omega arith), tt))
]

pub decimal-IsDigits : (n : ℕ) → IsDigits (decimal n)
unfolding decimal
decimal-IsDigits n = decimal_from-IsDigits 5 n

digits_value-decimal_from :
    (k n : ℕ) (rest : Bytes)
    → n < 10 ^ suc k
    → digits_value 0 (decimal_from (suc k) n ++ rest) ≡ digits_value n rest
unfolding digits_value decimal_from
digits_value-decimal_from zero n rest h = ground arith
digits_value-decimal_from (suc k) n rest h = elim (Bool-cases (ltb n 10)) [
  | inl small ↦ rw small (ground arith)
  | inr large ↦
      let bound : n < 10 ^ suc k * 10 = rw pow-suc at h in
      let last = b'0' + n % 10 in
      rw large (
        ap (digits_value 0) (append_assoc (decimal_from (suc k) (n / 10)) (last ∷ []) rest)
        ∙ digits_value-decimal_from k (n / 10) (last ∷ rest) (omega arith)
        ∙ ground arith)
]

snoc-ne-nil : (l : Bytes) (c : ℕ) → l ++ c ∷ [] ≢ []
snoc-ne-nil [] c = λ h. cc
snoc-ne-nil (x ∷ l) c = λ h. cc

decimal_from-ne-nil : (k n : ℕ) → decimal_from (suc k) n ≢ []
unfolding decimal_from
decimal_from-ne-nil k n = ground (arith, snoc-ne-nil (decimal_from k (n / 10)) (b'0' + n % 10))

pub decimal-ne-nil : (n : ℕ) → decimal n ≢ []
unfolding decimal
decimal-ne-nil n = decimal_from-ne-nil 4 n

digits_value-decimal : (n : ℕ) → n < 2 ^ 16 → digits_value 0 (decimal n) ≡ some n
unfolding digits_value decimal
digits_value-decimal n h =
    ap (digits_value 0) (sym (append-nil (decimal_from 5 n)))
    ∙ digits_value-decimal_from 4 n [] (omega arith)

parse_uint16-of :
    (s : Bytes) (n : ℕ) → s ≢ [] → digits_value 0 s ≡ some n → n < 2 ^ 16 → parse_uint16 s ≡ some n
unfolding parse_uint16
parse_uint16-of [] n ne e h = absurd (ne refl)
parse_uint16-of (c ∷ cs) n ne e h = rw (e, parse_uint16) (ground arith)

-- A port is read back from its digits.
pub parse_uint16-decimal : (n : ℕ) → n < 2 ^ 16 → parse_uint16 (decimal n) ≡ some n
parse_uint16-decimal n h =
    parse_uint16-of (decimal n) n (decimal-ne-nil n) (digits_value-decimal n h) h
