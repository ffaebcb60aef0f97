-- ===== src/BasisBee/Pkcs7/RoundTrip.antt =====
-- `pkcs7Unpad` undoes the padding of an encoder, and accepts nothing else.
use native.Mathlib.Nat.{mod-add-mod, mod-lt, mod-eq_of_lt, mod-eq-sub-mod}
use native.Mathlib.Decide.{dec_lt}
use bee_ba.Common.{
  ℕ, zero, suc, ◌+◌, ◌-◌, ◌%◌, ◌≤◌, ◌<◌, ◌≡◌, ◌≢◌, refl, ap, sym, ◌∙◌, [], ◌∷◌, ◌++◌, ok, arith,
  inl, inr, length, take, drop, replicate, last_or, length-append, length-replicate,
  take-length-append, drop-length-append, take-append-drop, length-drop, length-take,
  last_or-append, Bool-cases, ◌==◌, ◌↔◌,
}
use bee_ba.Common.Text.{Bytes}
use bee_ba.BasisBee.Pkcs7.{scan_padding, pkcs7_unpad, pkcs7_pad}

scan_padding-one : (p : ℕ) (xs : Bytes) → scan_padding p 1 xs ≡ 1
unfolding scan_padding
scan_padding-one p [] = refl
scan_padding-one p (x ∷ xs) = elim (Bool-cases (x == p)) [
  | inl e ↦ rw e (scan_padding-one p xs)
  | inr e ↦ rw e (scan_padding-one p xs)
]

-- The scan reports nothing exactly for a run of the padding byte.
scan_padding-zero :
    (p : ℕ) (xs : Bytes) → (scan_padding p 0 xs ≡ 0) ↔ (xs ≡ replicate (length xs) p)
unfolding scan_padding
scan_padding-zero p [] = (λ h. refl, λ h. refl)
scan_padding-zero p (x ∷ xs) = elim (Bool-cases (x == p)) [
  | inl e ↦ rw e (ground (arith, scan_padding-zero p xs))
  | inr e ↦ rw e (ground (arith, scan_padding-one p xs))
]

last_or-append-replicate : (d p n : ℕ) (xs : Bytes) → last_or d (xs ++ replicate (suc n) p) ≡ p
last_or-append-replicate d p zero xs = last_or-append d p xs
last_or-append-replicate d p (suc n) [] = last_or-append-replicate p p n []
last_or-append-replicate d p (suc n) (x ∷ xs) = last_or-append-replicate x p (suc n) xs

mod-pad : (n s : ℕ) → 0 < s → (n + (s - n % s)) % s ≡ 0
mod-pad n s h = grind arith

unpad_run :
    (buf rest pad : Bytes) (s p : ℕ)
    → length buf ≢ 0
    → length buf % s ≡ 0
    → last_or 0 buf ≡ p
    → 0 < p
    → p ≤ s
    → p ≤ length buf
    → drop (length buf - p) buf ≡ pad
    → scan_padding p 0 pad ≡ 0
    → take (length buf - p) buf ≡ rest
    → pkcs7_unpad buf s ≡ ok rest
unfolding pkcs7_unpad
unpad_run buf rest pad s p a b c d e f g h i = ground arith

unpad_append :
    (d : Bytes) (k s : ℕ)
    → suc k ≤ s
    → (length d + suc k) % s ≡ 0
    → pkcs7_unpad (d ++ replicate (suc k) (suc k)) s ≡ ok d
unpad_append d k s h m =
    let pad = replicate (suc k) (suc k) in
    let len : length (d ++ pad) ≡ length d + suc k =
      length-append d pad ∙ ap (λ n. length d + n) (length-replicate (suc k) (suc k)) in
    let cut : length (d ++ pad) - suc k ≡ length d = omega (arith, len) in
    unpad_run (d ++ pad) d pad s (suc k) (omega (arith, len)) (rw len m)
      (last_or-append-replicate 0 (suc k) k d) (omega arith) h (omega (arith, len))
      (rw cut (drop-length-append d pad))
      ((scan_padding-zero (suc k) pad).1 (rw (length-replicate k (suc k))))
      (rw cut (take-length-append d pad))

unpad-pad : (d : Bytes) (s : ℕ) → 0 < s → pkcs7_unpad (pkcs7_pad d s) s ≡ ok d
unfolding pkcs7_pad
unpad-pad d s h =
    let p : ℕ = s - length d % s in
    let k : ℕ = p - 1 in
    let e : p ≡ suc k = grind arith in
    rw e (unpad_append d k s (grind arith) (rw (← e) (mod-pad (length d) s h)))

record Unpadded (buf rest : Bytes) (s : ℕ) : Type 0 where
  padding : ℕ
  aligned : length buf % s ≡ 0
  positive : 0 < padding
  within_block : padding ≤ s
  within_buf : padding ≤ length buf
  all_padding : scan_padding padding 0 (drop (length buf - padding) buf) ≡ 0
  rest_is : rest ≡ take (length buf - padding) buf

unpad-Unpadded : (buf rest : Bytes) (s : ℕ) → pkcs7_unpad buf s ≡ ok rest → Unpadded buf rest s
unfolding pkcs7_unpad
unpad-Unpadded buf rest s h = record {
  padding = last_or 0 buf;
  aligned = ground arith;
  positive = ground arith;
  within_block = ground arith;
  within_buf = ground arith;
  all_padding = ground arith;
  rest_is = ground arith;
}

add-eq_of_mod-zero : (r p s : ℕ) → r < s → 0 < p → p ≤ s → (r + p) % s ≡ 0 → r + p ≡ s
add-eq_of_mod-zero r p s a b c m = elim (dec_lt (r + p) s) [
  | yes small ↦ absurd (omega (arith, sym (mod-eq_of_lt small) ∙ m))
  | no big ↦
      let less : r + p - s < s = omega arith in
      omega (arith, sym (mod-eq_of_lt less) ∙ sym (mod-eq-sub-mod (omega arith)) ∙ m)
]

pad-count : (n p s : ℕ) → 0 < p → p ≤ s → p ≤ n → n % s ≡ 0 → s - (n - p) % s ≡ p
pad-count n p s a b c m =
    let back : n - p + p ≡ n = omega arith in
    let wrapped : ((n - p) % s + p) % s ≡ 0 = mod-add-mod (n - p) s p ∙ rw back m in
    let below : (n - p) % s < s = mod-lt (n - p) (omega arith) in
    omega (arith, add-eq_of_mod-zero ((n - p) % s) p s below a b wrapped)

Unpadded-pad : {buf rest : Bytes} {s : ℕ} → Unpadded buf rest s → buf ≡ pkcs7_pad rest s
unfolding pkcs7_pad
Unpadded-pad {buf} {rest} {s} u =
    let p = u.padding in
    let len : length rest ≡ length buf - p =
      rw (u.rest_is, length-take (length buf - p) buf) (omega arith) in
    let pad_len : length (drop (length buf - p) buf) ≡ p =
      length-drop (length buf - p) buf ∙ omega (arith, u.within_buf) in
    let count : s - length rest % s ≡ p =
      rw len (pad-count (length buf) p s u.positive u.within_block u.within_buf u.aligned) in
    let run : drop (length buf - p) buf ≡ replicate p p =
      rw pad_len at ((scan_padding-zero p (drop (length buf - p) buf)).0 u.all_padding) in
    rw (count, u.rest_is, ← run) (sym (take-append-drop (length buf - p) buf))

-- For a positive block size `pkcs7Unpad` returns `rest` exactly for the input that is `rest` with
-- PKCS #7 padding: it undoes the padding, and refuses every input that no encoder produces.
pub pkcs7_unpad_iff :
    (buf rest : Bytes) (s : ℕ) → 0 < s → (pkcs7_unpad buf s ≡ ok rest) ↔ (buf ≡ pkcs7_pad rest s)
pkcs7_unpad_iff buf rest s h =
    (λ e. Unpadded-pad (unpad-Unpadded buf rest s e), λ e. rw e (unpad-pad rest s h))
