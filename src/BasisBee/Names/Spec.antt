-- ===== src/BasisBee/Names/Spec.antt =====
-- What `validateString`, `validateTags`, `validateAssetMode` and `allowedPlatform` accept.
use bee_ba.Common.{
  ℕ, ◌≤◌, ◌≡◌, ◌≢◌, ◌↔◌, refl, sym, inl, inr, Bool, true, false, List, [], ◌∷◌, ok, err, arith,
  length, All, Bool-cases, >>-eq-ok, >>-iff, if◌then◌else◌,
}
use bee_ba.Common.Text.{Bytes, Tables, contains-NotIn, valid_utf8, NotIn, Distinct}
use bee_ba.BasisBee.Names.{is_blank, validate_string, fold_key, tags_loop, validate_tags}
use bee_ba.BasisBee.Types.{max_tags, max_tag_bytes, sections_overflow}

-- Not blank if it is required, well-formed UTF-8, and at most `max` bytes long.
pub record IsString (value : Bytes) (max : ℕ) (required : Bool) : Type 0 where
  pub present : required ≡ true → is_blank value ≡ false
  pub encoded : valid_utf8 value ≡ true
  pub short : length value ≤ max

valid_utf8-nil : valid_utf8 [] ≡ true
unfolding valid_utf8
valid_utf8-nil = refl

-- `validateString` accepts a text exactly when it is UTF-8, has at most the maximum of bytes and, if it
-- is required, is not blank.
pub validate_string_iff :
    (value : Bytes) (max : ℕ) (required : Bool)
    → (validate_string value max required ≡ ok tt) ↔ IsString value max required
unfolding validate_string
validate_string_iff [] max required = (
  λ h. record { present = ground arith; encoded = valid_utf8-nil; short = ground arith },
  λ v. ground (arith, v.present, valid_utf8-nil),
)
validate_string_iff (b ∷ bs) max required = (
  λ h. record { present = ground arith; encoded = ground arith; short = ground arith },
  λ v. ground (arith, v.present),
)

-- The keys of the tags that are not blank, in order.
abbrev pub tag_keys : Tables → List Bytes → List Bytes
tag_keys u [] = []
tag_keys u (tag ∷ tags) = if is_blank tag then tag_keys u tags else fold_key u tag ∷ tag_keys u tags

-- All keys differ from those seen before.
abbrev pub Apart : List Bytes → List Bytes → Type 0
Apart seen [] = Unit {0}
Apart seen (k ∷ ks) = NotIn seen k × Apart seen ks

pub Apart-cons :
    (k : Bytes) (seen ks : List Bytes) → Apart (k ∷ seen) ks ↔ (NotIn ks k × Apart seen ks)
Apart-cons k seen [] = (λ h. (tt, tt), λ h. tt)
Apart-cons k seen (j ∷ ks) = (
  λ h. let r = (Apart-cons k seen ks).0 h.1 in ((λ e. h.0.0 (sym e), r.0), (h.0.1, r.1)),
  λ h. (((λ e. h.0.0 (sym e)), h.1.0), (Apart-cons k seen ks).1 (h.0.1, h.1.1)),
)

pub Apart-nil : (ks : List Bytes) → Apart [] ks
Apart-nil [] = tt
Apart-nil (k ∷ ks) = (tt, Apart-nil ks)

-- The tags that `validateTags` accepts: at most 64 strings of at most 64 bytes, and no two that
-- agree once trimmed and in lower case, blank ones aside.
pub record IsTags (u : Tables) (tags : List Bytes) : Type 0 where
  pub few : length tags ≤ max_tags
  pub strings : All (λ tag. IsString tag max_tag_bytes false) tags
  pub distinct : Distinct (tag_keys u tags)

loop-ne : (u : Tables) (seen tags : List Bytes) → tags_loop u seen tags ≢ err sections_overflow
unfolding tags_loop validate_string
loop-ne u seen [] = λ h. cc
loop-ne u seen (tag ∷ tags) =
    ground (arith, loop-ne u seen tags, loop-ne u (fold_key u tag ∷ seen) tags)

module _ (u : Tables) where
  tags_loop_iff :
      (seen tags : List Bytes)
      → (tags_loop u seen tags ≡ ok tt) ↔ (
          All (λ tag. IsString tag max_tag_bytes false) tags
          × Distinct (tag_keys u tags)
          × Apart seen (tag_keys u tags))
  unfolding tags_loop
  tags_loop_iff seen [] = (λ h. (tt, tt, tt), λ h. refl)
  tags_loop_iff seen (tag ∷ tags) = elim (Bool-cases (is_blank tag)) [
    | inl blank ↦ rw blank (
      λ h.
          let p = >>-eq-ok _ _ h in
          let r = (tags_loop_iff seen tags).0 p.1 in
          (((validate_string_iff tag max_tag_bytes false).0 p.0, r.0), r.1, r.2),
      λ (strings, distinct, apart). (>>-iff _ _).1 (
        (validate_string_iff tag max_tag_bytes false).1 strings.0,
        (tags_loop_iff seen tags).1 (strings.1, distinct, apart),
      ),
    )
    | inr filled ↦ rw filled (
      λ h.
          let p = >>-eq-ok _ _ h in
          let r = (tags_loop_iff (fold_key u tag ∷ seen) tags).0 (ground (arith, p.1)) in
          let split = (Apart-cons (fold_key u tag) seen (tag_keys u tags)).0 r.2 in
          let new = (contains-NotIn (fold_key u tag) seen).0 (ground (arith, p.1)) in
          (
            ((validate_string_iff tag max_tag_bytes false).0 p.0, r.0),
            (split.0, r.1),
            (new, split.1),
          ),
      λ (strings, distinct, apart). (>>-iff _ _).1 (
        (validate_string_iff tag max_tag_bytes false).1 strings.0,
        rw ((contains-NotIn (fold_key u tag) seen).1 apart.0) (
            (tags_loop_iff (fold_key u tag ∷ seen) tags).1 (
              strings.1,
              distinct.1,
              (Apart-cons (fold_key u tag) seen (tag_keys u tags)).1 (distinct.0, apart.1),
            )),
      ),
    )
  ]

  -- `validateTags` accepts a list of tags exactly when it has at most 64 tags, each tag is UTF-8 of at
  -- most 64 bytes, and no two tags that are not blank agree once trimmed and in lower case.
  pub validate_tags_iff : (tags : List Bytes) → (validate_tags u tags ≡ ok tt) ↔ IsTags u tags
  unfolding validate_tags
  validate_tags_iff tags = (
    λ h. record {
      few = ground arith;
      strings = ((tags_loop_iff [] tags).0 (ground arith)).0;
      distinct = ((tags_loop_iff [] tags).0 (ground arith)).1;
    },
    λ t. ground (arith, (tags_loop_iff [] tags).1 (t.strings, t.distinct, Apart-nil _)),
  )

-- Tags fail for their own reasons only.
pub validate_tags-ne :
    (u : Tables) (tags : List Bytes) → validate_tags u tags ≢ err sections_overflow
unfolding validate_tags
validate_tags-ne u tags = ground (arith, loop-ne u [] tags)
