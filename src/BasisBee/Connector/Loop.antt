-- ===== src/BasisBee/Connector/Loop.antt =====
-- The loop of `validateConnector` over the generated sections: what it accepts and sums.
use bee_ba.Common.{
  ℕ, ◌+◌, ◌≤◌, ◌≡◌, ◌↔◌, refl, ap, sym, ◌∙◌, List, [], ◌∷◌, ok, arith, All, >>-eq-ok, >>=-eq-ok,
  fail_if-eq-ok,
}
use bee_ba.Common.Int.{ℤ, pos}
use bee_ba.Common.Text.{Bytes, Tables, contains, contains-NotIn, Distinct}
use bee_ba.BasisBee.Names.{fold_key}
use bee_ba.BasisBee.Names.Spec.{Apart, Apart-cons, Apart-nil}
use bee_ba.BasisBee.Connector.{sections_loop}
use bee_ba.BasisBee.Types.{Generated, max_section_bytes}
use bee_ba.BasisBee.Frame.{count_of}
use bee_ba.BasisBee.Connector.Sections.{
  IsSection, IsSection-iff, validate_names_iff, validate_bundle_iff, add_declared_iff, declared_sum,
  platform_keys,
}

module _ (u : Tables) where
  abbrev LoopOk : List Bytes → ℕ → List Generated → ℤ → Type 0
  LoopOk seen d gs t =
      All IsSection gs
      × Distinct (platform_keys u gs)
      × Apart seen (platform_keys u gs)
      × (d + declared_sum gs ≤ max_section_bytes)
      × (t ≡ pos (d + declared_sum gs))

  sections_loop-LoopOk :
      (gs : List Generated) (seen : List Bytes) (d : ℕ) (t : ℤ)
      → d ≤ max_section_bytes
      → sections_loop u seen (pos d) gs ≡ ok t
      → LoopOk seen d gs t
  unfolding sections_loop
  sections_loop-LoopOk [] seen d t h e = (tt, tt, tt, omega arith, ground arith)
  sections_loop-LoopOk (g ∷ gs) seen d t h e =
      let key = fold_key u g.platform in
      let (total, added, e1) = >>=-eq-ok _ _ e in
      let (names, e2) = >>-eq-ok _ _ e1 in
      let (new, e3) = >>-eq-ok _ _ e2 in
      let (bundle, e4) = >>-eq-ok _ _ e3 in
      let (positive, small, sum) = (add_declared_iff d g.end_byte total h).0 added in
      let (each, distinct, apart, bound, result) : LoopOk (key ∷ seen) (d + count_of g.end_byte) gs
          t =
        sections_loop-LoopOk gs (key ∷ seen) (d + count_of g.end_byte) t small (rw sum at e4) in
      let (fresh, before) = (Apart-cons key seen (platform_keys u gs)).0 apart in
      let unseen = (contains-NotIn key seen).0 ((fail_if-eq-ok (contains key seen) _).0 new) in
      (
        (
          (IsSection-iff g).1
              (positive, (validate_names_iff g).0 names, (validate_bundle_iff g).0 bundle),
          each,
        ),
        (fresh, distinct),
        (unseen, before),
        omega (arith, bound),
        result ∙ ap pos (omega arith),
      )

  LoopOk-sections_loop :
      (gs : List Generated) (seen : List Bytes) (d : ℕ) (t : ℤ)
      → d ≤ max_section_bytes
      → LoopOk seen d gs t
      → sections_loop u seen (pos d) gs ≡ ok t
  unfolding sections_loop
  LoopOk-sections_loop [] seen d t h l = ap ok (sym (l.4 ∙ ap pos (omega arith)))
  LoopOk-sections_loop (g ∷ gs) seen d t h (each, distinct, apart, bound, result) =
      let key = fold_key u g.platform in
      let (positive, names, bundle) = (IsSection-iff g).0 each.0 in
      let sum = pos (d + count_of g.end_byte) in
      let rest = LoopOk-sections_loop gs (key ∷ seen) (d + count_of g.end_byte) t (omega arith) (
        each.1,
        distinct.1,
        (Apart-cons key seen (platform_keys u gs)).1 (distinct.0, apart.1),
        omega arith,
        result ∙ ap pos (omega arith),
      ) in
      rw
        (
          (add_declared_iff d g.end_byte sum h).1 (positive, omega arith, refl),
          (validate_names_iff g).1 names,
          (contains-NotIn key seen).1 apart.0,
          (validate_bundle_iff g).1 bundle,
        )
        rest

  -- The sections that the loop accepts, and its result.
  pub record IsSections (gs : List Generated) : Type 0 where
    pub each : All IsSection gs
    pub distinct : Distinct (platform_keys u gs)
    pub bounded : declared_sum gs ≤ max_section_bytes

  pub sections_loop_iff :
      (gs : List Generated) (t : ℤ)
      → (sections_loop u [] (pos 0) gs ≡ ok t) ↔ (IsSections gs × (t ≡ pos (declared_sum gs)))
  sections_loop_iff gs t = (
    λ e.
        let (each, distinct, apart, bound, result) =
          sections_loop-LoopOk gs [] 0 t (omega arith) e in
        (
          record { each = each; distinct = distinct; bounded = omega (arith, bound) },
          result ∙ ap pos (omega arith),
        ),
    λ (s, e). LoopOk-sections_loop gs [] 0 t (omega arith) (
      s.each,
      s.distinct,
      Apart-nil (platform_keys u gs),
      omega (arith, s.bounded),
      e ∙ ap pos (omega arith),
    ),
  )
