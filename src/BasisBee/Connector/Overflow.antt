-- ===== src/BasisBee/Connector/Overflow.antt =====
-- The overflow test of `validateConnector` never fires: the sizes before it are too small.
use bee_ba.Common.{
  ℕ, ◌+◌, ◌-◌, ◌^◌, ◌≤◌, ◌≢◌, Bool, true, false, List, [], ◌∷◌, err, arith, Result-cases, inl, inr,
}
use bee_ba.Common.Int.{ℤ, pos, negsuc, add_int64-pos, sub_int64-pos}
use bee_ba.Common.Text.{Bytes, Tables}
use bee_ba.BasisBee.Names.{fold_key, validate_string, validate_asset_mode}
use bee_ba.BasisBee.Connector.{
  validate_apis, add_declared, validate_names, validate_bundle, sections_loop,
}
use bee_ba.BasisBee.Types.{Generated, max_section_bytes, max_string_bytes, sections_overflow}
use bee_ba.BasisBee.Frame.{count_of}
use bee_ba.BasisBee.Connector.Sections.{add_declared_iff}

add_declared-ne-overflow :
    (d : ℕ) (e : ℤ) → d ≤ max_section_bytes → add_declared (pos d) e ≢ err sections_overflow
unfolding add_declared
add_declared-ne-overflow d (pos n) h =
    ground (arith, sub_int64-pos (2 ^ 63 - 1) n, add_int64-pos d n)
add_declared-ne-overflow d (negsuc n) h = λ r. cc

pub validate_string-ne :
    (v : Bytes) (m : ℕ) (r : Bool) → validate_string v m r ≢ err sections_overflow
unfolding validate_string
validate_string-ne v m r = ground arith

validate_apis-ne : (apis : List Bytes) → validate_apis apis ≢ err sections_overflow
unfolding validate_apis
validate_apis-ne [] = λ h. cc
validate_apis-ne (api ∷ apis) =
    ground (arith, validate_string-ne api max_string_bytes false, validate_apis-ne apis)

validate_names-ne : (g : Generated) → validate_names g ≢ err sections_overflow
unfolding validate_names
validate_names-ne g = ground (
  arith,
  validate_string-ne g.asset_bundle_hash max_string_bytes true,
  validate_string-ne g.asset_to_load_name max_string_bytes true,
  validate_string-ne g.platform max_string_bytes true,
)

validate_asset_mode-ne : (m : Bytes) → validate_asset_mode m ≢ err sections_overflow
unfolding validate_asset_mode
validate_asset_mode-ne m = ground arith

validate_bundle-ne : (g : Generated) → validate_bundle g ≢ err sections_overflow
unfolding validate_bundle
validate_bundle-ne g =
    ground (arith, validate_asset_mode-ne g.asset_mode, validate_apis-ne g.graphics_apis)

module _ (u : Tables) where
  pub sections_loop-ne :
      (gs : List Generated) (seen : List Bytes) (d : ℕ)
      → d ≤ max_section_bytes
      → sections_loop u seen (pos d) gs ≢ err sections_overflow
  unfolding sections_loop
  sections_loop-ne [] seen d h = λ e. cc
  sections_loop-ne (g ∷ gs) seen d h = elim (Result-cases (add_declared (pos d) g.end_byte)) [
    | inl (e, failed) ↦ ground (arith, failed, add_declared-ne-overflow d g.end_byte h)
    | inr (total, added) ↦
        let (positive, small, sum) = (add_declared_iff d g.end_byte total h).0 added in
        rw (added, sum)
          (ground (
            arith,
            validate_names-ne g,
            validate_bundle-ne g,
            sections_loop-ne gs (fold_key u g.platform ∷ seen) (d + count_of g.end_byte) small,
          ))
  ]
