-- ===== src/BasisBee/Connector/Sections.antt =====
-- The tests of `validateConnector` on one generated section: what they accept.
use bee_ba.Common.{
  ℕ, ◌+◌, ◌-◌, ◌^◌, ◌≤◌, ◌<◌, ◌≡◌, ◌↔◌, refl, true, false, List, [], ◌∷◌, ok, arith, length, All,
  >>-eq-ok, >>-iff,
}
use bee_ba.Common.Int.{ℤ, pos, negsuc, add_int64-pos, sub_int64-pos}
use bee_ba.Common.Text.{Bytes, Tables}
use bee_ba.BasisBee.Names.{is_blank, fold_key, validate_asset_mode, allowed_platform}
use bee_ba.BasisBee.Names.Spec.{IsString, validate_string_iff}
use bee_ba.BasisBee.Connector.{validate_apis, add_declared, validate_names, validate_bundle}
use bee_ba.BasisBee.Types.{Generated, max_section_bytes, max_string_bytes, max_graphics_apis}
use bee_ba.BasisBee.Frame.{count_of}

abbrev pub IsPositive : ℤ → Type 0
IsPositive (pos n) = 0 < n
IsPositive (negsuc n) = ⊥

pub add_declared_iff :
    (d : ℕ) (e t : ℤ)
    → d ≤ max_section_bytes
    → (add_declared (pos d) e ≡ ok t)
      ↔ (IsPositive e × (d + count_of e ≤ max_section_bytes) × (t ≡ pos (d + count_of e)))
unfolding add_declared
add_declared_iff d (pos n) t h = (
  λ r. ground (arith, sub_int64-pos (2 ^ 63 - 1) n, add_int64-pos d n),
  λ r. ground (arith, sub_int64-pos (2 ^ 63 - 1) n, add_int64-pos d n),
)
add_declared_iff d (negsuc n) t h = (λ r. cc, λ r. absurd r.0)

-- The strings of a section, its platform, its mode, its password and its graphics APIs.
pub record IsSection (g : Generated) : Type 0 where
  pub end_byte : IsPositive g.end_byte
  pub hash : IsString g.asset_bundle_hash max_string_bytes true
  pub load_name : IsString g.asset_to_load_name max_string_bytes true
  pub platform_text : IsString g.platform max_string_bytes true
  pub platform_known : allowed_platform g.platform ≡ true
  pub mode_known : validate_asset_mode g.asset_mode ≡ ok tt
  pub password_given : g.is_encrypted ≡ true → is_blank g.password ≡ false
  pub password_short : length g.password ≤ max_string_bytes
  pub apis_few : length g.graphics_apis ≤ max_graphics_apis
  pub apis : All (λ api. IsString api max_string_bytes false) g.graphics_apis

validate_apis_iff :
    (apis : List Bytes)
    → (validate_apis apis ≡ ok tt) ↔ All (λ api. IsString api max_string_bytes false) apis
unfolding validate_apis
validate_apis_iff [] = (λ h. tt, λ h. refl)
validate_apis_iff (api ∷ apis) = (
  λ h.
      let p = >>-eq-ok _ _ h in
      ((validate_string_iff api max_string_bytes false).0 p.0, (validate_apis_iff apis).0 p.1),
  λ h.
      (>>-iff _ _).1
        ((validate_string_iff api max_string_bytes false).1 h.0, (validate_apis_iff apis).1 h.1),
)

abbrev pub NamesOk : Generated → Type 0
NamesOk g =
    IsString g.asset_bundle_hash max_string_bytes true
    × IsString g.asset_to_load_name max_string_bytes true
    × IsString g.platform max_string_bytes true
    × (allowed_platform g.platform ≡ true)

pub validate_names_iff : (g : Generated) → (validate_names g ≡ ok tt) ↔ NamesOk g
unfolding validate_names
validate_names_iff g = (
  λ h. ground (
    arith,
    validate_string_iff g.asset_bundle_hash max_string_bytes true,
    validate_string_iff g.asset_to_load_name max_string_bytes true,
    validate_string_iff g.platform max_string_bytes true,
  ),
  λ h. ground (
    arith,
    (validate_string_iff g.asset_bundle_hash max_string_bytes true).1 h.0,
    (validate_string_iff g.asset_to_load_name max_string_bytes true).1 h.1,
    (validate_string_iff g.platform max_string_bytes true).1 h.2,
  ),
)

abbrev pub BundleOk : Generated → Type 0
BundleOk g =
    (validate_asset_mode g.asset_mode ≡ ok tt)
    × (g.is_encrypted ≡ true → is_blank g.password ≡ false)
    × (length g.password ≤ max_string_bytes)
    × (length g.graphics_apis ≤ max_graphics_apis)
    × All (λ api. IsString api max_string_bytes false) g.graphics_apis

pub validate_bundle_iff : (g : Generated) → (validate_bundle g ≡ ok tt) ↔ BundleOk g
unfolding validate_bundle
validate_bundle_iff g = (
  λ h. (
    ground arith,
    ground arith,
    ground arith,
    ground arith,
    (validate_apis_iff g.graphics_apis).0 (ground arith),
  ),
  λ h. ground (arith, h.2, (validate_apis_iff g.graphics_apis).1 h.4),
)

pub IsSection-iff : (g : Generated) → IsSection g ↔ (IsPositive g.end_byte × NamesOk g × BundleOk g)
IsSection-iff g = (
  λ s. (
    s.end_byte,
    (s.hash, s.load_name, s.platform_text, s.platform_known),
    (s.mode_known, s.password_given, s.password_short, s.apis_few, s.apis),
  ),
  λ (e, n, b). record {
    end_byte = e;
    hash = n.0;
    load_name = n.1;
    platform_text = n.2;
    platform_known = n.3;
    mode_known = b.0;
    password_given = b.1;
    password_short = b.2;
    apis_few = b.3;
    apis = b.4;
  },
)

-- The sum of the declared sizes.
abbrev pub declared_sum : List Generated → ℕ
declared_sum [] = 0
declared_sum (g ∷ gs) = count_of g.end_byte + declared_sum gs

abbrev pub platform_keys : Tables → List Generated → List Bytes
platform_keys u [] = []
platform_keys u (g ∷ gs) = fold_key u g.platform ∷ platform_keys u gs
