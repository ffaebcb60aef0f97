-- ===== src/BasisBee/Connector/Spec.antt =====
-- What `validateConnector` accepts as a whole.
use bee_ba.Common.{
  ◌≤◌, ◌<◌, ◌≡◌, ◌≢◌, ◌↔◌, refl, sym, ◌∙◌, true, false, List, [], ◌∷◌, ok, err, arith, length, All,
  >>-eq-ok, >>=-eq-ok, fail_if, ltb, ◌==◌, not, fail_if-eq-ok,
}
use bee_ba.Common.Int.{ℤ, pos, negsuc, ltb_int}
use bee_ba.Common.Text.{Tables}
use bee_ba.BasisBee.Names.Spec.{
  IsString, IsTags, validate_string_iff, validate_tags_iff, validate_tags-ne,
}
use bee_ba.BasisBee.Connector.{
  items, eq_int, validate_components, validate_metadata, sections_loop, validate_connector,
}
use bee_ba.BasisBee.Connector.Loop.{IsSections, sections_loop_iff}
use bee_ba.BasisBee.Connector.Overflow.{validate_string-ne, sections_loop-ne}
use bee_ba.BasisBee.Connector.Sections.{declared_sum}
use bee_ba.BasisBee.Types.{
  ComponentName, Metadata, Connector, max_string_bytes, max_description_bytes, max_platforms,
  max_components, sections_overflow, no_platforms, too_many_platforms, section_bytes_mismatch,
}

abbrev pub IsCounter : ℤ → Type 0
IsCounter (pos n) = Unit {0}
IsCounter (negsuc n) = ⊥

IsCounter-iff : (n : ℤ) → (ltb_int n (pos 0) ≡ false) ↔ IsCounter n
IsCounter-iff (pos n) = (λ h. tt, λ h. ground arith)
IsCounter-iff (negsuc n) = (λ h. cc, λ h. absurd h)

abbrev pub IsComponent : ComponentName → Type 0
IsComponent c = IsString c.name max_string_bytes false × IsCounter c.count

pub record IsMetadata (m : Metadata) : Type 0 where
  pub triangles : IsCounter m.triangles_count
  pub materials : IsCounter m.material_count
  pub bones : IsCounter m.bones_count
  pub texture : IsCounter m.texture_memory_bytes
  pub pipeline : IsString m.graphics_pipeline max_string_bytes false
  pub few : length m.component_names ≤ max_components
  pub components : All IsComponent m.component_names

-- A connector that describes section bytes of that number.
pub record IsConnector (u : Tables) (c : Connector) (section_bytes : ℤ) : Type 0 where
  pub version : IsString c.unique_version max_string_bytes true
  pub name : IsString c.basis_bundle_description.asset_bundle_name max_string_bytes true
  pub description :
      IsString c.basis_bundle_description.asset_bundle_description max_description_bytes false
  pub tags : IsTags u c.basis_bundle_description.tags
  pub some_platform : 0 < length (items c.basis_bundle_generated)
  pub few_platforms : length (items c.basis_bundle_generated) ≤ max_platforms
  pub metadata : IsMetadata c.meta_data
  pub sections : IsSections u (items c.basis_bundle_generated)
  pub sum : section_bytes ≡ pos (declared_sum (items c.basis_bundle_generated))

validate_components_iff :
    (cs : List ComponentName) → (validate_components cs ≡ ok tt) ↔ All IsComponent cs
unfolding validate_components
validate_components_iff [] = (λ h. tt, λ h. refl)
validate_components_iff (c ∷ cs) = (
  λ h.
      let (name, h1) = >>-eq-ok _ _ h in
      let (count, h2) = >>-eq-ok _ _ h1 in
      (
        (
          (validate_string_iff c.name max_string_bytes false).0 name,
          (IsCounter-iff c.count).0 ((fail_if-eq-ok (ltb_int c.count (pos 0)) _).0 count),
        ),
        (validate_components_iff cs).0 h2,
      ),
  λ (c1, rest).
      rw
        ((validate_string_iff c.name max_string_bytes false).1 c1.0, (IsCounter-iff c.count).1 c1.1)
        ((validate_components_iff cs).1 rest),
)

validate_metadata_iff : (m : Metadata) → (validate_metadata m ≡ ok tt) ↔ IsMetadata m
unfolding validate_metadata
validate_metadata_iff m = (
  λ h. record {
    triangles = (IsCounter-iff m.triangles_count).0 (ground arith);
    materials = (IsCounter-iff m.material_count).0 (ground arith);
    bones = (IsCounter-iff m.bones_count).0 (ground arith);
    texture = (IsCounter-iff m.texture_memory_bytes).0 (ground arith);
    pipeline = (validate_string_iff m.graphics_pipeline max_string_bytes false).0 (ground arith);
    few = ground arith;
    components = (validate_components_iff m.component_names).0 (ground arith);
  },
  λ v. ground (
    arith,
    (IsCounter-iff m.triangles_count).1 v.triangles,
    (IsCounter-iff m.material_count).1 v.materials,
    (IsCounter-iff m.bones_count).1 v.bones,
    (IsCounter-iff m.texture_memory_bytes).1 v.texture,
    (validate_string_iff m.graphics_pipeline max_string_bytes false).1 v.pipeline,
    (validate_components_iff m.component_names).1 v.components,
  ),
)

eq_int_iff : (a b : ℤ) → (eq_int a b ≡ true) ↔ (a ≡ b)
eq_int_iff (pos a) (pos b) = ground arith
eq_int_iff (pos a) (negsuc b) = ground arith
eq_int_iff (negsuc a) (pos b) = ground arith
eq_int_iff (negsuc a) (negsuc b) = ground arith

-- `validateConnector` accepts exactly the connectors that satisfy `IsConnector`: the version, the
-- name, the description, the tags, the graphics pipeline, the names of components, and the hash, the
-- load name, the platform and the graphics APIs of each section are well-formed UTF-8 and within
-- their limits; the password of a section is bounded in length only, and is not blank where the
-- section is encrypted; platforms and asset modes are known, and no two tags and no two platforms
-- agree once trimmed and lowered; there are 1 to 16 sections, and components and graphics APIs are
-- within their limits; counters are not negative; the declared sizes are positive and add up to the
-- bytes really found, at most 4 GiB. Of the other texts (the image and the date) nothing is asked.
pub validate_connector_iff :
    (u : Tables) (c : Connector) (section_bytes : ℤ)
    → (validate_connector u c section_bytes ≡ ok tt) ↔ IsConnector u c section_bytes
unfolding validate_connector
validate_connector_iff u c section_bytes =
    let d = c.basis_bundle_description in
    let gs = items c.basis_bundle_generated in
    (
      λ h.
          let (version, h1) = >>-eq-ok _ _ h in
          let (name, h2) = >>-eq-ok _ _ h1 in
          let (description, h3) = >>-eq-ok _ _ h2 in
          let (tags, h4) = >>-eq-ok _ _ h3 in
          let (some_platform, h5) = >>-eq-ok (fail_if (length gs == 0) no_platforms) _ h4 in
          let (few, h6) =
            >>-eq-ok (fail_if (ltb max_platforms (length gs)) too_many_platforms) _ h5 in
          let (metadata, h7) = >>-eq-ok _ _ h6 in
          let (declared, loop, same) =
            >>=-eq-ok (sections_loop u [] (pos 0) gs)
              (λ t. fail_if (not (eq_int t section_bytes)) section_bytes_mismatch) h7 in
          let (sections, sum) = (sections_loop_iff u gs declared).0 loop in
          record {
            version = (validate_string_iff c.unique_version max_string_bytes true).0 version;
            name = (validate_string_iff d.asset_bundle_name max_string_bytes true).0 name;
            description =
                (validate_string_iff d.asset_bundle_description max_description_bytes false).0
                  description;
            tags = (validate_tags_iff u d.tags).0 tags;
            some_platform = ground arith;
            few_platforms = ground arith;
            metadata = (validate_metadata_iff c.meta_data).0 metadata;
            sections = sections;
            sum = sym ((eq_int_iff declared section_bytes).0 (ground (arith, same))) ∙ sum;
          },
      λ v. ground (
        arith,
        (validate_string_iff c.unique_version max_string_bytes true).1 v.version,
        (validate_string_iff d.asset_bundle_name max_string_bytes true).1 v.name,
        (validate_string_iff d.asset_bundle_description max_description_bytes false).1
            v.description,
        (validate_tags_iff u d.tags).1 v.tags,
        (validate_metadata_iff c.meta_data).1 v.metadata,
        (sections_loop_iff u gs (pos (declared_sum gs))).1 (v.sections, refl),
        v.sum,
      ),
    )

components-ne : (cs : List ComponentName) → validate_components cs ≢ err sections_overflow
unfolding validate_components
components-ne [] = λ h. cc
components-ne (c ∷ cs) =
    ground (arith, validate_string-ne c.name max_string_bytes false, components-ne cs)

metadata-ne : (m : Metadata) → validate_metadata m ≢ err sections_overflow
unfolding validate_metadata
metadata-ne m = ground (
  arith,
  validate_string-ne m.graphics_pipeline max_string_bytes false,
  components-ne m.component_names,
)

-- The test for an int64 overflow of the declared sizes never fires: the tests around it keep the sum
-- below 4 GiB, so that no connector is refused for that reason.
pub validate_connector-ne-overflow :
    (u : Tables) (c : Connector) (section_bytes : ℤ)
    → validate_connector u c section_bytes ≢ err sections_overflow
unfolding validate_connector
validate_connector-ne-overflow u c section_bytes =
    let d = c.basis_bundle_description in
    let gs = items c.basis_bundle_generated in
    ground (
      arith,
      validate_string-ne c.unique_version max_string_bytes true,
      validate_string-ne d.asset_bundle_name max_string_bytes true,
      validate_string-ne d.asset_bundle_description max_description_bytes false,
      validate_tags-ne u d.tags,
      metadata-ne c.meta_data,
      sections_loop-ne u gs [] 0 (omega arith),
    )
