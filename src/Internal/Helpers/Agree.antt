-- ===== src/Internal/Helpers/Agree.antt =====
-- pkg/apis/apiextensions/helpers.go: the schema of a version, read from the internal CRD and from the
-- v1 one that it was converted from.
use apiextensions_apiserver.Internal.Document.{validation_in}
use apiextensions_apiserver.Internal.Hoisting.Found.{
  identical-none, find_version-clear, neither-set, All-find_version, find_version-convert_versions,
  all_left, none_left,
}
use apiextensions_apiserver.Internal.Helpers.{of_version, schema_for_version}
use apiextensions_apiserver.Internal.Hoisting.{
  with_versions, unless, Peer, at_pointer, convert_versions, identical, only_if, clear, hoist,
  spec_in,
}
use apiextensions_apiserver.Internal.Hoisting.Versions.{Sound, All-identical}
use apiextensions_apiserver.Internal.{InternalCrd, InternalSpec}
use apiextensions_apiserver.Crd.Helpers.{find_version, has_per_version_schema}
use apiextensions_apiserver.Crd.{Version, Validation, CrdSpec}
use apiextensions_apiserver.Prelude.{
  ◌∙◌, sym, inr, ok_injective, Bool-cases, inl, >>=-eq-ok, ap, ok, map, List, Bool, String, ◌≡◌,
  Option, refl, some, none, true, false, [], ◌∷◌,
}

schema_on_top :
    (crd : InternalCrd) (version : String)
    → has_per_version_schema (crd.spec.versions) ≡ false
    → schema_for_version crd version ≡ ok (crd.spec.validation)
unfolding schema_for_version
schema_on_top crd version h = rw h

schema_of_version :
    (crd : InternalCrd) (version : String) (v : Version)
    → has_per_version_schema (crd.spec.versions) ≡ true
    → crd.spec.validation ≡ none
    → find_version version (crd.spec.versions) ≡ some v
    → schema_for_version crd version ≡ ok (v.schema)
unfolding schema_for_version of_version
schema_of_version crd version v h top found = rw (schema_for_version, of_version, h, top, found)

module _ {ℓ} {A : Type ℓ} where
  only_if-true : (b : Bool) (a : Option A) → b ≡ true → only_if b a ≡ a
  unfolding only_if
  only_if-true true a h = refl
  only_if-true false a h = cc

  only_if-false : (b : Bool) (a : Option A) → b ≡ false → only_if b a ≡ none
  unfolding only_if
  only_if-false false a h = refl
  only_if-false true a h = cc

  unless-false : (b : Bool) (a : Option A) → b ≡ false → unless b a ≡ a
  unfolding unless
  unless-false false a h = refl
  unless-false true a h = cc

versions_cleared :
    (b₁ b₂ b₃ b₄ : Bool)
    → b₂ ≡ true
    → (vs ws : List Version) → ws ≡ map (clear b₁ b₂ b₃ b₄) vs
    → has_per_version_schema ws ≡ false
versions_cleared b₁ true b₃ b₄ t vs ws h = ap has_per_version_schema h ∙ none_left b₁ b₃ b₄ vs
versions_cleared b₁ false b₃ b₄ t vs ws h = cc

versions_kept :
    (b₁ b₂ b₃ b₄ : Bool)
    → b₂ ≡ false
    → (vs ws : List Version) → ws ≡ map (clear b₁ b₂ b₃ b₄) vs
    → has_per_version_schema ws ≡ has_per_version_schema vs
versions_kept b₁ false b₃ b₄ t vs ws h = ap has_per_version_schema h ∙ all_left b₁ b₃ b₄ vs
versions_kept b₁ true b₃ b₄ t vs ws h = cc

module _ (p : Peer) (sound : Sound p) (reflexive : p.same_schema none none ≡ true) where
  -- Schemas that are not identical are not all missing.
  has_schema :
      (w : Version) (ws : List Version)
      → identical (p.same_schema) (λ v. v.schema) (w.schema) (w ∷ ws) ≡ false
      → has_per_version_schema (w ∷ ws) ≡ true
  unfolding has_per_version_schema
  has_schema w ws f = elim (Bool-cases (has_per_version_schema (w ∷ ws))) [
    | inl t ↦ t
    | inr missing ↦
        let (none_here, none_later) = neither-set (w.schema) (has_per_version_schema ws) missing in
        let all_none = identical-none (p.same_schema) (w ∷ ws) reflexive missing in
        cc (
          sym f
          ∙ ap (λ s. identical (p.same_schema) (λ (v : Version). v.schema) s (w ∷ ws)) none_here
          ∙ all_none)
  ]

  schema_for_version-hoist :
      (crd : InternalCrd) (version : String) (spec : CrdSpec) (w : Version) (ws : List Version)
      (x : Version)
      → crd.spec ≡ hoist p (w ∷ ws) (with_versions p spec (w ∷ ws))
      → find_version version (w ∷ ws) ≡ some x
      → schema_for_version crd version ≡ ok (x.schema)
  unfolding hoist with_versions
  schema_for_version-hoist crd version spec w ws x is_hoisted found =
      let b₁ =
        identical (p.same_subresources) (λ (v : Version). v.subresources) (w.subresources)
          (w ∷ ws) in
      let b₂ = identical (p.same_schema) (λ (v : Version). v.schema) (w.schema) (w ∷ ws) in
      let b₃ =
        identical (p.same_columns) (λ (v : Version). v.additional_printer_columns)
          (w.additional_printer_columns) (w ∷ ws) in
      let b₄ =
        identical (p.same_fields) (λ (v : Version). v.selectable_fields) (w.selectable_fields)
          (w ∷ ws) in
      let versions = ap (λ (s : InternalSpec). s.versions) is_hoisted in
      let top = ap (λ (s : InternalSpec). s.validation) is_hoisted in
      elim (Bool-cases b₂) [
        | inl t ↦
            let same =
              All-find_version (λ v. p.same_schema (v.schema) (w.schema) ≡ true) version (w ∷ ws) x
                (All-identical (p.same_schema) (λ v. v.schema) (w.schema) (w ∷ ws) t) found in
            schema_on_top crd version
              (versions_cleared b₁ b₂ b₃ b₄ t (w ∷ ws) (crd.spec.versions) versions)
            ∙ ap ok
                (top ∙ only_if-true b₂ (w.schema) t ∙ sym (sound.schema (x.schema) (w.schema) same))
        | inr f ↦
            schema_of_version crd version (clear b₁ b₂ b₃ b₄ x)
              (versions_kept b₁ b₂ b₃ b₄ f (w ∷ ws) (crd.spec.versions) versions
                ∙ has_schema w ws f)
              (top ∙ only_if-false b₂ (w.schema) f)
              (ap (find_version version) versions
                ∙ find_version-clear b₁ b₂ b₃ b₄ version (w ∷ ws) x found)
            ∙ ap ok (unless-false b₂ (x.schema) f)
      ]

  found_schema :
      (crd : InternalCrd) (version : String) (spec : CrdSpec) (ws : List Version) (x : Version)
      → crd.spec ≡ hoist p ws (with_versions p spec ws)
      → find_version version ws ≡ some x
      → schema_for_version crd version ≡ ok (x.schema)
  unfolding find_version
  found_schema crd version spec [] x is_hoisted found = cc
  found_schema crd version spec (w ∷ ws) x is_hoisted found =
      schema_for_version-hoist crd version spec w ws x is_hoisted found

  -- The schema of a version that an internal CRD gives, whether on top or in the version, is the
  -- converted schema of that version in the v1 CRD that it came from.
  pub schema_for_version-spec_in :
      (crd : InternalCrd) (version : String) (spec : CrdSpec) (internal : InternalSpec)
      (v : Version)
      → spec_in p spec ≡ ok internal
      → crd.spec ≡ internal
      → find_version version (spec.versions) ≡ some v
      → (schema : Option Validation) × (at_pointer validation_in (v.schema) ≡ ok schema)
        × (schema_for_version crd version ≡ ok schema)
  unfolding spec_in
  schema_for_version-spec_in crd version spec internal v h same found =
      let (ws, e, h₁) = >>=-eq-ok (convert_versions validation_in (spec.versions)) _ h in
      let (schema, converted, found₁) =
        find_version-convert_versions validation_in version (spec.versions) ws v e found in
      (
        schema,
        converted,
        found_schema crd version spec ws (record v { schema = schema })
            (same ∙ sym (ok_injective h₁)) found₁,
      )
