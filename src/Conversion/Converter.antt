-- ===== src/Conversion/Converter.antt =====
-- pkg/apiserver/conversion/converter.go: the converter of a CRD, which checks the versions and
-- delegates. A conversion gives the argument afterwards and what is returned.
pub mod Factory
pub mod Versions
use apiextensions_apiserver.Schema.Json.{Members}
use apiextensions_apiserver.Conversion.{
  not_unstructured_in, conversion_failed, not_unstructured_out, single, invalid_from,
  label_not_supported, invalid_to, group_version, invalid_from_item, gv_eq, not_suitable, many,
  object_gvk, Gvk, typed_scale, ConversionError, Object, Gv, Machinery,
}
use apiextensions_apiserver.Prelude.{
  ◌>>=◌, [], ok, ◌&&◌, ◌||◌, not, ◌==◌, suc, contains, some, none, true, if◌then◌else◌, ◌∷◌, err,
  false, ℕ, Result, String, List, Option, Bool,
}

-- crConverterInterface
abbrev pub Converter : Type 0
Converter = Object → Gv → Object × Result ConversionError Object

-- map[schema.GroupVersion]sets.Set[string]
abbrev pub FieldSets : Type 0
FieldSets = List (Gv × List String)

pub record CrConverter : Type 0 where
  pub convert_scale : Bool
  pub converter : Converter
  pub valid_versions : List Gv
  pub cluster_scoped : Bool
  pub selectable_fields : FieldSets

-- c.validVersions[gv]
abbrev pub has_version : List Gv → Gv → Bool
has_version [] gv = false
has_version (v ∷ vs) gv = gv_eq v gv || has_version vs gv

-- c.selectableFields[gv], where a later entry replaces an earlier one.
abbrev fields_at : FieldSets → Gv → Option (List String)
fields_at [] gv = none
fields_at ((v, fields) ∷ rest) gv = elim (fields_at rest gv) [
  | some later ↦ some later
  | none ↦ if gv_eq v gv then some fields else none
]

has_field : Option (List String) → String → Bool
has_field none label = false
has_field (some fields) label = contains fields label

-- `selectors` is the feature gate CustomResourceFieldSelectors.
unfoldable pub convert_field_label :
    Bool → CrConverter → Gvk → String → String → Result ConversionError (String × String)
unfolding has_field
convert_field_label selectors c gvk label value =
    if label == "metadata.name"
    then ok (label, value)
    else if not (c.cluster_scoped) && label == "metadata.namespace"
    then ok (label, value)
    else if selectors && has_field (fields_at (c.selectable_fields) (group_version gvk)) label
    then ok (label, value)
    else err (label_not_supported label)

abbrev is_scale : Object → Bool
is_scale (typed_scale gvk ms) = true
is_scale o = false

-- The error of a call, on the argument as it was.
abbrev refuse {ℓ} : {A : Type ℓ} → Object → ConversionError → Object × Result ConversionError A
refuse in_object e = (in_object, err e)

module _ (m : Machinery) where
  -- The index and version of the first item that is in no valid version.
  invalid_item_version : List Gv → ℕ → List Members → Option (ℕ × Gv)
  invalid_item_version valid i [] = none
  invalid_item_version valid i (item ∷ items) =
      let later = invalid_item_version valid (suc i) items in
      if not (has_version valid (group_version (m.gvk_of item)))
      then some (i, group_version (m.gvk_of item))
      else later

  invalid_in_list : List Gv → Object → Option (ℕ × Gv)
  unfolding invalid_item_version
  invalid_in_list valid (many ms items) = invalid_item_version valid 0 items
  invalid_in_list valid o = none

  delegate : CrConverter → Object → Gv → Object × Result ConversionError Object
  unfolding invalid_in_list
  delegate c in_object gv = elim (invalid_in_list (c.valid_versions) in_object) [
    | some (i, expected) ↦ refuse in_object (invalid_from_item i expected)
    | none ↦ c.converter in_object gv
  ]

  -- `scheme` is typedscheme.Scheme.ConvertToVersion, `target` KindForGroupVersionKinds.
  unfoldable pub convert_to_version :
      (Object → (Gvk → Option Gvk) → Object × Result ConversionError Object)
      → CrConverter
      → Object
      → (Gvk → Option Gvk)
      → Object × Result ConversionError Object
  unfolding delegate
  convert_to_version scheme c in_object target = elim (target (object_gvk m in_object)) [
    | none ↦ refuse in_object (not_suitable (object_gvk m in_object))
    | some to ↦
        if c.convert_scale && is_scale in_object
        then scheme in_object target
        else if not (has_version (c.valid_versions) (group_version to))
        then refuse in_object (invalid_to to)
        else if not (has_version (c.valid_versions) (group_version (object_gvk m in_object)))
        then refuse in_object (invalid_from (object_gvk m in_object))
        else delegate c in_object (group_version to)
  ]

  -- safeConverterWrapper.ConvertToVersion works on a copy.
  unfoldable pub safe_convert_to_version :
      (Object → (Gvk → Option Gvk) → Object × Result ConversionError Object)
      → CrConverter
      → Object
      → (Gvk → Option Gvk)
      → Object × Result ConversionError Object
  safe_convert_to_version scheme c in_object target =
      (in_object, (convert_to_version scheme c in_object target).1)

-- UnstructuredContent; `list_content` is that of an UnstructuredList.
content : (Members → List Members → Members) → Object → Result ConversionError Members
content list_content (single ms) = ok ms
content list_content (many ms items) = ok (list_content ms items)
content list_content (typed_scale gvk ms) = err conversion_failed

both_unstructured : Object → Object → Result ConversionError Members
both_unstructured (single ms) (single out) = ok out
both_unstructured (single ms) out = err not_unstructured_out
both_unstructured in_object out = err not_unstructured_in

-- `versioner` is GroupVersion.KindForGroupVersionKinds, `scheme_convert` typedscheme.Scheme.Convert,
-- which fills `out`.
module _ (m : Machinery) (list_content : Members → List Members → Members)
    (versioner : Gv → Gvk → Option Gvk) where
  fill_out : Object × Result ConversionError Object → Object × Result ConversionError Object
  unfolding content
  fill_out (in_object, converted) =
      (in_object, converted >>= λ o. content list_content o >>= λ ms. ok (single ms))

  unfoldable pub convert :
      (Object → Object → Object × Result ConversionError Object)
      → (Object → (Gvk → Option Gvk) → Object × Result ConversionError Object)
      → CrConverter
      → Object
      → Object
      → Object × Result ConversionError Object
  unfolding both_unstructured fill_out
  convert scheme_convert scheme c in_object out =
      if c.convert_scale && (is_scale in_object || is_scale out)
      then scheme_convert in_object out
      else elim (both_unstructured in_object out) [
        | err e ↦ refuse in_object e
        | ok out_ms ↦
            fill_out (
              convert_to_version m scheme c in_object (versioner (group_version (m.gvk_of out_ms))))
      ]

  -- safeConverterWrapper.Convert works on a copy.
  unfoldable pub safe_convert :
      (Object → Object → Object × Result ConversionError Object)
      → (Object → (Gvk → Option Gvk) → Object × Result ConversionError Object)
      → CrConverter
      → Object
      → Object
      → Object × Result ConversionError Object
  safe_convert scheme_convert scheme c in_object out =
      (in_object, (convert scheme_convert scheme c in_object out).1)
