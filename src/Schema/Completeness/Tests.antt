-- ===== src/Schema/Completeness/Tests.antt =====
-- Runs of the completeness check of pkg/apiserver/schema/complete.go.
use apiextensions_apiserver.Prelude.{◌≡◌, refl, true, false, some, [], ◌∷◌, is_empty}
use apiextensions_apiserver.Schema.Structural.{
  no_limits, ValueValidation, value_validation, NestedValueValidation, nested, NestedRef,
  nil_nested, to_nested, no_nested, NestedProperties, no_nested_properties, nested_property,
  Structural, structural, empty_structural, nil, to, no_properties, property, StructuralOrBool,
  unset, structural_or_bool, no_generic, no_extensions,
}
use apiextensions_apiserver.Schema.ListType.{at_child, at_key}
use apiextensions_apiserver.Schema.Completeness.{
  ValidationOptions, validate_structural_completeness,
}
use apiextensions_apiserver.Schema.Completeness.Mentioned.{
  complete_iff, all, has_place, mentioned_optional, to_property,
}

abbrev validation : NestedRef → ValueValidation
validation not_ = value_validation no_limits no_nested no_nested no_nested not_

abbrev nested_with : NestedProperties → NestedValueValidation
nested_with ps =
    nested (validation nil_nested) (record { x_validations = [] }) nil_nested ps nil_nested
      no_generic no_extensions

-- properties: {a: {}}, additionalProperties: ..., not: {properties: {a: {}, b: {}}}
abbrev schema_with : StructuralOrBool → Structural
schema_with additional =
    structural nil (property "a" empty_structural no_properties) additional no_generic no_extensions
      (record { x_validations = [] })
      (some (
        validation (
          to_nested (
            nested_with (
              nested_property "a" (nested_with no_nested_properties)
                (nested_property "b" (nested_with no_nested_properties) no_nested_properties))))))

abbrev allowing : ValidationOptions
allowing = record {
  allow_nested_additional_properties = false;
  allow_nested_x_validations = false;
  allow_validation_properties_with_additional_properties = true;
}

b_is_missing :
    validate_structural_completeness allowing (to (schema_with unset)) []
    ≡ record {
      path = at_key "b" ∷ at_child "properties" ∷ [];
      defined_in = at_key "b" ∷ at_child "properties" ∷ at_child "not" ∷ [];
    }
      ∷ []
unfolding validate_structural_completeness
b_is_missing = refl

b_is_additional :
    validate_structural_completeness allowing
      (to (schema_with (structural_or_bool (to empty_structural) false)))
      []
    ≡ []
unfolding validate_structural_completeness
b_is_additional = refl

complete_iff_example :
    is_empty (validate_structural_completeness allowing (to (schema_with unset)) [])
    ≡ all
        (has_place allowing (to (schema_with unset)))
        ([] ∷ [] ∷ (to_property "a" ∷ []) ∷ (to_property "b" ∷ []) ∷ [])
unfolding mentioned_optional
complete_iff_example = complete_iff allowing (schema_with unset) []
