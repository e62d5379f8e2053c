-- ===== src/Schema/Completeness.antt =====
-- pkg/apiserver/schema/complete.go
pub mod Mentioned
mod Tests
use apiextensions_apiserver.Prelude.{
  ℕ, suc, String, Bool, false, Option, none, some, List, [], ◌∷◌, ◌++◌, if◌then◌else◌,
}
use apiextensions_apiserver.Schema.ListType.{FieldPath, at_child, at_key, at_index}
use apiextensions_apiserver.Schema.Structural.{
  ValueValidation, value_validation, NestedValueValidation, nested, NestedRef, nil_nested,
  to_nested, NestedList, no_nested, more_nested, NestedProperties, no_nested_properties,
  nested_property, Structural, items, properties, additional_properties, value_validation_of, Ref,
  nil, to, StructuralOrBool, unset, structural_or_bool, lookup,
}

pub record ValidationOptions : Type 0 where
  pub allow_nested_additional_properties : Bool
  pub allow_nested_x_validations : Bool
  pub allow_validation_properties_with_additional_properties : Bool

-- field.Required(path, "because it is defined in " + defined_in)
pub record MissingField : Type 0 where
  pub path : FieldPath
  pub defined_in : FieldPath

abbrev pub required_error : FieldPath → FieldPath → List MissingField
required_error path defined_in = record { path = path; defined_in = defined_in } ∷ []

-- s.AdditionalProperties.Structural, nil if there are no additional properties
unfoldable pub structural_of : StructuralOrBool → Ref
structural_of unset = nil
structural_of (structural_or_bool s b) = s

-- Where the schema of a property that a validation names is found.
pub data Place : Type 0 where
  nowhere : Place
  found : Structural → Place
  in_additional : Structural → Place

abbrev pub place_or_additional : Bool → Option Structural → Ref → Place
place_or_additional allowed (some s) additional = found s
place_or_additional allowed none nil = nowhere
place_or_additional allowed none (to s) = if allowed then in_additional s else nowhere

unfoldable pub place_of : ValidationOptions → Structural → String → Place
unfolding lookup structural_of
place_of opts s k =
    place_or_additional (opts.allow_validation_properties_with_additional_properties)
      (lookup k (properties s)) (structural_of (additional_properties s))

abbrev pub schema_at : Place → Ref
schema_at nowhere = nil
schema_at (found s) = to s
schema_at (in_additional s) = to s

-- The path of that schema, and of the property itself where there is none.
abbrev pub path_of : Place → String → FieldPath → FieldPath
path_of nowhere k path = at_key k ∷ at_child "properties" ∷ path
path_of (found s) k path = at_key k ∷ at_child "properties" ∷ path
path_of (in_additional s) k path = at_child "additionalProperties" ∷ path

abbrev pub unless_nowhere : Place → List MissingField → List MissingField → List MissingField
unless_nowhere nowhere missing errs = missing
unless_nowhere (found s) missing errs = errs
unless_nowhere (in_additional s) missing errs = errs

module _ (opts : ValidationOptions) where
  unfoldable mutual
    unfolding place_of structural_of

    pub validate_value_validation_completeness :
        ValueValidation → Ref → FieldPath → FieldPath → List MissingField
    validate_value_validation_completeness v nil s_path v_path = required_error s_path v_path
    validate_value_validation_completeness (value_validation limits all_of one_of any_of not_)
          (to s) s_path v_path =
        validate_nested_ref_completeness not_ (to s) s_path (at_child "not" ∷ v_path)
        ++ validate_nested_list_completeness 0 all_of (to s) s_path (at_child "allOf" ∷ v_path)
        ++ validate_nested_list_completeness 0 any_of (to s) s_path (at_child "anyOf" ∷ v_path)
        ++ validate_nested_list_completeness 0 one_of (to s) s_path (at_child "oneOf" ∷ v_path)

    -- validateNestedValueValidationCompleteness of a validation that is not nil
    pub validate_nested_value_validation_completeness :
        NestedValueValidation → Ref → FieldPath → FieldPath → List MissingField
    validate_nested_value_validation_completeness v nil s_path v_path = required_error s_path v_path
    validate_nested_value_validation_completeness (nested v rules is ps ap generics extensions)
          (to s) s_path v_path =
        validate_value_validation_completeness v (to s) s_path v_path
        ++ validate_nested_ref_completeness is (items s) (at_child "items" ∷ s_path)
            (at_child "items" ∷ v_path)
        ++ validate_nested_properties_completeness ps s s_path v_path
        ++ (if opts.allow_nested_additional_properties
            then validate_nested_ref_completeness ap (structural_of (additional_properties s))
                (at_child "additionalProperties" ∷ s_path)
                (at_child "additionalProperties" ∷ v_path)
            else [])

    pub validate_nested_ref_completeness :
        NestedRef → Ref → FieldPath → FieldPath → List MissingField
    validate_nested_ref_completeness nil_nested s s_path v_path = []
    validate_nested_ref_completeness (to_nested v) s s_path v_path =
        validate_nested_value_validation_completeness v s s_path v_path

    -- The loops over allOf, anyOf and oneOf.
    pub validate_nested_list_completeness :
        ℕ → NestedList → Ref → FieldPath → FieldPath → List MissingField
    validate_nested_list_completeness i no_nested s s_path v_path = []
    validate_nested_list_completeness i (more_nested v vs) s s_path v_path =
        validate_nested_value_validation_completeness v s s_path (at_index i ∷ v_path)
        ++ validate_nested_list_completeness (suc i) vs s s_path v_path

    -- The loop over the properties.
    pub validate_nested_properties_completeness :
        NestedProperties → Structural → FieldPath → FieldPath → List MissingField
    validate_nested_properties_completeness no_nested_properties s s_path v_path = []
    validate_nested_properties_completeness (nested_property k v vs) s s_path v_path =
        let place = place_of opts s k in
        let key_path = at_key k ∷ at_child "properties" ∷ v_path in
        let errs =
          validate_nested_value_validation_completeness v (schema_at place) (path_of place k s_path)
            key_path in
        unless_nowhere place (required_error (path_of place k s_path) key_path) errs
        ++ validate_nested_properties_completeness vs s s_path v_path

  -- *ValueValidation, which may be nil
  unfoldable pub validate_optional_completeness :
      Option ValueValidation → Ref → FieldPath → List MissingField
  unfolding validate_value_validation_completeness
  validate_optional_completeness none s path = []
  validate_optional_completeness (some v) s path =
      validate_value_validation_completeness v s path path

  unfoldable pub validate_structural_completeness : Ref → FieldPath → List MissingField
  unfolding validate_optional_completeness
  validate_structural_completeness nil path = []
  validate_structural_completeness (to s) path =
      validate_optional_completeness (value_validation_of s) (to s) path
