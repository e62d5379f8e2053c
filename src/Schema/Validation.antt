-- ===== src/Schema/Validation.antt =====
-- pkg/apiserver/schema/validation.go: value validations; Checks and Invariants have the nodes of a
-- schema.
pub mod Checks
pub mod Invariants
pub mod Node
pub mod Structural
pub mod Tests
use apiextensions_apiserver.Crd.Helpers.{is_set}
use apiextensions_apiserver.Schema.Unfolding.{is_nil_json}
use apiextensions_apiserver.Schema.ListType.{at_index, at_key, at_child, FieldPath}
use apiextensions_apiserver.Schema.Structural.{
  no_nested, nil_nested, more_nested, NestedList, to_nested, NestedRef, no_nested_properties,
  nested, NestedValueValidation, value_validation, nested_property, ValueValidation, ValueLimits,
  Generic, NestedProperties, Extensions,
}
use apiextensions_apiserver.Schema.Completeness.{ValidationOptions, MissingField}
use apiextensions_apiserver.Prelude.{
  join, none, suc, ℕ, ◌&&◌, ◌||◌, is_empty, ◌∷◌, some, ◌==◌, [], ◌++◌, if◌then◌else◌, not, false,
  List, Bool, Option, String,
}
use apiextensions_apiserver.Schema.Json.{str, Json}

pub data Level : Type 0 where
  root_level : Level
  item_level : Level
  field_level : Level

-- field.Error, where `incomplete` is what the completeness checks report
pub data Violation : Type 0 where
  incomplete : MissingField → Violation
  needed : FieldPath → String → Violation
  forbidden : FieldPath → String → Violation
  bad : FieldPath → Json → String → Violation

-- `if test { allErrs = append(allErrs, err) }`
abbrev pub report : Bool → Violation → List Violation
report test err = if test then err ∷ [] else []

abbrev pub forbid : Bool → FieldPath → String → String → List Violation
forbid test path child detail = report test (forbidden (at_child child ∷ path) detail)

-- optsWithCELDisabled
abbrev pub without_rules : ValidationOptions → ValidationOptions
without_rules opts = record opts { allow_nested_x_validations = false }

-- v.Properties[k]
unfoldable pub has_nested_property : String → NestedProperties → Bool
has_nested_property k no_nested_properties = false
has_nested_property k (nested_property j v ps) = j == k || has_nested_property k ps

unfoldable pub forbidden_generics : Generic → FieldPath → List Violation
forbidden_generics g path =
    forbid (not (is_nil_json g.default)) path "default" "must be undefined to be structural"
    ++ forbid (not (g.title == "")) path "title" "must be empty to be structural"
    ++ forbid (not (g.description == "")) path "description" "must be empty to be structural"
    ++ forbid g.nullable path "nullable" "must be false to be structural"

unfoldable pub forbidden_extensions : Extensions → FieldPath → List Violation
forbidden_extensions x path =
    forbid x.x_preserve_unknown_fields path "x-kubernetes-preserve-unknown-fields"
      "must be false to be structural"
    ++ forbid x.x_embedded_resource path "x-kubernetes-embedded-resource"
        "must be false to be structural"
    ++ forbid x.x_int_or_string path "x-kubernetes-int-or-string" "must be false to be structural"
    ++ forbid (not (is_empty x.x_list_map_keys)) path "x-kubernetes-list-map-keys"
        "must be empty to be structural"
    ++ forbid (is_set x.x_list_type) path "x-kubernetes-list-type"
        "must be undefined to be structural"
    ++ forbid (is_set x.x_map_type) path "x-kubernetes-map-type"
        "must be undefined to be structural"

abbrev pub bad_pattern : FieldPath → String → Option String → List Violation
bad_pattern path pattern_ none = []
bad_pattern path pattern_ (some err) =
    bad (at_child "pattern" ∷ path) (str pattern_)
      (join ("must be a valid regular expression, but isn't: " ∷ err ∷ []))
    ∷ []

-- `compile` gives the error of regexp.Compile. The level, which Go passes along, is not looked at.
module _ (compile : String → Option String) where
  unfoldable pub pattern_errors : ValueLimits → FieldPath → List Violation
  pattern_errors limits path =
      if limits.pattern_ == ""
      then []
      else bad_pattern path limits.pattern_ (compile limits.pattern_)

  unfoldable mutual
    unfolding pattern_errors forbidden_generics forbidden_extensions has_nested_property

    pub validate_value_validation :
        ValueValidation
        → (skip_any_of skip_first_all_of_any_of : Bool) → FieldPath
        → ValidationOptions
        → List Violation
    validate_value_validation (value_validation limits all_of one_of any_of not_) skip_any_of
          skip_first path opts =
        let any_of_errs =
          validate_nested_list false 0 any_of (at_child "anyOf" ∷ path) (without_rules opts) in
        (if skip_any_of then [] else any_of_errs)
        ++ validate_nested_list skip_first 0 all_of (at_child "allOf" ∷ path) opts
        ++ validate_nested_list false 0 one_of (at_child "oneOf" ∷ path) (without_rules opts)
        ++ validate_nested_ref not_ (at_child "not" ∷ path) (without_rules opts)
        ++ pattern_errors limits path

    -- validateNestedValueValidation of a validation that is not nil
    pub validate_nested_value_validation :
        NestedValueValidation
        → (skip_any_of skip_all_of_any_of : Bool) → FieldPath
        → ValidationOptions
        → List Violation
    validate_nested_value_validation (nested v rules is ps additional g x) skip_any_of skip_all_of
          path opts =
        validate_value_validation v skip_any_of skip_all_of path opts
        ++ validate_nested_ref is (at_child "items" ∷ path) opts
        ++ validate_nested_properties ps (at_child "properties" ∷ path) opts
        ++ forbid (not (g.type == "")) path "type" "must be empty to be structural"
        ++ validate_nested_additional additional (at_child "additionalProperties" ∷ path) opts
        ++ forbidden_generics g path
        ++ forbidden_extensions x path
        ++ forbid (not (is_empty rules.x_validations) && not opts.allow_nested_x_validations) path
            "x-kubernetes-validations" "must be empty to be structural"
        ++ report (has_nested_property "metadata" ps) (
            forbidden (at_key "metadata" ∷ at_child "properties" ∷ path)
              "must not be specified in a nested context")

    pub validate_nested_ref : NestedRef → FieldPath → ValidationOptions → List Violation
    validate_nested_ref nil_nested path opts = []
    validate_nested_ref (to_nested v) path opts =
        validate_nested_value_validation v false false path opts

    pub validate_nested_additional : NestedRef → FieldPath → ValidationOptions → List Violation
    validate_nested_additional nil_nested path opts = []
    validate_nested_additional (to_nested v) path opts =
        let errs = validate_nested_value_validation v false false path opts in
        if not opts.allow_nested_additional_properties
        then forbidden path "must be undefined to be structural" ∷ []
        else errs

    -- The loops over anyOf, allOf and oneOf; only the first of allOf may skip its own anyOf.
    pub validate_nested_list :
        Bool → ℕ → NestedList → FieldPath → ValidationOptions → List Violation
    validate_nested_list skip_any_of i no_nested path opts = []
    validate_nested_list skip_any_of i (more_nested v vs) path opts =
        validate_nested_value_validation v skip_any_of false (at_index i ∷ path) opts
        ++ validate_nested_list false (suc i) vs path opts

    pub validate_nested_properties :
        NestedProperties → FieldPath → ValidationOptions → List Violation
    validate_nested_properties no_nested_properties path opts = []
    validate_nested_properties (nested_property k v ps) path opts =
        validate_nested_value_validation v false false (at_key k ∷ path) opts
        ++ validate_nested_properties ps path opts

  -- *ValueValidation, which may be nil
  unfoldable pub validate_optional_validation :
      Option ValueValidation
      → (skip_any_of skip_first : Bool) → FieldPath
      → ValidationOptions
      → List Violation
  unfolding validate_value_validation
  validate_optional_validation none skip_any_of skip_first path opts = []
  validate_optional_validation (some v) skip_any_of skip_first path opts =
      validate_value_validation v skip_any_of skip_first path opts
