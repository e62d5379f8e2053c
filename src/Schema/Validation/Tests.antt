-- ===== src/Schema/Validation/Tests.antt =====
-- Runs of ValidateStructural of pkg/apiserver/schema/validation.go.
use apiextensions_apiserver.Schema.Validation.Structural.{
  validate_structural-IsStructural, IsStructural,
}
use apiextensions_apiserver.Schema.Validation.Invariants.{only_plain, validate_structural}
use apiextensions_apiserver.Schema.Json.{str}
use apiextensions_apiserver.Schema.ListType.{at_key, at_child}
use apiextensions_apiserver.Schema.Completeness.Mentioned.{mentioned_optional, has_place, all}
use apiextensions_apiserver.Schema.Validation.{
  bad, forbidden, needed, root_level, incomplete, Violation,
}
use apiextensions_apiserver.Prelude.{◌∷◌, some, false, true, none, Option, [], String, ◌≡◌, refl}
use apiextensions_apiserver.Schema.Structural.{
  nil_nested, no_nested, no_limits, value_validation_of, value_validation, structural_or_bool,
  no_generic, no_properties, property, nil, no_extensions, structural, unset, Extensions,
  Structural, StructuralOrBool, to,
}

abbrev of_type_and : String → Extensions → Structural
of_type_and type x =
    structural nil no_properties unset (record no_generic { type = type }) x
      (record { x_validations = [] }) none

-- An object with a port, which is an integer or a string, and with metadata.
abbrev service : StructuralOrBool → Structural
service additional =
    structural nil
      (property "port" (of_type_and "" (record no_extensions { x_int_or_string = true }))
        (property "metadata" (of_type_and "object" no_extensions) no_properties))
      additional (record no_generic { type = "object" }) no_extensions
      (record { x_validations = [] })
      (some (
        value_validation (record no_limits { pattern_ = "a*" }) no_nested no_nested no_nested
          nil_nested))

abbrev compile : String → Option String
compile s = none

abbrev text : Violation → String
text (incomplete missing) = "Required value"
text (needed path detail) = detail
text (forbidden path detail) = detail
text (bad path value detail) = detail

abbrev no_rest : String → Structural
no_rest type = of_type_and type no_extensions

faults_are_sorted :
    validate_structural compile text [] (
      to (
        structural nil
          (property "kind" (no_rest "object") no_properties)
          (structural_or_bool (to (no_rest "string")) false)
          (record no_generic { type = "array" })
          no_extensions
          (record { x_validations = [] })
          none))
    ≡ bad (at_child "type" ∷ []) (str "array") "must be object at the root"
      ∷ needed (at_child "items" ∷ []) "must be specified"
      ∷ bad
          (at_child "type" ∷ at_key "kind" ∷ at_child "properties" ∷ [])
          (str "object")
          "must be string"
      ∷ forbidden (at_child "additionalProperties" ∷ []) "must not be used at the root"
      ∷ []
unfolding validate_structural
faults_are_sorted = refl

nothing_found : validate_structural compile text [] (to (service unset)) ≡ []
unfolding validate_structural
nothing_found = refl

validate_structural-IsStructural_example :
    IsStructural root_level (service unset)
    × (all
          (has_place only_plain (to (service unset)))
          (mentioned_optional only_plain (value_validation_of (service unset)))
        ≡ true)
validate_structural-IsStructural_example =
    validate_structural-IsStructural compile text [] (service unset) nothing_found
